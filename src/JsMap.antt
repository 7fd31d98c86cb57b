-- ===== src/JsMap.antt =====
-- The JavaScript `Map`, which the components of the repository keep their state in: an association
-- list in insertion order, over any type of keys with a decidable equality.
pub mod Laws
pub mod Values
pub mod Members
use layercache.Base.{
  ℕ, zero, suc, List, [], ◌∷◌, map, Option, none, some, Bool, ite, is_some, length, ◌≡◌, not,
}

abbrev pub JsMap : Type 0 → Type 0 → Type 0
JsMap K V = List (K × V)

module _ {K V : Type 0} (dec : Discrete K) where
  -- map.get(key)
  unfoldable pub get : K → JsMap K V → Option V
  get k [] = none
  get k ((j, v) ∷ m) = ite (dec j k) (some v) (get k m)

  -- map.has(key)
  abbrev pub has : K → JsMap K V → Bool
  has k m = is_some (get k m)

  -- map.set(key, value): a present key keeps its place, a new one goes to the end
  unfoldable pub set : K → V → JsMap K V → JsMap K V
  set k v [] = (k, v) ∷ []
  set k v ((j, w) ∷ m) = ite (dec j k) ((j, v) ∷ m) ((j, w) ∷ set k v m)

  -- map.delete(key)
  unfoldable pub delete : K → JsMap K V → JsMap K V
  delete k [] = []
  delete k ((j, w) ∷ m) = ite (dec j k) (delete k m) ((j, w) ∷ delete k m)

  -- a round of `map.delete(map.keys().next().value)`, `n` times or until the map is empty
  unfoldable pub delete_oldest : ℕ → JsMap K V → JsMap K V
  delete_oldest zero m = m
  delete_oldest (suc n) [] = []
  delete_oldest (suc n) ((k, v) ∷ m) = delete_oldest n (delete k ((k, v) ∷ m))

  -- No key stands twice.
  abbrev pub IsDistinct : JsMap K V → Type 0
  IsDistinct [] = Unit
  IsDistinct ((j, w) ∷ m) = (get j m ≡ none) × IsDistinct m

-- map.size
abbrev pub size : {K V : Type 0} → JsMap K V → ℕ
size m = length m

-- map.keys()
abbrev pub keys : {K V : Type 0} → JsMap K V → List K
keys m = map (λ e. e.0) m
