-- ===== src/JsMap/Laws.antt =====
-- The laws of `Map`: reads after writes, distinct keys, sizes.
use layercache.Base.{
  ℕ, zero, suc, drop, ◌⊎◌, inr, ◌+◌, ◌≤◌, [], ◌∷◌, ◌++◌, none, some, ite, arith, ◌≡◌, refl,
  if◌then◌else◌, keep, Bool,
}
use layercache.JsMap.{JsMap, delete_oldest, get, set, delete, has, IsDistinct, size}

module _ {K V : Type 0} (dec : Discrete K) where
  pub get-set :
      (j k : K) (v : V) (m : JsMap K V)
      → get dec j (set dec k v m) ≡ ite (dec k j) (some v) (get dec j m)
  unfolding get set
  get-set j k v [] = refl
  get-set j k v ((i, w) ∷ m) = ground (arith, get-set j k v m)

  pub get-delete :
      (j k : K) (m : JsMap K V) → get dec j (delete dec k m) ≡ ite (dec k j) none (get dec j m)
  unfolding get delete
  get-delete j k [] = ground arith
  get-delete j k ((i, w) ∷ m) = ground (arith, get-delete j k m)

  pub set-IsDistinct :
      (k : K) (v : V) (m : JsMap K V) → IsDistinct dec m → IsDistinct dec (set dec k v m)
  unfolding set get
  set-IsDistinct k v [] d = (refl, tt)
  set-IsDistinct k v ((i, w) ∷ m) d = ground (arith, set-IsDistinct k v m d.1, get-set i k v m)

  pub delete-IsDistinct :
      (k : K) (m : JsMap K V) → IsDistinct dec m → IsDistinct dec (delete dec k m)
  unfolding delete get
  delete-IsDistinct k [] d = tt
  delete-IsDistinct k ((i, w) ∷ m) d = ground (arith, delete-IsDistinct k m d.1, get-delete i k m)

  pub delete_absent : (k : K) (m : JsMap K V) → get dec k m ≡ none → delete dec k m ≡ m
  unfolding delete get
  delete_absent k [] h = refl
  delete_absent k ((i, w) ∷ m) h = ground (arith, delete_absent k m)

  pub size-set :
      (k : K) (v : V) (m : JsMap K V)
      → size (set dec k v m) ≡ (if has dec k m then size m else size m + 1)
  unfolding set get
  size-set k v [] = refl
  size-set k v ((i, w) ∷ m) = ground (arith, size-set k v m)

  pub size-delete-le : (k : K) (m : JsMap K V) → size (delete dec k m) ≤ size m
  unfolding delete
  size-delete-le k [] = omega arith
  size-delete-le k ((i, w) ∷ m) = ground (arith, size-delete-le k m)

  pub size-delete :
      (k : K) (m : JsMap K V)
      → IsDistinct dec m
      → size m ≡ (if has dec k m then size (delete dec k m) + 1 else size (delete dec k m))
  unfolding delete get
  size-delete k [] d = refl
  size-delete k ((i, w) ∷ m) d = ground (arith, size-delete k m d.1, delete_absent k m)

  -- A filter over the entries keeps the keys distinct.
  pub get-keep-none :
      (p : K × V → Bool) (k : K) (m : JsMap K V) → get dec k m ≡ none → get dec k (keep p m) ≡ none
  unfolding get
  get-keep-none p k [] h = refl
  get-keep-none p k ((i, w) ∷ m) h = ground (arith, get-keep-none p k m)

  pub keep-IsDistinct :
      (p : K × V → Bool) (m : JsMap K V) → IsDistinct dec m → IsDistinct dec (keep p m)
  keep-IsDistinct p [] d = tt
  keep-IsDistinct p ((i, w) ∷ m) d =
      ground (arith, keep-IsDistinct p m d.1, get-keep-none p i m d.0)

  -- A new key goes to the end.
  pub set_absent :
      (k : K) (v : V) (m : JsMap K V) → get dec k m ≡ none → set dec k v m ≡ m ++ (k, v) ∷ []
  unfolding get set
  set_absent k v [] h = refl
  set_absent k v ((i, w) ∷ m) h = ground (arith, set_absent k v m)

  pub get-append :
      (j k : K) (v : V) (m : JsMap K V)
      → get dec k m ≡ none
      → get dec j (m ++ (k, v) ∷ []) ≡ ite (dec k j) (some v) (get dec j m)
  get-append j k v m h = rw (← set_absent k v m h) (get-set j k v m)

  pub delete-append :
      (j k : K) (v : V) (m : JsMap K V)
      → delete dec j (m ++ (k, v) ∷ []) ≡ delete dec j m ++ ite (dec k j) [] ((k, v) ∷ [])
  unfolding delete
  delete-append j k v [] = refl
  delete-append j k v ((i, w) ∷ m) = ground (arith, delete-append j k v m)

  pub delete_oldest-IsDistinct :
      (n : ℕ) (m : JsMap K V) → IsDistinct dec m → IsDistinct dec (delete_oldest dec n m)
  unfolding delete_oldest
  delete_oldest-IsDistinct zero m d = d
  delete_oldest-IsDistinct (suc n) [] d = tt
  delete_oldest-IsDistinct (suc n) ((k, v) ∷ m) d =
      delete_oldest-IsDistinct n (delete dec k ((k, v) ∷ m)) (delete-IsDistinct k ((k, v) ∷ m) d)

  -- Without double keys the oldest entries are those at the front.
  pub delete_oldest-drop :
      (n : ℕ) (m : JsMap K V) → IsDistinct dec m → delete_oldest dec n m ≡ drop n m
  unfolding delete_oldest delete
  delete_oldest-drop zero m d = refl
  delete_oldest-drop (suc n) [] d = refl
  delete_oldest-drop (suc n) ((k, v) ∷ m) d =
      let same = delete_absent k m d.0 in ground (arith, same, delete_oldest-drop n m d.1)

  -- A key that is still there has its old value.
  pub get-delete_oldest :
      (n : ℕ) (k : K) (m : JsMap K V)
      → (get dec k (delete_oldest dec n m) ≡ none)
        ⊎ (get dec k (delete_oldest dec n m) ≡ get dec k m)
  unfolding delete_oldest
  get-delete_oldest zero k m = inr refl
  get-delete_oldest (suc n) k [] = inr refl
  get-delete_oldest (suc n) k ((j, v) ∷ m) =
      ground (arith, get-delete_oldest n k (delete dec j ((j, v) ∷ m)), get-delete k j ((j, v) ∷ m))
