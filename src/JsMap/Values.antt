-- ===== src/JsMap/Values.antt =====
-- What holds of every value of a `Map`.
use layercache.Base.{[], ◌∷◌, some, arith, ◌≡◌, All}
use layercache.JsMap.{JsMap, get, set, delete}

abbrev pub Values : {K V : Type 0} → (V → Type 0) → JsMap K V → Type 0
Values P m = All (λ e. P e.1) m

module _ {K V : Type 0} (dec : Discrete K) (P : V → Type 0) where
  pub set-Values : (k : K) (v : V) (m : JsMap K V) → P v → Values P m → Values P (set dec k v m)
  unfolding set
  set-Values k v [] p h = (p, tt)
  set-Values k v ((i, w) ∷ m) p h = ground (arith, p, h.0, h.1, set-Values k v m p h.1)

  pub delete-Values : (k : K) (m : JsMap K V) → Values P m → Values P (delete dec k m)
  unfolding delete
  delete-Values k [] h = tt
  delete-Values k ((i, w) ∷ m) h = ground (arith, h.0, delete-Values k m h.1)

  pub get-Values : (k : K) (m : JsMap K V) (v : V) → Values P m → get dec k m ≡ some v → P v
  unfolding get
  get-Values k [] v h e = ground (arith, e)
  get-Values k ((i, w) ∷ m) v h e = ground (arith, h.0, get-Values k m v h.1)
