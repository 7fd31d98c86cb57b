-- ===== src/JsMap/Members.antt =====
-- Which elements a list has: `list.includes(x)`, and the keys of a `Map` as a list.
use layercache.Base.{
  Bool, true, false, ◌&&◌, ◌||◌, ite, List, [], ◌∷◌, ◌++◌, keep, ◌≡◌, refl, ap, arith,
}
use layercache.JsMap.{JsMap}
use layercache.JsMap

module _ {K : Type 0} (dec : Discrete K) where
  unfoldable pub contains : K → List K → Bool
  contains k [] = false
  contains k (j ∷ ks) = ite (dec j k) true (contains k ks)

  pub contains-append :
      (k : K) (ks ls : List K) → contains k (ks ++ ls) ≡ (contains k ks || contains k ls)
  unfolding contains
  contains-append k [] ls = refl
  contains-append k (j ∷ ks) ls = ground (arith, contains-append k ks ls)

  pub contains-keys :
      (k : K) (m : JsMap K (Unit {0})) → contains k (JsMap.keys m) ≡ JsMap.has dec k m
  unfolding contains JsMap.get
  contains-keys k [] = refl
  contains-keys k ((j, v) ∷ m) = ground (arith, contains-keys k m)

  pub contains-keep :
      (p : K → Bool) (k : K) (ks : List K) → contains k (keep p ks) ≡ (contains k ks && p k)
  unfolding contains
  contains-keep p k [] = refl
  contains-keep p k (j ∷ ks) = elim (dec j k) [
    | yes e ↦ ground (arith, e, ap p e, contains-keep p k ks)
    | no n ↦ ground (arith, n, contains-keep p k ks)
  ]

  -- Adding what a `Set` has changes nothing.
  pub set_present :
      (k : K) (m : JsMap K (Unit {0})) → JsMap.has dec k m ≡ true → JsMap.set dec k tt m ≡ m
  unfolding JsMap.get JsMap.set
  set_present k [] h = absurd (ground (arith, h))
  set_present k ((j, u) ∷ m) h = ground (arith, h, set_present k m)
