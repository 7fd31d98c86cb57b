-- ===== src/Internal/InvalidationSupport/Intersections.antt =====
-- Which keys src/internal/CacheStackInvalidationSupport.ts finds in all of several groups.
use layercache.Base.{Bool, true, ◌&&◌, ◌||◌, List, [], ◌∷◌, ◌≡◌, refl, arith}
use layercache.JsMap.{JsMap}
use layercache.JsMap
use layercache.JsMap.Laws.{get-set}
use layercache.JsMap.Members.{contains, contains-keys, contains-keep}
use layercache.Internal.InvalidationSupport.{Set, add_all, in_all, intersect_keys}

module _ {K : Type 0} (dec : Discrete K) where
  abbrev pub all_contain : K → List (List K) → Bool
  all_contain k [] = true
  all_contain k (group ∷ groups) = contains dec k group && all_contain k groups

  has-add_all :
      (k : K) (ks : List K) (keys : Set K)
      → JsMap.has dec k (add_all dec ks keys) ≡ (JsMap.has dec k keys || contains dec k ks)
  unfolding add_all contains
  has-add_all k [] keys = ground arith
  has-add_all k (j ∷ ks) keys =
      ground (arith, has-add_all k ks (JsMap.set dec j tt keys), get-set dec k j tt keys)

  in_all-contain : (k : K) (groups : List (List K)) → in_all dec groups k ≡ all_contain k groups
  unfolding JsMap.get
  in_all-contain k [] = refl
  in_all-contain k (group ∷ groups) =
      ground (arith, has-add_all k group [], in_all-contain k groups)

  -- A key is among the intersection of groups exactly when it is in each of them.
  pub contains-intersect_keys :
      (k : K) (group : List K) (groups : List (List K))
      → contains dec k (intersect_keys dec (group ∷ groups)) ≡ all_contain k (group ∷ groups)
  unfolding intersect_keys JsMap.get
  contains-intersect_keys k group groups =
      let keys = JsMap.keys (add_all dec group []) in
      ground (
        arith,
        contains-keep dec (in_all dec groups) k keys,
        contains-keys dec k (add_all dec group []),
        has-add_all k group [],
        in_all-contain k groups,
      )
