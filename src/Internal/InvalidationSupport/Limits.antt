-- ===== src/Internal/InvalidationSupport/Limits.antt =====
-- How many keys src/internal/CacheStackInvalidationSupport.ts collects.
use layercache.Base.{
  ℕ, suc, ◌≤◌, ltb, Option, none, some, if◌then◌else◌, List, [], ◌∷◌, ◌≡◌, refl, arith,
}
use layercache.Exec.{ok, err}
use layercache.JsMap
use layercache.JsMap.Laws.{size-set}
use layercache.Internal.InvalidationSupport.{Set, collect_keys, add_all, too_many_keys}

module _ {K : Type 0} (dec : Discrete K) where
  size-add_all : (ks : List K) (keys : Set K) → JsMap.size keys ≤ JsMap.size (add_all dec ks keys)
  unfolding add_all
  size-add_all [] keys = omega arith
  size-add_all (k ∷ ks) keys =
      ground (arith, size-set dec k tt keys, size-add_all ks (JsMap.set dec k tt keys))

  collect_unlimited :
      (ks : List K) (keys : Set K)
      → collect_keys dec none keys ks ≡ ok (JsMap.keys (add_all dec ks keys))
  unfolding collect_keys add_all
  collect_unlimited [] keys = refl
  collect_unlimited (k ∷ ks) keys = collect_unlimited ks (JsMap.set dec k tt keys)

  collect_from :
      (m : ℕ) (ks : List K) (keys : Set K)
      → JsMap.size keys ≤ m
      → collect_keys dec (some m) keys ks ≡ (
          if ltb m (JsMap.size (add_all dec ks keys))
          then err (too_many_keys (suc m))
          else ok (JsMap.keys (add_all dec ks keys)))
  unfolding collect_keys add_all
  collect_from m [] keys le = ground (arith, le)
  collect_from m (k ∷ ks) keys le =
      let keys' = JsMap.set dec k tt keys in
      let grown = size-set dec k tt keys in
      let more = size-add_all ks keys' in ground (arith, le, grown, more, collect_from m ks keys')

  -- Collecting the keys of a tag returns each key once, in the order of its first visit, or throws as
  -- soon as there is one more than the limit; without a limit it returns them all.
  pub collect_keys-add_all :
      (max_keys : Option ℕ) (ks : List K)
      → collect_keys dec max_keys [] ks ≡ (elim max_keys [
        | none ↦ ok (JsMap.keys (add_all dec ks []))
        | some m ↦
            if ltb m (JsMap.size (add_all dec ks []))
            then err (too_many_keys (suc m))
            else ok (JsMap.keys (add_all dec ks []))
      ])
  collect_keys-add_all none ks = collect_unlimited ks []
  collect_keys-add_all (some m) ks = collect_from m ks [] (omega arith)
