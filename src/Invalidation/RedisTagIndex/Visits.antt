-- ===== src/Invalidation/RedisTagIndex/Visits.antt =====
-- The visiting methods of src/invalidation/RedisTagIndex.ts beside the listing ones.
use layercache.Base.{
  Bool, Bool-cases, inl, inr, Option, none, some, starts_with, List, [], ◌∷◌, ◌≡◌, refl, ap, ◌∙◌,
}
use layercache.JsMap
use layercache.JsMap.{JsMap}
use layercache.JsMap.Members.{set_present}
use layercache.Redis.{Text, Redis, elements}
use layercache.Invalidation.PatternMatcher.{matches}
use layercache.Invalidation.TagIndex.{TextSet}
use layercache.Invalidation.RedisTagIndex.{
  RedisTagIndex, Builtins, collect, visit_page, scan_sets, visit_sets, keys_for_prefix,
  match_pattern, for_each_key_for_prefix, for_each_key_matching_pattern, known_keys_keys_for_read,
}

module _ (dec : Discrete Text) where
  visit_page-collect :
      (test : Text → Bool) (ks : List Text) (visited : TextSet)
      → visit_page dec test ks visited ≡ collect dec test ks visited
  unfolding visit_page collect
  visit_page-collect test [] visited = refl
  visit_page-collect test (k ∷ ks) visited = elim (Bool-cases (test k)) [
    | inr e ↦ rw e (visit_page-collect test ks visited)
    | inl e ↦ elim (Bool-cases (JsMap.has dec k visited)) [
      | inl h ↦ rw (e, h, set_present dec k visited h) (visit_page-collect test ks visited)
      | inr h ↦ rw (e, h) (visit_page-collect test ks (JsMap.set dec k tt visited))
    ]
  ]

module _ (b : Builtins) (self : RedisTagIndex) {W : Type 0} (redis : Redis W)
    (dec : Discrete Text) where
  visit_sets-scan_sets :
      (pattern : Option Text) (test : Text → Bool) (sets : List Text) (w : W) (found : TextSet)
      → visit_sets b self redis dec pattern test sets w found
        ≡ scan_sets b self redis dec pattern test sets w found
  unfolding visit_sets scan_sets
  visit_sets-scan_sets pattern test [] w found = refl
  visit_sets-scan_sets pattern test (set ∷ sets) w found =
      let page = elements (redis.sscan self.scan_count pattern set w) in
      visit_sets-scan_sets pattern test sets w (visit_page dec test page found)
      ∙ ap (scan_sets b self redis dec pattern test sets w) (visit_page-collect dec test page found)

  -- The visiting methods visit the keys that the listing ones return, each once and in the same order,
  -- however often a scan repeats a key.
  pub for_each-list :
      (text : Text) (w : W)
      → (for_each_key_for_prefix b self redis dec text w ≡ keys_for_prefix b self redis dec text w)
        × (for_each_key_matching_pattern b self redis dec text w
            ≡ match_pattern b self redis dec text w)
  unfolding for_each_key_for_prefix for_each_key_matching_pattern keys_for_prefix match_pattern
  for_each-list text w =
      let sets = known_keys_keys_for_read b self redis w in
      (
        ap JsMap.keys (visit_sets-scan_sets none (starts_with text) sets w []),
        ap JsMap.keys (visit_sets-scan_sets (some text) (matches text) sets w []),
      )
