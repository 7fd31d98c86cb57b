-- ===== src/Invalidation/RedisTagIndex/Answers.antt =====
-- What the reading methods of src/invalidation/RedisTagIndex.ts answer, where the sets in Redis represent
-- an abstract view of the calls.
use layercache.Base.{
  ℕ, ◌<◌, Bool, true, false, ◌&&◌, ◌||◌, ◌==◌, inl, inr, ◌⊎◌, Bool-cases, All, starts_with, Option,
  none, some, List, [], ◌∷◌, map, ◌≡◌, refl, ap, arith,
}
use layercache.JsMap
use layercache.Redis.{Text, Redis, is_member, elements, IsLawful}
use layercache.JsMap.Members.{contains, contains-keys}
use layercache.JsMap.Laws.{get-set}
use layercache.Invalidation.PatternMatcher.{matches}
use layercache.Invalidation.TagIndex.{TextSet}
use layercache.Invalidation.RedisTagIndex.{
  RedisTagIndex, Builtins, known_keys_key_for, known_keys_keys, known_keys_keys_for_read, collect,
  scan_sets, keys_for_prefix, match_pattern, keys_for_tag, for_each_key_for_tag, tags_for_key,
  legacy_known_keys_key, shard_key, indices, tag_keys_key,
}
use layercache.Invalidation.RedisTagIndex.Names.{IsKnownSet, contains-known_keys_keys}
use layercache.Invalidation.RedisTagIndex.View.{View, Represents}

module _ (dec : Discrete Text) where
  has-collect :
      (test : Text → Bool) (ks : List Text) (found : TextSet) (x : Text)
      → JsMap.has dec x (collect dec test ks found)
        ≡ (JsMap.has dec x found || (contains dec x ks && test x))
  unfolding collect contains
  has-collect test [] found x = ground arith
  has-collect test (k ∷ ks) found x = elim (dec k x) [
    | yes e ↦ ground (
      arith,
      e,
      ap test e,
      has-collect test ks found x,
      has-collect test ks (JsMap.set dec k tt found) x,
      get-set dec x k tt found,
    )
    | no n ↦ ground (
      arith,
      n,
      has-collect test ks found x,
      has-collect test ks (JsMap.set dec k tt found) x,
      get-set dec x k tt found,
    )
  ]

module _ (b : Builtins) (self : RedisTagIndex) {W : Type 0} (redis : Redis W)
    (dec : Discrete Text) where
  -- One of the sets has the element.
  abbrev pub any_member : List Text → W → Text → Bool
  any_member [] w x = false
  any_member (set ∷ sets) w x = is_member dec redis w set x || any_member sets w x

  pub has-scan_sets :
      (pattern : Option Text) (test hit : Text → Bool) (sets : List Text) (w : W) (found : TextSet)
      (x : Text)
      → ((set : Text)
          → contains dec x (elements (redis.sscan self.scan_count pattern set w))
            ≡ (is_member dec redis w set x && hit x))
      → JsMap.has dec x (scan_sets b self redis dec pattern test sets w found)
        ≡ (JsMap.has dec x found || (any_member sets w x && (hit x && test x)))
  unfolding scan_sets
  has-scan_sets pattern test hit [] w found x pages = ground arith
  has-scan_sets pattern test hit (set ∷ sets) w found x pages =
      let page = elements (redis.sscan self.scan_count pattern set w) in
      ground (
        arith,
        has-scan_sets pattern test hit sets w (collect dec test page found) x pages,
        has-collect dec test page found x,
        pages set,
      )

  shards-IsKnownSet : (ns : List ℕ) → All (IsKnownSet b self) (map (shard_key b self) ns)
  shards-IsKnownSet [] = tt
  shards-IsKnownSet (n ∷ ns) = (inr (n, refl), shards-IsKnownSet ns)

  known_keys_keys-IsKnownSet : All (IsKnownSet b self) (known_keys_keys b self)
  unfolding known_keys_keys legacy_known_keys_key
  known_keys_keys-IsKnownSet = elim (Bool-cases (self.known_keys_shards == 1)) [
    | inl e ↦ rw e (inl refl, tt)
    | inr e ↦ rw e (shards-IsKnownSet (indices self.known_keys_shards))
  ]

  pub read_cases :
      (w : W)
      → (known_keys_keys_for_read b self redis w ≡ known_keys_keys b self)
        ⊎ (known_keys_keys_for_read b self redis w
            ≡ legacy_known_keys_key b self ∷ known_keys_keys b self)
  unfolding known_keys_keys_for_read known_keys_keys legacy_known_keys_key
  read_cases w = elim (Bool-cases (self.known_keys_shards == 1)) [
    | inl e ↦ inl (rw e refl)
    | inr e ↦ elim (Bool-cases (redis.exists (legacy_known_keys_key b self) w)) [
      | inl f ↦ inr (rw (e, f) refl)
      | inr f ↦ inl (rw (e, f) refl)
    ]
  ]

  read-IsKnownSet : (w : W) → All (IsKnownSet b self) (known_keys_keys_for_read b self redis w)
  read-IsKnownSet w = elim (read_cases w) [
    | inl e ↦ rw e known_keys_keys-IsKnownSet
    | inr e ↦ rw e (inl refl, known_keys_keys-IsKnownSet)
  ]

  -- A key's own set is read.
  contains-read :
      (w : W) (x : Text)
      → 0 < self.known_keys_shards
      → contains dec (known_keys_key_for b self x) (known_keys_keys_for_read b self redis w) ≡ true
  unfolding contains
  contains-read w x pos =
      let own = contains-known_keys_keys b self dec x pos in
      elim (read_cases w) [ inl e ↦ rw e own | inr e ↦ rw e (ground (arith, own)) ]

  -- A key stands in its own set only, so the others need not be asked.
  any_member-placed :
      (sets : List Text) (w : W) (x : Text)
      → ((j : Text)
          → IsKnownSet b self j
          → is_member dec redis w j x ≡ true
          → j ≡ known_keys_key_for b self x)
      → All (IsKnownSet b self) sets
      → any_member sets w x ≡ (
          contains dec (known_keys_key_for b self x) sets
          && is_member dec redis w (known_keys_key_for b self x) x)
  unfolding contains
  any_member-placed [] w x h k = refl
  any_member-placed (j ∷ sets) w x h k = elim (dec j (known_keys_key_for b self x)) [
    | yes e ↦
        ground (arith, ap (λ n. is_member dec redis w n x) e, any_member-placed sets w x h k.1)
    | no n ↦ ground (arith, n, h j k.0, any_member-placed sets w x h k.1)
  ]

  any_member-known :
      (v : View) (w : W) (x : Text)
      → 0 < self.known_keys_shards
      → Represents b self redis dec v w
      → any_member (known_keys_keys_for_read b self redis w) w x ≡ v.known x
  any_member-known v w x pos r =
      let sets = known_keys_keys_for_read b self redis w in
      ground (
        arith,
        any_member-placed sets w x (λ j. r.is_placed j x) (read-IsKnownSet w),
        contains-read w x pos,
        r.is_known x,
      )

  pub record Answers (v : View) (w : W) : Type 0 where
    pub by_prefix :
        (prefix x : Text)
        → contains dec x (keys_for_prefix b self redis dec prefix w)
          ≡ (v.known x && starts_with prefix x)
    pub by_pattern :
        (pattern x : Text)
        → contains dec x (match_pattern b self redis dec pattern w)
          ≡ (v.known x && (redis.glob pattern x && matches pattern x))
    pub by_tag : (tag x : Text) → contains dec x (keys_for_tag b self redis tag w) ≡ v.tagged x tag
    pub visited_by_tag :
        (tag x : Text) → contains dec x (for_each_key_for_tag b self redis tag w) ≡ v.tagged x tag
    pub by_key : (x tag : Text) → contains dec tag (tags_for_key b self redis x w) ≡ v.tagged x tag

  module _ (laws : IsLawful dec redis) where
    pub contains-scan :
        (v : View) (w : W) (pattern : Option Text) (test hit : Text → Bool) (x : Text)
        → 0 < self.known_keys_shards
        → Represents b self redis dec v w
        → ((set : Text)
            → contains dec x (elements (redis.sscan self.scan_count pattern set w))
              ≡ (is_member dec redis w set x && hit x))
        → contains dec x (
            JsMap.keys (
              scan_sets b self redis dec pattern test
                (known_keys_keys_for_read b self redis w)
                w
                []))
          ≡ (v.known x && (hit x && test x))
    unfolding JsMap.get
    contains-scan v w pattern test hit x pos r pages =
        let sets = known_keys_keys_for_read b self redis w in
        ground (
          arith,
          contains-keys dec x (scan_sets b self redis dec pattern test sets w []),
          has-scan_sets pattern test hit sets w [] x pages,
          any_member-known v w x pos r,
        )

    pub represented-Answers :
        (v : View) (w : W)
        → 0 < self.known_keys_shards
        → Represents b self redis dec v w
        → Answers v w
    unfolding keys_for_prefix match_pattern keys_for_tag tags_for_key for_each_key_for_tag is_member
    represented-Answers v w pos r = record {
      by_prefix = λ prefix x.
          contains-scan v w none (starts_with prefix) (λ y. true) x pos r
            (λ set. ground (arith, laws.sscan-all self.scan_count set w x));
      by_pattern = λ pattern x.
          contains-scan v w (some pattern) (matches pattern) (redis.glob pattern) x pos r
            (λ set. laws.sscan-match self.scan_count pattern set w x);
      by_tag = λ tag x. r.by_tag x tag;
      visited_by_tag = λ tag x.
          ground
            (arith, r.by_tag x tag, laws.sscan-all self.scan_count (tag_keys_key b self tag) w x);
      by_key = λ x tag. r.by_key x tag;
    }
