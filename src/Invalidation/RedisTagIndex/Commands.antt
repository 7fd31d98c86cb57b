-- ===== src/Invalidation/RedisTagIndex/Commands.antt =====
-- What the pipelines of src/invalidation/RedisTagIndex.ts do to the sets, in terms of their elements.
use layercache.Base.{ltb, if◌then◌else◌, not, ◌&&◌, ◌||◌, List, [], ◌∷◌, map, ◌≡◌, refl, ap, arith}
use layercache.JsMap
use layercache.Redis.{Text, Redis, sadd, srem, del, exec, is_member, among, IsLawful}
use layercache.JsMap.Members.{contains}
use layercache.Invalidation.TagIndex.{TextSet, set_of}
use layercache.Invalidation.RedisTagIndex.{
  RedisTagIndex, Builtins, known_keys_key_for, key_tags_key, tag_keys_key, unlink, link, add_tags,
  track, remove, tags_for_key, legacy_known_keys_key,
}

module _ (dec : Discrete Text) where
  -- The images of a `Set`.
  contains-map-set :
      (f : Text → Text) (j k : Text) (m : TextSet)
      → contains dec j (map f (JsMap.keys (JsMap.set dec k tt m)))
        ≡ (contains dec j (map f (JsMap.keys m)) || contains dec j (f k ∷ []))
  unfolding contains JsMap.set
  contains-map-set f j k [] = refl
  contains-map-set f j k ((i, u) ∷ m) = elim (dec i k) [
    | yes e ↦ ground (arith, ap f e)
    | no n ↦ ground (arith, contains-map-set f j k m)
  ]

  pub contains-map-set_of :
      (f : Text → Text) (j : Text) (ts : List Text) (m : TextSet)
      → contains dec j (map f (JsMap.keys (set_of dec ts m)))
        ≡ (contains dec j (map f (JsMap.keys m)) || contains dec j (map f ts))
  unfolding contains set_of
  contains-map-set_of f j [] m = ground arith
  contains-map-set_of f j (t ∷ ts) m =
      ground (arith, contains-map-set_of f j ts (JsMap.set dec t tt m), contains-map-set f j t m)

module _ (b : Builtins) (self : RedisTagIndex) {W : Type 0} (redis : Redis W) (dec : Discrete Text)
    (laws : IsLawful dec redis) where
  member-unlink :
      (key : Text) (tags : List Text) (w : W) (j x : Text)
      → is_member dec redis (unlink b self redis key tags w) j x ≡ (
          not (among dec redis j (map (tag_keys_key b self) tags) x (key ∷ []))
          && is_member dec redis w j x)
  unfolding unlink exec among contains
  member-unlink key [] w j x = ground arith
  member-unlink key (t ∷ ts) w j x =
      let w' = redis.call (srem (tag_keys_key b self t) (key ∷ [])) w in
      ground (
        arith,
        member-unlink key ts w' j x,
        laws.call-srem (tag_keys_key b self t) (key ∷ []) w j x,
      )

  member-link :
      (key : Text) (tags : List Text) (w : W) (j x : Text)
      → is_member dec redis (link b self redis key tags w) j x ≡ (
          among dec redis j (map (tag_keys_key b self) tags) x (key ∷ [])
          || is_member dec redis w j x)
  unfolding link exec among contains
  member-link key [] w j x = ground arith
  member-link key (t ∷ ts) w j x =
      let w' = redis.call (sadd (tag_keys_key b self t) (key ∷ [])) w in
      ground
        (arith, member-link key ts w' j x, laws.call-sadd (tag_keys_key b self t) (key ∷ []) w j x)

  member-add_tags :
      (key : Text) (tags : List Text) (w : W) (j x : Text)
      → is_member dec redis (add_tags b self redis dec key tags w) j x ≡ (
          among dec redis j (map (tag_keys_key b self) tags) x (key ∷ [])
          || (among dec redis j (key_tags_key b self key ∷ []) x tags || is_member dec redis w j x))
  unfolding add_tags among contains
  member-add_tags key [] w j x = ground arith
  member-add_tags key (t ∷ ts) w j x =
      let w' = redis.call (sadd (key_tags_key b self key) (t ∷ ts)) w in
      ground (
        arith,
        member-link key (JsMap.keys (set_of dec (t ∷ ts) [])) w' j x,
        contains-map-set_of dec (tag_keys_key b self) j (t ∷ ts) [],
        laws.call-sadd (key_tags_key b self key) (t ∷ ts) w j x,
      )

  pub member-track :
      (key : Text) (tags : List Text) (w : W) (j x : Text)
      → is_member dec redis (track b self redis dec key tags w) j x ≡ (
          among dec redis j (map (tag_keys_key b self) tags) x (key ∷ [])
          || (among dec redis j (key_tags_key b self key ∷ []) x tags
              || (not (contains dec j (key_tags_key b self key ∷ []))
                  && (not (
                        among dec redis j
                          (map (tag_keys_key b self) (tags_for_key b self redis key w))
                          x
                          (key ∷ []))
                      && (among dec redis j (known_keys_key_for b self key ∷ []) x (key ∷ [])
                          || is_member dec redis w j x)))))
  unfolding track tags_for_key
  member-track key tags w j x =
      let existing = redis.smembers (key_tags_key b self key) w in
      let w₁ = redis.call (sadd (known_keys_key_for b self key) (key ∷ [])) w in
      let w₂ = unlink b self redis key existing w₁ in
      let w₃ = redis.call (del (key_tags_key b self key ∷ [])) w₂ in
      ground (
        arith,
        member-add_tags key tags w₃ j x,
        laws.call-del (key_tags_key b self key ∷ []) w₂ j x,
        member-unlink key existing w₁ j x,
        laws.call-sadd (known_keys_key_for b self key) (key ∷ []) w j x,
      )

  pub member-remove :
      (key : Text) (w : W) (j x : Text)
      → is_member dec redis (remove b self redis key w) j x ≡ (
          not (
            among dec redis j
              (map (tag_keys_key b self) (tags_for_key b self redis key w))
              x
              (key ∷ []))
          && (not (contains dec j (key_tags_key b self key ∷ []))
              && (not (
                    ltb 1 self.known_keys_shards
                    && among dec redis j (legacy_known_keys_key b self ∷ []) x (key ∷ []))
                  && (not (among dec redis j (known_keys_key_for b self key ∷ []) x (key ∷ []))
                      && is_member dec redis w j x))))
  unfolding remove tags_for_key
  member-remove key w j x =
      let existing = redis.smembers (key_tags_key b self key) w in
      let w₁ = redis.call (srem (known_keys_key_for b self key) (key ∷ [])) w in
      let l = legacy_known_keys_key b self in
      let w₂ = if ltb 1 self.known_keys_shards then redis.call (srem l (key ∷ [])) w₁ else w₁ in
      let w₃ = redis.call (del (key_tags_key b self key ∷ [])) w₂ in
      ground (
        arith,
        member-unlink key existing w₃ j x,
        laws.call-del (key_tags_key b self key ∷ []) w₂ j x,
        laws.call-srem l (key ∷ []) w₁ j x,
        laws.call-srem (known_keys_key_for b self key) (key ∷ []) w j x,
      )
