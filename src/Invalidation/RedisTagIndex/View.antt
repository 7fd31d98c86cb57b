-- ===== src/Invalidation/RedisTagIndex/View.antt =====
-- What src/invalidation/RedisTagIndex.ts promises: an abstract view of the calls, which keys are known and
-- which tags each has, and that the sets in Redis represent it.
use layercache.Base.{Bool, true, false, ◌||◌, ite, List, [], ◌∷◌, map, ◌≡◌, ◌≢◌, ap, refl, arith}
use layercache.Redis.{Text, Redis, is_member, among, IsLawful}
use layercache.JsMap.Members.{contains}
use layercache.Invalidation.TagIndex.{Call, touches, removes, tracks, clears}
use layercache.Invalidation.RedisTagIndex.{
  RedisTagIndex, Builtins, known_keys_key_for, key_tags_key, tag_keys_key, touch, track, remove,
  clear, tags_for_key,
}
use layercache.Invalidation.RedisTagIndex.Names.{
  IsKnownSet, known_keys_key_for-IsKnownSet, known_set-key_tags, known_set-tag_keys,
  tag_keys_key-injective,
}
use layercache.Invalidation.RedisTagIndex.Commands.{member-track}

pub record View : Type 0 where
  pub known : Text → Bool
  pub tagged : Text → Text → Bool

abbrev pub empty_view : View
empty_view = record { known = λ x. false; tagged = λ x t. false }

module _ (dec : Discrete Text) where
  abbrev pub view_step : View → Call → View
  view_step v (touches key) = record v { known = λ x. ite (dec x key) true (v.known x) }
  view_step v (removes key) = record {
    known = λ x. ite (dec x key) false (v.known x);
    tagged = λ x t. ite (dec x key) false (v.tagged x t);
  }
  view_step v (tracks key tags) = record {
    known = λ x. ite (dec x key) true (v.known x);
    tagged = λ x t. ite (dec x key) (contains dec t tags) (v.tagged x t);
  }
  view_step v clears = empty_view

  unfoldable pub view_run : View → List Call → View
  view_run v [] = v
  view_run v (c ∷ cs) = view_run (view_step v c) cs

module _ (b : Builtins) (self : RedisTagIndex) {W : Type 0} (redis : Redis W)
    (dec : Discrete Text) where
  abbrev pub redis_step : W → Call → W
  redis_step w (touches key) = touch b self redis key w
  redis_step w (removes key) = remove b self redis key w
  redis_step w (tracks key tags) = track b self redis dec key tags w
  redis_step w clears = clear b self redis w

  unfoldable pub redis_run : W → List Call → W
  redis_run w [] = w
  redis_run w (c ∷ cs) = redis_run (redis_step w c) cs

  -- Each key stands in its own set of known keys only; the sets by tag and those by key agree.
  pub record Represents (v : View) (w : W) : Type 0 where
    pub is_known : (x : Text) → is_member dec redis w (known_keys_key_for b self x) x ≡ v.known x
    pub is_placed :
        (j x : Text)
        → IsKnownSet b self j
        → is_member dec redis w j x ≡ true
        → j ≡ known_keys_key_for b self x
    pub by_tag : (x t : Text) → is_member dec redis w (tag_keys_key b self t) x ≡ v.tagged x t
    pub by_key : (x t : Text) → is_member dec redis w (key_tags_key b self x) t ≡ v.tagged x t

  module _ (laws : IsLawful dec redis)
      (inj : (x y : Text) → b.encode_uri_component x ≡ b.encode_uri_component y → x ≡ y) where
    pub contains-tag_keys :
        (t : Text) (ts : List Text)
        → contains dec (tag_keys_key b self t) (map (tag_keys_key b self) ts) ≡ contains dec t ts
    unfolding contains
    contains-tag_keys t [] = refl
    contains-tag_keys t (u ∷ ts) = elim (dec u t) [
      | yes e ↦ rw e (ground arith)
      | no n ↦
          let apart = tag_keys_key-injective b self inj u t in
          ground (arith, apart, contains-tag_keys t ts)
    ]

    pub contains-other :
        (j : Text) (ts : List Text)
        → ((t : Text) → j ≢ tag_keys_key b self t)
        → contains dec j (map (tag_keys_key b self) ts) ≡ false
    unfolding contains
    contains-other j [] h = refl
    contains-other j (t ∷ ts) h = ground (arith, h t, contains-other j ts h)

    pub contains-tags_for_key :
        (x t : Text) (w : W)
        → contains dec t (tags_for_key b self redis x w)
          ≡ is_member dec redis w (key_tags_key b self x) t
    unfolding tags_for_key is_member
    contains-tags_for_key x t w = refl

    -- A known set has no name of another kind.
    pub not_tag_keys :
        (j : Text) (ts : List Text)
        → IsKnownSet b self j
        → contains dec j (map (tag_keys_key b self) ts) ≡ false
    not_tag_keys j ts k = contains-other j ts (λ t. known_set-tag_keys b self j t k)

    pub track-known :
        (key : Text) (tags : List Text) (w : W) (j x : Text)
        → IsKnownSet b self j
        → is_member dec redis (track b self redis dec key tags w) j x ≡ (
            among dec redis j (known_keys_key_for b self key ∷ []) x (key ∷ [])
            || is_member dec redis w j x)
    unfolding among contains
    track-known key tags w j x k = ground (
      arith,
      member-track b self redis dec laws key tags w j x,
      not_tag_keys j tags k,
      not_tag_keys j (tags_for_key b self redis key w) k,
      known_set-key_tags b self j key k,
    )

    -- What `touch` and `track` do to the known sets adds the key.
    pub known_added :
        (v : View) (w w' : W) (key : Text)
        → Represents v w
        → ((j x : Text)
            → IsKnownSet b self j
            → is_member dec redis w' j x ≡ (
                among dec redis j (known_keys_key_for b self key ∷ []) x (key ∷ [])
                || is_member dec redis w j x))
        → ((x : Text)
            → is_member dec redis w' (known_keys_key_for b self x) x
              ≡ ite (dec x key) true (v.known x))
          × ((j x : Text)
              → IsKnownSet b self j
              → is_member dec redis w' j x ≡ true
              → j ≡ known_keys_key_for b self x)
    unfolding among contains
    known_added v w w' key r h = (
      λ x.
          let now = h (known_keys_key_for b self x) x (known_keys_key_for-IsKnownSet b self x) in
          ground (arith, now, r.is_known x, ap (known_keys_key_for b self)),
      λ j x k m. elim (dec key x) [
        | yes e ↦ ground (arith, e, ap (known_keys_key_for b self) e, h j x k, m, r.is_placed j x k)
        | no n ↦ ground (arith, n, h j x k, m, r.is_placed j x k)
      ],
    )
