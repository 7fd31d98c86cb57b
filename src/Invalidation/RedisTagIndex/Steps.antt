-- ===== src/Invalidation/RedisTagIndex/Steps.antt =====
-- Every method of src/invalidation/RedisTagIndex.ts that writes keeps to the abstract view.
use layercache.Base.{true, false, not, ◌&&◌, List, [], ◌∷◌, ◌≡◌, inl, ◌++◌, ap, refl, arith}
use layercache.Redis.{Text, Redis, is_member, among, IsLawful}
use layercache.JsMap.Members.{contains}
use layercache.Invalidation.TagIndex.{Call, touches, removes, tracks, clears}
use layercache.Invalidation.RedisTagIndex.{
  scan_index_keys, delete_keys, index_pattern, RedisTagIndex, Builtins, known_keys_key_for,
  key_tags_key, tag_keys_key, touch, track, remove, clear, tags_for_key, legacy_known_keys_key,
}
use layercache.Invalidation.RedisTagIndex.Names.{
  known_set_name, IsKnownSet, known_keys_key_for-IsKnownSet, known_set-key_tags, known_set-tag_keys,
  key_tags-tag_keys, key_tags_key-injective,
}
use layercache.Invalidation.RedisTagIndex.Commands.{member-track, member-remove}
use layercache.Invalidation.RedisTagIndex.View.{
  view_run, redis_run, View, empty_view, view_step, redis_step, Represents, contains-tag_keys,
  contains-other, not_tag_keys, track-known, known_added, contains-tags_for_key,
}

module _ (b : Builtins) (self : RedisTagIndex) {W : Type 0} (redis : Redis W) (dec : Discrete Text)
    (laws : IsLawful dec redis)
    (inj : (x y : Text) → b.encode_uri_component x ≡ b.encode_uri_component y → x ≡ y) where
  touch-Represents :
      (v : View) (w : W) (key : Text)
      → Represents b self redis dec v w
      → Represents b self redis dec (view_step dec v (touches key)) (touch b self redis key w)
  unfolding touch among contains
  touch-Represents v w key r =
      let n = known_keys_key_for b self key in
      let known = known_keys_key_for-IsKnownSet b self key in
      let step = laws.call-sadd n (key ∷ []) w in
      let (is_known, is_placed) =
        known_added b self redis dec laws inj v w _ key r (λ j x k. step j x) in
      record {
        is_known = is_known;
        is_placed = is_placed;
        by_tag = λ x t. ground (
          arith,
          step (tag_keys_key b self t) x,
          known_set-tag_keys b self n t known,
          r.by_tag x t,
        );
        by_key = λ x t. ground (
          arith,
          step (key_tags_key b self x) t,
          known_set-key_tags b self n x known,
          r.by_key x t,
        );
      }

  track-Represents :
      (v : View) (w : W) (key : Text) (tags : List Text)
      → Represents b self redis dec v w
      → Represents b self redis dec
          (view_step dec v (tracks key tags))
          (track b self redis dec key tags w)
  unfolding among contains
  track-Represents v w key tags r =
      let step = member-track b self redis dec laws key tags w in
      let existing = tags_for_key b self redis key w in
      let known = known_keys_key_for-IsKnownSet b self key in
      let (is_known, is_placed) =
        known_added b self redis dec laws inj v w _ key r
          (track-known b self redis dec laws inj key tags w) in
      record {
        is_known = is_known;
        is_placed = is_placed;
        by_tag = λ x t. ground (
          arith,
          step (tag_keys_key b self t) x,
          contains-tag_keys b self redis dec laws inj t tags,
          contains-tag_keys b self redis dec laws inj t existing,
          key_tags-tag_keys b self key t,
          known_set-tag_keys b self _ t known,
          contains-tags_for_key b self redis dec laws inj key t w,
          r.by_key key t,
          r.by_tag x t,
        );
        by_key = λ x t. ground (
          arith,
          step (key_tags_key b self x) t,
          contains-other b self redis dec laws inj (key_tags_key b self x) tags
              (key_tags-tag_keys b self x),
          contains-other b self redis dec laws inj (key_tags_key b self x) existing
              (key_tags-tag_keys b self x),
          known_set-key_tags b self _ x known,
          key_tags_key-injective b self inj key x,
          r.by_key x t,
        );
      }

  remove-Represents :
      (v : View) (w : W) (key : Text)
      → Represents b self redis dec v w
      → Represents b self redis dec (view_step dec v (removes key)) (remove b self redis key w)
  unfolding among contains
  remove-Represents v w key r =
      let step = member-remove b self redis dec laws key w in
      let existing = tags_for_key b self redis key w in
      let known = known_keys_key_for-IsKnownSet b self in
      let legacy : IsKnownSet b self (legacy_known_keys_key b self) = inl refl in
      record {
        is_known = λ x. ground (
          arith,
          step (known_keys_key_for b self x) x,
          r.is_known x,
          not_tag_keys b self redis dec laws inj (known_keys_key_for b self x) existing (known x),
          known_set-key_tags b self _ key (known x),
          ap (known_keys_key_for b self),
        );
        is_placed = λ j x k m. ground (arith, step j x, m, r.is_placed j x k);
        by_tag = λ x t. ground (
          arith,
          step (tag_keys_key b self t) x,
          contains-tag_keys b self redis dec laws inj t existing,
          key_tags-tag_keys b self key t,
          known_set-tag_keys b self _ t (known key),
          known_set-tag_keys b self _ t legacy,
          contains-tags_for_key b self redis dec laws inj key t w,
          r.by_key key t,
          r.by_tag x t,
        );
        by_key = λ x t. ground (
          arith,
          step (key_tags_key b self x) t,
          contains-other b self redis dec laws inj (key_tags_key b self x) existing
              (key_tags-tag_keys b self x),
          known_set-key_tags b self _ x (known key),
          known_set-key_tags b self _ x legacy,
          key_tags_key-injective b self inj key x,
          ap (key_tags_key b self),
          r.by_key x t,
        );
      }

  -- SCAN with the pattern of the index finds every key that starts with its prefix and a colon.
  module _
      (finds : (x : Text)
        → redis.glob (self.prefix ++ index_pattern) (self.prefix ++ b':' ∷ x) ≡ true) where
    member-delete_keys :
        (ks : List Text) (w : W) (j x : Text)
        → is_member dec redis (delete_keys b self redis ks w) j x
          ≡ (not (contains dec j ks) && is_member dec redis w j x)
    unfolding delete_keys contains
    member-delete_keys [] w j x = ground arith
    member-delete_keys (k ∷ ks) w j x = laws.call-del (k ∷ ks) w j x

    clear-empty :
        (w : W) (rest x : Text)
        → is_member dec redis (clear b self redis w) (self.prefix ++ b':' ∷ rest) x ≡ false
    unfolding clear scan_index_keys
    clear-empty w rest x =
        let j = self.prefix ++ b':' ∷ rest in
        ground (
          arith,
          member-delete_keys (scan_index_keys b self redis w) w j x,
          laws.exists-member w j x,
          laws.scan-match self.scan_count (self.prefix ++ index_pattern) w j,
          finds rest,
        )

    clear-known :
        (w : W) (j x : Text)
        → IsKnownSet b self j
        → is_member dec redis (clear b self redis w) j x ≡ false
    clear-known w j x k = let (rest, e) = known_set_name b self j k in rw e (clear-empty w rest x)

    pub clear-Represents :
        (v : View) (w : W) → Represents b self redis dec empty_view (clear b self redis w)
    unfolding tag_keys_key key_tags_key
    clear-Represents v w = record {
      is_known = λ x. clear-known w _ x (known_keys_key_for-IsKnownSet b self x);
      is_placed = λ j x k m. absurd (ground (arith, m, clear-known w j x k));
      by_tag = λ x t. clear-empty w _ x;
      by_key = λ x t. clear-empty w _ t;
    }

    pub step-Represents :
        (c : Call) (v : View) (w : W)
        → Represents b self redis dec v w
        → Represents b self redis dec (view_step dec v c) (redis_step b self redis dec w c)
    step-Represents (touches key) v w r = touch-Represents v w key r
    step-Represents (removes key) v w r = remove-Represents v w key r
    step-Represents (tracks key tags) v w r = track-Represents v w key tags r
    step-Represents clears v w r = clear-Represents v w

    pub run-Represents :
        (cs : List Call) (v : View) (w : W)
        → Represents b self redis dec v w
        → Represents b self redis dec (view_run dec v cs) (redis_run b self redis dec w cs)
    unfolding view_run redis_run
    run-Represents [] v w r = r
    run-Represents (c ∷ cs) v w r =
        run-Represents cs (view_step dec v c) (redis_step b self redis dec w c)
          (step-Represents c v w r)
