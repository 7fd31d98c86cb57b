-- ===== src/Invalidation/RedisTagIndex/Migration.antt =====
-- `migrateLegacyKnownKeys` of src/invalidation/RedisTagIndex.ts: the keys of the set without shards are
-- moved to the shards, and none is lost.
use layercache.Base.{
  ℕ, zero, suc, ◌+◌, ◌<◌, ◌==◌, Bool, true, false, ◌&&◌, ◌||◌, inl, inr, Bool-cases, none,
  starts_with, List, [], ◌∷◌, map, length, ◌≡◌, ◌≢◌, All, refl, ap, sym, arith,
}
use layercache.Redis.{Text, Redis, is_member, among, elements, exec, sadd, del, IsLawful}
use layercache.JsMap
use layercache.JsMap.Members.{contains, contains-append, contains-keys}
use layercache.Invalidation.RedisTagIndex.{
  RedisTagIndex, Builtins, known_keys_key_for, known_keys_keys, known_keys_keys_for_read,
  keys_for_prefix, legacy_known_keys_key, shard_key, indices, migrate_page, scan_sets,
  migrate_pages, delete_legacy, migrate_legacy_known_keys,
}
use layercache.Invalidation.RedisTagIndex.Names.{contains-known_keys_keys, legacy-shard}
use layercache.Invalidation.RedisTagIndex.Answers.{any_member, has-scan_sets}

module _ (b : Builtins) (self : RedisTagIndex) {W : Type 0} (redis : Redis W) (dec : Discrete Text)
    (laws : IsLawful dec redis) where
  -- A known key, in whichever layout.
  abbrev is_known : W → Text → Bool
  is_known w x =
      is_member dec redis w (legacy_known_keys_key b self) x
      || any_member b self redis dec (known_keys_keys b self) w x

  member-migrate_page :
      (page : List Text) (w : W) (j x : Text)
      → is_member dec redis (migrate_page b self redis page w) j x
        ≡ (among dec redis j (known_keys_key_for b self x ∷ []) x page || is_member dec redis w j x)
  unfolding migrate_page exec among contains
  member-migrate_page [] w j x = ground arith
  member-migrate_page (k ∷ ks) w j x =
      let n = known_keys_key_for b self k in
      ground (
        arith,
        member-migrate_page ks (redis.call (sadd n (k ∷ [])) w) j x,
        laws.call-sadd n (k ∷ []) w j x,
        ap (known_keys_key_for b self),
      )

  member-migrate_pages :
      (pages : List (List Text)) (n : ℕ) (w : W) (j x : Text)
      → is_member dec redis (migrate_pages b self redis pages n w).1 j x ≡ (
          among dec redis j (known_keys_key_for b self x ∷ []) x (elements pages)
          || is_member dec redis w j x)
  unfolding migrate_pages among contains
  member-migrate_pages [] n w j x = ground arith
  member-migrate_pages (page ∷ pages) n w j x = ground (
    arith,
    member-migrate_pages pages (n + length page) (migrate_page b self redis page w) j x,
    member-migrate_page page w j x,
    contains-append dec x page (elements pages),
  )

  -- Where nothing was counted, nothing was there.
  count-migrate_pages :
      (pages : List (List Text)) (n : ℕ) (w : W) (x : Text)
      → (migrate_pages b self redis pages n w).0 ≡ 0
      → (n ≡ 0) × (contains dec x (elements pages) ≡ false)
  unfolding migrate_pages migrate_page exec contains
  count-migrate_pages [] n w x e = (e, refl)
  count-migrate_pages ([] ∷ pages) n w x e =
      let (z, none_left) = count-migrate_pages pages (n + 0) w x e in (omega (arith, z), none_left)
  count-migrate_pages ((k ∷ ks) ∷ pages) n w x e =
      let (z, none_left) = count-migrate_pages pages (n + suc (length ks)) _ x e in
      absurd (omega (arith, z))

  any_member-read :
      (w : W) (x : Text)
      → any_member b self redis dec (known_keys_keys_for_read b self redis w) w x ≡ is_known w x
  unfolding known_keys_keys_for_read known_keys_keys legacy_known_keys_key
  any_member-read w x = elim (Bool-cases (self.known_keys_shards == 1)) [
    | inl e ↦ rw e (ground arith)
    | inr e ↦ elim (Bool-cases (redis.exists (legacy_known_keys_key b self) w)) [
      | inl f ↦ rw (e, f) refl
      | inr f ↦ rw (e, f) (ground (arith, laws.exists-member w (legacy_known_keys_key b self) x, f))
    ]
  ]

  contains_prefix-is_known :
      (prefix : Text) (w : W) (x : Text)
      → contains dec x (keys_for_prefix b self redis dec prefix w)
        ≡ (is_known w x && starts_with prefix x)
  unfolding keys_for_prefix JsMap.get
  contains_prefix-is_known prefix w x =
      let sets = known_keys_keys_for_read b self redis w in
      ground (
        arith,
        contains-keys dec x (scan_sets b self redis dec none (starts_with prefix) sets w []),
        has-scan_sets b self redis dec none (starts_with prefix) (λ y. true) sets w [] x
            (λ set. ground (arith, laws.sscan-all self.scan_count set w x)),
        any_member-read w x,
      )

  shards-other :
      (ns : List ℕ) → All (λ j. j ≢ legacy_known_keys_key b self) (map (shard_key b self) ns)
  shards-other [] = tt
  shards-other (n ∷ ns) = (λ e. legacy-shard b self n (sym e), shards-other ns)

  -- Sets to which the key is added, where they are its own.
  any_member-added :
      (sets : List Text) (w w' : W) (x : Text) (c : Bool)
      → All (λ j. j ≢ legacy_known_keys_key b self) sets
      → ((j : Text)
          → j ≢ legacy_known_keys_key b self
          → is_member dec redis w' j x ≡ (
              (contains dec j (known_keys_key_for b self x ∷ []) && c)
              || is_member dec redis w j x))
      → any_member b self redis dec sets w' x ≡ (
          any_member b self redis dec sets w x
          || (contains dec (known_keys_key_for b self x) sets && c))
  unfolding contains
  any_member-added [] w w' x c k h = ground arith
  any_member-added (j ∷ sets) w w' x c k h =
      ground (arith, h j k.0, any_member-added sets w w' x c k.1 h)

  sharded :
      (self.known_keys_shards == 1) ≡ false
      → All (λ j. j ≢ legacy_known_keys_key b self) (known_keys_keys b self)
  unfolding known_keys_keys
  sharded e = rw e (shards-other (indices self.known_keys_shards))

  -- The two ends of the migration.
  is_known-delete_legacy :
      (w w₁ : W) (n : ℕ) (x : Text)
      → (self.known_keys_shards == 1) ≡ false
      → 0 < self.known_keys_shards
      → ((j : Text)
          → is_member dec redis w₁ j x ≡ (
              (contains dec j (known_keys_key_for b self x ∷ [])
                && is_member dec redis w (legacy_known_keys_key b self) x)
              || is_member dec redis w j x))
      → (n ≡ 0 → is_member dec redis w (legacy_known_keys_key b self) x ≡ false)
      → is_known (delete_legacy b self redis (n, w₁)).1 x ≡ is_known w x
  unfolding delete_legacy contains
  is_known-delete_legacy w w₁ zero x many pos h z =
      let l = legacy_known_keys_key b self in
      let sets = known_keys_keys b self in
      let c = is_member dec redis w l x in
      ground (arith, z refl, h l, any_member-added sets w w₁ x c (sharded many) (λ j n. h j))
  is_known-delete_legacy w w₁ (suc n) x many pos h z =
      let l = legacy_known_keys_key b self in
      let sets = known_keys_keys b self in
      let c = is_member dec redis w l x in
      let w₂ = redis.call (del (l ∷ [])) w₁ in
      let moved =
        any_member-added sets w w₂ x c (sharded many)
          (λ j n. ground (arith, n, laws.call-del (l ∷ []) w₁ j x, h j)) in
      ground
        (arith, laws.call-del (l ∷ []) w₁ l x, moved, contains-known_keys_keys b self dec x pos)

  is_known-migrate :
      (w : W) (x : Text)
      → 0 < self.known_keys_shards
      → is_known (migrate_legacy_known_keys b self redis w).1 x ≡ is_known w x
  unfolding migrate_legacy_known_keys among
  is_known-migrate w x pos =
      let pages = redis.sscan self.scan_count none (legacy_known_keys_key b self) w in
      let all_pages = laws.sscan-all self.scan_count (legacy_known_keys_key b self) w x in
      elim (Bool-cases (self.known_keys_shards == 1)) [
        | inl e ↦ rw e refl
        | inr e ↦ rw e (
            is_known-delete_legacy w (migrate_pages b self redis pages 0 w).1
              (migrate_pages b self redis pages 0 w).0 x e pos
              (λ j. ground (arith, all_pages, member-migrate_pages pages 0 w j x))
              (λ z. ground (arith, all_pages, (count-migrate_pages pages 0 w x z).1)))
      ]

  -- A migration changes no answer of a search by a prefix: no known key is lost, and none is made up. The
  -- client obeys the laws of Redis, and there are shards.
  pub contains_prefix-migrate :
      (prefix : Text) (w : W) (x : Text)
      → 0 < self.known_keys_shards
      → contains dec x
          (keys_for_prefix b self redis dec prefix (migrate_legacy_known_keys b self redis w).1)
        ≡ contains dec x (keys_for_prefix b self redis dec prefix w)
  contains_prefix-migrate prefix w x pos =
      let after = contains_prefix-is_known prefix (migrate_legacy_known_keys b self redis w).1 x in
      ground (arith, after, contains_prefix-is_known prefix w x, is_known-migrate w x pos)
