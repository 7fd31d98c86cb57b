-- ===== src/Invalidation/RedisTagIndex/Names.antt =====
-- The names of the Redis sets of src/invalidation/RedisTagIndex.ts: sets of different kinds, or for
-- different keys or tags, have different names.
use layercache.Base.{
  ℕ_discrete, ℕ, zero, suc, ◌<◌, ◌%◌, true, ◌==◌, ◌⊎◌, inl, inr, Bool-cases, append-cancel, [], ◌∷◌,
  map, ◌≡◌, ◌≢◌, sym, ◌∙◌, ◌++◌, refl, arith,
}
use mathlib.Core.List.{map-append}
use native.Mathlib.Nat.{mod-lt}
use layercache.Redis.{Text}
use layercache.JsMap.Members.{contains, contains-append}
use layercache.Invalidation.RedisTagIndex.{
  RedisTagIndex, Builtins, key_infix, tag_infix, indices, legacy_known_keys_key, shard_key,
  known_keys_key_for, known_keys_keys, key_tags_key, tag_keys_key, simple_hash,
}

module _ (b : Builtins) (self : RedisTagIndex) where
  -- A set of known keys.
  abbrev pub IsKnownSet : Text → Type 0
  IsKnownSet j = (j ≡ legacy_known_keys_key b self) ⊎ ((n : ℕ) × (j ≡ shard_key b self n))

  pub known_keys_key_for-IsKnownSet : (key : Text) → IsKnownSet (known_keys_key_for b self key)
  unfolding known_keys_key_for legacy_known_keys_key
  known_keys_key_for-IsKnownSet key = elim (Bool-cases (self.known_keys_shards == 1)) [
    | inl e ↦ inl (rw e refl)
    | inr e ↦ inr (simple_hash key % self.known_keys_shards, rw e refl)
  ]

  -- It begins as every name of the index does.
  pub known_set_name : (j : Text) → IsKnownSet j → (rest : Text) × (j ≡ self.prefix ++ b':' ∷ rest)
  unfolding legacy_known_keys_key shard_key
  known_set_name j (inl e) = (_, e)
  known_set_name j (inr (n, e)) = (_, e)

  pub known_set-key_tags : (j key : Text) → IsKnownSet j → j ≢ key_tags_key b self key
  unfolding legacy_known_keys_key shard_key key_tags_key
  known_set-key_tags j key (inl e) h =
      let same = append-cancel self.prefix _ _ (sym e ∙ h) in ground (arith, same)
  known_set-key_tags j key (inr (n, e)) h =
      let same = append-cancel self.prefix _ _ (sym e ∙ h) in ground (arith, same)

  pub known_set-tag_keys : (j tag : Text) → IsKnownSet j → j ≢ tag_keys_key b self tag
  unfolding legacy_known_keys_key shard_key tag_keys_key
  known_set-tag_keys j tag (inl e) h =
      let same = append-cancel self.prefix _ _ (sym e ∙ h) in ground (arith, same)
  known_set-tag_keys j tag (inr (n, e)) h =
      let same = append-cancel self.prefix _ _ (sym e ∙ h) in ground (arith, same)

  pub key_tags-tag_keys : (key tag : Text) → key_tags_key b self key ≢ tag_keys_key b self tag
  unfolding key_tags_key tag_keys_key
  key_tags-tag_keys key tag h = let same = append-cancel self.prefix _ _ h in ground (arith, same)

  pub legacy-shard : (n : ℕ) → legacy_known_keys_key b self ≢ shard_key b self n
  unfolding legacy_known_keys_key shard_key
  legacy-shard n h = let same = append-cancel self.prefix _ _ h in ground (arith, same)

  pub tag_keys_key-injective :
      ((x y : Text) → b.encode_uri_component x ≡ b.encode_uri_component y → x ≡ y)
      → (t u : Text) → tag_keys_key b self t ≡ tag_keys_key b self u
      → t ≡ u
  unfolding tag_keys_key
  tag_keys_key-injective inj t u h =
      inj t u (append-cancel tag_infix _ _ (append-cancel self.prefix _ _ h))

  pub key_tags_key-injective :
      ((x y : Text) → b.encode_uri_component x ≡ b.encode_uri_component y → x ≡ y)
      → (t u : Text) → key_tags_key b self t ≡ key_tags_key b self u
      → t ≡ u
  unfolding key_tags_key
  key_tags_key-injective inj t u h =
      inj t u (append-cancel key_infix _ _ (append-cancel self.prefix _ _ h))

  module _ (dec : Discrete Text) where
    contains-indices :
        (f : ℕ → Text) (n m : ℕ) → m < n → contains dec (f m) (map f (indices n)) ≡ true
    unfolding indices contains
    contains-indices f zero m h = absurd (omega (arith, h))
    contains-indices f (suc n) m h =
        let found = contains-indices f n m in
        let split = contains-append dec (f m) (map f (indices n)) (f n ∷ []) in
        let both = map-append f (indices n) (n ∷ []) in
        rw both (elim (ℕ_discrete m n) [
          | yes e ↦ rw (split, e) (ground arith)
          | no n ↦ ground (arith, split, found)
        ])

    -- The set of a key is among those that are read.
    pub contains-known_keys_keys :
        (key : Text)
        → 0 < self.known_keys_shards
        → contains dec (known_keys_key_for b self key) (known_keys_keys b self) ≡ true
    unfolding known_keys_key_for known_keys_keys contains
    contains-known_keys_keys key pos =
        let pick = contains-indices (shard_key b self) self.known_keys_shards in
        elim (Bool-cases (self.known_keys_shards == 1)) [
          | inl e ↦ rw e (ground arith)
          | inr e ↦
              rw e (pick (simple_hash key % self.known_keys_shards) (mod-lt (simple_hash key) pos))
        ]
