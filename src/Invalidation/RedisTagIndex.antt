-- ===== src/Invalidation/RedisTagIndex.antt =====
-- `RedisTagIndex` of src/invalidation/RedisTagIndex.ts, over a Redis client and its world. Texts are lists
-- of character codes; how a number is written in decimal and `encodeURIComponent` are parameters. The
-- warning about a legacy set, which is only logged, is left out. A visiting method is represented by the
-- list of the keys that it visits, in their order.
pub mod Names
pub mod Commands
pub mod View
pub mod Steps
pub mod Answers
pub mod Refinement
pub mod Migration
pub mod Visits
use layercache.Base.{
  ℕ, zero, suc, ◌+◌, ◌*◌, ◌%◌, Bool, not, ◌==◌, ◌&&◌, ltb, starts_with, Option, none, some,
  if◌then◌else◌, List, [], ◌∷◌, ◌++◌, map, length,
}
use layercache.JsMap.{JsMap}
use layercache.JsMap
use layercache.Exec.{Result, ok, err}
use layercache.Redis.{Text, Redis, sadd, srem, del, exec, elements}
use layercache.Invalidation.PatternMatcher.{matches}
use layercache.Invalidation.TagIndex.{TextSet, set_of}

pub record RedisTagIndex : Type 0 where
  pub prefix : Text
  pub scan_count : ℕ
  pub known_keys_shards : ℕ

-- the built-in functions on texts
pub record Builtins : Type 0 where
  pub decimal : ℕ → Text
  pub encode_uri_component : Text → Text

abbrev pub two_32 : ℕ
two_32 = 4_294_967_296

-- `hash = (hash * 31 + value.charCodeAt(index)) >>> 0`, from a hash on
unfoldable pub hash_from : ℕ → Text → ℕ
hash_from hash [] = hash
hash_from hash (c ∷ cs) = hash_from ((hash * 31 + c) % two_32) cs

unfoldable pub simple_hash : Text → ℕ
simple_hash value = hash_from 0 value

pub data ShardsError : Type 0 where
  not_positive : ShardsError

-- `layercache:tag-index`
abbrev pub default_prefix : Text
default_prefix =
    b'l' ∷ b'a' ∷ b'y' ∷ b'e' ∷ b'r' ∷ b'c' ∷ b'a' ∷ b'c' ∷ b'h' ∷ b'e' ∷ b':' ∷ b't' ∷ b'a' ∷ b'g'
    ∷ b'-' ∷ b'i' ∷ b'n' ∷ b'd' ∷ b'e' ∷ b'x' ∷ []

-- The option is `none` where it is undefined; one that is no integer is refused as well.
unfoldable pub normalize_known_keys_shards : Option ℕ → Result ShardsError ℕ
normalize_known_keys_shards none = ok 16
normalize_known_keys_shards (some zero) = err not_positive
normalize_known_keys_shards (some (suc n)) = ok (suc n)

abbrev pub from_shards :
    Option Text → Option ℕ → Result ShardsError ℕ → Result ShardsError RedisTagIndex
from_shards prefix scan_count (err e) = err e
from_shards prefix scan_count (ok shards) = ok (record {
  prefix = elim prefix [ none ↦ default_prefix | some p ↦ p ];
  scan_count = elim scan_count [ none ↦ 100 | some n ↦ n ];
  known_keys_shards = shards;
})

-- the constructor
unfoldable pub create : Option Text → Option ℕ → Option ℕ → Result ShardsError RedisTagIndex
create prefix scan_count shards = from_shards prefix scan_count (normalize_known_keys_shards shards)

-- `:keys`, `:key:`, `:tag:` and `:*`
abbrev pub keys_suffix : Text
keys_suffix = b':' ∷ b'k' ∷ b'e' ∷ b'y' ∷ b's' ∷ []

abbrev pub key_infix : Text
key_infix = b':' ∷ b'k' ∷ b'e' ∷ b'y' ∷ b':' ∷ []

abbrev pub tag_infix : Text
tag_infix = b':' ∷ b't' ∷ b'a' ∷ b'g' ∷ b':' ∷ []

abbrev pub index_pattern : Text
index_pattern = b':' ∷ b'*' ∷ []

-- the numbers below `n`, in order
unfoldable pub indices : ℕ → List ℕ
indices zero = []
indices (suc n) = indices n ++ n ∷ []

module _ (dec : Discrete Text) where
  -- What `matches` collects of the sets in a list: each key that passes the test, once.
  unfoldable pub collect : (Text → Bool) → List Text → TextSet → TextSet
  collect test [] found = found
  collect test (k ∷ ks) found = collect test ks (if test k then JsMap.set dec k tt found else found)

  -- The visits of a page, `visited` being what was visited before, in the order of the visits.
  unfoldable pub visit_page : (Text → Bool) → List Text → TextSet → TextSet
  visit_page test [] visited = visited
  visit_page test (k ∷ ks) visited =
      visit_page test ks
        (if test k && not (JsMap.has dec k visited) then JsMap.set dec k tt visited else visited)

module _ (b : Builtins) (self : RedisTagIndex) where
  unfoldable pub legacy_known_keys_key : Text
  legacy_known_keys_key = self.prefix ++ keys_suffix

  unfoldable pub shard_key : ℕ → Text
  shard_key index = self.prefix ++ (keys_suffix ++ b':' ∷ b.decimal index)

  unfoldable pub known_keys_key_for : Text → Text
  known_keys_key_for key =
      if self.known_keys_shards == 1
      then self.prefix ++ keys_suffix
      else shard_key (simple_hash key % self.known_keys_shards)

  unfoldable pub known_keys_keys : List Text
  known_keys_keys =
      if self.known_keys_shards == 1
      then (self.prefix ++ keys_suffix) ∷ []
      else map shard_key (indices self.known_keys_shards)

  unfoldable pub key_tags_key : Text → Text
  key_tags_key key = self.prefix ++ (key_infix ++ b.encode_uri_component key)

  unfoldable pub tag_keys_key : Text → Text
  tag_keys_key tag = self.prefix ++ (tag_infix ++ b.encode_uri_component tag)

  module _ {W : Type 0} (redis : Redis W) where
    unfoldable pub known_keys_keys_for_read : W → List Text
    known_keys_keys_for_read w =
        if self.known_keys_shards == 1
        then legacy_known_keys_key ∷ []
        else if not (redis.exists legacy_known_keys_key w)
        then known_keys_keys
        else legacy_known_keys_key ∷ known_keys_keys

    unfoldable pub touch : Text → W → W
    touch key w = redis.call (sadd (known_keys_key_for key) (key ∷ [])) w

    unfoldable pub keys_for_tag : Text → W → List Text
    keys_for_tag tag w = redis.smembers (tag_keys_key tag) w

    -- `forEachKeyForTag`: an element that is scanned twice is visited twice.
    unfoldable pub for_each_key_for_tag : Text → W → List Text
    for_each_key_for_tag tag w = elements (redis.sscan self.scan_count none (tag_keys_key tag) w)

    unfoldable pub tags_for_key : Text → W → List Text
    tags_for_key key w = redis.smembers (key_tags_key key) w

    -- The commands of `track` and `remove` over lists of tags.
    unfoldable pub unlink : Text → List Text → W → W
    unlink key tags w = exec redis (map (λ tag. srem (tag_keys_key tag) (key ∷ [])) tags) w

    unfoldable pub link : Text → List Text → W → W
    link key tags w = exec redis (map (λ tag. sadd (tag_keys_key tag) (key ∷ [])) tags) w

    unfoldable pub remove : Text → W → W
    remove key w =
        let existing_tags = redis.smembers (key_tags_key key) w in
        let w₁ = redis.call (srem (known_keys_key_for key) (key ∷ [])) w in
        let w₂ =
          if ltb 1 self.known_keys_shards
          then redis.call (srem legacy_known_keys_key (key ∷ [])) w₁
          else w₁ in
        unlink key existing_tags (redis.call (del (key_tags_key key ∷ [])) w₂)

    unfoldable pub scan_index_keys : W → List Text
    scan_index_keys w = elements (redis.scan self.scan_count (self.prefix ++ index_pattern) w)

    unfoldable pub delete_keys : List Text → W → W
    delete_keys [] w = w
    delete_keys (k ∷ ks) w = redis.call (del (k ∷ ks)) w

    unfoldable pub clear : W → W
    clear w = delete_keys (scan_index_keys w) w

    -- One page of `migrateLegacyKnownKeys`: what its pipeline does.
    unfoldable pub migrate_page : List Text → W → W
    migrate_page page w = exec redis (map (λ key. sadd (known_keys_key_for key) (key ∷ [])) page) w

    -- The loop, with the number of the keys that were migrated. A page is read before it is written.
    unfoldable pub migrate_pages : List (List Text) → ℕ → W → ℕ × W
    migrate_pages [] migrated w = (migrated, w)
    migrate_pages (page ∷ pages) migrated w =
        migrate_pages pages (migrated + length page) (migrate_page page w)

    unfoldable pub delete_legacy : ℕ × W → ℕ × W
    delete_legacy (zero, w) = (zero, w)
    delete_legacy (suc n, w) = (suc n, redis.call (del (legacy_known_keys_key ∷ [])) w)

    -- The pages of the legacy set are those that it has when the migration begins.
    unfoldable pub migrate_legacy_known_keys : W → ℕ × W
    migrate_legacy_known_keys w =
        if self.known_keys_shards == 1
        then (0, w)
        else delete_legacy
            (migrate_pages (redis.sscan self.scan_count none legacy_known_keys_key w) 0 w)

    module _ (dec : Discrete Text) where
      -- The part of `track` behind the test for tags; `new Set(tags)` is what the second loop is over.
      unfoldable pub add_tags : Text → List Text → W → W
      add_tags key [] w = w
      add_tags key (tag ∷ tags) w =
          link key (JsMap.keys (set_of dec (tag ∷ tags) []))
            (redis.call (sadd (key_tags_key key) (tag ∷ tags)) w)

      unfoldable pub track : Text → List Text → W → W
      track key tags w =
          let existing_tags = redis.smembers (key_tags_key key) w in
          let w₁ = redis.call (sadd (known_keys_key_for key) (key ∷ [])) w in
          let w₂ = unlink key existing_tags w₁ in
          add_tags key tags (redis.call (del (key_tags_key key ∷ [])) w₂)

      unfoldable pub scan_sets : Option Text → (Text → Bool) → List Text → W → TextSet → TextSet
      scan_sets pattern test [] w found = found
      scan_sets pattern test (set ∷ sets) w found =
          scan_sets pattern test sets w
            (collect dec test (elements (redis.sscan self.scan_count pattern set w)) found)

      unfoldable pub keys_for_prefix : Text → W → List Text
      keys_for_prefix prefix w =
          JsMap.keys (scan_sets none (starts_with prefix) (known_keys_keys_for_read w) w [])

      unfoldable pub match_pattern : Text → W → List Text
      match_pattern pattern w =
          JsMap.keys (scan_sets (some pattern) (matches pattern) (known_keys_keys_for_read w) w [])

      unfoldable pub visit_sets : Option Text → (Text → Bool) → List Text → W → TextSet → TextSet
      visit_sets pattern test [] w visited = visited
      visit_sets pattern test (set ∷ sets) w visited =
          visit_sets pattern test sets w
            (visit_page dec test (elements (redis.sscan self.scan_count pattern set w)) visited)

      unfoldable pub for_each_key_for_prefix : Text → W → List Text
      for_each_key_for_prefix prefix w =
          JsMap.keys (visit_sets none (starts_with prefix) (known_keys_keys_for_read w) w [])

      unfoldable pub for_each_key_matching_pattern : Text → W → List Text
      for_each_key_matching_pattern pattern w =
          JsMap.keys (visit_sets (some pattern) (matches pattern) (known_keys_keys_for_read w) w [])
