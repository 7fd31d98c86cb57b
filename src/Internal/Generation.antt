-- ===== src/Internal/Generation.antt =====
-- src/internal/CacheStackGeneration.ts: keys qualified by the generation of the cache, over character
-- codes, and the clean-up of an old generation. How a number is written in decimal is a parameter.
pub mod Keys
pub mod Batches
use layercache.Base.{
  starts_with, ℕ, zero, suc, ◌+◌, Bool, true, false, ◌==◌, ◌&&◌, Option, none, some, if◌then◌else◌,
  List, [], ◌∷◌, ◌++◌, length, take, drop,
}

module _ (decimal : ℕ → List ℕ) where
  -- `v${generation}:`
  unfoldable pub generation_prefix : Option ℕ → List ℕ
  generation_prefix none = []
  generation_prefix (some g) = b'v' ∷ (decimal g ++ b':' ∷ [])

  unfoldable pub qualify_generation_key : List ℕ → Option ℕ → List ℕ
  qualify_generation_key key generation = elim (generation_prefix generation) [
    | [] ↦ key
    | c ∷ cs ↦ (c ∷ cs) ++ key
  ]

  abbrev pub qualify_generation_pattern : List ℕ → Option ℕ → List ℕ
  qualify_generation_pattern = qualify_generation_key

  unfoldable pub strip_generation_prefix : List ℕ → Option ℕ → List ℕ
  strip_generation_prefix key generation = elim (generation_prefix generation) [
    | [] ↦ key
    | c ∷ cs ↦ if starts_with (c ∷ cs) key then drop (length (c ∷ cs)) key else key
  ]

-- `boolean | CacheGenerationCleanupOptions | undefined`; `maxMatches` may be the number or `false`.
pub data MaxMatches : Type 0 where
  unlimited : MaxMatches
  at_most : ℕ → MaxMatches

pub data GenerationCleanupConfig : Type 0 where
  absent off on : GenerationCleanupConfig
  options : Option ℕ → Option MaxMatches → GenerationCleanupConfig

abbrev pub is_enabled : GenerationCleanupConfig → Bool
is_enabled absent = false
is_enabled off = false
is_enabled on = true
is_enabled (options b m) = true

unfoldable pub resolve_generation_cleanup_target : Option ℕ → ℕ → GenerationCleanupConfig → Option ℕ
resolve_generation_cleanup_target none next config = none
resolve_generation_cleanup_target (some previous) next config =
    if is_enabled config then (if previous == next then none else some previous) else none

unfoldable pub resolve_generation_cleanup_batch_size : GenerationCleanupConfig → ℕ
resolve_generation_cleanup_batch_size (options (some n) m) = n
resolve_generation_cleanup_batch_size config = 500

unfoldable pub resolve_generation_cleanup_max_matches : GenerationCleanupConfig → MaxMatches
resolve_generation_cleanup_max_matches (options b (some m)) = m
resolve_generation_cleanup_max_matches config = at_most 10_000

module _ {K : Type 0} where
  -- `for (index = 0; index < keys.length; index += batchSize)`: the keys from `index` on. `none` means
  -- that the fuel ran out; with a batch size of 0 no fuel is enough.
  unfoldable pub batches_from : ℕ → ℕ → List K → Option (List (List K))
  batches_from fuel size [] = some []
  batches_from zero size (k ∷ ks) = none
  batches_from (suc fuel) size (k ∷ ks) = elim (batches_from fuel size (drop size (k ∷ ks))) [
    | none ↦ none
    | some rest ↦ some (take size (k ∷ ks) ∷ rest)
  ]

  unfoldable pub plan_generation_cleanup_batches :
      List K → GenerationCleanupConfig → Option (List (List K))
  plan_generation_cleanup_batches keys config =
      batches_from (length keys) (resolve_generation_cleanup_batch_size config) keys
