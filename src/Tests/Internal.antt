-- ===== src/Tests/Internal.antt =====
-- Inputs for what is proved of the files of src/internal.
use layercache.Base.{
  ℕ, pos, true, none, some, List, [], ◌∷◌, ◌≡◌, ◌≢◌, refl, arith, ℕ_discrete, length, zero, suc, ap,
}
use layercache.JsMap
use layercache.JsMap.{JsMap}
use layercache.JsValue.{finite}
use layercache.Internal.CircuitBreaker.{
  CircuitBreakerState, CircuitBreakerManager, CircuitBreakerOptions, assert_closed, is_open,
  record_failure, is_removable,
}
use layercache.Internal.CircuitBreaker
use layercache.Internal.CircuitBreaker.Bound.{IsBounded, run-IsBounded}
use layercache.Internal.CircuitBreaker.Trips.{record_failure-full}
use layercache.Internal.Maintenance.Epochs.{Epochs, Event, is_write_outdated}
use layercache.Internal.Maintenance.Epochs
use layercache.Internal.Maintenance.Fences.{bumped-outdated}
use layercache.CacheStack.Background.{bump_generation, bump_generation-apart}
use layercache.Internal.Generation.{
  qualify_generation_key, GenerationCleanupConfig, plan_generation_cleanup_batches,
  resolve_generation_cleanup_batch_size,
}
use layercache.Internal.Generation.Keys.{NoColon}
use layercache.Internal.Generation.Batches.{plan_generation_cleanup_batches_lem, concat, AllSized}
use layercache.Internal.Validation.{EntryWriteOptions, all_layers, absent}

abbrev none_tracked : CircuitBreakerManager ℕ
none_tracked = record { breakers = []; max_entries = 1 }

-- full of a breaker that is open until 900
abbrev one_open : CircuitBreakerManager ℕ
one_open = record {
  breakers = (1, record { failures = 3; open_until = some 900; created_at = 5 }) ∷ [];
  max_entries = 1;
}

abbrev twice : CircuitBreakerOptions
twice = record { failure_threshold = some 2; cooldown_ms = some 100 }

run-IsBounded_example : IsBounded ℕ_discrete (
    CircuitBreaker.run ℕ_discrete none_tracked
      ((10, CircuitBreaker.fails 1 (some twice)) ∷ (20, CircuitBreaker.fails 2 (some twice)) ∷ []))
run-IsBounded_example =
    run-IsBounded ℕ_discrete none_tracked
      ((10, CircuitBreaker.fails 1 (some twice)) ∷ (20, CircuitBreaker.fails 2 (some twice)) ∷ [])
      (omega arith)

record_failure-full_example :
    (record_failure ℕ_discrete 100 2 (some twice) one_open).breakers ≡ one_open.breakers
unfolding JsMap.get ℕ_discrete is_removable
record_failure-full_example =
    record_failure-full ℕ_discrete 100 2 twice one_open refl refl (refl, tt) (omega arith)

bumped-outdated_example :
    let s = Epochs.run ℕ_discrete Epochs.init (Event.bumps (4 ∷ []) ∷ []) in
    let s' =
      Epochs.run ℕ_discrete
        (Epochs.step ℕ_discrete s (Event.bumps (3 ∷ 4 ∷ [])))
        (Event.bumps (5 ∷ []) ∷ []) in
    is_write_outdated ℕ_discrete 4
      (some s.clear_epoch)
      (some (Epochs.current_key_epoch ℕ_discrete 4 s))
      s'
    ≡ true
bumped-outdated_example =
    bumped-outdated ℕ_discrete (Event.bumps (4 ∷ []) ∷ []) (Event.bumps (5 ∷ []) ∷ []) (3 ∷ []) [] 4

-- A notation of numbers that stands for the decimal one: as many strokes.
abbrev strokes : ℕ → List ℕ
strokes zero = []
strokes (suc n) = b'1' ∷ strokes n

strokes-NoColon : (n : ℕ) → NoColon (strokes n)
strokes-NoColon zero = tt
strokes-NoColon (suc n) = (refl, strokes-NoColon n)

length-strokes : (n : ℕ) → length (strokes n) ≡ n
length-strokes zero = refl
length-strokes (suc n) = ap suc (length-strokes n)

strokes-injective : (m n : ℕ) → strokes m ≡ strokes n → m ≡ n
strokes-injective m n h = cc (length-strokes m, length-strokes n)

plan_generation_cleanup_batches_example :
    (bs : List (List ℕ)) × (plan_generation_cleanup_batches
        (1 ∷ 2 ∷ 3 ∷ [])
        (GenerationCleanupConfig.options (some 2) none)
      ≡ some bs)
    × (concat bs ≡ 1 ∷ 2 ∷ 3 ∷ [])
    × AllSized
        (resolve_generation_cleanup_batch_size (GenerationCleanupConfig.options (some 2) none))
        bs
unfolding resolve_generation_cleanup_batch_size
plan_generation_cleanup_batches_example =
    plan_generation_cleanup_batches_lem (1 ∷ 2 ∷ 3 ∷ [])
      (GenerationCleanupConfig.options (some 2) none) (omega arith)

abbrev write_options : EntryWriteOptions
write_options = record {
  ttl = some (all_layers (finite (pos 60)));
  negative_ttl = none;
  stale_while_revalidate = none;
  stale_if_error = none;
  ttl_jitter = none;
  ttl_policy = none;
  adaptive_ttl = absent;
  tags = some ((b't' ∷ []) ∷ []);
}

bump_generation-apart_example :
    qualify_generation_key strokes
      (b'k' ∷ [])
      (bump_generation (some 5) (record {
        current_generation = some 2;
        generation_cleanup = GenerationCleanupConfig.on;
      })).1.current_generation
    ≢ qualify_generation_key strokes (b'1' ∷ []) (some 2)
bump_generation-apart_example =
    bump_generation-apart strokes strokes-injective strokes-NoColon (some 5)
      (record { current_generation = some 2; generation_cleanup = GenerationCleanupConfig.on }) 2
      (b'k' ∷ []) (b'1' ∷ []) refl (λ e. ground (arith, e))
