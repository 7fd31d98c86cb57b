-- ===== src/Internal/RuntimePolicy.antt =====
-- src/internal/CacheStackRuntimePolicy.ts: the decisions that a stack takes while it runs. `clock` is
-- what `Date.now()` reads.
pub mod Plans
use layercache.Base.{
  ℤ, pos, ◌+ℤ◌, ltb_ℤ, leb_ℤ, Bool, true, false, not, ◌&&◌, is_some, or_else, Option, none, some,
  if◌then◌else◌,
}
use layercache.JsValue.{Value, undefined}
use layercache.StoredValue.{as_stored_value_envelope}
use layercache.StoredValue.Reads.{
  refresh_stored_envelope, remaining_stored_ttl_ms, remaining_fresh_ttl_ms,
}

pub record FreshReadPolicyPlan : Type 0 where
  pub refreshed_stored : Option Value
  pub refreshed_stored_ttl : Option ℤ
  pub should_schedule_background_refresh : Bool

unfoldable pub should_skip_layer : Option ℤ → ℤ → Bool
should_skip_layer none now = false
should_skip_layer (some degraded_until) now = ltb_ℤ now degraded_until

unfoldable pub should_start_background_refresh : Bool → Bool → Bool
should_start_background_refresh is_disconnecting has_refresh_in_flight =
    not is_disconnecting && not has_refresh_in_flight

-- `boolean | CacheDegradationOptions | undefined`
pub data GracefulDegradation : Type 0 where
  off on : GracefulDegradation
  retry_after : Option ℤ → GracefulDegradation

-- The time until which the layer is degraded, if it is to be.
unfoldable pub resolve_recoverable_layer_failure : GracefulDegradation → ℤ → Option ℤ
resolve_recoverable_layer_failure off now = none
resolve_recoverable_layer_failure on now = some (now +ℤ pos 10_000)
resolve_recoverable_layer_failure (retry_after ms) now =
    some (now +ℤ elim ms [ none ↦ pos 10_000 | some n ↦ n ])

unfoldable pub plan_fresh_read_policies : ℤ → Value → Bool → Bool → ℤ → FreshReadPolicyPlan
plan_fresh_read_policies clock stored has_fetcher sliding_ttl refresh_ahead_ms =
    let refreshed : Option Value =
      if sliding_ttl && is_some (as_stored_value_envelope clock stored)
      then some (refresh_stored_envelope clock stored clock)
      else none in
    let remaining : ℤ = elim (remaining_fresh_ttl_ms clock stored clock) [
      | none ↦ pos 0
      | some n ↦ n
    ] in
    record {
      refreshed_stored = refreshed;
      refreshed_stored_ttl = elim refreshed [
        | none ↦ none
        | some v ↦ remaining_stored_ttl_ms clock v clock
      ];
      should_schedule_background_refresh =
          has_fetcher
          && ltb_ℤ (pos 0) refresh_ahead_ms
          && ltb_ℤ (pos 0) remaining
          && leb_ℤ remaining refresh_ahead_ms;
    }
