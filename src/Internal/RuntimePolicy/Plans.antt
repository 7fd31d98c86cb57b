-- ===== src/Internal/RuntimePolicy/Plans.antt =====
-- What src/internal/CacheStackRuntimePolicy.ts decides for a degraded layer and for a fresh envelope.
use layercache.Base.{
  ℕ, ◌+◌, ◌-◌, ◌≤◌, ltb, ℤ, pos, ◌+ℤ◌, Bool, true, false, Option, none, some, ◌≡◌, refl, arith, max,
}
use layercache.JsValue.{object}
use layercache.StoredValue.{EnvelopeOptions, create_stored_value_envelope}
use layercache.StoredValue.Guard.{Lifetimes, create-accepted}
use layercache.StoredValue.Lifecycle.{last_deadline, remaining_stored_ttl_ms-create}
use layercache.StoredValue.Moves.{refresh-create}
use layercache.Internal.RuntimePolicy.{
  retry_after, should_skip_layer, resolve_recoverable_layer_failure, plan_fresh_read_policies,
}

-- With a sliding lifetime, a read of an envelope plans to write back the envelope that would be written
-- at the time of the read, for the whole of its lifetime from then on.
pub plan-create :
    (o : EnvelopeOptions) (clock now f : ℕ) (stale error : Option ℕ) (has_fetcher : Bool)
    (ahead : ℤ)
    → Lifetimes o f stale error
    → now ≤ clock
    → let p =
        plan_fresh_read_policies
          (pos clock)
          (object (create_stored_value_envelope o (pos now)))
          has_fetcher
          true
          ahead in
      (p.refreshed_stored ≡ some (object (create_stored_value_envelope o (pos clock))))
      × (p.refreshed_stored_ttl ≡ some (pos (max 1 (last_deadline clock f stale error - clock))))
unfolding plan_fresh_read_policies
plan-create o clock now f stale error has_fetcher ahead l h =
    rw
      (
        create-accepted o clock now f stale error l h,
        plan_fresh_read_policies,
        refresh-create o clock now f (pos clock) stale error l h,
      )
      (refl, remaining_stored_ttl_ms-create o clock clock f clock stale error l (omega arith))

-- A layer that failed at a time and is degraded is skipped until the time to retry has come, and not
-- from then on.
pub should_skip_layer-failure :
    (ms now t : ℕ)
    → (elim (resolve_recoverable_layer_failure (retry_after (some (pos ms))) (pos now)) [
      | none ↦ false
      | some u ↦ should_skip_layer (some u) (pos t)
    ])
      ≡ ltb t (now + ms)
unfolding resolve_recoverable_layer_failure should_skip_layer ◌+ℤ◌
should_skip_layer-failure ms now t = ground arith
