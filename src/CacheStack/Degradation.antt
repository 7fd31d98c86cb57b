-- ===== src/CacheStack/Degradation.antt =====
-- Graceful degradation in src/CacheStack.ts: a layer that failed is left alone for a while. `W` is the map
-- from the names of layers to the times until which they are degraded, with the clock and a count of the
-- degraded operations. Logs and emitted events are left out.
use layercache.Base.{
  ℕ, ◌+◌, ℤ, ltb_ℤ, Bool, true, false, ite, Option, none, some, is_some, if◌then◌else◌, ◌≡◌, refl,
  arith,
}
use layercache.Exec.{ok, err, Exec}
use layercache.JsMap
use layercache.JsMap.{JsMap}
use layercache.JsMap.Laws.{get-set}
use layercache.Internal.RuntimePolicy
use layercache.Internal.RuntimePolicy.{
  GracefulDegradation, off, on, retry_after, resolve_recoverable_layer_failure,
}

-- The names of layers are any type with a decidable equality.
pub record Degradation (N : Type 0) : Type 0 where
  pub layer_degraded_until : JsMap N ℤ
  pub now : ℤ
  pub degraded_operations : ℕ

abbrev pub is_graceful_degradation_enabled : GracefulDegradation → Bool
is_graceful_degradation_enabled off = false
is_graceful_degradation_enabled on = true
is_graceful_degradation_enabled (retry_after ms) = true

module _ {N : Type 0} (dec : Discrete N) where
  -- Whether the layer is skipped, and the state in which a degradation that is over is forgotten.
  unfoldable pub should_skip_layer : N → Degradation N → Bool × Degradation N
  should_skip_layer name d =
      let degraded_until = JsMap.get dec name d.layer_degraded_until in
      let skip = RuntimePolicy.should_skip_layer degraded_until d.now in
      if skip
      then (true, d)
      else if is_some degraded_until
      then (false, record d { layer_degraded_until = JsMap.delete dec name d.layer_degraded_until })
      else (false, d)

  unfoldable pub handle_layer_failure :
      {E : Type 0} → GracefulDegradation → N → E → Exec (Degradation N) E (Unit {0})
  handle_layer_failure policy name e d = elim (resolve_recoverable_layer_failure policy d.now) [
    | none ↦ (err e, d)
    | some until ↦ (
      ok tt,
      record d {
        layer_degraded_until = JsMap.set dec name until d.layer_degraded_until;
        degraded_operations = d.degraded_operations + 1;
      },
    )
  ]

  unfoldable pub report_recoverable_layer_failure :
      {E : Type 0} → GracefulDegradation → N → E → Exec (Degradation N) E (Unit {0})
  report_recoverable_layer_failure policy name e d =
      if is_graceful_degradation_enabled policy
      then handle_layer_failure policy name e d
      else (ok tt, d)

  abbrev pub at : ℤ → Degradation N → Degradation N
  at time d = record d { now = time }

  skip-get :
      (name : N) (d : Degradation N)
      → (should_skip_layer name d).0
        ≡ RuntimePolicy.should_skip_layer (JsMap.get dec name d.layer_degraded_until) d.now
  unfolding should_skip_layer
  skip-get name d = ground arith

  skip-ite :
      (other name : N) (before : Option ℤ) (until time : ℤ) (same : Dec (name ≡ other))
      → RuntimePolicy.should_skip_layer (ite same (some until) before) time
        ≡ ite same (ltb_ℤ time until) (RuntimePolicy.should_skip_layer before time)
  unfolding RuntimePolicy.should_skip_layer
  skip-ite other name before until time (yes e) = refl
  skip-ite other name before until time (no n) = refl

  -- A failure that is handled degrades its layer and no other: at any time the layer is then skipped
  -- exactly until the time that the policy gave it, and each other layer exactly if it was before.
  pub skip-handle_layer_failure :
      {E : Type 0} (policy : GracefulDegradation) (name : N) (e : E) (d : Degradation N) (until : ℤ)
      → resolve_recoverable_layer_failure policy d.now ≡ some until
      → (time : ℤ) (other : N)
      → (should_skip_layer other (at time (handle_layer_failure policy name e d).1)).0
        ≡ ite (dec name other) (ltb_ℤ time until) (should_skip_layer other (at time d)).0
  unfolding handle_layer_failure
  skip-handle_layer_failure policy name e d until h time other =
      let after = JsMap.set dec name until d.layer_degraded_until in
      let skipped = skip-get other (
        at time (record d {
          layer_degraded_until = after;
          degraded_operations = d.degraded_operations + 1;
        })) in
      rw
        (
          handle_layer_failure,
          h,
          skipped,
          skip-get other (at time d),
          get-set dec other name until d.layer_degraded_until,
        )
        (skip-ite other name (JsMap.get dec other d.layer_degraded_until) until time
          (dec name other))

  -- A failure that is only reported never throws.
  pub report-ok :
      {E : Type 0} (policy : GracefulDegradation) (name : N) (e : E) (d : Degradation N)
      → (report_recoverable_layer_failure policy name e d).0 ≡ ok tt
  unfolding report_recoverable_layer_failure handle_layer_failure resolve_recoverable_layer_failure
  report-ok off name e d = refl
  report-ok on name e d = refl
  report-ok (retry_after ms) name e d = refl
