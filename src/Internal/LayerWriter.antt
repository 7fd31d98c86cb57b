-- ===== src/Internal/LayerWriter.antt =====
-- src/internal/CacheStackLayerWriter.ts, over the services of the stack. The resolution of lifetimes
-- (`resolveFreshTtl`, `resolveLayerMs`) is given for the options of one write, as functions of the
-- layer. Operations that run side by side run in one order, and the world may change in each.
pub mod Batch
pub mod Policy
pub mod Entries
use layercache.Base.{
  ℕ, zero, suc, ℤ, Bool, true, false, not, ◌&&◌, ◌==◌, Option, none, some, if◌then◌else◌, List, [],
  ◌∷◌, map, keep, length, or_else,
}
use layercache.Exec.{
  Result, ok, err, Exec, pure, throw, ◌>>=◌, ◌>>◌, continue, handle, catch, all, all_settled,
}
use layercache.JsValue.{Value, object}
use layercache.StoredValue.{Kind, EnvelopeOptions, create_stored_value_envelope}
use layercache.StoredValue.Reads.{remaining_stored_ttl_ms}
use layercache.Internal.Services.{
  Layer, Operation, write, stale_write_cleanup, Fence, Services, is_outdated, current_fence,
}
use layercache.Internal.FencedWrite.{run_fenced_write}

-- `resolveFreshTtl` and `resolveLayerMs` for the options of a write and the global options
pub record Lifetimes (K W E : Type 0) : Type 0 where
  pub fresh_ttl : Layer K W E → Kind → Value → Option ℤ
  pub stale_while_revalidate : Layer K W E → Option ℤ
  pub stale_if_error : Layer K W E → Option ℤ

pub record SetEntry : Type 0 where
  pub value : Value
  pub ttl : Option ℤ

-- `a ?? b`
abbrev pub or_option : Option ℤ → Option ℤ → Option ℤ
or_option none b = b
or_option (some a) b = some a

unfoldable pub build_layer_set_entry :
    {K W E : Type 0} → ℤ → Lifetimes K W E → Layer K W E → Kind → Value → ℤ → SetEntry
build_layer_set_entry clock t layer kind value now =
    let fresh_ttl = t.fresh_ttl layer kind value in
    let payload = object (
      create_stored_value_envelope
        (record {
          kind = kind;
          value = value;
          fresh_ttl_ms = fresh_ttl;
          stale_while_revalidate_ms = t.stale_while_revalidate layer;
          stale_if_error_ms = t.stale_if_error layer;
        })
        now) in
    record {
      value = payload;
      ttl = or_option (remaining_stored_ttl_ms clock payload now) fresh_ttl;
    }

-- The policy of a write, and what the writer does with failures.
pub data WritePolicy : Type 0 where
  strict best_effort : WritePolicy

pub record Writer (K W E : Type 0) : Type 0 where
  pub services : Services K W E
  pub should_write_behind : Layer K W E → Bool
  pub enqueue_write_behind : Exec W E (Unit {0}) → Exec W E (Unit {0})
  pub write_policy : Option WritePolicy
  pub on_write_failures : List E → W → W
  pub aggregate_error : List E → E

module _ {K W E : Type 0} (writer : Writer K W E) where
  abbrev pub is_best_effort : Bool
  is_best_effort = elim writer.write_policy [
    | none ↦ false
    | some p ↦ elim p [ strict ↦ false | best_effort ↦ true ]
  ]

  -- What is thrown after the operations of a best-effort write, if anything.
  abbrev pub report : ℕ → List E → W → Result E (Unit {0}) × W
  report operations [] w = (ok tt, w)
  report operations (e ∷ es) w =
      let w' = writer.on_write_failures (e ∷ es) w in
      if length (e ∷ es) == operations
      then (err (writer.aggregate_error (e ∷ es)), w')
      else (ok tt, w')

  unfoldable pub execute_layer_operations : List (Exec W E (Unit {0})) → Exec W E (Unit {0})
  execute_layer_operations operations w =
      if is_best_effort
      then (let (es, w') = all_settled operations w in report (length operations) es w')
      else all operations w

  abbrev pub cleanup_layer : K → Layer K W E → Exec W E (Unit {0})
  cleanup_layer key layer =
      catch (layer.delete key) (writer.services.handle_layer_failure layer stale_write_cleanup)

  unfoldable pub delete_from_layers : K → List (Layer K W E) → Exec W E (Unit {0})
  delete_from_layers key layers = all (map (cleanup_layer key) layers)

  -- The operation of one layer.
  unfoldable pub write_layer :
      K → Fence → Lifetimes K W E → Kind → Value → ℤ → Layer K W E → Exec W E (Unit {0})
  write_layer key fence t kind value now layer w =
      if is_outdated writer.services key fence w
      then (ok tt, w)
      else if writer.services.should_skip_layer layer w
      then (ok tt, w)
      else let entry = build_layer_set_entry (writer.services.now w) t layer kind value now in
        catch (layer.set key entry.value entry.ttl)
          (writer.services.handle_layer_failure layer write) w

  -- A deferred operation, as it is put in the queue.
  abbrev pub deferred_write :
      K → Fence → (Layer K W E → Exec W E (Unit {0})) → Layer K W E → Exec W E (Unit {0})
  deferred_write key fence operation layer = writer.enqueue_write_behind (
      run_fenced_write writer.services key fence (operation layer)
        (delete_from_layers key (layer ∷ []))
      >> pure tt)

  unfoldable pub write_across_layers :
      K → Kind → Value → Lifetimes K W E → Option Fence → Exec W E Bool
  write_across_layers key kind value t fence w =
      let s = writer.services in
      let f : Fence = or_else fence (current_fence s key w) in
      let operation = write_layer key f t kind value (s.now w) in
      let immediate = keep (λ l. not (writer.should_write_behind l)) s.layers in
      let deferred = keep writer.should_write_behind s.layers in
      let cleaned =
        keep (λ l. not (s.should_skip_layer l w) && not (writer.should_write_behind l)) s.layers in
      (run_fenced_write s key f (execute_layer_operations (map operation immediate))
            (delete_from_layers key cleaned)
          >>= λ committed. all (map (deferred_write key f operation) deferred) >> pure committed)
        w
