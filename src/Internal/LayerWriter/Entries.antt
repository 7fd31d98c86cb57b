-- ===== src/Internal/LayerWriter/Entries.antt =====
-- The entry that a layer is given (src/internal/CacheStackLayerWriter.ts), and a memory layer that
-- keeps it (src/layers/MemoryLayer.ts).
use layercache.Base.{
  ℕ, suc, ◌-◌, ◌≤◌, max, pos, ◌+ℤ◌, leb, Bool, true, false, Option, none, some, ◌≡◌, arith, ◌∙◌,
  sym,
}
use layercache.JsValue.{Value, object}
use layercache.StoredValue.{Kind, EnvelopeOptions, create_stored_value_envelope}
use layercache.StoredValue.Reads.{State, resolve_stored_value}
use layercache.StoredValue.Guard.{Lifetimes}
use layercache.StoredValue.Lifecycle.{
  phase, last_deadline, resolve-create, remaining_stored_ttl_ms-create,
}
use layercache.Layers.Memory.{MemoryLayer, new_entry, is_expired}
use layercache.Internal.Services.{Layer}
use layercache.Internal.LayerWriter
use layercache.Internal.LayerWriter.{build_layer_set_entry}

abbrev pub is_state_expired : State → Bool
is_state_expired State.expired = true
is_state_expired s = false

-- The options of the envelope that a layer is given.
abbrev pub envelope_options :
    {K W E : Type 0} → LayerWriter.Lifetimes K W E → Layer K W E → Kind → Value → EnvelopeOptions
envelope_options t layer kind v = record {
  kind = kind;
  value = v;
  fresh_ttl_ms = t.fresh_ttl layer kind v;
  stale_while_revalidate_ms = t.stale_while_revalidate layer;
  stale_if_error_ms = t.stale_if_error layer;
}

phase-expired :
    (now f t : ℕ) (stale error : Option ℕ)
    → is_state_expired (phase now f stale error t) ≡ leb (last_deadline now f stale error) t
phase-expired now f t none none = ground arith
phase-expired now f t (some a) none = ground arith
phase-expired now f t none (some b) = ground arith
phase-expired now f t (some a) (some b) = ground arith

kept :
    (now last t : ℕ) (v : Value) {K : Type 0} (l : MemoryLayer K)
    → suc now ≤ last
    → is_expired (pos t) (new_entry (pos now) v (some (pos (max 1 (last - now)))) l) ≡ leb last t
unfolding is_expired ◌+ℤ◌
kept now last t v l h = ground arith

last_deadline-later :
    (now f : ℕ) (stale error : Option ℕ) → suc now ≤ last_deadline now f stale error
last_deadline-later now f none none = omega arith
last_deadline-later now f (some a) none = omega arith
last_deadline-later now f none (some b) = omega arith
last_deadline-later now f (some a) (some b) = omega arith

-- An entry with a fresh lifetime that ends within ten years, built for a layer and stored in a memory
-- layer at once, is there exactly until its envelope has expired.
pub is_expired-build :
    {K W E : Type 0} (t : LayerWriter.Lifetimes K W E) (layer : Layer K W E) (kind : Kind)
    (v : Value) (now f later : ℕ) (stale error : Option ℕ) {J : Type 0} (l : MemoryLayer J)
    → Lifetimes (envelope_options t layer kind v) f stale error
    → now ≤ later
    → let e = build_layer_set_entry (pos now) t layer kind v (pos now) in
      is_expired (pos later) (new_entry (pos now) e.value e.ttl l)
      ≡ is_state_expired (resolve_stored_value (pos later) e.value (pos later)).state
unfolding build_layer_set_entry
is_expired-build t layer kind v now f later stale error l h le =
    let o = envelope_options t layer kind v in
    let last = last_deadline now f stale error in
    rw
      (
        remaining_stored_ttl_ms-create o now now f now stale error h (omega arith),
        (resolve-create o later now f later stale error h le).0,
      )
      (kept now last later (object (create_stored_value_envelope o (pos now))) l
          (last_deadline-later now f stale error)
        ∙ sym (phase-expired now f later stale error))
