-- ===== src/Internal/Reader/Entries.antt =====
-- What src/internal/CacheStackReader.ts finds in an entry that src/internal/CacheStackLayerWriter.ts built.
use layercache.Base.{ℕ, suc, ◌+◌, ◌≤◌, ◌<◌, pos, Option, if◌then◌else◌, ◌≡◌, refl, ap, arith}
use layercache.JsValue.{Value, undefined, null, is_nullish}
use layercache.StoredValue.{Kind, EnvelopeOptions, create_stored_value_envelope, kind_name, view}
use layercache.StoredValue.Reads.{State, is_empty, value_at}
use layercache.StoredValue.Guard.{Lifetimes, create-accepted, view-create-Lifetimes}
use layercache.StoredValue.Lifecycle.{phase, content, resolve-create}
use layercache.Internal.Services.{Layer}
use layercache.Internal.LayerWriter
use layercache.Internal.LayerWriter.{build_layer_set_entry}
use layercache.Internal.LayerWriter.Entries.{envelope_options}
use layercache.Internal.Reader.{Reader, found_hit, is_negative_stored_value}

-- What a reader is to get of a value: undefined for a negative entry, null for nothing.
abbrev pub answer_of : Kind → Value → Value
answer_of Kind.empty v = undefined
answer_of Kind.value v = if is_nullish v then null else v

is_empty-kind :
    (o : EnvelopeOptions) (now f : ℕ) (stale error : Option ℕ)
    → Lifetimes o f stale error
    → is_empty (view (create_stored_value_envelope o (pos now))).kind ≡ is_empty (kind_name o.kind)
is_empty-kind o now f stale error h =
    ap (λ x. is_empty x.kind) (view-create-Lifetimes o now f stale error h)

served :
    (kind : Kind) (v : Value)
    → (if is_empty (kind_name kind) then undefined else value_at State.fresh (content kind v))
      ≡ answer_of kind v
served Kind.value v = ground arith
served Kind.empty v = refl

-- An entry with a fresh lifetime that ends within ten years, built for a layer and found again by a
-- reader within its fresh lifetime, is a fresh hit with the value that was written; for a negative entry
-- the value is undefined, and for undefined it is null.
pub found_hit-build :
    {K W E : Type 0} (t : LayerWriter.Lifetimes K W E) (r : Reader K W E) (layer : Layer K W E)
    (kind : Kind) (v : Value) (index now f later : ℕ) (stale error : Option ℕ) (w : W)
    → Lifetimes (envelope_options t layer kind v) f stale error
    → r.services.now w ≡ pos later
    → now ≤ later
    → later < now + suc f
    → let e = build_layer_set_entry (pos now) t layer kind v (pos now) in
      let hit = found_hit r index layer e.value w in
      (hit.state ≡ State.fresh) × (hit.value ≡ answer_of kind v)
unfolding build_layer_set_entry
found_hit-build t r layer kind v index now f later stale error w h n le less =
    let o = envelope_options t layer kind v in
    let found = resolve-create o later now f later stale error h le in
    let ok = create-accepted o later now f stale error h le in
    let e = is_empty-kind o now f stale error h in
    let fresh : phase now f stale error later ≡ State.fresh = ground (arith, less) in
    rw (n, build_layer_set_entry, is_negative_stored_value, ok, e, found.0, found.1)
      (fresh, rw fresh (served kind v))
