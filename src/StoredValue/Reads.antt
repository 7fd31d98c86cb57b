-- ===== src/StoredValue/Reads.antt =====
-- src/internal/StoredValue.ts: what is read of a stored value, and how its deadlines are moved.
use layercache.Base.{
  ℤ, pos, ◌-ℤ◌, ltb_ℤ, leb_ℤ, max_ℤ, min_ℤ, Bool, false, ◌||◌, Option, none, some, if◌then◌else◌,
}
use layercache.JsValue.{
  Value, Fields, null, num, str, object, finite, write, finite?, is_nullish, is_null,
}
use text.Mathlib.Text.{◌==◌ as str_eq}
use layercache.StoredValue.{
  View, view, as_stored_value_envelope, Kind, EnvelopeOptions, create_stored_value_envelope,
}

pub data State : Type 0 where
  fresh stale_while_revalidate stale_if_error expired : State

pub record Resolved : Type 0 where
  pub state : State
  pub value : Value
  pub stored : Value
  pub envelope : Option Fields

-- `stored.value ?? null`, and null for an empty envelope
abbrev pub is_empty : Value → Bool
is_empty (str s) = str_eq s "empty"
is_empty other = false

abbrev pub payload : View → Value
payload v = if is_empty v.kind || is_nullish v.value then null else v.value

unfoldable pub unwrap_stored_value : ℤ → Value → Value
unwrap_stored_value clock stored = elim (as_stored_value_envelope clock stored) [
  | none ↦ stored
  | some v ↦ payload (view v)
]

-- `deadline !== null && deadline > now`
abbrev pub is_ahead : Value → ℤ → Bool
is_ahead (num (finite z)) now = ltb_ℤ now z
is_ahead v now = false

unfoldable pub state_at : View → ℤ → State
state_at v now =
    if is_null v.fresh_until || is_ahead v.fresh_until now
    then fresh
    else if is_ahead v.stale_until now
    then stale_while_revalidate
    else if is_ahead v.error_until now
    then stale_if_error
    else expired

abbrev pub value_at : State → Value → Value
value_at expired v = null
value_at fresh v = v
value_at stale_while_revalidate v = v
value_at stale_if_error v = v

unfoldable pub resolve_stored_value : ℤ → Value → ℤ → Resolved
unfolding unwrap_stored_value state_at
resolve_stored_value clock stored now = elim (as_stored_value_envelope clock stored) [
  | none ↦ record { state = fresh; value = stored; stored = stored; envelope = none }
  | some v ↦ record {
    state = state_at (view v) now;
    value = value_at (state_at (view v) now) (unwrap_stored_value clock stored);
    stored = stored;
    envelope = some v;
  }
]

-- `Math.max(...values)` over the deadlines that are not null
abbrev pub later_of : Option ℤ → Option ℤ → Option ℤ
later_of none b = b
later_of (some a) none = some a
later_of (some a) (some b) = some (max_ℤ a b)

unfoldable pub max_expiry : View → Option ℤ
max_expiry v =
    later_of (later_of (finite? v.fresh_until) (finite? v.stale_until)) (finite? v.error_until)

unfoldable pub remaining_stored_ttl_ms : ℤ → Value → ℤ → Option ℤ
unfolding max_expiry
remaining_stored_ttl_ms clock stored now = elim (as_stored_value_envelope clock stored) [
  | none ↦ none
  | some v ↦ elim (max_expiry (view v)) [
    | none ↦ none
    | some expiry ↦
        let remaining_ms = expiry -ℤ now in
        if leb_ℤ remaining_ms (pos 0) then some (pos 1) else some (max_ℤ (pos 1) remaining_ms)
  ]
]

unfoldable pub remaining_fresh_ttl_ms : ℤ → Value → ℤ → Option ℤ
remaining_fresh_ttl_ms clock stored now = elim (as_stored_value_envelope clock stored) [
  | none ↦ none
  | some v ↦ elim (finite? (view v).fresh_until) [
    | none ↦ none
    | some fresh_until ↦
        let remaining_ms = fresh_until -ℤ now in
        if leb_ℤ remaining_ms (pos 0) then some (pos 0) else some (max_ℤ (pos 1) remaining_ms)
  ]
]

abbrev pub kind_of : Value → Kind
kind_of v = if is_empty v then Kind.empty else Kind.value

abbrev pub options_of : View → EnvelopeOptions
options_of v = record {
  kind = kind_of v.kind;
  value = v.value;
  fresh_ttl_ms = finite? v.fresh_ttl_ms;
  stale_while_revalidate_ms = finite? v.stale_while_revalidate_ms;
  stale_if_error_ms = finite? v.stale_if_error_ms;
}

unfoldable pub refresh_stored_envelope : ℤ → Value → ℤ → Value
refresh_stored_envelope clock stored now = elim (as_stored_value_envelope clock stored) [
  | none ↦ stored
  | some v ↦ object (create_stored_value_envelope (options_of (view v)) now)
]

-- `Math.min(now, ...futureDeadlines)`
abbrev pub earlier_of : ℤ → Option ℤ → ℤ
earlier_of a none = a
earlier_of a (some b) = min_ℤ a b

unfoldable pub expire_stored_envelope : ℤ → Value → ℤ → Value
expire_stored_envelope clock stored now = elim (as_stored_value_envelope clock stored) [
  | none ↦ stored
  | some v ↦
      let fresh_until =
        earlier_of (earlier_of now (finite? (view v).stale_until)) (finite? (view v).error_until) in
      object (write "freshUntil" (num (finite fresh_until)) v)
]
