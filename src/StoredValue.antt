-- ===== src/StoredValue.antt =====
-- src/internal/StoredValue.ts: the envelope around a cached value, with its deadlines. `clock` is
-- what `Date.now()` reads during the call, and `now` the parameter of that name. Times and lifetimes
-- are whole milliseconds, so `Math.ceil` is the identity.

pub mod Reads
pub mod Guard
pub mod Lifecycle
pub mod Moves
use layercache.Base.{
  ℕ, zero, ℤ, pos, negsuc, ◌+ℤ◌, ◌-ℤ◌, ltb_ℤ, leb_ℤ, max_ℤ, min_ℤ, Bool, true, false, not, ◌&&◌,
  ◌||◌, Option, none, some, if◌then◌else◌, is_some, List, [], ◌∷◌, ◌*◌, ◌==◌,
}
use layercache.JsValue.{
  Value, Fields, Num, undefined, null, bool, num, str, object, end, field, finite, nan, infinity,
  neg_infinity, read, write, finite?, or_null, is_nullish, is_null,
}
use Prim.Native.String.{String}
use text.Mathlib.Text.{◌==◌ as str_eq}

-- 10 * 365 * 24 * 60 * 60 * 1_000
abbrev pub ten_years : ℤ
ten_years = pos 315_360_000_000

-- the fields that the code reads of an object
pub record View : Type 0 where
  pub mark : Value
  pub kind : Value
  pub value : Value
  pub fresh_until : Value
  pub stale_until : Value
  pub error_until : Value
  pub fresh_ttl_ms : Value
  pub stale_while_revalidate_ms : Value
  pub stale_if_error_ms : Value

unfoldable pub view : Fields → View
view v = record {
  mark = read "__layercache" v;
  kind = read "kind" v;
  value = read "value" v;
  fresh_until = read "freshUntil" v;
  stale_until = read "staleUntil" v;
  error_until = read "errorUntil" v;
  fresh_ttl_ms = read "freshTtlMs" v;
  stale_while_revalidate_ms = read "staleWhileRevalidateMs" v;
  stale_if_error_ms = read "staleIfErrorMs" v;
}

-- `v.__layercache !== 1`, and the kind
unfoldable pub is_marked : Value → Bool
is_marked (num (finite (pos n))) = n == 1
is_marked v = false

unfoldable pub is_kind : Value → Bool
is_kind (str s) = str_eq s "value" || str_eq s "empty"
is_kind v = false

-- null, or a finite number
unfoldable pub is_deadline : Value → Bool
is_deadline null = true
is_deadline (num (finite z)) = true
is_deadline v = false

-- `typeof a === 'number' && typeof b === 'number' && b < a`, negated
unfoldable pub not_before : Value → Value → Bool
not_before (num (finite a)) (num (finite b)) = not (ltb_ℤ b a)
not_before a b = true

unfoldable pub at_most : ℤ → Value → Bool
at_most limit (num (finite z)) = not (ltb_ℤ limit z)
at_most limit v = true

unfoldable pub is_valid_envelope_ttl_ms : Value → ℤ → Bool
is_valid_envelope_ttl_ms undefined limit = true
is_valid_envelope_ttl_ms null limit = true
is_valid_envelope_ttl_ms (num (finite z)) limit = ltb_ℤ (pos 0) z && leb_ℤ z limit
is_valid_envelope_ttl_ms v limit = false

-- The checks of `isStoredValueEnvelope`, in its order: the deadlines, the lifetimes, and all.
unfoldable pub deadlines_fit : ℤ → Value → Value → Value → Bool
deadlines_fit max_timestamp fresh_until stale_until error_until =
    is_deadline fresh_until
    && is_deadline stale_until
    && is_deadline error_until
    && at_most max_timestamp fresh_until
    && at_most max_timestamp stale_until
    && at_most max_timestamp error_until
    && not (is_null fresh_until && (not (is_null stale_until) || not (is_null error_until)))
    && not_before fresh_until stale_until
    && not_before fresh_until error_until

unfoldable pub lifetimes_fit : Value → Value → Value → Bool
lifetimes_fit fresh_ttl_ms stale_while_revalidate_ms stale_if_error_ms =
    is_valid_envelope_ttl_ms fresh_ttl_ms ten_years
    && is_valid_envelope_ttl_ms stale_while_revalidate_ms ten_years
    && is_valid_envelope_ttl_ms stale_if_error_ms ten_years
    && not (
        is_nullish fresh_ttl_ms
        && (not (is_nullish stale_while_revalidate_ms) || not (is_nullish stale_if_error_ms)))

unfoldable pub accepts : ℤ → View → Bool
accepts clock v =
    is_marked v.mark
    && is_kind v.kind
    && deadlines_fit (clock +ℤ ten_years) v.fresh_until v.stale_until v.error_until
    && lifetimes_fit v.fresh_ttl_ms v.stale_while_revalidate_ms v.stale_if_error_ms

-- Names the parts of the guard, for proofs that compute with all of them.
unfoldable pub checks : Unit {0}
unfolding accepts deadlines_fit lifetimes_fit is_marked is_kind is_deadline not_before at_most
    is_valid_envelope_ttl_ms
checks = tt

-- `isStoredValueEnvelope`: the type guard, which hands on the fields of what it accepts.
unfoldable pub as_stored_value_envelope : ℤ → Value → Option Fields
as_stored_value_envelope clock (object v) = if accepts clock (view v) then some v else none
as_stored_value_envelope clock v = none

-- `!value || value <= 0` gives undefined
unfoldable pub normalize_positive_ms : Option ℤ → Option ℤ
normalize_positive_ms none = none
normalize_positive_ms (some z) = if leb_ℤ z (pos 0) then none else some z

pub data Kind : Type 0 where
  value empty : Kind

abbrev pub kind_name : Kind → Value
kind_name value = str "value"
kind_name empty = str "empty"

pub record EnvelopeOptions : Type 0 where
  pub kind : Kind
  pub value : Value
  pub fresh_ttl_ms : Option ℤ
  pub stale_while_revalidate_ms : Option ℤ
  pub stale_if_error_ms : Option ℤ

-- `a && b ? a + b : null`; a deadline of 0 counts as none
unfoldable pub deadline : Option ℤ → Option ℤ → Option ℤ
deadline none b = none
deadline (some a) none = none
deadline (some (pos zero)) (some b) = none
deadline (some a) (some b) = some (a +ℤ b)

unfoldable pub create_stored_value_envelope : EnvelopeOptions → ℤ → Fields
create_stored_value_envelope o now =
    let fresh_ttl_ms = normalize_positive_ms o.fresh_ttl_ms in
    let stale_while_revalidate_ms = normalize_positive_ms o.stale_while_revalidate_ms in
    let stale_if_error_ms = normalize_positive_ms o.stale_if_error_ms in
    let fresh_until : Option ℤ = elim fresh_ttl_ms [ none ↦ none | some t ↦ some (now +ℤ t) ] in
    field "__layercache" (num (finite (pos 1))) (
      field "kind" (kind_name o.kind) (
        field "value" o.value (
          field "freshUntil" (or_null fresh_until) (
            field "staleUntil" (or_null (deadline fresh_until stale_while_revalidate_ms)) (
              field "errorUntil" (or_null (deadline fresh_until stale_if_error_ms)) (
                field "freshTtlMs" (or_null fresh_ttl_ms) (
                  field "staleWhileRevalidateMs" (or_null stale_while_revalidate_ms)
                    (field "staleIfErrorMs" (or_null stale_if_error_ms) end))))))))
