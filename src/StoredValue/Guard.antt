-- ===== src/StoredValue/Guard.antt =====
-- What the type guard of src/internal/StoredValue.ts accepts.
use layercache.Base.{
  ℕ, zero, suc, ◌+◌, ◌-◌, ◌≤◌, ◌<◌, ℤ, pos, negsuc, ◌+ℤ◌, true, false, Option, none, some,
  if◌then◌else◌, arith, ◌≡◌, refl, inl, inr, ◌⊎◌,
}
use layercache.JsValue.{Value, Fields, num, object, finite, read, or_null}
use layercache.StoredValue.{
  View, view, accepts, checks, as_stored_value_envelope, Kind, kind_name, EnvelopeOptions,
  create_stored_value_envelope, normalize_positive_ms, deadline,
}
use layercache.StoredValue.Reads.{unwrap_stored_value}

pub as_stored_value_envelope_lem :
    (clock : ℤ) (v : Fields)
    → as_stored_value_envelope clock (object v) ≡ (if accepts clock (view v) then some v else none)
unfolding as_stored_value_envelope
as_stored_value_envelope_lem clock v = refl

-- The fields that `createStoredValueEnvelope` writes, of lifetimes that are positive.
abbrev pub built : Kind → Value → Option ℤ → Option ℤ → Option ℤ → Option ℤ → View
built kind value fresh_until fresh stale error = record {
  mark = num (finite (pos 1));
  kind = kind_name kind;
  value = value;
  fresh_until = or_null fresh_until;
  stale_until = or_null (deadline fresh_until stale);
  error_until = or_null (deadline fresh_until error);
  fresh_ttl_ms = or_null fresh;
  stale_while_revalidate_ms = or_null stale;
  stale_if_error_ms = or_null error;
}

abbrev pub until : ℤ → Option ℤ → Option ℤ
until now none = none
until now (some t) = some (now +ℤ t)

pub view-create :
    (o : EnvelopeOptions) (now : ℤ)
    → view (create_stored_value_envelope o now)
      ≡ built o.kind o.value
          (until now (normalize_positive_ms o.fresh_ttl_ms))
          (normalize_positive_ms o.fresh_ttl_ms)
          (normalize_positive_ms o.stale_while_revalidate_ms)
          (normalize_positive_ms o.stale_if_error_ms)
unfolding view create_stored_value_envelope read
view-create o now = refl

-- A lifetime that is given is positive once it is normalised: `n` stands for `n + 1` milliseconds.
abbrev pub positive : Option ℕ → Option ℤ
positive none = none
positive (some n) = some (pos (suc n))

pub normalize-positive : (t : Option ℤ) → (p : Option ℕ) × (normalize_positive_ms t ≡ positive p)
unfolding normalize_positive_ms
normalize-positive none = (none, refl)
normalize-positive (some (pos zero)) = (none, refl)
normalize-positive (some (pos (suc n))) = (some n, ground arith)
normalize-positive (some (negsuc n)) = (none, ground arith)

abbrev pub AtMost : ℕ → Option ℕ → Type 0
AtMost limit none = Unit
AtMost limit (some n) = n < limit

accepts-built :
    (k : Kind) (v : Value) (clock now f : ℕ) (stale error : Option ℕ)
    → now ≤ clock
    → AtMost (315_359_999_999 - f) stale
    → AtMost (315_359_999_999 - f) error
    → f < 315_360_000_000
    → accepts (pos clock) (
        built k v (some (pos (now + suc f))) (some (pos (suc f))) (positive stale) (positive error))
      ≡ true
unfolding checks deadline ◌+ℤ◌
accepts-built Kind.value v clock now f none none h s e l = ground arith
accepts-built Kind.value v clock now f none (some b) h s e l = ground arith
accepts-built Kind.value v clock now f (some a) none h s e l = ground arith
accepts-built Kind.value v clock now f (some a) (some b) h s e l = ground arith
accepts-built Kind.empty v clock now f none none h s e l = ground arith
accepts-built Kind.empty v clock now f none (some b) h s e l = ground arith
accepts-built Kind.empty v clock now f (some a) none h s e l = ground arith
accepts-built Kind.empty v clock now f (some a) (some b) h s e l = ground arith

-- The lifetimes of an envelope in whole numbers: `f + 1` milliseconds fresh, and then for `stale`
-- and `error` more, none of it past ten years.
pub record Lifetimes (o : EnvelopeOptions) (f : ℕ) (stale error : Option ℕ) : Type 0 where
  pub fresh_lem : normalize_positive_ms o.fresh_ttl_ms ≡ some (pos (suc f))
  pub stale_lem : normalize_positive_ms o.stale_while_revalidate_ms ≡ positive stale
  pub error_lem : normalize_positive_ms o.stale_if_error_ms ≡ positive error
  pub fresh_max : f < 315_360_000_000
  pub stale_max : AtMost (315_359_999_999 - f) stale
  pub error_max : AtMost (315_359_999_999 - f) error

pub view-create-Lifetimes :
    (o : EnvelopeOptions) (now f : ℕ) (stale error : Option ℕ)
    → Lifetimes o f stale error
    → view (create_stored_value_envelope o (pos now))
      ≡ built o.kind o.value
          (some (pos (now + suc f)))
          (some (pos (suc f)))
          (positive stale)
          (positive error)
unfolding ◌+ℤ◌
view-create-Lifetimes o now f stale error l =
    rw (view-create o (pos now), l.fresh_lem, l.stale_lem, l.error_lem) (ground arith)

-- An envelope that was written no later than the clock reads is accepted by the guard, whatever its
-- kind and value, if it has a fresh lifetime and ends within ten years.
pub create-accepted :
    (o : EnvelopeOptions) (clock now f : ℕ) (stale error : Option ℕ)
    → Lifetimes o f stale error
    → now ≤ clock
    → as_stored_value_envelope (pos clock) (object (create_stored_value_envelope o (pos now)))
      ≡ some (create_stored_value_envelope o (pos now))
create-accepted o clock now f stale error l h = rw (
  as_stored_value_envelope_lem,
  view-create-Lifetimes o now f stale error l,
  accepts-built o.kind o.value clock now f stale error h l.stale_max l.error_max l.fresh_max,
)

refused_stale :
    (k : Kind) (v : Value) (clock : ℤ) (s : ℕ) (error : Option ℤ)
    → accepts clock (built k v none none (some (pos s)) error) ≡ false
unfolding checks deadline
refused_stale Kind.value v clock s error = ground arith
refused_stale Kind.empty v clock s error = ground arith

refused_error :
    (k : Kind) (v : Value) (clock : ℤ) (s : ℕ) (stale : Option ℤ)
    → accepts clock (built k v none none stale (some (pos s))) ≡ false
unfolding checks deadline
refused_error Kind.value v clock s stale = ground arith
refused_error Kind.empty v clock s stale = ground arith

unwrap_refused :
    (clock : ℤ) (v : Fields)
    → accepts clock (view v) ≡ false
    → unwrap_stored_value clock (object v) ≡ object v
unfolding unwrap_stored_value
unwrap_refused clock v h = rw (as_stored_value_envelope_lem clock v, h, unwrap_stored_value)

-- With no fresh lifetime but a stale one, `createStoredValueEnvelope` writes an envelope that the
-- guard refuses at every clock: `unwrapStoredValue` then returns the envelope in place of the value.
pub unwrap-create_without_fresh :
    (o : EnvelopeOptions) (clock now : ℤ) (s : ℕ)
    → normalize_positive_ms o.fresh_ttl_ms ≡ none
    → (normalize_positive_ms o.stale_while_revalidate_ms ≡ some (pos s))
      ⊎ (normalize_positive_ms o.stale_if_error_ms ≡ some (pos s))
    → unwrap_stored_value clock (object (create_stored_value_envelope o now))
      ≡ object (create_stored_value_envelope o now)
unwrap-create_without_fresh o clock now s f (inl e) =
    unwrap_refused clock _ (rw (view-create o now, f, e, refused_stale))
unwrap-create_without_fresh o clock now s f (inr e) =
    unwrap_refused clock _ (rw (view-create o now, f, e, refused_error))
