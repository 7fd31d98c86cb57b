-- ===== src/StoredValue/Lifecycle.antt =====
-- The life of an envelope of src/internal/StoredValue.ts: fresh, then stale, then expired.
use layercache.Base.{
  ℕ, suc, ◌+◌, ◌-◌, ◌≤◌, ℤ, pos, ◌+ℤ◌, ◌-ℤ◌, Bool, false, Option, none, some, if◌then◌else◌, arith,
  ◌≡◌, refl, ap, ltb, max,
}
use layercache.JsValue.{Value, Fields, null, object, is_nullish}
use layercache.StoredValue.{
  view, as_stored_value_envelope, Kind, EnvelopeOptions, create_stored_value_envelope, deadline,
}
use layercache.StoredValue.Reads.{
  State, unwrap_stored_value, resolve_stored_value, state_at, value_at, payload,
  remaining_stored_ttl_ms, max_expiry,
}
use layercache.StoredValue.Guard.{
  built, positive, Lifetimes, create-accepted, view-create-Lifetimes,
}

-- The time is less than `n + 1` milliseconds after `start`.
abbrev pub lasts : ℕ → Option ℕ → ℕ → Bool
lasts start none t = false
lasts start (some n) t = ltb t (start + suc n)

-- What an envelope written at `now` is at `t`.
abbrev pub phase : ℕ → ℕ → Option ℕ → Option ℕ → ℕ → State
phase now f stale error t =
    if ltb t (now + suc f)
    then State.fresh
    else if lasts (now + suc f) stale t
    then State.stale_while_revalidate
    else if lasts (now + suc f) error t
    then State.stale_if_error
    else State.expired

state_at-built :
    (k : Kind) (v : Value) (now f t : ℕ) (stale error : Option ℕ)
    → state_at
        (built k v
          (some (pos (now + suc f)))
          (some (pos (suc f)))
          (positive stale)
          (positive error))
        (pos t)
      ≡ phase now f stale error t
unfolding state_at deadline ◌+ℤ◌
state_at-built k v now f t none none = ground arith
state_at-built k v now f t none (some b) = ground arith
state_at-built k v now f t (some a) none = ground arith
state_at-built k v now f t (some a) (some b) = ground arith

-- What a reader is given in that phase.
abbrev pub content : Kind → Value → Value
content Kind.empty v = null
content Kind.value v = if is_nullish v then null else v

abbrev pub given : EnvelopeOptions → State → Value
given o s = value_at s (content o.kind o.value)

payload-built :
    (k : Kind) (v : Value) (fresh f s e : Option ℤ) → payload (built k v fresh f s e) ≡ content k v
payload-built Kind.empty v fresh f s e = refl
payload-built Kind.value v fresh f s e = ground arith

pub unwrap_accepted :
    (clock : ℤ) (v : Fields)
    → as_stored_value_envelope clock (object v) ≡ some v
    → unwrap_stored_value clock (object v) ≡ payload (view v)
unfolding unwrap_stored_value
unwrap_accepted clock v h = rw (h, unwrap_stored_value)

pub resolve_accepted :
    (clock now : ℤ) (v : Fields)
    → as_stored_value_envelope clock (object v) ≡ some v
    → resolve_stored_value clock (object v) now ≡ record {
      state = state_at (view v) now;
      value = value_at (state_at (view v) now) (payload (view v));
      stored = object v;
      envelope = some v;
    }
unfolding resolve_stored_value
resolve_accepted clock now v h = rw (h, resolve_stored_value, unwrap_accepted clock v h)

-- An envelope that was written no later than the clock reads is fresh for its fresh lifetime, then
-- stale-while-revalidate and stale-if-error for as long as those lifetimes last, and expired after
-- that; a reader gets the value that was stored (null for an empty one) until it is expired.
pub resolve-create :
    (o : EnvelopeOptions) (clock now f t : ℕ) (stale error : Option ℕ)
    → Lifetimes o f stale error
    → now ≤ clock
    → let r =
        resolve_stored_value
          (pos clock)
          (object (create_stored_value_envelope o (pos now)))
          (pos t) in
      (r.state ≡ phase now f stale error t) × (r.value ≡ given o (phase now f stale error t))
resolve-create o clock now f t stale error l h =
    rw
      (
        resolve_accepted (pos clock) (pos t) _ (create-accepted o clock now f stale error l h),
        view-create-Lifetimes o now f stale error l,
        state_at-built o.kind o.value now f t stale error,
      )
      (
        refl,
        ap (value_at (phase now f stale error t)) (
            payload-built o.kind o.value (some (pos (now + suc f))) (some (pos (suc f)))
              (positive stale) (positive error)),
      )

-- The longest deadline, in whole numbers.
abbrev pub last_deadline : ℕ → ℕ → Option ℕ → Option ℕ → ℕ
last_deadline now f none none = now + suc f
last_deadline now f (some a) none = now + suc f + suc a
last_deadline now f none (some b) = now + suc f + suc b
last_deadline now f (some a) (some b) = now + suc f + suc (max a b)

max_expiry-built :
    (k : Kind) (v : Value) (now f : ℕ) (stale error : Option ℕ)
    → max_expiry (
        built k v (some (pos (now + suc f))) (some (pos (suc f))) (positive stale) (positive error))
      ≡ some (pos (last_deadline now f stale error))
unfolding max_expiry deadline ◌+ℤ◌
max_expiry-built k v now f none none = ground arith
max_expiry-built k v now f none (some b) = ground arith
max_expiry-built k v now f (some a) none = ground arith
max_expiry-built k v now f (some a) (some b) = ground arith

pub remaining_accepted :
    (clock : ℤ) (v : Fields) (e t : ℕ)
    → as_stored_value_envelope clock (object v) ≡ some v
    → max_expiry (view v) ≡ some (pos e)
    → remaining_stored_ttl_ms clock (object v) (pos t) ≡ some (pos (max 1 (e - t)))
unfolding remaining_stored_ttl_ms ◌-ℤ◌
remaining_accepted clock v e t h m = rw (h, m, remaining_stored_ttl_ms) (ground arith)

-- The lifetime that a layer is given for an envelope reaches exactly to its last deadline, and is
-- never less than a millisecond.
pub remaining_stored_ttl_ms-create :
    (o : EnvelopeOptions) (clock now f t : ℕ) (stale error : Option ℕ)
    → Lifetimes o f stale error
    → now ≤ clock
    → remaining_stored_ttl_ms
        (pos clock)
        (object (create_stored_value_envelope o (pos now)))
        (pos t)
      ≡ some (pos (max 1 (last_deadline now f stale error - t)))
remaining_stored_ttl_ms-create o clock now f t stale error l h =
    remaining_accepted (pos clock) _ (last_deadline now f stale error) t
      (create-accepted o clock now f stale error l h)
      (rw (view-create-Lifetimes o now f stale error l)
        (max_expiry-built o.kind o.value now f stale error))
