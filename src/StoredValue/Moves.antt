-- ===== src/StoredValue/Moves.antt =====
-- Refreshing and expiring an envelope of src/internal/StoredValue.ts.
use layercache.Base.{
  ℕ, ◌≤◌, ℤ, pos, ◌+ℤ◌, ◌≤ℤ◌, true, Option, none, some, if◌then◌else◌, arith, ◌≡◌, refl, Bool-cases,
  ap, sym, ◌∙◌, inl, inr,
}
use layercache.JsValue.{
  Value, Fields, null, num, object, finite, write, finite?, or_null, read-write,
}
use layercache.StoredValue.{
  View, view, accepts, is_deadline, deadlines_fit, not_before, at_most, as_stored_value_envelope,
  Kind, kind_name, EnvelopeOptions, create_stored_value_envelope, ten_years, normalize_positive_ms,
}
use layercache.StoredValue.Reads.{
  State, resolve_stored_value, value_at, payload, state_at, is_ahead, kind_of, earlier_of,
  refresh_stored_envelope, expire_stored_envelope,
}
use layercache.StoredValue.Lifecycle.{resolve_accepted}
use layercache.StoredValue.Guard.{
  positive, Lifetimes, create-accepted, view-create-Lifetimes, as_stored_value_envelope_lem,
}

kind_of-kind_name : (k : Kind) → kind_of (kind_name k) ≡ k
kind_of-kind_name Kind.value = refl
kind_of-kind_name Kind.empty = refl

create-cong :
    (o : EnvelopeOptions) (k : Kind) (f s e : Option ℤ) (t : ℤ)
    → k ≡ o.kind
    → normalize_positive_ms f ≡ normalize_positive_ms o.fresh_ttl_ms
    → normalize_positive_ms s ≡ normalize_positive_ms o.stale_while_revalidate_ms
    → normalize_positive_ms e ≡ normalize_positive_ms o.stale_if_error_ms
    → create_stored_value_envelope
        (record {
          kind = k;
          value = o.value;
          fresh_ttl_ms = f;
          stale_while_revalidate_ms = s;
          stale_if_error_ms = e;
        })
        t
      ≡ create_stored_value_envelope o t
unfolding create_stored_value_envelope
create-cong o k f s e t a b c d = rw (a, b, c, d)

normalize_again :
    (p : Option ℕ) → normalize_positive_ms (finite? (or_null (positive p))) ≡ positive p
unfolding normalize_positive_ms
normalize_again none = refl
normalize_again (some n) = ground arith

-- A refresh at a later time is the envelope that would have been written then.
pub refresh-create :
    (o : EnvelopeOptions) (clock now f : ℕ) (t : ℤ) (stale error : Option ℕ)
    → Lifetimes o f stale error
    → now ≤ clock
    → refresh_stored_envelope (pos clock) (object (create_stored_value_envelope o (pos now))) t
      ≡ object (create_stored_value_envelope o t)
unfolding refresh_stored_envelope
refresh-create o clock now f t stale error l h =
    rw
      (
        create-accepted o clock now f stale error l h,
        refresh_stored_envelope,
        view-create-Lifetimes o now f stale error l,
      )
      (ap object (
        create-cong o _ _ _ _ t (kind_of-kind_name o.kind)
          (normalize_again (some f) ∙ sym l.fresh_lem) (normalize_again stale ∙ sym l.stale_lem)
          (normalize_again error ∙ sym l.error_lem)))

view-write_fresh :
    (x : Value) (v : Fields) → view (write "freshUntil" x v) ≡ record (view v) { fresh_until = x }
unfolding view
view-write_fresh x v = simp read-write

-- The fields of an envelope whose fresh deadline is moved to `x`.
abbrev moved : View → ℤ → View
moved v x = record v { fresh_until = num (finite x) }

abbrev NotAfter : ℤ → Value → Type 0
NotAfter x (num (finite z)) = x ≤ℤ z
NotAfter x v = Unit

not_before-of-NotAfter : (x : ℤ) (v : Value) → NotAfter x v → not_before (num (finite x)) v ≡ true
unfolding not_before
not_before-of-NotAfter x null h = refl
not_before-of-NotAfter x (num (finite z)) h = ground arith
not_before-of-NotAfter x v h = refl

at_most-lem : (limit x : ℤ) → x ≤ℤ limit → at_most limit (num (finite x)) ≡ true
unfolding at_most
at_most-lem limit x h = ground arith

deadlines_fit-moved :
    (limit x : ℤ) (fresh stale error : Value)
    → deadlines_fit limit fresh stale error ≡ true
    → x ≤ℤ limit
    → NotAfter x stale
    → NotAfter x error
    → deadlines_fit limit (num (finite x)) stale error ≡ true
unfolding deadlines_fit is_deadline
deadlines_fit-moved limit x fresh stale error h l s e = ground (
  arith,
  not_before-of-NotAfter x stale s,
  not_before-of-NotAfter x error e,
  at_most-lem limit x l,
)

accepts-moved :
    (clock x : ℤ) (v : View)
    → accepts clock v ≡ true
    → x ≤ℤ clock +ℤ ten_years
    → NotAfter x v.stale_until
    → NotAfter x v.error_until
    → accepts clock (moved v x) ≡ true
unfolding accepts
accepts-moved clock x v h l s e =
    let m = deadlines_fit-moved (clock +ℤ ten_years) x v.fresh_until v.stale_until v.error_until in
    ground (arith, m)

-- `Math.min(now, ...futureDeadlines)` comes after none of them.
new_fresh : View → ℤ → ℤ
new_fresh v now = earlier_of (earlier_of now (finite? v.stale_until)) (finite? v.error_until)

earlier_NotAfter_left :
    (now : ℤ) (a b : Value) → NotAfter (earlier_of (earlier_of now (finite? a)) (finite? b)) a
earlier_NotAfter_left now null b = tt
earlier_NotAfter_left now (num (finite z)) (num (finite y)) = ground arith
earlier_NotAfter_left now a b = ground arith

earlier_NotAfter_right :
    (now : ℤ) (a b : Value) → NotAfter (earlier_of (earlier_of now (finite? a)) (finite? b)) b
earlier_NotAfter_right now a null = tt
earlier_NotAfter_right now (num (finite z)) (num (finite y)) = ground arith
earlier_NotAfter_right now a b = ground arith

earlier-le : (now : ℤ) (a b : Option ℤ) → earlier_of (earlier_of now a) b ≤ℤ now
earlier-le now none none = omega arith
earlier-le now none (some b) = ground arith
earlier-le now (some a) none = ground arith
earlier-le now (some a) (some b) = ground arith

as_stored-accepts :
    (clock : ℤ) (v : Fields)
    → as_stored_value_envelope clock (object v) ≡ some v
    → accepts clock (view v) ≡ true
as_stored-accepts clock v h = elim (Bool-cases (accepts clock (view v))) [
  | inl e ↦ e
  | inr e ↦
      let none_some : none ≡ some v = rw (as_stored_value_envelope_lem clock v, e) at h in
      absurd (cc)
]

expire_accepted :
    (clock now : ℤ) (v : Fields)
    → as_stored_value_envelope clock (object v) ≡ some v
    → expire_stored_envelope clock (object v) now
      ≡ object (write "freshUntil" (num (finite (new_fresh (view v) now))) v)
unfolding expire_stored_envelope new_fresh
expire_accepted clock now v h = rw (h, expire_stored_envelope)

moved_accepted :
    (clock now : ℤ) (v : Fields)
    → as_stored_value_envelope clock (object v) ≡ some v
    → now ≤ℤ clock +ℤ ten_years
    → let w = write "freshUntil" (num (finite (new_fresh (view v) now))) v in
      as_stored_value_envelope clock (object w) ≡ some w
unfolding new_fresh
moved_accepted clock now v h l =
    let u = view v in
    let below = earlier-le now (finite? u.stale_until) (finite? u.error_until) in
    let still =
      accepts-moved clock (new_fresh u now) u (as_stored-accepts clock v h) (omega arith)
        (earlier_NotAfter_left now u.stale_until u.error_until)
        (earlier_NotAfter_right now u.stale_until u.error_until) in
    rw (as_stored_value_envelope_lem, view-write_fresh, still)

-- The state of an envelope that is fresh no more.
abbrev pub stale_state : View → ℤ → State
stale_state v t =
    if is_ahead v.stale_until t
    then State.stale_while_revalidate
    else if is_ahead v.error_until t
    then State.stale_if_error
    else State.expired

state_at-moved :
    (v : View) (now t : ℤ) → now ≤ℤ t → state_at (moved v (new_fresh v now)) t ≡ stale_state v t
unfolding state_at new_fresh
state_at-moved v now t h =
    ground (arith, earlier-le now (finite? v.stale_until) (finite? v.error_until))

-- An envelope that is expired by hand stays an envelope with its payload, and from that time on it is
-- fresh no more: what is left of its stale lifetimes decides its state. (The time must not be more
-- than ten years past the clock.)
pub resolve-expire :
    (clock now t : ℤ) (v : Fields)
    → as_stored_value_envelope clock (object v) ≡ some v
    → now ≤ℤ clock +ℤ ten_years
    → now ≤ℤ t
    → let r = resolve_stored_value clock (expire_stored_envelope clock (object v) now) t in
      (r.state ≡ stale_state (view v) t)
      × (r.value ≡ value_at (stale_state (view v) t) (payload (view v)))
resolve-expire clock now t v h l le =
    rw
      (
        expire_accepted clock now v h,
        resolve_accepted clock t _ (moved_accepted clock now v h l),
        view-write_fresh,
        state_at-moved (view v) now t le,
      )
      (refl, refl)
