-- ===== src/SingleFlight/Runs.antt =====
-- A whole call of `execute` of src/singleflight/RedisSingleFlightCoordinator.ts.
use layercache.Base.{
  ℕ, true, false, Bool-cases, inl, inr, ◌⊎◌, Option, none, some, ◌≡◌, refl, ap, subst, arith,
}
use layercache.Exec.{Result, ok, err, Exec}
use layercache.Redis.{Text}
use layercache.SingleFlight.{
  Strings, Coordinator, Execution, FlightError, lock_key, holds, release_script, run_command,
  release, acquire, finally_release, run_worker, execute, IsLawful, Delivery, answered, refused,
  pending, answered_by, settle_command,
}

module _ {W : Type 0} (dec : Discrete Text) (redis : Strings W) (laws : IsLawful dec redis) where
  deleted : (key token : Text) (w : W) → holds dec redis key token (redis.del key w) ≡ false
  unfolding holds
  deleted key token w = rw (holds, laws.get-del key w key) (ground arith)

  released :
      (key token : Text) (w : W)
      → holds dec redis key token (release_script dec redis key token w) ≡ false
  unfolding release_script
  released key token w = elim (Bool-cases (holds dec redis key token w)) [
    | inl h ↦ rw h (deleted key token w)
    | inr h ↦ rw h h
  ]

  module _ (E : Type 0) where
    answered_by-ok :
        {A : Type 0} (timeout : Option ℕ) (w : W) (r : A × W) (a : A) (v : W)
        → answered_by dec redis {E = E} timeout w r ≡ (ok a, v)
        → r ≡ (a, v)
    answered_by-ok none w (x, u) a v h = ground (arith, h)
    answered_by-ok (some t) w (x, u) a v h = ground (arith, h)

    -- A command that returns was executed.
    settle_command-ok :
        {A : Type 0} (d : Delivery) (timeout : Option ℕ) (w : W) (r : A × W) (a : A) (v : W)
        → settle_command dec redis {E = E} d timeout w r ≡ (ok a, v)
        → r ≡ (a, v)
    unfolding settle_command
    settle_command-ok answered timeout w r a v h = answered_by-ok timeout w r a v h
    settle_command-ok (refused b) timeout w r a v h = absurd (ground (arith, h))
    settle_command-ok (pending b) timeout w r a v h = absurd (ground (arith, h))

    release-ok :
        (c : Coordinator) (key token : Text) (w v : W)
        → release dec redis {E = E} c key token w ≡ (ok tt, v)
        → holds dec redis (lock_key c key) token v ≡ false
    unfolding release run_command
    release-ok c key token w v h =
        let k = lock_key c key in
        let done =
          settle_command-ok (redis.delivery w) c.command_timeout_ms w
            (tt, release_script dec redis k token w) tt v h in
        subst (λ x. holds dec redis k token x ≡ false) (ap (λ r. r.1) done) (released k token w)

    -- A worker that was let in runs, whatever it and others do to the world meanwhile, and whether it returns or
    -- throws. If the release then returns, the call ends as the worker did, and the lock does not have
    -- the worker's token any more; if the release is rejected or not answered in time, the call throws
    -- that error instead. The client obeys the laws of Redis.
    pub holds-execute :
        {A : Type 0} (c : Coordinator) (key token : Text) (o : Execution)
        (worker waiter : Exec W (FlightError E) A) (w w₁ w₂ : W)
        (r : Result (FlightError E) (Unit {0}))
        → acquire dec redis {E = E} c key token o w ≡ (ok true, w₁)
        → release dec redis {E = E} c key token (worker w₁).1 ≡ (r, w₂)
        → ((r ≡ ok tt)
            × (execute dec redis c key token o worker waiter w ≡ ((worker w₁).0, w₂))
            × (holds dec redis (lock_key c key) token w₂ ≡ false))
          ⊎ ((e : FlightError E) × (r ≡ err e)
              × (execute dec redis c key token o worker waiter w ≡ (err e, w₂)))
    unfolding execute run_worker finally_release
    holds-execute c key token o worker waiter w w₁ w₂ (ok tt) a h =
        inl (refl, rw (a, h) refl, release-ok c key token (worker w₁).1 w₂ h)
    holds-execute c key token o worker waiter w w₁ w₂ (err e) a h = inr (e, refl, rw (a, h) refl)
