-- ===== src/SingleFlight.antt =====
-- `RedisSingleFlightCoordinator` of src/singleflight/RedisSingleFlightCoordinator.ts, over the string
-- commands of a Redis client and its world, which has a clock. Texts are lists of character codes, and
-- `encodeURIComponent` is a parameter. Whether a command is executed, and answered, is the client's: one that
-- is rejected or not answered may have been executed or not, and one answered late is an error too.
pub mod Leases
pub mod Runs
pub mod Memory
use layercache.Base.{
  ℕ, zero, suc, max, ◌-◌, ◌/◌, Bool, true, false, ◌||◌, ltb, leb, ite, ◌≡◌, ◌<◌, Option, none, some,
  if◌then◌else◌, List, [], ◌∷◌, ◌++◌,
}
use layercache.Exec.{Result, ok, err, Exec, continue, ◌>>=◌}
use layercache.Redis.{Text}

-- What becomes of a command that is sent: an answer, a rejection by the client, or no answer while it is
-- waited for; the Boolean says whether the server executed it all the same.
pub data Delivery : Type 0 where
  answered : Delivery
  refused pending : Bool → Delivery

pub record Strings (W : Type 0) : Type 0 where
  pub get : Text → W → Option Text
  pub del : Text → W → W
  pub pexpire : Text → ℕ → W → W
  -- `set(key, value, 'PX', ms, 'NX')`: the Boolean says that the answer was OK.
  pub set_px_nx : Text → Text → ℕ → W → Bool × W
  pub now : W → ℕ
  pub delivery : W → Delivery

pub data FlightError (E : Type 0) : Type 0 where
  worker_error : E → FlightError E
  timed_out : ℕ → FlightError E
  command_failed : FlightError E
  invalid_timeout : FlightError E

pub record Execution : Type 0 where
  pub lease_ms : ℕ
  pub renew_interval_ms : Option ℕ

-- `encode` is `encodeURIComponent`.
pub record Coordinator : Type 0 where
  pub prefix : Text
  pub encode : Text → Text
  pub command_timeout_ms : Option ℕ

unfoldable pub normalize_command_timeout_ms :
    {E : Type 0} → Option ℕ → Result (FlightError E) (Option ℕ)
normalize_command_timeout_ms none = ok none
normalize_command_timeout_ms (some zero) = err invalid_timeout
normalize_command_timeout_ms (some (suc n)) = ok (some (suc n))

unfoldable pub lock_key : Coordinator → Text → Text
lock_key c key = c.prefix ++ b':' ∷ c.encode key

-- How often `startLeaseRenewal` renews the lease, if it does.
unfoldable pub renewal_interval : Execution → Option ℕ
renewal_interval o =
    let interval : ℕ = elim o.renew_interval_ms [ none ↦ max 100 (o.lease_ms / 2) | some n ↦ n ] in
    if leb interval 0 || leb o.lease_ms interval then none else some interval

module _ {W : Type 0} (dec : Discrete Text) (redis : Strings W) where
  unfoldable pub holds : Text → Text → W → Bool
  holds key token w = elim (redis.get key w) [
    | none ↦ false
    | some found ↦ ite (dec found token) true false
  ]

  -- RELEASE_SCRIPT
  unfoldable pub release_script : Text → Text → W → W
  release_script key token w = if holds key token w then redis.del key w else w

  -- RENEW_SCRIPT
  unfoldable pub renew_script : Text → Text → ℕ → W → W
  renew_script key token lease_ms w = if holds key token w then redis.pexpire key lease_ms w else w

  module _ {E : Type 0} where
    -- An answer after the timeout loses the race.
    abbrev pub answered_by : {A : Type 0} → Option ℕ → W → A × W → Result (FlightError E) A × W
    answered_by none w (a, w') = (ok a, w')
    answered_by (some timeout) w (a, w') =
        if ltb timeout (redis.now w' - redis.now w)
        then (err (timed_out timeout), w')
        else (ok a, w')

    -- Without a timeout the client gives up at some time.
    abbrev pub given_up : Option ℕ → FlightError E
    given_up none = command_failed
    given_up (some timeout) = timed_out timeout

    -- `r` is what the command answers where it is executed in the world `w`.
    unfoldable pub settle_command :
        {A : Type 0} → Delivery → Option ℕ → W → A × W → Result (FlightError E) A × W
    settle_command answered timeout w r = answered_by timeout w r
    settle_command (refused executed) timeout w r =
        (err command_failed, if executed then r.1 else w)
    settle_command (pending executed) timeout w r =
        (err (given_up timeout), if executed then r.1 else w)

    unfoldable pub run_command : {A : Type 0} → Option ℕ → (W → A × W) → Exec W (FlightError E) A
    run_command timeout command w = settle_command (redis.delivery w) timeout w (command w)

    unfoldable pub release : Coordinator → Text → Text → Exec W (FlightError E) (Unit {0})
    release c key token =
        run_command c.command_timeout_ms (λ w. (tt, release_script (lock_key c key) token w))

    unfoldable pub acquire : Coordinator → Text → Text → Execution → Exec W (FlightError E) Bool
    acquire c key token o =
        run_command c.command_timeout_ms (redis.set_px_nx (lock_key c key) token o.lease_ms)

    -- `try { return await worker() } finally { ... }`: an error of the release takes the place of what the
    -- worker returned or threw.
    unfoldable pub finally_release :
        {A : Type 0}
        → Coordinator
        → Text
        → Text
        → Result (FlightError E) A × W
        → Result (FlightError E) A × W
    finally_release c key token (r, w) = continue (release c key token w) (λ u w'. (r, w'))

    unfoldable pub run_worker :
        {A : Type 0}
        → Coordinator
        → Text
        → Text
        → Exec W (FlightError E) A
        → Exec W (FlightError E) A
    run_worker c key token worker w = finally_release c key token (worker w)

    -- The renewals while the worker runs are part of what `worker` does to the world.
    unfoldable pub execute :
        {A : Type 0}
        → Coordinator
        → Text
        → Text
        → Execution
        → Exec W (FlightError E) A
        → Exec W (FlightError E) A
        → Exec W (FlightError E) A
    execute c key token o worker waiter = acquire c key token o >>= λ acquired.
        if acquired then run_worker c key token worker else waiter

  pub record IsLawful : Type 0 where
    pub set-free :
        (k t : Text) (ms : ℕ) (w : W)
        → redis.get k w ≡ none
        → ((redis.set_px_nx k t ms w).0 ≡ true)
          × ((j : Text)
              → redis.get j (redis.set_px_nx k t ms w).1 ≡ ite (dec k j) (some t) (redis.get j w))
    pub set-taken :
        (k t u : Text) (ms : ℕ) (w : W)
        → redis.get k w ≡ some u
        → ((redis.set_px_nx k t ms w).0 ≡ false)
          × ((j : Text) → redis.get j (redis.set_px_nx k t ms w).1 ≡ redis.get j w)
    pub get-del :
        (k : Text) (w : W) (j : Text)
        → redis.get j (redis.del k w) ≡ ite (dec k j) none (redis.get j w)
    pub get-pexpire :
        (k : Text) (ms : ℕ) (w : W) (j : Text)
        → 0 < ms
        → redis.get j (redis.pexpire k ms w) ≡ redis.get j w
