-- ===== src/Internal/CircuitBreaker.antt =====
-- `CircuitBreakerManager` of src/internal/CircuitBreakerManager.ts, over any type of keys with a
-- decidable equality. `now` is what `Date.now()` reads during a call, in whole milliseconds. The text
-- of an error is represented by the seconds that it names.
pub mod Bound
pub mod Trips
use layercache.Base.{
  ℕ, ◌+◌, ◌-◌, ◌/◌, Bool, true, false, ◌||◌, ltb, leb, ◌==◌, Option, none, some, if◌then◌else◌,
  List, [], ◌∷◌,
}
use layercache.JsMap.{JsMap}
use layercache.JsMap

pub record CircuitBreakerState : Type 0 where
  pub failures : ℕ
  pub open_until : Option ℕ
  pub created_at : ℕ

pub record CircuitBreakerManager (K : Type 0) : Type 0 where
  pub breakers : JsMap K CircuitBreakerState
  pub max_entries : ℕ

pub record CircuitBreakerOptions : Type 0 where
  pub failure_threshold : Option ℕ
  pub cooldown_ms : Option ℕ

-- the deadline, if the state is there and its deadline is neither null nor 0
abbrev pub opened : Option CircuitBreakerState → Option ℕ
opened none = none
opened (some s) = elim s.open_until [ none ↦ none | some t ↦ if t == 0 then none else some t ]

-- `!state.openUntil || state.openUntil <= now`
unfoldable pub is_removable : ℕ → CircuitBreakerState → Bool
is_removable now s = elim (opened (some s)) [ none ↦ true | some t ↦ leb t now ]

-- a stable sort by `createdAt`
module _ {K : Type 0} where
  unfoldable pub insert_by_age :
      K × CircuitBreakerState → JsMap K CircuitBreakerState → JsMap K CircuitBreakerState
  insert_by_age e [] = e ∷ []
  insert_by_age e (f ∷ m) =
      if ltb f.1.created_at e.1.created_at then f ∷ insert_by_age e m else e ∷ f ∷ m

  unfoldable pub sort_by_age : JsMap K CircuitBreakerState → JsMap K CircuitBreakerState
  sort_by_age [] = []
  sort_by_age (e ∷ m) = insert_by_age e (sort_by_age m)

module _ {K : Type 0} (dec : Discrete K) where
  -- The state of a key, as `recordFailure` finds or makes it, with one failure more.
  abbrev pub failed :
      ℕ → K → CircuitBreakerOptions → JsMap K CircuitBreakerState → CircuitBreakerState
  failed now key options m =
      let failure_threshold : ℕ = elim options.failure_threshold [ none ↦ 3 | some n ↦ n ] in
      let cooldown_ms : ℕ = elim options.cooldown_ms [ none ↦ 30_000 | some n ↦ n ] in
      let state : CircuitBreakerState = elim (JsMap.get dec key m) [
        | none ↦ record { failures = 0; open_until = none; created_at = now }
        | some s ↦ s
      ] in
      record state {
        failures = state.failures + 1;
        open_until =
            if leb failure_threshold (state.failures + 1)
            then some (now + cooldown_ms)
            else state.open_until;
      }

  -- The first pass of `pruneIfNeeded`, over the entries that the map has when it begins.
  unfoldable pub remove_expired :
      ℕ
      → ℕ
      → JsMap K CircuitBreakerState
      → JsMap K CircuitBreakerState
      → JsMap K CircuitBreakerState
  remove_expired max now [] m = m
  remove_expired max now ((k, s) ∷ rest) m =
      if leb (JsMap.size m) max
      then m
      else remove_expired max now rest (if is_removable now s then JsMap.delete dec k m else m)

  -- The second pass, over the entries by age.
  unfoldable pub remove_oldest :
      ℕ → JsMap K CircuitBreakerState → JsMap K CircuitBreakerState → JsMap K CircuitBreakerState
  remove_oldest max [] m = m
  remove_oldest max ((k, s) ∷ rest) m =
      if leb (JsMap.size m) max then m else remove_oldest max rest (JsMap.delete dec k m)

  unfoldable pub prune_if_needed : ℕ → ℕ → JsMap K CircuitBreakerState → JsMap K CircuitBreakerState
  prune_if_needed max now m =
      if leb (JsMap.size m) max
      then m
      else let first = remove_expired max now m m in
        if leb (JsMap.size first) max then first else remove_oldest max (sort_by_age first) first

  unfoldable pub record_failure :
      ℕ → K → Option CircuitBreakerOptions → CircuitBreakerManager K → CircuitBreakerManager K
  record_failure now key none c = c
  record_failure now key (some options) c = record c {
    breakers =
        prune_if_needed c.max_entries now
          (JsMap.set dec key (failed now key options c.breakers) c.breakers);
  }

  unfoldable pub delete : K → CircuitBreakerManager K → CircuitBreakerManager K
  delete key c = record c { breakers = JsMap.delete dec key c.breakers }

  unfoldable pub record_success : K → CircuitBreakerManager K → CircuitBreakerManager K
  record_success key c = record c { breakers = JsMap.delete dec key c.breakers }

  -- The seconds that the error names, if the call throws.
  unfoldable pub assert_closed :
      ℕ → K → CircuitBreakerManager K → CircuitBreakerManager K × Option ℕ
  assert_closed now key c = elim (opened (JsMap.get dec key c.breakers)) [
    | none ↦ (c, none)
    | some t ↦
        if leb t now
        then (record c { breakers = JsMap.delete dec key c.breakers }, none)
        else (c, some ((t - now + 999) / 1_000))
  ]

  unfoldable pub is_open : ℕ → K → CircuitBreakerManager K → CircuitBreakerManager K × Bool
  is_open now key c = elim (opened (JsMap.get dec key c.breakers)) [
    | none ↦ (c, false)
    | some t ↦
        if leb t now
        then (record c { breakers = JsMap.delete dec key c.breakers }, false)
        else (c, true)
  ]

module _ {K : Type 0} where
  unfoldable pub clear : CircuitBreakerManager K → CircuitBreakerManager K
  clear c = record c { breakers = [] }

  count_open : JsMap K CircuitBreakerState → ℕ
  count_open [] = 0
  count_open ((k, s) ∷ m) = elim s.open_until [ none ↦ count_open m | some t ↦ count_open m + 1 ]

  unfoldable pub trip_count : CircuitBreakerManager K → ℕ
  unfolding count_open
  trip_count c = count_open c.breakers

-- The methods that change the state, as calls.
pub data Call (K : Type 0) : Type 0 where
  asserts successes opens deletes : K → Call K
  fails : K → Option CircuitBreakerOptions → Call K
  clears : Call K

module _ {K : Type 0} (dec : Discrete K) where
  unfoldable pub step : CircuitBreakerManager K → ℕ × Call K → CircuitBreakerManager K
  step c (now, asserts key) = (assert_closed dec now key c).0
  step c (now, successes key) = record_success dec key c
  step c (now, opens key) = (is_open dec now key c).0
  step c (now, deletes key) = delete dec key c
  step c (now, fails key options) = record_failure dec now key options c
  step c (now, clears) = clear c

  unfoldable pub run : CircuitBreakerManager K → List (ℕ × Call K) → CircuitBreakerManager K
  run c [] = c
  run c (call ∷ calls) = run (step c call) calls
