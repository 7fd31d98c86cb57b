-- ===== src/Internal/CircuitBreaker/Trips.antt =====
-- When the breakers of src/internal/CircuitBreakerManager.ts open, and when they close.
use layercache.Base.{
  ℕ, suc, ◌+◌, ◌-◌, ◌/◌, ◌≤◌, ◌<◌, true, false, ltb, leb, ◌&&◌, none, some, is_some, if◌then◌else◌,
  List, [], ◌∷◌, ◌++◌, ◌≡◌, refl, arith, length, All, length-append, ◌∙◌,
}
use layercache.JsMap.{JsMap}
use layercache.JsMap
use layercache.JsMap.Laws.{get-set, size-set, set_absent, delete_absent, delete-append}
use mathlib.Core.List.{append-nil}
use layercache.Internal.CircuitBreaker.{
  CircuitBreakerState, CircuitBreakerManager, CircuitBreakerOptions, opened, is_removable, failed,
  remove_expired, prune_if_needed, record_failure, assert_closed, is_open,
}

abbrev pub threshold : CircuitBreakerOptions → ℕ
threshold o = elim o.failure_threshold [ none ↦ 3 | some n ↦ n ]

abbrev pub cooldown : CircuitBreakerOptions → ℕ
cooldown o = elim o.cooldown_ms [ none ↦ 30_000 | some n ↦ n ]

module _ {K : Type 0} (dec : Discrete K) where
  prune_done :
      (max now : ℕ) (m : JsMap K CircuitBreakerState)
      → JsMap.size m ≤ max
      → prune_if_needed dec max now m ≡ m
  unfolding prune_if_needed
  prune_done max now m h = let done : leb (JsMap.size m) max ≡ true = ground arith in rw done

  -- Where the key is known or there is room for it, a failure changes its state and no other.
  record_failure-set :
      (now : ℕ) (k : K) (o : CircuitBreakerOptions) (c : CircuitBreakerManager K)
      → JsMap.size (JsMap.set dec k (failed dec now k o c.breakers) c.breakers) ≤ c.max_entries
      → record_failure dec now k (some o) c
        ≡ record c { breakers = JsMap.set dec k (failed dec now k o c.breakers) c.breakers }
  unfolding record_failure
  record_failure-set now k o c h = rw (prune_done c.max_entries now _ h)

  -- Failures of one key in a row, at the times listed, the last one first.
  unfoldable pub fail_all :
      K → CircuitBreakerOptions → CircuitBreakerManager K → List ℕ → CircuitBreakerManager K
  fail_all k o c [] = c
  fail_all k o c (t ∷ ts) = record_failure dec t k (some o) (fail_all k o c ts)

  record Failed (k : K) (o : CircuitBreakerOptions) (c d : CircuitBreakerManager K) (t : ℕ)
      (ts : List ℕ) : Type 0 where
    state : CircuitBreakerState
    found : JsMap.get dec k d.breakers ≡ some state
    count : state.failures ≡ length (t ∷ ts)
    until :
        state.open_until
        ≡ (if leb (threshold o) (length (t ∷ ts)) then some (t + cooldown o) else none)
    room : JsMap.size d.breakers ≡ JsMap.size c.breakers + 1
    same_max : d.max_entries ≡ c.max_entries

  Failed-first :
      (k : K) (o : CircuitBreakerOptions) (c : CircuitBreakerManager K) (t : ℕ)
      → JsMap.get dec k c.breakers ≡ none
      → JsMap.size c.breakers < c.max_entries
      → Failed k o c (record_failure dec t k (some o) c) t []
  Failed-first k o c t h r =
      let s = failed dec t k o c.breakers in
      let size_lem = size-set dec k s c.breakers in
      rw (record_failure-set t k o c (ground arith)) (record {
        state = s;
        found = ground (arith, get-set dec k k s c.breakers);
        count = ground arith;
        until = ground arith;
        room = ground arith;
        same_max = refl;
      })

  Failed-next :
      (k : K) (o : CircuitBreakerOptions) (c d : CircuitBreakerManager K) (t u : ℕ) (us : List ℕ)
      → JsMap.size c.breakers < c.max_entries
      → Failed k o c d u us
      → Failed k o c (record_failure dec t k (some o) d) t (u ∷ us)
  Failed-next k o c d t u us r ih =
      let s = failed dec t k o d.breakers in
      let size_lem = size-set dec k s d.breakers in
      rw (record_failure-set t k o d (ground arith)) (record {
        state = s;
        found = ground (arith, get-set dec k k s d.breakers);
        count = ground arith;
        until = ground arith;
        room = ground arith;
        same_max = ih.same_max;
      })

  fail_all-Failed :
      (k : K) (o : CircuitBreakerOptions) (c : CircuitBreakerManager K) (t : ℕ) (ts : List ℕ)
      → JsMap.get dec k c.breakers ≡ none
      → JsMap.size c.breakers < c.max_entries
      → Failed k o c (fail_all k o c (t ∷ ts)) t ts
  unfolding fail_all
  fail_all-Failed k o c t [] h r = Failed-first k o c t h r
  fail_all-Failed k o c t (u ∷ us) h r =
      Failed-next k o c (fail_all k o c (u ∷ us)) t u us r (fail_all-Failed k o c u us h r)

  is_open-opened :
      (now : ℕ) (k : K) (c : CircuitBreakerManager K) (s : CircuitBreakerState)
      → JsMap.get dec k c.breakers ≡ some s
      → (is_open dec now k c).1 ≡ (elim s.open_until [ none ↦ false | some t ↦ ltb now t ])
  unfolding is_open
  is_open-opened now k c s h = rw (h, is_open) (ground arith)

  -- A key that was not tracked, and for which there is room, is open after failures in a row exactly
  -- when there were at least `failureThreshold` of them and less than `cooldownMs` has passed since the
  -- last one.
  pub is_open-fail_all :
      (k : K) (o : CircuitBreakerOptions) (c : CircuitBreakerManager K) (now t : ℕ) (ts : List ℕ)
      → JsMap.get dec k c.breakers ≡ none
      → JsMap.size c.breakers < c.max_entries
      → (is_open dec now k (fail_all k o c (t ∷ ts))).1
        ≡ (leb (threshold o) (length (t ∷ ts)) && ltb now (t + cooldown o))
  is_open-fail_all k o c now t ts h r =
      let f = fail_all-Failed k o c t ts h r in
      is_open-opened now k (fail_all k o c (t ∷ ts)) f.state f.found ∙ rw f.until (ground arith)

  -- `assertClosed` throws exactly when `isOpen` says that the breaker is open, the two leave the same
  -- state behind, and the seconds that the error names are the remaining time, rounded up.
  pub assert_closed-is_open :
      (now : ℕ) (k : K) (c : CircuitBreakerManager K)
      → ((assert_closed dec now k c).0 ≡ (is_open dec now k c).0)
        × (is_some (assert_closed dec now k c).1 ≡ (is_open dec now k c).1)
        × ((assert_closed dec now k c).1 ≡ (
            if (is_open dec now k c).1
            then elim (opened (JsMap.get dec k c.breakers)) [
              | none ↦ none
              | some t ↦ some ((t - now + 999) / 1_000)
            ]
            else none))
  unfolding assert_closed is_open
  assert_closed-is_open now k c = ground arith

  -- The first pass of a pruning removes a breaker that has not opened, wherever it stands.
  remove_expired-last :
      (max now : ℕ) (k : K) (s : CircuitBreakerState) (l m : JsMap K CircuitBreakerState)
      → max < JsMap.size m
      → All (λ e. is_removable now e.1 ≡ false) l
      → is_removable now s ≡ true
      → remove_expired dec max now (l ++ (k, s) ∷ []) m ≡ JsMap.delete dec k m
  unfolding remove_expired
  remove_expired-last max now k s [] m h a r = ground arith
  remove_expired-last max now k s (e ∷ l) m h a r =
      let more : leb (JsMap.size m) max ≡ false = ground arith in
      rw (more, a.0) (remove_expired-last max now k s l m h a.1 r)

  -- Where the manager is full of breakers that are open, a failure of a new key that does not open its
  -- breaker at once is forgotten: the state is as before, so failures of that key never add up.
  pub record_failure-full :
      (now : ℕ) (k : K) (o : CircuitBreakerOptions) (c : CircuitBreakerManager K)
      → JsMap.get dec k c.breakers ≡ none
      → JsMap.size c.breakers ≡ c.max_entries
      → All (λ e. is_removable now e.1 ≡ false) c.breakers
      → 1 < threshold o
      → (record_failure dec now k (some o) c).breakers ≡ c.breakers
  unfolding record_failure prune_if_needed
  record_failure-full now k o c h f a t =
      let s = failed dec now k o c.breakers in
      let m = c.breakers ++ (k, s) ∷ [] in
      let long : JsMap.size m ≡ suc c.max_entries =
        omega (arith, f, length-append c.breakers ((k, s) ∷ [])) in
      let removable : is_removable now s ≡ true = unfold is_removable in ground arith in
      let back : JsMap.delete dec k m ≡ c.breakers = ground (
        arith,
        delete-append dec k k s c.breakers,
        delete_absent dec k c.breakers h,
        append-nil c.breakers,
      ) in
      let first =
        remove_expired-last c.max_entries now k s c.breakers m (omega arith) a removable in
      let over : leb (JsMap.size m) c.max_entries ≡ false = ground arith in
      let fits : leb (JsMap.size c.breakers) c.max_entries ≡ true = ground arith in
      rw (set_absent dec k s c.breakers h, over, first, back, fits)
