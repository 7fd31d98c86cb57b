-- ===== src/Internal/CircuitBreaker/Bound.antt =====
-- The bound on the entries of the circuit breaker manager of src/internal/CircuitBreakerManager.ts.
use layercache.Base.{ℕ, ◌≤◌, none, some, List, [], ◌∷◌, ◌≡◌, refl, arith}
use layercache.JsMap.{JsMap}
use layercache.JsMap
use layercache.JsMap.Laws.{get-delete, size-delete-le}
use layercache.Internal.CircuitBreaker
use layercache.Internal.CircuitBreaker.{
  CircuitBreakerState, CircuitBreakerManager, insert_by_age, sort_by_age, remove_expired,
  remove_oldest, prune_if_needed,
}

module _ {K : Type 0} (dec : Discrete K) where
  -- Every key of the second map stands in the first.
  abbrev Covers : JsMap K CircuitBreakerState → JsMap K CircuitBreakerState → Type 0
  Covers l m = (k : K) → JsMap.get dec k l ≡ none → JsMap.get dec k m ≡ none

  insert_by_age-none :
      (k : K) (e : K × CircuitBreakerState) (m : JsMap K CircuitBreakerState)
      → JsMap.get dec k (insert_by_age e m) ≡ none
      → JsMap.get dec k (e ∷ m) ≡ none
  unfolding insert_by_age JsMap.get
  insert_by_age-none k e [] h = h
  insert_by_age-none k e (f ∷ m) h = ground (arith, insert_by_age-none k e m)

  sort_by_age-Covers : (m : JsMap K CircuitBreakerState) → Covers (sort_by_age m) m
  unfolding sort_by_age JsMap.get
  sort_by_age-Covers [] k h = refl
  sort_by_age-Covers (e ∷ m) k h =
      ground (arith, insert_by_age-none k e (sort_by_age m) h, sort_by_age-Covers m k)

  Covers-delete :
      (j : K) (s : CircuitBreakerState) (l m : JsMap K CircuitBreakerState)
      → Covers ((j, s) ∷ l) m
      → Covers l (JsMap.delete dec j m)
  unfolding JsMap.get
  Covers-delete j s l m c k h = ground (arith, get-delete dec k j m, c k)

  nil_of-Covers : (m : JsMap K CircuitBreakerState) → Covers [] m → m ≡ []
  unfolding JsMap.get
  nil_of-Covers [] c = refl
  nil_of-Covers ((k, s) ∷ m) c = absurd (ground (arith, c k refl))

  -- The second pass brings the map within its bound: by the end of the entries it would be empty.
  size-remove_oldest :
      (max : ℕ) (l m : JsMap K CircuitBreakerState)
      → Covers l m
      → JsMap.size (remove_oldest dec max l m) ≤ max
  unfolding remove_oldest
  size-remove_oldest max [] m c = rw (nil_of-Covers m c) (omega arith)
  size-remove_oldest max ((k, s) ∷ l) m c =
      ground (arith, size-remove_oldest max l (JsMap.delete dec k m) (Covers-delete k s l m c))

  size-prune_if_needed :
      (max now : ℕ) (m : JsMap K CircuitBreakerState)
      → JsMap.size (prune_if_needed dec max now m) ≤ max
  unfolding prune_if_needed
  size-prune_if_needed max now m =
      let first = remove_expired dec max now m m in
      ground (arith, size-remove_oldest max (sort_by_age first) first (sort_by_age-Covers first))

  abbrev pub IsBounded : CircuitBreakerManager K → Type 0
  IsBounded c = JsMap.size c.breakers ≤ c.max_entries

  step-IsBounded :
      (c : CircuitBreakerManager K) (call : ℕ × CircuitBreaker.Call K)
      → IsBounded c
      → IsBounded (CircuitBreaker.step dec c call)
  unfolding CircuitBreaker.step
  step-IsBounded c (now, CircuitBreaker.asserts k) b =
      unfold CircuitBreaker.assert_closed in ground (arith, size-delete-le dec k c.breakers)
  step-IsBounded c (now, CircuitBreaker.successes k) b =
      unfold CircuitBreaker.record_success in omega (arith, size-delete-le dec k c.breakers)
  step-IsBounded c (now, CircuitBreaker.opens k) b =
      unfold CircuitBreaker.is_open in ground (arith, size-delete-le dec k c.breakers)
  step-IsBounded c (now, CircuitBreaker.deletes k) b =
      unfold CircuitBreaker.delete in omega (arith, size-delete-le dec k c.breakers)
  step-IsBounded c (now, CircuitBreaker.fails k none) b = unfold CircuitBreaker.record_failure in b
  step-IsBounded c (now, CircuitBreaker.fails k (some o)) b =
      unfold CircuitBreaker.record_failure in
      size-prune_if_needed c.max_entries now
        (JsMap.set dec k (CircuitBreaker.failed dec now k o c.breakers) c.breakers)
  step-IsBounded c (now, CircuitBreaker.clears) b = unfold CircuitBreaker.clear in omega arith

  -- Whatever calls are made, the manager never tracks more keys than `maxEntries` at the end of one.
  pub run-IsBounded :
      (c : CircuitBreakerManager K) (calls : List (ℕ × CircuitBreaker.Call K))
      → IsBounded c
      → IsBounded (CircuitBreaker.run dec c calls)
  unfolding CircuitBreaker.run
  run-IsBounded c [] b = b
  run-IsBounded c (call ∷ calls) b =
      run-IsBounded (CircuitBreaker.step dec c call) calls (step-IsBounded c call b)
