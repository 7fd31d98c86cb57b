-- ===== src/Internal/Reader/Refreshes/Tracked.antt =====
-- Which refreshes src/internal/CacheStackReader.ts keeps track of.
use layercache.Base.{
  ℕ, ◌+◌, ◌==◌, ◌<◌, Bool, true, false, Option, none, some, List, [], ◌∷◌, ◌≡◌, refl, arith,
  Bool-cases, inl, inr, ◌∙◌,
}
use layercache.JsMap.{JsMap}
use layercache.JsMap
use layercache.JsMap.Laws.{get-set, get-delete}
use layercache.JsMap.Values.{Values, set-Values, delete-Values}
use layercache.Internal.RuntimePolicy.{should_start_background_refresh}
use layercache.Internal.Reader.Refreshes.{
  Refreshes, Event, schedules, ends, times_out, aborts_all, schedule_background_refresh, is_aborted,
  count_error, remove_refresh, end_refresh, time_out_refresh, abort_each, abort_all_refreshes,
  no_refreshes, step, run,
}

module _ {K : Type 0} (dec : Discrete K) where
  -- A key can be aborted exactly while it has a refresh, and its refresh has begun.
  abbrev pub IsTracked : Refreshes K → Type 0
  IsTracked r =
      ((key : K)
        → JsMap.has dec key r.background_refresh_abort ≡ JsMap.has dec key r.background_refreshes)
      × Values (λ id. id < r.next_id) r.background_refreshes

  has-abort_each :
      (key : K) (m : JsMap K Bool) → JsMap.has dec key (abort_each dec m) ≡ JsMap.has dec key m
  unfolding JsMap.get
  has-abort_each key [] = refl
  has-abort_each key ((k, b) ∷ m) = ground (arith, has-abort_each key m)

  later : (n : ℕ) (m : JsMap K ℕ) → Values (λ id. id < n) m → Values (λ id. id < n + 1) m
  later n [] h = tt
  later n ((k, id) ∷ m) h = (omega (arith, h.0), later n m h.1)

  schedule-IsTracked :
      (d : Bool) (key : K) (r : Refreshes K)
      → IsTracked r
      → IsTracked (schedule_background_refresh dec d key r)
  unfolding schedule_background_refresh
  schedule-IsTracked d key r h =
      elim (Bool-cases
        (should_start_background_refresh d (JsMap.has dec key r.background_refreshes))) [
          | inl e ↦ rw e (
            λ j. ground (
              arith,
              h.0 j,
              get-set dec j key false r.background_refresh_abort,
              get-set dec j key r.next_id r.background_refreshes,
            ),
            set-Values dec (λ id. id < r.next_id + 1) key r.next_id r.background_refreshes
                (omega arith) (later r.next_id r.background_refreshes h.1),
          )
          | inr e ↦ rw e h
        ]

  remove-IsTracked :
      (key : K) (id : ℕ) (current : Option ℕ) (r : Refreshes K)
      → IsTracked r
      → IsTracked (remove_refresh dec key id current r)
  remove-IsTracked key id none r h = h
  remove-IsTracked key id (some current) r h = elim (Bool-cases (current == id)) [
    | inl e ↦ rw e (
      λ j. ground (
        arith,
        h.0 j,
        get-delete dec j key r.background_refresh_abort,
        get-delete dec j key r.background_refreshes,
      ),
      delete-Values dec (λ i. i < r.next_id) key r.background_refreshes h.1,
    )
    | inr e ↦ rw e h
  ]

  count-IsTracked : (key : K) (r : Refreshes K) → IsTracked r → IsTracked (count_error dec key r)
  count-IsTracked key r h = elim (Bool-cases (is_aborted dec key r)) [
    | inl e ↦ rw e h
    | inr e ↦ rw e h
  ]

  end-IsTracked :
      (key : K) (id : ℕ) (failed : Bool) (r : Refreshes K)
      → IsTracked r
      → IsTracked (end_refresh dec key id failed r)
  unfolding end_refresh
  end-IsTracked key id true r h =
      remove-IsTracked key id _ (count_error dec key r) (count-IsTracked key r h)
  end-IsTracked key id false r h = remove-IsTracked key id _ r h

  step-IsTracked : (e : Event K) (r : Refreshes K) → IsTracked r → IsTracked (step dec e r)
  unfolding step time_out_refresh abort_all_refreshes
  step-IsTracked (schedules d key) r h = schedule-IsTracked d key r h
  step-IsTracked (ends key id failed) r h = end-IsTracked key id failed r h
  step-IsTracked (times_out key) r h = count-IsTracked key r h
  step-IsTracked aborts_all r h = (λ j. has-abort_each j r.background_refresh_abort ∙ h.0 j, h.1)

  run-IsTracked_from :
      (es : List (Event K)) (r : Refreshes K) → IsTracked r → IsTracked (run dec es r)
  unfolding run
  run-IsTracked_from [] r h = h
  run-IsTracked_from (e ∷ es) r h = run-IsTracked_from es (step dec e r) (step-IsTracked e r h)

  -- Whatever is scheduled, ends, times out or is aborted, in whatever order: a key has an abort flag
  -- exactly while a refresh of it is tracked, and each tracked refresh is one that was started.
  pub run-IsTracked : (es : List (Event K)) → IsTracked (run dec es no_refreshes)
  unfolding JsMap.get
  run-IsTracked es = run-IsTracked_from es no_refreshes (λ j. refl, tt)
