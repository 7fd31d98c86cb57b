-- ===== src/Tests/Queue.antt =====
-- Inputs for the write-behind queue and the background refreshes.
use layercache.Base.{ℕ, true, false, ℕ_discrete, some, ◌++◌, [], ◌∷◌, List, ◌≡◌, arith}
use layercache.Internal.Maintenance.WriteBehind.{
  WriteBehindOptions, WriteBehind, Event, enqueues, flushes, settles, clears, run, accepted,
  dropped, new_write_behind,
}
use layercache.Internal.Maintenance.WriteBehind.Order.{contents, contents-run, Merged}
use layercache.Internal.Reader.Refreshes
use layercache.Internal.Reader.Refreshes.Tracked.{IsTracked, run-IsTracked}
use layercache.Internal.Maintenance.WriteBehind.Drained.{settle_times, IsDrained, run-flushed}

abbrev batches_of_two : WriteBehindOptions
batches_of_two = record { batch_size = some 2; max_queue_size = some 3 }

abbrev queue_events : List Event
queue_events =
    enqueues 1
    ∷ enqueues 2
    ∷ enqueues 3
    ∷ settles
    ∷ enqueues 4
    ∷ enqueues 5
    ∷ clears
    ∷ enqueues 6
    ∷ []

contents-run_example :
    Merged
      (contents (run batches_of_two queue_events new_write_behind))
      (dropped batches_of_two queue_events new_write_behind)
      (contents new_write_behind ++ accepted batches_of_two queue_events new_write_behind)
contents-run_example = contents-run batches_of_two queue_events new_write_behind

abbrev busy : WriteBehind
busy = record { queue = 4 ∷ 5 ∷ 6 ∷ []; flushing = some (2 ∷ 3 ∷ []); settled = 1 ∷ [] }

run-flushed_example :
    let b = run batches_of_two (flushes ∷ settle_times 4) busy in
    IsDrained b × (b.settled ≡ 1 ∷ 2 ∷ 3 ∷ 4 ∷ 5 ∷ 6 ∷ [])
run-flushed_example = run-flushed batches_of_two (omega arith) busy

abbrev refresh_events : List (Refreshes.Event ℕ)
refresh_events =
    Refreshes.schedules false 4
    ∷ Refreshes.schedules false 4
    ∷ Refreshes.schedules false 5
    ∷ Refreshes.aborts_all
    ∷ Refreshes.ends 4 0 true
    ∷ Refreshes.schedules false 4
    ∷ []

run-IsTracked_example :
    IsTracked ℕ_discrete (Refreshes.run ℕ_discrete refresh_events Refreshes.no_refreshes)
run-IsTracked_example = run-IsTracked ℕ_discrete refresh_events
