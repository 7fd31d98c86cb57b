-- ===== src/Internal/Maintenance/WriteBehind.antt =====
-- The write-behind queue of src/internal/CacheStackMaintenance.ts, as a state machine, with the batches
-- that src/CacheStack.ts runs. An operation is a number. The calls that wait for the flush under way are
-- released with it.
pub mod Order
pub mod Drained
use layercache.Base.{
  ℕ, zero, suc, ◌+◌, ◌-◌, ◌*◌, ltb, leb, Bool, true, false, ◌||◌, Option, none, some, is_some,
  or_else, if◌then◌else◌, List, [], ◌∷◌, ◌++◌, take, drop, length,
}

-- `CacheWriteBehindOptions`, as far as the queue reads them
pub record WriteBehindOptions : Type 0 where
  pub batch_size : Option ℕ
  pub max_queue_size : Option ℕ

-- `settled` are the operations that have been run, in their order; `flushing` is the batch that is run.
pub record WriteBehind : Type 0 where
  pub queue : List ℕ
  pub flushing : Option (List ℕ)
  pub settled : List ℕ

abbrev pub batch_size_of : WriteBehindOptions → ℕ
batch_size_of o = or_else o.batch_size 100

abbrev pub max_queue_size_of : WriteBehindOptions → ℕ
max_queue_size_of o = or_else o.max_queue_size (batch_size_of o * 10)

module _ (o : WriteBehindOptions) where
  -- The start of `flushWriteBehindQueue`: nothing happens during a flush or on an empty queue.
  abbrev pub flush_from : Option (List ℕ) → List ℕ → WriteBehind → WriteBehind
  flush_from (some batch) queue b = b
  flush_from none [] b = b
  flush_from none (x ∷ xs) b = record b {
    queue = drop (batch_size_of o) (x ∷ xs);
    flushing = some (take (batch_size_of o) (x ∷ xs));
  }

  unfoldable pub flush_write_behind_queue : WriteBehind → WriteBehind
  flush_write_behind_queue b = flush_from b.flushing b.queue b

  abbrev pub push : ℕ → WriteBehind → WriteBehind
  push operation b = record b { queue = b.queue ++ operation ∷ [] }

  -- A queue that is full or has a batch is flushed.
  abbrev pub flush_if_due : WriteBehind → WriteBehind
  flush_if_due b =
      if leb (max_queue_size_of o) (length b.queue) || leb (batch_size_of o) (length b.queue)
      then flush_write_behind_queue b
      else b

  -- `enqueueWriteBehind`; `none` is the error that the queue is full.
  unfoldable pub enqueue_write_behind : ℕ → WriteBehind → Option WriteBehind
  enqueue_write_behind operation b =
      if leb (max_queue_size_of o) (length b.queue)
      then none
      else some (flush_if_due (push operation b))

  -- The batch under way has been run; the flush goes on with what is in the queue.
  unfoldable pub settle_batch : Option (List ℕ) → WriteBehind → WriteBehind
  settle_batch none b = b
  settle_batch (some batch) b =
      flush_write_behind_queue (record b { flushing = none; settled = b.settled ++ batch })

-- `beginClearEpoch` drops the queue.
abbrev pub clear_queue : WriteBehind → WriteBehind
clear_queue b = record b { queue = [] }

abbrev pub new_write_behind : WriteBehind
new_write_behind = record { queue = []; flushing = none; settled = [] }

-- What happens to a queue: a call, the timer, the end of a batch, a clear of the stack.
pub data Event : Type 0 where
  enqueues : ℕ → Event
  flushes settles clears : Event

module _ (o : WriteBehindOptions) where
  -- An operation that finds the queue full is refused, and leaves it as it is.
  unfoldable pub step : Event → WriteBehind → WriteBehind
  step (enqueues operation) b = or_else (enqueue_write_behind o operation b) b
  step flushes b = flush_write_behind_queue o b
  step settles b = settle_batch o b.flushing b
  step clears b = clear_queue b

  unfoldable pub run : List Event → WriteBehind → WriteBehind
  run [] b = b
  run (e ∷ es) b = run es (step e b)

  -- The operations that are taken into the queue.
  unfoldable pub accepted_by : Event → WriteBehind → List ℕ
  accepted_by (enqueues operation) b =
      if is_some (enqueue_write_behind o operation b) then operation ∷ [] else []
  accepted_by flushes b = []
  accepted_by settles b = []
  accepted_by clears b = []

  unfoldable pub accepted : List Event → WriteBehind → List ℕ
  accepted [] b = []
  accepted (e ∷ es) b = accepted_by e b ++ accepted es (step e b)

  -- The operations that a clear of the stack takes out of the queue.
  unfoldable pub dropped_by : Event → WriteBehind → List ℕ
  dropped_by clears b = b.queue
  dropped_by (enqueues operation) b = []
  dropped_by flushes b = []
  dropped_by settles b = []

  unfoldable pub dropped : List Event → WriteBehind → List ℕ
  dropped [] b = []
  dropped (e ∷ es) b = dropped_by e b ++ dropped es (step e b)
