-- ===== src/Internal/RateLimiter/Actions.antt =====
-- What `FetchRateLimiter` of src/internal/FetchRateLimiter.ts does: tasks are scheduled, queues drained,
-- tasks end, timers fire.
use layercache.Base.{
  ℕ, suc, ite, ◌+◌, ◌-◌, ◌*◌, true, false, not, ◌&&◌, ◌||◌, ltb, leb, ◌==◌, Option, none, some,
  is_some, or_else, if◌then◌else◌, List, [], ◌∷◌, ◌++◌, length,
}
use layercache.JsMap.{JsMap}
use layercache.JsMap
use layercache.Internal.RateLimiter.{
  Overflow, reject, bypass, RateLimitOptions, positive, normalize, BucketKey, BucketState,
  new_bucket, QueueItem, and_then, Fate, runs, bypasses, overflows, too_many_buckets, disposed,
  Limiter, max_buckets, max_queue_per_bucket, resolve_bucket_key, prune, idle, wait_time, start,
  reject_queues,
}

module _ {B : Type 0} (dec : Discrete B) where
  -- How many tasks run that were started in a bucket.
  abbrev pub runs_in : B → List B → ℕ
  runs_in k [] = 0
  runs_in k (j ∷ js) = ite (dec j k) (suc (runs_in k js)) (runs_in k js)

  abbrev pub remove_one : B → List B → List B
  remove_one k [] = []
  remove_one k (j ∷ js) = ite (dec j k) js (j ∷ remove_one k js)

module _ {F B : Type 0} (dec : Discrete B) where
  -- `buckets`, `queuesByBucket` and `pendingBuckets` without the key
  abbrev pub delete_bucket : B → Limiter F B → Limiter F B
  delete_bucket k l = record l {
    buckets = JsMap.delete dec k l.buckets;
    queues_by_bucket = JsMap.delete dec k l.queues_by_bucket;
    pending_buckets = JsMap.delete dec k l.pending_buckets;
  }

  abbrev pub evict : B → Option BucketState → Limiter F B → Limiter F B
  evict k none l = l
  evict k (some b) l =
      if idle b && not (JsMap.has dec k l.queues_by_bucket) then delete_bucket k l else l

  -- The loop of `evictIdleBuckets`, over the keys of the buckets that there are when it begins.
  unfoldable pub evict_loop : List B → Limiter F B → Limiter F B
  evict_loop [] l = l
  evict_loop (k ∷ rest) l =
      if leb (10 * JsMap.size l.buckets) (9 * max_buckets)
      then l
      else evict_loop rest (evict k (JsMap.get dec k l.buckets) l)

  -- `bucketState` for a key without a bucket: idle buckets are evicted where the limit is reached.
  abbrev pub make_room : Limiter F B → Limiter F B
  make_room l =
      if leb max_buckets (JsMap.size l.buckets) then evict_loop (JsMap.keys l.buckets) l else l

  abbrev pub create_bucket : B → Limiter F B → Limiter F B × Option BucketState
  create_bucket k l =
      if leb max_buckets (JsMap.size l.buckets)
      then (l, none)
      else (record l { buckets = JsMap.set dec k new_bucket l.buckets }, some new_bucket)

  abbrev pub bucket_or_new : B → Option BucketState → Limiter F B → Limiter F B × Option BucketState
  bucket_or_new k (some b) l = (l, some b)
  bucket_or_new k none l = create_bucket k (make_room l)

  -- `bucketState`: the limiter with the bucket, and the bucket; `none` where the limit is reached.
  unfoldable pub bucket_state : B → Limiter F B → Limiter F B × Option BucketState
  bucket_state k l = bucket_or_new k (JsMap.get dec k l.buckets) l

  abbrev pub queue_of : B → Limiter F B → List QueueItem
  queue_of k l = or_else (JsMap.get dec k l.queues_by_bucket) []

  abbrev pub note : Fate → Limiter F B → Limiter F B
  note f l = record l { log = f ∷ l.log }

  abbrev pub overflow : Overflow → ℕ → Limiter F B → Limiter F B
  overflow bypass task l =
      note (bypasses task) (record l { rate_limit_bypasses = l.rate_limit_bypasses + 1 })
  overflow reject task l = note (overflows task) l

  abbrev pub enqueue : RateLimitOptions → B → ℕ → Limiter F B → Limiter F B
  enqueue o k task l = record l {
    queues_by_bucket =
        JsMap.set dec k (queue_of k l ++ record { options = o; task = task } ∷ [])
          l.queues_by_bucket;
    pending_buckets = JsMap.set dec k tt l.pending_buckets;
  }

  abbrev pub schedule_with :
      RateLimitOptions → B → ℕ → Limiter F B × Option BucketState → Limiter F B
  schedule_with o k task (l, none) = note (too_many_buckets task) l
  schedule_with o k task (l, some b) =
      if leb max_queue_per_bucket (length (queue_of k l))
      then overflow (or_else o.queue_overflow reject) task l
      else enqueue o k task l

  -- `schedule` in a bucket, once the options are known to limit.
  unfoldable pub schedule_in : RateLimitOptions → B → ℕ → Limiter F B → Limiter F B
  schedule_in o k task l = schedule_with o k task (bucket_state k l)

  abbrev pub drop_pending : B → Limiter F B → Limiter F B
  drop_pending k l = record l {
    pending_buckets = JsMap.delete dec k l.pending_buckets;
    queues_by_bucket = JsMap.delete dec k l.queues_by_bucket;
  }

  -- The queue without its first item; an empty one is dropped.
  abbrev pub shift_queue : B → List QueueItem → Limiter F B → Limiter F B
  shift_queue k [] l = drop_pending k l
  shift_queue k (q ∷ qs) l = record l {
    queues_by_bucket = JsMap.set dec k (q ∷ qs) l.queues_by_bucket;
  }

  -- The body of the drain for a pending bucket with its queue, given what `waitTime` finds.
  abbrev pub start_next :
      ℕ → B → QueueItem → List QueueItem → BucketState × ℕ → Limiter F B → Limiter F B
  start_next now k item rest (b, wait_ms) l =
      if ltb 0 wait_ms
      then record l { buckets = JsMap.set dec k b l.buckets }
      else note (runs item.task) (
          shift_queue k rest (record l {
            buckets = JsMap.set dec k (start now item.options b) l.buckets;
            running = k ∷ l.running;
          }))

  abbrev pub visit_bucket :
      ℕ → B → QueueItem → List QueueItem → Limiter F B × Option BucketState → Option (Limiter F B)
  visit_bucket now k item rest (l, none) = none
  visit_bucket now k item rest (l, some b) =
      some (start_next now k item rest (wait_time now item.options b) l)

  abbrev pub drain_queue : ℕ → B → List QueueItem → Limiter F B → Option (Limiter F B)
  drain_queue now k [] l = some (drop_pending k l)
  drain_queue now k (item ∷ rest) l = visit_bucket now k item rest (bucket_state k l)

  -- One round of the drain; `none` means that `bucketState` throws in it.
  unfoldable pub drain_bucket : ℕ → B → Limiter F B → Option (Limiter F B)
  drain_bucket now k l = drain_queue now k (queue_of k l) l

  unfoldable pub drain_loop : ℕ → List B → Limiter F B → Option (Limiter F B)
  drain_loop now [] l = some l
  drain_loop now (k ∷ ks) l = and_then (drain_bucket now k l) (drain_loop now ks)

  unfoldable pub drain : ℕ → Limiter F B → Option (Limiter F B)
  drain now l = if l.is_disposed then some l else drain_loop now (JsMap.keys l.pending_buckets) l

  -- `cleanupBucket`
  unfoldable pub cleanup_bucket : B → BucketState → Option ℕ → Limiter F B → Limiter F B
  cleanup_bucket k b interval_ms l =
      let queued = length (queue_of k l) in
      if queued == 0 && idle b
      then delete_bucket k l
      else if not (is_some (positive interval_ms)) || ltb 0 b.active || ltb 0 queued
      then l
      else record l { buckets = JsMap.set dec k (record b { has_cleanup_timer = true }) l.buckets }

  abbrev pub finish_in : B → RateLimitOptions → Option BucketState → Limiter F B → Limiter F B
  finish_in k o none l = l
  finish_in k o (some b) l =
      let b' : BucketState = record b { active = b.active - 1 } in
      cleanup_bucket k b' o.interval_ms (record l {
        buckets = JsMap.set dec k b' l.buckets;
        pending_buckets =
            if ltb 0 (length (queue_of k l))
            then JsMap.set dec k tt l.pending_buckets
            else l.pending_buckets;
      })

  -- The end of a task that was started in the bucket with the options; without such a task there is none.
  unfoldable pub finish : B → RateLimitOptions → Limiter F B → Limiter F B
  finish k o l =
      if runs_in dec k l.running == 0
      then l
      else finish_in k o (JsMap.get dec k l.buckets)
          (record l { running = remove_one dec k l.running })

  abbrev pub clean_up_in : ℕ → B → ℕ → Option BucketState → Limiter F B → Limiter F B
  clean_up_in now k interval_ms none l = l
  clean_up_in now k interval_ms (some b) l =
      let b' : BucketState = record b {
        has_cleanup_timer = false;
        started_at = prune now interval_ms b.started_at;
      } in
      if idle b' && length (queue_of k l) == 0
      then delete_bucket k l
      else record l { buckets = JsMap.set dec k b' l.buckets }

  -- The clean-up timer of a bucket fires.
  unfoldable pub clean_up : ℕ → B → ℕ → Limiter F B → Limiter F B
  clean_up now k interval_ms l = clean_up_in now k interval_ms (JsMap.get dec k l.buckets) l

  unfoldable pub dispose : Limiter F B → Limiter F B
  dispose l = record l {
    is_disposed = true;
    log = reject_queues l.queues_by_bucket ++ l.log;
    queues_by_bucket = [];
    pending_buckets = [];
    buckets = [];
  }

  -- `schedule`: a task that nothing limits runs at once.
  unfoldable pub schedule_normalized :
      Option RateLimitOptions
      → (RateLimitOptions → Limiter F B → Limiter F B × B)
      → ℕ
      → Limiter F B
      → Limiter F B
  schedule_normalized none resolve task l = note (runs task) l
  schedule_normalized (some o) resolve task l = let (l', k) = resolve o l in schedule_in o k task l'

module _ {K F : Type 0} (dec_f : Discrete F) (dec : Discrete (BucketKey K)) where
  abbrev pub schedule_options :
      Option RateLimitOptions → K → F → ℕ → Limiter F (BucketKey K) → Limiter F (BucketKey K)
  schedule_options none key fetcher task l = note dec (runs task) l
  schedule_options (some o) key fetcher task l =
      schedule_normalized dec (normalize o) (λ n. resolve_bucket_key dec_f n key fetcher) task l

  unfoldable pub schedule :
      Option RateLimitOptions → K → F → ℕ → Limiter F (BucketKey K) → Limiter F (BucketKey K)
  schedule options key fetcher task l =
      if l.is_disposed
      then note dec (disposed task) l
      else schedule_options options key fetcher task l

-- What happens to a limiter.
pub data Event (K F : Type 0) : Type 0 where
  schedules : Option RateLimitOptions → K → F → ℕ → Event K F
  drains : ℕ → Event K F
  finishes : BucketKey K → RateLimitOptions → Event K F
  cleans_up : ℕ → BucketKey K → ℕ → Event K F
  disposes : Event K F

module _ {K F : Type 0} (dec_f : Discrete F) (dec : Discrete (BucketKey K)) where
  unfoldable pub step : Event K F → Limiter F (BucketKey K) → Option (Limiter F (BucketKey K))
  step (schedules o key fetcher task) l = some (schedule dec_f dec o key fetcher task l)
  step (drains now) l = drain dec now l
  step (finishes k o) l = some (finish dec k o l)
  step (cleans_up now k interval_ms) l = some (clean_up dec now k interval_ms l)
  step disposes l = some (dispose dec l)

  -- `none` means that an error is thrown outside of a task.
  unfoldable pub run : List (Event K F) → Limiter F (BucketKey K) → Option (Limiter F (BucketKey K))
  run [] l = some l
  run (e ∷ es) l = and_then (step e l) (run es)
