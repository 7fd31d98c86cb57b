-- ===== src/Internal/RateLimiter.antt =====
-- `FetchRateLimiter` of src/internal/FetchRateLimiter.ts as a state machine: a call of `schedule`, a
-- drain, the end of a task, a clean-up timer. A task is represented by a number. When the drain runs is
-- the environment's choice, so the timer of the next drain is left out; a bucket is looked up by its key,
-- as a bucket with an active task is never deleted. `now` is what `Date.now()` reads.
pub mod Actions
pub mod Buckets
pub mod Concurrency
pub mod Counted
pub mod Drains
pub mod Running
use layercache.Base.{
  ℕ, zero, suc, ◌+◌, ◌-◌, ◌*◌, ◌/◌, max, Bool, true, false, not, ◌&&◌, ◌||◌, ltb, leb, ◌==◌, Option,
  none, some, is_some, or_else, if◌then◌else◌, List, [], ◌∷◌, ◌++◌, map, length,
}
use layercache.JsMap.{JsMap}
use layercache.JsMap

pub data Scope : Type 0 where
  global by_key by_fetcher : Scope

pub data Overflow : Type 0 where
  reject bypass : Overflow

-- `CacheRateLimitOptions`; the text of a bucket key is a list of character codes
pub record RateLimitOptions : Type 0 where
  pub max_concurrent : Option ℕ
  pub interval_ms : Option ℕ
  pub max_per_interval : Option ℕ
  pub scope : Option Scope
  pub bucket_key : Option (List ℕ)
  pub queue_overflow : Option Overflow

-- a number that is there and not 0
abbrev pub positive : Option ℕ → Option ℕ
positive none = none
positive (some zero) = none
positive (some (suc n)) = some (suc n)

-- What `normalize` keeps of options that limit anything.
unfoldable pub normalize : RateLimitOptions → Option RateLimitOptions
normalize o =
    if is_some (positive o.max_concurrent)
      || is_some (positive o.interval_ms) && is_some (positive o.max_per_interval)
    then some (record o { scope = some (or_else o.scope global) })
    else none

-- `custom:`, `key:` and `fetcher:` with what follows, or `global`
pub data BucketKey (K : Type 0) : Type 0 where
  custom : List ℕ → BucketKey K
  of_key : K → BucketKey K
  of_fetcher : ℕ → BucketKey K
  shared : BucketKey K

pub record BucketState : Type 0 where
  pub active : ℕ
  pub started_at : List ℕ
  pub has_cleanup_timer : Bool

abbrev pub new_bucket : BucketState
new_bucket = record { active = 0; started_at = []; has_cleanup_timer = false }

pub record QueueItem : Type 0 where
  pub options : RateLimitOptions
  pub task : ℕ

abbrev pub and_then : {A : Type 0} → Option A → (A → Option A) → Option A
and_then none f = none
and_then (some a) f = f a

-- What becomes of a task.
pub data Fate : Type 0 where
  runs bypasses overflows too_many_buckets disposed : ℕ → Fate

-- `F` are the fetchers, `B` the keys of buckets; `log` has what became of the tasks, newest first, and `running`
-- the buckets of the tasks that were started in one and have not ended.
pub record Limiter (F B : Type 0) : Type 0 where
  pub buckets : JsMap B BucketState
  pub queues_by_bucket : JsMap B (List QueueItem)
  pub pending_buckets : JsMap B (Unit {0})
  pub running : List B
  pub fetcher_buckets : JsMap F ℕ
  pub next_fetcher_bucket_id : ℕ
  pub is_disposed : Bool
  pub rate_limit_bypasses : ℕ
  pub log : List Fate

abbrev pub max_buckets : ℕ
max_buckets = 10_000

abbrev pub max_queue_per_bucket : ℕ
max_queue_per_bucket = 10_000

module _ {K F : Type 0} (dec_f : Discrete F) where
  abbrev pub fetcher_bucket : {B : Type 0} → F → Option ℕ → Limiter F B → Limiter F B × BucketKey K
  fetcher_bucket fetcher (some id) l = (l, of_fetcher id)
  fetcher_bucket fetcher none l = (
    record l {
      next_fetcher_bucket_id = l.next_fetcher_bucket_id + 1;
      fetcher_buckets = JsMap.set dec_f fetcher l.next_fetcher_bucket_id l.fetcher_buckets;
    },
    of_fetcher l.next_fetcher_bucket_id,
  )

  abbrev pub scope_bucket : {B : Type 0} → Scope → K → F → Limiter F B → Limiter F B × BucketKey K
  scope_bucket global key fetcher l = (l, shared)
  scope_bucket by_key key fetcher l = (l, of_key key)
  scope_bucket by_fetcher key fetcher l =
      fetcher_bucket fetcher (JsMap.get dec_f fetcher l.fetcher_buckets) l

  -- A name that is there and not empty comes before the scope.
  abbrev pub named_bucket :
      {B : Type 0}
      → Option (List ℕ)
      → Limiter F B × BucketKey K
      → Limiter F B
      → Limiter F B × BucketKey K
  named_bucket none x l = x
  named_bucket (some []) x l = x
  named_bucket (some (c ∷ cs)) x l = (l, custom (c ∷ cs))

  unfoldable pub resolve_bucket_key :
      {B : Type 0} → RateLimitOptions → K → F → Limiter F B → Limiter F B × BucketKey K
  resolve_bucket_key o key fetcher l =
      named_bucket o.bucket_key (scope_bucket (or_else o.scope global) key fetcher l) l

-- The loop of `prune`: starts that are `intervalMs` ago are dropped.
unfoldable pub prune : ℕ → ℕ → List ℕ → List ℕ
prune now interval_ms [] = []
prune now interval_ms (t ∷ ts) =
    if ltb now (t + interval_ms) then t ∷ ts else prune now interval_ms ts

abbrev pub idle : BucketState → Bool
idle b = b.active == 0 && length b.started_at == 0

-- `waitTime`: the bucket that it leaves, and the time to wait. A start at time 0 counts as none.
unfoldable pub wait_time : ℕ → RateLimitOptions → BucketState → BucketState × ℕ
wait_time now o b =
    if elim (positive o.max_concurrent) [ none ↦ false | some m ↦ leb m b.active ]
    then (b, 1)
    else elim (positive o.interval_ms) [
      | none ↦ (b, 0)
      | some interval_ms ↦ elim (positive o.max_per_interval) [
        | none ↦ (b, 0)
        | some max_per_interval ↦
            let ts = prune now interval_ms b.started_at in
            let b' : BucketState = record b { started_at = ts } in
            if ltb (length ts) max_per_interval then (b', 0) else elim ts [
              | [] ↦ (b', 0)
              | oldest ∷ rest ↦
                  if oldest == 0 then (b', 0) else (b', max 1 (oldest + interval_ms - now))
            ]
      ]
    ]

-- The bucket after a task was started in it.
unfoldable pub start : ℕ → RateLimitOptions → BucketState → BucketState
start now o b = record b {
  active = b.active + 1;
  has_cleanup_timer = false;
  started_at =
      if is_some (positive o.interval_ms) && is_some (positive o.max_per_interval)
      then b.started_at ++ now ∷ []
      else b.started_at;
}

abbrev pub reject_all : List QueueItem → List Fate
reject_all items = map (λ i. disposed i.task) items

abbrev pub reject_queues : {B : Type 0} → JsMap B (List QueueItem) → List Fate
reject_queues [] = []
reject_queues ((k, items) ∷ m) = reject_all items ++ reject_queues m

abbrev pub new_limiter : {F B : Type 0} → Limiter F B
new_limiter = record {
  buckets = [];
  queues_by_bucket = [];
  pending_buckets = [];
  running = [];
  fetcher_buckets = [];
  next_fetcher_bucket_id = 0;
  is_disposed = false;
  rate_limit_bypasses = 0;
  log = [];
}
