-- ===== src/Internal/RateLimiter/Drains.antt =====
-- The operations of src/internal/FetchRateLimiter.ts on buckets keep the limits.
use layercache.Base.{
  ℕ, suc, ◌-◌, ◌≤◌, true, false, not, ◌&&◌, ◌||◌, ltb, leb, ◌==◌, Option, none, some, is_some,
  or_else, List, [], ◌∷◌, ◌++◌, length, length-append, ◌≡◌, refl, arith, Bool-cases, inl, inr, All,
  Option-cases, subst,
}
use layercache.JsMap.{JsMap}
use layercache.JsMap
use layercache.JsMap.Laws.{get-set, get-delete}
use layercache.JsMap.Values.{delete-Values, get-Values}
use layercache.Internal.RateLimiter.{
  and_then, Overflow, reject, bypass, RateLimitOptions, BucketState, QueueItem, Limiter,
  max_queue_per_bucket, idle, wait_time, start, positive,
}
use layercache.Internal.RateLimiter.Actions.{
  bucket_state, queue_of, overflow, schedule_with, schedule_in, drop_pending, shift_queue,
  start_next, drain_queue, drain_bucket, drain_loop, drain, cleanup_bucket, finish_in, finish,
  runs_in, remove_one, clean_up_in, clean_up, dispose, delete_bucket,
}
use layercache.Internal.RateLimiter.Buckets.{
  IsLimited, IsBounded, IsQueue, IsHeld, if_holds, delete_bucket-IsHeld, set_bucket-IsHeld,
  set_queue-IsHeld, queue_of-IsQueue, bucket_state-IsHeld, bucket_state_known, bucket_state-has,
}

-- A task that may start finds fewer active ones than are allowed.
wait_time_ready :
    (m now : ℕ) (o : RateLimitOptions) (b : BucketState)
    → IsLimited m o
    → IsBounded m b
    → IsBounded m (wait_time now o b).0
      × (ltb 0 ((wait_time now o b).1) ≡ false → suc (wait_time now o b).0.active ≤ m)
unfolding wait_time
wait_time_ready m now o b (c, e, le) h = rw e (ground (arith, h, le))

positive-limited :
    (m : ℕ) (items : List QueueItem) (o : RateLimitOptions) (task : ℕ)
    → IsLimited m o
    → leb max_queue_per_bucket (length items) ≡ false
    → IsQueue m items
    → IsQueue m (items ++ record { options = o; task = task } ∷ [])
positive-limited m items o task p f (all, le) = (
  go items all,
  ground (arith, f, length-append items (record { options = o; task = task } ∷ [])),
)
  where
    go :
        (xs : List QueueItem)
        → All (λ i. IsLimited m i.options) xs
        → All (λ i. IsLimited m i.options) (xs ++ record { options = o; task = task } ∷ [])
    go [] h = (p, tt)
    go (x ∷ xs) h = (h.0, go xs h.1)

module _ {F B : Type 0} (dec : Discrete B) (m : ℕ) where
  pub schedule_in-IsHeld :
      (o : RateLimitOptions) (k : B) (task : ℕ) (l : Limiter F B)
      → IsLimited m o
      → IsHeld dec m l
      → IsHeld dec m (schedule_in dec o k task l)
  unfolding schedule_in
  schedule_in-IsHeld o k task l p h =
      go (bucket_state dec k l) (bucket_state-IsHeld dec m k l h) (λ b. bucket_state-has dec k b l)
    where
      overflow-IsHeld :
          (v : Overflow) (l : Limiter F B) → IsHeld dec m l → IsHeld dec m (overflow dec v task l)
      overflow-IsHeld reject l h = h
      overflow-IsHeld bypass l h = h

      go :
          (x : Limiter F B × Option BucketState)
          → IsHeld dec m x.0
          → ((b : BucketState) → x.1 ≡ some b → JsMap.has dec k x.0.buckets ≡ true)
          → IsHeld dec m (schedule_with dec o k task x)
      go (l, none) h has = h
      go (l, some b) h has =
          elim (Bool-cases (leb max_queue_per_bucket (length (queue_of dec k l)))) [
            | inl t ↦ rw t (overflow-IsHeld (or_else o.queue_overflow reject) l h)
            | inr f ↦ rw f (
                set_queue-IsHeld dec m k _ l
                  (positive-limited m (queue_of dec k l) o task p f (queue_of-IsQueue dec m k l h))
                  (has b refl) h)
          ]

  drop_pending-IsHeld :
      (k : B) (l : Limiter F B) → IsHeld dec m l → IsHeld dec m (drop_pending dec k l)
  drop_pending-IsHeld k l (hb, hq, hs) = (
    hb,
    delete-Values dec (IsQueue m) k l.queues_by_bucket hq,
    λ j. λ h. ground (arith, h, hs j, get-delete dec j k l.queues_by_bucket),
  )

  shift_queue-IsHeld :
      (k : B) (items : List QueueItem) (l : Limiter F B)
      → IsQueue m items
      → JsMap.has dec k l.buckets ≡ true
      → IsHeld dec m l
      → IsHeld dec m (shift_queue dec k items l)
  shift_queue-IsHeld k [] l p e h = drop_pending-IsHeld k l h
  shift_queue-IsHeld k (q ∷ qs) l p e h = set_queue-IsHeld dec m k (q ∷ qs) l p e h

  start_next-IsHeld :
      (now : ℕ) (k : B) (item : QueueItem) (rest : List QueueItem) (x : BucketState × ℕ)
      (l : Limiter F B)
      → IsBounded m x.0 × (ltb 0 x.1 ≡ false → suc x.0.active ≤ m)
      → IsQueue m rest
      → IsHeld dec m l
      → IsHeld dec m (start_next dec now k item rest x l)
  start_next-IsHeld now k item rest (b, wait_ms) l (p, ready) q h =
      elim (Bool-cases (ltb 0 wait_ms)) [
        | inl t ↦ rw t (set_bucket-IsHeld dec m k b l p h)
        | inr f ↦
            let b' = start now item.options b in
            rw f (
              shift_queue-IsHeld k rest _ q (ground (arith, get-set dec k k b' l.buckets))
                (set_bucket-IsHeld dec m k b' l (unfold start in ground (arith, ready f)) h))
      ]

  -- There is a result, and it keeps the limits.
  abbrev pub Holds : Option (Limiter F B) → Type 0
  Holds x = (l : Limiter F B) × (x ≡ some l) × IsHeld dec m l

  pub some-Holds : (l : Limiter F B) → IsHeld dec m l → Holds (some l)
  some-Holds l h = (l, refl, h)

  pub and_then-Holds :
      (x : Option (Limiter F B)) (f : Limiter F B → Option (Limiter F B))
      → Holds x
      → ((l : Limiter F B) → IsHeld dec m l → Holds (f l))
      → Holds (and_then x f)
  and_then-Holds none f (l, e, h) g = ground (arith, e)
  and_then-Holds (some v) f (l, e, h) g = subst (λ u. Holds (f u)) (ground (arith, e)) (g l h)

  -- With a bucket for every queue, a round of the drain does not throw.
  drain_queue-Holds :
      (now : ℕ) (k : B) (items : List QueueItem) (l : Limiter F B)
      → queue_of dec k l ≡ items
      → IsQueue m items
      → IsHeld dec m l
      → Holds (drain_queue dec now k items l)
  drain_queue-Holds now k [] l e q h = some-Holds _ (drop_pending-IsHeld k l h)
  drain_queue-Holds now k (item ∷ rest) l e ((p, ps), le) h =
      elim (Option-cases (JsMap.get dec k l.buckets)) [
        | inl n ↦ ground (arith, n, e, h.2 k)
        | inr (b, g) ↦
            let ready =
              wait_time_ready m now item.options b p
                (get-Values dec (IsBounded m) k l.buckets b h.0 g) in
            rw (bucket_state_known dec k b l g) (
              some-Holds _ (
                start_next-IsHeld now k item rest (wait_time now item.options b) l ready
                  (ps, omega (arith, le)) h))
      ]

  drain_loop-Holds :
      (now : ℕ) (ks : List B) (l : Limiter F B) → IsHeld dec m l → Holds (drain_loop dec now ks l)
  unfolding drain_loop drain_bucket
  drain_loop-Holds now [] l h = some-Holds l h
  drain_loop-Holds now (k ∷ ks) l h =
      and_then-Holds (drain_queue dec now k (queue_of dec k l) l) (drain_loop dec now ks)
        (drain_queue-Holds now k (queue_of dec k l) l refl (queue_of-IsQueue dec m k l h) h)
        (drain_loop-Holds now ks)

  pub drain-Holds : (now : ℕ) (l : Limiter F B) → IsHeld dec m l → Holds (drain dec now l)
  unfolding drain
  drain-Holds now l h =
      if_holds Holds l.is_disposed (some l) _ (some-Holds l h)
        (drain_loop-Holds now (JsMap.keys l.pending_buckets) l h)

  cleanup_bucket-IsHeld :
      (k : B) (b : BucketState) (i : Option ℕ) (l : Limiter F B)
      → IsBounded m b
      → IsHeld dec m l
      → IsHeld dec m (cleanup_bucket dec k b i l)
  unfolding cleanup_bucket
  cleanup_bucket-IsHeld k b i l p h =
      if_holds (IsHeld dec m) (length (queue_of dec k l) == 0 && idle b) (delete_bucket dec k l) _
        (delete_bucket-IsHeld dec m k l h)
        (if_holds (IsHeld dec m)
          (not (is_some (positive i)) || ltb 0 b.active || ltb 0 (length (queue_of dec k l))) l _ h
          (set_bucket-IsHeld dec m k _ l p h))

  finish_in-IsHeld :
      (k : B) (o : RateLimitOptions) (v : Option BucketState) (l : Limiter F B)
      → ((b : BucketState) → v ≡ some b → IsBounded m b)
      → IsHeld dec m l
      → IsHeld dec m (finish_in dec k o v l)
  finish_in-IsHeld k o none l p h = h
  finish_in-IsHeld k o (some b) l p h =
      let b' : BucketState = record b { active = b.active - 1 } in
      let le : IsBounded m b' = omega (arith, p b refl) in
      cleanup_bucket-IsHeld k b' o.interval_ms _ le (set_bucket-IsHeld dec m k b' l le h)

  clean_up_in-IsHeld :
      (now : ℕ) (k : B) (i : ℕ) (v : Option BucketState) (l : Limiter F B)
      → ((b : BucketState) → v ≡ some b → IsBounded m b)
      → IsHeld dec m l
      → IsHeld dec m (clean_up_in dec now k i v l)
  clean_up_in-IsHeld now k i none l p h = h
  clean_up_in-IsHeld now k i (some b) l p h =
      if_holds (IsHeld dec m) _ (delete_bucket dec k l) _ (delete_bucket-IsHeld dec m k l h)
        (set_bucket-IsHeld dec m k _ l (p b refl) h)

  known-IsBounded :
      (k : B) (l : Limiter F B)
      → IsHeld dec m l
      → (b : BucketState) → JsMap.get dec k l.buckets ≡ some b
      → IsBounded m b
  known-IsBounded k l h b e = get-Values dec (IsBounded m) k l.buckets b h.0 e

  pub finish-IsHeld :
      (k : B) (o : RateLimitOptions) (l : Limiter F B)
      → IsHeld dec m l
      → IsHeld dec m (finish dec k o l)
  unfolding finish
  finish-IsHeld k o l h =
      if_holds (IsHeld dec m) (runs_in dec k l.running == 0) l
        (finish_in dec k o (JsMap.get dec k l.buckets)
          (record l { running = remove_one dec k l.running }))
        h
        (finish_in-IsHeld k o (JsMap.get dec k l.buckets)
          (record l { running = remove_one dec k l.running }) (known-IsBounded k l h) h)

  pub clean_up-IsHeld :
      (now : ℕ) (k : B) (i : ℕ) (l : Limiter F B)
      → IsHeld dec m l
      → IsHeld dec m (clean_up dec now k i l)
  unfolding clean_up
  clean_up-IsHeld now k i l h =
      clean_up_in-IsHeld now k i (JsMap.get dec k l.buckets) l (known-IsBounded k l h) h

  pub dispose-IsHeld : (l : Limiter F B) → IsHeld dec m (dispose dec l)
  unfolding dispose layercache.JsMap.get
  dispose-IsHeld l = (tt, tt, λ j. λ h. h)
