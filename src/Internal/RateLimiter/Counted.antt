-- ===== src/Internal/RateLimiter/Counted.antt =====
-- The operations of src/internal/FetchRateLimiter.ts keep the counters in step with the tasks that run.
use layercache.Base.{
  ℕ, ite, ◌+◌, ◌-◌, false, not, ◌&&◌, ◌||◌, ltb, leb, ◌==◌, Option, none, some, is_some, or_else,
  List, [], ◌∷◌, length, ◌≡◌, refl, ◌∙◌, arith, Bool-cases, inl, inr, sym, ap,
}
use layercache.JsMap.{JsMap}
use layercache.JsMap
use layercache.JsMap.Laws.{get-set}
use layercache.Internal.RateLimiter.{
  and_then, Overflow, reject, bypass, RateLimitOptions, BucketState, QueueItem, Limiter,
  max_queue_per_bucket, idle, wait_time, start, positive, prune,
}
use layercache.Internal.RateLimiter.Actions.{
  bucket_state, queue_of, overflow, schedule_with, schedule_in, shift_queue, start_next,
  visit_bucket, drain_queue, drain_bucket, drain_loop, drain, cleanup_bucket, finish_in, finish,
  clean_up_in, clean_up, runs_in, remove_one,
}
use layercache.Internal.RateLimiter.Buckets.{if_holds}
use layercache.Internal.RateLimiter.Running.{
  active_in, wait_time-active, idle-active, active_of, IsCounted, Same, Same-refl, Same-trans,
  Same-IsCounted, set-Same, delete-Same, bucket_state-Same, bucket_state-active,
}

module _ {B : Type 0} (dec : Discrete B) where
  runs_in-remove_one :
      (j k : B) (ks : List B)
      → (runs_in dec k ks == 0) ≡ false
      → runs_in dec j (remove_one dec k ks)
        ≡ ite (dec k j) (runs_in dec j ks - 1) (runs_in dec j ks)
  runs_in-remove_one j k [] h = ground (arith, h)
  runs_in-remove_one j k (i ∷ ks) h = ground (arith, h, runs_in-remove_one j k ks)

module _ {F B : Type 0} (dec : Discrete B) where
  overflow-Same : (v : Overflow) (task : ℕ) (l : Limiter F B) → Same dec l (overflow dec v task l)
  overflow-Same reject task l = record {
    same_active = λ k. refl;
    same_running = refl;
    same_disposed = refl;
  }
  overflow-Same bypass task l = record {
    same_active = λ k. refl;
    same_running = refl;
    same_disposed = refl;
  }

  schedule_with-Same :
      (o : RateLimitOptions) (k : B) (task : ℕ) (x : Limiter F B × Option BucketState)
      → Same dec x.0 (schedule_with dec o k task x)
  schedule_with-Same o k task (l, none) = record {
    same_active = λ k. refl;
    same_running = refl;
    same_disposed = refl;
  }
  schedule_with-Same o k task (l, some b) =
      if_holds (Same dec l) (leb max_queue_per_bucket (length (queue_of dec k l)))
        (overflow dec (or_else o.queue_overflow reject) task l) _
        (overflow-Same (or_else o.queue_overflow reject) task l)
        (record { same_active = λ k. refl; same_running = refl; same_disposed = refl })

  pub schedule_in-IsCounted :
      (o : RateLimitOptions) (k : B) (task : ℕ) (l : Limiter F B)
      → IsCounted dec l
      → IsCounted dec (schedule_in dec o k task l)
  unfolding schedule_in
  schedule_in-IsCounted o k task l =
      Same-IsCounted dec l (schedule_with dec o k task (bucket_state dec k l)) (
        Same-trans dec l (bucket_state dec k l).0 _ (bucket_state-Same dec k l)
          (schedule_with-Same o k task (bucket_state dec k l)))

  shift_queue-IsCounted :
      (k : B) (rest : List QueueItem) (l : Limiter F B)
      → IsCounted dec l
      → IsCounted dec (shift_queue dec k rest l)
  shift_queue-IsCounted k [] l c = c
  shift_queue-IsCounted k (q ∷ qs) l c = c

  -- A task that starts raises the counter of its bucket, and of no other.
  start_next-IsCounted :
      (now : ℕ) (k : B) (item : QueueItem) (rest : List QueueItem) (x : BucketState × ℕ)
      (l : Limiter F B)
      → active_of dec k l ≡ x.0.active
      → IsCounted dec l
      → IsCounted dec (start_next dec now k item rest x l)
  start_next-IsCounted now k item rest (b, wait_ms) l h c = elim (Bool-cases (ltb 0 wait_ms)) [
    | inl t ↦ rw t (Same-IsCounted dec l _ (set-Same dec k b l h) c)
    | inr f ↦ rw f (
        shift_queue-IsCounted k rest _ (λ on j.
          let started : BucketState = start now item.options b in
          let counts : started.active ≡ b.active + 1 = unfold start in refl in
          ground (arith, c on j, get-set dec j k started l.buckets, h, counts)))
  ]

  abbrev pub AreCounted : Option (Limiter F B) → Type 0
  AreCounted none = Unit
  AreCounted (some l) = IsCounted dec l

  pub and_then-AreCounted :
      (x : Option (Limiter F B)) (f : Limiter F B → Option (Limiter F B))
      → AreCounted x
      → ((l : Limiter F B) → IsCounted dec l → AreCounted (f l))
      → AreCounted (and_then x f)
  and_then-AreCounted none f c h = tt
  and_then-AreCounted (some l) f c h = h l c

  visit_bucket-AreCounted :
      (now : ℕ) (k : B) (item : QueueItem) (rest : List QueueItem)
      (x : Limiter F B × Option BucketState)
      → ((b : BucketState) → x.1 ≡ some b → active_of dec k x.0 ≡ b.active)
      → IsCounted dec x.0
      → AreCounted (visit_bucket dec now k item rest x)
  visit_bucket-AreCounted now k item rest (l, none) h c = tt
  visit_bucket-AreCounted now k item rest (l, some b) h c =
      start_next-IsCounted now k item rest (wait_time now item.options b) l
        (h b refl ∙ sym (wait_time-active now item.options b)) c

  drain_queue-AreCounted :
      (now : ℕ) (k : B) (items : List QueueItem) (l : Limiter F B)
      → IsCounted dec l
      → AreCounted (drain_queue dec now k items l)
  drain_queue-AreCounted now k [] l c = c
  drain_queue-AreCounted now k (item ∷ rest) l c =
      visit_bucket-AreCounted now k item rest (bucket_state dec k l)
        (λ b. bucket_state-active dec k b l) (Same-IsCounted dec l _ (bucket_state-Same dec k l) c)

  drain_loop-AreCounted :
      (now : ℕ) (ks : List B) (l : Limiter F B)
      → IsCounted dec l
      → AreCounted (drain_loop dec now ks l)
  unfolding drain_loop drain_bucket
  drain_loop-AreCounted now [] l c = c
  drain_loop-AreCounted now (k ∷ ks) l c =
      and_then-AreCounted (drain_queue dec now k (queue_of dec k l) l) (drain_loop dec now ks)
        (drain_queue-AreCounted now k (queue_of dec k l) l c) (drain_loop-AreCounted now ks)

  pub drain-AreCounted :
      (now : ℕ) (l : Limiter F B) → IsCounted dec l → AreCounted (drain dec now l)
  unfolding drain
  drain-AreCounted now l c =
      if_holds AreCounted l.is_disposed (some l) _ c
        (drain_loop-AreCounted now (JsMap.keys l.pending_buckets) l c)

  cleanup_bucket-Same :
      (k : B) (b : BucketState) (i : Option ℕ) (l : Limiter F B)
      → active_of dec k l ≡ b.active
      → Same dec l (cleanup_bucket dec k b i l)
  unfolding cleanup_bucket
  cleanup_bucket-Same k b i l h = elim (Bool-cases (length (queue_of dec k l) == 0 && idle b)) [
    | inl t ↦ rw t (delete-Same dec k l (h ∙ idle-active b (ground (arith, t))))
    | inr f ↦ rw f (
        if_holds (Same dec l)
          (not (is_some (positive i)) || ltb 0 b.active || ltb 0 (length (queue_of dec k l))) l _
          (Same-refl dec l) (set-Same dec k _ l h))
  ]

  pub clean_up-IsCounted :
      (now : ℕ) (k : B) (i : ℕ) (l : Limiter F B)
      → IsCounted dec l
      → IsCounted dec (clean_up dec now k i l)
  unfolding clean_up
  clean_up-IsCounted now k i l c = go (JsMap.get dec k l.buckets) refl
    where
      go :
          (o : Option BucketState)
          → JsMap.get dec k l.buckets ≡ o
          → IsCounted dec (clean_up_in dec now k i o l)
      go none e = c
      go (some b) e =
          let b' : BucketState = record b {
            has_cleanup_timer = false;
            started_at = prune now i b.started_at;
          } in
          elim (Bool-cases (idle b' && length (queue_of dec k l) == 0)) [
            | inl t ↦ rw t (
                Same-IsCounted dec l _
                  (delete-Same dec k l (ap active_in e ∙ idle-active b' (ground (arith, t)))) c)
            | inr f ↦ rw f (Same-IsCounted dec l _ (set-Same dec k b' l (ap active_in e)) c)
          ]

  -- A task that ends lowers the counter of its bucket, and of no other.
  pub finish-IsCounted :
      (k : B) (o : RateLimitOptions) (l : Limiter F B)
      → IsCounted dec l
      → IsCounted dec (finish dec k o l)
  unfolding finish
  finish-IsCounted k o l c = elim (Bool-cases (runs_in dec k l.running == 0)) [
    | inl t ↦ rw t c
    | inr f ↦ rw f (go f (JsMap.get dec k l.buckets) refl)
  ]
    where
      go :
          (runs_in dec k l.running == 0) ≡ false
          → (v : Option BucketState) → JsMap.get dec k l.buckets ≡ v
          → IsCounted dec (finish_in dec k o v (record l { running = remove_one dec k l.running }))
      go f none e = λ on j. absurd (ground (arith, f, c on k, ap active_in e))
      go f (some b) e =
          let b' : BucketState = record b { active = b.active - 1 } in
          Same-IsCounted dec _ _
            (cleanup_bucket-Same k b' o.interval_ms _
              (ap active_in (get-set dec k k b' l.buckets) ∙ ground arith))
            (λ on j. ground (
              arith,
              c on j,
              ap active_in e,
              get-set dec j k b' l.buckets,
              runs_in-remove_one dec j k l.running f,
            ))
