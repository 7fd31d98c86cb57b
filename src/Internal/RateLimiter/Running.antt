-- ===== src/Internal/RateLimiter/Running.antt =====
-- The counters of src/internal/FetchRateLimiter.ts and the tasks that run: `active` of a bucket counts the tasks
-- that run in it, until the limiter is disposed of.
use layercache.Base.{
  ℕ, true, false, not, ◌&&◌, leb, Option, none, some, List, [], ◌∷◌, ◌≡◌, refl, ◌∙◌, arith,
  Bool-cases, inl, inr, sym, ap,
}
use layercache.JsMap.{JsMap}
use layercache.JsMap
use layercache.JsMap.Laws.{get-set, get-delete}
use layercache.Internal.RateLimiter.{
  RateLimitOptions, BucketState, new_bucket, Limiter, max_buckets, idle, wait_time,
}
use layercache.Internal.RateLimiter.Actions.{
  delete_bucket, evict, evict_loop, make_room, bucket_or_new, bucket_state, runs_in,
}
use layercache.Internal.RateLimiter.Buckets.{if_holds}

abbrev pub active_in : Option BucketState → ℕ
active_in none = 0
active_in (some b) = b.active

pub wait_time-active :
    (now : ℕ) (o : RateLimitOptions) (b : BucketState) → (wait_time now o b).0.active ≡ b.active
unfolding wait_time
wait_time-active now o b = ground arith

pub idle-active : (b : BucketState) → idle b ≡ true → b.active ≡ 0
idle-active b h = ground (arith, h)

module _ {F B : Type 0} (dec : Discrete B) where
  abbrev pub active_of : B → Limiter F B → ℕ
  active_of k l = active_in (JsMap.get dec k l.buckets)

  -- Every bucket counts the tasks that run in it.
  abbrev pub IsCounted : Limiter F B → Type 0
  IsCounted l = l.is_disposed ≡ false → (k : B) → runs_in dec k l.running ≡ active_of k l

  -- The same tasks run, and the counters are the same.
  pub record Same (l l' : Limiter F B) : Type 0 where
    pub same_active : (k : B) → active_of k l ≡ active_of k l'
    pub same_running : l'.running ≡ l.running
    pub same_disposed : l'.is_disposed ≡ l.is_disposed

  pub Same-refl : (l : Limiter F B) → Same l l
  Same-refl l = record { same_active = λ k. refl; same_running = refl; same_disposed = refl }

  pub Same-trans : (l l' l'' : Limiter F B) → Same l l' → Same l' l'' → Same l l''
  Same-trans l l' l'' p q = record {
    same_active = λ k. p.same_active k ∙ q.same_active k;
    same_running = q.same_running ∙ p.same_running;
    same_disposed = q.same_disposed ∙ p.same_disposed;
  }

  pub Same-IsCounted : (l l' : Limiter F B) → Same l l' → IsCounted l → IsCounted l'
  Same-IsCounted l l' p c on k =
      rw p.same_running (c (sym p.same_disposed ∙ on) k ∙ p.same_active k)

  pub set-Same :
      (k : B) (b : BucketState) (l : Limiter F B)
      → active_of k l ≡ b.active
      → Same l (record l { buckets = JsMap.set dec k b l.buckets })
  set-Same k b l h = record {
    same_active = λ j. ground (arith, h, get-set dec j k b l.buckets);
    same_running = refl;
    same_disposed = refl;
  }

  pub delete-Same : (k : B) (l : Limiter F B) → active_of k l ≡ 0 → Same l (delete_bucket dec k l)
  delete-Same k l h = record {
    same_active = λ j. ground (arith, h, get-delete dec j k l.buckets);
    same_running = refl;
    same_disposed = refl;
  }

  evict-Same :
      (k : B) (o : Option BucketState) (l : Limiter F B)
      → JsMap.get dec k l.buckets ≡ o
      → Same l (evict dec k o l)
  evict-Same k none l e = Same-refl l
  evict-Same k (some b) l e =
      elim (Bool-cases (idle b && not (JsMap.has dec k l.queues_by_bucket))) [
        | inl t ↦ rw t (delete-Same k l (rw e (idle-active b (ground (arith, t)))))
        | inr f ↦ rw f (Same-refl l)
      ]

  evict_loop-Same : (ks : List B) (l : Limiter F B) → Same l (evict_loop dec ks l)
  unfolding evict_loop
  evict_loop-Same [] l = Same-refl l
  evict_loop-Same (k ∷ ks) l =
      let l' = evict dec k (JsMap.get dec k l.buckets) l in
      if_holds (Same l) _ l (evict_loop dec ks l') (Same-refl l) (
        Same-trans l l' (evict_loop dec ks l') (evict-Same k (JsMap.get dec k l.buckets) l refl)
          (evict_loop-Same ks l'))

  make_room-Same : (l : Limiter F B) → Same l (make_room dec l)
  make_room-Same l =
      if_holds (Same l) (leb max_buckets (JsMap.size l.buckets))
        (evict_loop dec (JsMap.keys l.buckets) l) l (evict_loop-Same (JsMap.keys l.buckets) l)
        (Same-refl l)

  bucket_or_new-Same :
      (k : B) (o : Option BucketState) (l : Limiter F B)
      → JsMap.get dec k l.buckets ≡ o
      → Same l (bucket_or_new dec k o l).0
  bucket_or_new-Same k (some b) l e = Same-refl l
  bucket_or_new-Same k none l e =
      let room = make_room dec l in
      let same = make_room-Same l in
      let none_active : active_of k room ≡ 0 = sym (same.same_active k) ∙ ap active_in e in
      if_holds (λ (x : Limiter F B × Option BucketState). Same l x.0)
        (leb max_buckets (JsMap.size room.buckets)) (room, none) _ same
        (Same-trans l room _ same (set-Same k new_bucket room none_active))

  pub bucket_state-Same : (k : B) (l : Limiter F B) → Same l (bucket_state dec k l).0
  unfolding bucket_state
  bucket_state-Same k l = bucket_or_new-Same k (JsMap.get dec k l.buckets) l refl

  bucket_or_new-active :
      (k : B) (b : BucketState) (o : Option BucketState) (l : Limiter F B)
      → JsMap.get dec k l.buckets ≡ o
      → (bucket_or_new dec k o l).1 ≡ some b
      → active_of k (bucket_or_new dec k o l).0 ≡ b.active
  bucket_or_new-active k b (some v) l e h = ap active_in (e ∙ h)
  bucket_or_new-active k b none l e h =
      let room = make_room dec l in
      let same = get-set dec k k new_bucket room.buckets in
      elim (Bool-cases (leb max_buckets (JsMap.size room.buckets))) [
        | inl t ↦ ground (arith, t, h)
        | inr f ↦ let h' = rw f at h in rw f (ground (arith, same, ap active_in h'))
      ]

  pub bucket_state-active :
      (k : B) (b : BucketState) (l : Limiter F B)
      → (bucket_state dec k l).1 ≡ some b
      → active_of k (bucket_state dec k l).0 ≡ b.active
  unfolding bucket_state
  bucket_state-active k b l h = bucket_or_new-active k b (JsMap.get dec k l.buckets) l refl h
