-- ===== src/Internal/RateLimiter/Buckets.antt =====
-- The buckets and queues of src/internal/FetchRateLimiter.ts: what every operation on them keeps.
use layercache.Base.{
  ℕ, suc, ◌≤◌, Bool, true, false, not, ◌&&◌, if◌then◌else◌, leb, Option, none, some, List, [], ◌∷◌,
  length, ◌≡◌, refl, ◌*◌, arith, Bool-cases, inl, inr, All, Option-cases, ap,
}
use layercache.JsMap.{JsMap}
use layercache.JsMap
use layercache.JsMap.Laws.{get-set, get-delete}
use layercache.JsMap.Values.{Values, set-Values, delete-Values, get-Values}
use layercache.Internal.RateLimiter.{
  RateLimitOptions, BucketState, QueueItem, Limiter, max_queue_per_bucket, max_buckets, new_bucket,
  idle,
}
use layercache.Internal.RateLimiter.Actions.{
  delete_bucket, evict, evict_loop, bucket_state, bucket_or_new, make_room, queue_of,
}

pub if_holds :
    {A : Type 0} (P : A → Type 0) (b : Bool) (x y : A) → P x → P y → P (if b then x else y)
if_holds P true x y p q = p
if_holds P false x y p q = q

-- No more than `m` tasks at a time are asked for.
abbrev pub IsLimited : ℕ → RateLimitOptions → Type 0
IsLimited m o = (c : ℕ) × (o.max_concurrent ≡ some (suc c)) × (suc c ≤ m)

abbrev pub IsBounded : ℕ → BucketState → Type 0
IsBounded m b = b.active ≤ m

abbrev pub IsQueue : ℕ → List QueueItem → Type 0
IsQueue m items = All (λ i. IsLimited m i.options) items × (length items ≤ max_queue_per_bucket)

module _ {F B : Type 0} (dec : Discrete B) where
  -- Every queue has a bucket.
  abbrev pub IsServed : Limiter F B → Type 0
  IsServed l =
      (k : B) → JsMap.has dec k l.queues_by_bucket ≡ true → JsMap.has dec k l.buckets ≡ true

  abbrev pub IsHeld : ℕ → Limiter F B → Type 0
  IsHeld m l = Values (IsBounded m) l.buckets × Values (IsQueue m) l.queues_by_bucket × IsServed l

  module _ (m : ℕ) where
    pub delete_bucket-IsHeld :
        (k : B) (l : Limiter F B) → IsHeld m l → IsHeld m (delete_bucket dec k l)
    delete_bucket-IsHeld k l (hb, hq, hs) = (
      delete-Values dec (IsBounded m) k l.buckets hb,
      delete-Values dec (IsQueue m) k l.queues_by_bucket hq,
      λ j. λ h.
          ground
            (arith, h, hs j, get-delete dec j k l.buckets, get-delete dec j k l.queues_by_bucket),
    )

    pub set_bucket-IsHeld :
        (k : B) (b : BucketState) (l : Limiter F B)
        → IsBounded m b
        → IsHeld m l
        → IsHeld m (record l { buckets = JsMap.set dec k b l.buckets })
    set_bucket-IsHeld k b l p (hb, hq, hs) = (
      set-Values dec (IsBounded m) k b l.buckets p hb,
      hq,
      λ j. λ h. ground (arith, h, hs j, get-set dec j k b l.buckets),
    )

    pub set_queue-IsHeld :
        (k : B) (items : List QueueItem) (l : Limiter F B)
        → IsQueue m items
        → JsMap.has dec k l.buckets ≡ true
        → IsHeld m l
        → IsHeld m (record l { queues_by_bucket = JsMap.set dec k items l.queues_by_bucket })
    set_queue-IsHeld k items l p e (hb, hq, hs) = (
      hb,
      set-Values dec (IsQueue m) k items l.queues_by_bucket p hq,
      λ j. λ h. ground (arith, e, h, hs j, get-set dec j k items l.queues_by_bucket),
    )

    pub queue_of-IsQueue : (k : B) (l : Limiter F B) → IsHeld m l → IsQueue m (queue_of dec k l)
    queue_of-IsQueue k l (hb, hq, hs) = elim (Option-cases (JsMap.get dec k l.queues_by_bucket)) [
      | inl e ↦ rw e (tt, omega arith)
      | inr (v, e) ↦ rw e (get-Values dec (IsQueue m) k l.queues_by_bucket v hq e)
    ]

    evict-IsHeld :
        (k : B) (o : Option BucketState) (l : Limiter F B) → IsHeld m l → IsHeld m (evict dec k o l)
    evict-IsHeld k none l h = h
    evict-IsHeld k (some b) l h =
        if_holds (IsHeld m) (idle b && not (JsMap.has dec k l.queues_by_bucket))
          (delete_bucket dec k l) l (delete_bucket-IsHeld k l h) h

    pub evict_loop-IsHeld :
        (ks : List B) (l : Limiter F B) → IsHeld m l → IsHeld m (evict_loop dec ks l)
    unfolding evict_loop
    evict_loop-IsHeld [] l h = h
    evict_loop-IsHeld (k ∷ ks) l h =
        if_holds (IsHeld m) (leb (10 * JsMap.size l.buckets) (9 * max_buckets)) l _ h
          (evict_loop-IsHeld ks _ (evict-IsHeld k (JsMap.get dec k l.buckets) l h))

    bucket_or_new-IsHeld :
        (k : B) (o : Option BucketState) (l : Limiter F B)
        → IsHeld m l
        → IsHeld m ((bucket_or_new dec k o l).0)
    bucket_or_new-IsHeld k (some b) l h = h
    bucket_or_new-IsHeld k none l h =
        let room = make_room dec l in
        let h' =
          if_holds (IsHeld m) (leb max_buckets (JsMap.size l.buckets))
            (evict_loop dec (JsMap.keys l.buckets) l) l
            (evict_loop-IsHeld (JsMap.keys l.buckets) l h) h in
        if_holds (λ (x : Limiter F B × Option BucketState). IsHeld m x.0)
          (leb max_buckets (JsMap.size room.buckets)) (room, none) _ h'
          (set_bucket-IsHeld k new_bucket room (omega arith) h')

    pub bucket_state-IsHeld :
        (k : B) (l : Limiter F B) → IsHeld m l → IsHeld m ((bucket_state dec k l).0)
    unfolding bucket_state
    bucket_state-IsHeld k l h = bucket_or_new-IsHeld k (JsMap.get dec k l.buckets) l h

  pub bucket_state_known :
      (k : B) (b : BucketState) (l : Limiter F B)
      → JsMap.get dec k l.buckets ≡ some b
      → bucket_state dec k l ≡ (l, some b)
  unfolding bucket_state
  bucket_state_known k b l e = ap (λ o. bucket_or_new dec k o l) e

  bucket_or_new-has :
      (k : B) (b : BucketState) (o : Option BucketState) (l : Limiter F B)
      → o ≡ JsMap.get dec k l.buckets
      → (bucket_or_new dec k o l).1 ≡ some b
      → JsMap.has dec k (bucket_or_new dec k o l).0.buckets ≡ true
  bucket_or_new-has k b (some v) l e h = rw (← e) refl
  bucket_or_new-has k b none l e h =
      let room = make_room dec l in
      let same = get-set dec k k new_bucket room.buckets in
      elim (Bool-cases (leb max_buckets (JsMap.size room.buckets))) [
        | inl t ↦ ground (arith, t, h)
        | inr f ↦ rw f (ground (arith, same))
      ]

  pub bucket_state-has :
      (k : B) (b : BucketState) (l : Limiter F B)
      → (bucket_state dec k l).1 ≡ some b
      → JsMap.has dec k (bucket_state dec k l).0.buckets ≡ true
  unfolding bucket_state
  bucket_state-has k b l h = bucket_or_new-has k b (JsMap.get dec k l.buckets) l refl h
