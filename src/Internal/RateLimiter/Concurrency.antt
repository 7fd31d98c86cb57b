-- ===== src/Internal/RateLimiter/Concurrency.antt =====
-- The limits that src/internal/FetchRateLimiter.ts keeps, over everything that can happen to it.
use layercache.JsMap.Values.{get-Values}
use layercache.Internal.RateLimiter.Running.{active_in, IsCounted}
use layercache.Internal.RateLimiter.Counted.{
  schedule_in-IsCounted, AreCounted, and_then-AreCounted, drain-AreCounted, clean_up-IsCounted,
  finish-IsCounted,
}
use layercache.Base.{
  true, ◌≡◌, ◌≤◌, ◌⊎◌, inl, inr, Bool-cases, refl, arith, subst, ℕ, Option, none, some, or_else,
  List, [], ◌∷◌, All,
}
use layercache.JsMap.{JsMap}
use layercache.JsMap
use layercache.Internal.RateLimiter.{
  RateLimitOptions, BucketKey, BucketState, Limiter, Scope, global, by_key, by_fetcher,
  fetcher_bucket, scope_bucket, named_bucket, normalize, resolve_bucket_key, new_limiter, disposed,
}
use layercache.Internal.RateLimiter.Actions.{
  Event, note, dispose, runs_in, schedule_options, schedule_normalized, schedule, step, run,
  schedules, drains, finishes, cleans_up, disposes,
}
use layercache.Internal.RateLimiter.Buckets.{IsLimited, IsBounded, IsHeld, if_holds}
use layercache.Internal.RateLimiter.Drains.{
  schedule_in-IsHeld, some-Holds, and_then-Holds, drain-Holds, finish-IsHeld, clean_up-IsHeld,
  dispose-IsHeld, Holds,
}

-- What is scheduled asks for no more than `m` tasks at a time, or for no limit at all.
abbrev pub IsCall : {K F : Type 0} → ℕ → Event K F → Type 0
IsCall m (schedules none key fetcher task) = Unit
IsCall m (schedules (some o) key fetcher task) = IsLimited m o
IsCall m (drains now) = Unit
IsCall m (finishes k o) = Unit
IsCall m (cleans_up now k i) = Unit
IsCall m disposes = Unit

module _ {K F : Type 0} (dec_f : Discrete F) (dec : Discrete (BucketKey K)) (m : ℕ) where
  IsAsked : Option RateLimitOptions → Type 0
  IsAsked none = Unit
  IsAsked (some o) = IsLimited m o

  normalize-IsAsked : (o : RateLimitOptions) → IsLimited m o → IsAsked (normalize o)
  unfolding normalize IsAsked
  normalize-IsAsked o h = if_holds IsAsked _ (some _) none h tt

  -- What the names of fetchers do not touch stays.
  module _ (P : Limiter F (BucketKey K) → Type 0)
      (named : (l : Limiter F (BucketKey K)) (names : JsMap F ℕ) (n : ℕ)
        → P l
        → P (record l { next_fetcher_bucket_id = n; fetcher_buckets = names })) where
    fetcher_bucket_keeps :
        (fetcher : F) (id : Option ℕ) (l : Limiter F (BucketKey K))
        → P l
        → P ((fetcher_bucket {K = K} dec_f fetcher id l).0)
    fetcher_bucket_keeps fetcher none l h = named l _ _ h
    fetcher_bucket_keeps fetcher (some id) l h = h

    scope_bucket_keeps :
        (s : Scope) (key : K) (fetcher : F) (l : Limiter F (BucketKey K))
        → P l
        → P ((scope_bucket dec_f s key fetcher l).0)
    scope_bucket_keeps global key fetcher l h = h
    scope_bucket_keeps by_key key fetcher l h = h
    scope_bucket_keeps by_fetcher key fetcher l h =
        fetcher_bucket_keeps fetcher (JsMap.get dec_f fetcher l.fetcher_buckets) l h

    named_bucket_keeps :
        (name : Option (List ℕ)) (x : Limiter F (BucketKey K) × BucketKey K)
        (l : Limiter F (BucketKey K))
        → P x.0
        → P l
        → P ((named_bucket dec_f name x l).0)
    named_bucket_keeps none x l p h = p
    named_bucket_keeps (some []) x l p h = p
    named_bucket_keeps (some (c ∷ cs)) x l p h = h

    resolve_bucket_key_keeps :
        (o : RateLimitOptions) (key : K) (fetcher : F) (l : Limiter F (BucketKey K))
        → P l
        → P ((resolve_bucket_key dec_f o key fetcher l).0)
    unfolding resolve_bucket_key
    resolve_bucket_key_keeps o key fetcher l h =
        named_bucket_keeps o.bucket_key (scope_bucket dec_f (or_else o.scope global) key fetcher l)
          l (scope_bucket_keeps (or_else o.scope global) key fetcher l h) h

  schedule_normalized-IsHeld :
      (x : Option RateLimitOptions) (key : K) (fetcher : F) (task : ℕ) (l : Limiter F (BucketKey K))
      → IsAsked x
      → IsHeld dec m l
      → IsHeld dec m
          (schedule_normalized dec x (λ n. resolve_bucket_key dec_f n key fetcher) task l)
  unfolding schedule_normalized IsAsked
  schedule_normalized-IsHeld none key fetcher task l p h = h
  schedule_normalized-IsHeld (some o) key fetcher task l p h =
      schedule_in-IsHeld dec m o _ task _ p
        (resolve_bucket_key_keeps (IsHeld dec m) (λ u names n held. held) o key fetcher l h)

  schedule_options-IsHeld :
      (o : Option RateLimitOptions) (key : K) (fetcher : F) (task : ℕ) (l : Limiter F (BucketKey K))
      → IsCall {K = K} {F = F} m (schedules o key fetcher task)
      → IsHeld dec m l
      → IsHeld dec m (schedule_options dec_f dec o key fetcher task l)
  schedule_options-IsHeld none key fetcher task l p h = h
  schedule_options-IsHeld (some o) key fetcher task l p h =
      schedule_normalized-IsHeld (normalize o) key fetcher task l (normalize-IsAsked o p) h

  schedule-IsHeld :
      (o : Option RateLimitOptions) (key : K) (fetcher : F) (task : ℕ) (l : Limiter F (BucketKey K))
      → IsCall {K = K} {F = F} m (schedules o key fetcher task)
      → IsHeld dec m l
      → IsHeld dec m (schedule dec_f dec o key fetcher task l)
  unfolding schedule
  schedule-IsHeld o key fetcher task l p h =
      if_holds (IsHeld dec m) l.is_disposed (note dec (disposed task) l) _ h
        (schedule_options-IsHeld o key fetcher task l p h)

  step-Holds :
      (e : Event K F) (l : Limiter F (BucketKey K))
      → IsCall m e
      → IsHeld dec m l
      → Holds dec m (step dec_f dec e l)
  unfolding step
  step-Holds (schedules o key fetcher task) l p h =
      some-Holds dec m _ (schedule-IsHeld o key fetcher task l p h)
  step-Holds (drains now) l p h = drain-Holds dec m now l h
  step-Holds (finishes k o) l p h = some-Holds dec m _ (finish-IsHeld dec m k o l h)
  step-Holds (cleans_up now k i) l p h = some-Holds dec m _ (clean_up-IsHeld dec m now k i l h)
  step-Holds disposes l p h = some-Holds dec m _ (dispose-IsHeld dec m l)

  schedule_normalized-IsCounted :
      (x : Option RateLimitOptions) (key : K) (fetcher : F) (task : ℕ) (l : Limiter F (BucketKey K))
      → IsCounted dec l
      → IsCounted dec
          (schedule_normalized dec x (λ n. resolve_bucket_key dec_f n key fetcher) task l)
  unfolding schedule_normalized
  schedule_normalized-IsCounted none key fetcher task l c = c
  schedule_normalized-IsCounted (some o) key fetcher task l c =
      schedule_in-IsCounted dec o _ task _
        (resolve_bucket_key_keeps (IsCounted dec) (λ u names n counted. counted) o key fetcher l c)

  schedule_options-IsCounted :
      (o : Option RateLimitOptions) (key : K) (fetcher : F) (task : ℕ) (l : Limiter F (BucketKey K))
      → IsCounted dec l
      → IsCounted dec (schedule_options dec_f dec o key fetcher task l)
  schedule_options-IsCounted none key fetcher task l c = c
  schedule_options-IsCounted (some o) key fetcher task l c =
      schedule_normalized-IsCounted (normalize o) key fetcher task l c

  step-AreCounted :
      (e : Event K F) (l : Limiter F (BucketKey K))
      → IsCounted dec l
      → AreCounted dec (step dec_f dec e l)
  unfolding step schedule dispose
  step-AreCounted (schedules o key fetcher task) l c =
      if_holds (IsCounted dec) l.is_disposed (note dec (disposed task) l) _ c
        (schedule_options-IsCounted o key fetcher task l c)
  step-AreCounted (drains now) l c = drain-AreCounted dec now l c
  step-AreCounted (finishes k o) l c = finish-IsCounted dec k o l c
  step-AreCounted (cleans_up now k i) l c = clean_up-IsCounted dec now k i l c
  step-AreCounted disposes l c = λ on. absurd (ground (arith, on))

  run_counted :
      (es : List (Event K F)) (l : Limiter F (BucketKey K))
      → IsCounted dec l
      → AreCounted dec (run dec_f dec es l)
  unfolding run
  run_counted [] l c = c
  run_counted (e ∷ es) l c =
      and_then-AreCounted dec (step dec_f dec e l) (run dec_f dec es) (step-AreCounted e l c)
        (run_counted es)

  run_held :
      (es : List (Event K F)) (l : Limiter F (BucketKey K))
      → All (IsCall m) es
      → IsHeld dec m l
      → Holds dec m (run dec_f dec es l)
  unfolding run
  run_held [] l p h = some-Holds dec m l h
  run_held (e ∷ es) l p h =
      and_then-Holds dec m (step dec_f dec e l) (run dec_f dec es) (step-Holds e l p.0 h)
        (λ l' h'. run_held es l' p.1 h')

  bounded_active :
      (o : Option BucketState) → ((b : BucketState) → o ≡ some b → IsBounded m b) → active_in o ≤ m
  bounded_active none h = omega arith
  bounded_active (some b) h = h b refl

  -- The limits are kept, and, as long as the limiter is not disposed of, no more than `m` tasks run in a bucket.
  abbrev pub IsConcurrent : Limiter F (BucketKey K) → Type 0
  IsConcurrent l =
      IsHeld dec m l × ((l.is_disposed ≡ true) ⊎ ((k : BucketKey K) → runs_in dec k l.running ≤ m))

  counted-IsConcurrent :
      (l : Limiter F (BucketKey K)) → IsHeld dec m l → IsCounted dec l → IsConcurrent l
  counted-IsConcurrent l h c = (
    h,
    elim (Bool-cases l.is_disposed) [
      | inl t ↦ inl t
      | inr f ↦ inr (λ k.
          let bound =
            bounded_active (JsMap.get dec k l.buckets)
              (λ b. get-Values dec (IsBounded m) k l.buckets b h.0) in
          omega (arith, bound, c f k))
    ],
  )

  -- Whatever happens to a new rate limiter, where every scheduled task asks for no more than `m` at a
  -- time: no drain throws, no bucket counts more than `m` active tasks, no queue is longer than
  -- `MAX_QUEUE_PER_BUCKET` or without a bucket, and until the limiter is disposed of no more than `m` of
  -- the tasks that were started in a bucket run at a time.
  pub run-IsConcurrent :
      (es : List (Event K F))
      → All (IsCall m) es
      → (l : Limiter F (BucketKey K)) × (run dec_f dec es new_limiter ≡ some l) × IsConcurrent l
  unfolding layercache.JsMap.get
  run-IsConcurrent es p =
      let (l, e, h) = run_held es new_limiter p (tt, tt, λ j. λ h. h) in
      let counted : AreCounted dec (some l) =
        subst (AreCounted dec) e (run_counted es new_limiter (λ on k. refl)) in
      (l, e, counted-IsConcurrent l h counted)
