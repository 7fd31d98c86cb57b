-- ===== src/Internal/NamespaceMetrics/Sums.antt =====
-- A difference of snapshots (src/internal/CacheNamespaceMetrics.ts) added again.
use layercache.Base.{
  ℤ, pos, ◌+ℤ◌, ◌-ℤ◌, ite, none, List, [], ◌∷◌, ◌++◌, ◌≡◌, refl, sym, ap, ◌∙◌, arith, ◌⊎◌, inl, inr,
}
use layercache.JsMap.{JsMap}
use layercache.JsMap
use layercache.JsMap.Laws.{get-set}
use layercache.Internal.NamespaceMetrics.{
  Counters, MetricsSnapshot, each_counter, count_of, combine, diff_metric_map, add_metric_map,
  diff_namespace_metrics, add_namespace_metrics,
}

diff_cancels : (x y : ℤ) → x +ℤ (y -ℤ x) ≡ y
unfolding ◌+ℤ◌ ◌-ℤ◌
diff_cancels x y = ground arith

-- Adding the difference of two snapshots to the first one gives the counters of the second.
counters-add :
    (a b : Counters) → each_counter (λ x y. x +ℤ y) a (each_counter (λ x y. y -ℤ x) a b) ≡ b
counters-add a b = λ i. record {
  hits = diff_cancels a.hits b.hits i;
  misses = diff_cancels a.misses b.misses i;
  fetches = diff_cancels a.fetches b.fetches i;
  sets = diff_cancels a.sets b.sets i;
  deletes = diff_cancels a.deletes b.deletes i;
  backfills = diff_cancels a.backfills b.backfills i;
  invalidations = diff_cancels a.invalidations b.invalidations i;
  stale_hits = diff_cancels a.stale_hits b.stale_hits i;
  refreshes = diff_cancels a.refreshes b.refreshes i;
  refresh_errors = diff_cancels a.refresh_errors b.refresh_errors i;
  write_failures = diff_cancels a.write_failures b.write_failures i;
  single_flight_waits = diff_cancels a.single_flight_waits b.single_flight_waits i;
  negative_cache_hits = diff_cancels a.negative_cache_hits b.negative_cache_hits i;
  circuit_breaker_trips = diff_cancels a.circuit_breaker_trips b.circuit_breaker_trips i;
  degraded_operations = diff_cancels a.degraded_operations b.degraded_operations i;
}

module _ {K : Type 0} (dec : Discrete K) where
  abbrev Listed : K → List K → Type 0
  Listed k [] = ⊥
  Listed k (j ∷ js) = (j ≡ k) ⊎ Listed k js

  count-set :
      (k j : K) (x : ℤ) (m : JsMap K ℤ)
      → count_of dec k (JsMap.set dec j x m) ≡ ite (dec j k) x (count_of dec k m)
  count-set k j x m = ground (arith, get-set dec k j x m)

  -- A count that is right stays so.
  combine-kept :
      (f : ℤ → ℤ → ℤ) (ks : List K) (a b r : JsMap K ℤ) (k : K)
      → count_of dec k r ≡ f (count_of dec k a) (count_of dec k b)
      → count_of dec k (combine dec f ks a b r) ≡ f (count_of dec k a) (count_of dec k b)
  unfolding combine
  combine-kept f [] a b r k h = h
  combine-kept f (j ∷ ks) a b r k h =
      combine-kept f ks a b (JsMap.set dec j (f (count_of dec j a) (count_of dec j b)) r) k
        (elim (dec j k) [
          | yes p ↦
              rw (count-set k j (f (count_of dec j a) (count_of dec j b)) r) (ground (arith, p))
          | no n ↦
              rw (count-set k j (f (count_of dec j a) (count_of dec j b)) r) (ground (arith, h))
        ])

  combine-Listed :
      (f : ℤ → ℤ → ℤ) (ks : List K) (a b r : JsMap K ℤ) (k : K)
      → Listed k ks
      → count_of dec k (combine dec f ks a b r) ≡ f (count_of dec k a) (count_of dec k b)
  unfolding combine
  combine-Listed f [] a b r k h = absurd h
  combine-Listed f (j ∷ ks) a b r k (inl p) =
      combine-kept f ks a b (JsMap.set dec j (f (count_of dec j a) (count_of dec j b)) r) k
        (rw (count-set k j (f (count_of dec j a) (count_of dec j b)) r) (ground (arith, p)))
  combine-Listed f (j ∷ ks) a b r k (inr h) =
      combine-Listed f ks a b (JsMap.set dec j (f (count_of dec j a) (count_of dec j b)) r) k h

  Listed-or_absent : (k : K) (m : JsMap K ℤ) → Listed k (JsMap.keys m) ⊎ (JsMap.get dec k m ≡ none)
  unfolding JsMap.get
  Listed-or_absent k [] = inr refl
  Listed-or_absent k ((j, v) ∷ m) = elim (dec j k) [
    | yes p ↦ inl (inl p)
    | no n ↦ elim (Listed-or_absent k m) [ inl l ↦ inl (inr l) | inr e ↦ inr (ground (arith, e)) ]
  ]

  Listed-left : (k : K) (xs ys : List K) → Listed k xs → Listed k (xs ++ ys)
  Listed-left k [] ys h = absurd h
  Listed-left k (x ∷ xs) ys (inl p) = inl p
  Listed-left k (x ∷ xs) ys (inr h) = inr (Listed-left k xs ys h)

  Listed-right : (k : K) (xs ys : List K) → Listed k ys → Listed k (xs ++ ys)
  Listed-right k [] ys h = h
  Listed-right k (x ∷ xs) ys h = inr (Listed-right k xs ys h)

  count-none : (k : K) (m : JsMap K ℤ) → JsMap.get dec k m ≡ none → count_of dec k m ≡ pos 0
  count-none k m h = ground (arith, h)

  count-nil : (k : K) → count_of dec k [] ≡ pos 0
  unfolding JsMap.get
  count-nil k = refl

  combine-all :
      (f : ℤ → ℤ → ℤ) (a b : JsMap K ℤ) (k : K)
      → f (pos 0) (pos 0) ≡ pos 0
      → count_of dec k (combine dec f (JsMap.keys a ++ JsMap.keys b) a b [])
        ≡ f (count_of dec k a) (count_of dec k b)
  combine-all f a b k z = elim (Listed-or_absent k a) [
    | inl l ↦
        combine-Listed f (JsMap.keys a ++ JsMap.keys b) a b [] k
          (Listed-left k (JsMap.keys a) (JsMap.keys b) l)
    | inr e ↦ elim (Listed-or_absent k b) [
      | inl l ↦
          combine-Listed f (JsMap.keys a ++ JsMap.keys b) a b [] k
            (Listed-right k (JsMap.keys a) (JsMap.keys b) l)
      | inr g ↦
          combine-kept f (JsMap.keys a ++ JsMap.keys b) a b [] k
            (rw (count-nil k, count-none k a e, count-none k b g) (sym z))
    ]
  ]

  maps-add :
      (a b : JsMap K ℤ) (k : K)
      → count_of dec k (add_metric_map dec a (diff_metric_map dec a b)) ≡ count_of dec k b
  unfolding add_metric_map diff_metric_map
  maps-add a b k =
      combine-all (λ x y. x +ℤ y) a (diff_metric_map dec a b) k (unfold ◌+ℤ◌ in refl)
      ∙ ap (λ d. count_of dec k a +ℤ d) (combine-all (λ x y. y -ℤ x) a b k (unfold ◌-ℤ◌ in refl))
      ∙ diff_cancels (count_of dec k a) (count_of dec k b)

  -- Adding the difference of two snapshots to the first one gives the counters of the second, in all
  -- and for every layer, its latencies by layer apart.
  pub add-diff :
      (before after : MetricsSnapshot K) (k : K)
      → let s = add_namespace_metrics dec before (diff_namespace_metrics dec before after) in
        (s.counters ≡ after.counters)
        × (count_of dec k s.hits_by_layer ≡ count_of dec k after.hits_by_layer)
        × (count_of dec k s.misses_by_layer ≡ count_of dec k after.misses_by_layer)
  unfolding add_namespace_metrics diff_namespace_metrics
  add-diff before after k = (
    counters-add before.counters after.counters,
    maps-add before.hits_by_layer after.hits_by_layer k,
    maps-add before.misses_by_layer after.misses_by_layer k,
  )
