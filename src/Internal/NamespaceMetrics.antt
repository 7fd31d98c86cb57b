-- ===== src/Internal/NamespaceMetrics.antt =====
-- src/internal/CacheNamespaceMetrics.ts: snapshots of counters, their differences and sums. Counters
-- are integers; a latency is a pair of whole numbers with its count, and layers are named by texts.
pub mod Sums
use layercache.Base.{
  ℕ, zero, suc, ◌-◌, ℤ, pos, ◌+ℤ◌, ◌-ℤ◌, or_else, Option, none, some, List, [], ◌∷◌, ◌++◌, map,
}
use layercache.JsMap.{JsMap}
use layercache.JsMap

pub record LayerLatency : Type 0 where
  pub avg_ms : ℤ
  pub max_ms : ℤ
  pub count : ℕ

-- The counters of a `CacheMetricsSnapshot`, without its maps.
pub record Counters : Type 0 where
  pub hits : ℤ
  pub misses : ℤ
  pub fetches : ℤ
  pub sets : ℤ
  pub deletes : ℤ
  pub backfills : ℤ
  pub invalidations : ℤ
  pub stale_hits : ℤ
  pub refreshes : ℤ
  pub refresh_errors : ℤ
  pub write_failures : ℤ
  pub single_flight_waits : ℤ
  pub negative_cache_hits : ℤ
  pub circuit_breaker_trips : ℤ
  pub degraded_operations : ℤ

pub record MetricsSnapshot (K : Type 0) : Type 0 where
  pub counters : Counters
  pub hits_by_layer : JsMap K ℤ
  pub misses_by_layer : JsMap K ℤ
  pub latency_by_layer : JsMap K LayerLatency
  pub reset_at : ℕ

-- the same operation on every counter
abbrev pub each_counter : (ℤ → ℤ → ℤ) → Counters → Counters → Counters
each_counter f a b = record {
  hits = f a.hits b.hits;
  misses = f a.misses b.misses;
  fetches = f a.fetches b.fetches;
  sets = f a.sets b.sets;
  deletes = f a.deletes b.deletes;
  backfills = f a.backfills b.backfills;
  invalidations = f a.invalidations b.invalidations;
  stale_hits = f a.stale_hits b.stale_hits;
  refreshes = f a.refreshes b.refreshes;
  refresh_errors = f a.refresh_errors b.refresh_errors;
  write_failures = f a.write_failures b.write_failures;
  single_flight_waits = f a.single_flight_waits b.single_flight_waits;
  negative_cache_hits = f a.negative_cache_hits b.negative_cache_hits;
  circuit_breaker_trips = f a.circuit_breaker_trips b.circuit_breaker_trips;
  degraded_operations = f a.degraded_operations b.degraded_operations;
}

abbrev pub no_counts : Counters
no_counts = record {
  hits = pos 0;
  misses = pos 0;
  fetches = pos 0;
  sets = pos 0;
  deletes = pos 0;
  backfills = pos 0;
  invalidations = pos 0;
  stale_hits = pos 0;
  refreshes = pos 0;
  refresh_errors = pos 0;
  write_failures = pos 0;
  single_flight_waits = pos 0;
  negative_cache_hits = pos 0;
  circuit_breaker_trips = pos 0;
  degraded_operations = pos 0;
}

unfoldable pub create_empty_namespace_metrics : {K : Type 0} → ℕ → MetricsSnapshot K
create_empty_namespace_metrics reset_at = record {
  counters = no_counts;
  hits_by_layer = [];
  misses_by_layer = [];
  latency_by_layer = [];
  reset_at = reset_at;
}

module _ {K : Type 0} (dec : Discrete K) where
  -- `map[key] ?? 0`
  abbrev pub count_of : K → JsMap K ℤ → ℤ
  count_of k m = elim (JsMap.get dec k m) [ none ↦ pos 0 | some n ↦ n ]

  -- The loop that `diffMetricMap` and `addMetricMap` share, over the keys of both maps; a key that
  -- comes twice is set again to the same number.
  unfoldable pub combine : (ℤ → ℤ → ℤ) → List K → JsMap K ℤ → JsMap K ℤ → JsMap K ℤ → JsMap K ℤ
  combine f [] a b result = result
  combine f (k ∷ ks) a b result =
      combine f ks a b (JsMap.set dec k (f (count_of k a) (count_of k b)) result)

  unfoldable pub diff_metric_map : JsMap K ℤ → JsMap K ℤ → JsMap K ℤ
  diff_metric_map before after =
      combine (λ x y. y -ℤ x) (JsMap.keys before ++ JsMap.keys after) before after []

  unfoldable pub add_metric_map : JsMap K ℤ → JsMap K ℤ → JsMap K ℤ
  add_metric_map base delta =
      combine (λ x y. x +ℤ y) (JsMap.keys base ++ JsMap.keys delta) base delta []

  -- `Math.max(0, value.count - (before?.count ?? 0))`
  unfoldable pub diff_latency : JsMap K LayerLatency → JsMap K LayerLatency → JsMap K LayerLatency
  diff_latency before [] = []
  diff_latency before ((k, v) ∷ after) =
      let count : ℕ = elim (JsMap.get dec k before) [ none ↦ 0 | some w ↦ w.count ] in
      (k, record v { count = v.count - count }) ∷ diff_latency before after

  unfoldable pub diff_namespace_metrics : MetricsSnapshot K → MetricsSnapshot K → MetricsSnapshot K
  diff_namespace_metrics before after = record {
    counters = each_counter (λ x y. y -ℤ x) before.counters after.counters;
    hits_by_layer = diff_metric_map before.hits_by_layer after.hits_by_layer;
    misses_by_layer = diff_metric_map before.misses_by_layer after.misses_by_layer;
    latency_by_layer = diff_latency before.latency_by_layer after.latency_by_layer;
    reset_at = after.reset_at;
  }

  unfoldable pub add_namespace_metrics : MetricsSnapshot K → MetricsSnapshot K → MetricsSnapshot K
  add_namespace_metrics base delta = record {
    counters = each_counter (λ x y. x +ℤ y) base.counters delta.counters;
    hits_by_layer = add_metric_map base.hits_by_layer delta.hits_by_layer;
    misses_by_layer = add_metric_map base.misses_by_layer delta.misses_by_layer;
    latency_by_layer = delta.latency_by_layer;
    reset_at = base.reset_at;
  }
