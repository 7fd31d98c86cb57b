-- ===== src/Tests/Parts.antt =====
-- Inputs for the tag index, the stampede guard, the serialized writes, lifetimes, policies and metrics.
use layercache.Base.{ℕ, ◌≤◌, pos, true, false, none, some, List, [], ◌∷◌, ◌≡◌, ℕ_discrete}
use layercache.JsMap
use mathlib.Core.List.{List-discrete}
use layercache.Invalidation.TagIndex
use layercache.Invalidation.TagIndex.{Text}
use layercache.Invalidation.TagIndex.Tree.{Trie, node, leaf, child}
use layercache.Invalidation.TagIndex.Tree.Words.{has_word}
use layercache.Invalidation.TagIndex.Known.{run-init-Agrees}
use layercache.Stampede
use layercache.Stampede.Limits.{unsettled, active_tasks-run}
use layercache.Internal.Maintenance.Writes
use layercache.Internal.Maintenance.Writes.Admission.{units, pending_write_units-run}
use layercache.Internal.TtlResolver.{TtlResolver}
use layercache.Internal.NamespaceMetrics.{
  MetricsSnapshot, count_of, add_namespace_metrics, diff_namespace_metrics, no_counts,
}
use layercache.Internal.NamespaceMetrics.Sums.{add-diff}

abbrev text_dec : Discrete Text
text_dec = List-discrete ℕ_discrete

abbrev index_calls : List (ℕ × TagIndex.Call)
index_calls =
    (1, TagIndex.tracks (7 ∷ 8 ∷ []) ((3 ∷ []) ∷ []))
    ∷ (2, TagIndex.touches (7 ∷ []))
    ∷ (3, TagIndex.removes (7 ∷ 8 ∷ []))
    ∷ []

run-init-Agrees_example :
    let s = TagIndex.run text_dec (TagIndex.init none none) index_calls in
    has_word (7 ∷ []) s.root ≡ JsMap.has text_dec (7 ∷ []) s.known_keys
run-init-Agrees_example = run-init-Agrees text_dec none none index_calls (7 ∷ [])

-- the keys 7 and 7 8
abbrev two_keys : Trie
two_keys = node false (child 7 (node true (child 8 (node true leaf) leaf)) leaf)

abbrev guard_events : List (Stampede.Event ℕ)
guard_events =
    Stampede.executes 4
    ∷ Stampede.times_out 4 0
    ∷ Stampede.executes 4
    ∷ Stampede.executes 5
    ∷ Stampede.settles 4 0
    ∷ []

active_tasks-run_example :
    let g = Stampede.run ℕ_discrete (Stampede.init (some 2)) guard_events in
    (g.active_tasks ≡ unsettled g.entries) × (g.active_tasks ≤ g.max_in_flight)
active_tasks-run_example = active_tasks-run ℕ_discrete (some 2) guard_events

abbrev write_events : List (Writes.Event ℕ)
write_events = Writes.writes_to (1 ∷ 2 ∷ []) ∷ Writes.writes_to (2 ∷ 2 ∷ []) ∷ Writes.ends 1 ∷ []

pending_write_units-run_example :
    let h =
      Writes.run ℕ_discrete
        (λ ks. ks)
        (record { writes = Writes.init (some 3) none none; outstanding = [] })
        write_events in
    (h.writes.pending_write_units ≡ units h.outstanding)
    × (h.writes.pending_write_units ≤ h.writes.max_pending_writes)
pending_write_units-run_example =
    pending_write_units-run ℕ_discrete (λ ks. ks) (some 3) none none write_events

abbrev one_profile : TtlResolver ℕ
one_profile = record {
  access_profiles = (1, record { hits = 2; last_access_at = 5 }) ∷ [];
  max_profile_entries = 1;
}

abbrev earlier : MetricsSnapshot ℕ
earlier = record {
  counters = record no_counts { hits = pos 2 };
  hits_by_layer = (0, pos 2) ∷ [];
  misses_by_layer = [];
  latency_by_layer = [];
  reset_at = 1;
}

abbrev later : MetricsSnapshot ℕ
later = record earlier { hits_by_layer = (1, pos 1) ∷ (0, pos 4) ∷ [] }

add-diff_example :
    let s =
      add_namespace_metrics ℕ_discrete earlier (diff_namespace_metrics ℕ_discrete earlier later) in
    (s.counters ≡ later.counters)
    × (count_of ℕ_discrete 1 s.hits_by_layer ≡ count_of ℕ_discrete 1 later.hits_by_layer)
    × (count_of ℕ_discrete 1 s.misses_by_layer ≡ count_of ℕ_discrete 1 later.misses_by_layer)
add-diff_example = add-diff ℕ_discrete earlier later 1
