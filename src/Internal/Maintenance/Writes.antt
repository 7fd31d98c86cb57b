-- ===== src/Internal/Maintenance/Writes.antt =====
-- `runSerializedWrites` of src/internal/CacheStackMaintenance.ts: the admission of a write, and what its
-- end does to the bookkeeping. A tail promise is represented by a number. The order in which the code
-- sorts the keys is a parameter.
pub mod Admission
use layercache.Base.{
  ℕ, zero, suc, ◌+◌, ◌-◌, Bool, true, false, ◌||◌, ◌==◌, ltb, or_else, is_some, Option, none, some,
  if◌then◌else◌, List, [], ◌∷◌, length,
}
use layercache.JsMap.{JsMap}
use layercache.JsMap

pub record Writes (K : Type 0) : Type 0 where
  pub write_chains : JsMap K ℕ
  pub pending_writes_by_key : JsMap K ℕ
  pub pending_write_units : ℕ
  pub max_pending_writes : ℕ
  pub max_active_write_keys : ℕ
  pub max_pending_writes_per_key : ℕ
  pub next_tail : ℕ

abbrev pub init : {K : Type 0} → Option ℕ → Option ℕ → Option ℕ → Writes K
init max_pending_writes max_active_keys max_pending_writes_per_key = record {
  write_chains = [];
  pending_writes_by_key = [];
  pending_write_units = 0;
  max_pending_writes = or_else max_pending_writes 10_000;
  max_active_write_keys = or_else max_active_keys 10_000;
  max_pending_writes_per_key = or_else max_pending_writes_per_key 1_000;
  next_tail = 0;
}

-- `CacheWriteSaturationError`, by its reason
pub data Saturation : Type 0 where
  pending_writes active_keys per_key : Saturation

-- An admitted write has its sorted keys, its tail, and the tails that it waits for.
pub data Outcome (K : Type 0) : Type 0 where
  unserialized : Outcome K
  saturated : Saturation → Outcome K
  admitted : List K → ℕ → List ℕ → Outcome K

module _ {K : Type 0} (dec : Discrete K) where
  -- `[...new Set(keys)]`
  unfoldable pub unique : List K → JsMap K (Unit {0}) → List K
  unique [] seen = JsMap.keys seen
  unique (k ∷ ks) seen = unique ks (JsMap.set dec k tt seen)

  unfoldable pub new_active_keys : List K → Writes K → ℕ
  new_active_keys [] w = 0
  new_active_keys (k ∷ ks) w =
      if JsMap.has dec k w.write_chains then new_active_keys ks w else new_active_keys ks w + 1

  abbrev pub depth : K → Writes K → ℕ
  depth k w = or_else (JsMap.get dec k w.pending_writes_by_key) 0

  unfoldable pub any_full : List K → Writes K → Bool
  any_full [] w = false
  any_full (k ∷ ks) w = ltb w.max_pending_writes_per_key (depth k w + 1) || any_full ks w

  unfoldable pub count_keys : List K → JsMap K ℕ → JsMap K ℕ
  count_keys [] m = m
  count_keys (k ∷ ks) m = count_keys ks (JsMap.set dec k (or_else (JsMap.get dec k m) 0 + 1) m)

  unfoldable pub set_tails : ℕ → List K → JsMap K ℕ → JsMap K ℕ
  set_tails tail [] m = m
  set_tails tail (k ∷ ks) m = set_tails tail ks (JsMap.set dec k tail m)

  abbrev pub is_listed : ℕ → List ℕ → Bool
  is_listed t [] = false
  is_listed t (u ∷ us) = t == u || is_listed t us

  -- `[...new Set(uniqueKeys.map(get).filter(defined))]`
  unfoldable pub previous_tails : List K → List ℕ → JsMap K ℕ → List ℕ
  previous_tails [] found m = []
  previous_tails (k ∷ ks) found m = elim (JsMap.get dec k m) [
    | none ↦ previous_tails ks found m
    | some t ↦
        if is_listed t found then previous_tails ks found m else t ∷ previous_tails ks (t ∷ found) m
  ]

  -- The bookkeeping of an admitted write.
  abbrev pub admit : List K → Writes K → Writes K
  admit keys w = record w {
    pending_write_units = w.pending_write_units + length keys;
    pending_writes_by_key = count_keys keys w.pending_writes_by_key;
    write_chains = set_tails w.next_tail keys w.write_chains;
    next_tail = w.next_tail + 1;
  }

  -- `keys` are the unique keys, sorted.
  unfoldable pub run_sorted : List K → Writes K → Writes K × Outcome K
  run_sorted [] w = (w, unserialized)
  run_sorted (k ∷ ks) w =
      if ltb w.max_pending_writes (w.pending_write_units + length (k ∷ ks))
      then (w, saturated pending_writes)
      else if ltb w.max_active_write_keys (JsMap.size w.write_chains + new_active_keys (k ∷ ks) w)
      then (w, saturated active_keys)
      else if any_full (k ∷ ks) w
      then (w, saturated per_key)
      else (
        admit (k ∷ ks) w,
        admitted (k ∷ ks) w.next_tail (previous_tails (k ∷ ks) [] w.write_chains),
      )

  unfoldable pub run_serialized_writes :
      (List K → List K) → List K → Writes K → Writes K × Outcome K
  run_serialized_writes sort keys w = run_sorted (sort (unique keys [])) w

  -- `tail.finally`
  unfoldable pub release_keys : ℕ → List K → Writes K → Writes K
  release_keys tail [] w = w
  release_keys tail (k ∷ ks) w =
      let d = or_else (JsMap.get dec k w.pending_writes_by_key) 1 - 1 in
      let pending : JsMap K ℕ =
        if d == 0
        then JsMap.delete dec k w.pending_writes_by_key
        else JsMap.set dec k d w.pending_writes_by_key in
      let chains : JsMap K ℕ = elim (JsMap.get dec k w.write_chains) [
        | none ↦ w.write_chains
        | some t ↦ if t == tail then JsMap.delete dec k w.write_chains else w.write_chains
      ] in
      release_keys tail ks (record w { pending_writes_by_key = pending; write_chains = chains })

  unfoldable pub settle : ℕ → List K → Writes K → Writes K
  settle tail keys w =
      release_keys tail keys
        (record w { pending_write_units = w.pending_write_units - length keys })

-- The outstanding writes beside the bookkeeping: a write comes, or the oldest, the second oldest and so
-- on of the outstanding ones ends.
pub record History (K : Type 0) : Type 0 where
  pub writes : Writes K
  pub outstanding : List (ℕ × List K)

pub data Event (K : Type 0) : Type 0 where
  writes_to : List K → Event K
  ends : ℕ → Event K

abbrev pub nth : {A : Type 0} → ℕ → List A → Option A
nth n [] = none
nth zero (x ∷ xs) = some x
nth (suc n) (x ∷ xs) = nth n xs

abbrev pub without_nth : {A : Type 0} → ℕ → List A → List A
without_nth n [] = []
without_nth zero (x ∷ xs) = xs
without_nth (suc n) (x ∷ xs) = x ∷ without_nth n xs

module _ {K : Type 0} (dec : Discrete K) (sort : List K → List K) where
  abbrev pub record_outcome : Writes K × Outcome K → List (ℕ × List K) → History K
  record_outcome (w, unserialized) out = record { writes = w; outstanding = out }
  record_outcome (w, saturated s) out = record { writes = w; outstanding = out }
  record_outcome (w, admitted ks t p) out = record { writes = w; outstanding = (t, ks) ∷ out }

  unfoldable pub step : History K → Event K → History K
  step h (writes_to keys) =
      record_outcome (run_serialized_writes dec sort keys h.writes) h.outstanding
  step h (ends n) = elim (nth n h.outstanding) [
    | none ↦ h
    | some (t, keys) ↦ record {
      writes = settle dec t keys h.writes;
      outstanding = without_nth n h.outstanding;
    }
  ]

  unfoldable pub run : History K → List (Event K) → History K
  run h [] = h
  run h (e ∷ es) = run (step h e) es
