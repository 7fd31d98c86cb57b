-- ===== src/Tests/Memory.antt =====
-- Inputs for what is proved of src/layers/MemoryLayer.ts.
use layercache.Base.{ℕ, ℤ, pos, Option, none, some, [], ◌∷◌, ◌≡◌, ◌≢◌, refl, arith, ℕ_discrete}
use layercache.JsMap
use layercache.JsValue.{Value, num, finite}
use layercache.Layers.Memory.{
  EvictionPolicy, lru, lfu, MemoryEntry, MemoryLayer, SnapshotEntry, prune_expired, is_expired,
  get_entry, import_state, export_state, least_used, new_entry, victim_of,
}
use layercache.Layers.Memory
use layercache.StoredValue.Reads.{unwrap_stored_value}
use layercache.StoredValue.{as_stored_value_envelope}
use layercache.Layers.Memory.Invariant.{IsValid, run-init-IsValid}
use layercache.Layers.Memory.Lfu.{set-full_lfu}
use layercache.Layers.Memory.Snapshot.{import_state-export_state}

abbrev number : ℕ → Value
number n = num (finite (pos n))

abbrev entry : ℕ → Option ℤ → ℕ → MemoryEntry
entry n expires count = record {
  value = number n;
  expires_at = expires;
  access_count = count;
  inserted_at = pos n;
}

-- two keys: 1 expires at 50, 2 never does
abbrev layer : EvictionPolicy → MemoryLayer ℕ
layer p = record {
  default_ttl = some (pos 10);
  max_size = 2;
  eviction_policy = p;
  entries = (1, entry 1 (some (pos 50)) 4) ∷ (2, entry 2 none 3) ∷ [];
  evicted = [];
}

abbrev empty_layer : MemoryLayer ℕ
empty_layer = record (layer lru) { entries = [] }

layer-IsValid : (p : EvictionPolicy) → IsValid ℕ_discrete (layer p)
unfolding JsMap.get ℕ_discrete
layer-IsValid p = record { distinct = (refl, (refl, tt)); bounded = omega arith }

not_lfu : lru ≢ lfu
not_lfu h = absurd (ground arith)

run-init-IsValid_example : IsValid ℕ_discrete (
    Memory.run ℕ_discrete
      (Memory.init none (some 0) (some lfu))
      ((pos 5, Memory.sets 1 (number 1) none) ∷ (pos 6, Memory.gets 1) ∷ []))
run-init-IsValid_example =
    run-init-IsValid ℕ_discrete none (some 0) (some lfu)
      ((pos 5, Memory.sets 1 (number 1) none) ∷ (pos 6, Memory.gets 1) ∷ [])

set-full_lfu_example :
    ((Memory.set ℕ_discrete (pos 9) 3 (number 3) none (layer lfu)).entries ≡ (layer lfu).entries)
    × ((Memory.set ℕ_discrete (pos 9) 3 (number 3) none (layer lfu)).evicted ≡ (3, number 3) ∷ [])
unfolding JsMap.get ℕ_discrete unwrap_stored_value as_stored_value_envelope
set-full_lfu_example =
    set-full_lfu ℕ_discrete (pos 9) 3 (number 3) none (layer lfu) (layer-IsValid lfu) refl refl refl
      (omega arith, (omega arith, tt))

import_state-export_state_example :
    (import_state ℕ_discrete (pos 60) (export_state (pos 60) (layer lru)).1 empty_layer).entries
    ≡ (2, record { value = number 2; expires_at = none; access_count = 0; inserted_at = pos 60 })
      ∷ []
unfolding prune_expired is_expired
import_state-export_state_example =
    import_state-export_state ℕ_discrete (pos 60) (layer lru) empty_layer (layer-IsValid lru) refl
      (omega arith)
