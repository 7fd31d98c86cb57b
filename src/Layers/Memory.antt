-- ===== src/Layers/Memory.antt =====
-- `MemoryLayer` of src/layers/MemoryLayer.ts, over any type of keys with a decidable equality. `clock`
-- is what `Date.now()` reads during a call; the calls of `onEvict` are recorded in `evicted`, newest
-- first. The methods run to their end with no other call between, so they are functions on the state.
pub mod Eviction
pub mod Invariant
pub mod Writes
pub mod Lfu
pub mod Snapshot
use layercache.Base.{
  ℕ, zero, suc, ◌+◌, ℤ, pos, ◌+ℤ◌, ◌-ℤ◌, ltb_ℤ, leb_ℤ, max_ℤ, Bool, true, false, not, ◌&&◌, ◌||◌,
  ◌==◌, ltb, Option, none, some, if◌then◌else◌, List, [], ◌∷◌, map, keep, length, ite,
}
use layercache.JsMap.{JsMap}
use layercache.JsMap
use layercache.JsValue.{Value, null}
use layercache.StoredValue.Reads.{unwrap_stored_value}

pub data EvictionPolicy : Type 0 where
  lru lfu fifo : EvictionPolicy

pub record MemoryEntry : Type 0 where
  pub value : Value
  pub expires_at : Option ℤ
  pub access_count : ℕ
  pub inserted_at : ℤ

pub record SnapshotEntry (K : Type 0) : Type 0 where
  pub key : K
  pub value : Value
  pub expires_at : Option ℤ

pub record MemoryLayer (K : Type 0) : Type 0 where
  pub default_ttl : Option ℤ
  pub max_size : ℕ
  pub eviction_policy : EvictionPolicy
  pub entries : JsMap K MemoryEntry
  pub evicted : List (K × Value)

unfoldable pub is_expired : ℤ → MemoryEntry → Bool
is_expired clock entry = elim entry.expires_at [ none ↦ false | some z ↦ leb_ℤ z clock ]

-- `ttl && ttl > 0 ? Date.now() + ttl : null`
abbrev pub expiry : ℤ → Option ℤ → Option ℤ
expiry clock none = none
expiry clock (some t) = if ltb_ℤ (pos 0) t then some (clock +ℤ t) else none

-- `Math.max(0, Math.ceil(expiresAt - Date.now()))`
abbrev pub remaining : ℤ → Option ℤ → Option ℤ
remaining clock none = none
remaining clock (some z) = some (max_ℤ (pos 0) (z -ℤ clock))

-- The entry that the loop of the LFU eviction keeps: the key, `minCount` and `minInsertedAt`.
abbrev pub Candidate : Type 0 → Type 0
Candidate K = Option (K × MemoryEntry)

unfoldable pub comes_first : MemoryEntry → MemoryEntry → Bool
comes_first e f =
    ltb e.access_count f.access_count
    || (e.access_count == f.access_count && ltb_ℤ e.inserted_at f.inserted_at)

module _ {K : Type 0} where
  unfoldable pub better : Candidate K → K × MemoryEntry → Candidate K
  better none (k, e) = some (k, e)
  better (some (j, f)) (k, e) = if comes_first e f then some (k, e) else some (j, f)

  unfoldable pub least_used : Candidate K → JsMap K MemoryEntry → Candidate K
  least_used best [] = best
  least_used best (e ∷ m) = least_used (better best e) m

  unfoldable pub prune_expired : ℤ → MemoryLayer K → MemoryLayer K
  prune_expired clock l = record l { entries = keep (λ e. not (is_expired clock e.1)) l.entries }

  -- `keys().next().value`, with its entry
  abbrev pub oldest : JsMap K MemoryEntry → Candidate K
  oldest [] = none
  oldest (e ∷ m) = some e

  -- The entry that the policy removes, and what it removes of this layer.
  unfoldable pub victim_of : EvictionPolicy → JsMap K MemoryEntry → Candidate K
  victim_of lru m = oldest m
  victim_of fifo m = oldest m
  victim_of lfu m = least_used none m

  abbrev pub victim : MemoryLayer K → Candidate K
  victim l = victim_of l.eviction_policy l.entries

  unfoldable pub clear : MemoryLayer K → MemoryLayer K
  clear l = record l { entries = [] }

  unfoldable pub size : ℤ → MemoryLayer K → MemoryLayer K × ℕ
  size clock l = let pruned = prune_expired clock l in (pruned, JsMap.size pruned.entries)

  unfoldable pub keys : ℤ → MemoryLayer K → MemoryLayer K × List K
  keys clock l = let pruned = prune_expired clock l in (pruned, JsMap.keys pruned.entries)

  -- a layer just built
  unfoldable pub init : Option ℤ → Option ℕ → Option EvictionPolicy → MemoryLayer K
  init default_ttl max_size policy = record {
    default_ttl = default_ttl;
    max_size = elim max_size [ none ↦ 1_000 | some n ↦ n ];
    eviction_policy = elim policy [ none ↦ lru | some p ↦ p ];
    entries = [];
    evicted = [];
  }

  unfoldable pub export_state : ℤ → MemoryLayer K → MemoryLayer K × List (SnapshotEntry K)
  export_state clock l =
      let pruned = prune_expired clock l in
      (
        pruned,
        map (λ e. record { key = e.0; value = e.1.value; expires_at = e.1.expires_at })
            pruned.entries,
      )

  -- The entry that a write stores; no lifetime given means the layer's own.
  abbrev pub new_entry : ℤ → Value → Option ℤ → MemoryLayer K → MemoryEntry
  new_entry clock value ttl l = record {
    value = value;
    expires_at = expiry clock (elim ttl [ none ↦ l.default_ttl | some t ↦ some t ]);
    access_count = 0;
    inserted_at = clock;
  }

module _ {K : Type 0} (dec : Discrete K) where
  unfoldable pub evict : ℤ → MemoryLayer K → MemoryLayer K
  evict clock l = elim (victim l) [
    | none ↦ l
    | some (k, e) ↦ record l {
      entries = JsMap.delete dec k l.entries;
      evicted = (k, unwrap_stored_value clock e.value) ∷ l.evicted;
    }
  ]

  -- `while (this.entries.size > this.maxSize) this.evict()`; each round removes an entry, so the size
  -- of the map is fuel enough.
  unfoldable pub evict_loop : ℕ → ℤ → MemoryLayer K → MemoryLayer K
  evict_loop zero clock l = l
  evict_loop (suc fuel) clock l = elim (ltb l.max_size (JsMap.size l.entries)) [
    | true ↦ evict_loop fuel clock (evict clock l)
    | false ↦ l
  ]

  abbrev pub shrink : ℤ → MemoryLayer K → MemoryLayer K
  shrink clock l = evict_loop (JsMap.size l.entries) clock l

  -- What a read does to an entry that is fresh.
  unfoldable pub touch :
      EvictionPolicy → K → MemoryEntry → JsMap K MemoryEntry → JsMap K MemoryEntry
  touch lru k e m =
      JsMap.set dec k (record e { access_count = e.access_count + 1 }) (JsMap.delete dec k m)
  touch lfu k e m = JsMap.set dec k (record e { access_count = e.access_count + 1 }) m
  touch fifo k e m = m

  unfoldable pub get_entry : ℤ → K → MemoryLayer K → MemoryLayer K × Value
  get_entry clock key l = elim (JsMap.get dec key l.entries) [
    | none ↦ (l, null)
    | some e ↦
        if is_expired clock e
        then (record l { entries = JsMap.delete dec key l.entries }, null)
        else (record l { entries = touch l.eviction_policy key e l.entries }, e.value)
  ]

  unfoldable pub get : ℤ → K → MemoryLayer K → MemoryLayer K × Value
  get clock key l = let (l', value) = get_entry clock key l in (l', unwrap_stored_value clock value)

  unfoldable pub get_many : ℤ → List K → MemoryLayer K → MemoryLayer K × List Value
  get_many clock [] l = (l, [])
  get_many clock (key ∷ keys) l =
      let (l', value) = get_entry clock key l in
      let (l'', values) = get_many clock keys l' in (l'', value ∷ values)

  unfoldable pub set : ℤ → K → Value → Option ℤ → MemoryLayer K → MemoryLayer K
  set clock key value ttl l = shrink clock (record l {
    entries = JsMap.set dec key (new_entry clock value ttl l) (JsMap.delete dec key l.entries);
  })

  unfoldable pub set_many : ℤ → List (K × Value × Option ℤ) → MemoryLayer K → MemoryLayer K
  set_many clock [] l = l
  set_many clock ((key, value, ttl) ∷ rest) l = set_many clock rest (set clock key value ttl l)

  -- The shape that `has` and `ttl` share: an expired entry is deleted on the way.
  unfoldable pub has : ℤ → K → MemoryLayer K → MemoryLayer K × Bool
  has clock key l = elim (JsMap.get dec key l.entries) [
    | none ↦ (l, false)
    | some e ↦
        if is_expired clock e
        then (record l { entries = JsMap.delete dec key l.entries }, false)
        else (l, true)
  ]

  unfoldable pub ttl : ℤ → K → MemoryLayer K → MemoryLayer K × Option ℤ
  ttl clock key l = elim (JsMap.get dec key l.entries) [
    | none ↦ (l, none)
    | some e ↦
        if is_expired clock e
        then (record l { entries = JsMap.delete dec key l.entries }, none)
        else (l, remaining clock e.expires_at)
  ]

  unfoldable pub delete : K → MemoryLayer K → MemoryLayer K
  delete key l = record l { entries = JsMap.delete dec key l.entries }

  unfoldable pub delete_many : List K → MemoryLayer K → MemoryLayer K
  delete_many [] l = l
  delete_many (key ∷ keys) l = delete_many keys (delete key l)

  -- The first loop of `importState`, which skips what has expired.
  unfoldable pub import_entries : ℤ → List (SnapshotEntry K) → MemoryLayer K → MemoryLayer K
  import_entries clock [] l = l
  import_entries clock (s ∷ rest) l =
      let e : MemoryEntry = record {
        value = s.value;
        expires_at = s.expires_at;
        access_count = 0;
        inserted_at = clock;
      } in
      import_entries clock rest
        (if is_expired clock e then l else record l { entries = JsMap.set dec s.key e l.entries })

  unfoldable pub import_state : ℤ → List (SnapshotEntry K) → MemoryLayer K → MemoryLayer K
  import_state clock snapshot l = shrink clock (import_entries clock snapshot l)

-- The methods, as calls that a client makes.
pub data Call (K : Type 0) : Type 0 where
  gets has_call ttl_call deletes : K → Call K
  get_manys delete_manys : List K → Call K
  sets : K → Value → Option ℤ → Call K
  set_manys : List (K × Value × Option ℤ) → Call K
  imports : List (SnapshotEntry K) → Call K
  clears sizes lists_keys exports : Call K

module _ {K : Type 0} (dec : Discrete K) where
  -- A call at a time, and a sequence of them.
  unfoldable pub step : MemoryLayer K → ℤ × Call K → MemoryLayer K
  step l (clock, gets k) = (get dec clock k l).0
  step l (clock, has_call k) = (has dec clock k l).0
  step l (clock, ttl_call k) = (ttl dec clock k l).0
  step l (clock, deletes k) = delete dec k l
  step l (clock, get_manys ks) = (get_many dec clock ks l).0
  step l (clock, delete_manys ks) = delete_many dec ks l
  step l (clock, sets k v t) = set dec clock k v t l
  step l (clock, set_manys es) = set_many dec clock es l
  step l (clock, imports es) = import_state dec clock es l
  step l (clock, clears) = clear l
  step l (clock, sizes) = (size clock l).0
  step l (clock, lists_keys) = (keys clock l).0
  step l (clock, exports) = (export_state clock l).0

  unfoldable pub run : MemoryLayer K → List (ℤ × Call K) → MemoryLayer K
  run l [] = l
  run l (c ∷ cs) = run (step l c) cs
