-- ===== src/Layers/Memory/Snapshot.antt =====
-- Expiry, and the snapshots of src/layers/MemoryLayer.ts: `pruneExpired`, `exportState`, `importState`.
use layercache.Base.{
  suc, ◌+◌, ◌≤◌, ℤ, false, not, map, Option, none, some, if◌then◌else◌, [], ◌∷◌, ◌++◌, keep, length,
  ◌≡◌, ◌≢◌, refl, inl, inr, arith, Bool-cases, Option-cases, sym, ap, subst, ◌∙◌, All,
}
use layercache.JsMap.{JsMap}
use layercache.JsMap
use mathlib.Core.List.{append-nil, append_assoc}
use layercache.JsMap.Laws.{
  get-delete, get-set, get-keep-none, keep-IsDistinct, set_absent, get-append,
}
use layercache.JsValue.{Value, null}
use layercache.Layers.Memory.{
  lru, lfu, fifo, EvictionPolicy, MemoryEntry, MemoryLayer, SnapshotEntry, is_expired, get_entry,
  touch, prune_expired, export_state, import_state, import_entries,
}
use layercache.Layers.Memory.Invariant.{IsValid}
use layercache.Layers.Memory.Writes.{evict_loop_done}

-- What a reader may see of an entry.
abbrev pub live : ℤ → Option MemoryEntry → Option MemoryEntry
live clock none = none
live clock (some e) = if is_expired clock e then none else some e

abbrev pub value_of : Option MemoryEntry → Value
value_of none = null
value_of (some e) = e.value

module _ {K : Type 0} (dec : Discrete K) where
  get-keep :
      (clock : ℤ) (k : K) (m : JsMap K MemoryEntry)
      → JsMap.IsDistinct dec m
      → JsMap.get dec k (keep (λ e. not (is_expired clock e.1)) m) ≡ live clock (JsMap.get dec k m)
  unfolding JsMap.get
  get-keep clock k [] d = refl
  get-keep clock k ((j, e) ∷ m) d = ground (
    arith,
    get-keep clock k m d.1,
    get-keep-none dec (λ e. not (is_expired clock e.1)) j m d.0,
    get-keep-none dec (λ e. not (is_expired clock e.1)) k m,
  )

  -- Pruning removes the entries that have expired, and no other: every key then has the entry that a
  -- reader could still see.
  pub get-prune_expired :
      (clock : ℤ) (k : K) (l : MemoryLayer K)
      → IsValid dec l
      → JsMap.get dec k (prune_expired clock l).entries ≡ live clock (JsMap.get dec k l.entries)
  unfolding prune_expired
  get-prune_expired clock k l v = get-keep clock k l.entries v.distinct

  get-touch_other :
      (p : EvictionPolicy) (j k : K) (e : MemoryEntry) (m : JsMap K MemoryEntry)
      → j ≢ k
      → JsMap.get dec j (touch dec p k e m) ≡ JsMap.get dec j m
  unfolding touch
  get-touch_other lru j k e m h = ground (
    arith,
    get-set dec j k (record e { access_count = e.access_count + 1 }) (JsMap.delete dec k m),
    get-delete dec j k m,
  )
  get-touch_other lfu j k e m h =
      ground (arith, get-set dec j k (record e { access_count = e.access_count + 1 }) m)
  get-touch_other fifo j k e m h = refl

  -- A read returns the value stored under the key unless it has expired, and null otherwise, and it
  -- leaves every other key as it is.
  pub get_entry_lem :
      (clock : ℤ) (j k : K) (l : MemoryLayer K)
      → j ≢ k
      → ((get_entry dec clock k l).1 ≡ value_of (live clock (JsMap.get dec k l.entries)))
        × (JsMap.get dec j (get_entry dec clock k l).0.entries ≡ JsMap.get dec j l.entries)
  unfolding get_entry
  get_entry_lem clock j k l h = elim (Option-cases (JsMap.get dec k l.entries)) [
    | inl e ↦ rw (e, get_entry) (refl, refl)
    | inr (e, p) ↦
        rw (p, get_entry)
          (
            ground (
              arith,
              get-touch_other l.eviction_policy j k e l.entries h,
              get-delete dec j k l.entries,
            ),
            ground (
              arith,
              get-touch_other l.eviction_policy j k e l.entries h,
              get-delete dec j k l.entries,
            ),
          )
  ]

  -- An entry as an import stores it.
  abbrev pub imported : ℤ → K × MemoryEntry → K × MemoryEntry
  imported clock x = (x.0, record (x.1) { access_count = 0; inserted_at = clock })

  abbrev snapshot_of : K × MemoryEntry → SnapshotEntry K
  snapshot_of e = record { key = e.0; value = e.1.value; expires_at = e.1.expires_at }

  -- No key of the first map stands in the second.
  abbrev Apart : JsMap K MemoryEntry → JsMap K MemoryEntry → Type 0
  Apart [] acc = Unit
  Apart ((k, e) ∷ m) acc = (JsMap.get dec k acc ≡ none) × Apart m acc

  Apart-append :
      (k : K) (e : MemoryEntry) (m acc : JsMap K MemoryEntry)
      → JsMap.get dec k m ≡ none
      → JsMap.get dec k acc ≡ none
      → Apart m acc
      → Apart m (acc ++ (k, e) ∷ [])
  unfolding JsMap.get
  Apart-append k e [] acc h a d = tt
  Apart-append k e ((j, f) ∷ m) acc h a d =
      (ground (arith, get-append dec j k e acc a), Apart-append k e m acc (ground arith) a d.1)

  import_entries-append :
      (clock : ℤ) (m : JsMap K MemoryEntry) (l : MemoryLayer K)
      → JsMap.IsDistinct dec m
      → Apart m l.entries
      → All (λ e. is_expired clock e.1 ≡ false) m
      → import_entries dec clock (map snapshot_of m) l
        ≡ record l { entries = l.entries ++ map (imported clock) m }
  unfolding import_entries
  import_entries-append clock [] l d a f = rw append-nil refl
  import_entries-append clock ((k, e) ∷ m) l d a f =
      let e' = record e { access_count = 0; inserted_at = clock } in
      let fresh : is_expired clock e' ≡ false = unfold is_expired in f.0 in
      let l' = record l { entries = l.entries ++ (k, e') ∷ [] } in
      rw (fresh, import_entries, set_absent dec k e' l.entries a.0)
        (import_entries-append clock m l' d.1 (Apart-append k e' m l.entries d.0 a.0 a.1) f.1
          ∙ ap (λ m. record l { entries = m })
              (append_assoc l.entries ((k, e') ∷ []) (map (imported clock) m)))

  kept-fresh :
      (clock : ℤ) (m : JsMap K MemoryEntry)
      → All (λ e. is_expired clock e.1 ≡ false) (keep (λ e. not (is_expired clock e.1)) m)
  kept-fresh clock [] = tt
  kept-fresh clock (e ∷ m) = elim (Bool-cases (is_expired clock e.1)) [
    | inl old ↦ rw old (kept-fresh clock m)
    | inr new ↦ rw new (new, kept-fresh clock m)
  ]

  Apart-nil : (m : JsMap K MemoryEntry) → Apart m []
  unfolding JsMap.get
  Apart-nil [] = tt
  Apart-nil (e ∷ m) = (refl, Apart-nil m)

  length-map :
      (f : K × MemoryEntry → K × MemoryEntry) (m : JsMap K MemoryEntry)
      → length (map f m) ≡ length m
  length-map f [] = refl
  length-map f (x ∷ m) = ap suc (length-map f m)

  -- A snapshot of a layer, imported at the same time into an empty layer that is large enough, brings
  -- back every entry that has not expired, in its order, with its value and its deadline; only the
  -- access counts and the times of insertion start anew.
  pub import_state-export_state :
      (clock : ℤ) (l target : MemoryLayer K)
      → IsValid dec l
      → target.entries ≡ []
      → JsMap.size (prune_expired clock l).entries ≤ target.max_size
      → (import_state dec clock (export_state clock l).1 target).entries
        ≡ map (imported clock) (prune_expired clock l).entries
  unfolding import_state export_state prune_expired
  import_state-export_state clock l target v empty fits =
      let m = keep (λ e. not (is_expired clock e.1)) l.entries in
      let done =
        import_entries-append clock m target
          (keep-IsDistinct dec (λ e. not (is_expired clock e.1)) l.entries v.distinct)
          (subst (Apart m) (sym empty) (Apart-nil m)) (kept-fresh clock l.entries) in
      rw done (
        rw empty (
          ap (λ r. r.entries)
            (evict_loop_done dec (length (map (imported clock) m)) clock
              (record target { entries = map (imported clock) m })
              (omega (arith, length-map (imported clock) m)))))
