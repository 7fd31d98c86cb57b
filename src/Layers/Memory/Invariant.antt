-- ===== src/Layers/Memory/Invariant.antt =====
-- The invariant of `MemoryLayer` of src/layers/MemoryLayer.ts.
use layercache.Base.{
  ℕ, zero, suc, ◌+◌, ◌≤◌, ℤ, not, ltb, Option, some, List, [], ◌∷◌, length-keep-le, ◌≡◌, refl, inl,
  inr, arith, Bool-cases, Option-cases, ◌∙◌,
}
use layercache.JsMap.{JsMap}
use layercache.JsMap
use layercache.JsMap.Laws.{
  size-delete, size-delete-le, size-set, get-delete, set-IsDistinct, delete-IsDistinct,
  keep-IsDistinct,
}
use layercache.JsValue.{Value}
use layercache.Layers.Memory.{
  EvictionPolicy, lru, lfu, fifo, MemoryEntry, MemoryLayer, SnapshotEntry, victim, evict,
  evict_loop, shrink, touch, is_expired, prune_expired, new_entry,
}
use layercache.Layers.Memory
use layercache.Layers.Memory.Eviction.{size-evict}

module _ {K : Type 0} (dec : Discrete K) where
  -- No key twice, and no more entries than allowed.
  pub record IsValid (l : MemoryLayer K) : Type 0 where
    pub distinct : JsMap.IsDistinct dec l.entries
    pub bounded : JsMap.size l.entries ≤ l.max_size

  pub evict-IsDistinct :
      (clock : ℤ) (l : MemoryLayer K)
      → JsMap.IsDistinct dec l.entries
      → JsMap.IsDistinct dec (evict dec clock l).entries
  unfolding evict
  evict-IsDistinct clock l d = elim (Option-cases (victim l)) [
    | inl e ↦ rw (e, evict) d
    | inr (x, e) ↦ rw (e, evict) (delete-IsDistinct dec x.0 l.entries d)
  ]

  pub max_size-evict : (clock : ℤ) (l : MemoryLayer K) → (evict dec clock l).max_size ≡ l.max_size
  unfolding evict
  max_size-evict clock l = elim (Option-cases (victim l)) [
    | inl e ↦ rw (e, evict)
    | inr (x, e) ↦ rw (e, evict)
  ]

  evict_loop-IsValid :
      (fuel : ℕ) (clock : ℤ) (l : MemoryLayer K)
      → JsMap.IsDistinct dec l.entries
      → JsMap.size l.entries ≤ l.max_size + fuel
      → IsValid (evict_loop dec fuel clock l)
        × ((evict_loop dec fuel clock l).max_size ≡ l.max_size)
  unfolding evict_loop
  evict_loop-IsValid zero clock l d h = (record { distinct = d; bounded = omega arith }, refl)
  evict_loop-IsValid (suc fuel) clock l d h =
      elim (Bool-cases (ltb l.max_size (JsMap.size l.entries))) [
        | inl more ↦
            let smaller = size-evict dec clock l d (ground arith) in
            let same = max_size-evict clock l in
            let (v, e) =
              evict_loop-IsValid fuel clock (evict dec clock l) (evict-IsDistinct clock l d)
                (omega arith) in
            rw (more, evict_loop) (v, e ∙ same)
        | inr done ↦ rw (done, evict_loop) (record { distinct = d; bounded = ground arith }, refl)
      ]

  -- The loop of evictions ends with the map within its bound, whatever it began with.
  pub shrink-IsValid :
      (clock : ℤ) (l : MemoryLayer K)
      → JsMap.IsDistinct dec l.entries
      → IsValid (shrink dec clock l)
  shrink-IsValid clock l d = (evict_loop-IsValid (JsMap.size l.entries) clock l d (omega arith)).0

  pub touch-IsDistinct :
      (p : EvictionPolicy) (k : K) (e : MemoryEntry) (m : JsMap K MemoryEntry)
      → JsMap.IsDistinct dec m
      → JsMap.IsDistinct dec (touch dec p k e m)
  unfolding touch
  touch-IsDistinct lru k e m d = set-IsDistinct dec k _ _ (delete-IsDistinct dec k m d)
  touch-IsDistinct lfu k e m d = set-IsDistinct dec k _ m d
  touch-IsDistinct fifo k e m d = d

  pub size-touch :
      (p : EvictionPolicy) (k : K) (e : MemoryEntry) (m : JsMap K MemoryEntry)
      → JsMap.IsDistinct dec m
      → JsMap.get dec k m ≡ some e
      → JsMap.size (touch dec p k e m) ≡ JsMap.size m
  unfolding touch
  size-touch lru k e m d h = ground (
    arith,
    size-set dec k (record e { access_count = e.access_count + 1 }) (JsMap.delete dec k m),
    size-delete dec k m d,
    get-delete dec k k m,
  )
  size-touch lfu k e m d h =
      ground (arith, size-set dec k (record e { access_count = e.access_count + 1 }) m)
  size-touch fifo k e m d h = refl

  delete-IsValid : (k : K) (l : MemoryLayer K) → IsValid l → IsValid (Memory.delete dec k l)
  unfolding Memory.delete
  delete-IsValid k l v = record {
    distinct = delete-IsDistinct dec k l.entries v.distinct;
    bounded = omega (arith, v.bounded, size-delete-le dec k l.entries);
  }

  get_entry-IsValid :
      (clock : ℤ) (k : K) (l : MemoryLayer K)
      → IsValid l
      → IsValid (Memory.get_entry dec clock k l).0
  unfolding Memory.get_entry
  get_entry-IsValid clock k l v = elim (Option-cases (JsMap.get dec k l.entries)) [
    | inl none_lem ↦ rw (none_lem, Memory.get_entry) v
    | inr (e, some_lem) ↦ elim (Bool-cases (is_expired clock e)) [
      | inl old ↦
          rw (some_lem, old, Memory.get_entry) (unfold Memory.delete in delete-IsValid k l v)
      | inr new ↦
          rw (some_lem, new, Memory.get_entry)
            (record {
              distinct = touch-IsDistinct l.eviction_policy k e l.entries v.distinct;
              bounded = omega (
                arith,
                v.bounded,
                size-touch l.eviction_policy k e l.entries v.distinct some_lem,
              );
            })
    ]
  ]

  has-IsValid :
      (clock : ℤ) (k : K) (l : MemoryLayer K) → IsValid l → IsValid (Memory.has dec clock k l).0
  unfolding Memory.has Memory.delete
  has-IsValid clock k l v = ground (arith, delete-IsValid k l v)

  ttl-IsValid :
      (clock : ℤ) (k : K) (l : MemoryLayer K) → IsValid l → IsValid (Memory.ttl dec clock k l).0
  unfolding Memory.ttl Memory.delete
  ttl-IsValid clock k l v = ground (arith, delete-IsValid k l v)

  prune_expired-IsValid :
      (clock : ℤ) (l : MemoryLayer K) → IsValid l → IsValid (prune_expired clock l)
  unfolding prune_expired
  prune_expired-IsValid clock l v = record {
    distinct = keep-IsDistinct dec (λ e. not (is_expired clock e.1)) l.entries v.distinct;
    bounded = omega (arith, v.bounded, length-keep-le (λ e. not (is_expired clock e.1)) l.entries);
  }

  set-IsValid :
      (clock : ℤ) (k : K) (x : Value) (t : Option ℤ) (l : MemoryLayer K)
      → JsMap.IsDistinct dec l.entries
      → IsValid (Memory.set dec clock k x t l)
  unfolding Memory.set
  set-IsValid clock k x t l d =
      shrink-IsValid clock _
        (set-IsDistinct dec k (new_entry clock x t l) _ (delete-IsDistinct dec k l.entries d))

  get_many-IsValid :
      (clock : ℤ) (ks : List K) (l : MemoryLayer K)
      → IsValid l
      → IsValid (Memory.get_many dec clock ks l).0
  unfolding Memory.get_many
  get_many-IsValid clock [] l v = v
  get_many-IsValid clock (k ∷ ks) l v = get_many-IsValid clock ks _ (get_entry-IsValid clock k l v)

  set_many-IsValid :
      (clock : ℤ) (es : List (K × Value × Option ℤ)) (l : MemoryLayer K)
      → IsValid l
      → IsValid (Memory.set_many dec clock es l)
  unfolding Memory.set_many
  set_many-IsValid clock [] l v = v
  set_many-IsValid clock ((k, x, t) ∷ es) l v =
      set_many-IsValid clock es _ (set-IsValid clock k x t l v.distinct)

  delete_many-IsValid :
      (ks : List K) (l : MemoryLayer K) → IsValid l → IsValid (Memory.delete_many dec ks l)
  unfolding Memory.delete_many
  delete_many-IsValid [] l v = v
  delete_many-IsValid (k ∷ ks) l v = delete_many-IsValid ks _ (delete-IsValid k l v)

  import_entries-IsDistinct :
      (clock : ℤ) (es : List (SnapshotEntry K)) (l : MemoryLayer K)
      → JsMap.IsDistinct dec l.entries
      → JsMap.IsDistinct dec (Memory.import_entries dec clock es l).entries
  unfolding Memory.import_entries
  import_entries-IsDistinct clock [] l d = d
  import_entries-IsDistinct clock (s ∷ es) l d =
      import_entries-IsDistinct clock es _ (ground (arith, set-IsDistinct dec s.key e l.entries d))
    where
      e : MemoryEntry
      e = record {
        value = s.value;
        expires_at = s.expires_at;
        access_count = 0;
        inserted_at = clock;
      }

  -- Every method keeps the map within its bound and its keys distinct.
  pub step-IsValid :
      (l : MemoryLayer K) (c : ℤ × Memory.Call K) → IsValid l → IsValid (Memory.step dec l c)
  unfolding Memory.step
  step-IsValid l (clock, Memory.gets k) v = unfold Memory.get in get_entry-IsValid clock k l v
  step-IsValid l (clock, Memory.has_call k) v = has-IsValid clock k l v
  step-IsValid l (clock, Memory.ttl_call k) v = ttl-IsValid clock k l v
  step-IsValid l (clock, Memory.deletes k) v = delete-IsValid k l v
  step-IsValid l (clock, Memory.get_manys ks) v = get_many-IsValid clock ks l v
  step-IsValid l (clock, Memory.delete_manys ks) v = delete_many-IsValid ks l v
  step-IsValid l (clock, Memory.sets k x t) v = set-IsValid clock k x t l v.distinct
  step-IsValid l (clock, Memory.set_manys es) v = set_many-IsValid clock es l v
  step-IsValid l (clock, Memory.imports es) v =
      unfold Memory.import_state in
      shrink-IsValid clock _ (import_entries-IsDistinct clock es l v.distinct)
  step-IsValid l (clock, Memory.clears) v =
      unfold Memory.clear in (record { distinct = tt; bounded = omega arith })
  step-IsValid l (clock, Memory.sizes) v = unfold Memory.size in prune_expired-IsValid clock l v
  step-IsValid l (clock, Memory.lists_keys) v =
      unfold Memory.keys in prune_expired-IsValid clock l v
  step-IsValid l (clock, Memory.exports) v =
      unfold Memory.export_state in prune_expired-IsValid clock l v

  run-IsValid :
      (l : MemoryLayer K) (cs : List (ℤ × Memory.Call K))
      → IsValid l
      → IsValid (Memory.run dec l cs)
  unfolding Memory.run
  run-IsValid l [] v = v
  run-IsValid l (c ∷ cs) v = run-IsValid (Memory.step dec l c) cs (step-IsValid l c v)

  -- However a memory layer is configured and whatever calls were made of it, at whatever times, no key
  -- stands twice in it and it holds no more entries than its `maxSize`.
  pub run-init-IsValid :
      (default_ttl : Option ℤ) (max_size : Option ℕ) (policy : Option EvictionPolicy)
      (cs : List (ℤ × Memory.Call K))
      → IsValid (Memory.run dec (Memory.init default_ttl max_size policy) cs)
  unfolding Memory.init
  run-init-IsValid default_ttl max_size policy cs =
      run-IsValid _ cs (record { distinct = tt; bounded = omega arith })
