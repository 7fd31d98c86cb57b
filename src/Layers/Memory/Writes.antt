-- ===== src/Layers/Memory/Writes.antt =====
-- What `set` of src/layers/MemoryLayer.ts does to the entries of a layer.
use layercache.Base.{
  ℕ, zero, suc, ◌≤◌, ◌<◌, ℤ, true, false, ltb, Option, none, some, if◌then◌else◌, [], ◌∷◌, ◌++◌,
  length-append, ◌≡◌, ◌≢◌, refl, arith, sym, ap, subst, ◌∙◌,
}
use layercache.JsMap.{JsMap}
use layercache.JsMap
use native.Mathlib.Decide.{dec_le}
use layercache.JsMap.Laws.{
  size-delete-le, get-delete, delete_absent, set_absent, get-append, delete-append, set-IsDistinct,
  delete-IsDistinct,
}
use layercache.JsValue.{Value, null}
use layercache.StoredValue.Reads.{unwrap_stored_value}
use layercache.Layers.Memory.{
  EvictionPolicy, lru, lfu, fifo, MemoryEntry, MemoryLayer, victim, victim_of, evict, evict_loop,
  shrink, least_used, is_expired, new_entry, get_entry,
}
use layercache.Layers.Memory
use layercache.Layers.Memory.Eviction.{size-evict}
use layercache.Layers.Memory.Invariant.{IsValid, max_size-evict}

module _ {K : Type 0} (dec : Discrete K) where
  absent-delete : (k : K) (m : JsMap K MemoryEntry) → JsMap.get dec k (JsMap.delete dec k m) ≡ none
  absent-delete k m = ground (arith, get-delete dec k k m)

  -- One entry too many is one round of the loop.
  pub evict_loop_done :
      (fuel : ℕ) (clock : ℤ) (l : MemoryLayer K)
      → JsMap.size l.entries ≤ l.max_size
      → evict_loop dec fuel clock l ≡ l
  unfolding evict_loop
  evict_loop_done zero clock l h = refl
  evict_loop_done (suc fuel) clock l h =
      let done : ltb l.max_size (JsMap.size l.entries) ≡ false = ground arith in
      rw (done, evict_loop)

  evict_loop_once :
      (fuel : ℕ) (clock : ℤ) (l : MemoryLayer K)
      → JsMap.IsDistinct dec l.entries
      → JsMap.size l.entries ≡ suc l.max_size
      → evict_loop dec (suc fuel) clock l ≡ evict dec clock l
  unfolding evict_loop
  evict_loop_once fuel clock l d h =
      let more : ltb l.max_size (JsMap.size l.entries) ≡ true = ground arith in
      rw (more, evict_loop)
        (evict_loop_done fuel clock (evict dec clock l)
          (omega (arith, size-evict dec clock l d (omega arith), max_size-evict dec clock l)))

  -- A layer with the new entry at the end.
  abbrev pub extended : ℤ → K → Value → Option ℤ → MemoryLayer K → MemoryLayer K
  extended clock k x t l = record l {
    entries = JsMap.delete dec k l.entries ++ (k, new_entry clock x t l) ∷ [];
  }

  set-extended :
      (clock : ℤ) (k : K) (x : Value) (t : Option ℤ) (l : MemoryLayer K)
      → Memory.set dec clock k x t l ≡ shrink dec clock (extended clock k x t l)
  unfolding Memory.set
  set-extended clock k x t l = rw (
      set_absent dec k (new_entry clock x t l) (JsMap.delete dec k l.entries)
        (absent-delete k l.entries))

  shrink_once :
      (clock : ℤ) (l : MemoryLayer K)
      → JsMap.IsDistinct dec l.entries
      → JsMap.size l.entries ≡ suc l.max_size
      → shrink dec clock l ≡ evict dec clock l
  shrink_once clock l d h =
      subst (λ n. evict_loop dec n clock l ≡ evict dec clock l) (sym h)
        (evict_loop_once l.max_size clock l d h)

  pub evict-victim :
      (clock : ℤ) (l : MemoryLayer K) (x : K × MemoryEntry)
      → victim l ≡ some x
      → evict dec clock l ≡ record l {
        entries = JsMap.delete dec x.0 l.entries;
        evicted = (x.0, unwrap_stored_value clock x.1.value) ∷ l.evicted;
      }
  unfolding evict
  evict-victim clock l x h = rw (h, evict)

  extended-IsDistinct :
      (clock : ℤ) (k : K) (x : Value) (t : Option ℤ) (l : MemoryLayer K)
      → JsMap.IsDistinct dec l.entries
      → JsMap.IsDistinct dec (extended clock k x t l).entries
  extended-IsDistinct clock k x t l d =
      rw
        (← set_absent dec k (new_entry clock x t l) (JsMap.delete dec k l.entries)
          (absent-delete k l.entries))
        (set-IsDistinct dec k (new_entry clock x t l) _ (delete-IsDistinct dec k l.entries d))

  -- A write of a new key to a full layer is one eviction from the layer with that entry at its end.
  pub set-full :
      (clock : ℤ) (k : K) (x : Value) (t : Option ℤ) (l : MemoryLayer K)
      → IsValid dec l
      → JsMap.size l.entries ≡ l.max_size
      → JsMap.get dec k l.entries ≡ none
      → Memory.set dec clock k x t l ≡ evict dec clock (extended clock k x t l)
  set-full clock k x t l v full new =
      set-extended clock k x t l
      ∙ shrink_once clock (extended clock k x t l) (extended-IsDistinct clock k x t l v.distinct) (
          omega (
            arith,
            full,
            ap (λ m. JsMap.size m) (delete_absent dec k l.entries new),
            length-append (JsMap.delete dec k l.entries) ((k, new_entry clock x t l) ∷ []),
          ))

  victim_of_front :
      (p : EvictionPolicy) (e : K × MemoryEntry) (m : JsMap K MemoryEntry)
      → p ≢ lfu
      → victim_of p (e ∷ m) ≡ some e
  unfolding victim_of
  victim_of_front lru e m h = refl
  victim_of_front fifo e m h = refl
  victim_of_front lfu e m h = absurd (h refl)

  delete_front :
      (j k : K) (f e : MemoryEntry) (m : JsMap K MemoryEntry)
      → JsMap.IsDistinct dec ((j, f) ∷ m)
      → JsMap.get dec k ((j, f) ∷ m) ≡ none
      → JsMap.delete dec j ((j, f) ∷ m ++ (k, e) ∷ []) ≡ m ++ (k, e) ∷ []
  unfolding JsMap.delete JsMap.get
  delete_front j k f e m d h = ground (arith, delete-append dec j k e m, delete_absent dec j m d.0)

  -- A write of a new key to a full layer under the LRU or the FIFO policy evicts the entry at the
  -- front of the map, hands its key and unwrapped value to `onEvict`, and puts the new entry at the
  -- end; all other entries keep their order.
  pub set-full_oldest :
      (clock : ℤ) (k : K) (x : Value) (t : Option ℤ) (l : MemoryLayer K) (j : K) (f : MemoryEntry)
      (m : JsMap K MemoryEntry)
      → IsValid dec l
      → l.eviction_policy ≢ lfu
      → l.entries ≡ (j, f) ∷ m
      → JsMap.size l.entries ≡ l.max_size
      → JsMap.get dec k l.entries ≡ none
      → ((Memory.set dec clock k x t l).entries ≡ m ++ (k, new_entry clock x t l) ∷ [])
        × ((Memory.set dec clock k x t l).evicted
            ≡ (j, unwrap_stored_value clock f.value) ∷ l.evicted)
  set-full_oldest clock k x t l j f m v p e full new =
      let shape : JsMap.delete dec k l.entries ≡ (j, f) ∷ m =
        delete_absent dec k l.entries new ∙ e in
      let front : victim (extended clock k x t l) ≡ some (j, f) =
        rw shape (victim_of_front l.eviction_policy (j, f) _ p) in
      rw
        (
          set-full clock k x t l v full new,
          evict-victim clock (extended clock k x t l) (j, f) front,
        )
        (
          rw shape (
              delete_front j k f (new_entry clock x t l) m
                (subst (JsMap.IsDistinct dec) e v.distinct)
                (subst (λ m. JsMap.get dec k m ≡ none) e new)),
          refl,
        )

  get-delete_other :
      (j k : K) (f e : MemoryEntry) (m : JsMap K MemoryEntry)
      → JsMap.get dec k ((j, f) ∷ m) ≡ none
      → JsMap.get dec k (JsMap.delete dec j ((j, f) ∷ m ++ (k, e) ∷ [])) ≡ some e
  get-delete_other j k f e m h = ground (
    arith,
    differ,
    get-delete dec k j ((j, f) ∷ m ++ (k, e) ∷ []),
    get-append dec k k e ((j, f) ∷ m) h,
  )
    where
      differ : j ≢ k
      differ = unfold JsMap.get in (λ q. ground arith)

  get-evict_front :
      (clock : ℤ) (l : MemoryLayer K) (k : K) (e : MemoryEntry) (m : JsMap K MemoryEntry)
      → l.entries ≡ m ++ (k, e) ∷ []
      → l.eviction_policy ≢ lfu
      → 0 < JsMap.size m
      → JsMap.get dec k m ≡ none
      → JsMap.get dec k (evict dec clock l).entries ≡ some e
  get-evict_front clock l k e [] s p h a = absurd (omega arith)
  get-evict_front clock l k e ((j, f) ∷ m) s p h a =
      let front : victim l ≡ some (j, f) = rw s (victim_of_front l.eviction_policy (j, f) _ p) in
      rw (evict-victim clock l (j, f) front, s) (get-delete_other j k f e m a)

  -- The entry that is written stands in the map afterwards.
  get-set_entries :
      (clock : ℤ) (k : K) (x : Value) (t : Option ℤ) (l : MemoryLayer K)
      → IsValid dec l
      → l.eviction_policy ≢ lfu
      → 0 < l.max_size
      → JsMap.get dec k (Memory.set dec clock k x t l).entries ≡ some (new_entry clock x t l)
  get-set_entries clock k x t l v p h =
      let rest = JsMap.delete dec k l.entries in
      let e = new_entry clock x t l in
      let l' = extended clock k x t l in
      let long = length-append rest ((k, e) ∷ []) in
      let less = size-delete-le dec k l.entries in
      rw (set-extended clock k x t l) (elim (dec_le (JsMap.size l'.entries) l.max_size) [
        | yes fits ↦
            rw (evict_loop_done (JsMap.size l'.entries) clock l' fits)
              (ground (arith, get-append dec k k e rest (absent-delete k l.entries)))
        | no more ↦
            rw (shrink_once clock l' (extended-IsDistinct clock k x t l v.distinct) (omega arith))
              (get-evict_front clock l' k e rest refl p (omega arith) (absent-delete k l.entries))
      ])

  get_entry-value :
      (later : ℤ) (k : K) (l : MemoryLayer K) (e : MemoryEntry)
      → JsMap.get dec k l.entries ≡ some e
      → (get_entry dec later k l).1 ≡ (if is_expired later e then null else e.value)
  unfolding get_entry
  get_entry-value later k l e h = rw (h, get_entry) (ground arith)

  -- After a write the key reads back as the value written for as long as its lifetime lasts, also when
  -- the layer was full, if the layer may hold an entry and its policy is LRU or FIFO.
  pub get_entry-set :
      (clock later : ℤ) (k : K) (x : Value) (t : Option ℤ) (l : MemoryLayer K)
      → IsValid dec l
      → l.eviction_policy ≢ lfu
      → 0 < l.max_size
      → (get_entry dec later k (Memory.set dec clock k x t l)).1
        ≡ (if is_expired later (new_entry clock x t l) then null else x)
  get_entry-set clock later k x t l v p h =
      get_entry-value later k _ (new_entry clock x t l) (get-set_entries clock k x t l v p h)
