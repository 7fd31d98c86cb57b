-- ===== src/Layers/Memory/Lfu.antt =====
-- What `set` of src/layers/MemoryLayer.ts does under the LFU policy.
use layercache.Base.{
  ◌<◌, ℤ, Option, none, some, [], ◌∷◌, ◌++◌, length-append, ◌≡◌, refl, ◌⊎◌, inl, inr, arith, sym,
  ap, subst, ◌∙◌, All,
}
use layercache.JsMap.{JsMap}
use layercache.JsMap
use mathlib.Core.List.{append-nil}
use layercache.JsMap.Laws.{delete_absent, delete-append}
use layercache.JsValue.{Value}
use layercache.StoredValue.Reads.{unwrap_stored_value}
use layercache.Layers.Memory.{
  EvictionPolicy, lru, lfu, fifo, MemoryEntry, MemoryLayer, victim, victim_of, evict, evict_loop,
  shrink, least_used, is_expired, new_entry, get_entry,
}
use layercache.Layers.Memory
use layercache.Layers.Memory.Eviction.{InMap, NotBefore, least_used-least}
use layercache.Layers.Memory.Invariant.{IsValid}
use layercache.Layers.Memory.Writes.{set-full, evict-victim, extended}

module _ {K : Type 0} (dec : Discrete K) where
  InMap-append :
      (x y : K × MemoryEntry) (m : JsMap K MemoryEntry)
      → InMap x (m ++ y ∷ [])
      → InMap x m ⊎ (x ≡ y)
  InMap-append x y [] (inl e) = inr e
  InMap-append x y (z ∷ m) (inl e) = inl (inl e)
  InMap-append x y (z ∷ m) (inr h) = elim (InMap-append x y m h) [
    | inl q ↦ inl (inr q)
    | inr q ↦ inr q
  ]
  InMap-append x y [] (inr h) = absurd h

  All-last :
      (P : K × MemoryEntry → Type 0) (y : K × MemoryEntry) (m : JsMap K MemoryEntry)
      → All P (m ++ y ∷ [])
      → P y
  All-last P y [] h = h.0
  All-last P y (z ∷ m) h = All-last P y m h.1

  All-InMap :
      (P : K × MemoryEntry → Type 0) (y : K × MemoryEntry) (m : JsMap K MemoryEntry)
      → All P m
      → InMap y m
      → P y
  All-InMap P y (z ∷ m) h (inl e) = subst P (sym e) h.0
  All-InMap P y (z ∷ m) h (inr q) = All-InMap P y m h.1 q
  All-InMap P y [] h q = absurd q

  -- Where all other entries have been accessed, the LFU policy takes the one that has not.
  least_used-unused :
      (k : K) (e : MemoryEntry) (m : JsMap K MemoryEntry)
      → e.access_count ≡ 0
      → All (λ f. 0 < f.1.access_count) m
      → least_used none (m ++ (k, e) ∷ []) ≡ some (k, e)
  least_used-unused k e m zero_lem used =
      let (y, picked, stands, least) =
        least_used-least (m ++ (k, e) ∷ []) (omega (arith, length-append m ((k, e) ∷ []))) in
      elim (InMap-append y (k, e) m stands) [
        | inl other ↦
            let many = All-InMap (λ f. 0 < f.1.access_count) y m used other in
            let few = All-last (λ f. NotBefore y.1 f.1) (k, e) m least in absurd (omega arith)
        | inr same ↦ picked ∙ ap some same
      ]

  delete_last :
      (k : K) (e : MemoryEntry) (m : JsMap K MemoryEntry)
      → JsMap.get dec k m ≡ none
      → JsMap.delete dec k (m ++ (k, e) ∷ []) ≡ m
  delete_last k e m h =
      ground (arith, delete-append dec k k e m, delete_absent dec k m h, append-nil m)

  -- Under the LFU policy a write of a new key to a full layer is lost at once, if every other entry has
  -- been read since it was written: the new entry has the fewest accesses, and is itself evicted.
  pub set-full_lfu :
      (clock : ℤ) (k : K) (x : Value) (t : Option ℤ) (l : MemoryLayer K)
      → IsValid dec l
      → l.eviction_policy ≡ lfu
      → JsMap.size l.entries ≡ l.max_size
      → JsMap.get dec k l.entries ≡ none
      → All (λ e. 0 < e.1.access_count) l.entries
      → ((Memory.set dec clock k x t l).entries ≡ l.entries)
        × ((Memory.set dec clock k x t l).evicted ≡ (k, unwrap_stored_value clock x) ∷ l.evicted)
  set-full_lfu clock k x t l v p full new used =
      let e = new_entry clock x t l in
      let shape = delete_absent dec k l.entries new in
      let last : victim (extended dec clock k x t l) ≡ some (k, e) =
        unfold victim_of in rw (p, shape) (least_used-unused k e l.entries refl used) in
      rw
        (
          set-full dec clock k x t l v full new,
          evict-victim dec clock (extended dec clock k x t l) (k, e) last,
        )
        (rw shape (delete_last k e l.entries new), refl)
