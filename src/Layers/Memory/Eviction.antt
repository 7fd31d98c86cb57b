-- ===== src/Layers/Memory/Eviction.antt =====
-- Which entry `MemoryLayer.evict` of src/layers/MemoryLayer.ts removes.
use layercache.Base.{
  ◌+◌, ◌<◌, ℤ, ◌≤ℤ◌, true, false, none, some, [], ◌∷◌, ◌≡◌, refl, ◌⊎◌, inl, inr, arith, All,
  Bool-cases, ap,
}
use layercache.JsMap.{JsMap}
use layercache.JsMap
use layercache.JsMap.Laws.{size-delete}
use layercache.Layers.Memory.{
  EvictionPolicy, lru, lfu, fifo, MemoryEntry, MemoryLayer, comes_first, better, least_used,
  victim_of, evict,
}

-- The entry stands in the map.
abbrev pub InMap : {K : Type 0} → K × MemoryEntry → JsMap K MemoryEntry → Type 0
InMap x [] = ⊥
InMap x (e ∷ m) = (x ≡ e) ⊎ InMap x m

-- No entry comes before `e` in the order of the LFU policy: by access count, then by age.
abbrev pub NotBefore : MemoryEntry → MemoryEntry → Type 0
NotBefore e f =
    (e.access_count < f.access_count)
    ⊎ ((e.access_count ≡ f.access_count) × (e.inserted_at ≤ℤ f.inserted_at))

NotBefore-refl : (e : MemoryEntry) → NotBefore e e
NotBefore-refl e = inr (refl, omega arith)

NotBefore-trans : (e f g : MemoryEntry) → NotBefore e f → NotBefore f g → NotBefore e g
NotBefore-trans e f g p q = omega arith

comes_first→NotBefore : (e f : MemoryEntry) → comes_first e f ≡ true → NotBefore e f
unfolding comes_first
comes_first→NotBefore e f h = ground arith

other→NotBefore : (e f : MemoryEntry) → comes_first e f ≡ false → NotBefore f e
unfolding comes_first
other→NotBefore e f h = ground arith

module _ {K : Type 0} where
  -- What the loop returns when it goes on from `best`.
  record Picks (best x : K × MemoryEntry) (m : JsMap K MemoryEntry) : Type 0 where
    picked : least_used (some best) m ≡ some x
    stands : (x ≡ best) ⊎ InMap x m
    before_best : NotBefore x.1 best.1
    before_all : All (λ e. NotBefore x.1 e.1) m

  least_used-Picks :
      (best : K × MemoryEntry) (m : JsMap K MemoryEntry) → (x : K × MemoryEntry) × Picks best x m
  unfolding least_used better
  least_used-Picks best [] = (
    best,
    record {
      picked = refl;
      stands = inl refl;
      before_best = NotBefore-refl best.1;
      before_all = tt;
    },
  )
  least_used-Picks (j, f) ((k, e) ∷ m) = elim (Bool-cases (comes_first e f)) [
    | inl h ↦
        let (x, p) = least_used-Picks (k, e) m in
        (
          x,
          record {
            picked = rw h p.picked;
            stands = inr p.stands;
            before_best = NotBefore-trans x.1 e f p.before_best (comes_first→NotBefore e f h);
            before_all = (p.before_best, p.before_all);
          },
        )
    | inr h ↦
        let (x, p) = least_used-Picks (j, f) m in
        (
          x,
          record {
            picked = rw h p.picked;
            stands = elim p.stands [ inl q ↦ inl q | inr q ↦ inr (inr q) ];
            before_best = p.before_best;
            before_all =
                (NotBefore-trans x.1 f e p.before_best (other→NotBefore e f h), p.before_all);
          },
        )
  ]

  -- The LFU policy chooses an entry of the map that no entry comes before: it has the fewest accesses,
  -- and of those with as few it was inserted first.
  pub least_used-least :
      (m : JsMap K MemoryEntry)
      → 0 < JsMap.size m
      → (x : K × MemoryEntry) × (least_used none m ≡ some x)
        × InMap x m
        × All (λ f. NotBefore x.1 f.1) m
  unfolding least_used better
  least_used-least [] h = absurd (omega arith)
  least_used-least (e ∷ m) h =
      let (x, p) = least_used-Picks e m in (x, p.picked, p.stands, (p.before_best, p.before_all))

  -- A layer that is not empty has a victim, which is one of its entries.
  pub victim_of-InMap :
      (p : EvictionPolicy) (m : JsMap K MemoryEntry)
      → 0 < JsMap.size m
      → (x : K × MemoryEntry) × (victim_of p m ≡ some x) × InMap x m
  unfolding victim_of
  victim_of-InMap lru (e ∷ m) h = (e, refl, inl refl)
  victim_of-InMap fifo (e ∷ m) h = (e, refl, inl refl)
  victim_of-InMap lfu (e ∷ m) h = let (x, p, q, _) = least_used-least (e ∷ m) h in (x, p, q)
  victim_of-InMap p [] h = absurd (omega arith)

module _ {K : Type 0} (dec : Discrete K) where
  has-of-InMap :
      (x : K × MemoryEntry) (m : JsMap K MemoryEntry) → InMap x m → JsMap.has dec x.0 m ≡ true
  unfolding JsMap.get
  has-of-InMap x ((j, w) ∷ m) (inl e) = ground (arith, ap (λ p. p.0) e)
  has-of-InMap x ((j, w) ∷ m) (inr h) = ground (arith, has-of-InMap x m h)
  has-of-InMap x [] h = absurd h

  pub get-of-InMap :
      (x : K × MemoryEntry) (m : JsMap K MemoryEntry)
      → JsMap.IsDistinct dec m
      → InMap x m
      → JsMap.get dec x.0 m ≡ some x.1
  unfolding JsMap.get
  get-of-InMap x ((j, w) ∷ m) d (inl e) = ground (arith, ap (λ p. p.0) e, ap (λ p. p.1) e)
  get-of-InMap x ((j, w) ∷ m) d (inr h) = ground (arith, get-of-InMap x m d.1 h)
  get-of-InMap x [] d h = absurd h

  -- An eviction of a layer that is not empty removes one entry.
  pub size-evict :
      (clock : ℤ) (l : MemoryLayer K)
      → JsMap.IsDistinct dec l.entries
      → 0 < JsMap.size l.entries
      → JsMap.size l.entries ≡ JsMap.size (evict dec clock l).entries + 1
  unfolding evict
  size-evict clock l d h =
      let (y, p, q) = victim_of-InMap l.eviction_policy l.entries h in
      let there = has-of-InMap y l.entries q in
      rw (p, evict) (ground (arith, size-delete dec y.0 l.entries d, there))
