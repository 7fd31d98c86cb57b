-- ===== src/Internal/Maintenance/Fences.antt =====
-- The fences of src/internal/CacheStackMaintenance.ts: an epoch is never handed out twice, so a write
-- that was overtaken is outdated for good.
use layercache.Base.{
  ℕ, ◌+◌, ◌/◌, ◌≤◌, ◌<◌, true, leb, some, List, [], ◌∷◌, ◌++◌, ◌≡◌, refl, arith, ◌⊎◌, inl, inr,
  Bool-cases,
}
use layercache.JsMap.{JsMap}
use layercache.JsMap
use layercache.JsMap.Laws.{get-set, get-delete, get-delete_oldest}
use layercache.Internal.Maintenance.Epochs
use layercache.Internal.Maintenance.Epochs.{
  Epochs, max_key_epochs, max_safe_integer, current_key_epoch, bump_key, bump_loop, bump_key_epochs,
  begin_clear_epoch, allocate_key_epoch, prune_key_epochs_if_needed, is_write_outdated, Event,
}

module _ {K : Type 0} (dec : Discrete K) where
  -- No epoch in use is above the last one allocated.
  pub record IsValid (s : Epochs K) : Type 0 where
    pub absent : s.absent_key_epoch ≤ s.next_key_epoch
    pub current : (k : K) → current_key_epoch dec k s ≤ s.next_key_epoch

  -- The state has moved past the epochs `c` and `n` of the key.
  abbrev Past : ℕ → ℕ → K → Epochs K → Type 0
  Past c n k s = (c < s.clear_epoch) ⊎ ((c ≡ s.clear_epoch) × (n < current_key_epoch dec k s))

  -- The new state begins all epochs over, under a new clear epoch.
  abbrev Restarts : K → Epochs K → Epochs K → Type 0
  Restarts k s s' =
      (s'.clear_epoch ≡ s.clear_epoch + 1)
      × (s'.next_key_epoch ≡ 1)
      × (current_key_epoch dec k s' ≤ 1)

  -- It keeps the clear epoch, and the epoch of the key is as it was or is new.
  abbrev GoesOn : K → Epochs K → Epochs K → Type 0
  GoesOn k s s' =
      (s'.clear_epoch ≡ s.clear_epoch)
      × (s.next_key_epoch ≤ s'.next_key_epoch)
      × ((current_key_epoch dec k s' ≡ current_key_epoch dec k s)
          ⊎ ((s.next_key_epoch < current_key_epoch dec k s')
              × (current_key_epoch dec k s' ≤ s'.next_key_epoch)))

  abbrev Moves : K → Epochs K → Epochs K → Type 0
  Moves k s s' = Restarts k s s' ⊎ GoesOn k s s'

  bump_key-Moves : (j k : K) (s : Epochs K) → Moves k s (bump_key dec j s)
  unfolding bump_key current_key_epoch allocate_key_epoch JsMap.get
  bump_key-Moves j k s = elim (Bool-cases (leb max_safe_integer s.next_key_epoch)) [
    | inl over ↦ inl (rw over (refl, refl, ground (arith, get-set {V = ℕ} dec k j 1 [])))
    | inr below ↦ inr (
        rw below (
          refl,
          omega arith,
          ground (
            arith,
            get-set dec k j (s.next_key_epoch + 1) (JsMap.delete dec j s.key_epochs),
            get-delete dec k j s.key_epochs,
          ),
        ))
  ]

  bump_key_self :
      (k : K) (s : Epochs K)
      → ((bump_key dec k s).clear_epoch ≡ s.clear_epoch + 1)
        ⊎ (((bump_key dec k s).clear_epoch ≡ s.clear_epoch)
            × (s.next_key_epoch < current_key_epoch dec k (bump_key dec k s)))
  unfolding bump_key current_key_epoch allocate_key_epoch
  bump_key_self k s =
      ground (arith, get-set dec k k (s.next_key_epoch + 1) (JsMap.delete dec k s.key_epochs))

  prune-Moves : (k : K) (s : Epochs K) → Moves k s (prune_key_epochs_if_needed dec s)
  unfolding prune_key_epochs_if_needed current_key_epoch allocate_key_epoch JsMap.get
  prune-Moves k s = elim (Bool-cases (leb (JsMap.size s.key_epochs) max_key_epochs)) [
    | inl small ↦ inr (rw small (refl, omega arith, inl refl))
    | inr large ↦ rw large (elim (Bool-cases (leb max_safe_integer s.next_key_epoch)) [
      | inl over ↦ inl (rw over (refl, refl, omega arith))
      | inr below ↦ inr (
          rw below (
            refl,
            omega arith,
            ground
                (arith, get-delete_oldest dec ((JsMap.size s.key_epochs + 9) / 10) k s.key_epochs),
          ))
    ])
  ]

  current-of-Moves :
      (k : K) (s s' : Epochs K)
      → IsValid s
      → Moves k s s'
      → current_key_epoch dec k s' ≤ s'.next_key_epoch
  current-of-Moves k s s' v m = let below = v.current k in ground arith

  bump_key-IsValid : (j : K) (s : Epochs K) → IsValid s → IsValid (bump_key dec j s)
  bump_key-IsValid j s v = record {
    absent = unfold bump_key allocate_key_epoch in ground (arith, v.absent);
    current = λ k. current-of-Moves k s (bump_key dec j s) v (bump_key-Moves j k s);
  }

  prune-IsValid : (s : Epochs K) → IsValid s → IsValid (prune_key_epochs_if_needed dec s)
  prune-IsValid s v = record {
    absent = unfold prune_key_epochs_if_needed allocate_key_epoch in ground (arith, v.absent);
    current = λ k. current-of-Moves k s (prune_key_epochs_if_needed dec s) v (prune-Moves k s);
  }

  bump_loop-IsValid : (js : List K) (s : Epochs K) → IsValid s → IsValid (bump_loop dec js s)
  unfolding bump_loop
  bump_loop-IsValid [] s v = v
  bump_loop-IsValid (j ∷ js) s v = bump_loop-IsValid js (bump_key dec j s) (bump_key-IsValid j s v)

  step-IsValid : (s : Epochs K) (e : Event K) → IsValid s → IsValid (Epochs.step dec s e)
  unfolding Epochs.step
  step-IsValid s Event.clears v =
      unfold begin_clear_epoch current_key_epoch JsMap.get in
      (record { absent = v.absent; current = λ k. v.absent })
  step-IsValid s (Event.bumps js) v =
      unfold bump_key_epochs in prune-IsValid (bump_loop dec js s) (bump_loop-IsValid js s v)

  pub run-IsValid : (s : Epochs K) (es : List (Event K)) → IsValid s → IsValid (Epochs.run dec s es)
  unfolding Epochs.run
  run-IsValid s [] v = v
  run-IsValid s (e ∷ es) v = run-IsValid (Epochs.step dec s e) es (step-IsValid s e v)

  pub init-IsValid : IsValid Epochs.init
  unfolding current_key_epoch JsMap.get
  init-IsValid = record { absent = omega arith; current = λ k. omega arith }

  -- Once past, always past.
  Moves-Past :
      (c n : ℕ) (k : K) (s s' : Epochs K) → IsValid s → Moves k s s' → Past c n k s → Past c n k s'
  Moves-Past c n k s s' v m p = let below = v.current k in ground arith

  bump_loop-Past :
      (c n : ℕ) (k : K) (js : List K) (s : Epochs K)
      → IsValid s
      → Past c n k s
      → Past c n k (bump_loop dec js s)
  unfolding bump_loop
  bump_loop-Past c n k [] s v p = p
  bump_loop-Past c n k (j ∷ js) s v p =
      bump_loop-Past c n k js (bump_key dec j s) (bump_key-IsValid j s v)
        (Moves-Past c n k s (bump_key dec j s) v (bump_key-Moves j k s) p)

  prune-Past :
      (c n : ℕ) (k : K) (s : Epochs K)
      → IsValid s
      → Past c n k s
      → Past c n k (prune_key_epochs_if_needed dec s)
  prune-Past c n k s v = Moves-Past c n k s (prune_key_epochs_if_needed dec s) v (prune-Moves k s)

  step-Past :
      (c n : ℕ) (k : K) (s : Epochs K) (e : Event K)
      → IsValid s
      → Past c n k s
      → Past c n k (Epochs.step dec s e)
  unfolding Epochs.step
  step-Past c n k s Event.clears v p = unfold begin_clear_epoch in ground arith
  step-Past c n k s (Event.bumps js) v p =
      unfold bump_key_epochs in
      prune-Past c n k (bump_loop dec js s) (bump_loop-IsValid js s v)
        (bump_loop-Past c n k js s v p)

  run-Past :
      (c n : ℕ) (k : K) (s : Epochs K) (es : List (Event K))
      → IsValid s
      → Past c n k s
      → Past c n k (Epochs.run dec s es)
  unfolding Epochs.run
  run-Past c n k s [] v p = p
  run-Past c n k s (e ∷ es) v p =
      run-Past c n k (Epochs.step dec s e) es (step-IsValid s e v) (step-Past c n k s e v p)

  -- The epochs `c` and `n` were in use, or are past.
  abbrev Ahead : ℕ → ℕ → Epochs K → Type 0
  Ahead c n s = (c < s.clear_epoch) ⊎ ((c ≡ s.clear_epoch) × (n ≤ s.next_key_epoch))

  bump_loop-hits :
      (c n : ℕ) (k : K) (xs ys : List K) (s : Epochs K)
      → IsValid s
      → Ahead c n s
      → Past c n k (bump_loop dec (xs ++ k ∷ ys) s)
  unfolding bump_loop
  bump_loop-hits c n k [] ys s v a =
      bump_loop-Past c n k ys (bump_key dec k s) (bump_key-IsValid k s v)
        (ground (arith, bump_key_self k s))
  bump_loop-hits c n k (x ∷ xs) ys s v a =
      bump_loop-hits c n k xs ys (bump_key dec x s) (bump_key-IsValid x s v)
        (ground (arith, bump_key-Moves x k s))

  Past-outdated :
      (c n : ℕ) (k : K) (s : Epochs K)
      → Past c n k s
      → is_write_outdated dec k (some c) (some n) s ≡ true
  unfolding is_write_outdated
  Past-outdated c n k s p = ground arith

  -- A write that took its fence before its key was invalidated, alone or among other keys, is outdated
  -- from then on, whatever is invalidated or cleared after that: also when the epoch of the key was
  -- dropped from the bounded map, and when the counter started again at its limit.
  pub bumped-outdated :
      (before after : List (Event K)) (xs ys : List K) (k : K)
      → let s = Epochs.run dec Epochs.init before in
        let s' = Epochs.run dec (Epochs.step dec s (Event.bumps (xs ++ k ∷ ys))) after in
        is_write_outdated dec k (some s.clear_epoch) (some (current_key_epoch dec k s)) s' ≡ true
  unfolding Epochs.step bump_key_epochs
  bumped-outdated before after xs ys k =
      let s = Epochs.run dec Epochs.init before in
      let v = run-IsValid Epochs.init before init-IsValid in
      let keys = xs ++ k ∷ ys in
      let n = current_key_epoch dec k s in
      let hit = bump_loop-hits s.clear_epoch n k xs ys s v (inr (refl, v.current k)) in
      let looped = bump_loop-IsValid keys s v in
      Past-outdated s.clear_epoch n k _ (
        run-Past s.clear_epoch n k (prune_key_epochs_if_needed dec (bump_loop dec keys s)) after
          (prune-IsValid (bump_loop dec keys s) looped)
          (prune-Past s.clear_epoch n k (bump_loop dec keys s) looped hit))

  -- A write that took its fence before the stack was cleared is outdated from then on.
  pub cleared-outdated :
      (before after : List (Event K)) (k : K)
      → let s = Epochs.run dec Epochs.init before in
        let s' = Epochs.run dec (Epochs.step dec s Event.clears) after in
        is_write_outdated dec k (some s.clear_epoch) (some (current_key_epoch dec k s)) s' ≡ true
  cleared-outdated before after k =
      let s = Epochs.run dec Epochs.init before in
      let v = run-IsValid Epochs.init before init-IsValid in
      let n = current_key_epoch dec k s in
      Past-outdated s.clear_epoch n k _ (
        run-Past s.clear_epoch n k (Epochs.step dec s Event.clears) after
          (step-IsValid s Event.clears v)
          (unfold Epochs.step begin_clear_epoch in (inl (omega arith))))
