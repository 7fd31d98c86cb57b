-- ===== src/Internal/Maintenance/WriteBehind/Drained.antt =====
-- A flush of the write-behind queue of src/internal/CacheStackMaintenance.ts runs all of it.
use layercache.Base.{
  ℕ, zero, suc, ◌≤◌, ◌<◌, Option, none, some, List, [], ◌∷◌, ◌++◌, take, drop, length, length-drop,
  ◌≡◌, refl, sym, ap, ◌∙◌, subst, arith,
}
use mathlib.Core.List.{append-nil}
use layercache.Internal.Maintenance.WriteBehind.{
  WriteBehindOptions, WriteBehind, batch_size_of, flush_from, flush_write_behind_queue,
  settle_batch, Event, flushes, settles, step, run, accepted, accepted_by, dropped, dropped_by,
}
use layercache.Internal.Maintenance.WriteBehind.Order.{contents, contents-run, Merged-nil}

abbrev pub settle_times : ℕ → List Event
settle_times zero = []
settle_times (suc n) = settles ∷ settle_times n

-- Nothing waits, and nothing is under way.
abbrev pub IsDrained : WriteBehind → Type 0
IsDrained b = (b.flushing ≡ none) × (b.queue ≡ [])

-- No operation waits without a batch under way.
abbrev IsFlowing : Option (List ℕ) → List ℕ → Type 0
IsFlowing (some batch) q = Unit
IsFlowing none q = q ≡ []

drained_contents : (b : WriteBehind) → IsDrained b → b.settled ≡ contents b
drained_contents b (e, h) = rw (e, h) (sym (append-nil b.settled))

module _ (o : WriteBehindOptions) where
  settle_idle : (b : WriteBehind) → b.flushing ≡ none → step o settles b ≡ b
  unfolding step settle_batch
  settle_idle b e = rw e refl

  settle_last :
      (batch : List ℕ) (b : WriteBehind)
      → b.flushing ≡ some batch
      → b.queue ≡ []
      → IsDrained (step o settles b)
  unfolding step settle_batch flush_write_behind_queue
  settle_last batch b e h = rw (e, h) (refl, refl)

  settle_next :
      (batch : List ℕ) (x : ℕ) (xs : List ℕ) (b : WriteBehind)
      → b.flushing ≡ some batch
      → b.queue ≡ x ∷ xs
      → ((step o settles b).flushing ≡ some (take (batch_size_of o) (x ∷ xs)))
        × ((step o settles b).queue ≡ drop (batch_size_of o) (x ∷ xs))
  unfolding step settle_batch flush_write_behind_queue
  settle_next batch x xs b e h = rw (e, h) (refl, refl)

  stays-IsDrained : (n : ℕ) (b : WriteBehind) → IsDrained b → IsDrained (run o (settle_times n) b)
  unfolding run
  stays-IsDrained zero b d = d
  stays-IsDrained (suc n) b d =
      subst (λ x. IsDrained (run o (settle_times n) x)) (sym (settle_idle b d.0))
        (stays-IsDrained n b d)

  accepted_none : (n : ℕ) (b : WriteBehind) → accepted o (settle_times n) b ≡ []
  unfolding accepted accepted_by
  accepted_none zero b = refl
  accepted_none (suc n) b = accepted_none n (step o settles b)

  dropped_none : (n : ℕ) (b : WriteBehind) → dropped o (settle_times n) b ≡ []
  unfolding dropped dropped_by
  dropped_none zero b = refl
  dropped_none (suc n) b = dropped_none n (step o settles b)

  flush-IsFlowing :
      (f : Option (List ℕ)) (q : List ℕ) (b : WriteBehind)
      → b.flushing ≡ f
      → b.queue ≡ q
      → IsFlowing (flush_from o f q b).flushing (flush_from o f q b).queue
        × (length (flush_from o f q b).queue ≤ length q)
  flush-IsFlowing (some batch) q b e h = rw (e, h) (tt, omega arith)
  flush-IsFlowing none [] b e h = rw (e, h) (refl, omega arith)
  flush-IsFlowing none (x ∷ xs) b e h = (tt, omega (arith, length-drop (batch_size_of o) (x ∷ xs)))

  module _ (positive : 0 < batch_size_of o) where
    drained :
        (n : ℕ) (f : Option (List ℕ)) (q : List ℕ) (b : WriteBehind)
        → b.flushing ≡ f
        → b.queue ≡ q
        → IsFlowing f q
        → length q ≤ n
        → IsDrained (run o (settle_times (suc n)) b)
    unfolding run
    drained n none q b e h p le = stays-IsDrained (suc n) b (e, h ∙ p)
    drained n (some batch) [] b e h p le =
        stays-IsDrained n (step o settles b) (settle_last batch b e h)
    drained zero (some batch) (x ∷ xs) b e h p le = absurd (omega (arith, le))
    drained (suc n) (some batch) (x ∷ xs) b e h p le =
        let (e', h') = settle_next batch x xs b e h in
        drained n (some (take (batch_size_of o) (x ∷ xs))) (drop (batch_size_of o) (x ∷ xs))
          (step o settles b) e' h' tt
          (omega (arith, le, positive, length-drop (batch_size_of o) (x ∷ xs)))

    -- With a batch size that is not 0: after a flush and as many ends of batches as there are operations
    -- in the queue, and one more, every operation has been run, in order, and nothing waits.
    pub run-flushed :
        (b : WriteBehind)
        → let b' = run o (flushes ∷ settle_times (suc (length b.queue))) b in
          IsDrained b' × (b'.settled ≡ contents b)
    unfolding run step flush_write_behind_queue accepted accepted_by dropped dropped_by
    run-flushed b =
        let flushed = step o flushes b in
        let (p, le) = flush-IsFlowing b.flushing b.queue b refl refl in
        let d = drained (length b.queue) flushed.flushing flushed.queue flushed refl refl p le in
        (
          d,
          drained_contents (run o (settle_times (suc (length b.queue))) flushed) d
              ∙ Merged-nil (contents-run o (flushes ∷ settle_times (suc (length b.queue))) b)
                  (dropped_none (suc (length b.queue)) flushed)
              ∙ ap (λ t. contents b ++ t) (accepted_none (suc (length b.queue)) flushed)
              ∙ append-nil (contents b),
        )
