-- ===== src/Internal/Maintenance/WriteBehind/Order.antt =====
-- The write-behind queue of src/internal/CacheStackMaintenance.ts keeps the order of its operations, and loses
-- none but those that a clear drops.
use layercache.Base.{
  ℕ, leb, Bool, true, false, ◌||◌, Option, none, some, or_else, if◌then◌else◌, List, [], ◌∷◌, ◌++◌,
  take, drop, take-append-drop, length, ◌≡◌, refl, sym, ap, ◌∙◌, subst, arith, Bool-cases, inl, inr,
}
use mathlib.Core.List.{append-nil, append_assoc}
use layercache.Internal.Maintenance.WriteBehind.{
  WriteBehindOptions, WriteBehind, batch_size_of, max_queue_size_of, push, flush_if_due,
  accepted_by, dropped_by, flush_from, flush_write_behind_queue, enqueue_write_behind, settle_batch,
  Event, enqueues, flushes, settles, clears, step, run, accepted, dropped,
}

-- The third list is made of the others, the order of each of them being kept.
pub data Merged : List ℕ → List ℕ → List ℕ → Type 0 where
  done : Merged [] [] []
  from_left : {x : ℕ} {xs ys zs : List ℕ} → Merged xs ys zs → Merged (x ∷ xs) ys (x ∷ zs)
  from_right : {x : ℕ} {xs ys zs : List ℕ} → Merged xs ys zs → Merged xs (x ∷ ys) (x ∷ zs)

all_left : (xs : List ℕ) → Merged xs [] xs
all_left [] = done
all_left (x ∷ xs) = from_left (all_left xs)

all_right : (ys : List ℕ) → Merged [] ys ys
all_right [] = done
all_right (y ∷ ys) = from_right (all_right ys)

left_end : (q : List ℕ) {xs ys zs : List ℕ} → Merged xs ys zs → Merged (xs ++ q) ys (zs ++ q)
left_end q done = all_left q
left_end q (from_left m) = from_left (left_end q m)
left_end q (from_right m) = from_right (left_end q m)

right_end : (q : List ℕ) {xs ys zs : List ℕ} → Merged xs ys zs → Merged xs (ys ++ q) (zs ++ q)
right_end q done = all_right q
right_end q (from_left m) = from_left (right_end q m)
right_end q (from_right m) = from_right (right_end q m)

-- Without the second list the others are one.
pub Merged-nil : {xs ys zs : List ℕ} → Merged xs ys zs → ys ≡ [] → xs ≡ zs
Merged-nil done e = refl
Merged-nil (from_left {x = x} m) e = ap (λ t. x ∷ t) (Merged-nil m e)
Merged-nil (from_right m) e = absurd (ground (arith, e))

if_both : {A : Type 0} (P : A → Type 0) (b : Bool) (x y : A) → P x → P y → P (if b then x else y)
if_both P true x y p q = p
if_both P false x y p q = q

-- What has been run or is being run.
abbrev started : WriteBehind → List ℕ
started b = b.settled ++ or_else b.flushing []

-- That, and then what waits, oldest first.
abbrev pub contents : WriteBehind → List ℕ
contents b = b.settled ++ (or_else b.flushing [] ++ b.queue)

contents_lem : (b : WriteBehind) → started b ++ b.queue ≡ contents b
contents_lem b = append_assoc b.settled (or_else b.flushing []) b.queue

-- Of the operations `taken`, those `lost` were dropped, and none of those that wait is older than one that was
-- started or dropped.
abbrev Accounts : List ℕ → List ℕ → WriteBehind → Type 0
Accounts lost taken b =
    (before : List ℕ) × Merged (started b) lost before × (taken ≡ before ++ b.queue)

module _ (o : WriteBehindOptions) where
  flush_from-Accounts :
      (lost taken : List ℕ) (f : Option (List ℕ)) (q : List ℕ) (b : WriteBehind)
      → b.flushing ≡ f
      → b.queue ≡ q
      → Accounts lost taken b
      → Accounts lost taken (flush_from o f q b)
  flush_from-Accounts lost taken (some batch) q b e h a = a
  flush_from-Accounts lost taken none [] b e h a = a
  flush_from-Accounts lost taken none (x ∷ xs) b e h (before, m, t) =
      let n = batch_size_of o in
      let batch = take n (x ∷ xs) in
      let m' : Merged (b.settled ++ []) lost before = rw e at m in
      let m'' = subst (λ y. Merged y lost before) (append-nil b.settled) m' in
      (
        before ++ batch,
        left_end batch m'',
        t
            ∙ ap (λ y. before ++ y) (h ∙ sym (take-append-drop n (x ∷ xs)))
            ∙ sym (append_assoc before batch (drop n (x ∷ xs))),
      )

  flush-Accounts :
      (lost taken : List ℕ) (b : WriteBehind)
      → Accounts lost taken b
      → Accounts lost taken (flush_write_behind_queue o b)
  unfolding flush_write_behind_queue
  flush-Accounts lost taken b = flush_from-Accounts lost taken b.flushing b.queue b refl refl

  settle-Accounts :
      (lost taken : List ℕ) (f : Option (List ℕ)) (b : WriteBehind)
      → b.flushing ≡ f
      → Accounts lost taken b
      → Accounts lost taken (settle_batch o f b)
  unfolding settle_batch
  settle-Accounts lost taken none b e a = a
  settle-Accounts lost taken (some batch) b e (before, m, t) =
      let m' : Merged (b.settled ++ batch) lost before = rw e at m in
      flush-Accounts lost taken _
        (before, subst (λ y. Merged y lost before) (sym (append-nil (b.settled ++ batch))) m', t)

  enqueue-Accounts :
      (lost taken : List ℕ) (x : ℕ) (b : WriteBehind)
      → Accounts lost taken b
      → Accounts lost (taken ++ x ∷ []) (flush_if_due o (push o x b))
  enqueue-Accounts lost taken x b (before, m, t) =
      let pushed = push o x b in
      let a : Accounts lost (taken ++ x ∷ []) pushed =
        (before, m, ap (λ y. y ++ x ∷ []) t ∙ append_assoc before b.queue (x ∷ [])) in
      if_both (Accounts lost (taken ++ x ∷ []))
        (leb (max_queue_size_of o) (length pushed.queue)
          || leb (batch_size_of o) (length pushed.queue))
        (flush_write_behind_queue o pushed) pushed (flush-Accounts lost (taken ++ x ∷ []) pushed a)
        a

  unchanged :
      (lost taken : List ℕ) (b : WriteBehind)
      → Accounts lost taken b
      → Accounts (lost ++ []) (taken ++ []) b
  unchanged lost taken b a = rw (append-nil lost, append-nil taken) a

  step-Accounts :
      (lost taken : List ℕ) (e : Event) (b : WriteBehind)
      → Accounts lost taken b
      → Accounts (lost ++ dropped_by o e b) (taken ++ accepted_by o e b) (step o e b)
  unfolding step accepted_by dropped_by enqueue_write_behind
  step-Accounts lost taken flushes b a =
      unchanged lost taken (flush_write_behind_queue o b) (flush-Accounts lost taken b a)
  step-Accounts lost taken settles b a =
      unchanged lost taken (settle_batch o b.flushing b)
        (settle-Accounts lost taken b.flushing b refl a)
  step-Accounts lost taken clears b (before, m, t) =
      (before ++ b.queue, right_end b.queue m, ap (λ y. y ++ []) t)
  step-Accounts lost taken (enqueues x) b a =
      elim (Bool-cases (leb (max_queue_size_of o) (length b.queue))) [
        | inl e ↦ rw (e, enqueue_write_behind) (unchanged lost taken b a)
        | inr e ↦ rw (e, enqueue_write_behind, append-nil lost) (enqueue-Accounts lost taken x b a)
      ]

  run-Accounts :
      (lost taken : List ℕ) (es : List Event) (b : WriteBehind)
      → Accounts lost taken b
      → Accounts (lost ++ dropped o es b) (taken ++ accepted o es b) (run o es b)
  unfolding run accepted dropped
  run-Accounts lost taken [] b a = unchanged lost taken b a
  run-Accounts lost taken (e ∷ es) b a =
      let next = step o e b in
      rw
        (
          sym (append_assoc lost (dropped_by o e b) (dropped o es next)),
          sym (append_assoc taken (accepted_by o e b) (accepted o es next)),
        )
        (run-Accounts (lost ++ dropped_by o e b) (taken ++ accepted_by o e b) es next
          (step-Accounts lost taken e b a))

  -- Whatever calls, timers, ends of batches and clears of the stack come: the operations that there were, and
  -- then the ones that were taken in, in the order in which they came, are made up of those that a clear
  -- dropped from the queue, and of those that were run, those of the batch under way and those that
  -- still wait. These keep their order, none of the others is lost, and none is run twice.
  pub contents-run :
      (es : List Event) (b : WriteBehind)
      → Merged (contents (run o es b)) (dropped o es b) (contents b ++ accepted o es b)
  contents-run es b =
      let (before, m, t) =
        run-Accounts [] (contents b) es b (started b, all_left (started b), sym (contents_lem b)) in
      let now = run o es b in rw (t, sym (contents_lem now)) (left_end now.queue m)
