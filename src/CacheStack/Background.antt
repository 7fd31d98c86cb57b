-- ===== src/CacheStack/Background.antt =====
-- What src/CacheStack.ts does beside the requests of its callers: it runs the batches of the write-behind
-- queue, and moves on to the next generation of keys.
use layercache.Base.{
  ℕ, zero, suc, ◌+◌, Option, none, some, or_else, List, [], ◌∷◌, length, ◌≡◌, ◌≢◌, refl, ap, ◌∙◌,
  arith,
}
use layercache.Exec.{Result, ok, err, Exec, add_error}
use layercache.Internal.Generation.{
  GenerationCleanupConfig, resolve_generation_cleanup_target, qualify_generation_key,
}
use layercache.Internal.Generation.Keys.{NoColon, qualify-injective}

abbrev pub count_error : {E : Type 0} → Result E (Unit {0}) → ℕ → ℕ
count_error (ok u) n = n
count_error (err e) n = suc n

-- A batch without a failure counts nothing.
abbrev pub count_if_any : {W : Type 0} → (ℕ → W → W) → ℕ → W → W
count_if_any count zero w = w
count_if_any count (suc n) w = count (suc n) w

length-add_error :
    {E : Type 0} (r : Result E (Unit {0})) (es : List E)
    → length (add_error r es) ≡ count_error r (length es)
length-add_error (ok u) es = refl
length-add_error (err e) es = refl

module _ {W E : Type 0} where
  -- Every operation is run, after the one before it has settled.
  unfoldable pub run_in_order : List (Exec W E (Unit {0})) → W → List E × W
  run_in_order [] w = ([], w)
  run_in_order (operation ∷ batch) w =
      let (r, w') = operation w in
      let (failures, w'') = run_in_order batch w' in (add_error r failures, w'')

  -- `count` is the counter of failed writes.
  unfoldable pub count_failures : (ℕ → W → W) → List E × W → Result E (Unit {0}) × W
  count_failures count ([], w) = (ok tt, w)
  count_failures count (e ∷ es, w) = (ok tt, count (length (e ∷ es)) w)

  unfoldable pub run_write_behind_batch :
      (ℕ → W → W) → List (Exec W E (Unit {0})) → Exec W E (Unit {0})
  run_write_behind_batch count batch w = count_failures count (run_in_order batch w)

  -- The world after all operations, one after the other, whether they return or throw.
  abbrev pub after_all : List (Exec W E (Unit {0})) → W → W
  after_all [] w = w
  after_all (operation ∷ batch) w = after_all batch (operation w).1

  -- How many of them throw.
  abbrev pub failed_of : List (Exec W E (Unit {0})) → W → ℕ
  failed_of [] w = 0
  failed_of (operation ∷ batch) w = count_error (operation w).0 (failed_of batch (operation w).1)

  run_in_order-failed_of :
      (batch : List (Exec W E (Unit {0}))) (w : W)
      → (length (run_in_order batch w).0 ≡ failed_of batch w)
        × ((run_in_order batch w).1 ≡ after_all batch w)
  unfolding run_in_order
  run_in_order-failed_of [] w = (refl, refl)
  run_in_order-failed_of (operation ∷ batch) w =
      let (r, w') = operation w in
      let (n, u) = run_in_order-failed_of batch w' in
      (length-add_error r (run_in_order batch w').0 ∙ ap (count_error r) n, u)

  count_failures_lem :
      (count : ℕ → W → W) (es : List E) (w : W)
      → count_failures count (es, w) ≡ (ok tt, count_if_any count (length es) w)
  unfolding count_failures
  count_failures_lem count [] w = refl
  count_failures_lem count (e ∷ es) w = refl

  -- A batch of the write-behind queue never throws, whatever its operations do. All of them have been
  -- run, each in the world that the one before it left, also behind a failed one; then the counter of
  -- failed writes is raised once, by the number of those that failed, and not at all if none did.
  pub run_write_behind_batch-after_all :
      (count : ℕ → W → W) (batch : List (Exec W E (Unit {0}))) (w : W)
      → run_write_behind_batch count batch w
        ≡ (ok tt, count_if_any count (failed_of batch w) (after_all batch w))
  unfolding run_write_behind_batch
  run_write_behind_batch-after_all count batch w =
      let (n, u) = run_in_order-failed_of batch w in
      count_failures_lem count (run_in_order batch w).0 (run_in_order batch w).1
      ∙ ap (λ m. (ok tt, count_if_any count m (run_in_order batch w).1)) n
      ∙ ap (λ v. (ok tt, count_if_any count (failed_of batch w) v)) u

-- The current generation, and what is to be cleaned up.
pub record Generations : Type 0 where
  pub current_generation : Option ℕ
  pub generation_cleanup : GenerationCleanupConfig

-- `bumpGeneration(nextGeneration)`: the generation that it returns, and the one whose cleanup it schedules
unfoldable pub bump_generation : Option ℕ → Generations → (ℕ × Option ℕ) × Generations
bump_generation next g =
    let updated : ℕ = or_else next (or_else g.current_generation 0 + 1) in
    (
      (
        updated,
        resolve_generation_cleanup_target g.current_generation updated g.generation_cleanup,
      ),
      record g { current_generation = some updated },
    )

module _ (decimal : ℕ → List ℕ) where
  -- In a stack that has a current generation: after a bump, to the next generation or to another one that is
  -- given, no key is qualified as any key was before it, if decimal notation is injective and has no colon.
  pub bump_generation-apart :
      ((m n : ℕ) → decimal m ≡ decimal n → m ≡ n)
      → ((n : ℕ) → NoColon (decimal n))
      → (next : Option ℕ) (g : Generations) (old : ℕ) (k l : List ℕ)
      → g.current_generation ≡ some old
      → next ≢ some old
      → qualify_generation_key decimal k (bump_generation next g).1.current_generation
        ≢ qualify_generation_key decimal l (some old)
  unfolding bump_generation
  bump_generation-apart inj colon none g old k l e other same =
      let qualified = rw e at same in
      let (equal, keys) = qualify-injective decimal inj colon (old + 1) old k l qualified in
      omega (arith, equal)
  bump_generation-apart inj colon (some n) g old k l e other same =
      other (ap (λ m. some m) (qualify-injective decimal inj colon n old k l same).0)
