-- ===== src/Internal/LayerWriter/Policy.antt =====
-- When the operations of a write (src/internal/CacheStackLayerWriter.ts) fail as a whole.
use layercache.Base.{
  ℕ, ◌≤◌, Bool, true, false, not, ◌||◌, ◌&&◌, ◌==◌, if◌then◌else◌, List, [], ◌∷◌, length, ◌≡◌, refl,
  inl, inr, Bool-cases, arith,
}
use layercache.Exec.{Result, ok, err, Exec, all, all_settled, add_error, first_error}
use layercache.Internal.LayerWriter.{Writer, is_best_effort, report, execute_layer_operations}

abbrev pub is_ok : {E A : Type 0} → Result E A → Bool
is_ok (ok a) = true
is_ok (err e) = false

first_error-ok : {E : Type 0} (es : List E) → is_ok (first_error es) ≡ (length es == 0)
first_error-ok [] = refl
first_error-ok (e ∷ es) = ground arith

module _ {W E : Type 0} where
  -- The operations run in their order, one after the other: one of them succeeds, and all of them do.
  unfoldable pub some_ok : List (Exec W E (Unit {0})) → W → Bool
  some_ok [] w = false
  some_ok (m ∷ ms) w = is_ok (m w).0 || some_ok ms (m w).1

  unfoldable pub all_ok : List (Exec W E (Unit {0})) → W → Bool
  all_ok [] w = true
  all_ok (m ∷ ms) w = is_ok (m w).0 && all_ok ms (m w).1

  -- The number of errors, beside the number of operations.
  abbrev Counted : List (Exec W E (Unit {0})) → W → List E → Type 0
  Counted ms w es =
      (length es ≤ length ms)
      × ((length es == length ms) ≡ not (some_ok ms w))
      × ((length es == 0) ≡ all_ok ms w)

  Counted-cons :
      (m : Exec W E (Unit {0})) (ms : List (Exec W E (Unit {0}))) (w : W) (r : Result E (Unit {0}))
      (es : List E)
      → (m w).0 ≡ r
      → Counted ms (m w).1 es
      → Counted (m ∷ ms) w (add_error r es)
  unfolding some_ok all_ok
  Counted-cons m ms w (ok u) es e c = rw e (ground (arith, c))
  Counted-cons m ms w (err x) es e c = rw e (ground (arith, c))

  settled-Counted : (ms : List (Exec W E (Unit {0}))) (w : W) → Counted ms w (all_settled ms w).0
  unfolding all_settled
  settled-Counted [] w = unfold some_ok all_ok in (omega arith, refl, refl)
  settled-Counted (m ∷ ms) w =
      Counted-cons m ms w (m w).0 (all_settled ms (m w).1).0 refl (settled-Counted ms (m w).1)

module _ {K W E : Type 0} (writer : Writer K W E) where
  report-ok :
      (n : ℕ) (es : List E) (w : W)
      → is_ok (report writer n es w).0 ≡ (length es == 0 || not (length es == n))
  report-ok n [] w = refl
  report-ok n (e ∷ es) w = ground arith

  -- Under the best-effort policy a write fails only if it has operations and every one of them fails;
  -- otherwise it fails if any of them does.
  pub execute-is_ok :
      (ms : List (Exec W E (Unit {0}))) (w : W)
      → is_ok (execute_layer_operations writer ms w).0
        ≡ (if is_best_effort writer then all_ok ms w || some_ok ms w else all_ok ms w)
  unfolding execute_layer_operations all
  execute-is_ok ms w =
      let c = settled-Counted ms w in
      elim (Bool-cases (is_best_effort writer)) [
        | inl e ↦
            rw (e, execute_layer_operations)
              (rw (report-ok (length ms) (all_settled ms w).0 (all_settled ms w).1)
                (ground (arith, c)))
        | inr e ↦
            rw (e, execute_layer_operations)
              (rw (first_error-ok (all_settled ms w).0) (ground (arith, c)))
      ]
