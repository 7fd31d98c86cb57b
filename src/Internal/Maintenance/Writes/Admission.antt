-- ===== src/Internal/Maintenance/Writes/Admission.antt =====
-- The limit on pending writes of src/internal/CacheStackMaintenance.ts.
use layercache.Base.{
  ℕ, zero, suc, ◌+◌, ◌-◌, ◌≤◌, ltb, ltb→le, Option, some, Option-cases, Bool-cases, List, [], ◌∷◌,
  length, ◌≡◌, refl, arith, inl, inr,
}
use layercache.JsMap.{JsMap}
use layercache.JsMap
use layercache.Internal.Maintenance.Writes.{
  Writes, Outcome, unserialized, saturated, admitted, pending_writes, active_keys, per_key,
  new_active_keys, any_full, run_sorted, run_serialized_writes, unique, release_keys, settle,
  History, Event, nth, without_nth, record_outcome, writes_to, ends,
}
use layercache.Internal.Maintenance.Writes

unfoldable pub units : {K : Type 0} → List (ℕ × List K) → ℕ
units [] = 0
units ((t, ks) ∷ l) = length ks + units l

units-without :
    {K : Type 0} (n t : ℕ) (ks : List K) (l : List (ℕ × List K))
    → nth n l ≡ some (t, ks)
    → units l ≡ length ks + units (without_nth n l)
unfolding units
units-without n t ks [] h = absurd (ground arith)
units-without zero t ks ((u, js) ∷ l) h = ground arith
units-without (suc n) t ks ((u, js) ∷ l) h = omega (arith, units-without n t ks l h)

module _ {K : Type 0} (dec : Discrete K) (sort : List K → List K) where
  -- `pendingWriteUnits` counts the keys of the outstanding writes, and is within its limit.
  abbrev pub IsCounted : History K → Type 0
  IsCounted h =
      (h.writes.pending_write_units ≡ units h.outstanding)
      × (h.writes.pending_write_units ≤ h.writes.max_pending_writes)

  run_sorted-IsCounted :
      (ks : List K) (w : Writes K) (out : List (ℕ × List K))
      → w.pending_write_units ≡ units out
      → w.pending_write_units ≤ w.max_pending_writes
      → IsCounted (record_outcome dec sort (run_sorted dec ks w) out)
  unfolding run_sorted units
  run_sorted-IsCounted [] w out c b = (c, b)
  run_sorted-IsCounted (k ∷ ks) w out c b =
      elim (Bool-cases (ltb w.max_pending_writes (w.pending_write_units + length (k ∷ ks)))) [
        | inl x ↦ rw (x, run_sorted) (c, b)
        | inr x ↦
            elim (Bool-cases (
              ltb w.max_active_write_keys
                (JsMap.size w.write_chains + new_active_keys dec (k ∷ ks) w))) [
                  | inl y ↦ rw (x, y, run_sorted) (c, b)
                  | inr y ↦ elim (Bool-cases (any_full dec (k ∷ ks) w)) [
                    | inl z ↦ rw (x, y, z, run_sorted) (c, b)
                    | inr z ↦ rw (x, y, z, run_sorted) (omega (arith, c), ltb→le _ _ x)
                  ]
                ]
      ]

  released :
      (t : ℕ) (ks : List K) (w : Writes K)
      → ((release_keys dec t ks w).pending_write_units ≡ w.pending_write_units)
        × ((release_keys dec t ks w).max_pending_writes ≡ w.max_pending_writes)
  unfolding release_keys
  released t [] w = (refl, refl)
  released t (k ∷ ks) w = released t ks _

  step-IsCounted :
      (h : History K) (e : Event K) → IsCounted h → IsCounted (Writes.step dec sort h e)
  unfolding Writes.step run_serialized_writes settle
  step-IsCounted h (writes_to keys) (c, b) =
      run_sorted-IsCounted (sort (unique dec keys [])) h.writes h.outstanding c b
  step-IsCounted h (ends n) (c, b) = elim (Option-cases (nth n h.outstanding)) [
    | inl e ↦ rw (e, Writes.step) (c, b)
    | inr ((t, ks), e) ↦
        let r =
          released t ks (record (h.writes) {
            pending_write_units = h.writes.pending_write_units - length ks;
          }) in
        rw (e, Writes.step)
          (omega (arith, r.0, c, units-without n t ks h.outstanding e), omega (arith, r.0, r.1, b))
  ]

  run-IsCounted :
      (h : History K) (es : List (Event K)) → IsCounted h → IsCounted (Writes.run dec sort h es)
  unfolding Writes.run
  run-IsCounted h [] v = v
  run-IsCounted h (e ∷ es) v = run-IsCounted (Writes.step dec sort h e) es (step-IsCounted h e v)

  -- Whatever writes come and end, in whatever order, `pendingWriteUnits` is the number of keys of the
  -- writes that were admitted and have not ended, and is never more than `maxPendingWrites`.
  pub pending_write_units-run :
      (max_pending max_active max_per_key : Option ℕ) (es : List (Event K))
      → let h =
          Writes.run dec sort
            (record { writes = Writes.init max_pending max_active max_per_key; outstanding = [] })
            es in
        (h.writes.pending_write_units ≡ units h.outstanding)
        × (h.writes.pending_write_units ≤ h.writes.max_pending_writes)
  pending_write_units-run max_pending max_active max_per_key es =
      run-IsCounted
        (record { writes = Writes.init max_pending max_active max_per_key; outstanding = [] }) es
        (unfold units in refl, omega arith)
