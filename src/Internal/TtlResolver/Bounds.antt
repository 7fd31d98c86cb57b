-- ===== src/Internal/TtlResolver/Bounds.antt =====
-- The bounds that src/internal/TtlResolver.ts keeps.
use layercache.Base.{
  ℕ, zero, suc, ◌+◌, ◌-◌, ◌*◌, ◌/◌, ◌≤◌, ◌<◌, max, leb, ◌==◌, ◌||◌, none, some, [], ◌∷◌, ◌≡◌, refl,
  arith, leb→lt, leb→le, inl, inr, Bool-cases,
}
use layercache.JsMap.{JsMap}
use layercache.JsMap
use layercache.JsMap.Laws.{size-delete-le, size-set}
use layercache.Internal.TtlResolver.{
  jittered, aligned, apply_jitter, TtlResolver, AccessProfile, record_access, prune_if_needed,
}
use native.Mathlib.Nat.{mul-le-mul_right, div-add-mod, mod-lt, mul_comm}

jittered-bounds :
    (random ttl jitter : ℕ)
    → random * jitter ≤ 4_294_967_296 * jitter
    → (1 ≤ jittered random ttl jitter)
      × (jittered random ttl jitter ≤ max 1 (ttl + jitter))
      × (ttl ≤ jittered random ttl jitter + jitter)
jittered-bounds random ttl jitter h = omega arith

-- Jitter moves a lifetime by no more than the jitter asked for, and never to 0: the random number is
-- one of 32 bits.
pub apply_jitter-bounds :
    (random ttl jitter : ℕ)
    → random < 4_294_967_296
    → 0 < ttl
    → (u : ℕ) × (apply_jitter random (some ttl) (some jitter) ≡ some u)
      × (0 < u)
      × (ttl ≤ u + jitter)
      × (u ≤ ttl + jitter)
unfolding apply_jitter
apply_jitter-bounds random ttl jitter r t = elim (Bool-cases (ttl == 0 || jitter == 0)) [
  | inl e ↦ (ttl, rw (e, apply_jitter) refl, t, omega arith, omega arith)
  | inr e ↦
      let (a, b, c) =
        jittered-bounds random ttl jitter
          (mul-le-mul_right {n = 4_294_967_296} jitter (omega arith)) in
      (jittered random ttl jitter, rw (e, apply_jitter) refl, a, c, omega (arith, b))
]

-- A lifetime that is aligned ends at the first multiple of `alignTo` behind the present.
pub aligned_lem :
    (now align : ℕ)
    → 0 < align
    → ((m : ℕ) × (now + aligned now align ≡ align * m))
      × (0 < aligned now align)
      × (aligned now align ≤ align)
aligned_lem now align h =
    let x = now + 1 + (align - 1) in
    let d = div-add-mod x align in
    let m = mod-lt x {m = align} h in
    let q = x / align in
    let c = mul_comm q align in
    ((q, omega (arith, d, m, c)), omega (arith, d, m, c), omega (arith, d, m, c))

module _ {K : Type 0} (dec : Discrete K) where
  size-delete_front :
      (k : K) (v : AccessProfile) (m : JsMap K AccessProfile)
      → JsMap.size (JsMap.delete dec k ((k, v) ∷ m)) ≤ JsMap.size m
  unfolding JsMap.delete
  size-delete_front k v m = ground (arith, size-delete-le dec k m)

  size-delete_oldest-le :
      (n : ℕ) (m : JsMap K AccessProfile) → JsMap.size (JsMap.delete_oldest dec n m) ≤ JsMap.size m
  unfolding JsMap.delete_oldest
  size-delete_oldest-le zero m = omega arith
  size-delete_oldest-le (suc n) [] = omega arith
  size-delete_oldest-le (suc n) ((k, v) ∷ m) =
      omega
        (arith, size-delete_oldest-le n (JsMap.delete dec k ((k, v) ∷ m)), size-delete_front k v m)

  size-delete_oldest :
      (n : ℕ) (m : JsMap K AccessProfile)
      → 0 < n
      → 0 < JsMap.size m
      → JsMap.size (JsMap.delete_oldest dec n m) < JsMap.size m
  unfolding JsMap.delete_oldest
  size-delete_oldest zero m h g = absurd (omega arith)
  size-delete_oldest (suc n) [] h g = absurd (omega arith)
  size-delete_oldest (suc n) ((k, v) ∷ m) h g =
      omega
        (arith, size-delete_oldest-le n (JsMap.delete dec k ((k, v) ∷ m)), size-delete_front k v m)

  size-moved :
      (k : K) (p : AccessProfile) (m : JsMap K AccessProfile)
      → JsMap.size (JsMap.set dec k p (JsMap.delete dec k m)) ≤ JsMap.size m + 1
  size-moved k p m = ground (arith, size-set dec k p (JsMap.delete dec k m), size-delete-le dec k m)

  prune-bounded :
      (r : TtlResolver K)
      → 0 < r.max_profile_entries
      → JsMap.size r.access_profiles ≤ r.max_profile_entries + 1
      → JsMap.size (prune_if_needed dec r).access_profiles ≤ r.max_profile_entries
  unfolding prune_if_needed
  prune-bounded r h b =
      elim (Bool-cases (leb (JsMap.size r.access_profiles) r.max_profile_entries)) [
        | inl e ↦
            rw (e, prune_if_needed) (leb→le (JsMap.size r.access_profiles) r.max_profile_entries e)
        | inr e ↦
            rw (e, prune_if_needed)
              (let f : r.max_profile_entries < JsMap.size r.access_profiles = leb→lt _ _ e in
                omega (
                  arith,
                  size-delete_oldest ((r.max_profile_entries + 9) / 10) r.access_profiles
                      (omega arith) (omega arith),
                ))
      ]

  -- However often keys are read, no more profiles are kept than the limit, if that is not 0: with a
  -- limit of 0 the pruning would remove nothing.
  pub record_access-bounded :
      (now : ℕ) (k : K) (r : TtlResolver K)
      → 0 < r.max_profile_entries
      → JsMap.size r.access_profiles ≤ r.max_profile_entries
      → JsMap.size (record_access dec now k r).access_profiles ≤ r.max_profile_entries
  unfolding record_access
  record_access-bounded now k r h b =
      let p : AccessProfile = record {
        hits = (elim (JsMap.get dec k r.access_profiles) [ none ↦ 0 | some q ↦ q.hits ]) + 1;
        last_access_at = now;
      } in
      prune-bounded
        (record r { access_profiles = JsMap.set dec k p (JsMap.delete dec k r.access_profiles) }) h
        (omega (arith, size-moved k p r.access_profiles))
