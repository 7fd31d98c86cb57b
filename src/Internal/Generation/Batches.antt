-- ===== src/Internal/Generation/Batches.antt =====
-- The batches of src/internal/CacheStackGeneration.ts cover the keys, each of the size asked for.
use layercache.Base.{
  ℕ, zero, suc, ◌-◌, ◌≤◌, ◌<◌, some, List, [], ◌∷◌, ◌++◌, length, take, drop, ◌≡◌, refl, arith, All,
  ap, ◌∙◌, take-append-drop, length-drop,
}
use layercache.Internal.Generation.{
  GenerationCleanupConfig, batches_from, plan_generation_cleanup_batches,
  resolve_generation_cleanup_batch_size,
}

module _ {K : Type 0} where
  length-take-le : (n : ℕ) (xs : List K) → length (take n xs) ≤ n
  length-take-le zero xs = omega arith
  length-take-le (suc n) [] = omega arith
  length-take-le (suc n) (x ∷ xs) = omega (arith, length-take-le n xs)

  unfoldable pub concat : List (List K) → List K
  concat [] = []
  concat (b ∷ bs) = b ++ concat bs

  -- Every batch holds a key, and no more than the size.
  abbrev pub AllSized : ℕ → List (List K) → Type 0
  AllSized size = All (λ b. (0 < length b) × (length b ≤ size))

  batches_from-covers :
      (fuel size : ℕ) (keys : List K)
      → length keys ≤ fuel
      → (bs : List (List K)) × (batches_from fuel (suc size) keys ≡ some bs)
        × (concat bs ≡ keys)
        × AllSized (suc size) bs
  unfolding batches_from concat
  batches_from-covers fuel size [] h = ([], refl, refl, tt)
  batches_from-covers zero size (k ∷ ks) h = absurd (omega arith)
  batches_from-covers (suc fuel) size (k ∷ ks) h =
      let (bs, e, c, s) =
        batches_from-covers fuel size (drop size ks) (omega (arith, length-drop size ks)) in
      (
        (k ∷ take size ks) ∷ bs,
        rw (e, batches_from) refl,
        ap (◌∷◌ k) (ap (λ r. take size ks ++ r) c ∙ take-append-drop size ks),
        ((omega arith, omega (arith, length-take-le size ks)), s),
      )

  -- With a batch size that is not 0 the planning ends, the batches are all the keys in their order,
  -- and none is empty or larger than the size asked for.
  pub plan_generation_cleanup_batches_lem :
      (keys : List K) (config : GenerationCleanupConfig)
      → 0 < resolve_generation_cleanup_batch_size config
      → (bs : List (List K)) × (plan_generation_cleanup_batches keys config ≡ some bs)
        × (concat bs ≡ keys)
        × AllSized (resolve_generation_cleanup_batch_size config) bs
  unfolding plan_generation_cleanup_batches
  plan_generation_cleanup_batches_lem keys config h =
      let n = resolve_generation_cleanup_batch_size config in
      let e : n ≡ suc (n - 1) = omega arith in
      rw e (batches_from-covers (length keys) (n - 1) keys (omega arith))
