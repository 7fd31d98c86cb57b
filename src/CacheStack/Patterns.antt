-- ===== src/CacheStack/Patterns.antt =====
-- The operations of src/CacheStack.ts on the keys that match a pattern or begin with a prefix. Keys are texts.
use layercache.Base.{Bool, none, List, All, ◌≡◌, subst, ap}
use layercache.Exec.{Result, ok, err, Exec, ◌>>=◌, ◌>>◌}
use layercache.Exec.Settled.{continue-ok}
use layercache.Internal.Services.{Layer}
use layercache.Internal.KeyDiscovery.{
  Text, DiscoveryError, limit_reached, failure, KeyIndex, collect_keys_with_prefix,
  collect_keys_matching_pattern,
}
use layercache.CacheStack.{CacheStack, invalidate_keys, expire_found, delete_keys}
use layercache.CacheStack.Deletion.{IsDeleting, IsApart, IsWithout, delete_keys-IsWithout}

module _ {R T W E : Type 0} (dec : Discrete Text) (c : CacheStack R T Text W E)
    (index : KeyIndex W E) (validate_pattern : Text → Exec W E (Unit {0}))
    (qualify_pattern : Text → Text) where
  abbrev pub thrown : DiscoveryError E → E
  thrown (limit_reached limit) = c.limit_error limit
  thrown (failure e) = e

  abbrev pub discovered : {A : Type 0} → Result (DiscoveryError E) A × W → Result E A × W
  discovered (ok a, w) = (ok a, w)
  discovered (err e, w) = (err (thrown e), w)

  abbrev pub matching_keys : Text → Exec W E (List Text)
  matching_keys pattern w = discovered (
      collect_keys_matching_pattern c.writer.services dec index (qualify_pattern pattern)
        c.invalidation_max_keys w)

  abbrev pub prefixed_keys : Text → Exec W E (List Text)
  prefixed_keys prefix w =
      discovered
        (collect_keys_with_prefix c.writer.services dec index prefix c.invalidation_max_keys w)

  unfoldable pub invalidate_by_pattern : Text → Exec W E (Unit {0})
  invalidate_by_pattern pattern =
      validate_pattern pattern >> c.await_startup >> matching_keys pattern >>= invalidate_keys dec c

  unfoldable pub expire_by_pattern : Text → Exec W E (Unit {0})
  expire_by_pattern pattern =
      validate_pattern pattern >> c.await_startup >> matching_keys pattern >>= expire_found dec c

  unfoldable pub invalidate_by_prefix : R → Exec W E (Unit {0})
  invalidate_by_prefix raw = c.await_startup >> c.qualify_key raw >>= λ prefix.
      prefixed_keys prefix >>= invalidate_keys dec c

  unfoldable pub expire_by_prefix : R → Exec W E (Unit {0})
  expire_by_prefix raw =
      c.await_startup >> c.qualify_key raw >>= λ prefix. prefixed_keys prefix >>= expire_found dec c

  -- Where no message is published: after a deletion of keys that returned, no layer has any.
  invalidate_keys-IsWithout :
      (holds : Layer Text W E → Text → W → Bool) (ks : List Text) (w v : W)
      → c.publish ≡ none
      → All (IsDeleting dec c.writer.services holds) c.writer.services.layers
      → IsApart dec c holds
      → invalidate_keys dec c ks w ≡ (ok tt, v)
      → All (λ layer. IsWithout dec c.writer.services holds ks layer v) c.writer.services.layers
  invalidate_keys-IsWithout holds ks w v p d a h =
      let (b, u, e, f) = continue-ok (delete_keys dec c ks w) _ tt v h in
      let gone = delete_keys-IsWithout dec c holds ks w u d a e in
      let same : u ≡ v = ap (λ t. t.1) (rw p at f) in
      subst
        (λ x.
          All (λ layer. IsWithout dec c.writer.services holds ks layer x) c.writer.services.layers)
        same gone

  -- The keys that match the pattern, once it has been validated and the stack has started.
  abbrev pub FindsByPattern : Text → W → List Text → Type 0
  FindsByPattern pattern w ks =
      (w₁ : W) × (w₂ : W) × (w₃ : W) × (validate_pattern pattern w ≡ (ok tt, w₁))
      × (c.await_startup w₁ ≡ (ok tt, w₂))
      × (collect_keys_matching_pattern c.writer.services dec index (qualify_pattern pattern)
            c.invalidation_max_keys w₂
          ≡ (ok ks, w₃))

  -- The keys that begin with the qualified prefix, once the stack has started.
  abbrev pub FindsByPrefix : R → W → List Text → Type 0
  FindsByPrefix raw w ks =
      (w₁ : W) × (w₂ : W) × (w₃ : W) × (prefix : Text) × (c.await_startup w ≡ (ok tt, w₁))
      × (c.qualify_key raw w₁ ≡ (ok prefix, w₂))
      × (collect_keys_with_prefix c.writer.services dec index prefix c.invalidation_max_keys w₂
          ≡ (ok ks, w₃))

  -- Where no layer is degraded, every layer deletes what it is asked to or throws, nothing else writes
  -- meanwhile, and no message is published: after an invalidation by a pattern that returns, no layer has
  -- any of the keys for which the search of the qualified pattern, from where the call has validated the
  -- pattern and the stack has started, finds a match; and after one by a prefix, no layer has any of those
  -- that the search for the qualified prefix finds.
  pub invalidate_matching-IsWithout :
      (holds : Layer Text W E → Text → W → Bool) (pattern : Text) (raw : R) (w v u : W)
      (ks ls : List Text)
      → c.publish ≡ none
      → All (IsDeleting dec c.writer.services holds) c.writer.services.layers
      → IsApart dec c holds
      → FindsByPattern pattern w ks
      → FindsByPrefix raw w ls
      → invalidate_by_pattern pattern w ≡ (ok tt, v)
      → invalidate_by_prefix raw w ≡ (ok tt, u)
      → All (λ layer. IsWithout dec c.writer.services holds ks layer v) c.writer.services.layers
        × All (λ layer. IsWithout dec c.writer.services holds ls layer u) c.writer.services.layers
  unfolding invalidate_by_pattern invalidate_by_prefix
  invalidate_matching-IsWithout holds pattern raw w v u ks ls p d a (w₁, w₂, w₃, e₁, e₂, e₃)
        (u₁, u₂, u₃, prefix, i₁, i₂, i₃) h g =
      (
        invalidate_keys-IsWithout holds ks w₃ v p d a (rw (e₁, e₂, e₃) at h),
        invalidate_keys-IsWithout holds ls u₃ u p d a (rw (i₁, i₂, i₃) at g),
      )
