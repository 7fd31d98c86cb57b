-- ===== src/CacheStack/Deletion.antt =====
-- What a deletion of src/CacheStack.ts leaves in the layers.
use layercache.Base.{
  ℕ, Bool, false, Option, none, some, List, [], ◌∷◌, All, length, ◌≡◌, refl, sym, ap, subst, ◌∙◌,
}
use layercache.Exec.{ok, err, Exec, all, modify}
use layercache.Exec.Settled.{
  continue-ok, continue_stays, handle_thrown, settled_stable, all_done, All-unit,
}
use layercache.Internal.Services.{Layer, Operation, Services}
use layercache.Internal.InvalidationSupport.{delete_all, delete_from_layer, delete_keys_from_layers}
use layercache.Internal.InvalidationSupport
use layercache.CacheStack.{
  CacheStack, Counter, deletes, invalidations, forget, forget_all, delete_keys,
}

-- `holds layer key w` says that the layer has an entry for the key in the world.
module _ {K W E : Type 0} (dec : Discrete K) (s : Services K W E)
    (holds : Layer K W E → K → W → Bool) where
  -- A method that brings no key into a layer.
  abbrev pub IsShrinking : {A : Type 0} → Exec W E A → Type 0
  IsShrinking m =
      (layer : Layer K W E) (k : K) (w : W)
      → holds layer k w ≡ false
      → holds layer k (m w).1 ≡ false

  -- A layer that deletes what it is asked to, or throws. It is not degraded.
  pub record IsDeleting (layer : Layer K W E) : Type 0 where
    pub never_skipped : (w : W) → s.should_skip_layer layer w ≡ false
    pub failure_thrown :
        (o : Operation) (e : E) (w : W) → s.handle_layer_failure layer o e w ≡ (err e, w)
    pub delete_lem : (k : K) (w v : W) → layer.delete k w ≡ (ok tt, v) → holds layer k v ≡ false
    pub delete_shrinks : (k : K) → IsShrinking (layer.delete k)
    pub delete_many_lem :
        (f : List K → Exec W E (Unit {0}))
        → layer.delete_many ≡ some f
        → (ks : List K) (w v : W) → f ks w ≡ (ok tt, v)
        → All (λ k. holds layer k v ≡ false) ks
    pub delete_many_shrinks :
        (f : List K → Exec W E (Unit {0}))
        → layer.delete_many ≡ some f
        → (ks : List K) → IsShrinking (f ks)

  -- The layer has none of the keys.
  abbrev pub IsWithout : List K → Layer K W E → W → Type 0
  IsWithout ks layer w = All (λ k. holds layer k w ≡ false) ks

  IsWithout-shrunk :
      {A : Type 0} (m : Exec W E A) (layer : Layer K W E) (ks : List K) (w : W)
      → IsShrinking m
      → IsWithout ks layer w
      → IsWithout ks layer (m w).1
  IsWithout-shrunk m layer [] w h g = tt
  IsWithout-shrunk m layer (k ∷ ks) w h g = (h layer k w g.0, IsWithout-shrunk m layer ks w h g.1)

  module _ (layer : Layer K W E) (d : IsDeleting layer) where
    delete_key_lem :
        (k : K) (w : W) → InvalidationSupport.delete_key dec s layer k w ≡ layer.delete k w
    delete_key_lem k w =
        handle_thrown (layer.delete k w) (s.handle_layer_failure layer Operation.delete)
          (d.failure_thrown Operation.delete)

    delete_key_shrinks : (k : K) → IsShrinking (InvalidationSupport.delete_key dec s layer k)
    delete_key_shrinks k j i w h = rw (delete_key_lem k w) (d.delete_shrinks k j i w h)

    delete_all-IsWithout :
        (o : Option (List K → Exec W E (Unit {0}))) (ks : List K) (w v : W)
        → layer.delete_many ≡ o
        → delete_all dec s layer o ks w ≡ (ok tt, v)
        → IsWithout ks layer v
    delete_all-IsWithout none ks w v e h =
        all_done (InvalidationSupport.delete_key dec s layer) (λ k. Unit {0})
          (λ k u. holds layer k u ≡ false) (λ x y u p. delete_key_shrinks x layer y u)
          (λ k u t p r. d.delete_lem k u t (sym (delete_key_lem k u) ∙ r)) ks w v (All-unit ks) h
    delete_all-IsWithout (some f) ks w v e h = d.delete_many_lem f e ks w v (
        sym (
          handle_thrown (f ks w) (s.handle_layer_failure layer Operation.delete)
            (d.failure_thrown Operation.delete))
        ∙ h)

    delete_all-IsShrinking :
        (o : Option (List K → Exec W E (Unit {0}))) (ks : List K)
        → layer.delete_many ≡ o
        → IsShrinking (delete_all dec s layer o ks)
    unfolding all
    delete_all-IsShrinking none ks e j i w h =
        settled_stable (InvalidationSupport.delete_key dec s layer) (λ k. Unit {0})
          (λ (x : K) u. holds j i u ≡ false) (λ x y u p. delete_key_shrinks x j i u) ks i w
          (All-unit ks) h
    delete_all-IsShrinking (some f) ks e j i w h =
        rw
          (handle_thrown (f ks w) (s.handle_layer_failure layer Operation.delete)
            (d.failure_thrown Operation.delete))
          (d.delete_many_shrinks f e ks j i w h)

    delete_from_layer_lem :
        (ks : List K) (w : W)
        → delete_from_layer dec s ks layer w ≡ delete_all dec s layer layer.delete_many ks w
    delete_from_layer_lem ks w = rw (d.never_skipped w) refl

  from_layer-IsWithout :
      (ks : List K) (layer : Layer K W E) (w v : W)
      → IsDeleting layer
      → delete_from_layer dec s ks layer w ≡ (ok tt, v)
      → IsWithout ks layer v
  from_layer-IsWithout ks layer w v d h =
      delete_all-IsWithout layer d layer.delete_many ks w v refl
        (sym (delete_from_layer_lem layer d ks w) ∙ h)

  from_layer-IsShrinking :
      (ks : List K) (layer : Layer K W E)
      → IsDeleting layer
      → IsShrinking (delete_from_layer dec s ks layer)
  from_layer-IsShrinking ks layer d j i w h =
      rw (delete_from_layer_lem layer d ks w)
        (delete_all-IsShrinking layer d layer.delete_many ks refl j i w h)

  from_layers-IsWithout :
      (ks : List K) (w v : W)
      → All IsDeleting s.layers
      → delete_keys_from_layers dec s s.layers ks w ≡ (ok tt, v)
      → All (λ layer. IsWithout ks layer v) s.layers
  unfolding delete_keys_from_layers
  from_layers-IsWithout ks w v d h =
      all_done (delete_from_layer dec s ks) IsDeleting (λ layer u. IsWithout ks layer u)
        (λ x y u p g.
          IsWithout-shrunk (delete_from_layer dec s ks x) y ks u (from_layer-IsShrinking ks x p) g)
        (λ x u t p r. from_layer-IsWithout ks x u t p r) s.layers w v d h

  All-shrunk :
      {A : Type 0} (m : Exec W E A) (ks : List K) (layers : List (Layer K W E)) (w : W)
      → IsShrinking m
      → All (λ layer. IsWithout ks layer w) layers
      → All (λ layer. IsWithout ks layer (m w).1) layers
  All-shrunk m ks [] w h g = tt
  All-shrunk m ks (l ∷ ls) w h g = (IsWithout-shrunk m l ks w h g.0, All-shrunk m ks ls w h g.1)

module _ {R T K W E : Type 0} (dec : Discrete K) (c : CacheStack R T K W E)
    (holds : Layer K W E → K → W → Bool) where
  -- The tag index, the profiles, the breakers and the counters bring no key into a layer.
  pub record IsApart : Type 0 where
    pub forget_shrinks : (k : K) → IsShrinking dec c.writer.services holds (forget dec c k)
    pub increment_shrinks :
        (d : Counter) (n : ℕ)
        → IsShrinking dec c.writer.services holds (modify {E = E} (c.increment d n))

  forget_all-IsShrinking :
      IsApart → (ks : List K) → IsShrinking dec c.writer.services holds (forget_all dec c ks)
  unfolding forget_all
  forget_all-IsShrinking a [] j i w h = h
  forget_all-IsShrinking a (k ∷ ks) j i w h =
      continue_stays (λ u. holds j i u ≡ false) (forget dec c k w) (λ x. forget_all dec c ks)
        (a.forget_shrinks k j i w h) (λ x u g. forget_all-IsShrinking a ks j i u g)

  -- Where no layer is degraded, every layer deletes what it is asked to or throws, and nothing else
  -- writes meanwhile: after a deletion that returns, no layer has an entry for any of the keys.
  pub delete_keys-IsWithout :
      (ks : List K) (w v : W)
      → All (IsDeleting dec c.writer.services holds) c.writer.services.layers
      → IsApart
      → delete_keys dec c ks w ≡ (ok tt, v)
      → All (λ layer. IsWithout dec c.writer.services holds ks layer v) c.writer.services.layers
  unfolding delete_keys
  delete_keys-IsWithout [] w v d a h = All-unit c.writer.services.layers
  delete_keys-IsWithout (k ∷ ks) w v d a h =
      let s = c.writer.services in
      let counted =
        modify {E = E}
          (λ u. c.increment invalidations 1 (c.increment deletes (length (k ∷ ks)) u)) in
      let (a1, w1, e1, f1) = continue-ok _ (λ x. counted) tt v h in
      let (a2, w2, e2, f2) = continue-ok _ (λ x. forget_all dec c (k ∷ ks)) a1 w1 e1 in
      let gone =
        from_layers-IsWithout dec s holds (k ∷ ks) (c.bump_key_epochs (k ∷ ks) w) w2 d e2 in
      let forgotten =
        All-shrunk dec s holds (forget_all dec c (k ∷ ks)) (k ∷ ks) s.layers w2
          (forget_all-IsShrinking a (k ∷ ks)) gone in
      let later =
        subst (λ u. All (λ l. IsWithout dec s holds (k ∷ ks) l u) s.layers) (ap (λ t. t.1) f2)
          forgotten in
      subst (λ u. All (λ l. IsWithout dec s holds (k ∷ ks) l u) s.layers) (ap (λ t. t.1) f1)
        (All-shrunk dec s holds counted (k ∷ ks) s.layers w1
          (λ j i u g.
            a.increment_shrinks invalidations 1 j i _
              (a.increment_shrinks deletes (length (k ∷ ks)) j i u g))
          later)
