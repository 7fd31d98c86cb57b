-- ===== src/Exec/Settled.antt =====
-- What holds after methods that returned. No code of the repository is modelled here.
use layercache.Base.{List, [], ◌∷◌, map, All, ◌≡◌, refl, ap, sym, subst, arith}
use layercache.Exec.{
  Result, ok, err, Exec, continue, handle, all, all_settled, add_error, first_error,
}

no_errors : {E : Type 0} (es : List E) → first_error es ≡ ok tt → es ≡ []
no_errors [] h = refl
no_errors (e ∷ es) h = ground (arith, h)

module _ {W E : Type 0} where
  pub continue-ok :
      {A B : Type 0} (x : Result E A × W) (f : A → Exec W E B) (b : B) (v : W)
      → continue x f ≡ (ok b, v)
      → (a : A) × (u : W) × (x ≡ (ok a, u)) × (f a u ≡ (ok b, v))
  continue-ok (ok a, u) f b v h = (a, u, refl, h)
  continue-ok (err e, u) f b v h = ground (arith, h)

  pub continue_stays :
      {A B : Type 0} (P : W → Type 0) (x : Result E A × W) (f : A → Exec W E B)
      → P x.1
      → ((a : A) (w : W) → P w → P (f a w).1)
      → P (continue x f).1
  continue_stays P (ok a, w) f p h = h a w p
  continue_stays P (err e, w) f p h = p

  pub all_settled_nil : (w : W) → all_settled {W = W} {E = E} [] w ≡ ([], w)
  unfolding all_settled
  all_settled_nil w = refl

  pub all_settled_cons :
      (m : Exec W E (Unit {0})) (ms : List (Exec W E (Unit {0}))) (w : W)
      (x : Result E (Unit {0}) × W)
      → m w ≡ x
      → all_settled (m ∷ ms) w ≡ (add_error x.0 (all_settled ms x.1).0, (all_settled ms x.1).1)
  unfolding all_settled
  all_settled_cons m ms w x e =
      ap (λ y. (add_error y.0 (all_settled ms y.1).0, (all_settled ms y.1).1)) e

  -- A method whose errors are thrown again.
  pub handle_thrown :
      {A : Type 0} (x : Result E A × W) (f : E → Exec W E A)
      → ((e : E) (w : W) → f e w ≡ (err e, w))
      → handle x f ≡ x
  handle_thrown (ok a, w) f h = refl
  handle_thrown (err e, w) f h = h e w

  -- `P` are the operations' inputs, `G y w` is what the operation of `y` brings about.
  module _ {X : Type 0} (f : X → Exec W E (Unit {0})) (P : X → Type 0) (G : X → W → Type 0)
      (stable : (x y : X) (w : W) → P x → G y w → G y (f x w).1) where
    pub settled_stable :
        (xs : List X) (y : X) (w : W) → All P xs → G y w → G y (all_settled (map f xs) w).1
    unfolding all_settled
    settled_stable [] y w p g = g
    settled_stable (x ∷ xs) y w p g = settled_stable xs y (f x w).1 p.1 (stable x y w p.0 g)

    done_cons :
        (x : X) (xs : List X) (w : W) (r : Result E (Unit {0}) × W)
        → All P xs
        → ((v : W) → f x w ≡ (ok tt, v) → G x v)
        → f x w ≡ r
        → add_error r.0 (all_settled (map f xs) (f x w).1).0 ≡ []
        → G x (all_settled (map f xs) (f x w).1).1 × ((all_settled (map f xs) (f x w).1).0 ≡ [])
    done_cons x xs w (ok u, v) p done e h =
        (settled_stable xs x (f x w).1 p (subst (λ t. G x t.1) (sym e) (done v e)), h)
    done_cons x xs w (err z, v) p done e h = ground (arith, h)

    settled_done :
        (done : (x : X) (w v : W) → P x → f x w ≡ (ok tt, v) → G x v) (xs : List X) (w : W)
        → All P xs
        → (all_settled (map f xs) w).0 ≡ []
        → All (λ x. G x (all_settled (map f xs) w).1) xs
    unfolding all_settled
    settled_done done [] w p h = tt
    settled_done done (x ∷ xs) w p h =
        let (first, rest) = done_cons x xs w (f x w) p.1 (λ v e. done x w v p.0 e) refl h in
        (first, settled_done done xs (f x w).1 p.1 rest)

    -- If all the operations returned, what each of them brings about holds at the end.
    pub all_done :
        (done : (x : X) (w v : W) → P x → f x w ≡ (ok tt, v) → G x v) (xs : List X) (w v : W)
        → All P xs
        → all (map f xs) w ≡ (ok tt, v)
        → All (λ x. G x v) xs
    unfolding all
    all_done done xs w v p h =
        subst (λ u. All (λ x. G x u) xs) (ap (λ t. t.1) h)
          (settled_done done xs w p (no_errors (all_settled (map f xs) w).0 (ap (λ t. t.0) h)))

pub All-unit : {X : Type 0} (xs : List X) → All (λ x. Unit {0}) xs
All-unit [] = tt
All-unit (x ∷ xs) = (tt, All-unit xs)
