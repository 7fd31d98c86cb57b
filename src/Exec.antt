-- ===== src/Exec.antt =====
-- Asynchronous methods that change the world they run in and may throw. What was done before an error
-- was thrown stays done. No code of the repository is modelled here.
pub mod Settled
use layercache.Base.{List, [], ◌∷◌}

pub data Result (E A : Type 0) : Type 0 where
  ok : A → Result E A
  err : E → Result E A

abbrev pub Exec : Type 0 → Type 0 → Type 0 → Type 0
Exec W E A = W → Result E A × W

abbrev pub add_error : {E A : Type 0} → Result E A → List E → List E
add_error (ok a) es = es
add_error (err e) es = e ∷ es

abbrev pub first_error : {E : Type 0} → List E → Result E (Unit {0})
first_error [] = ok tt
first_error (e ∷ es) = err e

module _ {W E : Type 0} where
  abbrev pub pure : {A : Type 0} → A → Exec W E A
  pure a w = (ok a, w)

  abbrev pub throw : {A : Type 0} → E → Exec W E A
  throw e w = (err e, w)

  abbrev pub modify : (W → W) → Exec W E (Unit {0})
  modify f w = (ok tt, f w)

  abbrev pub gets : {A : Type 0} → (W → A) → Exec W E A
  gets f w = (ok (f w), w)

  abbrev pub continue : {A B : Type 0} → Result E A × W → (A → Exec W E B) → Result E B × W
  continue (ok a, w) f = f a w
  continue (err e, w) f = (err e, w)

  infixl 10 ◌>>=◌ ◌>>◌
  abbrev pub ◌>>=◌ : {A B : Type 0} → Exec W E A → (A → Exec W E B) → Exec W E B
  ◌>>=◌ m f w = continue (m w) f

  abbrev pub ◌>>◌ : {A B : Type 0} → Exec W E A → Exec W E B → Exec W E B
  m >> n = m >>= λ a. n

  -- `try { ... } catch (error) { ... }`
  abbrev pub handle : {A : Type 0} → Result E A × W → (E → Exec W E A) → Result E A × W
  handle (ok a, w) f = (ok a, w)
  handle (err e, w) f = f e w

  abbrev pub catch : {A : Type 0} → Exec W E A → (E → Exec W E A) → Exec W E A
  catch m f w = handle (m w) f

  -- One of two ways to go on, outside of the `try` block.
  abbrev pub proceed :
      {A B : Type 0} → Result E A × W → (A → Exec W E B) → (E → Exec W E B) → Result E B × W
  proceed (ok a, w) f g = f a w
  proceed (err e, w) f g = g e w

  -- `Promise.allSettled`, in one order: every operation runs, and the errors are collected.
  unfoldable pub all_settled : List (Exec W E (Unit {0})) → W → List E × W
  all_settled [] w = ([], w)
  all_settled (m ∷ ms) w =
      let (r, w') = m w in let (es, w'') = all_settled ms w' in (add_error r es, w'')

  -- `Promise.all`, in one order: every operation runs, and the first error is thrown.
  unfoldable pub all : List (Exec W E (Unit {0})) → Exec W E (Unit {0})
  all ms w = let (es, w') = all_settled ms w in (first_error es, w')

-- A method run beside a state that it does not see.
abbrev pub lift : {S W E A : Type 0} → Exec W E A → Exec (S × W) E A
lift m (s, w) = let (r, w') = m w in (r, (s, w'))
