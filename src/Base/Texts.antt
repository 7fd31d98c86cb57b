-- ===== src/Base/Texts.antt =====
-- Texts as lists of character codes.
use Prim.Native.Nat.{ℕ}
use mathlib.Core.Path.{◌≡◌, refl}
use mathlib.Core.Bool.{Bool, true, false, ◌&&◌}
use mathlib.Core.List.{List, [], ◌∷◌, ◌++◌}
use native.Mathlib.Omega.{arith}
use layercache.Base.Tests.{◌==◌}

-- `text.startsWith(prefix)`
unfoldable pub starts_with : List ℕ → List ℕ → Bool
starts_with [] key = true
starts_with (c ∷ cs) [] = false
starts_with (c ∷ cs) (d ∷ ds) = c == d && starts_with cs ds

pub starts_with-append : (p key : List ℕ) → starts_with p (p ++ key) ≡ true
unfolding starts_with
starts_with-append [] key = refl
starts_with-append (c ∷ p) key = ground (arith, starts_with-append p key)

pub append-cancel : {A : Type 0} (p a b : List A) → p ++ a ≡ p ++ b → a ≡ b
append-cancel [] a b e = e
append-cancel (c ∷ p) a b e = append-cancel p a b (ground arith)
