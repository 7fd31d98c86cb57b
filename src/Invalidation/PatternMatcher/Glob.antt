-- ===== src/Invalidation/PatternMatcher/Glob.antt =====
-- The usual meaning of a wildcard pattern, for src/invalidation/PatternMatcher.ts.
use layercache.Base.{
  ℕ, zero, suc, ◌≤◌, List, [], ◌∷◌, Bool, true, false, ◌||◌, ◌==◌, if◌then◌else◌, length, drop,
  arith, ◌≡◌, refl, Bool-cases, inl, inr,
}
use layercache.Invalidation.PatternMatcher.{star, any_one, only_stars}

-- A star stands for any sequence, a question mark for any one character.
unfoldable pub glob : List ℕ → List ℕ → Bool
glob [] [] = true
glob [] (c ∷ cs) = false
glob (p ∷ ps) [] = if p == star then glob ps [] else false
glob (p ∷ ps) (c ∷ cs) =
    if p == star
    then glob ps (c ∷ cs) || glob (p ∷ ps) cs
    else if p == any_one || p == c
    then glob ps cs
    else false

-- No star among the first `n` characters.
abbrev pub Starless : ℕ → List ℕ → Type 0
Starless zero q = Unit
Starless (suc n) [] = ⊥
Starless (suc n) (p ∷ q) = ((p == star) ≡ false) × Starless n q

pub only_stars-glob : (p : List ℕ) → only_stars p ≡ glob p []
unfolding only_stars glob
only_stars-glob [] = refl
only_stars-glob (p ∷ ps) = ground (arith, only_stars-glob ps)

-- What a starless start of the pattern has matched can be cut off both.
glob-drop :
    (n : ℕ) (q s : List ℕ) → Starless n q → glob q s ≡ true → glob (drop n q) (drop n s) ≡ true
unfolding glob
glob-drop zero q s w h = h
glob-drop (suc n) [] s w h = absurd w
glob-drop (suc n) (p ∷ q) [] w h = ground arith
glob-drop (suc n) (p ∷ q) (c ∷ s) w h = ground (arith, glob-drop n q s w.1)

-- A pattern that begins with a star matches also after more characters.
pub star-drop-suc :
    (n : ℕ) (p u : List ℕ)
    → glob (star ∷ p) (drop (suc n) u) ≡ true
    → glob (star ∷ p) (drop n u) ≡ true
unfolding glob
star-drop-suc zero p [] h = h
star-drop-suc zero p (c ∷ u) h = ground arith
star-drop-suc (suc n) p [] h = h
star-drop-suc (suc n) p (c ∷ u) h = star-drop-suc n p u h

-- The first star may be forgotten at the second: what the first could still match, the second can.
pub glob-star-drop :
    (n : ℕ) (q p u : List ℕ)
    → Starless n q
    → drop n q ≡ star ∷ p
    → glob (star ∷ q) u ≡ true
    → glob (star ∷ p) (drop n u) ≡ true
unfolding glob
glob-star-drop n q p [] w e h = rw e at (glob-drop n q [] w h)
glob-star-drop n q p (c ∷ u) w e h = elim (Bool-cases (glob q (c ∷ u))) [
  | inl here ↦ rw e at (glob-drop n q (c ∷ u) w here)
  | inr later ↦ star-drop-suc n p (c ∷ u) (glob-star-drop n q p u w e (rw later at h))
]

-- A starless start takes as many characters as it is long.
length-of-glob : (n : ℕ) (q s : List ℕ) → Starless n q → glob q s ≡ true → n ≤ length s
unfolding glob
length-of-glob zero q s w h = omega arith
length-of-glob (suc n) [] s w h = absurd w
length-of-glob (suc n) (p ∷ q) [] w h = ground arith
length-of-glob (suc n) (p ∷ q) (c ∷ s) w h = ground (arith, length-of-glob n q s w.1)

pub length-of-glob-star :
    (n : ℕ) (q u : List ℕ) → Starless n q → glob (star ∷ q) u ≡ true → n ≤ length u
unfolding glob
length-of-glob-star n q [] w h = length-of-glob n q [] w h
length-of-glob-star n q (c ∷ u) w h =
    ground (arith, length-of-glob n q (c ∷ u) w, length-of-glob-star n q u w)

pub drop-suc : (n : ℕ) (q : List ℕ) (p : ℕ) (ps : List ℕ) → drop n q ≡ p ∷ ps → drop (suc n) q ≡ ps
drop-suc zero [] p ps e = absurd (ground arith)
drop-suc zero (x ∷ q) p ps e = cc
drop-suc (suc n) [] p ps e = absurd (ground arith)
drop-suc (suc n) (x ∷ q) p ps e = drop-suc n q p ps e

pub Starless-suc :
    (n : ℕ) (q : List ℕ) (p : ℕ) (ps : List ℕ)
    → Starless n q
    → drop n q ≡ p ∷ ps
    → (p == star) ≡ false
    → Starless (suc n) q
Starless-suc zero [] p ps w e h = absurd (ground arith)
Starless-suc zero (x ∷ q) p ps w e h = ground arith
Starless-suc (suc n) [] p ps w e h = absurd w
Starless-suc (suc n) (x ∷ q) p ps w e h = (w.0, Starless-suc n q p ps w.1 e h)
