-- ===== src/Invalidation/PatternMatcher/Loop.antt =====
-- The matcher of src/invalidation/PatternMatcher.ts decides the usual meaning of a wildcard pattern.
use layercache.Base.{
  ℕ, zero, suc, ◌+◌, ◌*◌, ◌≤◌, ◌<◌, List, [], ◌∷◌, none, some, Bool, true, false, ◌||◌, ◌==◌,
  ==_iff, length, drop, length-drop, arith, ◌≡◌, refl, ap, sym, ◌∙◌, subst, Bool-cases, inl, inr,
}
use layercache.Invalidation.PatternMatcher.{
  star, any_one, only_stars, Backtrack, match_round, match_loop, matches, retry,
}
use layercache.Invalidation.PatternMatcher.Glob.{
  glob, Starless, only_stars-glob, star-drop-suc, glob-star-drop, length-of-glob-star, drop-suc,
  Starless-suc,
}

-- Since the last star the loop has matched `n` characters that are no stars.
abbrev Tracks : List ℕ → List ℕ → Backtrack → Type 0
Tracks p v none = Unit
Tracks p v (some (q, b)) = (n : ℕ) × Starless n q × (drop n q ≡ p) × (drop n b ≡ v)

-- What going back to the last star can still reach.
abbrev later : Backtrack → Bool
later none = false
later (some (q, [])) = false
later (some (q, b ∷ bs)) = glob (star ∷ q) bs

abbrev budget : List ℕ → Backtrack → ℕ
budget v none = length v
budget v (some (q, b)) = length b

abbrev Within : ℕ → Backtrack → Type 0
Within m none = Unit
Within m (some (q, b)) = length q ≤ m

-- The rounds after this one give what `p` and `v`, or a later return to the star, can match.
abbrev LoopSpec : (List ℕ → List ℕ → Backtrack → Bool) → ℕ → ℕ → Type 0
LoopSpec loop m fuel =
    (p v : List ℕ) (back : Backtrack)
    → length p ≤ m
    → Within m back
    → Tracks p v back
    → budget v back * suc m + length p < fuel
    → loop p v back ≡ glob p v || later back

drop-nil : (n : ℕ) → drop {A = ℕ} n [] ≡ []
drop-nil zero = refl
drop-nil (suc n) = refl

retry-later :
    (loop : List ℕ → List ℕ → Backtrack → Bool) (m fuel : ℕ) (p : List ℕ) (c : ℕ) (cs : List ℕ)
    (back : Backtrack)
    → LoopSpec loop m fuel
    → Within m back
    → Tracks p (c ∷ cs) back
    → budget (c ∷ cs) back * suc m + length p < suc fuel
    → retry loop back ≡ later back
unfolding glob
retry-later loop m fuel p c cs none ih i t f = refl
retry-later loop m fuel p c cs (some (q, [])) ih i (n, w, e, h) f =
    absurd (ground (arith, drop-nil n))
retry-later loop m fuel p c cs (some (q, b ∷ [])) ih i t f =
    ground (arith, ih q [] (some (q, [])) i i (0, tt, refl, refl) (omega arith))
retry-later loop m fuel p c cs (some (q, b ∷ b' ∷ bs)) ih i t f =
    ih q (b' ∷ bs) (some (q, b' ∷ bs)) i i (0, tt, refl, refl) (omega arith)

loop-end :
    (p : List ℕ) (back : Backtrack) → Tracks p [] back → only_stars p ≡ glob p [] || later back
loop-end p none t = rw (only_stars-glob p) (ground arith)
loop-end p (some (q, [])) t = rw (only_stars-glob p) (ground arith)
loop-end p (some (q, b ∷ bs)) (n, w, e, h) = elim (Bool-cases (glob (star ∷ q) bs)) [
  | inl hit ↦
      absurd (omega (arith, length-of-glob-star n q bs w hit, ap length h, length-drop n (b ∷ bs)))
  | inr miss ↦ rw (only_stars-glob p, miss) (ground arith)
]

-- At a star the loop forgets the star before it, and loses nothing.
later-le-star :
    (p v : List ℕ) (back : Backtrack)
    → Tracks (star ∷ p) v back
    → later back ≡ true
    → glob (star ∷ p) v ≡ true
later-le-star p v none t h = absurd (ground arith)
later-le-star p v (some (q, [])) t h = absurd (ground arith)
later-le-star p v (some (q, b ∷ bs)) (n, w, e, e') h =
    rw e' at (star-drop-suc n p (b ∷ bs) (glob-star-drop n q p bs w e h))

length-le-budget : (p v : List ℕ) (back : Backtrack) → Tracks p v back → length v ≤ budget v back
length-le-budget p v none t = omega arith
length-le-budget p v (some (q, b)) (n, w, e, h) = omega (arith, ap length h, length-drop n b)

loop-star :
    (loop : List ℕ → List ℕ → Backtrack → Bool) (m fuel : ℕ) (ps : List ℕ) (c : ℕ) (cs : List ℕ)
    (back : Backtrack)
    → LoopSpec loop m fuel
    → length (star ∷ ps) ≤ m
    → Tracks (star ∷ ps) (c ∷ cs) back
    → budget (c ∷ cs) back * suc m + length (star ∷ ps) < suc fuel
    → loop ps (c ∷ cs) (some (ps, c ∷ cs)) ≡ glob (star ∷ ps) (c ∷ cs) || later back
unfolding glob
loop-star loop m fuel ps c cs back ih l t f =
    let here : loop ps (c ∷ cs) (some (ps, c ∷ cs)) ≡ glob (star ∷ ps) (c ∷ cs) =
      ih ps (c ∷ cs) (some (ps, c ∷ cs)) (omega arith) (omega arith) (0, tt, refl, refl)
        (grind (arith, length-le-budget (star ∷ ps) (c ∷ cs) back t)) in
    elim (Bool-cases (later back)) [
      | inl hit ↦ here ∙ ground (arith, later-le-star ps (c ∷ cs) back t hit)
      | inr miss ↦ here ∙ ground arith
    ]

Tracks-next :
    (p : ℕ) (ps : List ℕ) (c : ℕ) (cs : List ℕ) (back : Backtrack)
    → Tracks (p ∷ ps) (c ∷ cs) back
    → (p == star) ≡ false
    → Tracks ps cs back
Tracks-next p ps c cs none t h = tt
Tracks-next p ps c cs (some (q, b)) (n, w, e, e') h =
    (suc n, Starless-suc n q p ps w e h, drop-suc n q p ps e, drop-suc n b c cs e')

budget_next : (c : ℕ) (cs : List ℕ) (back : Backtrack) → budget cs back ≤ budget (c ∷ cs) back
budget_next c cs none = omega arith
budget_next c cs (some (q, b)) = omega arith

glob_one :
    (p c : ℕ) (ps cs : List ℕ)
    → (p == star) ≡ false
    → (p == any_one || p == c) ≡ true
    → glob (p ∷ ps) (c ∷ cs) ≡ glob ps cs
unfolding glob
glob_one p c ps cs h e = rw (h, e)

glob_other :
    (p c : ℕ) (ps cs : List ℕ)
    → (p == star) ≡ false
    → (p == any_one || p == c) ≡ false
    → glob (p ∷ ps) (c ∷ cs) ≡ false
unfolding glob
glob_other p c ps cs h e = rw (h, e)

mul_mono : (m a b : ℕ) → a ≤ b → a * m ≤ b * m
mul_mono m a b h = grind arith

-- One round keeps what the rounds after it are shown to do.
round-LoopSpec :
    (loop : List ℕ → List ℕ → Backtrack → Bool) (m fuel : ℕ)
    → LoopSpec loop m fuel
    → LoopSpec (match_round loop) m (suc fuel)
unfolding match_round
round-LoopSpec loop m fuel ih p [] back l i t f = rw (loop-end p back t)
round-LoopSpec loop m fuel ih [] (c ∷ cs) back l i t f =
    retry-later loop m fuel [] c cs back ih i t f ∙ unfold glob in refl
round-LoopSpec loop m fuel ih (p ∷ ps) (c ∷ cs) back l i t f = elim (Bool-cases (p == star)) [
  | inl hit ↦
      let e = (==_iff p star).0 hit in
      rw hit (
        subst (λ x. loop ps (c ∷ cs) (some (ps, c ∷ cs)) ≡ glob (x ∷ ps) (c ∷ cs) || later back)
          (sym e)
          (loop-star loop m fuel ps c cs back ih l (subst (λ x. Tracks (x ∷ ps) (c ∷ cs) back) e t)
            f))
  | inr miss ↦ elim (Bool-cases (p == any_one || p == c)) [
    | inl one ↦
        rw (miss, one, glob_one p c ps cs miss one)
          (ih ps cs back (omega arith) i (Tracks-next p ps c cs back t miss)
            (omega (arith, mul_mono (suc m) _ _ (budget_next c cs back))))
    | inr other ↦
        rw (miss, other, glob_other p c ps cs miss other)
          (retry-later loop m fuel (p ∷ ps) c cs back ih i t f)
  ]
]

loop-LoopSpec : (fuel m : ℕ) → LoopSpec (match_loop fuel) m fuel
unfolding match_loop
loop-LoopSpec zero m p v back l i t f = absurd (omega arith)
loop-LoopSpec (suc fuel) m p v back l i t f =
    round-LoopSpec (match_loop fuel) m fuel (loop-LoopSpec fuel m) p v back l i t f

-- The matcher decides the meaning of the pattern: on every pattern and value its loop ends within
-- the fuel given, and returns true exactly when stars stand for sequences and question marks for
-- single characters that make the pattern the value.
pub matches-glob : (pattern value : List ℕ) → matches pattern value ≡ glob pattern value
unfolding matches
matches-glob pattern value =
    loop-LoopSpec (suc (length value * suc (length pattern) + length pattern)) (length pattern)
      pattern value none (omega arith) tt tt (omega arith)
    ∙ ground arith
