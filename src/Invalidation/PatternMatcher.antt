-- ===== src/Invalidation/PatternMatcher.antt =====
-- src/invalidation/PatternMatcher.ts, over character codes. An index into a string is represented
-- by the suffix that begins there, so `index += 1` drops the head, and `index < length` says that
-- the suffix is not empty.
pub mod Glob
pub mod Loop
use layercache.Base.{
  ℕ, zero, suc, ◌+◌, ◌*◌, List, [], ◌∷◌, Option, none, some, Bool, true, false, ◌||◌, ◌==◌,
  if◌then◌else◌, length,
}

abbrev pub star : ℕ
star = b'*'

abbrev pub any_one : ℕ
any_one = b'?'

-- `while (pattern[patternIndex] === '*') patternIndex += 1`, then the test for the end
unfoldable pub only_stars : List ℕ → Bool
only_stars [] = true
only_stars (p ∷ ps) = if p == star then only_stars ps else false

-- The suffix of the pattern behind the last star, and that of the value where the star's match
-- ended: `starIndex + 1` and `backtrackValueIndex`.
abbrev pub Backtrack : Type 0
Backtrack = Option (List ℕ × List ℕ)

-- The last branches of the loop: go back to the last star, which takes one character more.
abbrev pub retry : (List ℕ → List ℕ → Backtrack → Bool) → Backtrack → Bool
retry loop none = false
retry loop (some (q, [])) = loop q [] (some (q, []))
retry loop (some (q, b ∷ bs)) = loop q bs (some (q, bs))

-- One round of the loop, `loop` being the rounds after it.
unfoldable pub match_round :
    (List ℕ → List ℕ → Backtrack → Bool) → List ℕ → List ℕ → Backtrack → Bool
unfolding only_stars
match_round loop p [] back = only_stars p
match_round loop [] (c ∷ cs) back = retry loop back
match_round loop (p ∷ ps) (c ∷ cs) back =
    if p == star
    then loop ps (c ∷ cs) (some (ps, c ∷ cs))
    else if p == any_one || p == c
    then loop ps cs back
    else retry loop back

unfoldable pub match_loop : ℕ → List ℕ → List ℕ → Backtrack → Bool
unfolding match_round
match_loop zero p v back = false
match_loop (suc fuel) p v back = match_round (match_loop fuel) p v back

-- `matchLinear`; every round takes a character or moves the end of the last star's match on.
unfoldable pub matches : List ℕ → List ℕ → Bool
unfolding match_loop
matches pattern value =
    match_loop (suc (length value * suc (length pattern) + length pattern)) pattern value none
