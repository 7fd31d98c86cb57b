-- ===== src/Internal/Generation/Keys.antt =====
-- Qualified keys of src/internal/CacheStackGeneration.ts: what is written can be read back, and two
-- generations never share a key.
use mathlib.Core.List.{append_assoc}
use layercache.Base.{
  starts_with-append, ℕ, false, ◌==◌, Option, none, some, List, [], ◌∷◌, ◌++◌, length, drop, ◌≡◌,
  refl, arith, All,
}
use layercache.Internal.Generation.{
  generation_prefix, qualify_generation_key, strip_generation_prefix,
}

abbrev pub NoColon : List ℕ → Type 0
NoColon = All (λ c. (c == b':') ≡ false)

before_colon :
    (a b k l : List ℕ) → NoColon a → NoColon b → a ++ b':' ∷ k ≡ b ++ b':' ∷ l → (a ≡ b) × (k ≡ l)
before_colon [] [] k l n m e = (refl, ground arith)
before_colon [] (d ∷ b) k l n m e = absurd (ground arith)
before_colon (c ∷ a) [] k l n m e = absurd (ground arith)
before_colon (c ∷ a) (d ∷ b) k l n m e =
    let (x, y) = before_colon a b k l n.1 m.1 (ground arith) in (ground arith, y)

module _ (decimal : ℕ → List ℕ) where
  drop-append : (p key : List ℕ) → drop (length p) (p ++ key) ≡ key
  drop-append [] key = refl
  drop-append (c ∷ p) key = drop-append p key

  -- A key that is qualified by a generation, or by none, is the key again without its prefix.
  pub strip-qualify :
      (key : List ℕ) (generation : Option ℕ)
      → strip_generation_prefix decimal (qualify_generation_key decimal key generation) generation
        ≡ key
  unfolding strip_generation_prefix qualify_generation_key generation_prefix
  strip-qualify key none = refl
  strip-qualify key (some g) =
      let p = b'v' ∷ (decimal g ++ b':' ∷ []) in rw (starts_with-append p key) (drop-append p key)

  -- Keys of two generations are different keys, and so are two keys of one generation, if decimal
  -- notation is injective and has no colon in it.
  pub qualify-injective :
      ((m n : ℕ) → decimal m ≡ decimal n → m ≡ n)
      → ((n : ℕ) → NoColon (decimal n))
      → (g h : ℕ) (k l : List ℕ)
      → qualify_generation_key decimal k (some g) ≡ qualify_generation_key decimal l (some h)
      → (g ≡ h) × (k ≡ l)
  unfolding qualify_generation_key generation_prefix
  qualify-injective inj colon g h k l e =
      let apart = before_colon (decimal g) (decimal h) k l (colon g) (colon h) (
        ground (
          arith,
          append_assoc (decimal g) (b':' ∷ []) k,
          append_assoc (decimal h) (b':' ∷ []) l,
        )) in
      (inj g h apart.0, apart.1)
