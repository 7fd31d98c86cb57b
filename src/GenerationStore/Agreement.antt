-- ===== src/GenerationStore/Agreement.antt =====
-- Processes that share the store of src/generation/RedisGenerationStore.ts agree on the generation.
use layercache.Base.{
  ℕ, ◌+◌, ◌≡◌, ◌<◌, ◌≤◌, pos, Option-cases, inl, inr, some, le→leb, refl, ap, arith,
}
use layercache.Exec.{ok}
use layercache.Redis.{Text}
use layercache.GenerationStore.{
  Client, Numbers, max_safe, is_generation, parse_generation, checked, assert_generation, read,
  get_or_initialize, set, bump, initialized, IsLawful, initialized,
}

module _ (dec : Discrete Text) (numbers : Numbers) {W : Type 0} (client : Client W) where
  -- What was written is read back.
  abbrev pub Reads : Type 0
  Reads = (n : ℕ) → n ≤ max_safe → numbers.parse_int (numbers.show (pos n)) ≡ some (pos n)

  module _ (reads : Reads) (laws : IsLawful dec numbers client) where
    read-show :
        (n : ℕ) (w : W)
        → n ≤ max_safe
        → client.get w ≡ some (numbers.show (pos n))
        → read dec numbers client w ≡ ok (some (pos n))
    unfolding read parse_generation checked is_generation
    read-show n w small e =
        rw
          (
            read,
            e,
            parse_generation,
            reads n small,
            checked,
            is_generation,
            le→leb n max_safe small,
          )
          (ground arith)

    accepted : (n : ℕ) → n ≤ max_safe → assert_generation dec numbers (pos n) ≡ ok tt
    unfolding assert_generation is_generation
    accepted n small = rw (le→leb n max_safe small) refl

    -- A safe generation that is set is the one that is read, and a bump then returns and stores the next one,
    -- where that is safe as well. The client obeys the laws of Redis, and safe numbers are read as they are
    -- written.
    pub read-set :
        (n : ℕ) (w : W)
        → n < max_safe
        → let w₁ = (set dec numbers client (pos n) w).1 in
          let (r, w₂) = bump dec numbers client w₁ in
          (read dec numbers client w₁ ≡ ok (some (pos n)))
          × (r ≡ ok (pos (n + 1)))
          × (read dec numbers client w₂ ≡ ok (some (pos (n + 1))))
    unfolding set bump
    read-set n w small =
        let w₁ = client.set (numbers.show (pos n)) w in
        let (w₂, answer, stored) = laws.incr-number n w₁ (laws.get-set (numbers.show (pos n)) w) in
        rw (accepted n (omega (arith, small)), answer, accepted (n + 1) (omega (arith, small)))
          (
            read-show n w₁ (omega (arith, small)) (laws.get-set (numbers.show (pos n)) w),
            refl,
            read-show (n + 1) w₂ (omega (arith, small)) stored,
          )

    read-set_nx :
        (v : Text) (u : Text) (w : W)
        → client.get w ≡ some u
        → read dec numbers client (client.set_nx v w) ≡ read dec numbers client w
    unfolding read
    read-set_nx v u w e = rw (read, laws.set_nx-present u v w e, e) refl

    -- The key has a value after it was initialized.
    present : (v : Text) (w : W) → (u : Text) × (client.get (client.set_nx v w) ≡ some u)
    present v w = elim (Option-cases (client.get w)) [
      | inl e ↦ (v, laws.set_nx-absent v w e)
      | inr u ↦ (u.0, laws.set_nx-present u.0 v w u.1)
    ]

    -- Two processes that initialize the generation get the same answer, whatever safe generations they
    -- begin with and whatever is stored: the second gets what the first got. The client obeys the laws of
    -- Redis, and safe numbers are read as they are written.
    pub get_or_initialize-agrees :
        (a c : ℕ) (w : W)
        → a ≤ max_safe
        → c ≤ max_safe
        → (get_or_initialize dec numbers client
            (pos c)
            (get_or_initialize dec numbers client (pos a) w).1).0
          ≡ (get_or_initialize dec numbers client (pos a) w).0
    unfolding get_or_initialize
    get_or_initialize-agrees a c w small₁ small₂ =
        let (u, e) = present (numbers.show (pos a)) w in
        rw (accepted a small₁, accepted c small₂)
          (ap (initialized dec numbers)
            (read-set_nx (numbers.show (pos c)) u (client.set_nx (numbers.show (pos a)) w) e))
