-- ===== src/GenerationStore.antt =====
-- `RedisGenerationStore` of src/generation/RedisGenerationStore.ts, over a client for one Redis key. How a
-- number is written and read, `String(n)` and `Number.parseInt(text, 10)`, are parameters; a number that is
-- no integer is refused as a negative one is, and left out.
pub mod Agreement
use layercache.Base.{
  ℕ, ◌+◌, ◌≡◌, ◌≤◌, ◌<◌, Bool, false, leb, ite, ℤ, pos, negsuc, Option, none, some, if◌then◌else◌,
  List, [], ◌∷◌,
}
use layercache.Exec.{Result, ok, err, Exec, pure, throw, modify, continue, ◌>>=◌, ◌>>◌}
use layercache.Redis.{Text}

pub data StoreError : Type 0 where
  invalid_persisted not_initialized invalid_generation not_a_number : StoreError

-- The value at `this.key`. INCR fails on a value that is no integer.
pub record Client (W : Type 0) : Type 0 where
  pub get : W → Option Text
  pub set : Text → W → W
  pub set_nx : Text → W → W
  pub incr : Exec W StoreError ℤ

pub record Numbers : Type 0 where
  pub show : ℤ → Text
  pub parse_int : Text → Option ℤ

-- Number.MAX_SAFE_INTEGER
abbrev pub max_safe : ℕ
max_safe = 9_007_199_254_740_991

unfoldable pub is_generation : ℤ → Bool
is_generation (pos n) = leb n max_safe
is_generation (negsuc n) = false

module _ (dec : Discrete Text) (numbers : Numbers) where
  unfoldable pub checked : Text → ℤ → Result StoreError ℤ
  checked value generation =
      ite (dec (numbers.show generation) value)
        (if is_generation generation then ok generation else err invalid_persisted)
        (err invalid_persisted)

  -- NaN is never written as the text that was read.
  unfoldable pub parse_generation : Text → Result StoreError ℤ
  parse_generation value = elim (numbers.parse_int value) [
    | none ↦ err invalid_persisted
    | some generation ↦ checked value generation
  ]

  unfoldable pub assert_generation : ℤ → Result StoreError (Unit {0})
  assert_generation value = if is_generation value then ok tt else err invalid_generation

  abbrev pub found : Result StoreError ℤ → Result StoreError (Option ℤ)
  found (ok n) = ok (some n)
  found (err e) = err e

  abbrev pub initialized : Result StoreError (Option ℤ) → Result StoreError ℤ
  initialized (ok none) = err not_initialized
  initialized (ok (some n)) = ok n
  initialized (err e) = err e

  module _ {W : Type 0} (client : Client W) where
    unfoldable pub read : W → Result StoreError (Option ℤ)
    read w = elim (client.get w) [ none ↦ ok none | some stored ↦ found (parse_generation stored) ]

    unfoldable pub get : Exec W StoreError (Option ℤ)
    get w = (read w, w)

    unfoldable pub get_or_initialize : ℤ → Exec W StoreError ℤ
    get_or_initialize initial w =
        continue (assert_generation initial, w)
          (λ u w₁. let w₂ = client.set_nx (numbers.show initial) w₁ in (initialized (read w₂), w₂))

    unfoldable pub set : ℤ → Exec W StoreError (Unit {0})
    set generation w =
        continue (assert_generation generation, w)
          (λ u w₁. (ok tt, client.set (numbers.show generation) w₁))

    unfoldable pub bump : Exec W StoreError ℤ
    bump w =
        continue (client.incr w) (λ n w₁. continue (assert_generation n, w₁) (λ u w₂. (ok n, w₂)))

    pub record IsLawful : Type 0 where
      pub get-set : (v : Text) (w : W) → client.get (client.set v w) ≡ some v
      pub set_nx-absent :
          (v : Text) (w : W) → client.get w ≡ none → client.get (client.set_nx v w) ≡ some v
      pub set_nx-present :
          (u v : Text) (w : W) → client.get w ≡ some u → client.get (client.set_nx v w) ≡ some u
      pub incr-number :
          (n : ℕ) (w : W)
          → client.get w ≡ some (numbers.show (pos n))
          → (w' : W) × (client.incr w ≡ (ok (pos (n + 1)), w'))
            × (client.get w' ≡ some (numbers.show (pos (n + 1))))
