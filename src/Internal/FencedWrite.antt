-- ===== src/Internal/FencedWrite.antt =====
-- `runFencedWrite` of src/internal/CacheStackMaintenance.ts, over the services of the stack.
pub mod Branches
use layercache.Base.{
  ℕ, Bool, true, false, List, [], ◌∷◌, if◌then◌else◌, ◌≡◌, refl, ◌⊎◌, inl, inr, Bool-cases, arith,
}
use layercache.Exec.{Result, ok, err, Exec, pure, ◌>>=◌, ◌>>◌, continue}
use layercache.Internal.Services.{Services, Fence, is_outdated}

module _ {K W E : Type 0} (s : Services K W E) where
  -- What follows the operation: a fence that has changed meanwhile calls for the cleanup.
  unfoldable pub finish : K → Fence → Exec W E (Unit {0}) → Exec W E Bool
  finish key fence cleanup w =
      if is_outdated s key fence w then (cleanup >> pure false) w else (ok true, w)

  -- What is run once the writes of the key before it have ended.
  unfoldable pub check_and_run :
      K → Fence → Exec W E (Unit {0}) → Exec W E (Unit {0}) → Exec W E Bool
  check_and_run key fence operation cleanup w =
      if is_outdated s key fence w
      then (ok false, w)
      else continue (operation w) (λ u. finish key fence cleanup)

  unfoldable pub run_fenced_write :
      K → Fence → Exec W E (Unit {0}) → Exec W E (Unit {0}) → Exec W E Bool
  run_fenced_write key fence operation cleanup =
      s.run_serialized_writes (key ∷ []) (check_and_run key fence operation cleanup)
