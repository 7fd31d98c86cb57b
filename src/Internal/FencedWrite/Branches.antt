-- ===== src/Internal/FencedWrite/Branches.antt =====
-- What `runFencedWrite` of src/internal/CacheStackMaintenance.ts leaves behind.
use layercache.Base.{Bool, true, false, List, ◌≡◌, ◌⊎◌}
use layercache.Exec.{ok, err, Exec}
use layercache.Internal.Services.{Services, Fence, is_outdated}

module _ {K W E : Type 0} (s : Services K W E) where
  -- What the queue of a key does with an operation: it runs it at some later time, or rejects it.
  abbrev pub IsSerializing : Type 0
  IsSerializing =
      (keys : List K) (m : Exec W E Bool) (w : W)
      → ((v : W) × (s.run_serialized_writes keys m w ≡ m v))
        ⊎ ((e : E) × (v : W) × (s.run_serialized_writes keys m w ≡ (err e, v)))

  module _ (key : K) (fence : Fence) (operation cleanup : Exec W E (Unit {0})) where
    -- What becomes of the world that the operation left: it is kept if the fence is still current, and
    -- cleaned up if it is outdated.
    abbrev pub IsSettled : W → Bool → W → Type 0
    IsSettled u b w' =
        ((is_outdated s key fence u ≡ false) × (b ≡ true) × (w' ≡ u))
        ⊎ ((is_outdated s key fence u ≡ true) × (b ≡ false) × (cleanup u ≡ (ok tt, w')))

    -- From the world in which the queue ran the write: either the fence was outdated and nothing was
    -- done, or it was current and the operation succeeded.
    abbrev pub IsFenced : W → Bool → W → Type 0
    IsFenced v b w' =
        ((is_outdated s key fence v ≡ true) × (b ≡ false) × (w' ≡ v))
        ⊎ ((is_outdated s key fence v ≡ false)
            × ((u : W) × (operation v ≡ (ok tt, u)) × IsSettled u b w'))
