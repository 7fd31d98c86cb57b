-- ===== src/Internal/Maintenance/Epochs.antt =====
-- The epochs of `CacheStackMaintenance` (src/internal/CacheStackMaintenance.ts): the tokens by which
-- a write that was overtaken by an invalidation is recognised.
use layercache.Base.{
  ℕ, ◌+◌, ◌/◌, Bool, false, not, ◌||◌, ◌==◌, leb, or_else, Option, none, some, if◌then◌else◌, List,
  [], ◌∷◌,
}
use layercache.JsMap.{JsMap}
use layercache.JsMap

abbrev pub max_key_epochs : ℕ
max_key_epochs = 50_000

-- Number.MAX_SAFE_INTEGER
abbrev pub max_safe_integer : ℕ
max_safe_integer = 9_007_199_254_740_991

pub record Epochs (K : Type 0) : Type 0 where
  pub key_epochs : JsMap K ℕ
  pub next_key_epoch : ℕ
  pub absent_key_epoch : ℕ
  pub clear_epoch : ℕ

-- a stack just built
abbrev pub init : {K : Type 0} → Epochs K
init = record { key_epochs = []; next_key_epoch = 0; absent_key_epoch = 0; clear_epoch = 0 }

module _ {K : Type 0} where
  unfoldable pub begin_clear_epoch : Epochs K → Epochs K
  begin_clear_epoch s = record s { clear_epoch = s.clear_epoch + 1; key_epochs = [] }

  -- The token is the new `nextKeyEpoch`.
  unfoldable pub allocate_key_epoch : Epochs K → Epochs K
  allocate_key_epoch s =
      if leb max_safe_integer s.next_key_epoch
      then record {
        key_epochs = [];
        next_key_epoch = 1;
        absent_key_epoch = 0;
        clear_epoch = s.clear_epoch + 1;
      }
      else record s { next_key_epoch = s.next_key_epoch + 1 }

module _ {K : Type 0} (dec : Discrete K) where
  unfoldable pub current_key_epoch : K → Epochs K → ℕ
  current_key_epoch key s = or_else (JsMap.get dec key s.key_epochs) s.absent_key_epoch

  -- `keyEpochs.delete(key)`, then `keyEpochs.set(key, allocateKeyEpoch())`
  unfoldable pub bump_key : K → Epochs K → Epochs K
  bump_key key s =
      let s' = allocate_key_epoch (record s { key_epochs = JsMap.delete dec key s.key_epochs }) in
      record s' { key_epochs = JsMap.set dec key s'.next_key_epoch s'.key_epochs }

  unfoldable pub bump_loop : List K → Epochs K → Epochs K
  bump_loop [] s = s
  bump_loop (key ∷ keys) s = bump_loop keys (bump_key key s)

  -- A tenth of the keys is deleted, rounded up: of a map that is not empty, one at least.
  unfoldable pub prune_key_epochs_if_needed : Epochs K → Epochs K
  prune_key_epochs_if_needed s =
      if leb (JsMap.size s.key_epochs) max_key_epochs
      then s
      else let to_delete = (JsMap.size s.key_epochs + 9) / 10 in
        let s' =
          allocate_key_epoch
            (record s { key_epochs = JsMap.delete_oldest dec to_delete s.key_epochs }) in
        record s' { absent_key_epoch = s'.next_key_epoch }

  unfoldable pub bump_key_epochs : List K → Epochs K → Epochs K
  bump_key_epochs keys s = prune_key_epochs_if_needed (bump_loop keys s)

  -- `expected !== undefined && expected !== actual`
  abbrev pub differs : Option ℕ → ℕ → Bool
  differs none actual = false
  differs (some expected) actual = not (expected == actual)

  unfoldable pub is_write_outdated : K → Option ℕ → Option ℕ → Epochs K → Bool
  is_write_outdated key expected_clear_epoch expected_key_epoch s =
      differs expected_clear_epoch s.clear_epoch
      || differs expected_key_epoch (current_key_epoch key s)

-- What may happen to the epochs while a write is under way.
pub data Event (K : Type 0) : Type 0 where
  clears : Event K
  bumps : List K → Event K

module _ {K : Type 0} (dec : Discrete K) where
  unfoldable pub step : Epochs K → Event K → Epochs K
  step s clears = begin_clear_epoch s
  step s (bumps keys) = bump_key_epochs dec keys s

  unfoldable pub run : Epochs K → List (Event K) → Epochs K
  run s [] = s
  run s (e ∷ es) = run (step s e) es
