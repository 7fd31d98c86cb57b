-- ===== src/Internal/Reader/Refreshes.antt =====
-- The background refreshes of src/internal/CacheStackReader.ts, as a state machine. A refresh is a
-- number; its fetch, the timeout of its promise and the disconnection are events.
pub mod Tracked
use layercache.Base.{
  ℕ, ◌+◌, ◌==◌, Bool, true, false, ◌&&◌, Option, none, some, or_else, if◌then◌else◌, List, [], ◌∷◌,
  map,
}
use layercache.JsMap.{JsMap}
use layercache.JsMap
use layercache.Internal.RuntimePolicy.{should_start_background_refresh}

-- `next_id` is the number of the next refresh; `refreshes` and `refresh_errors` are counters.
pub record Refreshes (K : Type 0) : Type 0 where
  pub background_refreshes : JsMap K ℕ
  pub background_refresh_abort : JsMap K Bool
  pub next_id : ℕ
  pub refreshes : ℕ
  pub refresh_errors : ℕ

module _ {K : Type 0} (dec : Discrete K) where
  abbrev pub is_aborted : K → Refreshes K → Bool
  is_aborted key r = or_else (JsMap.get dec key r.background_refresh_abort) false

  -- `scheduleBackgroundRefresh`; the refresh begins by counting itself.
  unfoldable pub schedule_background_refresh : Bool → K → Refreshes K → Refreshes K
  schedule_background_refresh is_disconnecting key r =
      if should_start_background_refresh is_disconnecting (JsMap.has dec key r.background_refreshes)
      then record r {
        background_refreshes = JsMap.set dec key r.next_id r.background_refreshes;
        background_refresh_abort = JsMap.set dec key false r.background_refresh_abort;
        next_id = r.next_id + 1;
        refreshes = r.refreshes + 1;
      }
      else r

  abbrev pub count_error : K → Refreshes K → Refreshes K
  count_error key r =
      if is_aborted key r then r else record r { refresh_errors = r.refresh_errors + 1 }

  abbrev pub remove_refresh : K → ℕ → Option ℕ → Refreshes K → Refreshes K
  remove_refresh key id none r = r
  remove_refresh key id (some current) r =
      if current == id
      then record r {
        background_refreshes = JsMap.delete dec key r.background_refreshes;
        background_refresh_abort = JsMap.delete dec key r.background_refresh_abort;
      }
      else r

  -- The fetch of a refresh ends, and fails or not.
  unfoldable pub end_refresh : K → ℕ → Bool → Refreshes K → Refreshes K
  end_refresh key id failed r =
      let r' = if failed then count_error key r else r in
      remove_refresh key id (JsMap.get dec key r'.background_refreshes) r'

  -- A refresh takes longer than its timeout.
  unfoldable pub time_out_refresh : K → Refreshes K → Refreshes K
  time_out_refresh key r = count_error key r

  abbrev pub abort_each : JsMap K Bool → JsMap K Bool
  abort_each [] = []
  abort_each ((k, b) ∷ m) = (k, true) ∷ abort_each m

  unfoldable pub abort_all_refreshes : Refreshes K → Refreshes K
  abort_all_refreshes r = record r {
    background_refresh_abort = abort_each r.background_refresh_abort;
  }

abbrev pub active_refresh_count : {K : Type 0} → Refreshes K → ℕ
active_refresh_count r = JsMap.size r.background_refreshes

-- What happens to a reader's refreshes.
pub data Event (K : Type 0) : Type 0 where
  schedules : Bool → K → Event K
  ends : K → ℕ → Bool → Event K
  times_out : K → Event K
  aborts_all : Event K

abbrev pub no_refreshes : {K : Type 0} → Refreshes K
no_refreshes = record {
  background_refreshes = [];
  background_refresh_abort = [];
  next_id = 0;
  refreshes = 0;
  refresh_errors = 0;
}

module _ {K : Type 0} (dec : Discrete K) where
  unfoldable pub step : Event K → Refreshes K → Refreshes K
  step (schedules d key) r = schedule_background_refresh dec d key r
  step (ends key id failed) r = end_refresh dec key id failed r
  step (times_out key) r = time_out_refresh dec key r
  step aborts_all r = abort_all_refreshes dec r

  unfoldable pub run : List (Event K) → Refreshes K → Refreshes K
  run [] r = r
  run (e ∷ es) r = run es (step e r)
