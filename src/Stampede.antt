-- ===== src/Stampede.antt =====
-- `StampedeGuard` of src/stampede/StampedeGuard.ts as a state machine. A call of `execute` and what
-- becomes of its promise are steps: the call, the task settling, a caller's timer, a caller going on
-- (`releaseEntry`, in the `finally` block). Entries are objects with an identity, here a number.
pub mod Limits
use layercache.Base.{
  ℕ, zero, suc, ◌+◌, ◌-◌, Bool, true, false, not, ◌&&◌, ◌==◌, leb, Option, none, some,
  if◌then◌else◌, List, [], ◌∷◌, ℕ_discrete,
}
use layercache.JsMap.{JsMap}
use layercache.JsMap

pub record InFlightEntry : Type 0 where
  pub references : ℕ
  pub settled : Bool
  pub timed_out : Bool

-- `entries` is the heap of entry objects; `timeouts` records the calls of `onEntryTimeout`, newest first.
pub record StampedeGuard (K : Type 0) : Type 0 where
  pub in_flight : JsMap K ℕ
  pub max_in_flight : ℕ
  pub active_tasks : ℕ
  pub entries : JsMap ℕ InFlightEntry
  pub next_entry : ℕ
  pub timeouts : List K

abbrev pub init : {K : Type 0} → Option ℕ → StampedeGuard K
init max_in_flight = record {
  in_flight = [];
  max_in_flight = elim max_in_flight [ none ↦ 10_000 | some n ↦ n ];
  active_tasks = 0;
  entries = [];
  next_entry = 0;
  timeouts = [];
}

abbrev pub entry_of : {K : Type 0} → ℕ → StampedeGuard K → Option InFlightEntry
entry_of i g = JsMap.get ℕ_discrete i g.entries

abbrev pub put_entry : {K : Type 0} → ℕ → InFlightEntry → StampedeGuard K → StampedeGuard K
put_entry i e g = record g { entries = JsMap.set ℕ_discrete i e g.entries }

-- What `execute` does before it waits: the caller joins an entry, starts one, or is rejected.
pub data Started : Type 0 where
  joined started : ℕ → Started
  rejected : Started

module _ {K : Type 0} (dec : Discrete K) where
  -- `this.inFlight.get(key) === entry`
  abbrev pub is_current : K → ℕ → StampedeGuard K → Bool
  is_current key i g = elim (JsMap.get dec key g.in_flight) [ none ↦ false | some j ↦ i == j ]

  unfoldable pub execute : K → StampedeGuard K → StampedeGuard K × Started
  execute key g = elim (JsMap.get dec key g.in_flight) [
    | some i ↦ elim (entry_of i g) [
      | none ↦ (g, joined i)
      | some e ↦ (put_entry i (record e { references = e.references + 1 }) g, joined i)
    ]
    | none ↦ if leb g.max_in_flight g.active_tasks then (g, rejected) else (
      record g {
        in_flight = JsMap.set dec key g.next_entry g.in_flight;
        active_tasks = g.active_tasks + 1;
        entries =
            JsMap.set ℕ_discrete g.next_entry
              (record { references = 1; settled = false; timed_out = false }) g.entries;
        next_entry = g.next_entry + 1;
      },
      started g.next_entry,
    )
  ]

  unfoldable pub release_timed_out : K → StampedeGuard K → StampedeGuard K
  release_timed_out key g = elim (JsMap.get dec key g.in_flight) [
    | none ↦ g
    | some i ↦ elim (entry_of i g) [
      | none ↦ g
      | some e ↦ if e.timed_out then g else record (put_entry i (record e { timed_out = true }) g) {
        in_flight = JsMap.delete dec key g.in_flight;
        timeouts = key ∷ g.timeouts;
      }
    ]
  ]

  -- The timer of a caller fires.
  unfoldable pub time_out : K → ℕ → StampedeGuard K → StampedeGuard K
  time_out key i g = if is_current key i g then release_timed_out key g else g

  unfoldable pub release_entry : K → ℕ → StampedeGuard K → StampedeGuard K
  release_entry key i g = elim (entry_of i g) [
    | none ↦ g
    | some e ↦
        let g' = put_entry i (record e { references = e.references - 1 }) g in
        if is_current key i g && (e.references - 1 == 0 && e.settled)
        then record g' { in_flight = JsMap.delete dec key g.in_flight }
        else g'
  ]

  -- A promise settles once.
  unfoldable pub settle_entry : K → ℕ → StampedeGuard K → StampedeGuard K
  settle_entry key i g = elim (entry_of i g) [
    | none ↦ g
    | some e ↦
        if e.settled
        then g
        else let g' = record (put_entry i (record e { settled = true }) g) {
          active_tasks = g.active_tasks - 1;
        } in
          if e.references == 0 && is_current key i g
          then record g' { in_flight = JsMap.delete dec key g.in_flight }
          else g'
  ]

pub data Event (K : Type 0) : Type 0 where
  executes : K → Event K
  detaches : K → Event K
  times_out settles releases : K → ℕ → Event K

module _ {K : Type 0} (dec : Discrete K) where
  unfoldable pub step : StampedeGuard K → Event K → StampedeGuard K
  step g (executes key) = (execute dec key g).0
  step g (detaches key) = release_timed_out dec key g
  step g (times_out key i) = time_out dec key i g
  step g (settles key i) = settle_entry dec key i g
  step g (releases key i) = release_entry dec key i g

  unfoldable pub run : StampedeGuard K → List (Event K) → StampedeGuard K
  run g [] = g
  run g (e ∷ es) = run (step g e) es
