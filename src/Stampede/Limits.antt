-- ===== src/Stampede/Limits.antt =====
-- The limit on the tasks that src/stampede/StampedeGuard.ts has under way.
use layercache.Base.{
  ℕ, ◌+◌, ◌-◌, ◌≤◌, Bool, true, false, ◌&&◌, ◌==◌, leb, leb→lt, if◌then◌else◌, Option, none, some,
  Option-cases, Bool-cases, List, [], ◌∷◌, ◌≡◌, refl, arith, inl, inr, ℕ_discrete,
}
use layercache.JsMap.{JsMap}
use layercache.JsMap
use layercache.JsMap.Laws.{get-set}
use layercache.Stampede.{
  InFlightEntry, StampedeGuard, entry_of, put_entry, is_current, execute, release_timed_out,
  time_out, release_entry, settle_entry, Event, joined, started, rejected,
}
use layercache.Stampede

-- The entries whose task has not settled.
abbrev weight : InFlightEntry → ℕ
weight e = if e.settled then 0 else 1

unfoldable pub unsettled : JsMap ℕ InFlightEntry → ℕ
unsettled [] = 0
unsettled ((i, e) ∷ m) = weight e + unsettled m

unsettled-set :
    (i : ℕ) (e f : InFlightEntry) (m : JsMap ℕ InFlightEntry)
    → JsMap.get ℕ_discrete i m ≡ some e
    → unsettled (JsMap.set ℕ_discrete i f m) + weight e ≡ unsettled m + weight f
unfolding unsettled JsMap.set JsMap.get
unsettled-set i e f [] h = absurd (ground arith)
unsettled-set i e f ((j, d) ∷ m) h = grind (arith, unsettled-set i e f m)

unsettled-new :
    (i : ℕ) (f : InFlightEntry) (m : JsMap ℕ InFlightEntry)
    → JsMap.get ℕ_discrete i m ≡ none
    → unsettled (JsMap.set ℕ_discrete i f m) ≡ unsettled m + weight f
unfolding unsettled JsMap.set JsMap.get
unsettled-new i f [] h = omega arith
unsettled-new i f ((j, d) ∷ m) h = ground (arith, unsettled-new i f m)

module _ {K : Type 0} where
  -- The counter is the number of tasks that have not settled, and within the limit; the entries not
  -- yet made have no contents.
  pub record IsValid (g : StampedeGuard K) : Type 0 where
    pub counted : g.active_tasks ≡ unsettled g.entries
    pub bounded : g.active_tasks ≤ g.max_in_flight
    pub unused : (i : ℕ) → g.next_entry ≤ i → JsMap.get ℕ_discrete i g.entries ≡ none

  used-set :
      (i : ℕ) (e f : InFlightEntry) (g : StampedeGuard K)
      → entry_of i g ≡ some e
      → ((j : ℕ) → g.next_entry ≤ j → JsMap.get ℕ_discrete j g.entries ≡ none)
      → (j : ℕ) → g.next_entry ≤ j
      → JsMap.get ℕ_discrete j (JsMap.set ℕ_discrete i f g.entries) ≡ none
  used-set i e f g h u j l = grind (arith, get-set ℕ_discrete j i f g.entries, u j l, h)

  -- An entry that stays settled, or stays unsettled.
  put-IsValid :
      (i : ℕ) (e f : InFlightEntry) (g : StampedeGuard K)
      → entry_of i g ≡ some e
      → weight f ≡ weight e
      → IsValid g
      → IsValid (put_entry i f g)
  put-IsValid i e f g h w v = record {
    counted = omega (arith, v.counted, unsettled-set i e f g.entries h, w);
    bounded = v.bounded;
    unused = used-set i e f g h v.unused;
  }

  -- The map of keys does not matter.
  rekeyed-IsValid :
      (g : StampedeGuard K) (m : JsMap K ℕ) (ts : List K)
      → IsValid g
      → IsValid (record g { in_flight = m; timeouts = ts })
  rekeyed-IsValid g m ts v = record { counted = v.counted; bounded = v.bounded; unused = v.unused }

module _ {K : Type 0} (dec : Discrete K) where
  execute-IsValid : (k : K) (g : StampedeGuard K) → IsValid g → IsValid (execute dec k g).0
  unfolding execute
  execute-IsValid k g v = elim (Option-cases (JsMap.get dec k g.in_flight)) [
    | inl a ↦ elim (Bool-cases (leb g.max_in_flight g.active_tasks)) [
      | inl b ↦ rw (a, b, execute) v
      | inr b ↦
          rw (a, b, execute)
            (let f : InFlightEntry = record {
              references = 1;
              settled = false;
              timed_out = false;
            } in
              let n =
                unsettled-new g.next_entry f g.entries (v.unused g.next_entry (omega arith)) in
              let r = leb→lt g.max_in_flight g.active_tasks b in
              record {
                counted = omega (arith, v.counted, n);
                bounded = omega (arith, r);
                unused = λ i l. ground (
                  arith,
                  get-set ℕ_discrete i g.next_entry f g.entries,
                  v.unused i (omega arith),
                );
              })
    ]
    | inr (i, a) ↦ elim (Option-cases (entry_of i g)) [
      | inl b ↦ rw (a, b, execute) v
      | inr (e, b) ↦
          rw (a, b, execute)
            (put-IsValid i e (record e { references = e.references + 1 }) g b refl v)
    ]
  ]

  release_timed_out-IsValid :
      (k : K) (g : StampedeGuard K) → IsValid g → IsValid (release_timed_out dec k g)
  unfolding release_timed_out
  release_timed_out-IsValid k g v = elim (Option-cases (JsMap.get dec k g.in_flight)) [
    | inl a ↦ rw (a, release_timed_out) v
    | inr (i, a) ↦ elim (Option-cases (entry_of i g)) [
      | inl b ↦ rw (a, b, release_timed_out) v
      | inr (e, b) ↦ elim (Bool-cases e.timed_out) [
        | inl c ↦ rw (a, b, c, release_timed_out) v
        | inr c ↦
            rw (a, b, c, release_timed_out)
              (rekeyed-IsValid (put_entry i (record e { timed_out = true }) g)
                (JsMap.delete dec k g.in_flight) (k ∷ g.timeouts)
                (put-IsValid i e (record e { timed_out = true }) g b refl v))
      ]
    ]
  ]

  time_out-IsValid :
      (k : K) (i : ℕ) (g : StampedeGuard K) → IsValid g → IsValid (time_out dec k i g)
  unfolding time_out
  time_out-IsValid k i g v = elim (Bool-cases (is_current dec k i g)) [
    | inl a ↦ rw (a, time_out) (release_timed_out-IsValid k g v)
    | inr a ↦ rw (a, time_out) v
  ]

  -- A test decides whether the key of the entry is deleted.
  maybe_deleted :
      (b : Bool) (k : K) (g : StampedeGuard K)
      → IsValid g
      → IsValid (if b then record g { in_flight = JsMap.delete dec k g.in_flight } else g)
  maybe_deleted true k g v = rekeyed-IsValid g (JsMap.delete dec k g.in_flight) g.timeouts v
  maybe_deleted false k g v = v

  release_entry-IsValid :
      (k : K) (i : ℕ) (g : StampedeGuard K) → IsValid g → IsValid (release_entry dec k i g)
  unfolding release_entry
  release_entry-IsValid k i g v = elim (Option-cases (entry_of i g)) [
    | inl a ↦ rw (a, release_entry) v
    | inr (e, a) ↦
        rw (a, release_entry)
          (maybe_deleted (is_current dec k i g && (e.references - 1 == 0 && e.settled)) k
            (put_entry i (record e { references = e.references - 1 }) g)
            (put-IsValid i e (record e { references = e.references - 1 }) g a refl v))
  ]

  settle-IsValid :
      (i : ℕ) (e : InFlightEntry) (g : StampedeGuard K)
      → entry_of i g ≡ some e
      → e.settled ≡ false
      → IsValid g
      → IsValid (record (put_entry i (record e { settled = true }) g) {
        active_tasks = g.active_tasks - 1;
      })
  settle-IsValid i e g h s v =
      let u = unsettled-set i e (record e { settled = true }) g.entries h in
      let w : weight e ≡ 1 = rw s refl in
      record {
        counted = omega (arith, v.counted, u, w);
        bounded = omega (arith, v.bounded);
        unused = used-set i e (record e { settled = true }) g h v.unused;
      }

  settle_entry-IsValid :
      (k : K) (i : ℕ) (g : StampedeGuard K) → IsValid g → IsValid (settle_entry dec k i g)
  unfolding settle_entry
  settle_entry-IsValid k i g v = elim (Option-cases (entry_of i g)) [
    | inl a ↦ rw (a, settle_entry) v
    | inr (e, a) ↦ elim (Bool-cases e.settled) [
      | inl s ↦ rw (a, s, settle_entry) v
      | inr s ↦
          rw (a, s, settle_entry)
            (maybe_deleted (e.references == 0 && is_current dec k i g) k
              (record (put_entry i (record e { settled = true }) g) {
                active_tasks = g.active_tasks - 1;
              })
              (settle-IsValid i e g a s v))
    ]
  ]

  step-IsValid : (g : StampedeGuard K) (e : Event K) → IsValid g → IsValid (Stampede.step dec g e)
  unfolding Stampede.step
  step-IsValid g (Stampede.executes k) v = execute-IsValid k g v
  step-IsValid g (Stampede.detaches k) v = release_timed_out-IsValid k g v
  step-IsValid g (Stampede.times_out k i) v = time_out-IsValid k i g v
  step-IsValid g (Stampede.settles k i) v = settle_entry-IsValid k i g v
  step-IsValid g (Stampede.releases k i) v = release_entry-IsValid k i g v

  run-IsValid :
      (g : StampedeGuard K) (es : List (Event K)) → IsValid g → IsValid (Stampede.run dec g es)
  unfolding Stampede.run
  run-IsValid g [] v = v
  run-IsValid g (e ∷ es) v = run-IsValid (Stampede.step dec g e) es (step-IsValid g e v)

  -- In whatever order callers come, tasks settle, timers fire and callers go on, `activeTasks` is the
  -- number of tasks that have not settled, those that timed out included, and is never more than
  -- `maxInFlight`.
  pub active_tasks-run :
      (max_in_flight : Option ℕ) (es : List (Event K))
      → let g = Stampede.run dec (Stampede.init max_in_flight) es in
        (g.active_tasks ≡ unsettled g.entries) × (g.active_tasks ≤ g.max_in_flight)
  active_tasks-run max_in_flight es =
      let v = run-IsValid (Stampede.init max_in_flight) es (record {
        counted = unfold unsettled in refl;
        bounded = omega arith;
        unused = λ i l. unfold JsMap.get in refl;
      }) in
      (v.counted, v.bounded)
