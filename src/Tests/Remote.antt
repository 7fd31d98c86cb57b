-- ===== src/Tests/Remote.antt =====
-- Inputs for the parts that keep their state in Redis.
use layercache.Base.{
  true, ℕ, false, none, ℤ, pos, negsuc, Option, some, zero, suc, or_else, ◌+◌, sym, ◌≢◌, List, [],
  ◌∷◌, ◌≡◌, ◌⊎◌, refl, ◌∙◌, arith, ℕ_discrete,
}
use layercache.Base.{All}
use layercache.JsMap.{JsMap}
use layercache.JsMap
use layercache.Exec.{Result, ok, err, Exec, pure, throw}
use layercache.SingleFlight.{
  Coordinator, Execution, worker_error, lock_key, holds, release_script, acquire, run_command,
  execute, FlightError, release, settle_command,
}
use layercache.SingleFlight.Leases.{
  Flight, Reach, start, later, acquires, waits, lapses, ends, HasLease, Exclusive, reach-Exclusive,
}
use layercache.SingleFlight.Runs.{holds-execute}
use layercache.SingleFlight.Memory
use layercache.GenerationStore
use layercache.GenerationStore.{Client, Numbers, StoreError, not_a_number}
use layercache.GenerationStore.Agreement.{get_or_initialize-agrees}
use layercache.Redis.{Text}
use layercache.Redis.Memory.{Pairs, memory, memory-IsLawful}
use layercache.JsMap.Members.{contains}
use layercache.Invalidation.PatternMatcher.Glob.{glob}
use layercache.Invalidation.PatternMatcher.Loop.{matches-glob}
use layercache.Invalidation.TagIndex.{Call, removes, tracks, clears}
use layercache.Invalidation.RedisTagIndex.{
  RedisTagIndex, Builtins, keys_for_prefix, migrate_legacy_known_keys,
}
use layercache.Invalidation.RedisTagIndex.View.{empty_view, view_run, redis_run}
use layercache.Invalidation.RedisTagIndex.Answers.{Answers}
use layercache.Invalidation.RedisTagIndex.Refinement.{run-Answers}
use layercache.Invalidation.RedisTagIndex.Migration.{contains_prefix-migrate}

pub head_of : {c d : ℕ} {cs ds : Text} → c ∷ cs ≡ d ∷ ds → c ≡ d
head_of h = ground (arith, h)

pub tail_of : {c d : ℕ} {cs ds : Text} → c ∷ cs ≡ d ∷ ds → cs ≡ ds
tail_of h = ground (arith, h)

pub not_empty : {c : ℕ} {cs : Text} → c ∷ cs ≢ []
not_empty h = ground (arith, h)

unfoldable pub both : {c d : ℕ} {cs ds : Text} → Dec (c ≡ d) → Dec (cs ≡ ds) → Dec (c ∷ cs ≡ d ∷ ds)
both (yes e) (yes f) = yes (λ i. e i ∷ f i)
both (yes e) (no n) = no (λ h. n (tail_of h))
both (no n) f = no (λ h. n (head_of h))

-- `List-discrete`, which does not compute outside of its module.
unfoldable pub text_dec : Discrete Text
text_dec [] [] = yes refl
text_dec [] (d ∷ ds) = no (λ h. not_empty (sym h))
text_dec (c ∷ cs) [] = no not_empty
text_dec (c ∷ cs) (d ∷ ds) = both (ℕ_discrete c d) (text_dec cs ds)

abbrev plain : Builtins
plain = record { decimal = λ n. n ∷ []; encode_uri_component = λ x. x }

abbrev sharded_index : RedisTagIndex
sharded_index = record { prefix = []; scan_count = 100; known_keys_shards = 4 }

glob_all : (x : Text) → glob (b'*' ∷ []) x ≡ true
unfolding glob
glob_all [] = refl
glob_all (c ∷ cs) = ground (arith, glob_all cs)

glob_after_colon : (x : Text) → glob (b':' ∷ b'*' ∷ []) (b':' ∷ x) ≡ true
unfolding glob
glob_after_colon x = ground (arith, glob_all x)

-- The key 7 loses its tag 3 to the tag 4, and the key 8 is removed.
abbrev remote_calls : List Call
remote_calls =
    tracks (7 ∷ []) ((3 ∷ []) ∷ [])
    ∷ tracks (8 ∷ []) ((3 ∷ []) ∷ [])
    ∷ tracks (7 ∷ []) ((4 ∷ []) ∷ [])
    ∷ removes (8 ∷ [])
    ∷ []

run-Answers_example :
    Answers plain sharded_index
      (memory text_dec)
      text_dec
      (view_run text_dec empty_view remote_calls)
      (redis_run plain sharded_index
        (memory text_dec)
        text_dec
        ((b':' ∷ 1 ∷ [], 2 ∷ []) ∷ [])
        (clears ∷ remote_calls))
run-Answers_example =
    run-Answers plain sharded_index (memory text_dec) text_dec (memory-IsLawful text_dec)
      (λ x y e. e) (λ x. matches-glob (b':' ∷ b'*' ∷ []) (b':' ∷ x) ∙ glob_after_colon x)
      (omega arith) ((b':' ∷ 1 ∷ [], 2 ∷ []) ∷ []) remote_calls

-- Two keys in the set without shards.
abbrev legacy_state : Pairs
legacy_state =
    (b':' ∷ b'k' ∷ b'e' ∷ b'y' ∷ b's' ∷ [], 7 ∷ [])
    ∷ (b':' ∷ b'k' ∷ b'e' ∷ b'y' ∷ b's' ∷ [], 7 ∷ 8 ∷ [])
    ∷ []

contains_prefix-migrate_example :
    let redis = memory text_dec in
    contains text_dec (7 ∷ 8 ∷ []) (
      keys_for_prefix plain sharded_index redis text_dec
        (7 ∷ [])
        (migrate_legacy_known_keys plain sharded_index redis legacy_state).1)
    ≡ contains text_dec
        (7 ∷ 8 ∷ [])
        (keys_for_prefix plain sharded_index redis text_dec (7 ∷ []) legacy_state)
contains_prefix-migrate_example =
    contains_prefix-migrate plain sharded_index (memory text_dec) text_dec
      (memory-IsLawful text_dec) (7 ∷ []) legacy_state (7 ∷ 8 ∷ []) (omega arith)

abbrev coordinator : Coordinator
coordinator = record { prefix = 9 ∷ []; encode = λ x. x; command_timeout_ms = none }

abbrev execution : Execution
execution = record { lease_ms = 500; renew_interval_ms = none }

-- A worker is let in, a second caller waits, the lease of the first expires, the second is let in, and the
-- first ends.
abbrev first_flight : Flight
first_flight = record { key = 7 ∷ []; token = 1 ∷ []; lapsed = false }

abbrev second_flight : Flight
second_flight = record { key = 7 ∷ []; token = 2 ∷ []; lapsed = false }

reach_two :
    Reach text_dec
      (Memory.memory text_dec)
      coordinator
      []
      ((9 ∷ b':' ∷ 7 ∷ [], 2 ∷ []) ∷ [])
      (second_flight ∷ [])
unfolding both text_dec ℕ_discrete JsMap.get JsMap.set JsMap.delete lock_key release_script holds
reach_two =
    later
      (later
        (later
          (later (later start (acquires (7 ∷ []) (1 ∷ []) 500 tt refl))
            (waits (7 ∷ []) (2 ∷ []) 500))
          (lapses (9 ∷ b':' ∷ 7 ∷ [])))
        (acquires (7 ∷ []) (2 ∷ []) 500 (λ e. ground (arith, e), tt) refl))
      (ends (7 ∷ []) (1 ∷ []))

reach-Exclusive_example :
    Exclusive text_dec
      (Memory.memory text_dec)
      coordinator
      (Memory.memory-IsLawful text_dec)
      (second_flight ∷ [])
    × All
        (HasLease text_dec (Memory.memory text_dec) coordinator ((9 ∷ b':' ∷ 7 ∷ [], 2 ∷ []) ∷ []))
        (second_flight ∷ [])
reach-Exclusive_example =
    reach-Exclusive text_dec (Memory.memory text_dec) coordinator (Memory.memory-IsLawful text_dec)
      [] ((9 ∷ b':' ∷ 7 ∷ [], 2 ∷ []) ∷ []) (second_flight ∷ []) reach_two

-- The worker throws.
abbrev failing_worker : Exec (JsMap Text Text) (FlightError ℕ) ℕ
failing_worker = throw (worker_error 5)

abbrev answer : Result (FlightError ℕ) (Unit {0})
answer = ok tt

holds-execute_example :
    ((answer ≡ ok tt)
      × (execute text_dec
            (Memory.memory text_dec)
            coordinator
            (7 ∷ [])
            (1 ∷ [])
            execution
            failing_worker
            (pure 3)
            []
          ≡ (err (worker_error 5), []))
      × (holds text_dec (Memory.memory text_dec) (9 ∷ b':' ∷ 7 ∷ []) (1 ∷ []) [] ≡ false))
    ⊎ ((e : FlightError ℕ) × (answer ≡ err e)
        × (execute text_dec
              (Memory.memory text_dec)
              coordinator
              (7 ∷ [])
              (1 ∷ [])
              execution
              failing_worker
              (pure 3)
              []
            ≡ (err e, [])))
unfolding both text_dec ℕ_discrete JsMap.get JsMap.set JsMap.delete lock_key acquire release
    release_script holds run_command settle_command
holds-execute_example =
    holds-execute text_dec (Memory.memory text_dec) (Memory.memory-IsLawful text_dec) ℕ coordinator
      (7 ∷ []) (1 ∷ []) execution failing_worker (pure 3) [] ((9 ∷ b':' ∷ 7 ∷ [], 1 ∷ []) ∷ []) []
      answer refl refl

-- A number is its sign and its size.
abbrev written : ℤ → Text
written (pos n) = 0 ∷ n ∷ []
written (negsuc n) = 1 ∷ n ∷ []

abbrev number_in : Text → Option ℤ
number_in (zero ∷ n ∷ []) = some (pos n)
number_in (suc zero ∷ n ∷ []) = some (negsuc n)
number_in other = none

abbrev numbers : Numbers
numbers = record { show = written; parse_int = number_in }

abbrev next : Option ℤ → Option Text → Result StoreError ℤ × Option Text
next (some (pos n)) w = (ok (pos (n + 1)), some (written (pos (n + 1))))
next other w = (err not_a_number, w)

abbrev one_key : Client (Option Text)
one_key = record {
  get = λ w. w;
  set = λ v w. some v;
  set_nx = λ v w. some (or_else w v);
  incr = λ w. next (elim w as (λ x. Option ℤ) [ none ↦ some (pos 0) | some t ↦ number_in t ]) w;
}

one_key-IsLawful : GenerationStore.IsLawful text_dec numbers one_key
one_key-IsLawful = record {
  get-set = λ v w. refl;
  set_nx-absent = λ v w e. rw e refl;
  set_nx-present = λ u v w e. rw e refl;
  incr-number = λ n w e. (some (written (pos (n + 1))), rw e refl, refl);
}

get_or_initialize-agrees_example :
    (GenerationStore.get_or_initialize text_dec numbers one_key
      (pos 9)
      (GenerationStore.get_or_initialize text_dec numbers one_key (pos 3) none).1).0
    ≡ (GenerationStore.get_or_initialize text_dec numbers one_key (pos 3) none).0
get_or_initialize-agrees_example =
    get_or_initialize-agrees text_dec numbers one_key (λ n small. refl) one_key-IsLawful 3 9 none
      (omega arith) (omega arith)
