-- ===== src/Tests/Stack.antt =====
-- A small stack, for what is proved of the reader, the writer, fenced writes and the rate limiter.
use layercache.Base.{
  ℕ, zero, suc, ◌+◌, ◌<◌, ◌≤◌, ℤ, pos, Bool, true, false, ◌&&◌, ◌||◌, if◌then◌else◌, Option, none,
  some, or_else, List, [], ◌∷◌, ◌++◌, All, ◌≡◌, ◌≢◌, refl, arith, ℕ_discrete, inr,
}
use layercache.JsMap
use layercache.JsMap.{JsMap}
use layercache.Exec.{ok, Exec, pure, throw, modify, all, all_settled}
use layercache.JsValue.{Value, null, undefined, num, finite, object}
use layercache.StoredValue.{Kind, create_stored_value_envelope}
use layercache.StoredValue.Reads.{State, resolve_stored_value}
use layercache.Layers.Memory
use layercache.Layers.Memory.{MemoryLayer, is_expired, new_entry, lru}
use layercache.Internal.Services.{Layer, Services, Fence, is_outdated}
use layercache.Internal.FencedWrite.{run_fenced_write, check_and_run, finish}
use layercache.Internal.LayerWriter
use layercache.Internal.LayerWriter.{
  Writer, best_effort, build_layer_set_entry, execute_layer_operations, is_best_effort,
}
use layercache.Internal.LayerWriter.Policy.{is_ok, some_ok, all_ok, execute-is_ok}
use layercache.Internal.LayerWriter.Entries.{is_state_expired, is_expired-build}
use layercache.Internal.Reader.{
  Reader, Hit, GetOptions, FetcherContext, fresh_only, allow_stale, read_layer_entry,
  backfill_above, plan_backfill, read_loop, visit, read_from_layers, fetch_and_populate, found_hit,
}
use layercache.Internal.Reader.Hits.{
  IsFound, Returns, IsServed, read_from_layers-IsServed, read_loop-first,
}
use layercache.Internal.Reader.Entries.{found_hit-build}
use layercache.Internal.Reader.Fetches.{fetch_and_populate-outdated}
use layercache.Internal.Reader.Guards.{get_prepared, miss_context}
use layercache.Internal.Reader.Guards.Stale.{get_prepared-stale}
use layercache.Internal.RateLimiter.{RateLimitOptions, BucketKey, Limiter, shared, new_limiter}
use layercache.Internal.RateLimiter.Actions.{Event, schedules, drains, finishes, run}
use layercache.Internal.RateLimiter.Concurrency.{IsConcurrent, run-IsConcurrent}
use layercache.Tests.Values.{options, options-Lifetimes}

-- A world: what a layer holds, the clear epoch, the time and a counter.
pub record World : Type 0 where
  pub content : JsMap ℕ Value
  pub epoch : ℕ
  pub time : ℕ
  pub counted : ℕ

abbrev seven : Value
seven = num (finite (pos 7))

abbrev pub stored_seven : Value
stored_seven = object (create_stored_value_envelope options (pos 1_000))

-- fresh until 2000, stale until 2500
abbrev pub world : World
world = record { content = (4, stored_seven) ∷ []; epoch = 0; time = 2_300; counted = 0 }

abbrev pub empty_layer : Layer ℕ World ℕ
empty_layer = record {
  name = "empty";
  default_ttl = none;
  get_entry = none;
  get = λ key. pure null;
  set = λ key value ttl. throw 5;
  set_many = none;
  delete = λ key. pure tt;
  delete_many = none;
  clear = pure tt;
  is_local = true;
  keys = none;
  for_each_key = none;
  has = none;
  ttl = none;
}

abbrev pub full_layer : Layer ℕ World ℕ
full_layer = record {
  name = "full";
  default_ttl = none;
  get_entry = none;
  get = λ key w. (ok (or_else (JsMap.get ℕ_discrete key w.content) null), w);
  set = λ key value ttl.
      modify (λ w. record w { content = JsMap.set ℕ_discrete key value w.content });
  delete = λ key. modify (λ w. record w { content = JsMap.delete ℕ_discrete key w.content });
  set_many = none;
  delete_many = none;
  clear = modify (λ w. record w { content = [] });
  is_local = false;
  keys = none;
  for_each_key = none;
  has = none;
  ttl = none;
}

abbrev pub services : Services ℕ World ℕ
services = record {
  layers = empty_layer ∷ full_layer ∷ [];
  now = λ w. pos w.time;
  current_clear_epoch = λ w. w.epoch;
  current_key_epoch = λ key w. 0;
  run_serialized_writes = λ keys m. m;
  should_skip_layer = λ layer w. false;
  handle_layer_failure = λ layer operation e. pure tt;
}

abbrev pub count_one : World → World
count_one w = record w { counted = w.counted + 1 }

abbrev pub reader : Reader ℕ World ℕ
reader = record {
  services = services;
  touch = λ key. pure tt;
  remove = λ key. pure tt;
  increment = λ c. count_one;
  record_access = λ key w. w;
  assert_closed = λ key. pure tt;
  record_success = λ key w. w;
  record_circuit_failure = λ key e w. w;
  is_rate_limit_error = λ e. false;
  schedule = λ key m. m;
  store_entry = λ key kind value fence. pure true;
  stampede = none;
  single_flight = none;
  is_graceful_degradation_enabled = false;
  start_background_refresh = λ key fetcher context w. w;
  negative_caching = none;
  cache_null_values = none;
  single_flight_timeout_ms = none;
  single_flight_poll_ms = none;
  random = λ w. 0;
  sleep = λ ms. modify (λ w. record w { time = w.time + ms });
  timeout_error = λ key ms. 9;
}

abbrev pub read_options : GetOptions ℕ World ℕ
read_options = record {
  negative_cache = none;
  cache_null_values = none;
  should_cache = none;
  sliding_ttl = none;
  fallback_ttl = λ layer. none;
  refresh_ahead = λ layer. none;
}

abbrev fence : Fence
fence = record { clear_epoch = 0; key_epoch = 0 }

-- A write during which the stack is cleared.
abbrev cleared_write : Exec World ℕ (Unit {0})
cleared_write = modify (λ w. record w { epoch = 1 })

read_from_layers-IsServed_example :
    Returns (IsServed fresh_only) (read_from_layers reader 4 read_options fresh_only world)
read_from_layers-IsServed_example = read_from_layers-IsServed reader 4 read_options fresh_only world

-- A value that was stored without an envelope.
abbrev plain_world : World
plain_world = record world { content = (4, seven) ∷ [] }

read_loop-first_example :
    (hit : Hit ℕ World ℕ) × (read_loop reader 4 read_options allow_stale fence 0 []
        (empty_layer ∷ full_layer ∷ [])
        false
        plain_world
      ≡ (ok (some hit), count_one (count_one plain_world)))
    × IsFound reader 4 read_options allow_stale fence hit
        (empty_layer ∷ [])
        full_layer
        seven
        (pos 2_300)
unfolding read_layer_entry JsMap.get ℕ_discrete resolve_stored_value
    layercache.StoredValue.as_stored_value_envelope layercache.Internal.Reader.backfill_above
    layercache.Internal.Reader.plan_backfill run_fenced_write check_and_run finish is_outdated
    layercache.Exec.all layercache.Exec.all_settled
read_loop-first_example =
    read_loop-first reader 4 read_options allow_stale fence (empty_layer ∷ []) full_layer []
      plain_world (count_one plain_world) (count_one plain_world) (count_one plain_world) seven
      (refl, tt) refl refl refl refl refl refl

abbrev fetched_during_clear : FetcherContext → Exec World ℕ Value
fetched_during_clear context w = (ok seven, record w { epoch = 1 })

fetch_and_populate-outdated_example :
    fetch_and_populate reader 4 fetched_during_clear read_options fence miss_context world
    ≡ (ok seven, record world { epoch = 1; counted = 1 })
unfolding is_outdated
fetch_and_populate-outdated_example =
    fetch_and_populate-outdated reader 4 read_options fence fetched_during_clear miss_context seven
      world world (record world { epoch = 1; counted = 1 }) refl refl refl

abbrev stale_hit : Hit ℕ World ℕ
stale_hit = record {
  value = seven;
  stored = stored_seven;
  state = State.stale_while_revalidate;
  layer_index = 1;
  layer = full_layer;
}

get_prepared-stale_example :
    (y : Value) × (w' : World) × (get_prepared reader 4 read_options
        (some (λ context. throw 3))
        world
      ≡ (ok y, w'))
unfolding read_from_layers read_loop read_layer_entry JsMap.get backfill_above plan_backfill
    run_fenced_write check_and_run finish is_outdated all all_settled ℕ_discrete
    resolve_stored_value layercache.StoredValue.as_stored_value_envelope
    layercache.StoredValue.accepts layercache.StoredValue.is_marked layercache.StoredValue.view
    layercache.JsValue.read create_stored_value_envelope layercache.StoredValue.is_kind
    layercache.StoredValue.deadlines_fit layercache.StoredValue.is_deadline
    layercache.StoredValue.normalize_positive_ms layercache.StoredValue.deadline
    layercache.Base.◌+ℤ◌ layercache.StoredValue.at_most layercache.StoredValue.not_before
    layercache.StoredValue.lifetimes_fit layercache.Base.◌-ℤ◌
    layercache.StoredValue.Reads.max_expiry layercache.StoredValue.Reads.remaining_stored_ttl_ms
    layercache.StoredValue.Reads.state_at layercache.StoredValue.Reads.unwrap_stored_value
    layercache.StoredValue.is_valid_envelope_ttl_ms
get_prepared-stale_example =
    get_prepared-stale reader 4 read_options (some (λ context. throw 3)) stale_hit world
      (record world { counted = 2 }) refl (λ e. ground (arith, e))

abbrev lifetimes : LayerWriter.Lifetimes ℕ World ℕ
lifetimes = record {
  fresh_ttl = λ layer kind value. some (pos 1_000);
  stale_while_revalidate = λ layer. some (pos 500);
  stale_if_error = λ layer. none;
}

abbrev memory : MemoryLayer ℕ
memory = Memory.init none none none

is_expired-build_example :
    let e = build_layer_set_entry (pos 1_000) lifetimes full_layer Kind.value seven (pos 1_000) in
    is_expired (pos 2_300) (new_entry (pos 1_000) e.value e.ttl memory)
    ≡ is_state_expired (resolve_stored_value (pos 2_300) e.value (pos 2_300)).state
is_expired-build_example =
    is_expired-build lifetimes full_layer Kind.value seven 1_000 999 2_300 (some 499) none memory
      options-Lifetimes (omega arith)

abbrev pub writer : Writer ℕ World ℕ
writer = record {
  services = services;
  should_write_behind = λ layer. false;
  enqueue_write_behind = λ m. pure tt;
  write_policy = some best_effort;
  on_write_failures = λ es. count_one;
  aggregate_error = λ es. 8;
}

abbrev two_writes : List (Exec World ℕ (Unit {0}))
two_writes = throw 1 ∷ pure tt ∷ []

execute-is_ok_example : is_ok (execute_layer_operations writer two_writes world).0 ≡ (
    if is_best_effort writer
    then all_ok two_writes world || some_ok two_writes world
    else all_ok two_writes world)
execute-is_ok_example = execute-is_ok writer two_writes world

abbrev one_at_a_time : RateLimitOptions
one_at_a_time = record {
  max_concurrent = some 1;
  interval_ms = none;
  max_per_interval = none;
  scope = none;
  bucket_key = none;
  queue_overflow = none;
}

-- A decision on buckets whose keys are numbers.
bucket_dec : Discrete (BucketKey ℕ)
bucket_dec = hlevel ℕ_discrete

abbrev limiter_events : List (Event ℕ ℕ)
limiter_events =
    schedules (some one_at_a_time) 4 7 100
    ∷ schedules (some one_at_a_time) 4 7 101
    ∷ drains 50
    ∷ drains 60
    ∷ finishes shared one_at_a_time
    ∷ drains 70
    ∷ []

run-IsConcurrent_example :
    (l : Limiter ℕ (BucketKey ℕ)) × (run ℕ_discrete bucket_dec limiter_events new_limiter ≡ some l)
    × IsConcurrent ℕ_discrete bucket_dec 1 l
run-IsConcurrent_example =
    run-IsConcurrent ℕ_discrete bucket_dec 1 limiter_events
      ((0, refl, omega arith), ((0, refl, omega arith), (tt, (tt, (tt, (tt, tt))))))

found_hit-build_example :
    let e = build_layer_set_entry (pos 1_500) lifetimes full_layer Kind.value seven (pos 1_500) in
    let hit = found_hit reader 1 full_layer e.value world in
    (hit.state ≡ State.fresh) × (hit.value ≡ seven)
found_hit-build_example =
    found_hit-build lifetimes reader full_layer Kind.value seven 1 1_500 999 2_300 (some 499) none
      world options-Lifetimes refl (omega arith) (omega arith)
