-- ===== src/Internal/Reader.antt =====
-- src/internal/CacheStackReader.ts, over the services of the stack. Latencies, logs and emitted events
-- are left out; what the other services do to the world is theirs. Background refreshes are not awaited:
-- starting one is a service here, and what becomes of it is in Refreshes.
pub mod Hits
pub mod Entries
pub mod Fetches
pub mod Guards
pub mod Refreshes
use layercache.Base.{
  ℕ, zero, suc, ◌+◌, ℤ, pos, Bool, true, false, not, ◌&&◌, ◌||◌, Option, none, some, is_some,
  or_else, if◌then◌else◌, List, [], ◌∷◌, ◌++◌, map, take, ltb_ℤ, length,
}
use layercache.Exec.{
  Result, ok, err, Exec, pure, throw, modify, gets, ◌>>=◌, ◌>>◌, continue, catch, proceed, all,
}
use layercache.JsValue.{Value, undefined, null, is_null, object}
use layercache.StoredValue.{Kind, as_stored_value_envelope, view}
use layercache.StoredValue.Reads.{
  State, fresh, stale_while_revalidate, stale_if_error, expired, resolve_stored_value,
  remaining_stored_ttl_ms, is_empty,
}
use layercache.Internal.RuntimePolicy.{plan_fresh_read_policies}
use layercache.Internal.Services.{
  Layer, Operation, read, backfill, sliding_ttl, Fence, Services, is_outdated, current_fence,
}
use layercache.Internal.FencedWrite.{run_fenced_write}

-- What `metricsCollector` counts here.
pub data Counter (K W E : Type 0) : Type 0 where
  hits misses fetches stale_hits refresh_errors backfills negative_cache_hits single_flight_waits
        degraded_operations :
      Counter K W E
  hits_by_layer misses_by_layer : Layer K W E → Counter K W E

pub data ReadMode : Type 0 where
  allow_stale fresh_only : ReadMode

-- A `ReadHit` that was found.
pub record Hit (K W E : Type 0) : Type 0 where
  pub value : Value
  pub stored : Value
  pub state : State
  pub layer_index : ℕ
  pub layer : Layer K W E

-- `CacheFetcherContext`: the value that is there, if any, and its state
pub record FetcherContext : Type 0 where
  pub current_value : Value
  pub state : Option State

abbrev pub is_expired_state : State → Bool
is_expired_state expired = true
is_expired_state s = false

abbrev pub Fetcher : Type 0 → Type 0 → Type 0
Fetcher W E = FetcherContext → Exec W E Value

-- `CacheGetOptions`, as far as this class reads them; the resolution of lifetimes is given for them.
pub record GetOptions (K W E : Type 0) : Type 0 where
  pub negative_cache : Option Bool
  pub cache_null_values : Option Bool
  pub should_cache : Option (Value → Result E Bool)
  pub sliding_ttl : Option Bool
  pub fallback_ttl : Layer K W E → Option ℤ
  pub refresh_ahead : Layer K W E → Option ℤ

pub record Reader (K W E : Type 0) : Type 0 where
  pub services : Services K W E
  pub touch : K → Exec W E (Unit {0})
  pub remove : K → Exec W E (Unit {0})
  pub increment : Counter K W E → W → W
  pub record_access : K → W → W
  pub assert_closed : K → Exec W E (Unit {0})
  pub record_success : K → W → W
  pub record_circuit_failure : K → E → W → W
  pub is_rate_limit_error : E → Bool
  pub schedule : K → Exec W E Value → Exec W E Value
  pub store_entry : K → Kind → Value → Fence → Exec W E Bool
  pub stampede : Option (K → Exec W E Value → Exec W E Value)
  pub single_flight : Option (K → Exec W E Value → Exec W E Value → Exec W E Value)
  pub is_graceful_degradation_enabled : Bool
  pub start_background_refresh : K → Fetcher W E → FetcherContext → W → W
  pub negative_caching : Option Bool
  pub cache_null_values : Option Bool
  pub single_flight_timeout_ms : Option ℕ
  pub single_flight_poll_ms : Option ℕ
  pub random : W → ℕ
  pub sleep : ℕ → Exec W E (Unit {0})
  pub timeout_error : K → ℕ → E

abbrev pub is_fresh : State → Bool
is_fresh fresh = true
is_fresh s = false

abbrev pub is_negative_stored_value : ℤ → Value → Bool
is_negative_stored_value clock stored = elim (as_stored_value_envelope clock stored) [
  | none ↦ false
  | some v ↦ is_empty (view v).kind
]

-- In fresh-only mode what is stale is passed over.
abbrev pub passes_over : ReadMode → State → Bool
passes_over allow_stale s = false
passes_over fresh_only s = not (is_fresh s)

module _ {K W E : Type 0} (r : Reader K W E) where
  abbrev pub count : Counter K W E → Exec W E (Unit {0})
  count c = modify (r.increment c)

  abbrev pub read_from : Layer K W E → K → Exec W E Value
  read_from layer key = elim layer.get_entry [ none ↦ layer.get key | some get ↦ get key ]

  unfoldable pub read_layer_entry : Layer K W E → K → Exec W E Value
  read_layer_entry layer key w =
      if r.services.should_skip_layer layer w
      then (ok null, w)
      else catch (read_from layer key)
          (λ e. r.services.handle_layer_failure layer read e >> pure null) w

  -- The operation of `backfill` for a layer, with the lifetime that was planned for it.
  abbrev pub backfill_layer : K → Value → Option ℤ → Layer K W E → Exec W E (Unit {0})
  backfill_layer key stored ttl layer w =
      proceed (layer.set key stored ttl w) (λ u. count backfills)
        (r.services.handle_layer_failure layer backfill)

  -- The operations that `backfill` plans; a layer that is to be skipped then gets none.
  unfoldable pub plan_backfill :
      K → Value → GetOptions K W E → List (Layer K W E) → W → List (Exec W E (Unit {0}))
  plan_backfill key stored o [] w = []
  plan_backfill key stored o (layer ∷ layers) w =
      let rest = plan_backfill key stored o layers w in
      if r.services.should_skip_layer layer w
      then rest
      else (let now = r.services.now w in
          let ttl : Option ℤ = elim (remaining_stored_ttl_ms now stored now) [
            | none ↦ o.fallback_ttl layer
            | some t ↦ some t
          ] in
          backfill_layer key stored ttl layer ∷ rest)

  -- `above` are the layers up to `upToIndex`.
  unfoldable pub backfill_above :
      K → Value → List (Layer K W E) → GetOptions K W E → Fence → Exec W E (Unit {0})
  backfill_above key stored [] o fence w = (ok tt, w)
  backfill_above key stored (l ∷ ls) o fence w =
      (run_fenced_write r.services key fence (all (plan_backfill key stored o (l ∷ ls) w))
            (all (map (λ layer. layer.delete key) (l ∷ ls)))
          >> pure tt)
        w

  abbrev pub found_hit : ℕ → Layer K W E → Value → W → Hit K W E
  found_hit index layer stored w =
      let clock = r.services.now w in
      let resolved = resolve_stored_value clock stored clock in
      record {
        value = if is_negative_stored_value clock stored then undefined else resolved.value;
        stored = stored;
        state = resolved.state;
        layer_index = index;
        layer = layer;
      }

  -- What is done before a hit is returned.
  abbrev pub settle_hit :
      K → GetOptions K W E → Fence → List (Layer K W E) → Layer K W E → Value → Exec W E (Unit {0})
  settle_hit key o fence above layer stored =
      r.touch key >> backfill_above key stored above o fence >> count (hits_by_layer layer)

  -- What the loop does with an entry that it takes.
  abbrev pub take_hit :
      K
      → GetOptions K W E
      → Fence
      → ℕ
      → List (Layer K W E)
      → Layer K W E
      → Value
      → Exec W E (Option (Hit K W E))
  take_hit key o fence index above layer stored w =
      (settle_hit key o fence above layer stored >> pure (some (found_hit index layer stored w))) w

  -- What is done where no layer has an entry to take: an unknown key leaves the tag index.
  abbrev pub miss : K → Bool → Exec W E (Option (Hit K W E))
  miss key saw = (if saw then pure tt else r.remove key) >> pure none

  -- The body of the loop for one layer, `loop` being the layers after it, given whether a value that
  -- can still be served was seen.
  abbrev pub visit :
      K
      → GetOptions K W E
      → ReadMode
      → Fence
      → ℕ
      → List (Layer K W E)
      → Layer K W E
      → Bool
      → (Bool → Exec W E (Option (Hit K W E)))
      → Value
      → Exec W E (Option (Hit K W E))
  visit key o mode fence index above layer saw loop stored w =
      if is_null stored
      then (count (misses_by_layer layer) >> loop saw) w
      else (let clock = r.services.now w in
          let state = (resolve_stored_value clock stored clock).state in
          if is_expired_state state
          then (layer.delete key >> loop saw) w
          else if passes_over mode state
          then loop true w
          else take_hit key o fence index above layer stored w)

  -- The loop from the layer at `index` on; `above` are the layers before it.
  unfoldable pub read_loop :
      K
      → GetOptions K W E
      → ReadMode
      → Fence
      → ℕ
      → List (Layer K W E)
      → List (Layer K W E)
      → Bool
      → Exec W E (Option (Hit K W E))
  read_loop key o mode fence index above [] saw = miss key saw
  read_loop key o mode fence index above (layer ∷ layers) saw =
      read_layer_entry layer key
      >>= visit key o mode fence index above layer saw
          (read_loop key o mode fence (suc index) (above ++ layer ∷ []) layers)

  unfoldable pub read_from_layers : K → GetOptions K W E → ReadMode → Exec W E (Option (Hit K W E))
  read_from_layers key o mode w =
      read_loop key o mode (current_fence r.services key w) 0 [] r.services.layers false w

  abbrev pub should_negative_cache : GetOptions K W E → Bool
  should_negative_cache o = or_else o.negative_cache (or_else r.negative_caching false)

  abbrev pub should_cache_null_values : GetOptions K W E → Bool
  should_cache_null_values o = or_else o.cache_null_values (or_else r.cache_null_values true)

  -- `fetched === undefined || (fetched === null && !shouldCacheNullValues)`
  abbrev pub is_empty_result : GetOptions K W E → Value → Bool
  is_empty_result o undefined = true
  is_empty_result o null = not (should_cache_null_values o)
  is_empty_result o v = false

  -- `shouldCache` says no, or throws
  abbrev pub is_declined : GetOptions K W E → Value → Bool
  is_declined o v = elim o.should_cache [
    | none ↦ false
    | some f ↦ elim (f v) [ ok b ↦ not b | err e ↦ true ]
  ]

  -- The part of `fetchAndPopulate` behind the fetch.
  unfoldable pub populate : K → GetOptions K W E → Fence → Value → Exec W E Value
  populate key o fence fetched w =
      if is_empty_result o fetched
      then (if not (should_negative_cache o) || is_outdated r.services key fence w
          then (ok undefined, w)
          else (r.store_entry key Kind.empty null fence >> pure undefined) w)
      else if is_declined o fetched || is_outdated r.services key fence w
      then (ok fetched, w)
      else (r.store_entry key Kind.value fetched fence >> pure fetched) w

  unfoldable pub fetch_and_populate :
      K → Fetcher W E → GetOptions K W E → Fence → FetcherContext → Exec W E Value
  fetch_and_populate key fetcher o fence context = r.assert_closed key >> count fetches >> λ w.
      proceed (r.schedule key (fetcher context) w)
        (λ fetched. modify (r.record_success key) >> populate key o fence fetched)
        (λ e.
          modify (if r.is_rate_limit_error e then (λ v. v) else r.record_circuit_failure key e)
          >> throw e)
