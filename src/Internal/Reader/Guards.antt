-- ===== src/Internal/Reader/Guards.antt =====
-- How src/internal/CacheStackReader.ts guards a fetch, waits for the fetch of another process, and
-- answers a read. `random` is a number below 2 ** 53, of which `Math.random()` is the quotient.
pub mod Polls
pub mod Stale
use layercache.Base.{
  ℕ, zero, suc, ◌+◌, ◌-◌, ◌*◌, ◌/◌, min, max, ℤ, pos, ◌+ℤ◌, ◌-ℤ◌, leb_ℤ, pos_part, Bool, true,
  false, not, ◌&&◌, Option, none, some, is_some, or_else, if◌then◌else◌, List, [], ◌∷◌, take,
}
use layercache.Exec.{
  Result, ok, err, Exec, pure, throw, modify, ◌>>=◌, ◌>>◌, continue, proceed, handle, catch, all,
}
use layercache.JsValue.{Value, undefined}
use layercache.StoredValue.Reads.{State, fresh, stale_while_revalidate, stale_if_error, expired}
use layercache.Internal.RuntimePolicy.{FreshReadPolicyPlan, plan_fresh_read_policies}
use layercache.Internal.Services.{Layer, sliding_ttl, Fence, Services, current_fence}
use layercache.Internal.Reader.{
  Reader, Hit, GetOptions, Fetcher, FetcherContext, fresh_only, allow_stale, count, hits, misses,
  stale_hits, refresh_errors, negative_cache_hits, single_flight_waits, degraded_operations,
  read_from_layers, fetch_and_populate, is_negative_stored_value,
}

module _ {K W E : Type 0} where
  abbrev pub hit_context : Hit K W E → FetcherContext
  hit_context hit = record { current_value = hit.value; state = some hit.state }

abbrev pub miss_context : FetcherContext
miss_context = record { current_value = undefined; state = none }

-- `Math.round(delayMs - delayMs * 0.2 + Math.random() * delayMs * 0.4)`, at least 1
unfoldable pub jitter_single_flight_poll : ℕ → ℕ → ℕ
jitter_single_flight_poll random delay_ms = max 1 (
    (2 * (delay_ms * (36_028_797_018_963_968 + 2 * random)) + 45_035_996_273_704_960)
    / 90_071_992_547_409_920)

module _ {K W E : Type 0} (r : Reader K W E) (key : K) (fetcher : Fetcher W E)
    (o : GetOptions K W E) where
  -- What a fresh hit answers, and what comes where there is none.
  abbrev pub answer_or : Option (Hit K W E) → Exec W E Value → Exec W E Value
  answer_or none m = m
  answer_or (some hit) m = count r hits >> pure hit.value

  unfoldable pub fetch_task : Fence → Bool → FetcherContext → Exec W E Value
  fetch_task fence initial_miss_confirmed context =
      let fetch = fetch_and_populate r key fetcher o fence context in
      if initial_miss_confirmed && is_some r.single_flight
      then fetch
      else read_from_layers r key o fresh_only >>= λ hit. answer_or hit fetch

  abbrev pub timeout_ms : ℕ
  timeout_ms = or_else r.single_flight_timeout_ms 5_000

  -- What a round does with what it read: where nothing was found, it sleeps for a millisecond at least.
  abbrev pub after_poll :
      ℤ → ℕ → Exec W E (Option Value) → Option (Hit K W E) → Exec W E (Option Value)
  after_poll deadline next_poll_ms next (some hit) v = (count r hits >> pure (some hit.value)) v
  after_poll deadline next_poll_ms next none v =
      let remaining = deadline -ℤ r.services.now v in
      if leb_ℤ remaining (pos 0)
      then (ok none, v)
      else (r.sleep (min (jitter_single_flight_poll (r.random v) next_poll_ms) (pos_part remaining))
            >> next)
          v

  -- The polling loop, up to `deadline`; `none` means that it is over.
  unfoldable pub poll_loop : ℕ → ℤ → ℕ → Exec W E (Option Value)
  poll_loop zero deadline next_poll_ms w = (ok none, w)
  poll_loop (suc fuel) deadline next_poll_ms w =
      let next = poll_loop fuel deadline (min (min (next_poll_ms * 2) 1_000) timeout_ms) in
      if leb_ℤ deadline (r.services.now w)
      then (ok none, w)
      else (read_from_layers r key o fresh_only >>= after_poll deadline next_poll_ms next) w

  abbrev pub timed_out : Exec W E Value
  timed_out = throw (r.timeout_error key timeout_ms)

  -- `waitForFreshValue`, given what comes when the time is over.
  unfoldable pub wait_then : ℤ → Exec W E Value → Exec W E Value
  wait_then deadline ask =
      count r single_flight_waits
      >> poll_loop (suc timeout_ms) deadline (or_else r.single_flight_poll_ms 50)
      >>= λ found. elim found [ some v ↦ pure v | none ↦ ask ]

  -- `waitForFreshValue` with the number of times that the coordinator may be asked again.
  unfoldable pub wait_until : ℕ → Fence → FetcherContext → ℤ → Exec W E Value
  wait_until zero fence context deadline = wait_then deadline timed_out
  wait_until (suc n) fence context deadline =
      let again = wait_until n fence context deadline in
      wait_then deadline (elim r.single_flight [
        | none ↦ timed_out
        | some execute ↦ execute key (fetch_and_populate r key fetcher o fence context) again
      ])

  abbrev pub wait_for_fresh_value : Fence → FetcherContext → Exec W E Value
  wait_for_fresh_value fence context w =
      wait_until 1 fence context (r.services.now w +ℤ pos timeout_ms) w

  unfoldable pub single_flight_task : Fence → Bool → FetcherContext → Exec W E Value
  single_flight_task fence initial context =
      let task = fetch_task fence initial context in
      elim r.single_flight [
        | none ↦ task
        | some execute ↦ catch (execute key task (wait_for_fresh_value fence context)) λ e.
            if r.is_graceful_degradation_enabled
            then (count r degraded_operations >> task)
            else throw e
      ]

  unfoldable pub fetch_with_guards : Fence → Bool → FetcherContext → Exec W E Value
  fetch_with_guards fence initial context =
      let task = single_flight_task fence initial context in
      elim r.stampede [ none ↦ task | some execute ↦ execute key task ]

module _ {K W E : Type 0} (r : Reader K W E) (key : K) (o : GetOptions K W E) where
  -- The loop of `applyFreshReadPolicies` over the layers up to the one of the hit.
  unfoldable pub refresh_layers : Value → Option ℤ → List (Layer K W E) → Exec W E (Unit {0})
  refresh_layers stored ttl [] w = (ok tt, w)
  refresh_layers stored ttl (layer ∷ layers) w =
      let rest = refresh_layers stored ttl layers in
      if r.services.should_skip_layer layer w
      then rest w
      else (catch (layer.set key stored ttl) (r.services.handle_layer_failure layer sliding_ttl)
            >> rest)
          w

  unfoldable pub apply_fresh_read_policies : Hit K W E → Option (Fetcher W E) → Exec W E (Unit {0})
  apply_fresh_read_policies hit fetcher w =
      let plan =
        plan_fresh_read_policies (r.services.now w) hit.stored (is_some fetcher)
          (or_else o.sliding_ttl false) (or_else (o.refresh_ahead hit.layer) (pos 0)) in
      let refresh : Exec W E (Unit {0}) = elim plan.refreshed_stored [
        | none ↦ pure tt
        | some stored ↦
            refresh_layers stored plan.refreshed_stored_ttl
              (take (suc hit.layer_index) r.services.layers)
      ] in
      let schedule : Exec W E (Unit {0}) = elim fetcher [
        | none ↦ pure tt
        | some f ↦
            if plan.should_schedule_background_refresh
            then modify (r.start_background_refresh key f (hit_context hit))
            else pure tt
      ] in
      (refresh >> schedule) w

  abbrev pub serve_stale : Hit K W E → Exec W E Value
  serve_stale hit = count r hits >> count r stale_hits >> pure hit.value

  -- The answer to a read that found an entry, by its state.
  unfoldable pub answer_hit : Fence → Hit K W E → Option (Fetcher W E) → State → Exec W E Value
  answer_hit fence hit fetcher fresh =
      count r hits >> apply_fresh_read_policies hit fetcher >> pure hit.value
  answer_hit fence hit none state = serve_stale hit
  answer_hit fence hit (some f) stale_while_revalidate =
      count r hits
      >> count r stale_hits
      >> modify (r.start_background_refresh key f (hit_context hit))
      >> pure hit.value
  answer_hit fence hit (some f) state =
      catch (fetch_with_guards r key f o fence false (hit_context hit))
        λ e. count r stale_hits >> count r refresh_errors >> pure hit.value

  -- What is recorded of any hit.
  unfoldable pub record_hit : Hit K W E → W → W
  record_hit hit w =
      let w' = r.record_access key w in
      if is_negative_stored_value (r.services.now w') hit.stored
      then r.increment negative_cache_hits w'
      else w'

  abbrev pub answer : Fence → Option (Fetcher W E) → Option (Hit K W E) → Exec W E Value
  answer fence fetcher (some hit) w = answer_hit fence hit fetcher hit.state (record_hit hit w)
  answer fence none none w = (count r misses >> pure undefined) w
  answer fence (some f) none w =
      (count r misses >> fetch_with_guards r key f o fence true miss_context) w

  unfoldable pub get_prepared : Option (Fetcher W E) → Exec W E Value
  get_prepared fetcher w =
      let fence = current_fence r.services key w in
      (read_from_layers r key o allow_stale >>= answer fence fetcher) w
