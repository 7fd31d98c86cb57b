-- ===== src/Internal/Reader/Guards/Stale.antt =====
-- A stale entry answers a read of src/internal/CacheStackReader.ts when its fetcher fails.
use layercache.Base.{false, Option, none, some, ◌≡◌, ◌≢◌, refl, arith}
use layercache.Exec.{Result, ok, err, handle}
use layercache.JsValue.{Value}
use layercache.StoredValue.Reads.{State, fresh, stale_while_revalidate, stale_if_error, expired}
use layercache.Internal.Services.{Fence, current_fence}
use layercache.Internal.Reader.{
  Reader, Hit, GetOptions, Fetcher, allow_stale, stale_hits, refresh_errors, read_from_layers,
}
use layercache.Internal.Reader.Guards.{
  fetch_with_guards, hit_context, answer_hit, record_hit, get_prepared,
}

module _ {K W E : Type 0} (r : Reader K W E) (key : K) (o : GetOptions K W E) where
  -- What a method returns is one of two values, and it does return.
  abbrev pub ReturnsValue : Value → Result E Value × W → Type 0
  ReturnsValue v x = (y : Value) × (w : W) × (x ≡ (ok y, w))

  caught :
      (x : Result E Value × W) (v : Value) (f : E → W → W)
      → ReturnsValue v (handle x (λ e w. (ok v, f e w)))
  caught (ok y, w) v f = (y, w, refl)
  caught (err e, w) v f = (v, f e w, refl)

  answer_hit-Returns :
      (fence : Fence) (hit : Hit K W E) (fetcher : Option (Fetcher W E)) (s : State) (w : W)
      → s ≢ fresh
      → ReturnsValue hit.value (answer_hit r key o fence hit fetcher s w)
  unfolding answer_hit
  answer_hit-Returns fence hit fetcher fresh w n = absurd (n refl)
  answer_hit-Returns fence hit none stale_while_revalidate w n = (hit.value, _, refl)
  answer_hit-Returns fence hit none stale_if_error w n = (hit.value, _, refl)
  answer_hit-Returns fence hit none expired w n = (hit.value, _, refl)
  answer_hit-Returns fence hit (some f) stale_while_revalidate w n = (hit.value, _, refl)
  answer_hit-Returns fence hit (some f) stale_if_error w n =
      caught (fetch_with_guards r key f o fence false (hit_context hit) w) hit.value
        (λ e v. r.increment refresh_errors (r.increment stale_hits v))
  answer_hit-Returns fence hit (some f) expired w n =
      caught (fetch_with_guards r key f o fence false (hit_context hit) w) hit.value
        (λ e v. r.increment refresh_errors (r.increment stale_hits v))

  -- A read that finds a stale entry returns, whatever the fetcher, the circuit breaker, the rate limiter
  -- and the coordinator do: their errors never reach the caller.
  pub get_prepared-stale :
      (fetcher : Option (Fetcher W E)) (hit : Hit K W E) (w v : W)
      → read_from_layers r key o allow_stale w ≡ (ok (some hit), v)
      → hit.state ≢ fresh
      → (y : Value) × (w' : W) × (get_prepared r key o fetcher w ≡ (ok y, w'))
  unfolding get_prepared
  get_prepared-stale fetcher hit w v h n = rw h (
      answer_hit-Returns (current_fence r.services key w) hit fetcher hit.state
        (record_hit r key o hit v) n)

  -- The fetch for an entry that is stale if there is an error fails.
  answer_hit-failed :
      (fence : Fence) (f : Fetcher W E) (hit : Hit K W E) (s : State) (e : E) (w u : W)
      → s ≡ stale_if_error
      → fetch_with_guards r key f o fence false (hit_context hit) w ≡ (err e, u)
      → answer_hit r key o fence hit (some f) s w
        ≡ (ok hit.value, r.increment refresh_errors (r.increment stale_hits u))
  unfolding answer_hit
  answer_hit-failed fence f hit fresh e w u s g = ground (arith, s)
  answer_hit-failed fence f hit stale_while_revalidate e w u s g = ground (arith, s)
  answer_hit-failed fence f hit stale_if_error e w u s g = rw g refl
  answer_hit-failed fence f hit expired e w u s g = rw g refl

  -- Where the fetch for an entry that is stale if there is an error fails, the answer is that entry's
  -- value, and the failure is counted.
  pub get_prepared-failed :
      (f : Fetcher W E) (hit : Hit K W E) (e : E) (w v u : W)
      → read_from_layers r key o allow_stale w ≡ (ok (some hit), v)
      → hit.state ≡ stale_if_error
      → fetch_with_guards r key f o
          (current_fence r.services key w)
          false
          (hit_context hit)
          (record_hit r key o hit v)
        ≡ (err e, u)
      → get_prepared r key o (some f) w
        ≡ (ok hit.value, r.increment refresh_errors (r.increment stale_hits u))
  unfolding get_prepared
  get_prepared-failed f hit e w v u h s g = rw h (
      answer_hit-failed (current_fence r.services key w) f hit hit.state e
        (record_hit r key o hit v) u s g)
