-- ===== src/Internal/Reader/Fetches.antt =====
-- What a fetch of src/internal/CacheStackReader.ts stores.
use layercache.Base.{true, if◌then◌else◌, ◌≡◌, Bool-cases, inl, inr, arith}
use layercache.Exec.{ok}
use layercache.JsValue.{Value, undefined}
use layercache.Internal.Services.{Fence, is_outdated}
use layercache.Internal.Reader.{
  Reader, GetOptions, Fetcher, FetcherContext, fetches, is_empty_result, populate,
  fetch_and_populate,
}

module _ {K W E : Type 0} (r : Reader K W E) (key : K) (o : GetOptions K W E) (fence : Fence) where
  populate-outdated :
      (fetched : Value) (v : W)
      → is_outdated r.services key fence v ≡ true
      → populate r key o fence fetched v
        ≡ (ok (if is_empty_result r o fetched then undefined else fetched), v)
  unfolding populate
  populate-outdated fetched v h = elim (Bool-cases (is_empty_result r o fetched)) [
    | inl e ↦ rw (e, h, populate) (ground arith)
    | inr e ↦ rw (e, h, populate) (ground arith)
  ]

  -- A fetch whose key was invalidated, or whose stack was cleared, before the fetcher had answered
  -- stores nothing: its caller gets the answer (undefined for an empty one), and the world stays as the
  -- fetcher left it, with the success recorded.
  pub fetch_and_populate-outdated :
      (fetcher : Fetcher W E) (context : FetcherContext) (fetched : Value) (w u v : W)
      → r.assert_closed key w ≡ (ok tt, u)
      → r.schedule key (fetcher context) (r.increment fetches u) ≡ (ok fetched, v)
      → is_outdated r.services key fence (r.record_success key v) ≡ true
      → fetch_and_populate r key fetcher o fence context w
        ≡ (ok (if is_empty_result r o fetched then undefined else fetched), r.record_success key v)
  fetch_and_populate-outdated fetcher context fetched w u v a s h =
      unfold fetch_and_populate in
      rw a (rw s (populate-outdated fetched (r.record_success key v) h))
