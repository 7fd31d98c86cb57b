-- ===== src/CacheStack/Entries.antt =====
-- `getEntry` of src/CacheStack.ts, over the services of the reader; `o` are the options of a backfill without
-- any. `sawRetainableValue` is only set right before an entry is returned, so where none is, the key is removed
-- from the tag index. Latencies, logs and emitted events are left out.
use layercache.Base.{
  false, Bool-cases, inl, inr, if◌then◌else◌, Option, none, some, List, [], ◌∷◌, ◌++◌, ◌≡◌,
}
use layercache.Exec.{Exec, pure, ◌>>=◌, ◌>>◌}
use layercache.JsValue.{Value, Fields, str, is_null}
use layercache.StoredValue.{view}
use layercache.StoredValue.Reads.{State, resolve_stored_value}
use layercache.Internal.Services.{Layer, Fence, current_fence}
use layercache.Internal.Reader.{
  Reader, GetOptions, hits, stale_hits, misses, count, read_layer_entry, backfill_above,
  is_expired_state, is_fresh, hits_by_layer, misses_by_layer,
}
use layercache.Internal.Reader.Hits.{Returns, continue-Returns}

pub record CacheEntryResult (K W E : Type 0) : Type 0 where
  pub value : Value
  pub kind : Value
  pub state : State
  pub layer : Layer K W E

module _ {K W E : Type 0} (r : Reader K W E) (o : GetOptions K W E) where
  abbrev pub kind_of : Option Fields → Value
  kind_of none = str "value"
  kind_of (some v) = (view v).kind

  abbrev pub entry_of : Layer K W E → Value → W → CacheEntryResult K W E
  entry_of layer stored w =
      let clock = r.services.now w in
      let resolved = resolve_stored_value clock stored clock in
      record {
        value = resolved.value;
        kind = kind_of resolved.envelope;
        state = resolved.state;
        layer = layer;
      }

  abbrev pub settle_entry :
      K → Fence → List (Layer K W E) → Layer K W E → Value → State → Exec W E (Unit {0})
  settle_entry key fence above layer stored state =
      r.touch key
      >> backfill_above r key stored above o fence
      >> count r hits
      >> (if is_fresh state then pure tt else count r stale_hits)
      >> count r (hits_by_layer layer)

  abbrev pub look_at :
      K
      → Fence
      → List (Layer K W E)
      → Layer K W E
      → Exec W E (Option (CacheEntryResult K W E))
      → Value
      → Exec W E (Option (CacheEntryResult K W E))
  look_at key fence above layer later stored w =
      if is_null stored
      then (count r (misses_by_layer layer) >> later) w
      else (let clock = r.services.now w in
          let state = (resolve_stored_value clock stored clock).state in
          if is_expired_state state
          then (layer.delete key >> later) w
          else (settle_entry key fence above layer stored state
                >> pure (some (entry_of layer stored w)))
              w)

  unfoldable pub entry_from :
      K
      → Fence
      → List (Layer K W E)
      → List (Layer K W E)
      → Exec W E (Option (CacheEntryResult K W E))
  entry_from key fence above [] w = (r.remove key >> count r misses >> pure none) w
  entry_from key fence above (layer ∷ layers) w =
      let later = entry_from key fence (above ++ layer ∷ []) layers in
      if r.services.should_skip_layer layer w
      then later w
      else (read_layer_entry r layer key >>= look_at key fence above layer later) w

  -- Behind the checks of the key and the start.
  unfoldable pub get_entry : K → Exec W E (Option (CacheEntryResult K W E))
  get_entry key w = entry_from key (current_fence r.services key w) [] r.services.layers w

  abbrev pub IsAlive : Option (CacheEntryResult K W E) → Type 0
  IsAlive none = Unit
  IsAlive (some entry) = is_expired_state entry.state ≡ false

  look_at-IsAlive :
      (key : K) (fence : Fence) (above : List (Layer K W E)) (layer : Layer K W E)
      (later : Exec W E (Option (CacheEntryResult K W E))) (stored : Value) (w : W)
      → ((v : W) → Returns IsAlive (later v))
      → Returns IsAlive (look_at key fence above layer later stored w)
  look_at-IsAlive key fence above layer later stored w h = elim (Bool-cases (is_null stored)) [
    | inl n ↦ rw n (h (r.increment (misses_by_layer layer) w))
    | inr n ↦
        let s = (resolve_stored_value (r.services.now w) stored (r.services.now w)).state in
        elim (Bool-cases (is_expired_state s)) [
          | inl e ↦ rw (n, e) (continue-Returns IsAlive (layer.delete key w) _ (λ u v. h v))
          | inr e ↦
              rw (n, e)
                (continue-Returns IsAlive (settle_entry key fence above layer stored s w) _
                  (λ u v. e))
        ]
  ]

  entry_from-IsAlive :
      (key : K) (fence : Fence) (above layers : List (Layer K W E)) (w : W)
      → Returns IsAlive (entry_from key fence above layers w)
  unfolding entry_from
  entry_from-IsAlive key fence above [] w =
      continue-Returns IsAlive ((r.remove key >> count r misses) w) _ (λ u v. tt)
  entry_from-IsAlive key fence above (layer ∷ layers) w =
      let later = entry_from key fence (above ++ layer ∷ []) layers in
      elim (Bool-cases (r.services.should_skip_layer layer w)) [
        | inl e ↦ rw e (entry_from-IsAlive key fence (above ++ layer ∷ []) layers w)
        | inr e ↦ rw e (
            continue-Returns IsAlive (read_layer_entry r layer key w) _ (λ stored v.
              look_at-IsAlive key fence above layer later stored v
                (λ u. entry_from-IsAlive key fence (above ++ layer ∷ []) layers u)))
      ]

  -- Whatever the layers and the services do: an entry that `getEntry` returns had not expired when it was
  -- looked at.
  get_entry-IsAlive : (key : K) (w : W) → Returns IsAlive (get_entry key w)
  unfolding get_entry
  get_entry-IsAlive key w =
      entry_from-IsAlive key (current_fence r.services key w) [] r.services.layers w
