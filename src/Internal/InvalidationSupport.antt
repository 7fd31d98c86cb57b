-- ===== src/Internal/InvalidationSupport.antt =====
-- src/internal/CacheStackInvalidationSupport.ts, over the services of the stack. `T` are the tags. A
-- visit of the keys of a tag is represented by the list of the keys that are visited; a `Set` is a `Map`
-- to nothing, in insertion order.
pub mod Limits
pub mod Intersections
use layercache.Base.{
  ℕ, ltb, ℤ, Bool, true, false, ◌&&◌, Option, none, some, if◌then◌else◌, List, [], ◌∷◌, map, keep,
}
use layercache.Exec.{Result, ok, err, Exec, pure, ◌>>=◌, ◌>>◌, catch, all, lift}
use layercache.JsMap.{JsMap}
use layercache.JsMap
use layercache.JsValue.{Value, is_null}
use layercache.StoredValue.{as_stored_value_envelope}
use layercache.StoredValue.Reads.{expire_stored_envelope, remaining_stored_ttl_ms}
use layercache.Internal.Services.{Layer, Operation, Services}

-- `maxKeys` is `none` where there is no limit. The error has the size and the limit.
abbrev pub exceeds : ℕ → Option ℕ → Bool
exceeds size none = false
exceeds size (some max_keys) = ltb max_keys size

pub data LimitError : Type 0 where
  too_many_keys : ℕ → LimitError

abbrev pub Set : Type 0 → Type 0
Set K = JsMap K (Unit {0})

module _ {K : Type 0} (dec : Discrete K) where
  unfoldable pub assert_within_invalidation_key_limit : ℕ → Option ℕ → Result LimitError (Unit {0})
  assert_within_invalidation_key_limit size max_keys =
      if exceeds size max_keys then err (too_many_keys size) else ok tt

  -- What a visitor of `collectKeysForTag` does for each key, from the keys that there are.
  unfoldable pub collect_keys : Option ℕ → Set K → List K → Result LimitError (List K)
  collect_keys max_keys keys [] = ok (JsMap.keys keys)
  collect_keys max_keys keys (k ∷ ks) =
      let rest = collect_keys max_keys (JsMap.set dec k tt keys) ks in
      if exceeds (JsMap.size (JsMap.set dec k tt keys)) max_keys
      then err (too_many_keys (JsMap.size (JsMap.set dec k tt keys)))
      else rest

  -- `new Set(keys)`, added to a set
  unfoldable pub add_all : List K → Set K → Set K
  add_all [] keys = keys
  add_all (k ∷ ks) keys = add_all ks (JsMap.set dec k tt keys)

  abbrev pub in_all : List (List K) → K → Bool
  in_all [] key = true
  in_all (group ∷ groups) key = JsMap.has dec key (add_all group []) && in_all groups key

  unfoldable pub intersect_keys : List (List K) → List K
  intersect_keys [] = []
  intersect_keys (group ∷ groups) = keep (in_all groups) (JsMap.keys (add_all group []))

module _ {K W E : Type 0} (dec : Discrete K) (s : Services K W E) where
  abbrev pub delete_key : Layer K W E → K → Exec W E (Unit {0})
  delete_key layer key = catch (layer.delete key) (s.handle_layer_failure layer Operation.delete)

  abbrev pub delete_all :
      Layer K W E → Option (List K → Exec W E (Unit {0})) → List K → Exec W E (Unit {0})
  delete_all layer none keys = all (map (delete_key layer) keys)
  delete_all layer (some delete_many) keys =
      catch (delete_many keys) (s.handle_layer_failure layer Operation.delete)

  abbrev pub delete_from_layer : List K → Layer K W E → Exec W E (Unit {0})
  delete_from_layer keys layer w =
      if s.should_skip_layer layer w then (ok tt, w) else delete_all layer layer.delete_many keys w

  unfoldable pub delete_keys_from_layers : List (Layer K W E) → List K → Exec W E (Unit {0})
  delete_keys_from_layers layers keys = all (map (delete_from_layer keys) layers)

  abbrev pub read_entry : Layer K W E → K → Exec W E Value
  read_entry layer key = elim layer.get_entry [ none ↦ layer.get key | some get ↦ get key ]

  -- What is written back of an entry: one without an envelope stays as it is.
  abbrev pub expire_stored : Layer K W E → K → Value → Exec W E (Unit {0})
  expire_stored layer key stored w =
      let clock = s.now w in
      elim (as_stored_value_envelope clock stored) [
        | none ↦ (ok tt, w)
        | some v ↦
            let expired = expire_stored_envelope clock stored clock in
            layer.set key expired (remaining_stored_ttl_ms clock expired clock) w
      ]

  -- The keys that were found stand beside the world.
  abbrev pub expire_key : Layer K W E → K → Exec (Set K × W) E (Unit {0})
  expire_key layer key =
      catch
        (lift (read_entry layer key) >>= λ stored (found, w).
          if is_null stored
          then (ok tt, (found, w))
          else lift (expire_stored layer key stored) (JsMap.set dec key tt found, w))
        (λ e. lift (s.handle_layer_failure layer Operation.expire e))

  abbrev pub expire_in_layer : List K → Layer K W E → Exec (Set K × W) E (Unit {0})
  expire_in_layer keys layer (found, w) =
      if s.should_skip_layer layer w
      then (ok tt, (found, w))
      else all (map (expire_key layer) keys) (found, w)

  unfoldable pub expire_keys_in_layers : List (Layer K W E) → List K → Exec W E (Set K)
  expire_keys_in_layers layers keys w =
      let (r, (found, w')) = all (map (expire_in_layer keys) layers) ([], w) in
      elim r [ ok u ↦ (ok found, w') | err e ↦ (err e, w') ]
