-- ===== src/Internal/LayerWriter/Batch.antt =====
-- `writeBatch` of src/internal/CacheStackLayerWriter.ts. Each entry comes with the lifetimes that its
-- options give; the fences that it returns are a function of the key.
use layercache.Base.{
  ℕ, not, ◌==◌, true, ℤ, Option, none, some, if◌then◌else◌, List, [], ◌∷◌, map, keep,
}
use layercache.Exec.{ok, Exec, pure, ◌>>◌, catch, all}
use layercache.JsValue.{Value}
use layercache.StoredValue.{Kind}
use layercache.Internal.Services.{Layer, SetManyEntry, Operation, Fence, is_outdated, current_fence}
use layercache.Internal.LayerWriter.{
  Lifetimes, Writer, build_layer_set_entry, execute_layer_operations, delete_from_layers,
}

pub record LayerBatchEntry (K W E : Type 0) : Type 0 where
  pub key : K
  pub value : Value
  pub lifetimes : Lifetimes K W E

module _ {K W E : Type 0} (writer : Writer K W E) where
  abbrev pub keys_of : List (LayerBatchEntry K W E) → List K
  keys_of entries = map (λ e. e.key) entries

  -- The entry of a layer, built when the batch begins.
  unfoldable pub layer_entry : ℤ → Layer K W E → LayerBatchEntry K W E → SetManyEntry K
  layer_entry now layer e =
      let built = build_layer_set_entry now e.lifetimes layer Kind.value e.value now in
      record { key = e.key; value = built.value; ttl = built.ttl }

  abbrev pub set_one : Layer K W E → SetManyEntry K → Exec W E (Unit {0})
  set_one layer e = layer.set e.key e.value e.ttl

  abbrev pub set_all :
      Layer K W E
      → Option (List (SetManyEntry K) → Exec W E (Unit {0}))
      → List (SetManyEntry K)
      → Exec W E (Unit {0})
  set_all layer none entries = all (map (set_one layer) entries)
  set_all layer (some set_many) entries = set_many entries

  abbrev pub delete_keys_from_layer : List K → Layer K W E → Exec W E (Unit {0})
  delete_keys_from_layer keys layer = all (map (λ k. delete_from_layers writer k (layer ∷ [])) keys)

  -- What was written but is outdated afterwards is removed from this layer.
  unfoldable pub remove_stale :
      (K → Fence) → Layer K W E → List (SetManyEntry K) → Exec W E (Unit {0})
  remove_stale fence_of layer active w =
      delete_keys_from_layer
        (map (λ e. e.key) (keep (λ e. is_outdated writer.services e.key (fence_of e.key) w) active))
        layer w

  -- The operation of a layer, from its entries that are not outdated.
  abbrev pub write_active : (K → Fence) → Layer K W E → List (SetManyEntry K) → Exec W E (Unit {0})
  write_active fence_of layer [] = pure tt
  write_active fence_of layer (e ∷ es) =
      catch (set_all layer layer.set_many (e ∷ es))
        (writer.services.handle_layer_failure layer Operation.write)
      >> remove_stale fence_of layer (e ∷ es)

  unfoldable pub batch_operation :
      ℕ → (K → Fence) → Layer K W E → List (SetManyEntry K) → Exec W E (Unit {0})
  batch_operation clear_epoch fence_of layer entries w =
      if not (clear_epoch == writer.services.current_clear_epoch w)
      then (ok tt, w)
      else write_active fence_of layer
          (keep (λ e. (fence_of e.key).key_epoch == writer.services.current_key_epoch e.key w)
            entries)
          w

  -- The layers that get entries.
  abbrev pub batch_layers : List (LayerBatchEntry K W E) → W → List (Layer K W E)
  batch_layers [] w = []
  batch_layers (e ∷ es) w =
      keep (λ layer. not (writer.services.should_skip_layer layer w)) writer.services.layers

  unfoldable pub write_batch : List (LayerBatchEntry K W E) → Exec W E (K → Fence)
  write_batch entries w =
      let s = writer.services in
      let fence_of : K → Fence = λ k. current_fence s k w in
      let operation : Layer K W E → Exec W E (Unit {0}) = λ layer.
        batch_operation (s.current_clear_epoch w) fence_of layer
          (map (layer_entry (s.now w) layer) entries) in
      let layers = batch_layers entries w in
      let immediate = keep (λ l. not (writer.should_write_behind l)) layers in
      let deferred = keep writer.should_write_behind layers in
      let defer : Layer K W E → Exec W E (Unit {0}) = λ layer.
        writer.enqueue_write_behind
          (s.run_serialized_writes (keys_of entries) (operation layer >> pure true) >> pure tt) in
      (s.run_serialized_writes (keys_of entries)
            (execute_layer_operations writer (map operation immediate) >> pure true)
          >> all (map defer deferred)
          >> pure fence_of)
        w
