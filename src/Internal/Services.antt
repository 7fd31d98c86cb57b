-- ===== src/Internal/Services.antt =====
-- What the classes of src/internal/CacheStackReader.ts and src/internal/CacheStackLayerWriter.ts are
-- given: the layers, and the services of the stack, over any world `W` that they change and any type
-- of errors. A service may do anything to the world, such as letting other operations run first.
use layercache.Base.{ℕ, ℤ, Bool, not, ◌||◌, ◌==◌, Option, List}
use layercache.Exec.{Exec}
use layercache.JsValue.{Value}
use Prim.Native.String.{String}

-- `CacheLayerSetManyEntry`
pub record SetManyEntry (K : Type 0) : Type 0 where
  pub key : K
  pub value : Value
  pub ttl : Option ℤ

-- A method that calls a visitor: the keys that it visits, and its error, where one is thrown after that.
abbrev pub Visit : Type 0 → Type 0 → Type 0 → Type 0
Visit K W E = W → (List K × Option E) × W

-- `CacheLayer`; `null` is read where the layer has nothing
pub record Layer (K W E : Type 0) : Type 0 where
  pub name : String
  pub default_ttl : Option ℤ
  pub get_entry : Option (K → Exec W E Value)
  pub get : K → Exec W E Value
  pub set : K → Value → Option ℤ → Exec W E (Unit {0})
  pub set_many : Option (List (SetManyEntry K) → Exec W E (Unit {0}))
  pub delete : K → Exec W E (Unit {0})
  pub delete_many : Option (List K → Exec W E (Unit {0}))
  pub clear : Exec W E (Unit {0})
  pub is_local : Bool
  pub keys : Option (Exec W E (List K))
  pub for_each_key : Option (Visit K W E)
  pub has : Option (K → Exec W E Bool)
  pub ttl : Option (K → Exec W E (Option ℤ))

-- the operation that a failure of a layer is reported under
pub data Operation : Type 0 where
  read write backfill sliding_ttl stale_write_cleanup delete expire prefix_scan pattern_scan
        presence :
      Operation

-- `CacheWriteFence`
pub record Fence : Type 0 where
  pub clear_epoch : ℕ
  pub key_epoch : ℕ

-- `maintenance` and what both classes share of their options
pub record Services (K W E : Type 0) : Type 0 where
  pub layers : List (Layer K W E)
  pub now : W → ℤ
  pub current_clear_epoch : W → ℕ
  pub current_key_epoch : K → W → ℕ
  pub run_serialized_writes : List K → Exec W E Bool → Exec W E Bool
  pub should_skip_layer : Layer K W E → W → Bool
  pub handle_layer_failure : Layer K W E → Operation → E → Exec W E (Unit {0})

module _ {K W E : Type 0} (s : Services K W E) where
  abbrev pub current_fence : K → W → Fence
  current_fence key w = record {
    clear_epoch = s.current_clear_epoch w;
    key_epoch = s.current_key_epoch key w;
  }

  -- `isWriteOutdated` of a fence with both epochs
  unfoldable pub is_outdated : K → Fence → W → Bool
  is_outdated key fence w =
      not (fence.clear_epoch == s.current_clear_epoch w)
      || not (fence.key_epoch == s.current_key_epoch key w)
