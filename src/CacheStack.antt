-- ===== src/CacheStack.antt =====
-- The operations of src/CacheStack.ts that write, delete and expire entries, over the services of the
-- stack. `T` are the tags and `R` the keys as a caller gives them. Spans, logs and emitted events are
-- left out; the options of a write are those that `resolveContextOptions` gives.
pub mod Deletion
pub mod Degradation
pub mod Lookups
pub mod Patterns
pub mod Entries
pub mod Background
use layercache.Base.{
  ℕ, not, ◌==◌, ◌++◌, Bool, true, false, Option, none, some, or_else, if◌then◌else◌, List, [], ◌∷◌,
  map, keep, length,
}
use layercache.Exec.{Result, ok, err, Exec, pure, throw, modify, ◌>>=◌, ◌>>◌, continue, all}
use layercache.JsMap
use layercache.JsValue.{Value}
use layercache.StoredValue.{Kind}
use layercache.Internal.Services.{Layer, Services, Fence, is_outdated, current_fence}
use layercache.Internal.LayerWriter.{Writer, Lifetimes, write_across_layers}
use layercache.Internal.InvalidationSupport.{
  Set, LimitError, assert_within_invalidation_key_limit, collect_keys, add_all, intersect_keys,
  delete_keys_from_layers, expire_keys_in_layers,
}

pub data Scope : Type 0 where
  key_scope keys_scope clear_scope : Scope

pub data BusOperation : Type 0 where
  by_write by_delete by_expire by_invalidate by_clear : BusOperation

pub record InvalidationMessage (K : Type 0) : Type 0 where
  pub scope : Scope
  pub source_id : ℕ
  pub keys : Option (List K)
  pub operation : Option BusOperation

-- `'any' | 'all'`
pub data TagMode : Type 0 where
  any_tag all_tags : TagMode

-- What is counted here.
pub data Counter : Type 0 where
  sets deletes invalidations : Counter

-- `CacheWriteOptions`, resolved
pub record WriteOptions (T K W E : Type 0) : Type 0 where
  pub lifetimes : Lifetimes K W E
  pub tags : Option (List T)

pub record CacheStack (R T K W E : Type 0) : Type 0 where
  pub writer : Writer K W E
  pub qualify_key : R → Exec W E K
  pub validate_tags : List T → Exec W E (Unit {0})
  pub await_startup : Exec W E (Unit {0})
  pub keys_for_tag : T → Exec W E (List K)
  pub track : K → List T → Exec W E (Unit {0})
  pub touch : K → Exec W E (Unit {0})
  pub remove : K → Exec W E (Unit {0})
  pub clear_index : Exec W E (Unit {0})
  pub bump_key_epochs : List K → W → W
  pub begin_clear_epoch : W → W
  pub delete_profile : K → W → W
  pub delete_breaker : K → W → W
  pub clear_profiles : W → W
  pub clear_breakers : W → W
  pub increment : Counter → ℕ → W → W
  pub publish : Option (InvalidationMessage K → Exec W E (Unit {0}))
  pub broadcasts_l1_invalidation : Bool
  pub instance_id : ℕ
  pub invalidation_max_keys : Option ℕ
  pub limit_error : LimitError → E

module _ {R T K W E : Type 0} (dec : Discrete K) (c : CacheStack R T K W E) where
  abbrev pub services : Services K W E
  services = c.writer.services

  abbrev pub publish_invalidation : InvalidationMessage K → Exec W E (Unit {0})
  publish_invalidation message = elim c.publish [ none ↦ pure tt | some publish ↦ publish message ]

  abbrev pub message_of : Scope → List K → BusOperation → InvalidationMessage K
  message_of scope keys operation = record {
    scope = scope;
    source_id = c.instance_id;
    keys = some keys;
    operation = some operation;
  }

  -- What is kept about a key beside its entries.
  abbrev pub forget : K → Exec W E (Unit {0})
  forget key = c.remove key >> modify (λ w. c.delete_breaker key (c.delete_profile key w))

  unfoldable pub forget_all : List K → Exec W E (Unit {0})
  forget_all [] = pure tt
  forget_all (k ∷ ks) = forget k >> forget_all ks

  unfoldable pub delete_keys : List K → Exec W E (Unit {0})
  delete_keys [] = pure tt
  delete_keys (k ∷ ks) =
      modify (c.bump_key_epochs (k ∷ ks))
      >> delete_keys_from_layers dec services services.layers (k ∷ ks)
      >> forget_all (k ∷ ks)
      >> modify (λ w. c.increment invalidations 1 (c.increment deletes (length (k ∷ ks)) w))

  unfoldable pub expire_keys : List K → Exec W E (Unit {0})
  expire_keys [] = pure tt
  expire_keys (k ∷ ks) =
      modify (c.bump_key_epochs (k ∷ ks))
      >> expire_keys_in_layers dec services services.layers (k ∷ ks)
      >>= λ found.
          forget_all (keep (λ j. not (JsMap.has dec j found)) (k ∷ ks))
          >> modify (c.increment invalidations 1)

  -- `delete(key)`, also called `invalidateByKey`
  unfoldable pub delete_key : R → Exec W E (Unit {0})
  delete_key raw = c.qualify_key raw >>= λ k.
      c.await_startup
      >> delete_keys (k ∷ [])
      >> publish_invalidation (message_of key_scope (k ∷ []) by_delete)

  unfoldable pub expire_by_key : R → Exec W E (Unit {0})
  expire_by_key raw = c.qualify_key raw >>= λ k.
      c.await_startup
      >> expire_keys (k ∷ [])
      >> publish_invalidation (message_of key_scope (k ∷ []) by_expire)

  abbrev pub qualify_all : List R → Exec W E (List K)
  qualify_all [] = pure []
  qualify_all (r ∷ rs) = c.qualify_key r >>= λ k. qualify_all rs >>= λ ks. pure (k ∷ ks)

  -- `mdelete(keys)`, also called `invalidateByKeys`
  unfoldable pub mdelete : List R → Exec W E (Unit {0})
  mdelete [] = pure tt
  mdelete (r ∷ rs) = c.await_startup >> qualify_all (r ∷ rs) >>= λ ks.
      delete_keys ks >> publish_invalidation (message_of keys_scope ks by_delete)

  unfoldable pub expire_by_keys : List R → Exec W E (Unit {0})
  expire_by_keys [] = pure tt
  expire_by_keys (r ∷ rs) = qualify_all (r ∷ rs) >>= λ ks.
      c.await_startup >> expire_keys ks >> publish_invalidation (message_of keys_scope ks by_expire)

  -- `clear()`
  unfoldable pub clear : Exec W E (Unit {0})
  clear =
      c.await_startup
      >> modify c.begin_clear_epoch
      >> all (map (λ layer. layer.clear) services.layers)
      >> c.clear_index
      >> modify (λ w. c.increment invalidations 1 (c.clear_breakers (c.clear_profiles w)))
      >> publish_invalidation (record {
        scope = clear_scope;
        source_id = c.instance_id;
        keys = none;
        operation = some by_clear;
      })

  abbrev pub within : {A : Type 0} → Result LimitError A → Exec W E A
  within (ok a) = pure a
  within (err e) = throw (c.limit_error e)

  abbrev pub collect_keys_for_tag : T → Exec W E (List K)
  collect_keys_for_tag tag =
      c.keys_for_tag tag >>= λ ks. within (collect_keys dec c.invalidation_max_keys [] ks)

  abbrev pub both : {A : Type 0} → Result E A → Result E (List A) → Result E (List A)
  both (err e) rs = err e
  both (ok a) (err e) = err e
  both (ok a) (ok as_) = ok (a ∷ as_)

  -- `Promise.all` over the tags, in their order; the first error is thrown.
  unfoldable pub collect_groups : List T → Exec W E (List (List K))
  collect_groups [] w = (ok [], w)
  collect_groups (t ∷ ts) w =
      let (r, w') = collect_keys_for_tag t w in
      let (rs, w'') = collect_groups ts w' in (both r rs, w'')

  abbrev pub flat : List (List K) → List K
  flat [] = []
  flat (group ∷ groups) = group ++ flat groups

  -- The keys of any or of all of the tags.
  unfoldable pub combine_groups : TagMode → List (List K) → List K
  combine_groups any_tag groups = JsMap.keys (add_all dec (flat groups) [])
  combine_groups all_tags groups = intersect_keys dec groups

  abbrev pub keys_for_tags : List T → TagMode → Exec W E (List K)
  keys_for_tags tags mode =
      c.validate_tags tags >> c.await_startup >> collect_groups tags >>= λ groups.
      within (
        assert_within_invalidation_key_limit dec (length (combine_groups mode groups))
          c.invalidation_max_keys)
      >> pure (combine_groups mode groups)

  abbrev pub keys_for_one : T → Exec W E (List K)
  keys_for_one tag = c.validate_tags (tag ∷ []) >> c.await_startup >> collect_keys_for_tag tag

  abbrev pub invalidate_keys : List K → Exec W E (Unit {0})
  invalidate_keys ks =
      delete_keys ks >> publish_invalidation (message_of keys_scope ks by_invalidate)

  abbrev pub expire_found : List K → Exec W E (Unit {0})
  expire_found ks = expire_keys ks >> publish_invalidation (message_of keys_scope ks by_expire)

  unfoldable pub invalidate_by_tag : T → Exec W E (Unit {0})
  invalidate_by_tag tag = keys_for_one tag >>= invalidate_keys

  unfoldable pub expire_by_tag : T → Exec W E (Unit {0})
  expire_by_tag tag = keys_for_one tag >>= expire_found

  unfoldable pub invalidate_by_tags : List T → TagMode → Exec W E (Unit {0})
  invalidate_by_tags [] mode = pure tt
  invalidate_by_tags (t ∷ ts) mode = keys_for_tags (t ∷ ts) mode >>= invalidate_keys

  unfoldable pub expire_by_tags : List T → TagMode → Exec W E (Unit {0})
  expire_by_tags [] mode = pure tt
  expire_by_tags (t ∷ ts) mode = keys_for_tags (t ∷ ts) mode >>= expire_found

  -- What follows a write that was committed, under the fence taken before it.
  abbrev pub record_write : K → Option (List T) → Exec W E Bool
  record_write k tags =
      elim tags [ none ↦ c.touch k | some ts ↦ c.track k ts ]
      >> modify (c.increment sets 1)
      >> (if c.broadcasts_l1_invalidation
          then publish_invalidation (message_of key_scope (k ∷ []) by_write)
          else pure tt)
      >> pure true

  abbrev pub after_write : K → Option (List T) → Fence → Bool → Exec W E Bool
  after_write k tags fence false w = (ok false, w)
  after_write k tags fence true w =
      if is_outdated services k fence w then (ok false, w) else record_write k tags w

  unfoldable pub store_entry :
      K → Kind → Value → WriteOptions T K W E → Option Fence → Exec W E Bool
  store_entry k kind value o fence w =
      (write_across_layers c.writer k kind value o.lifetimes fence
          >>= after_write k o.tags (current_fence services k w))
        w

  abbrev pub local_layers : List (Layer K W E)
  local_layers = keep (λ layer. layer.is_local) services.layers

  -- The part of `handleInvalidationMessage` for keys.
  abbrev pub handle_keys : List K → Option BusOperation → Exec W E (Unit {0})
  handle_keys ks (some by_expire) = expire_keys_in_layers dec services local_layers ks >> pure tt
  handle_keys ks (some by_write) = delete_keys_from_layers dec services local_layers ks
  handle_keys ks operation = delete_keys_from_layers dec services local_layers ks >> forget_all ks

  abbrev pub handle_clear : Exec W E (Unit {0})
  handle_clear =
      modify c.begin_clear_epoch
      >> all (map (λ layer. layer.clear) local_layers)
      >> c.clear_index
      >> modify (λ w. c.clear_breakers (c.clear_profiles w))

  abbrev pub handle_scope : Scope → List K → Option BusOperation → Exec W E (Unit {0})
  handle_scope clear_scope ks operation = handle_clear
  handle_scope scope ks operation = modify (c.bump_key_epochs ks) >> handle_keys ks operation

  unfoldable pub handle_invalidation_message : InvalidationMessage K → Exec W E (Unit {0})
  handle_invalidation_message message =
      if message.source_id == c.instance_id
      then pure tt
      else handle_scope message.scope (or_else message.keys []) message.operation
