-- ===== src/Tests/Deletion.antt =====
-- A stack whose layers throw what they cannot do, for what is proved of deletions, polling and tags.
use layercache.Base.{
  ℕ, ◌+◌, pos, Bool, true, false, if◌then◌else◌, none, some, [], ◌∷◌, All, ◌≡◌, refl, ap, subst,
  arith, ℕ_discrete,
}
use layercache.JsMap
use layercache.JsMap.Laws.{get-delete}
use layercache.Exec.{pure, throw, all, all_settled}
use layercache.Internal.Services.{Layer, Services}
use layercache.Internal.Reader.{Reader, read_from_layers, read_loop}
use layercache.Internal.Reader.Guards.{poll_loop}
use layercache.Internal.Reader.Guards.Polls.{HasClock, poll_loop-enough}
use layercache.Internal.InvalidationSupport.{
  LimitError, too_many_keys, collect_keys, add_all, intersect_keys,
}
use layercache.CacheStack.{CacheStack, Counter, delete_keys}
use layercache.CacheStack.Deletion.{IsDeleting, IsApart, IsWithout, delete_keys-IsWithout}
use layercache.Tests.Stack.{
  World, world, empty_layer, full_layer, services, writer, reader, read_options, count_one,
}

abbrev strict_services : Services ℕ World ℕ
strict_services = record services { handle_layer_failure = λ layer operation e. throw e }

abbrev stack : CacheStack ℕ ℕ ℕ World ℕ
stack = record {
  writer = record writer { services = strict_services };
  qualify_key = λ k. pure k;
  validate_tags = λ tags. pure tt;
  await_startup = pure tt;
  keys_for_tag = λ tag. pure (4 ∷ []);
  track = λ k tags. pure tt;
  touch = λ k. pure tt;
  remove = λ k. pure tt;
  clear_index = pure tt;
  bump_key_epochs = λ ks w. record w { epoch = w.epoch + 1 };
  begin_clear_epoch = λ w. w;
  delete_profile = λ k w. w;
  delete_breaker = λ k w. w;
  clear_profiles = λ w. w;
  clear_breakers = λ w. w;
  increment = λ counter n. count_one;
  publish = none;
  broadcasts_l1_invalidation = false;
  instance_id = 1;
  invalidation_max_keys = some 10;
  limit_error = λ e. 6;
}

-- Only the layer that is not local has entries.
abbrev holds : Layer ℕ World ℕ → ℕ → World → Bool
holds layer k w = if layer.is_local then false else JsMap.has ℕ_discrete k w.content

has-delete :
    (j k : ℕ) (w : World)
    → JsMap.has ℕ_discrete j w.content ≡ false
    → JsMap.has ℕ_discrete j (JsMap.delete ℕ_discrete k w.content) ≡ false
has-delete j k w h = ground (arith, h, get-delete ℕ_discrete j k w.content)

deleted : (k : ℕ) (w : World) → JsMap.has ℕ_discrete k (JsMap.delete ℕ_discrete k w.content) ≡ false
deleted k w = ground (arith, get-delete ℕ_discrete k k w.content)

empty_layer-IsDeleting : IsDeleting ℕ_discrete strict_services holds empty_layer
empty_layer-IsDeleting = record {
  never_skipped = λ w. refl;
  failure_thrown = λ o e w. refl;
  delete_lem = λ k w v h. refl;
  delete_shrinks = λ k layer j w h. h;
  delete_many_lem = λ f e. ground (arith, e);
  delete_many_shrinks = λ f e. ground (arith, e);
}

full_layer-IsDeleting : IsDeleting ℕ_discrete strict_services holds full_layer
full_layer-IsDeleting = record {
  never_skipped = λ w. refl;
  failure_thrown = λ o e w. refl;
  delete_lem = λ k w v h.
      subst (λ u. JsMap.has ℕ_discrete k u.content ≡ false) (ap (λ t. t.1) h) (deleted k w);
  delete_shrinks = λ k layer j w. shrinks k layer.is_local j w;
  delete_many_lem = λ f e. ground (arith, e);
  delete_many_shrinks = λ f e. ground (arith, e);
}
  where
    shrinks :
        (k : ℕ) (b : Bool) (j : ℕ) (w : World)
        → (if b then false else JsMap.has ℕ_discrete j w.content) ≡ false
        → (if b then false else JsMap.has ℕ_discrete j (JsMap.delete ℕ_discrete k w.content))
          ≡ false
    shrinks k true j w h = refl
    shrinks k false j w h = has-delete j k w h

apart : IsApart ℕ_discrete stack holds
apart = record { forget_shrinks = λ k layer j w h. h; increment_shrinks = λ d n layer j w h. h }

delete_keys-IsWithout_example :
    All
      (λ layer.
        IsWithout ℕ_discrete strict_services holds
          (4 ∷ [])
          layer
          (record world { content = []; epoch = 1; counted = 2 }))
      (empty_layer ∷ full_layer ∷ [])
unfolding delete_keys layercache.Internal.InvalidationSupport.delete_keys_from_layers all
    all_settled layercache.CacheStack.forget_all JsMap.delete ℕ_discrete
delete_keys-IsWithout_example =
    delete_keys-IsWithout ℕ_discrete stack holds (4 ∷ []) world
      (record world { content = []; epoch = 1; counted = 2 })
      (empty_layer-IsDeleting, (full_layer-IsDeleting, tt)) apart refl

-- A reader without layers finds nothing, and so it polls until the deadline.
abbrev polling_reader : Reader ℕ World ℕ
polling_reader = record reader { services = record services { layers = [] } }

polling_reader-HasClock : HasClock polling_reader 4 (λ context. throw 3) read_options (λ w. w.time)
unfolding read_from_layers read_loop
polling_reader-HasClock = record {
  now_lem = λ w. refl;
  read_later = λ w. omega arith;
  sleep_lem = λ ms w. (record w { time = w.time + ms }, refl, omega arith);
}

poll_loop-enough_example :
    poll_loop polling_reader 4 (λ context. throw 3) read_options 20 (pos 2_310) 50 world
    ≡ poll_loop polling_reader 4 (λ context. throw 3) read_options 11 (pos 2_310) 50 world
poll_loop-enough_example =
    poll_loop-enough polling_reader 4 (λ context. throw 3) read_options (λ w. w.time)
      polling_reader-HasClock 20 11 2_310 50 world (omega arith) (omega arith)
