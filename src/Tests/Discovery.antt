-- ===== src/Tests/Discovery.antt =====
-- A stack whose keys are texts, for what is proved of discovered keys, lookups and degraded layers.
use layercache.Base.{
  ℕ, ◌+◌, pos, Bool, true, false, ite, ltb_ℤ, none, some, List, [], ◌∷◌, ◌++◌, All, ◌≡◌, refl, ap,
  subst, arith, ℕ_discrete, starts_with,
}
use layercache.JsMap
use layercache.JsMap.{JsMap}
use layercache.JsMap.Laws.{get-delete}
use layercache.Exec.{Exec, ok, pure, throw, modify, all, all_settled}
use layercache.JsValue.{Value, null}
use layercache.Invalidation.PatternMatcher.{matches}
use layercache.Internal.Services.{Layer, Services}
use layercache.Internal.LayerWriter.{Writer, best_effort}
use layercache.Internal.InvalidationSupport.{collect_keys}
use layercache.Internal.RuntimePolicy.{retry_after, resolve_recoverable_layer_failure}
use layercache.Internal.KeyDiscovery
use layercache.Invalidation.PatternMatcher
use layercache.Internal.KeyDiscovery.{
  Text, KeyIndex, collect_keys_with_prefix, collect_keys_matching_pattern,
}
use layercache.Internal.KeyDiscovery.Listings.{
  listed, wanted_keys, as_discovery, discovered-collect_keys,
}
use layercache.CacheStack.{CacheStack}
use layercache.CacheStack.Deletion.{IsDeleting, IsApart, IsWithout}
use layercache.CacheStack.Background.{run_write_behind_batch, run_write_behind_batch-after_all}
use layercache.CacheStack.Degradation.{
  Degradation, should_skip_layer, handle_layer_failure, skip-handle_layer_failure, at,
}
use layercache.CacheStack.Lookups.{Returns, has_from, ttl_from, lookups-Returns}
use layercache.CacheStack.Patterns.{invalidate_matching-IsWithout}
use layercache.Tests.Remote.{text_dec, both}

abbrev World : Type 0
World = JsMap Text Value

abbrev text_layer : Layer Text World ℕ
text_layer = record {
  name = "texts";
  default_ttl = none;
  get_entry = none;
  get = λ key. throw 4;
  set = λ key value ttl. throw 5;
  set_many = none;
  delete = λ key. modify (JsMap.delete text_dec key);
  delete_many = none;
  clear = modify (λ w. []);
  is_local = true;
  keys = some (λ w. (ok (JsMap.keys w), w));
  for_each_key = none;
  has = none;
  ttl = none;
}

abbrev text_services : Services Text World ℕ
text_services = record {
  layers = text_layer ∷ [];
  now = λ w. pos 0;
  current_clear_epoch = λ w. 0;
  current_key_epoch = λ key w. 0;
  run_serialized_writes = λ keys m. m;
  should_skip_layer = λ layer w. false;
  handle_layer_failure = λ layer operation e. throw e;
}

-- It has one more key.
abbrev text_index : KeyIndex World ℕ
text_index = record {
  for_each_key_for_prefix = none;
  keys_for_prefix = some (λ prefix. pure ((7 ∷ 8 ∷ []) ∷ []));
  for_each_key_matching_pattern = none;
  match_pattern = λ pattern. pure ((7 ∷ 8 ∷ []) ∷ []);
}

abbrev three_keys : World
three_keys = (7 ∷ [], null) ∷ (7 ∷ 8 ∷ [], null) ∷ (9 ∷ [], null) ∷ []

discovered-collect_keys_example :
    let listed_keys : List (List Text) = ((7 ∷ []) ∷ (7 ∷ 8 ∷ []) ∷ (9 ∷ []) ∷ []) ∷ [] in
    (collect_keys_with_prefix text_services text_dec text_index (7 ∷ []) (some 5) three_keys ≡ (
      as_discovery (
          collect_keys text_dec
            (some 5)
            []
            (((7 ∷ 8 ∷ []) ∷ []) ++ wanted_keys text_services (starts_with (7 ∷ [])) listed_keys)),
      three_keys,
    ))
    × (collect_keys_matching_pattern text_services text_dec text_index (7 ∷ []) (some 5) three_keys
        ≡ (
          as_discovery (
              collect_keys text_dec
                (some 5)
                []
                (((7 ∷ 8 ∷ []) ∷ []) ++ wanted_keys text_services (matches (7 ∷ [])) listed_keys)),
          three_keys,
        ))
unfolding layercache.Internal.KeyDiscovery.layer_visit
discovered-collect_keys_example =
    discovered-collect_keys text_services text_dec text_index (7 ∷ []) (some 5) ((7 ∷ 8 ∷ []) ∷ [])
      ((7 ∷ 8 ∷ []) ∷ []) (((7 ∷ []) ∷ (7 ∷ 8 ∷ []) ∷ (9 ∷ []) ∷ []) ∷ []) three_keys refl refl
      (listed _ refl refl refl, tt)

-- The layer throws wherever it is asked.
lookups-Returns_example :
    Returns (
      has_from
        (λ layer w. (false, w))
        (λ layer operation e w. (ok tt, w))
        (text_layer ∷ [])
        (7 ∷ [])
        three_keys)
    × Returns (
        ttl_from
          (λ layer w. (false, w))
          (λ layer operation e w. (ok tt, w))
          (text_layer ∷ [])
          (7 ∷ [])
          three_keys)
lookups-Returns_example =
    lookups-Returns (λ layer w. (false, w)) (λ layer operation e w. (ok tt, w)) (λ layer e w. refl)
      (text_layer ∷ []) (7 ∷ []) three_keys

abbrev degradation : Degradation ℕ
degradation = record { layer_degraded_until = []; now = pos 5; degraded_operations = 0 }

skip-handle_layer_failure_example :
    (should_skip_layer ℕ_discrete 2 (
      at ℕ_discrete
        (pos 60)
        (handle_layer_failure ℕ_discrete {E = ℕ}
          (retry_after (some (pos 100)))
          2
          3
          degradation).1)).0
    ≡ ite
        (ℕ_discrete 2 2)
        (ltb_ℤ (pos 60) (pos 105))
        (should_skip_layer ℕ_discrete 2 (at ℕ_discrete (pos 60) degradation)).0
unfolding resolve_recoverable_layer_failure layercache.Base.◌+ℤ◌
skip-handle_layer_failure_example =
    skip-handle_layer_failure ℕ_discrete {E = ℕ} (retry_after (some (pos 100))) 2 3 degradation
      (pos 105) refl (pos 60) 2

abbrev text_writer : Writer Text World ℕ
text_writer = record {
  services = text_services;
  should_write_behind = λ layer. false;
  enqueue_write_behind = λ m. pure tt;
  write_policy = some best_effort;
  on_write_failures = λ es w. w;
  aggregate_error = λ es. 8;
}

abbrev text_stack : CacheStack Text ℕ Text World ℕ
text_stack = record {
  writer = text_writer;
  qualify_key = λ k. pure k;
  validate_tags = λ tags. pure tt;
  await_startup = pure tt;
  keys_for_tag = λ tag. pure [];
  track = λ k tags. pure tt;
  touch = λ k. pure tt;
  remove = λ k. pure tt;
  clear_index = pure tt;
  bump_key_epochs = λ ks w. w;
  begin_clear_epoch = λ w. w;
  delete_profile = λ k w. w;
  delete_breaker = λ k w. w;
  clear_profiles = λ w. w;
  clear_breakers = λ w. w;
  increment = λ counter n w. w;
  publish = none;
  broadcasts_l1_invalidation = false;
  instance_id = 1;
  invalidation_max_keys = some 10;
  limit_error = λ e. 6;
}

abbrev in_layer : Layer Text World ℕ → Text → World → Bool
in_layer layer k w = JsMap.has text_dec k w

text_layer-IsDeleting : IsDeleting text_dec text_services in_layer text_layer
text_layer-IsDeleting = record {
  never_skipped = λ w. refl;
  failure_thrown = λ o e w. refl;
  delete_lem = λ k w v h.
      subst (λ u. JsMap.has text_dec k u ≡ false) (ap (λ t. t.1) h)
        (ground (arith, get-delete text_dec k k w));
  delete_shrinks = λ k layer j w h. ground (arith, h, get-delete text_dec j k w);
  delete_many_lem = λ f e. ground (arith, e);
  delete_many_shrinks = λ f e. ground (arith, e);
}

text_apart : IsApart text_dec text_stack in_layer
text_apart = record {
  forget_shrinks = λ k layer j w h. h;
  increment_shrinks = λ d n layer j w h. h;
}

abbrev accept : Text → Exec World ℕ (Unit {0})
accept pattern = pure tt

abbrev one_key : World
one_key = (9 ∷ [], null) ∷ []

abbrev found_keys : List Text
found_keys = (7 ∷ 8 ∷ []) ∷ (7 ∷ []) ∷ []

invalidate_matching-IsWithout_example :
    All
      (λ layer. IsWithout text_dec text_services in_layer found_keys layer one_key)
      (text_layer ∷ [])
    × All
        (λ layer. IsWithout text_dec text_services in_layer found_keys layer one_key)
        (text_layer ∷ [])
unfolding layercache.CacheStack.Patterns.invalidate_by_pattern
    layercache.CacheStack.Patterns.invalidate_by_prefix collect_keys_with_prefix
    collect_keys_matching_pattern KeyDiscovery.discover KeyDiscovery.discover_in_index
    KeyDiscovery.walk KeyDiscovery.add_match KeyDiscovery.visit_key
    KeyDiscovery.assert_within_match_limit KeyDiscovery.discover_from KeyDiscovery.layer_visit
    KeyDiscovery.after_walk matches starts_with PatternMatcher.match_loop PatternMatcher.match_round
    PatternMatcher.only_stars all all_settled layercache.CacheStack.delete_keys
    layercache.CacheStack.forget_all layercache.Internal.InvalidationSupport.delete_keys_from_layers
    JsMap.get JsMap.set JsMap.delete text_dec both ℕ_discrete
invalidate_matching-IsWithout_example =
    invalidate_matching-IsWithout text_dec text_stack text_index accept (λ p. p) in_layer (7 ∷ [])
      (7 ∷ []) three_keys one_key one_key found_keys found_keys refl (text_layer-IsDeleting, tt)
      text_apart (three_keys, three_keys, three_keys, refl, refl, refl)
      (three_keys, three_keys, three_keys, 7 ∷ [], refl, refl, refl) refl refl

-- The count becomes a key.
abbrev counted_in : ℕ → World → World
counted_in n w = (n ∷ [], null) ∷ w

abbrev drop_all : Exec World ℕ (Unit {0})
drop_all w = (ok tt, [])

run_write_behind_batch-after_all_example :
    run_write_behind_batch counted_in (throw 4 ∷ drop_all ∷ throw 6 ∷ []) one_key
    ≡ (ok tt, (2 ∷ [], null) ∷ [])
run_write_behind_batch-after_all_example =
    run_write_behind_batch-after_all counted_in (throw 4 ∷ drop_all ∷ throw 6 ∷ []) one_key
