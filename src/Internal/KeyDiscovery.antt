-- ===== src/Internal/KeyDiscovery.antt =====
-- `CacheKeyDiscovery` of src/internal/CacheKeyDiscovery.ts. A key is the list of its characters. What was
-- found so far stands beside the world; the tag index is one of the parameters.
pub mod Listings
use layercache.Base.{
  ℕ, Bool, true, false, starts_with, is_some, not, ◌||◌, ltb, Option, none, some, if◌then◌else◌,
  List, [], ◌∷◌, ◌++◌, map,
}
use layercache.Exec.{Result, ok, err, Exec, continue, all}
use layercache.JsMap
use layercache.Invalidation.PatternMatcher.{matches, star}
use layercache.Internal.Services.{Layer, Operation, Services, Visit}
use layercache.Internal.InvalidationSupport.{Set, LimitError, too_many_keys}

abbrev pub Text : Type 0
Text = List ℕ

-- An `InvalidationLimitError`, or an error of something else.
pub data DiscoveryError (E : Type 0) : Type 0 where
  limit_reached : LimitError → DiscoveryError E
  failure : E → DiscoveryError E

-- What `CacheTagIndex` has for the discovery.
pub record KeyIndex (W E : Type 0) : Type 0 where
  pub for_each_key_for_prefix : Option (Text → Visit Text W E)
  pub keys_for_prefix : Option (Text → Exec W E (List Text))
  pub for_each_key_matching_pattern : Option (Text → Visit Text W E)
  pub match_pattern : Text → Exec W E (List Text)

abbrev pub ended : {E : Type 0} → Option E → Result E (Unit {0})
ended none = ok tt
ended (some e) = err e

-- `maxMatches !== false && matches.size > maxMatches`
abbrev pub is_over_limit : ℕ → Option ℕ → Bool
is_over_limit size none = false
is_over_limit size (some max_matches) = ltb max_matches size

module _ (dec : Discrete Text) (max_matches : Option ℕ) where
  unfoldable pub assert_within_match_limit : Set Text → Result LimitError (Unit {0})
  assert_within_match_limit found =
      if is_over_limit (JsMap.size found) max_matches
      then err (too_many_keys (JsMap.size found))
      else ok tt

  -- `visit` of `forEachKeyWithPrefix`, whose visitor keeps the key
  unfoldable pub visit_key : Text → Set Text → Result LimitError (Unit {0}) × Set Text
  visit_key key found =
      if JsMap.has dec key found
      then (ok tt, found)
      else (assert_within_match_limit (JsMap.set dec key tt found), JsMap.set dec key tt found)

  -- What `collectKeysMatchingPattern` does with a key
  unfoldable pub add_match : Text → Set Text → Result LimitError (Unit {0}) × Set Text
  add_match key found =
      (assert_within_match_limit (JsMap.set dec key tt found), JsMap.set dec key tt found)

abbrev pub Visitor : Type 0
Visitor = Text → Set Text → Result LimitError (Unit {0}) × Set Text

-- One visitor over keys, to the first error; only the wanted keys get to it.
unfoldable pub walk :
    Visitor → (Text → Bool) → List Text → Set Text → Result LimitError (Unit {0}) × Set Text
walk visitor wanted [] found = (ok tt, found)
walk visitor wanted (key ∷ keys) found =
    if wanted key
    then continue (visitor key found) (λ u. walk visitor wanted keys)
    else walk visitor wanted keys found

module _ {W E : Type 0} (s : Services Text W E) where
  -- A limit that is exceeded is thrown on, any other error is a failure of the layer.
  unfoldable pub after_walk :
      Layer Text W E
      → Operation
      → Option E
      → W
      → Result LimitError (Unit {0}) × Set Text
      → Result (DiscoveryError E) (Unit {0}) × (Set Text × W)
  after_walk layer operation failed w (err limit, found) = (err (limit_reached limit), (found, w))
  after_walk layer operation none w (ok u, found) = (ok tt, (found, w))
  after_walk layer operation (some e) w (ok u, found) =
      reported found (s.handle_layer_failure layer operation e w)
    where
      reported :
          Set Text → Result E (Unit {0}) × W → Result (DiscoveryError E) (Unit {0}) × (Set Text × W)
      reported found (ok u, w') = (ok tt, (found, w'))
      reported found (err e, w') = (err (failure e), (found, w'))

  -- The keys of a listing method, as a visit.
  abbrev pub visit_listing : Exec W E (List Text) → Visit Text W E
  visit_listing list w = listed (list w)
    where
      listed : Result E (List Text) × W → (List Text × Option E) × W
      listed (ok keys, w') = ((keys, none), w')
      listed (err e, w') = (([], some e), w')

  unfoldable pub layer_visit : Layer Text W E → Option (Visit Text W E)
  layer_visit layer = elim layer.for_each_key [
    | some visit ↦ some visit
    | none ↦ elim layer.keys [ none ↦ none | some list ↦ some (visit_listing list) ]
  ]

  -- Visit a layer.
  unfoldable pub discover_from :
      Visitor
      → (Text → Bool)
      → Operation
      → Layer Text W E
      → Option (Visit Text W E)
      → Exec (Set Text × W) (DiscoveryError E) (Unit {0})
  discover_from visitor wanted operation layer none (found, w) = (ok tt, (found, w))
  discover_from visitor wanted operation layer (some visit) (found, w) =
      if s.should_skip_layer layer w
      then (ok tt, (found, w))
      else let ((keys, failed), w') = visit w in
        after_walk layer operation failed w' (walk visitor wanted keys found)

  abbrev pub discover_in_layer :
      Visitor
      → (Text → Bool)
      → Operation
      → Layer Text W E
      → Exec (Set Text × W) (DiscoveryError E) (Unit {0})
  discover_in_layer visitor wanted operation layer =
      discover_from visitor wanted operation layer (layer_visit layer)

  abbrev pub index_ended :
      Option E
      → W
      → Result LimitError (Unit {0}) × Set Text
      → Result (DiscoveryError E) (Unit {0}) × (Set Text × W)
  index_ended failed w (err limit, found) = (err (limit_reached limit), (found, w))
  index_ended none w (ok u, found) = (ok tt, (found, w))
  index_ended (some e) w (ok u, found) = (err (failure e), (found, w))

  unfoldable pub discover_in_index :
      Visitor → Visit Text W E → Exec (Set Text × W) (DiscoveryError E) (Unit {0})
  discover_in_index visitor visit (found, w) =
      let ((keys, failed), w') = visit w in
      index_ended failed w' (walk visitor (λ key. true) keys found)

  -- `[...matches]`
  abbrev pub found_keys :
      Result (DiscoveryError E) (Unit {0}) × (Set Text × W)
      → Result (DiscoveryError E) (List Text) × W
  found_keys (ok u, (found, w)) = (ok (JsMap.keys found), w)
  found_keys (err e, (found, w)) = (err e, w)

  -- First the index, then all layers.
  unfoldable pub discover :
      Visitor → (Text → Bool) → Operation → Visit Text W E → Exec W (DiscoveryError E) (List Text)
  discover visitor wanted operation visit w = found_keys (
      continue (discover_in_index visitor visit ([], w))
        (λ u. all (map (discover_in_layer visitor wanted operation) s.layers)))

  module _ (dec : Discrete Text) (index : KeyIndex W E) where
    abbrev pub prefix_visit : Text → Visit Text W E
    prefix_visit prefix = elim index.for_each_key_for_prefix [
      | some visit ↦ visit prefix
      | none ↦ elim index.keys_for_prefix [
        | some list ↦ visit_listing (list prefix)
        | none ↦ visit_listing (index.match_pattern (prefix ++ star ∷ []))
      ]
    ]

    -- `collectKeysWithPrefix`, over `forEachKeyWithPrefix`
    unfoldable pub collect_keys_with_prefix :
        Text → Option ℕ → Exec W (DiscoveryError E) (List Text)
    collect_keys_with_prefix prefix max_matches =
        discover (visit_key dec max_matches) (starts_with prefix) Operation.prefix_scan
          (prefix_visit prefix)

    abbrev pub pattern_visit : Text → Visit Text W E
    pattern_visit pattern = elim index.for_each_key_matching_pattern [
      | some visit ↦ visit pattern
      | none ↦ visit_listing (index.match_pattern pattern)
    ]

    unfoldable pub collect_keys_matching_pattern :
        Text → Option ℕ → Exec W (DiscoveryError E) (List Text)
    collect_keys_matching_pattern pattern max_matches =
        discover (add_match dec max_matches) (matches pattern) Operation.pattern_scan
          (pattern_visit pattern)
