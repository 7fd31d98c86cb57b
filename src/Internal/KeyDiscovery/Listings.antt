-- ===== src/Internal/KeyDiscovery/Listings.antt =====
-- What src/internal/CacheKeyDiscovery.ts collects where the index and the layers list their keys.
use layercache.Base.{
  Option-cases, ℕ, Bool, true, false, starts_with, Bool-cases, inl, inr, keep, Option, none, some,
  List, [], ◌∷◌, ◌++◌, map, ◌≡◌, refl, ap, ◌∙◌, arith,
}
use layercache.Exec.{Result, ok, err, Exec, continue, all, all_settled, first_error, add_error}
use layercache.Exec.Settled.{all_settled_cons, all_settled_nil}
use layercache.JsMap
use layercache.Invalidation.PatternMatcher.{matches}
use layercache.Internal.Services.{Layer, Operation, Services, Visit}
use layercache.Internal.InvalidationSupport.{Set, LimitError, exceeds, collect_keys}
use layercache.Internal.KeyDiscovery.{
  is_over_limit, Text, DiscoveryError, limit_reached, KeyIndex, Visitor, visit_key, add_match,
  assert_within_match_limit, walk, after_walk, layer_visit, discover_from, discover_in_layer,
  discover_in_index, index_ended, found_keys, discover, prefix_visit, pattern_visit,
  collect_keys_with_prefix, collect_keys_matching_pattern,
}
use layercache.JsMap.Members.{set_present}

-- What a walk found, or that the limit was passed.
abbrev outcome : Result LimitError (Unit {0}) × Set Text → Result LimitError (List Text)
outcome (ok u, found) = ok (JsMap.keys found)
outcome (err e, found) = err e

abbrev pub as_discovery :
    {E : Type 0} → Result LimitError (List Text) → Result (DiscoveryError E) (List Text)
as_discovery (ok keys) = ok keys
as_discovery (err e) = err (limit_reached e)

abbrev pub any_key : Text → Bool
any_key key = true

continue-append :
    (visitor : Visitor) (ks ls : List Text) (x : Result LimitError (Unit {0}) × Set Text)
    → ((found : Set Text)
        → walk visitor any_key (ks ++ ls) found
          ≡ continue (walk visitor any_key ks found) (λ u. walk visitor any_key ls))
    → continue x (λ u. walk visitor any_key (ks ++ ls))
      ≡ continue (continue x (λ u. walk visitor any_key ks)) (λ u. walk visitor any_key ls)
continue-append visitor ks ls (ok u, found) h = h found
continue-append visitor ks ls (err e, found) h = refl

walk-append :
    (visitor : Visitor) (ks ls : List Text) (found : Set Text)
    → walk visitor any_key (ks ++ ls) found
      ≡ continue (walk visitor any_key ks found) (λ u. walk visitor any_key ls)
unfolding walk
walk-append visitor [] ls found = refl
walk-append visitor (k ∷ ks) ls found =
    continue-append visitor ks ls (visitor k found) (walk-append visitor ks ls)

continue-keep :
    (visitor : Visitor) (wanted : Text → Bool) (ks : List Text)
    (x : Result LimitError (Unit {0}) × Set Text)
    → ((found : Set Text)
        → walk visitor wanted ks found ≡ walk visitor any_key (keep wanted ks) found)
    → continue x (λ u. walk visitor wanted ks)
      ≡ continue x (λ u. walk visitor any_key (keep wanted ks))
continue-keep visitor wanted ks (ok u, found) h = h found
continue-keep visitor wanted ks (err e, found) h = refl

walk-keep :
    (visitor : Visitor) (wanted : Text → Bool) (ks : List Text) (found : Set Text)
    → walk visitor wanted ks found ≡ walk visitor any_key (keep wanted ks) found
unfolding walk
walk-keep visitor wanted [] found = refl
walk-keep visitor wanted (k ∷ ks) found = elim (Bool-cases (wanted k)) [
  | inl e ↦ rw e (continue-keep visitor wanted ks (visitor k found) (walk-keep visitor wanted ks))
  | inr e ↦ rw e (walk-keep visitor wanted ks found)
]

-- Both classes have the same limit.
is_over_limit-exceeds : (size : ℕ) (max : Option ℕ) → is_over_limit size max ≡ exceeds size max
is_over_limit-exceeds size none = refl
is_over_limit-exceeds size (some n) = refl

module _ (dec : Discrete Text) (max_matches : Option ℕ) where
  walk-add_match :
      (ks : List Text) (found : Set Text)
      → outcome (walk (add_match dec max_matches) any_key ks found)
        ≡ collect_keys dec max_matches found ks
  unfolding walk add_match collect_keys assert_within_match_limit
  walk-add_match [] found = refl
  walk-add_match (k ∷ ks) found =
      let found' = JsMap.set dec k tt found in
      elim (Bool-cases (exceeds (JsMap.size found') max_matches)) [
        | inl e ↦ rw (is_over_limit-exceeds (JsMap.size found') max_matches, e) refl
        | inr e ↦
            rw (is_over_limit-exceeds (JsMap.size found') max_matches, e) (walk-add_match ks found')
      ]

  walk-visit_key :
      (ks : List Text) (found : Set Text)
      → exceeds (JsMap.size found) max_matches ≡ false
      → outcome (walk (visit_key dec max_matches) any_key ks found)
        ≡ collect_keys dec max_matches found ks
  unfolding walk visit_key collect_keys assert_within_match_limit
  walk-visit_key [] found small = refl
  walk-visit_key (k ∷ ks) found small =
      let found' = JsMap.set dec k tt found in
      elim (Bool-cases (JsMap.has dec k found)) [
        | inl h ↦ rw (h, set_present dec k found h, small) (walk-visit_key ks found small)
        | inr h ↦ elim (Bool-cases (exceeds (JsMap.size found') max_matches)) [
          | inl e ↦ rw (h, is_over_limit-exceeds (JsMap.size found') max_matches, e) refl
          | inr e ↦
              rw (h, is_over_limit-exceeds (JsMap.size found') max_matches, e)
                (walk-visit_key ks found' e)
        ]
      ]

exceeds_empty : (max_matches : Option ℕ) → exceeds 0 max_matches ≡ false
exceeds_empty none = refl
exceeds_empty (some n) = ground arith

module _ {W E : Type 0} (s : Services Text W E) where
  -- A layer that lists these keys, or is not asked, and changes nothing.
  pub data Lists (w : W) (layer : Layer Text W E) : List Text → Type 0 where
    skipped : s.should_skip_layer layer w ≡ true → Lists w layer []
    hidden : layer_visit s layer ≡ none → Lists w layer []
    listed :
        (visit : Visit Text W E) {keys : List Text}
        → layer_visit s layer ≡ some visit
        → s.should_skip_layer layer w ≡ false
        → visit w ≡ ((keys, none), w)
        → Lists w layer keys

  abbrev pub ListAll : W → List (Layer Text W E) → List (List Text) → Type 0
  ListAll w [] [] = Unit
  ListAll w (layer ∷ layers) (keys ∷ lists) = Lists w layer keys × ListAll w layers lists
  ListAll w layers lists = ⊥

  -- The keys that are wanted, of all layers.
  abbrev pub wanted_keys : (Text → Bool) → List (List Text) → List Text
  wanted_keys wanted [] = []
  wanted_keys wanted (keys ∷ lists) = keep wanted keys ++ wanted_keys wanted lists

  abbrev layer_result :
      W
      → Result LimitError (Unit {0}) × Set Text
      → Result (DiscoveryError E) (Unit {0}) × (Set Text × W)
  layer_result w (ok u, found) = (ok tt, (found, w))
  layer_result w (err e, found) = (err (limit_reached e), (found, w))

  after_walk-none :
      (layer : Layer Text W E) (operation : Operation) (w : W)
      (x : Result LimitError (Unit {0}) × Set Text)
      → after_walk s layer operation none w x ≡ layer_result w x
  unfolding after_walk
  after_walk-none layer operation w (ok u, found) = refl
  after_walk-none layer operation w (err e, found) = refl

  discover_in_layer-walk :
      (visitor : Visitor) (wanted : Text → Bool) (operation : Operation) (layer : Layer Text W E)
      (w : W) (found : Set Text) (keys : List Text)
      → Lists w layer keys
      → discover_in_layer s visitor wanted operation layer (found, w)
        ≡ layer_result w (walk visitor any_key (keep wanted keys) found)
  unfolding discover_from walk
  discover_in_layer-walk visitor wanted operation layer w found keys (skipped e) =
      elim (Option-cases (layer_visit s layer)) [ inl n ↦ rw n refl | inr v ↦ rw (v.1, e) refl ]
  discover_in_layer-walk visitor wanted operation layer w found keys (hidden e) = rw e refl
  discover_in_layer-walk visitor wanted operation layer w found keys (listed visit v e a) =
      rw (v, e, a, ← walk-keep visitor wanted keys found)
        (after_walk-none layer operation w (walk visitor wanted keys found))

  module _ (visitor : Visitor) (wanted : Text → Bool) (operation : Operation) where
    abbrev visits : List (Layer Text W E) → List (Exec (Set Text × W) (DiscoveryError E) (Unit {0}))
    visits layers = map (discover_in_layer s visitor wanted operation) layers

    layer_result-world :
        (w : W) (x : Result LimitError (Unit {0}) × Set Text) → (layer_result w x).1.1 ≡ w
    layer_result-world w (ok u, found) = refl
    layer_result-world w (err e, found) = refl

    all_settled-world :
        (layers : List (Layer Text W E)) (lists : List (List Text)) (w : W) (state : Set Text × W)
        → ListAll w layers lists
        → state.1 ≡ w
        → (all_settled (visits layers) state).1.1 ≡ w
    all_settled-world [] [] w state l same =
        rw (all_settled_nil {W = Set Text × W} {E = DiscoveryError E} state) same
    all_settled-world [] (keys ∷ lists) w state l same = absurd l
    all_settled-world (layer ∷ layers) [] w state l same = absurd l
    all_settled-world (layer ∷ layers) (keys ∷ lists) w (found, v) l same =
        let x = walk visitor any_key (keep wanted keys) found in
        let first = discover_in_layer-walk visitor wanted operation layer w found keys l.0 in
        rw same (
          rw
            (all_settled_cons (discover_in_layer s visitor wanted operation layer) (visits layers)
              (found, w) (layer_result w x) first)
            (all_settled-world layers lists w (layer_result w x).1 l.1 (layer_result-world w x)))

    -- What is left to do after the first layer.
    all-after :
        (layers : List (Layer Text W E)) (lists : List (List Text)) (w : W)
        (x : Result LimitError (Unit {0}) × Set Text)
        → ListAll w layers lists
        → ((found : Set Text)
            → found_keys s (all (visits layers) (found, w))
              ≡ (as_discovery (outcome (walk visitor any_key (wanted_keys wanted lists) found)), w))
        → found_keys s (
            let (es, state) = all_settled (visits layers) (layer_result w x).1 in
            (first_error (add_error (layer_result w x).0 es), state))
          ≡ (
            as_discovery
                (outcome (continue x (λ u. walk visitor any_key (wanted_keys wanted lists)))),
            w,
          )
    unfolding all
    all-after layers lists w (ok u, found) l h = h found
    all-after layers lists w (err e, found) l h =
        ap (λ v. (err (limit_reached e), v)) (all_settled-world layers lists w (found, w) l refl)

    all-walk :
        (layers : List (Layer Text W E)) (lists : List (List Text)) (w : W) (found : Set Text)
        → ListAll w layers lists
        → found_keys s (all (visits layers) (found, w))
          ≡ (as_discovery (outcome (walk visitor any_key (wanted_keys wanted lists) found)), w)
    unfolding all walk
    all-walk [] [] w found l =
        rw (all_settled_nil {W = Set Text × W} {E = DiscoveryError E} (found, w)) refl
    all-walk [] (keys ∷ lists) w found l = absurd l
    all-walk (layer ∷ layers) [] w found l = absurd l
    all-walk (layer ∷ layers) (keys ∷ lists) w found l =
        let x = walk visitor any_key (keep wanted keys) found in
        let first = discover_in_layer-walk visitor wanted operation layer w found keys l.0 in
        rw
          (
            all_settled_cons (discover_in_layer s visitor wanted operation layer) (visits layers)
                (found, w) (layer_result w x) first,
            walk-append visitor (keep wanted keys) (wanted_keys wanted lists) found,
          )
          (all-after layers lists w x l.1 (λ f. all-walk layers lists w f l.1))

    after_index :
        (lists : List (List Text)) (w : W) (x : Result LimitError (Unit {0}) × Set Text)
        → ListAll w s.layers lists
        → found_keys s (continue (index_ended s none w x) (λ u. all (visits s.layers))) ≡ (
          as_discovery
              (outcome (continue x (λ u. walk visitor any_key (wanted_keys wanted lists)))),
          w,
        )
    after_index lists w (ok u, found) l = all-walk s.layers lists w found l
    after_index lists w (err e, found) l = refl

    discover-walk :
        (visit : Visit Text W E) (indexed : List Text) (lists : List (List Text)) (w : W)
        → visit w ≡ ((indexed, none), w)
        → ListAll w s.layers lists
        → discover s visitor wanted operation visit w ≡ (
          as_discovery (outcome (walk visitor any_key (indexed ++ wanted_keys wanted lists) [])),
          w,
        )
    unfolding discover discover_in_index
    discover-walk visit indexed lists w e l =
        rw (e, walk-append visitor indexed (wanted_keys wanted lists) [])
          (after_index lists w (walk visitor any_key indexed []) l)

  module _ (dec : Discrete Text) (index : KeyIndex W E) where
    -- Where the index and the layers list their keys, or a layer is not asked, without a change to the world:
    -- the keys found by a prefix or a pattern are those of the index and the wanted ones of the layers, each
    -- once, in the order in which they are listed; and if there are more than the limit, it is thrown.
    pub discovered-collect_keys :
        (text : Text) (max_matches : Option ℕ) (by_prefix by_pattern : List Text)
        (lists : List (List Text)) (w : W)
        → prefix_visit s dec index text w ≡ ((by_prefix, none), w)
        → pattern_visit s dec index text w ≡ ((by_pattern, none), w)
        → ListAll w s.layers lists
        → (collect_keys_with_prefix s dec index text max_matches w ≡ (
          as_discovery
              (collect_keys dec max_matches [] (by_prefix ++ wanted_keys (starts_with text) lists)),
          w,
        ))
          × (collect_keys_matching_pattern s dec index text max_matches w ≡ (
            as_discovery
                (collect_keys dec max_matches [] (by_pattern ++ wanted_keys (matches text) lists)),
            w,
          ))
    unfolding collect_keys_with_prefix collect_keys_matching_pattern
    discovered-collect_keys text max_matches by_prefix by_pattern lists w e f l =
        let visiting = visit_key dec max_matches in
        let adding = add_match dec max_matches in
        (
          discover-walk visiting (starts_with text) Operation.prefix_scan
                (prefix_visit s dec index text) by_prefix lists w e l
              ∙ ap (λ r. (as_discovery r, w))
                  (walk-visit_key dec max_matches
                    (by_prefix ++ wanted_keys (starts_with text) lists) []
                    (exceeds_empty max_matches)),
          discover-walk adding (matches text) Operation.pattern_scan
                (pattern_visit s dec index text) by_pattern lists w f l
              ∙ ap (λ r. (as_discovery r, w))
                  (walk-add_match dec max_matches (by_pattern ++ wanted_keys (matches text) lists)
                    []),
        )
