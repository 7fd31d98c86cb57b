-- ===== src/Invalidation/TagIndex.antt =====
-- `TagIndex` of src/invalidation/TagIndex.ts. A key or a tag is the list of its characters, which are
-- UTF-16 code units here: the validation of keys lets no surrogates through. `now` is what
-- `Date.now()` reads during a call. The visiting methods visit what the listing ones return.
pub mod Tree
pub mod Known
use layercache.Base.{
  ℕ, zero, suc, ◌+◌, ◌/◌, Bool, true, false, ◌||◌, ◌==◌, ltb, leb, keep, Option, none, some,
  if◌then◌else◌, List, [], ◌∷◌,
}
use layercache.JsMap.{JsMap}
use layercache.JsMap
use layercache.Invalidation.PatternMatcher.{star, any_one, matches}
use layercache.Invalidation.TagIndex.Tree.{
  Trie, fresh_node, insert, remove_path, find_node, collect_from_node,
}

abbrev pub Text : Type 0
Text = List ℕ

-- a `Set` of texts
abbrev pub TextSet : Type 0
TextSet = JsMap Text (Unit {0})

abbrev pub members : Option TextSet → List Text
members none = []
members (some s) = JsMap.keys s

pub record TagIndex : Type 0 where
  pub tag_to_keys : JsMap Text TextSet
  pub key_to_tags : JsMap Text TextSet
  pub known_keys : JsMap Text ℕ
  pub max_known_keys : ℕ
  pub touch_refresh_interval_ms : ℕ
  pub root : Trie

abbrev pub init : Option ℕ → Option ℕ → TagIndex
init max_known_keys touch_refresh_interval_ms = record {
  tag_to_keys = [];
  key_to_tags = [];
  known_keys = [];
  max_known_keys = elim max_known_keys [ none ↦ 100_000 | some n ↦ n ];
  touch_refresh_interval_ms = elim touch_refresh_interval_ms [ none ↦ 1_000 | some n ↦ n ];
  root = fresh_node;
}

unfoldable pub clear : TagIndex → TagIndex
clear s = record s { tag_to_keys = []; key_to_tags = []; known_keys = []; root = fresh_node }

-- `pattern.search(/[*?]/)`: what stands before the first wildcard
unfoldable pub literal_prefix : Text → Text
literal_prefix [] = []
literal_prefix (c ∷ cs) = if c == star || c == any_one then [] else c ∷ literal_prefix cs

-- `none` means that the fuel of the collection ran out.
unfoldable pub keys_for_prefix : Text → TagIndex → Option (List Text)
keys_for_prefix prefix s = elim (find_node prefix s.root) [
  | none ↦ some []
  | some t ↦ collect_from_node t prefix
]

unfoldable pub match_pattern : Text → TagIndex → Option (List Text)
match_pattern pattern s = elim (find_node (literal_prefix pattern) s.root) [
  | none ↦ some []
  | some t ↦ elim (collect_from_node t (literal_prefix pattern)) [
    | none ↦ none
    | some candidates ↦ some (keep (matches pattern) candidates)
  ]
]

module _ (dec : Discrete Text) where
  -- The Boolean says whether the key was touched.
  unfoldable pub insert_known_key : ℕ → Text → TagIndex → TagIndex × Bool
  insert_known_key now key s = elim (JsMap.get dec key s.known_keys) [
    | none ↦ (
      record s { known_keys = JsMap.set dec key now s.known_keys; root = insert key s.root },
      true,
    )
    | some previous ↦ if ltb now (previous + s.touch_refresh_interval_ms) then (s, false) else (
      record s { known_keys = JsMap.set dec key now (JsMap.delete dec key s.known_keys) },
      true,
    )
  ]

  unfoldable pub remove_known_key : Text → TagIndex → TagIndex
  remove_known_key key s = elim (JsMap.get dec key s.known_keys) [
    | none ↦ s
    | some previous ↦ record s {
      known_keys = JsMap.delete dec key s.known_keys;
      root = elim (remove_path key s.root) [ none ↦ s.root | some t ↦ t ];
    }
  ]

  -- The loop of `pruneKnownKeysIfNeeded`, `n` rounds or until no key is known.
  unfoldable pub remove_oldest : ℕ → TagIndex → TagIndex
  remove_oldest zero s = s
  remove_oldest (suc n) s = elim s.known_keys [
    | [] ↦ s
    | e ∷ m ↦ remove_oldest n (remove_known_key e.0 s)
  ]

  unfoldable pub prune_known_keys_if_needed : TagIndex → TagIndex
  prune_known_keys_if_needed s =
      if leb (JsMap.size s.known_keys) s.max_known_keys
      then s
      else remove_oldest ((s.max_known_keys + 9) / 10) s

  unfoldable pub touch : ℕ → Text → TagIndex → TagIndex
  touch now key s =
      let (s', touched) = insert_known_key now key s in
      if touched then prune_known_keys_if_needed s' else s'

  -- `tagToKeys.get(tag)?.delete(key)`, for each tag
  unfoldable pub unlink : Text → List Text → JsMap Text TextSet → JsMap Text TextSet
  unlink key [] m = m
  unlink key (tag ∷ tags) m = unlink key tags (elim (JsMap.get dec tag m) [
    | none ↦ m
    | some keys ↦ JsMap.set dec tag (JsMap.delete dec key keys) m
  ])

  -- The key is added to the set of each tag, which is created where it is missing.
  unfoldable pub link : Text → List Text → JsMap Text TextSet → JsMap Text TextSet
  link key [] m = m
  link key (tag ∷ tags) m =
      let keys : TextSet = elim (JsMap.get dec tag m) [ none ↦ [] | some keys ↦ keys ] in
      link key tags (JsMap.set dec tag (JsMap.set dec key tt keys) m)

  -- `new Set(tags)`
  unfoldable pub set_of : List Text → TextSet → TextSet
  set_of [] found = found
  set_of (tag ∷ tags) found = set_of tags (JsMap.set dec tag tt found)

  -- The part of `track` behind the test for tags.
  unfoldable pub replace_tags : Text → List Text → TagIndex → TagIndex
  replace_tags key tags s =
      let unlinked = unlink key (members (JsMap.get dec key s.key_to_tags)) s.tag_to_keys in
      let tag_set = set_of tags [] in
      record s {
        key_to_tags = JsMap.set dec key tag_set s.key_to_tags;
        tag_to_keys = link key (JsMap.keys tag_set) unlinked;
      }

  unfoldable pub track : ℕ → Text → List Text → TagIndex → TagIndex
  track now key [] s = touch now key s
  track now key (tag ∷ tags) s = replace_tags key (tag ∷ tags) (touch now key s)

  -- The loop of `removeKey`, which also deletes the sets that it empties.
  unfoldable pub unlink_all : Text → List Text → JsMap Text TextSet → JsMap Text TextSet
  unlink_all key [] m = m
  unlink_all key (tag ∷ tags) m = unlink_all key tags (elim (JsMap.get dec tag m) [
    | none ↦ m
    | some keys ↦
        if JsMap.size (JsMap.delete dec key keys) == 0
        then JsMap.delete dec tag m
        else JsMap.set dec tag (JsMap.delete dec key keys) m
  ])

  -- `remove`, which is `removeKey`
  unfoldable pub remove : Text → TagIndex → TagIndex
  remove key s =
      let s' = remove_known_key key s in
      elim (JsMap.get dec key s'.key_to_tags) [
        | none ↦ s'
        | some tags ↦ record s' {
          key_to_tags = JsMap.delete dec key s'.key_to_tags;
          tag_to_keys = unlink_all key (JsMap.keys tags) s'.tag_to_keys;
        }
      ]

  abbrev pub keys_for_tag : Text → TagIndex → List Text
  keys_for_tag tag s = members (JsMap.get dec tag s.tag_to_keys)

  abbrev pub tags_for_key : Text → TagIndex → List Text
  tags_for_key key s = members (JsMap.get dec key s.key_to_tags)

-- The methods that change the index, as calls.
pub data Call : Type 0 where
  touches removes : Text → Call
  tracks : Text → List Text → Call
  clears : Call

module _ (dec : Discrete Text) where
  unfoldable pub step : TagIndex → ℕ × Call → TagIndex
  step s (now, touches key) = touch dec now key s
  step s (now, removes key) = remove dec key s
  step s (now, tracks key tags) = track dec now key tags s
  step s (now, clears) = clear s

  unfoldable pub run : TagIndex → List (ℕ × Call) → TagIndex
  run s [] = s
  run s (c ∷ cs) = run (step s c) cs
