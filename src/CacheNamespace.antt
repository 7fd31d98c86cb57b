-- ===== src/CacheNamespace.antt =====
-- `CacheNamespace` of src/CacheNamespace.ts: a view of a stack whose keys and tags have a prefix. The methods
-- of the stack are the fields of `Cache`, over its world `W`, with values `V`, entries `N`, fetchers `F` and
-- results `I` of an inspection beside the tags. Texts are lists of UTF-16 code units. The mutex of the
-- metrics is left out: each addition of metrics runs on its own.
pub mod Isolation
use layercache.Base.{
  Bool, ℕ, ltb, ◌==◌, ◌+◌, Option, none, some, starts_with, List, [], ◌∷◌, ◌++◌, map, keep, length,
  drop, ℤ,
}
use layercache.Exec.{Result, ok, err, Exec}
use layercache.Internal.Validation.{
  Check, reject, ◌then_check◌, any, is_control, is_surrogate, empty_text, too_long,
  control_characters, surrogates,
}
use layercache.Internal.NamespaceMetrics.{MetricsSnapshot, add_namespace_metrics}

abbrev pub Text : Type 0
Text = List ℕ

-- The options of a read or a write: the tags, and the others.
pub record Options (O : Type 0) : Type 0 where
  pub tags : Option (List Text)
  pub others : O

pub record BatchEntry (F O : Type 0) : Type 0 where
  pub key : Text
  pub payload : F
  pub options : Option (Options O)

pub record EntryResult (N : Type 0) : Type 0 where
  pub key : Text
  pub entry : N

pub record InspectResult (I : Type 0) : Type 0 where
  pub tags : List Text
  pub details : I

pub data TagMode : Type 0 where
  any_tag all_tags : TagMode

-- The methods of `CacheStack` that a namespace calls. `capture` is `captureMetrics`: an error carries the
-- metrics only if it is an object.
pub record Cache (W E V N F O I : Type 0) : Type 1 where
  pub get : Text → F → Option (Options O) → Exec W E V
  pub get_or_set : Text → F → Option (Options O) → Exec W E V
  pub get_or_throw : Text → F → Option (Options O) → Exec W E V
  pub get_entry : Text → Exec W E (Option (EntryResult N))
  pub has : Text → Exec W E Bool
  pub ttl : Text → Exec W E (Option ℤ)
  pub set : Text → V → Option (Options O) → Exec W E (Unit {0})
  pub delete : Text → Exec W E (Unit {0})
  pub expire_by_key : Text → Exec W E (Unit {0})
  pub mdelete : List Text → Exec W E (Unit {0})
  pub expire_by_keys : List Text → Exec W E (Unit {0})
  pub mget : List (BatchEntry F O) → Exec W E (List V)
  pub mset : List (BatchEntry V O) → Exec W E (Unit {0})
  pub invalidate_by_tag : Text → Exec W E (Unit {0})
  pub expire_by_tag : Text → Exec W E (Unit {0})
  pub invalidate_by_tags : List Text → TagMode → Exec W E (Unit {0})
  pub expire_by_tags : List Text → TagMode → Exec W E (Unit {0})
  pub invalidate_by_pattern : Text → Exec W E (Unit {0})
  pub expire_by_pattern : Text → Exec W E (Unit {0})
  pub invalidate_by_prefix : Text → Exec W E (Unit {0})
  pub expire_by_prefix : Text → Exec W E (Unit {0})
  pub inspect : Text → Exec W E (Option (InspectResult I))
  pub warm : List (BatchEntry F O) → Exec W E (Unit {0})
  pub capture : {A : Type 0} → Exec W E A → W → (Result E A × Option (MetricsSnapshot Text)) × W

pub record Namespace : Type 0 where
  pub prefix : Text
  pub metrics : MetricsSnapshot Text

unfoldable pub validate_namespace_key : Text → Check
validate_namespace_key key =
    reject (length key == 0) empty_text
    then_check reject (ltb 256 (length key)) too_long
    then_check reject (any is_control key) control_characters
    then_check reject (any is_surrogate key) surrogates

-- `qualify` and `qualifyTag`, by the prefix
unfoldable pub qualify : Text → Text → Text
qualify prefix key = prefix ++ b':' ∷ key

unfoldable pub namespace_key_prefix : Text → Text
namespace_key_prefix prefix = prefix ++ b':' ∷ []

-- the prefix of `namespace(childPrefix)`, which is checked, and is again by the constructor
unfoldable pub nested : Text → Text → Result Check Text
nested prefix child = elim (validate_namespace_key child) [
  | some e ↦ err (some e)
  | none ↦ elim (validate_namespace_key (qualify prefix child)) [
    | some e ↦ err (some e)
    | none ↦ ok (qualify prefix child)
  ]
]

unfoldable pub qualify_write_options : {O : Type 0} → Text → Option (Options O) → Option (Options O)
qualify_write_options prefix none = none
qualify_write_options prefix (some o) = some (record o { tags = qualified o.tags })
  where
    qualified : Option (List Text) → Option (List Text)
    qualified none = none
    qualified (some tags) = some (map (qualify prefix) tags)

unfoldable pub qualify_entry : {F O : Type 0} → Text → BatchEntry F O → BatchEntry F O
qualify_entry prefix e = record e {
  key = qualify prefix e.key;
  options = qualify_write_options prefix e.options;
}

-- The tags of an inspected key that are the namespace's own, without the prefix.
unfoldable pub own_tags : Text → List Text → List Text
own_tags prefix tags =
    map (drop (length prefix + 1)) (keep (starts_with (namespace_key_prefix prefix)) tags)

module _ {W E V N F O I : Type 0} (dec : Discrete Text) (cache : Cache W E V N F O I) where
  abbrev pub Method : Type 0 → Type 0
  Method A = Exec (Namespace × W) E A

  abbrev pub add_captured : Option (MetricsSnapshot Text) → Namespace → Namespace
  add_captured none self = self
  add_captured (some captured) self = record self {
    metrics = add_namespace_metrics dec self.metrics captured;
  }

  unfoldable pub track_metrics : {A : Type 0} → (Text → Exec W E A) → Method A
  track_metrics operation (self, w) =
      let ((r, captured), w') = cache.capture (operation self.prefix) w in
      (r, (add_captured captured self, w'))

  unfoldable pub get : Text → F → Option (Options O) → Method V
  get key fetcher o =
      track_metrics (λ p. cache.get (qualify p key) fetcher (qualify_write_options p o))

  unfoldable pub get_or_set : Text → F → Option (Options O) → Method V
  get_or_set key fetcher o =
      track_metrics (λ p. cache.get_or_set (qualify p key) fetcher (qualify_write_options p o))

  unfoldable pub get_or_throw : Text → F → Option (Options O) → Method V
  get_or_throw key fetcher o =
      track_metrics (λ p. cache.get_or_throw (qualify p key) fetcher (qualify_write_options p o))

  abbrev pub under_key : Text → Option (EntryResult N) → Option (EntryResult N)
  under_key key none = none
  under_key key (some e) = some (record e { key = key })

  abbrev pub result_under :
      Text
      → Result E (Option (EntryResult N)) × (Namespace × W)
      → Result E (Option (EntryResult N)) × (Namespace × W)
  result_under key (ok e, w) = (ok (under_key key e), w)
  result_under key (err e, w) = (err e, w)

  unfoldable pub get_entry : Text → Method (Option (EntryResult N))
  get_entry key w = result_under key (track_metrics (λ p. cache.get_entry (qualify p key)) w)

  unfoldable pub has : Text → Method Bool
  has key = track_metrics (λ p. cache.has (qualify p key))

  unfoldable pub ttl : Text → Method (Option ℤ)
  ttl key = track_metrics (λ p. cache.ttl (qualify p key))

  unfoldable pub set : Text → V → Option (Options O) → Method (Unit {0})
  set key value o = track_metrics (λ p. cache.set (qualify p key) value (qualify_write_options p o))

  -- also `invalidateByKey`, an alias
  unfoldable pub delete : Text → Method (Unit {0})
  delete key = track_metrics (λ p. cache.delete (qualify p key))

  -- also `invalidateByKeys`, an alias
  unfoldable pub mdelete : List Text → Method (Unit {0})
  mdelete keys = track_metrics (λ p. cache.mdelete (map (qualify p) keys))

  unfoldable pub expire_by_key : Text → Method (Unit {0})
  expire_by_key key = track_metrics (λ p. cache.expire_by_key (qualify p key))

  unfoldable pub expire_by_keys : List Text → Method (Unit {0})
  expire_by_keys keys = track_metrics (λ p. cache.expire_by_keys (map (qualify p) keys))

  unfoldable pub clear : Method (Unit {0})
  clear = track_metrics (λ p. cache.invalidate_by_prefix (namespace_key_prefix p))

  unfoldable pub mget : List (BatchEntry F O) → Method (List V)
  mget entries = track_metrics (λ p. cache.mget (map (qualify_entry p) entries))

  unfoldable pub mset : List (BatchEntry V O) → Method (Unit {0})
  mset entries = track_metrics (λ p. cache.mset (map (qualify_entry p) entries))

  unfoldable pub invalidate_by_tag : Text → Method (Unit {0})
  invalidate_by_tag tag = track_metrics (λ p. cache.invalidate_by_tag (qualify p tag))

  unfoldable pub expire_by_tag : Text → Method (Unit {0})
  expire_by_tag tag = track_metrics (λ p. cache.expire_by_tag (qualify p tag))

  unfoldable pub invalidate_by_tags : List Text → TagMode → Method (Unit {0})
  invalidate_by_tags tags mode =
      track_metrics (λ p. cache.invalidate_by_tags (map (qualify p) tags) mode)

  unfoldable pub expire_by_tags : List Text → TagMode → Method (Unit {0})
  expire_by_tags tags mode = track_metrics (λ p. cache.expire_by_tags (map (qualify p) tags) mode)

  unfoldable pub invalidate_by_pattern : Text → Method (Unit {0})
  invalidate_by_pattern pattern =
      track_metrics (λ p. cache.invalidate_by_pattern (qualify p pattern))

  unfoldable pub expire_by_pattern : Text → Method (Unit {0})
  expire_by_pattern pattern = track_metrics (λ p. cache.expire_by_pattern (qualify p pattern))

  unfoldable pub invalidate_by_prefix : Text → Method (Unit {0})
  invalidate_by_prefix prefix = track_metrics (λ p. cache.invalidate_by_prefix (qualify p prefix))

  unfoldable pub expire_by_prefix : Text → Method (Unit {0})
  expire_by_prefix prefix = track_metrics (λ p. cache.expire_by_prefix (qualify p prefix))

  abbrev pub with_own_tags : Text → Option (InspectResult I) → Option (InspectResult I)
  with_own_tags prefix none = none
  with_own_tags prefix (some found) = some (record found { tags = own_tags prefix found.tags })

  abbrev pub inspected :
      Text → Result E (Option (InspectResult I)) → Result E (Option (InspectResult I))
  inspected prefix (ok found) = ok (with_own_tags prefix found)
  inspected prefix (err e) = err e

  -- Without metrics, as is `warm`.
  unfoldable pub inspect : Text → Method (Option (InspectResult I))
  inspect key (self, w) =
      let (r, w') = cache.inspect (qualify self.prefix key) w in
      (inspected self.prefix r, (self, w'))

  unfoldable pub warm : List (BatchEntry F O) → Method (Unit {0})
  warm entries (self, w) =
      let (r, w') = cache.warm (map (qualify_entry self.prefix) entries) w in (r, (self, w'))
