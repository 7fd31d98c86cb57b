-- ===== src/Internal/Validation/Accepts.antt =====
-- What the checks of src/internal/CacheStackValidation.ts let through.
use layercache.Base.{
  ℕ, ◌≤◌, ◌<◌, ◌≤ℤ◌, pos, Bool, true, false, ◌||◌, ltb, ◌==◌, Option, none, some, List, [], ◌∷◌,
  length, ◌≡◌, refl, arith, All,
}
use layercache.JsValue.{Num, finite}
use Prim.Native.String.{String}
use layercache.Internal.Validation.{
  Invalid, Check, reject, ◌then_check◌, LayerNumber, all_layers, by_layer, validate_layers,
  validate_layer_number_option, validate_non_negative_number, is_control, is_surrogate, any,
  validate_cache_key, validate_tag, validate_each_tag, validate_tags,
  validate_context_entry_options, EntryWriteOptions,
}

-- A whole number that is not negative.
abbrev pub IsNonNegative : Num → Type 0
IsNonNegative (finite z) = pos 0 ≤ℤ z
IsNonNegative n = ⊥

abbrev pub AllNonNegative : List (String × Option Num) → Type 0
AllNonNegative [] = Unit
AllNonNegative ((name, none) ∷ ls) = AllNonNegative ls
AllNonNegative ((name, some n) ∷ ls) = IsNonNegative n × AllNonNegative ls

abbrev pub LayersNonNegative : Option LayerNumber → Type 0
LayersNonNegative none = Unit
LayersNonNegative (some (all_layers n)) = IsNonNegative n
LayersNonNegative (some (by_layer ls)) = AllNonNegative ls

then_check-none : (a b : Check) → (a then_check b) ≡ none → (a ≡ none) × (b ≡ none)
then_check-none none b h = (refl, h)
then_check-none (some e) b h = absurd (ground arith)

or-false : (a b : Bool) → (a || b) ≡ false → (a ≡ false) × (b ≡ false)
or-false true b h = absurd (ground arith)
or-false false b h = (refl, h)

reject-none : (b : Bool) (e : Invalid) → reject b e ≡ none → b ≡ false
reject-none true e h = absurd (ground arith)
reject-none false e h = refl

not_empty : (n : ℕ) → (n == 0) ≡ false → 0 < n
not_empty n h = ground arith

not_longer : (m n : ℕ) → ltb m n ≡ false → n ≤ m
not_longer m n h = ground arith

-- The characters of a key: no control character and no half of a surrogate pair.
abbrev pub IsCodeUnit : ℕ → Type 0
IsCodeUnit c = (is_control c ≡ false) × (is_surrogate c ≡ false)

any-false :
    (p q : ℕ → Bool) (cs : List ℕ)
    → any p cs ≡ false
    → any q cs ≡ false
    → All (λ c. (p c ≡ false) × (q c ≡ false)) cs
unfolding any
any-false p q [] h g = tt
any-false p q (c ∷ cs) h g =
    let h' = or-false _ _ h in let g' = or-false _ _ g in ((h'.0, g'.0), any-false p q cs h'.1 g'.1)

-- The names that `validateCacheKey` and `validateTag` promise.
abbrev pub IsName : List ℕ → Type 0
IsName key = (0 < length key) × (length key ≤ 1_024) × All IsCodeUnit key

-- A key that `validateCacheKey` lets through is not empty, has at most 1024 code units, and has neither
-- control characters nor surrogates.
pub validate_cache_key-accepts : (key : List ℕ) → validate_cache_key key ≡ none → IsName key
unfolding validate_cache_key
validate_cache_key-accepts key h =
    let a = then_check-none _ _ h in
    let b = then_check-none _ _ a.1 in
    let c = then_check-none _ _ b.1 in
    (
      not_empty _ (reject-none _ _ a.0),
      not_longer _ _ (reject-none _ _ b.0),
      any-false is_control is_surrogate key (reject-none _ _ c.0) (reject-none _ _ c.1),
    )

validate_number-accepts : (n : Num) → validate_non_negative_number n ≡ none → IsNonNegative n
unfolding validate_non_negative_number
validate_number-accepts (finite z) h = ground arith
validate_number-accepts n h = absurd (ground arith)

validate_layers-accepts :
    (ls : List (String × Option Num)) → validate_layers ls ≡ none → AllNonNegative ls
unfolding validate_layers
validate_layers-accepts [] h = tt
validate_layers-accepts ((name, none) ∷ ls) h = validate_layers-accepts ls h
validate_layers-accepts ((name, some n) ∷ ls) h = (
  validate_number-accepts n (then_check-none _ _ h).0,
  validate_layers-accepts ls (then_check-none _ _ h).1,
)

validate_layer-accepts :
    (o : Option LayerNumber) → validate_layer_number_option o ≡ none → LayersNonNegative o
unfolding validate_layer_number_option
validate_layer-accepts none h = tt
validate_layer-accepts (some (all_layers n)) h = validate_number-accepts n h
validate_layer-accepts (some (by_layer ls)) h = validate_layers-accepts ls h

validate_tag-accepts : (tag : List ℕ) → validate_tag tag ≡ none → IsName tag
unfolding validate_tag
validate_tag-accepts tag h =
    let a = then_check-none _ _ h in
    let b = then_check-none _ _ a.1 in
    let c = then_check-none _ _ b.1 in
    (
      not_empty _ (reject-none _ _ a.0),
      not_longer _ _ (reject-none _ _ b.0),
      any-false is_control is_surrogate tag (reject-none _ _ c.0) (reject-none _ _ c.1),
    )

validate_each_tag-accepts : (tags : List (List ℕ)) → validate_each_tag tags ≡ none → All IsName tags
unfolding validate_each_tag
validate_each_tag-accepts [] h = tt
validate_each_tag-accepts (tag ∷ tags) h =
    let a = then_check-none _ _ h in
    (validate_tag-accepts tag a.0, validate_each_tag-accepts tags a.1)

abbrev pub TagsFit : Option (List (List ℕ)) → Type 0
TagsFit none = Unit
TagsFit (some tags) = (length tags ≤ 128) × All IsName tags

validate_tags-accepts : (o : Option (List (List ℕ))) → validate_tags o ≡ none → TagsFit o
unfolding validate_tags
validate_tags-accepts none h = tt
validate_tags-accepts (some tags) h =
    let a = then_check-none _ _ h in
    (not_longer _ _ (reject-none _ _ a.0), validate_each_tag-accepts tags a.1)

-- Write options that pass have no negative and no infinite lifetime or jitter, for any layer, and at
-- most 128 tags, each of which could be a key.
pub validate_context_entry_options-accepts :
    (o : EntryWriteOptions)
    → validate_context_entry_options (some o) ≡ none
    → LayersNonNegative o.ttl
      × LayersNonNegative o.negative_ttl
      × LayersNonNegative o.stale_while_revalidate
      × LayersNonNegative o.stale_if_error
      × LayersNonNegative o.ttl_jitter
      × TagsFit o.tags
unfolding validate_context_entry_options
validate_context_entry_options-accepts o h =
    let a = then_check-none _ _ h in
    let b = then_check-none _ _ a.1 in
    let c = then_check-none _ _ b.1 in
    let d = then_check-none _ _ c.1 in
    let e = then_check-none _ _ d.1 in
    let f = then_check-none _ _ e.1 in
    let g = then_check-none _ _ f.1 in
    (
      validate_layer-accepts _ a.0,
      validate_layer-accepts _ b.0,
      validate_layer-accepts _ c.0,
      validate_layer-accepts _ d.0,
      validate_layer-accepts _ e.0,
      validate_tags-accepts _ g.1,
    )
