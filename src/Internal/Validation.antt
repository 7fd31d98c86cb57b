-- ===== src/Internal/Validation.antt =====
-- src/internal/CacheStackValidation.ts: the checks of options, keys, tags and patterns. A check returns
-- the error that it throws, if any. Texts are lists of UTF-16 code units.
pub mod Accepts
use layercache.Base.{
  ℕ, ℤ, pos, ltb_ℤ, leb_ℤ, Bool, true, false, ◌&&◌, ◌||◌, not, ltb, leb, ◌==◌, Option, none, some,
  if◌then◌else◌, List, [], ◌∷◌, length,
}
use layercache.JsValue.{Num, finite, nan, infinity, neg_infinity}
use Prim.Native.String.{String}
use text.Mathlib.Text.{◌==◌ as str_eq}

pub data Invalid : Type 0 where
  not_positive not_non_negative unknown_scope unknown_overflow empty_name empty_text too_long
        control_characters surrogates too_many_tags unknown_policy :
      Invalid

-- The error thrown, if any; a sequence of checks stops at the first one.
abbrev pub Check : Type 0
Check = Option Invalid

infixr 5 ◌then_check◌
abbrev pub ◌then_check◌ : Check → Check → Check
none then_check c = c
(some e) then_check c = some e

abbrev pub reject : Bool → Invalid → Check
reject true e = some e
reject false e = none

abbrev pub max_cache_key_length : ℕ
max_cache_key_length = 1_024

abbrev pub max_pattern_length : ℕ
max_pattern_length = 1_024

abbrev pub max_tags_per_operation : ℕ
max_tags_per_operation = 128

-- `!Number.isFinite(value) || value <= 0`, and `< 0`
abbrev pub is_bad_positive : Num → Bool
is_bad_positive (finite z) = leb_ℤ z (pos 0)
is_bad_positive n = true

abbrev pub is_bad_non_negative : Num → Bool
is_bad_non_negative (finite z) = ltb_ℤ z (pos 0)
is_bad_non_negative n = true

unfoldable pub validate_positive_number : Option Num → Check
validate_positive_number none = none
validate_positive_number (some n) = reject (is_bad_positive n) not_positive

unfoldable pub validate_non_negative_number : Num → Check
validate_non_negative_number n = reject (is_bad_non_negative n) not_non_negative

-- `number | LayerTtlMap`
pub data LayerNumber : Type 0 where
  all_layers : Num → LayerNumber
  by_layer : List (String × Option Num) → LayerNumber

unfoldable pub validate_layers : List (String × Option Num) → Check
validate_layers [] = none
validate_layers ((name, none) ∷ rest) = validate_layers rest
validate_layers ((name, some n) ∷ rest) =
    validate_non_negative_number n then_check validate_layers rest

unfoldable pub validate_layer_number_option : Option LayerNumber → Check
validate_layer_number_option none = none
validate_layer_number_option (some (all_layers n)) = validate_non_negative_number n
validate_layer_number_option (some (by_layer ls)) = validate_layers ls

-- `/[\u0000-\u001F\u007F]/` and `/[\uD800-\uDFFF]/`
abbrev pub is_control : ℕ → Bool
is_control c = leb c 0x1f || c == 0x7f

abbrev pub is_surrogate : ℕ → Bool
is_surrogate c = leb 0xd800 c && leb c 0xdfff

unfoldable pub any : (ℕ → Bool) → List ℕ → Bool
any p [] = false
any p (c ∷ cs) = p c || any p cs

-- `validateTag` makes the same checks.
unfoldable pub validate_cache_key : List ℕ → Check
validate_cache_key key =
    reject (length key == 0) empty_text
    then_check reject (ltb max_cache_key_length (length key)) too_long
    then_check reject (any is_control key) control_characters
    then_check reject (any is_surrogate key) surrogates

unfoldable pub validate_tag : List ℕ → Check
validate_tag tag =
    reject (length tag == 0) empty_text
    then_check reject (ltb max_cache_key_length (length tag)) too_long
    then_check reject (any is_control tag) control_characters
    then_check reject (any is_surrogate tag) surrogates

unfoldable pub validate_each_tag : List (List ℕ) → Check
validate_each_tag [] = none
validate_each_tag (tag ∷ tags) = validate_tag tag then_check validate_each_tag tags

unfoldable pub validate_tags : Option (List (List ℕ)) → Check
validate_tags none = none
validate_tags (some tags) =
    reject (ltb max_tags_per_operation (length tags)) too_many_tags
    then_check validate_each_tag tags

unfoldable pub validate_pattern : List ℕ → Check
validate_pattern pattern =
    reject (length pattern == 0) empty_text
    then_check reject (ltb max_pattern_length (length pattern)) too_long
    then_check reject (any is_control pattern) control_characters

pub data TtlPolicy : Type 0 where
  function until_midnight next_hour unknown : TtlPolicy
  align_to : Num → TtlPolicy

unfoldable pub validate_ttl_policy : Option TtlPolicy → Check
validate_ttl_policy none = none
validate_ttl_policy (some function) = none
validate_ttl_policy (some until_midnight) = none
validate_ttl_policy (some next_hour) = none
validate_ttl_policy (some (align_to n)) = validate_positive_number (some n)
validate_ttl_policy (some unknown) = some unknown_policy

pub record AdaptiveTtlOptions : Type 0 where
  pub hot_after : Option Num
  pub step : Option LayerNumber
  pub max_ttl : Option LayerNumber

-- `boolean | CacheAdaptiveTtlOptions | undefined`
pub data AdaptiveTtl : Type 0 where
  absent off on : AdaptiveTtl
  adaptive : AdaptiveTtlOptions → AdaptiveTtl

unfoldable pub validate_adaptive_ttl_options : AdaptiveTtl → Check
validate_adaptive_ttl_options (adaptive o) =
    validate_positive_number o.hot_after
    then_check validate_layer_number_option o.step
    then_check validate_layer_number_option o.max_ttl
validate_adaptive_ttl_options a = none

pub record RateLimitOptions : Type 0 where
  pub max_concurrent : Option Num
  pub interval_ms : Option Num
  pub max_per_interval : Option Num
  pub scope : Option String
  pub queue_overflow : Option String
  pub bucket_key : Option (List ℕ)

-- `list.includes(value)` of a value that is given
abbrev pub is_listed : (String → String → Bool) → Option String → List String → Bool
is_listed eq none l = true
is_listed eq (some s) [] = false
is_listed eq (some s) (t ∷ l) = eq s t || is_listed eq (some s) l

abbrev pub is_given_empty : Option (List ℕ) → Bool
is_given_empty none = false
is_given_empty (some s) = length s == 0

unfoldable pub validate_rate_limit_options : Option RateLimitOptions → Check
validate_rate_limit_options none = none
validate_rate_limit_options (some o) =
    validate_positive_number o.max_concurrent
    then_check validate_positive_number o.interval_ms
    then_check validate_positive_number o.max_per_interval
    then_check reject (not (is_listed str_eq o.scope ("global" ∷ "key" ∷ "fetcher" ∷ [])))
        unknown_scope
    then_check reject (not (is_listed str_eq o.queue_overflow ("reject" ∷ "bypass" ∷ [])))
        unknown_overflow
    then_check reject (is_given_empty o.bucket_key) empty_name

pub record BreakerOptions : Type 0 where
  pub failure_threshold : Option Num
  pub cooldown_ms : Option Num
  pub scope : Option String
  pub breaker_key : Option (List ℕ)

unfoldable pub validate_circuit_breaker_options : Option BreakerOptions → Check
validate_circuit_breaker_options none = none
validate_circuit_breaker_options (some o) =
    validate_positive_number o.failure_threshold
    then_check validate_positive_number o.cooldown_ms
    then_check reject (not (is_listed str_eq o.scope ("key" ∷ "shared" ∷ []))) unknown_scope
    then_check reject (is_given_empty o.breaker_key) empty_name

pub record EntryWriteOptions : Type 0 where
  pub ttl : Option LayerNumber
  pub negative_ttl : Option LayerNumber
  pub stale_while_revalidate : Option LayerNumber
  pub stale_if_error : Option LayerNumber
  pub ttl_jitter : Option LayerNumber
  pub ttl_policy : Option TtlPolicy
  pub adaptive_ttl : AdaptiveTtl
  pub tags : Option (List (List ℕ))

unfoldable pub validate_context_entry_options : Option EntryWriteOptions → Check
validate_context_entry_options none = none
validate_context_entry_options (some o) =
    validate_layer_number_option o.ttl
    then_check validate_layer_number_option o.negative_ttl
    then_check validate_layer_number_option o.stale_while_revalidate
    then_check validate_layer_number_option o.stale_if_error
    then_check validate_layer_number_option o.ttl_jitter
    then_check validate_ttl_policy o.ttl_policy
    then_check validate_adaptive_ttl_options o.adaptive_ttl
    then_check validate_tags o.tags
