-- ===== src/Internal/TtlResolver.antt =====
-- `TtlResolver` of src/internal/TtlResolver.ts. Lifetimes are whole, non-negative milliseconds, as the
-- validation of options leaves them, and arithmetic is exact. `now` is what `Date.now()` reads, and
-- `random` the four random bytes as a number. The local calendar (`setHours`, `setMinutes`) and a
-- policy that is a function are parameters.
pub mod Bounds
use layercache.Base.{
  ℕ, zero, suc, ◌+◌, ◌-◌, ◌*◌, ◌/◌, min, max, Bool, true, false, ltb, leb, ◌==◌, ◌||◌, or_else,
  Option, none, some, if◌then◌else◌, [],
}
use layercache.JsMap.{JsMap}
use layercache.JsMap
use layercache.JsValue.{Value}
use Prim.Native.String.{String}

pub record AccessProfile : Type 0 where
  pub hits : ℕ
  pub last_access_at : ℕ

pub record TtlResolver (K : Type 0) : Type 0 where
  pub access_profiles : JsMap K AccessProfile
  pub max_profile_entries : ℕ

pub data WriteKind : Type 0 where
  value empty : WriteKind

-- `number | LayerTtlMap`; a map reads undefined under a name that it has not
pub data LayerMs : Type 0 where
  all_layers : ℕ → LayerMs
  by_layer : (String → Option ℕ) → LayerMs

pub data TtlPolicy (K : Type 0) : Type 0 where
  function : (K → Value → Option ℕ) → TtlPolicy K
  until_midnight next_hour : TtlPolicy K
  align_to : ℕ → TtlPolicy K

pub record AdaptiveConfig : Type 0 where
  pub hot_after : Option ℕ
  pub step : Option LayerMs
  pub max_ttl : Option LayerMs

-- `boolean | CacheAdaptiveTtlOptions | undefined`
pub data AdaptiveTtl : Type 0 where
  off on : AdaptiveTtl
  adaptive : AdaptiveConfig → AdaptiveTtl

pub record WriteOptions (K : Type 0) : Type 0 where
  pub ttl : Option LayerMs
  pub negative_ttl : Option LayerMs
  pub ttl_jitter : Option LayerMs
  pub ttl_policy : Option (TtlPolicy K)
  pub adaptive_ttl : AdaptiveTtl

unfoldable pub read_layer_number : String → LayerMs → Option ℕ
read_layer_number layer (all_layers n) = some n
read_layer_number layer (by_layer m) = m layer

-- `a ?? b`
abbrev pub or_option : Option ℕ → Option ℕ → Option ℕ
or_option none b = b
or_option (some a) b = some a

unfoldable pub resolve_layer_ms : String → Option LayerMs → Option LayerMs → Option ℕ → Option ℕ
resolve_layer_ms layer (some override) default fallback =
    or_option (read_layer_number layer override) fallback
resolve_layer_ms layer none (some default) fallback =
    or_option (read_layer_number layer default) fallback
resolve_layer_ms layer none none fallback = fallback

-- `Math.round(ttl + (random / 2 ** 32 * 2 - 1) * jitter)`, at least 1
abbrev pub jittered : ℕ → ℕ → ℕ → ℕ
jittered random ttl jitter = max 1 (
    (4_294_967_296 * ttl + 2 * (random * jitter) + 2_147_483_648 - 4_294_967_296 * jitter)
    / 4_294_967_296)

unfoldable pub apply_jitter : ℕ → Option ℕ → Option ℕ → Option ℕ
apply_jitter random none jitter = none
apply_jitter random (some ttl) none = some ttl
apply_jitter random (some ttl) (some jitter) =
    if ttl == 0 || jitter == 0 then some ttl else some (jittered random ttl jitter)

-- The next multiple of `alignTo` behind the present; `alignTo` is positive by validation.
abbrev pub aligned : ℕ → ℕ → ℕ
aligned now align = max 1 ((now + 1 + (align - 1)) / align * align - now)

module _ {K : Type 0} (next_midnight next_hour_start : ℕ → ℕ) where
  unfoldable pub resolve_policy_ttl : ℕ → K → Value → Option (TtlPolicy K) → Option ℕ
  resolve_policy_ttl now key v none = none
  resolve_policy_ttl now key v (some (function f)) = f key v
  resolve_policy_ttl now key v (some until_midnight) = some (max 1 (next_midnight now - now))
  resolve_policy_ttl now key v (some next_hour) = some (max 1 (next_hour_start now - now))
  resolve_policy_ttl now key v (some (align_to n)) = some (aligned now n)

-- The lifetime of a key with that many hits; `hotAfter` is positive by validation.
unfoldable pub adapt : String → ℕ → ℕ → AdaptiveConfig → ℕ
adapt layer hits ttl config =
    let hot_after = or_else config.hot_after 3 in
    if ltb hits hot_after
    then ttl
    else let step =
        or_else (resolve_layer_ms layer config.step none (some (max 1 ((ttl + 1) / 2)))) 0 in
      let max_ttl =
        or_else (resolve_layer_ms layer config.max_ttl none (some (ttl + step * 4))) ttl in
      min max_ttl (ttl + step * (hits / hot_after))

abbrev pub config_of : AdaptiveTtl → Option AdaptiveConfig
config_of off = none
config_of on = some (record { hot_after = none; step = none; max_ttl = none })
config_of (adaptive config) = some config

module _ {K : Type 0} (dec : Discrete K) where
  unfoldable pub apply_adaptive_ttl : K → String → Option ℕ → AdaptiveTtl → TtlResolver K → Option ℕ
  apply_adaptive_ttl key layer none adaptive_ttl r = none
  apply_adaptive_ttl key layer (some ttl) adaptive_ttl r = elim (config_of adaptive_ttl) [
    | none ↦ some ttl
    | some config ↦ elim (JsMap.get dec key r.access_profiles) [
      | none ↦ some ttl
      | some profile ↦ if ttl == 0 then some ttl else some (adapt layer profile.hits ttl config)
    ]
  ]

  unfoldable pub prune_if_needed : TtlResolver K → TtlResolver K
  prune_if_needed r =
      if leb (JsMap.size r.access_profiles) r.max_profile_entries then r else record r {
        access_profiles =
            JsMap.delete_oldest dec ((r.max_profile_entries + 9) / 10) r.access_profiles;
      }

  unfoldable pub record_access : ℕ → K → TtlResolver K → TtlResolver K
  record_access now key r =
      let hits : ℕ = elim (JsMap.get dec key r.access_profiles) [ none ↦ 0 | some p ↦ p.hits ] in
      prune_if_needed (record r {
        access_profiles =
            JsMap.set dec key (record { hits = hits + 1; last_access_at = now })
              (JsMap.delete dec key r.access_profiles);
      })

  unfoldable pub delete_profile : K → TtlResolver K → TtlResolver K
  delete_profile key r = record r { access_profiles = JsMap.delete dec key r.access_profiles }

  unfoldable pub clear_profiles : TtlResolver K → TtlResolver K
  clear_profiles r = record r { access_profiles = [] }

-- `resolveFreshTtl`, of given options (absent ones are options with nothing set)
module _ {K : Type 0} (dec : Discrete K) (next_midnight next_hour_start : ℕ → ℕ) where
  unfoldable pub resolve_fresh_ttl :
      ℕ
      → ℕ
      → K
      → String
      → WriteKind
      → WriteOptions K
      → Option ℕ
      → Option LayerMs
      → Option LayerMs
      → Value
      → TtlResolver K
      → Option ℕ
  resolve_fresh_ttl now random key layer kind o fallback global_negative_ttl global_ttl v r =
      let policy_ttl : Option ℕ = elim kind [
        | value ↦ resolve_policy_ttl next_midnight next_hour_start now key v o.ttl_policy
        | empty ↦ none
      ] in
      let value_ttl = resolve_layer_ms layer o.ttl global_ttl (or_option policy_ttl fallback) in
      let base_ttl : Option ℕ = elim kind [
        | value ↦ value_ttl
        | empty ↦
            resolve_layer_ms layer o.negative_ttl global_negative_ttl
              (some (or_else value_ttl 60_000))
      ] in
      apply_jitter random (apply_adaptive_ttl dec key layer base_ttl o.adaptive_ttl r)
        (resolve_layer_ms layer o.ttl_jitter none none)
