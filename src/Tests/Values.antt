-- ===== src/Tests/Values.antt =====
-- Inputs for what is proved of src/internal/StoredValue.ts and src/invalidation/PatternMatcher.ts.
use layercache.Base.{pos, true, none, some, [], ◌∷◌, ◌≡◌, refl, arith, inl}
use layercache.JsValue.{Value, Fields, num, object, finite}
use layercache.StoredValue.{
  EnvelopeOptions, Kind, create_stored_value_envelope, normalize_positive_ms,
}
use layercache.StoredValue.Reads.{State, resolve_stored_value, unwrap_stored_value}
use layercache.StoredValue.Guard.{Lifetimes, unwrap-create_without_fresh}
use layercache.StoredValue.Lifecycle.{resolve-create}
use layercache.Invalidation.PatternMatcher.{matches}
use layercache.Invalidation.PatternMatcher.Glob.{glob}
use layercache.Invalidation.PatternMatcher.Loop.{matches-glob}

abbrev seven : Value
seven = num (finite (pos 7))

-- fresh for a second, then stale for half a second
abbrev pub options : EnvelopeOptions
options = record {
  kind = Kind.value;
  value = seven;
  fresh_ttl_ms = some (pos 1_000);
  stale_while_revalidate_ms = some (pos 500);
  stale_if_error_ms = none;
}

abbrev only_stale : EnvelopeOptions
only_stale = record options { fresh_ttl_ms = none }

pub options-Lifetimes : Lifetimes options 999 (some 499) none
unfolding normalize_positive_ms
options-Lifetimes = record {
  fresh_lem = refl;
  stale_lem = refl;
  error_lem = refl;
  fresh_max = omega arith;
  stale_max = omega arith;
  error_max = tt;
}

matches-glob_example : matches (b'a' ∷ b'*' ∷ b'?' ∷ []) (b'a' ∷ b'b' ∷ b'c' ∷ []) ≡ true
unfolding glob
matches-glob_example = matches-glob (b'a' ∷ b'*' ∷ b'?' ∷ []) (b'a' ∷ b'b' ∷ b'c' ∷ [])

resolve-create_example :
    let r =
      resolve_stored_value
        (pos 2_300)
        (object (create_stored_value_envelope options (pos 1_000)))
        (pos 2_300) in
    (r.state ≡ State.stale_while_revalidate) × (r.value ≡ seven)
resolve-create_example =
    resolve-create options 2_300 1_000 999 2_300 (some 499) none options-Lifetimes (omega arith)

unwrap-create_without_fresh_example :
    unwrap_stored_value (pos 5) (object (create_stored_value_envelope only_stale (pos 5)))
    ≡ object (create_stored_value_envelope only_stale (pos 5))
unfolding normalize_positive_ms
unwrap-create_without_fresh_example =
    unwrap-create_without_fresh only_stale (pos 5) (pos 5) 500 refl (inl refl)

abbrev written : Fields
written = create_stored_value_envelope options (pos 1_000)
