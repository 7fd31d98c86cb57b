-- ===== src/CacheNamespace/Isolation.antt =====
-- What a namespace of src/CacheNamespace.ts reaches: its own keys and tags.
use layercache.Base.{
  ℕ, suc, ◌+◌, true, false, ◌==◌, ◌||◌, ◌&&◌, starts_with, List, [], ◌∷◌, map, length, drop, All,
  ◌≡◌, refl, ap, ◌∙◌, sym, arith,
}
use layercache.Invalidation.PatternMatcher.{matches, star, any_one}
use layercache.Invalidation.PatternMatcher.Glob.{glob}
use layercache.Invalidation.PatternMatcher.Loop.{matches-glob}
use layercache.CacheNamespace.{Text, qualify, namespace_key_prefix, own_tags}

-- No wildcard in a text.
abbrev pub NoWildcard : Text → Type 0
NoWildcard = All (λ c. ((c == star) || (c == any_one)) ≡ false)

drop_next : (n c : ℕ) (key : Text) → drop (suc n + 1) (c ∷ key) ≡ drop (n + 1) key
drop_next n c key =
    let shift : suc n + 1 ≡ suc (n + 1) = omega arith in ap (λ k. drop k (c ∷ key)) shift

drop-qualify : (prefix tag : Text) → drop (length prefix + 1) (qualify prefix tag) ≡ tag
unfolding qualify
drop-qualify [] tag = refl
drop-qualify (c ∷ prefix) tag =
    drop_next (length prefix) c (qualify prefix tag) ∙ drop-qualify prefix tag

starts_with-qualify :
    (prefix tag : Text) → starts_with (namespace_key_prefix prefix) (qualify prefix tag) ≡ true
unfolding starts_with namespace_key_prefix qualify
starts_with-qualify [] tag = ground arith
starts_with-qualify (c ∷ prefix) tag = ground (arith, starts_with-qualify prefix tag)

-- The tags that a namespace gives to a key are, in their order, those that it shows of the key.
own_tags-qualify :
    (prefix : Text) (tags : List Text) → own_tags prefix (map (qualify prefix) tags) ≡ tags
unfolding own_tags
own_tags-qualify prefix [] = refl
own_tags-qualify prefix (tag ∷ tags) =
    rw (starts_with-qualify prefix tag, drop-qualify prefix tag)
      (ap (◌∷◌ tag) (own_tags-qualify prefix tags))

glob-qualify :
    (prefix pattern key : Text)
    → NoWildcard prefix
    → glob (qualify prefix pattern) key ≡ (
        starts_with (namespace_key_prefix prefix) key
        && glob pattern (drop (length prefix + 1) key))
unfolding glob starts_with qualify namespace_key_prefix
glob-qualify [] pattern [] w = ground arith
glob-qualify [] pattern (d ∷ key) w = ground arith
glob-qualify (c ∷ prefix) pattern [] w = ground (arith, w.0)
glob-qualify (c ∷ prefix) pattern (d ∷ key) w =
    rw (drop_next (length prefix) d key) (ground (arith, w.0, glob-qualify prefix pattern key w.1))

-- In a namespace whose prefix has no wildcard, a pattern matches exactly the keys that begin with the prefix
-- and a colon, those of nested namespaces among them, and whose rest it matches.
pub matches-qualify :
    (prefix pattern key : Text)
    → NoWildcard prefix
    → matches (qualify prefix pattern) key ≡ (
        starts_with (namespace_key_prefix prefix) key
        && matches pattern (drop (length prefix + 1) key))
matches-qualify prefix pattern key w =
    matches-glob (qualify prefix pattern) key
    ∙ (glob-qualify prefix pattern key w
        ∙ ap (λ t. starts_with (namespace_key_prefix prefix) key && t)
            (sym (matches-glob pattern (drop (length prefix + 1) key))))
