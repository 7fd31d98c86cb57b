-- ===== src/Tests/Namespaces.antt =====
-- Inputs for namespaces.
use layercache.Base.{◌+◌, ◌&&◌, starts_with, [], ◌∷◌, length, drop, ◌≡◌, refl}
use layercache.Invalidation.PatternMatcher.{matches}
use layercache.CacheNamespace.{Text, qualify, namespace_key_prefix}
use layercache.CacheNamespace.Isolation.{matches-qualify}

-- `ab`, `x*` and `ab:xy`
abbrev prefix_ab : Text
prefix_ab = b'a' ∷ b'b' ∷ []

abbrev pattern_x : Text
pattern_x = b'x' ∷ b'*' ∷ []

abbrev key_xy : Text
key_xy = b'a' ∷ b'b' ∷ b':' ∷ b'x' ∷ b'y' ∷ []

matches-qualify_example : matches (qualify prefix_ab pattern_x) key_xy ≡ (
    starts_with (namespace_key_prefix prefix_ab) key_xy
    && matches pattern_x (drop (length prefix_ab + 1) key_xy))
matches-qualify_example = matches-qualify prefix_ab pattern_x key_xy (refl, (refl, tt))
