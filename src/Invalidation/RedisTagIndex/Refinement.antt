-- ===== src/Invalidation/RedisTagIndex/Refinement.antt =====
-- The contract of src/invalidation/RedisTagIndex.ts: after any calls the index answers as their abstract
-- view says.
use layercache.Base.{◌<◌, true, List, ◌∷◌, ◌++◌, ◌≡◌}
use layercache.Redis.{Text, Redis, IsLawful}
use layercache.Invalidation.TagIndex.{Call, clears}
use layercache.Invalidation.RedisTagIndex.{RedisTagIndex, Builtins, index_pattern, clear}
use layercache.Invalidation.RedisTagIndex.View.{empty_view, view_run, redis_run}
use layercache.Invalidation.RedisTagIndex.Steps.{run-Represents, clear-Represents}
use layercache.Invalidation.RedisTagIndex.Answers.{Answers, represented-Answers}

-- In whatever state Redis is when the index is cleared, and whatever is touched, tracked, removed and
-- cleared after that: a key is found by a prefix or a pattern exactly when it is known and matches, by a
-- tag exactly when its last tracking gave it the tag, and its tags are those. The client obeys the laws
-- of Redis, there are shards, two texts are never encoded alike, and SCAN finds the keys of the index.
pub run-Answers :
    (b : Builtins) (self : RedisTagIndex) {W : Type 0} (redis : Redis W) (dec : Discrete Text)
    → IsLawful dec redis
    → ((x y : Text) → b.encode_uri_component x ≡ b.encode_uri_component y → x ≡ y)
    → ((x : Text) → redis.glob (self.prefix ++ index_pattern) (self.prefix ++ b':' ∷ x) ≡ true)
    → 0 < self.known_keys_shards
    → (w : W) (cs : List Call)
    → Answers b self redis dec
        (view_run dec empty_view cs)
        (redis_run b self redis dec w (clears ∷ cs))
unfolding redis_run
run-Answers b self redis dec laws inj finds pos w cs =
    represented-Answers b self redis dec laws (view_run dec empty_view cs) _ pos (
      run-Represents b self redis dec laws inj finds cs empty_view (clear b self redis w)
        (clear-Represents b self redis dec laws inj finds empty_view w))
