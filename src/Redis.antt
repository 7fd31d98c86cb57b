-- ===== src/Redis.antt =====
-- The Redis client of src/invalidation/RedisTagIndex.ts, which is not code of the repository: its set
-- commands over an unknown world, and what its documentation says of them. An iteration by a cursor is
-- the list of the pages that it returns, the last of which comes with the cursor 0; a page may repeat
-- elements. A pipeline runs its commands in order. Every command is answered.
pub mod Memory
use layercache.Base.{ℕ, Bool, true, not, ◌&&◌, ◌||◌, Option, none, some, List, [], ◌∷◌, ◌++◌, ◌≡◌}
use layercache.JsMap.Members.{contains}

abbrev pub Text : Type 0
Text = List ℕ

pub data Command : Type 0 where
  sadd srem : Text → List Text → Command
  del : List Text → Command

pub record Redis (W : Type 0) : Type 0 where
  pub call : Command → W → W
  pub smembers : Text → W → List Text
  pub exists : Text → W → Bool
  -- COUNT, MATCH and the set
  pub sscan : ℕ → Option Text → Text → W → List (List Text)
  -- COUNT and MATCH
  pub scan : ℕ → Text → W → List (List Text)
  -- the wildcards of MATCH
  pub glob : Text → Text → Bool

-- `pipeline.exec()`
unfoldable pub exec : {W : Type 0} → Redis W → List Command → W → W
exec redis [] w = w
exec redis (c ∷ cs) w = exec redis cs (redis.call c w)

abbrev pub elements : List (List Text) → List Text
elements [] = []
elements (page ∷ pages) = page ++ elements pages

module _ {W : Type 0} (dec : Discrete Text) (redis : Redis W) where
  -- The set `k` has the element `x`.
  unfoldable pub is_member : W → Text → Text → Bool
  is_member w k x = contains dec x (redis.smembers k w)

  -- `k` is among `ks`, and `x` among `xs`.
  unfoldable pub among : Text → List Text → Text → List Text → Bool
  among k ks x xs = contains dec k ks && contains dec x xs

  pub record IsLawful : Type 0 where
    pub call-sadd :
        (k : Text) (xs : List Text) (w : W) (j x : Text)
        → is_member (redis.call (sadd k xs) w) j x ≡ (among j (k ∷ []) x xs || is_member w j x)
    pub call-srem :
        (k : Text) (xs : List Text) (w : W) (j x : Text)
        → is_member (redis.call (srem k xs) w) j x
          ≡ (not (among j (k ∷ []) x xs) && is_member w j x)
    pub call-del :
        (ks : List Text) (w : W) (j x : Text)
        → is_member (redis.call (del ks) w) j x ≡ (not (contains dec j ks) && is_member w j x)
    pub exists-member : (w : W) (k x : Text) → is_member w k x ≡ true → redis.exists k w ≡ true
    pub sscan-all :
        (count : ℕ) (k : Text) (w : W) (x : Text)
        → contains dec x (elements (redis.sscan count none k w)) ≡ is_member w k x
    pub sscan-match :
        (count : ℕ) (pattern k : Text) (w : W) (x : Text)
        → contains dec x (elements (redis.sscan count (some pattern) k w))
          ≡ (is_member w k x && redis.glob pattern x)
    pub scan-match :
        (count : ℕ) (pattern : Text) (w : W) (k : Text)
        → contains dec k (elements (redis.scan count pattern w))
          ≡ (redis.exists k w && redis.glob pattern k)
