-- ===== src/Redis/Memory.antt =====
-- A Redis client in memory: the elements of its sets, each beside the name of its set. It returns every
-- iteration as one page.
use layercache.Base.{
  Bool, true, not, ◌&&◌, ◌||◌, ite, if◌then◌else◌, Option, none, some, List, [], ◌∷◌, ◌++◌, keep,
  ◌≡◌, ap, arith,
}
use layercache.JsMap.Members.{contains, contains-append, contains-keep}
use layercache.Invalidation.PatternMatcher.{matches}
use layercache.Redis.{Text, Command, sadd, srem, del, Redis, is_member, among, IsLawful}

abbrev pub Pairs : Type 0
Pairs = List (Text × Text)

module _ (dec : Discrete Text) where
  unfoldable pub members_of : Text → Pairs → List Text
  members_of k [] = []
  members_of k ((j, x) ∷ w) = let rest = members_of k w in ite (dec j k) (x ∷ rest) rest

  unfoldable pub set_names : Pairs → List Text
  set_names [] = []
  set_names ((j, x) ∷ w) = j ∷ set_names w

  unfoldable pub with_all : Text → List Text → Pairs → Pairs
  with_all k [] w = w
  with_all k (x ∷ xs) w = (k, x) ∷ with_all k xs w

  -- The pairs of a set in `ks` with an element that passes the test are dropped.
  unfoldable pub without : List Text → (Text → Bool) → Pairs → Pairs
  without ks test [] = []
  without ks test ((j, x) ∷ w) =
      let rest = without ks test w in if contains dec j ks && test x then rest else (j, x) ∷ rest

  abbrev pub memory_call : Command → Pairs → Pairs
  memory_call (sadd k xs) w = with_all k xs w
  memory_call (srem k xs) w = without (k ∷ []) (λ x. contains dec x xs) w
  memory_call (del ks) w = without ks (λ x. true) w

  abbrev pub memory_sscan : Option Text → Text → Pairs → List (List Text)
  memory_sscan none k w = members_of k w ∷ []
  memory_sscan (some pattern) k w = keep (matches pattern) (members_of k w) ∷ []

  abbrev pub memory : Redis Pairs
  memory = record {
    call = memory_call;
    smembers = members_of;
    exists = λ k w. contains dec k (set_names w);
    sscan = λ count. memory_sscan;
    scan = λ count pattern w. keep (matches pattern) (set_names w) ∷ [];
    glob = matches;
  }

  member-with_all :
      (k : Text) (xs : List Text) (w : Pairs) (j x : Text)
      → contains dec x (members_of j (with_all k xs w))
        ≡ ((contains dec j (k ∷ []) && contains dec x xs) || contains dec x (members_of j w))
  unfolding with_all members_of contains
  member-with_all k [] w j x = ground arith
  member-with_all k (y ∷ xs) w j x = ground (arith, member-with_all k xs w j x)

  member-without :
      (ks : List Text) (test : Text → Bool) (w : Pairs) (j x : Text)
      → contains dec x (members_of j (without ks test w))
        ≡ (not (contains dec j ks && test x) && contains dec x (members_of j w))
  unfolding without members_of contains
  member-without ks test [] j x = ground arith
  member-without ks test ((i, y) ∷ w) j x =
      ground (arith, member-without ks test w j x, ap test, ap (λ s. contains dec s ks))

  member-set_names :
      (w : Pairs) (k x : Text)
      → contains dec x (members_of k w) ≡ true
      → contains dec k (set_names w) ≡ true
  unfolding members_of set_names contains
  member-set_names [] k x h = h
  member-set_names ((j, y) ∷ w) k x h = ground (arith, h, member-set_names w k x)

  one_page : (x : Text) (page : List Text) → contains dec x (page ++ []) ≡ contains dec x page
  unfolding contains
  one_page x page = ground (arith, contains-append dec x page [])

  pub memory-IsLawful : IsLawful dec memory
  unfolding is_member among
  memory-IsLawful = record {
    call-sadd = member-with_all;
    call-srem = λ k xs w j x. member-without (k ∷ []) (λ y. contains dec y xs) w j x;
    call-del = λ ks w j x. ground (arith, member-without ks (λ y. true) w j x);
    exists-member = member-set_names;
    sscan-all = λ count k w x. one_page x (members_of k w);
    sscan-match = λ count pattern k w x. ground (
      arith,
      one_page x (keep (matches pattern) (members_of k w)),
      contains-keep dec (matches pattern) x (members_of k w),
    );
    scan-match = λ count pattern w k. ground (
      arith,
      one_page k (keep (matches pattern) (set_names w)),
      contains-keep dec (matches pattern) k (set_names w),
    );
  }
