-- ===== src/Invalidation/TagIndex/Tree/Words.antt =====
-- Which keys the trie of src/invalidation/TagIndex.ts holds, before and after a change.
use layercache.Base.{
  ℕ, Bool, true, false, arith, Option, none, some, Option-cases, List, [], ◌∷◌, ◌≡◌, ◌≢◌, refl, inl,
  inr, ℕ_discrete, ◌∙◌,
}
use layercache.Invalidation.TagIndex.Tree.{
  Trie, Children, node, leaf, child, fresh_node, get_child, delete_child, update_child, insert,
  put_back, remove_path,
}

-- A marked node stands at the end of the path of the key.
unfoldable pub has_word : List ℕ → Trie → Bool
has_word [] (node b cs) = b
has_word (c ∷ key) (node b cs) = elim (get_child c cs) [ none ↦ false | some t ↦ has_word key t ]

pub has_word-fresh : (key : List ℕ) → has_word key fresh_node ≡ false
unfolding has_word get_child
has_word-fresh [] = refl
has_word-fresh (c ∷ key) = refl

-- The child of a character, or a fresh one.
abbrev child_or_fresh : ℕ → Children → Trie
child_or_fresh c cs = elim (get_child c cs) [ none ↦ fresh_node | some t ↦ t ]

get-update_child :
    (f : Trie → Trie) (c : ℕ) (cs : Children)
    → get_child c (update_child f c cs) ≡ some (f (child_or_fresh c cs))
unfolding get_child update_child
get-update_child f c leaf = ground arith
get-update_child f c (child d t cs) = ground (arith, get-update_child f c cs)

get-update_other :
    (f : Trie → Trie) (c d : ℕ) (cs : Children)
    → c ≢ d
    → get_child c (update_child f d cs) ≡ get_child c cs
unfolding get_child update_child
get-update_other f c d leaf h = ground arith
get-update_other f c d (child e t cs) h = ground (arith, get-update_other f c d cs h)

get-delete_child : (c : ℕ) (cs : Children) → get_child c (delete_child c cs) ≡ none
unfolding get_child delete_child
get-delete_child c leaf = refl
get-delete_child c (child d t cs) = ground (arith, get-delete_child c cs)

get-delete_other :
    (c d : ℕ) (cs : Children) → c ≢ d → get_child c (delete_child d cs) ≡ get_child c cs
unfolding get_child delete_child
get-delete_other c d leaf h = refl
get-delete_other c d (child e t cs) h = ground (arith, get-delete_other c d cs h)

abbrev pub word_below : List ℕ → Option Trie → Bool
word_below key none = false
word_below key (some t) = has_word key t

cons_eq : {c d : ℕ} {key other : List ℕ} → d ≡ c → other ≡ key → d ∷ other ≡ c ∷ key
cons_eq e q = cc (e, q)

has_word-cons :
    (c : ℕ) (key : List ℕ) (b : Bool) (cs : Children)
    → has_word (c ∷ key) (node b cs) ≡ word_below key (get_child c cs)
unfolding has_word
has_word-cons c key b cs = elim (Option-cases (get_child c cs)) [
  | inl e ↦ rw (e, has_word) refl
  | inr (t, e) ↦ rw (e, has_word) refl
]

has_word-fresh_or :
    (c : ℕ) (key : List ℕ) (cs : Children)
    → has_word key (child_or_fresh c cs) ≡ word_below key (get_child c cs)
has_word-fresh_or c key cs = elim (Option-cases (get_child c cs)) [
  | inl e ↦ rw (e, child_or_fresh) (has_word-fresh key)
  | inr (t, e) ↦ rw (e, child_or_fresh) refl
]

-- Inserting a key adds it, and nothing else.
pub has_word-insert_same : (key : List ℕ) (t : Trie) → has_word key (insert key t) ≡ true
unfolding insert
has_word-insert_same [] (node b cs) = unfold has_word in refl
has_word-insert_same (c ∷ key) (node b cs) =
    rw (has_word-cons c key b (update_child (insert key) c cs), get-update_child (insert key) c cs)
      (has_word-insert_same key (child_or_fresh c cs))

pub has_word-insert_other :
    (key other : List ℕ) (t : Trie) → other ≢ key → has_word other (insert key t) ≡ has_word other t
unfolding insert
has_word-insert_other [] [] t h = absurd (h refl)
has_word-insert_other [] (d ∷ other) (node b cs) h =
    rw (has_word-cons d other true cs, has_word-cons d other b cs) refl
has_word-insert_other (c ∷ key) [] (node b cs) h = unfold has_word in refl
has_word-insert_other (c ∷ key) (d ∷ other) (node b cs) h =
    rw (has_word-cons d other b (update_child (insert key) c cs), has_word-cons d other b cs)
      (elim (ℕ_discrete d c) [
        | yes e ↦
            let n : other ≢ key = λ q. h (cons_eq e q) in
            rw (e, get-update_child (insert key) c cs)
              (has_word-insert_other key other (child_or_fresh c cs) n
                ∙ has_word-fresh_or c other cs)
        | no n ↦ rw (get-update_other (insert key) d c cs n) refl
      ])

get-put_back :
    (c : ℕ) (t : Trie) (cs : Children) (key : List ℕ)
    → word_below key (get_child c (put_back c t cs)) ≡ has_word key t
get-put_back c (node true gs) cs key =
    unfold put_back in rw (get-update_child (λ t. node true gs) c cs) refl
get-put_back c (node false (child d t gs)) cs key =
    unfold put_back in rw (get-update_child (λ u. node false (child d t gs)) c cs) refl
get-put_back c (node false leaf) cs key =
    unfold put_back in rw (get-delete_child c cs, has_word-fresh key) refl

get-put_other :
    (c d : ℕ) (t : Trie) (cs : Children) → d ≢ c → get_child d (put_back c t cs) ≡ get_child d cs
unfolding put_back
get-put_other c d (node true gs) cs n = get-update_other (λ t. node true gs) d c cs n
get-put_other c d (node false (child e t gs)) cs n =
    get-update_other (λ u. node false (child e t gs)) d c cs n
get-put_other c d (node false leaf) cs n = get-delete_other d c cs n

-- What `remove_path` may return: nothing if the key is not there, else a trie without the key, and
-- with every other key that was there.
abbrev pub IsWithout : List ℕ → Trie → Option Trie → Type 0
IsWithout key t none = has_word key t ≡ false
IsWithout key t (some u) =
    (has_word key u ≡ false)
    × ((other : List ℕ) → other ≢ key → has_word other u ≡ has_word other t)

unmarked :
    (b : Bool) (cs : Children) (other : List ℕ)
    → other ≢ []
    → has_word other (node false cs) ≡ has_word other (node b cs)
unmarked b cs [] h = absurd (h refl)
unmarked b cs (d ∷ other) h = rw (has_word-cons d other false cs, has_word-cons d other b cs) refl

below :
    (c d : ℕ) (key other : List ℕ) (b : Bool) (cs : Children) (t u : Trie)
    → get_child c cs ≡ some t
    → ((o : List ℕ) → o ≢ key → has_word o u ≡ has_word o t)
    → d ∷ other ≢ c ∷ key
    → word_below other (get_child d (put_back c u cs)) ≡ word_below other (get_child d cs)
below c d key other b cs t u e h n = elim (ℕ_discrete d c) [
  | yes p ↦ rw (p, get-put_back c u cs other) (h other (λ q. n (cons_eq p q)) ∙ rw e refl)
  | no q ↦ rw (get-put_other c d u cs q) refl
]

one_down :
    (c : ℕ) (key : List ℕ) (b : Bool) (cs : Children) (t : Trie) (o : Option Trie)
    → get_child c cs ≡ some t
    → IsWithout key t o
    → IsWithout
        (c ∷ key)
        (node b cs)
        (elim o [ none ↦ none | some u ↦ some (node b (put_back c u cs)) ])
one_down c key b cs t none e h = rw (has_word-cons c key b cs, e) h
one_down c key b cs t (some u) e (gone, kept) = (
  rw (has_word-cons c key b (put_back c u cs), get-put_back c u cs key) gone,
  λ other n. others other n,
)
  where
    others :
        (other : List ℕ)
        → other ≢ c ∷ key
        → has_word other (node b (put_back c u cs)) ≡ has_word other (node b cs)
    others [] n = unfold has_word in refl
    others (d ∷ other) n =
        rw (has_word-cons d other b (put_back c u cs), has_word-cons d other b cs)
          (below c d key other b cs t u e kept n)

-- Removing the path of a key leaves a trie without the key and with every other key that was there;
-- where no node is found, the key was not there.
pub remove_path-IsWithout : (key : List ℕ) (t : Trie) → IsWithout key t (remove_path key t)
unfolding remove_path
remove_path-IsWithout [] (node b cs) = (unfold has_word in refl, unmarked b cs)
remove_path-IsWithout (c ∷ key) (node b cs) = elim (Option-cases (get_child c cs)) [
  | inl e ↦ rw (e, remove_path) (rw (has_word-cons c key b cs, e) refl)
  | inr (t, e) ↦
      rw (e, remove_path)
        (one_down c key b cs t (remove_path key t) e (remove_path-IsWithout key t))
]
