-- ===== src/Invalidation/TagIndex/Tree.antt =====
-- The trie of `TagIndex` (src/invalidation/TagIndex.ts). A key is the list of its characters, and the
-- children of a node are in insertion order. The ids of the nodes, which nothing reads, are left out.
pub mod Words
use layercache.Base.{
  ℕ, zero, suc, ◌+◌, Bool, true, false, not, ◌&&◌, ◌==◌, Option, none, some, if◌then◌else◌, List,
  [], ◌∷◌, ◌++◌,
}

mutual
  pub data Trie : Type 0 where
    node : Bool → Children → Trie

  pub data Children : Type 0 where
    leaf : Children
    child : ℕ → Trie → Children → Children

-- a node just created
abbrev pub fresh_node : Trie
fresh_node = node false leaf

abbrev pub terminal : Trie → Bool
terminal (node b cs) = b

abbrev pub is_leaf : Children → Bool
is_leaf leaf = true
is_leaf (child c t cs) = false

-- `node.children.get(character)`, and `.delete(character)`
unfoldable pub get_child : ℕ → Children → Option Trie
get_child c leaf = none
get_child c (child d t cs) = if d == c then some t else get_child c cs

unfoldable pub delete_child : ℕ → Children → Children
delete_child c leaf = leaf
delete_child c (child d t cs) = if d == c then delete_child c cs else child d t (delete_child c cs)

-- What becomes of the child of a character, which is created where it is missing.
unfoldable pub update_child : (Trie → Trie) → ℕ → Children → Children
update_child f c leaf = child c (f fresh_node) leaf
update_child f c (child d t cs) =
    if d == c then child d (f t) cs else child d t (update_child f c cs)

-- The walk of `insertKnownKey`: create the path of the key, then mark its end.
unfoldable pub insert : List ℕ → Trie → Trie
insert [] (node b cs) = node true cs
insert (c ∷ key) (node b cs) = node b (update_child (insert key) c cs)

unfoldable pub find_node : List ℕ → Trie → Option Trie
find_node [] t = some t
find_node (c ∷ key) (node b cs) = elim (get_child c cs) [ none ↦ none | some t ↦ find_node key t ]

-- What the loop upwards leaves of a parent: a child with neither mark nor children is deleted. After
-- the first child that stays, its parent has a child, so no more is deleted.
unfoldable pub put_back : ℕ → Trie → Children → Children
put_back c (node b gs) cs =
    if not b && is_leaf gs then delete_child c cs else update_child (λ t. node b gs) c cs

-- The path walk of `removeKnownKey`; nothing is changed (`none`) where a child is missing.
unfoldable pub remove_path : List ℕ → Trie → Option Trie
remove_path [] (node b cs) = some (node false cs)
remove_path (c ∷ key) (node b cs) = elim (get_child c cs) [
  | none ↦ none
  | some t ↦ elim (remove_path key t) [ none ↦ none | some t' ↦ some (node b (put_back c t' cs)) ]
]

-- `[...node.children].reverse()`, pushed on the stack: the first child is on top.
unfoldable pub push_children : List ℕ → Children → List (List ℕ × Trie) → List (List ℕ × Trie)
push_children prefix leaf stack = stack
push_children prefix (child c t cs) stack = (prefix ++ c ∷ [], t) ∷ push_children prefix cs stack

-- The loop of `collectFromNode` on its stack, with the keys found so far; `none` means that the fuel
-- ran out.
unfoldable pub collect_loop : ℕ → List (List ℕ × Trie) → List (List ℕ) → Option (List (List ℕ))
collect_loop fuel [] found = some found
collect_loop zero (e ∷ stack) found = none
collect_loop (suc fuel) ((prefix, node b cs) ∷ stack) found =
    collect_loop fuel (push_children prefix cs stack) (if b then found ++ prefix ∷ [] else found)

-- The number of nodes, a round each.
unfoldable mutual
  pub node_count : Trie → ℕ
  node_count (node b cs) = suc (children_count cs)

  pub children_count : Children → ℕ
  children_count leaf = 0
  children_count (child c t cs) = node_count t + children_count cs

unfoldable pub collect_from_node : Trie → List ℕ → Option (List (List ℕ))
collect_from_node t prefix = collect_loop (node_count t) ((prefix, t) ∷ []) []
