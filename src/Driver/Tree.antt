-- ===== src/Driver/Tree.antt =====
-- The search tree of p2/driver.c. A node is the `offset` of its entry; colours belong to the kernel's
-- rbtree, which is a parameter.
pub mod Search
mod Tests
use linux_kernel_programming.Prelude.{
  ℕ, ◌+◌, Option, none, some, List, [], ◌∷◌, ◌++◌, ltb, if◌then◌else◌,
}

pub data Tree : Type 0 where
  leaf : Tree
  node : (rb_left : Tree) (offset : ℕ) (rb_right : Tree) → Tree

-- The offsets from left to right.
abbrev pub inorder : Tree → List ℕ
inorder leaf = []
inorder (node l e r) = inorder l ++ e ∷ inorder r

-- The outcome of an insertion: the new tree, or -EEXIST with the entry that is there.
pub data InsertResult : Type 0 where
  inserted : Tree → InsertResult
  duplicate : ℕ → InsertResult

abbrev pub in_left : ℕ → Tree → InsertResult → InsertResult
in_left e r (inserted l) = inserted (node l e r)
in_left e r (duplicate d) = duplicate d

abbrev pub in_right : Tree → ℕ → InsertResult → InsertResult
in_right l e (inserted r) = inserted (node l e r)
in_right l e (duplicate d) = duplicate d

-- The descent of zswap_rb_insert, and `rb_link_node`.
unfoldable pub link_entry : ℕ → Tree → InsertResult
link_entry x leaf = inserted (node leaf x leaf)
link_entry x (node l e r) =
    let left = in_left e r (link_entry x l) in
    let right = in_right l e (link_entry x r) in
    if ltb x e then left else if ltb e x then right else duplicate e

abbrev pub recolour : (Tree → Tree) → InsertResult → InsertResult
recolour f (inserted t) = inserted (f t)
recolour f (duplicate d) = duplicate d

module _ (rb_insert_color : ℕ → Tree → Tree) where
  unfoldable pub zswap_rb_insert : Tree → ℕ → InsertResult
  unfolding link_entry
  zswap_rb_insert root x = recolour (rb_insert_color x) (link_entry x root)

unfoldable pub zswap_rb_search : Tree → ℕ → Option ℕ
zswap_rb_search leaf x = none
zswap_rb_search (node l e r) x =
    let left = zswap_rb_search l x in
    let right = zswap_rb_search r x in if ltb x e then left else if ltb e x then right else some e

-- The number of nodes that print_tree returns, and the offsets in the order in which it prints them.
unfoldable pub print_tree : Tree → ℕ × List ℕ
print_tree leaf = (0, [])
print_tree (node l e r) =
    let (right, after) = print_tree r in
    let (left, last) = print_tree l in (1 + right + left, e ∷ after ++ last)
