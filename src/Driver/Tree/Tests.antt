-- ===== src/Driver/Tree/Tests.antt =====
-- The search tree at a tree of three nodes.
use linux_kernel_programming.Prelude.{ℕ, ◌≡◌, refl, [], ◌∷◌, arith}
use linux_kernel_programming.Driver.Tree.{
  Tree, leaf, node, inorder, duplicate, link_entry, zswap_rb_insert, print_tree,
}
use linux_kernel_programming.Driver.Tree.Search.{IsSorted, Insertion, zswap_rb_insert-Insertion}

abbrev tree : Tree
tree = node (node leaf 2 leaf) 5 (node leaf 9 leaf)

abbrev unbalanced : ℕ → Tree → Tree
unbalanced x t = t

refused_run : zswap_rb_insert unbalanced tree 9 ≡ duplicate 9
unfolding zswap_rb_insert link_entry
refused_run = refl

print_run : print_tree tree ≡ (3, 5 ∷ 9 ∷ 2 ∷ [])
unfolding print_tree
print_run = refl

tree-IsSorted : IsSorted (inorder tree)
tree-IsSorted = (λ x h. ground arith, (λ x h. ground arith, (λ x h. absurd (ground arith), tt)))

zswap_rb_insert-Insertion_example : Insertion 7 tree (zswap_rb_insert unbalanced tree 7)
zswap_rb_insert-Insertion_example =
    zswap_rb_insert-Insertion unbalanced (λ x t. refl) tree 7 tree-IsSorted
