-- ===== src/Driver/RbTree/Tests.antt =====
-- RBtree with a source that counts, and a tree that leans to the right.
use linux_kernel_programming.Prelude.{
  ℕ, ◌+◌, ◌%◌, ◌<◌, ◌≡◌, ◌≢◌, refl, ap, false, ◌||◌, List, [], ◌∷◌, arith, ◌==◌, inl, inr,
  Bool-cases,
}
use linux_kernel_programming.Prelude.Sums.{erase}
use linux_kernel_programming.Prelude.Int.{ℤ, pos}
use linux_kernel_programming.Driver.Tree.{Tree, leaf, node, inorder}
use linux_kernel_programming.Driver.Tree.Search.{elem}
use linux_kernel_programming.Driver.Numbers.{drawn, get_independant_num}
use linux_kernel_programming.Driver.Numbers.Distinct.{filled, Yields, get_independant_num-drawn}
use linux_kernel_programming.Driver.RbTree.{finished, rb_tree}
use linux_kernel_programming.Driver.RbTree.Emptied.{IsRbTree, rb_tree-leaf, rb_tree-spins}

abbrev counting : ℕ → ℤ
counting p = pos p

leaning : List ℕ → Tree
leaning [] = leaf
leaning (x ∷ xs) = node leaf x (leaning xs)

inorder-leaning : (xs : List ℕ) → inorder (leaning xs) ≡ xs
unfolding leaning
inorder-leaning [] = refl
inorder-leaning (x ∷ xs) = ap (λ l. x ∷ l) (inorder-leaning xs)

abbrev keep : ℕ → Tree → Tree
keep x t = t

abbrev take_out : ℕ → Tree → Tree
take_out x t = leaning (erase x (inorder t))

leaning-IsRbTree : IsRbTree keep take_out
leaning-IsRbTree = record {
  keeps = λ x t. refl;
  erases = λ x t. inorder-leaning (erase x (inorder t));
}

-- Three draws in a row differ, so one of them is none of two given numbers.
counting-Yields : Yields counting 2 5
counting-Yields p [] h = (0, omega arith, refl)
counting-Yields p (a ∷ []) h = elim (Bool-cases (a == (p + 0) % 4)) [
  | inr e ↦ (0, omega arith, ground (arith, e))
  | inl e ↦ (1, omega arith, ground (arith, e))
]
counting-Yields p (a ∷ b ∷ []) h = elim (Bool-cases ((a == (p + 0) % 4) || (b == (p + 0) % 4))) [
  | inr e ↦ (0, omega arith, ground (arith, e))
  | inl e ↦ elim (Bool-cases ((a == (p + 1) % 4) || (b == (p + 1) % 4))) [
    | inr f ↦ (1, omega arith, ground (arith, f))
    | inl f ↦ (2, omega arith, ground (arith, e, f))
  ]
]
counting-Yields p (a ∷ b ∷ c ∷ ys) h = absurd (omega arith)

get_independant_num-drawn_example :
    (x : ℕ) × (q : ℕ) × (get_independant_num counting 2 5 (filled (1 ∷ []) 2) 5
      ≡ drawn x (filled (1 ∷ x ∷ []) 1) q)
    × (elem x (1 ∷ []) ≡ false)
    × (x < 4)
get_independant_num-drawn_example =
    get_independant_num-drawn counting 2 5 (1 ∷ []) 1 5 counting-Yields (omega arith) refl

rb_tree-leaf_example :
    (log : List (ℕ × List ℕ)) × (rb_tree counting keep take_out 2 5 ≡ finished leaf log)
rb_tree-leaf_example =
    rb_tree-leaf counting keep take_out 2 5 leaning-IsRbTree (omega arith) counting-Yields
      (omega arith)

rb_tree-spins_example : rb_tree counting keep take_out 1 100 ≢ finished leaf []
rb_tree-spins_example = rb_tree-spins counting keep take_out 100 leaf []
