-- ===== src/Driver/RbTree.antt =====
-- RBtree of p2/driver.c: a tree of drawn numbers is built, and emptied range by range. The rbtree of the kernel is a
-- parameter, and so are the numbers of get_random_bytes.
pub mod Emptied
mod Tests
use linux_kernel_programming.Prelude.{
  ℕ, zero, suc, ◌+◌, ◌*◌, ◌/◌, Option, none, some, List, [], ◌∷◌, ltb, if◌then◌else◌, replicate,
}
use linux_kernel_programming.Prelude.Int.{ℤ, pos, negsuc}
use linux_kernel_programming.Driver.Tree.{
  Tree, leaf, InsertResult, inserted, duplicate, zswap_rb_insert, zswap_rb_search, print_tree,
}
use linux_kernel_programming.Driver.Numbers.{Drawn, drawn, outside, spins, get_independant_num}

-- How RBtree ends: with the tree and what was printed after each range; in a write behind the array of numbers; or not, with
-- the fuel.
pub data Ended : Type 0 where
  finished : Tree → List (ℕ × List ℕ) → Ended
  out_of_array runs_on : Ended

-- The tree that the first loop builds, or how it fails.
pub data Built : Type 0 where
  built : Tree → Built
  no_place no_number : Built

-- A number that is in the tree already is dropped.
abbrev pub tree_of : Tree → InsertResult → Tree
tree_of t (inserted t') = t'
tree_of t (duplicate x) = t

abbrev pub push_log :
    ℕ × List ℕ → Option (Tree × List (ℕ × List ℕ)) → Option (Tree × List (ℕ × List ℕ))
push_log line none = none
push_log line (some (t, log)) = some (t, line ∷ log)

module _ (random : ℕ → ℤ) (rb_insert_color rb_erase : ℕ → Tree → Tree) (dstruct_size : ℕ) where
  -- The first loop, with `n` numbers to go.
  unfoldable pub insert_numbers : ℕ → ℕ → List ℤ → ℕ → Tree → Built
  insert_numbers fuel zero arr p t = built t
  insert_numbers fuel (suc n) arr p t = elim (get_independant_num random dstruct_size fuel arr p) [
    | outside ↦ no_place
    | spins ↦ no_number
    | drawn x arr' p' ↦
        insert_numbers fuel n arr' p' (tree_of t (zswap_rb_insert rb_insert_color t x))
  ]

  abbrev pub erase_found : ℕ → Tree → Option ℕ → Tree
  erase_found j t none = t
  erase_found j t (some e) = rb_erase e t

  -- The inner loop, over `n` numbers from `j` on.
  unfoldable pub remove_range : ℕ → ℕ → Tree → Tree
  remove_range zero j t = t
  remove_range (suc n) j t = remove_range n (j + 1) (erase_found j t (zswap_rb_search t j))

  -- The outer loop from `i` on; `none` where the fuel runs out.
  unfoldable pub remove_ranges : ℕ → ℕ → ℕ → Tree → Option (Tree × List (ℕ × List ℕ))
  unfolding remove_range
  remove_ranges zero range i t = none
  remove_ranges (suc fuel) range i t =
      let t' = remove_range range i t in
      let rest = push_log (print_tree t') (remove_ranges fuel range (i + range) t') in
      if ltb i (dstruct_size * 2) then rest else some (t, [])

  abbrev pub ended : Option (Tree × List (ℕ × List ℕ)) → Ended
  ended none = runs_on
  ended (some (t, log)) = finished t log

  -- The second loop, with the `range` that lkp_init sets.
  unfoldable pub empty_tree : ℕ → Built → Ended
  unfolding remove_ranges
  empty_tree fuel no_place = out_of_array
  empty_tree fuel no_number = runs_on
  empty_tree fuel (built t) = ended (remove_ranges fuel (dstruct_size / 2) 0 t)

  -- RBtree with the empty array that lkp_init sets.
  unfoldable pub rb_tree : ℕ → Ended
  unfolding insert_numbers empty_tree
  rb_tree fuel =
      empty_tree fuel
        (insert_numbers fuel dstruct_size (replicate (dstruct_size + 1) (negsuc 0)) 0 leaf)
