-- ===== src/Driver/RbTree/Emptied.antt =====
-- RBtree ends with an empty tree, or does not end.
use linux_kernel_programming.Prelude.{
  ℕ, zero, suc, ◌+◌, ◌-◌, ◌*◌, ◌/◌, ◌≤◌, ◌<◌, ◌≡◌, ◌≢◌, refl, sym, ap, ◌∙◌, Bool, true, false, none,
  some, List, [], ◌∷◌, ◌++◌, arith, ltb, ◌==◌, Bool-cases, inl, inr, length, length-append,
  replicate,
}
use linux_kernel_programming.Prelude.Sums.{erase}
use linux_kernel_programming.Prelude.Int.{ℤ, negsuc}
use linux_kernel_programming.Driver.Tree.{
  Tree, leaf, node, inorder, zswap_rb_insert, zswap_rb_search, InsertResult, print_tree,
}
use linux_kernel_programming.Driver.Tree.Search.{
  elem, elem-append, IsSorted, Insertion, refused, added, zswap_rb_search-elem,
  zswap_rb_insert-Insertion,
}
use linux_kernel_programming.Driver.Numbers.Distinct.{filled, Yields, get_independant_num-drawn}
use linux_kernel_programming.Driver.RbTree.{
  Built, built, no_place, no_number, finished, tree_of, erase_found, insert_numbers, remove_range,
  remove_ranges, empty_tree, rb_tree,
}

-- What is relied on of the rbtree: rebalancing keeps the order of the nodes, and erasing takes out one node.
pub record IsRbTree (rb_insert_color rb_erase : ℕ → Tree → Tree) : Type 0 where
  pub keeps : (x : ℕ) (t : Tree) → inorder (rb_insert_color x t) ≡ inorder t
  pub erases : (x : ℕ) (t : Tree) → inorder (rb_erase x t) ≡ erase x (inorder t)

-- The tree is ordered and holds the given numbers.
record HoldsNumbers (taken : List ℕ) (t : Tree) : Type 0 where
  sorted : IsSorted (inorder t)
  same : (y : ℕ) → elem y (inorder t) ≡ elem y taken

elem-erase : (x y : ℕ) (xs : List ℕ) → elem y (erase x xs) ≡ true → elem y xs ≡ true
elem-erase x y [] h = h
elem-erase x y (z ∷ xs) h = ground (arith, elem-erase x y xs)

IsSorted-erase : (x : ℕ) (xs : List ℕ) → IsSorted xs → IsSorted (erase x xs)
IsSorted-erase x [] s = s
IsSorted-erase x (z ∷ xs) s = elim (Bool-cases (z == x)) [
  | inl e ↦ rw e s.1
  | inr e ↦ rw e (λ y h. s.0 y (elem-erase x y xs h), IsSorted-erase x xs s.1)
]

erase-gone : (x : ℕ) (xs : List ℕ) → IsSorted xs → elem x (erase x xs) ≡ false
erase-gone x [] s = refl
erase-gone x (z ∷ xs) s = elim (Bool-cases (z == x)) [
  | inl e ↦ rw e (elim (Bool-cases (elem x xs)) [
    | inl t ↦ let l = s.0 x t in absurd (ground arith)
    | inr t ↦ t
  ])
  | inr e ↦ rw (e, e) (erase-gone x xs s.1)
]

module _ (rb_insert_color rb_erase : ℕ → Tree → Tree) (v : IsRbTree rb_insert_color rb_erase) where
  -- A number that is new goes into the tree.
  inserted-HoldsNumbers :
      (taken : List ℕ) (x : ℕ) (t : Tree)
      → elem x taken ≡ false
      → HoldsNumbers taken t
      → HoldsNumbers (taken ++ x ∷ []) (tree_of t (zswap_rb_insert rb_insert_color t x))
  inserted-HoldsNumbers taken x t new h =
      by_case (zswap_rb_insert rb_insert_color t x)
        (zswap_rb_insert-Insertion rb_insert_color v.keeps t x h.sorted)
    where
      by_case : (r : InsertResult) → Insertion x t r → HoldsNumbers (taken ++ x ∷ []) (tree_of t r)
      by_case r (refused e _) = let q = sym (h.same x) ∙ e in absurd (ground arith)
      by_case r (added e t' q p) = rw q (record {
        sorted = p.sorted;
        same =
            λ y. p.holds y ∙ let s = h.same y in rw (elem-append y taken (x ∷ [])) (ground arith);
      })

  module _ (random : ℕ → ℤ) (dstruct_size fuel : ℕ) (yields : Yields random dstruct_size fuel)
      (some_place : 0 < dstruct_size) where
    -- The tree that the first loop builds.
    record Grown (t : Tree) : Type 0 where
      sorted : IsSorted (inorder t)
      small : (y : ℕ) → elem y (inorder t) ≡ true → y < dstruct_size * 2

    insert_numbers-Grown :
        (n p : ℕ) (taken : List ℕ) (t : Tree)
        → length taken + n ≡ dstruct_size
        → HoldsNumbers taken t
        → ((y : ℕ) → elem y taken ≡ true → y < dstruct_size * 2)
        → (t' : Tree) × (insert_numbers random rb_insert_color rb_erase dstruct_size fuel n
              (filled taken (suc n))
              p
              t
            ≡ built t')
          × Grown t'
    unfolding insert_numbers
    insert_numbers-Grown zero p taken t sized h small =
        (t, refl, record { sorted = h.sorted; small = λ y e. small y (sym (h.same y) ∙ e) })
    insert_numbers-Grown (suc n) p taken t sized h small =
        let (x, q, done, new, bound) =
          get_independant_num-drawn random dstruct_size fuel taken (suc n) p yields some_place
            sized in
        let (t', built_one, g) =
          insert_numbers-Grown n q (taken ++ x ∷ [])
            (tree_of t (zswap_rb_insert rb_insert_color t x))
            (rw (length-append taken (x ∷ [])) (omega (arith, sized)))
            (inserted-HoldsNumbers taken x t new h) (λ y e. grown x bound y e) in
        (t', rw (done, insert_numbers) built_one, g)
      where
        grown :
            (x : ℕ)
            → x < dstruct_size * 2
            → (y : ℕ) → elem y (taken ++ x ∷ []) ≡ true
            → y < dstruct_size * 2
        grown x bound y e = elim (Bool-cases (elem y taken)) [
          | inl o ↦ small y o
          | inr o ↦
              let e' = sym (elem-append y taken (x ∷ [])) ∙ e in
              let s : x ≡ y = ground (arith, o, e') in omega arith
        ]

  -- The numbers that are left are below `bound` and not below `i`.
  record Rest (bound i : ℕ) (t : Tree) : Type 0 where
    sorted : IsSorted (inorder t)
    within : (y : ℕ) → elem y (inorder t) ≡ true → (i ≤ y) × (y < bound)

  module _ (random : ℕ → ℤ) (dstruct_size : ℕ) where
    erase_found-Rest :
        (bound j : ℕ) (t : Tree)
        → Rest bound j t
        → Rest bound
            (j + 1)
            (erase_found random rb_insert_color rb_erase dstruct_size j t (zswap_rb_search t j))
    erase_found-Rest bound j t r =
        rw (zswap_rb_search-elem t j r.sorted) (elim (Bool-cases (elem j (inorder t))) [
          | inl e ↦ rw e (record {
            sorted = rw (v.erases j t) (IsSorted-erase j (inorder t) r.sorted);
            within = λ y. rw (v.erases j t) (λ h.
                let (l, u) = r.within y (elem-erase j y (inorder t) h) in
                let other = not_same y h in omega arith);
          })
          | inr e ↦ rw e (record {
            sorted = r.sorted;
            within = λ y h. let (l, u) = r.within y h in let other = absent y e h in omega arith;
          })
        ])
      where
        not_same : (y : ℕ) → elem y (erase j (inorder t)) ≡ true → j ≢ y
        not_same y h same =
            let gone = erase-gone j (inorder t) r.sorted in
            let h' = rw (← same) at h in clash h' gone
          where
            clash : {b : Bool} → b ≡ true → b ≡ false → ⊥
            clash s t = cc

        absent : (y : ℕ) → elem j (inorder t) ≡ false → elem y (inorder t) ≡ true → j ≢ y
        absent y e h same = let h' = rw (← same) at h in clash h' e
          where
            clash : {b : Bool} → b ≡ true → b ≡ false → ⊥
            clash s t = cc

    remove_range-Rest :
        (n bound j : ℕ) (t : Tree)
        → Rest bound j t
        → Rest bound (j + n) (remove_range random rb_insert_color rb_erase dstruct_size n j t)
    unfolding remove_range
    remove_range-Rest zero bound j t r = let e : j + 0 ≡ j = omega arith in rw e r
    remove_range-Rest (suc n) bound j t r =
        let e : j + suc n ≡ j + 1 + n = omega arith in
        rw e (remove_range-Rest n bound (j + 1) _ (erase_found-Rest bound j t r))

    remove_ranges-leaf :
        (fuel range i : ℕ) (t : Tree)
        → 0 < range
        → dstruct_size * 2 - i < fuel
        → Rest (dstruct_size * 2) i t
        → (log : List (ℕ × List ℕ)) × (remove_ranges random rb_insert_color rb_erase dstruct_size
              fuel range i t
            ≡ some (leaf, log))
    unfolding remove_ranges
    remove_ranges-leaf zero range i t pos_range enough r = elim enough [ ]
    remove_ranges-leaf (suc fuel) range i t pos_range enough r =
        elim (Bool-cases (ltb i (dstruct_size * 2))) [
          | inl more ↦
              let t' = remove_range random rb_insert_color rb_erase dstruct_size range i t in
              let (log, e) =
                remove_ranges-leaf fuel range (i + range) t' pos_range (ground arith)
                  (remove_range-Rest range (dstruct_size * 2) i t r) in
              (print_tree t' ∷ log, rw (more, e))
          | inr last ↦ (
            [],
            rw last (
                ap (λ x. some (x, []))
                  (nothing_left t (λ y h. let (l, u) = r.within y h in ground arith))),
          )
        ]
      where
        nothing_left : (t : Tree) → ((y : ℕ) → elem y (inorder t) ≡ true → ⊥) → t ≡ leaf
        nothing_left leaf h = refl
        nothing_left (node l x u) h =
            absurd (h x (rw (elem-append x (inorder l) (x ∷ inorder u)) (ground arith)))

-- For two numbers or more RBtree comes to its end, with an empty tree: with a source that yields a new number among any
-- `fuel` draws, fuel for each number that is looked for, and an rbtree that keeps the order of the nodes.
pub rb_tree-leaf :
    (random : ℕ → ℤ) (rb_insert_color rb_erase : ℕ → Tree → Tree) (dstruct_size fuel : ℕ)
    → IsRbTree rb_insert_color rb_erase
    → 2 ≤ dstruct_size
    → Yields random dstruct_size fuel
    → dstruct_size * 2 < fuel
    → (log : List (ℕ × List ℕ)) × (rb_tree random rb_insert_color rb_erase dstruct_size fuel
        ≡ finished leaf log)
unfolding rb_tree empty_tree
rb_tree-leaf random color erased n fuel v two yields enough =
    let (t, built_one, g) =
      insert_numbers-Grown color erased v random n fuel yields (omega arith) n 0 [] leaf
        (omega arith) (record { sorted = tt; same = λ y. refl }) (λ y e. absurd (ground arith)) in
    let (log, done) =
      remove_ranges-leaf color erased v random n fuel (n / 2) 0 t (omega arith) (omega arith)
        (record { sorted = g.sorted; within = λ y e. (omega arith, g.small y e) }) in
    let one : n + 1 ≡ suc n = omega arith in (log, rw (one, built_one) (rw done))

remove_ranges-forever :
    (random : ℕ → ℤ) (rb_insert_color rb_erase : ℕ → Tree → Tree) (fuel : ℕ) (t : Tree)
    → remove_ranges random rb_insert_color rb_erase 1 fuel 0 0 t ≡ none
unfolding remove_ranges remove_range
remove_ranges-forever random color erased zero t = refl
remove_ranges-forever random color erased (suc fuel) t =
    rw (remove_ranges-forever random color erased fuel t)

-- For one number the range is 0, and RBtree never comes to its end, whatever the numbers drawn.
pub rb_tree-spins :
    (random : ℕ → ℤ) (rb_insert_color rb_erase : ℕ → Tree → Tree) (fuel : ℕ) (t : Tree)
    (log : List (ℕ × List ℕ))
    → rb_tree random rb_insert_color rb_erase 1 fuel ≢ finished t log
unfolding rb_tree empty_tree
rb_tree-spins random color erased fuel t log =
    by_case (insert_numbers random color erased 1 fuel 1 (replicate 2 (negsuc 0)) 0 leaf)
  where
    by_case : (b : Built) → empty_tree random color erased 1 fuel b ≢ finished t log
    by_case no_place = λ e. cc
    by_case no_number = λ e. cc
    by_case (built t) = rw (remove_ranges-forever random color erased fuel t) (λ e. cc)
