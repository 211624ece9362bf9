-- ===== src/Lottery/Tree/Order.antt =====
-- Where insert_lottery_rb_task puts a task: the tree is ordered by tickets.
use linux_kernel_programming.Prelude.{
  ℕ, ◌≤◌, ◌<◌, ◌≡◌, refl, ap, List, [], ◌∷◌, ◌++◌, arith, ltb, if◌then◌else◌, Bool-cases, inl, inr,
}
use linux_kernel_programming.Lottery.Tree.{Tree, leaf, node, inorder, link_task}

module _ (ticket : ℕ → ℕ) where
  -- Every task of the list holds at least `n` tickets.
  abbrev pub AllGe : ℕ → List ℕ → Type 0
  AllGe n [] = Unit {0}
  AllGe n (x ∷ xs) = (n ≤ ticket x) × AllGe n xs

  -- The tickets do not fall along the list.
  abbrev pub IsSorted : List ℕ → Type 0
  IsSorted [] = Unit {0}
  IsSorted (x ∷ xs) = AllGe (ticket x) xs × IsSorted xs

  -- The place of a new task in a sorted list: behind its equals.
  pub insert_sorted : ℕ → List ℕ → List ℕ
  insert_sorted p [] = p ∷ []
  insert_sorted p (x ∷ xs) =
      if ltb (ticket p) (ticket x) then p ∷ x ∷ xs else x ∷ insert_sorted p xs

  AllGe-trans : (m n : ℕ) (xs : List ℕ) → m ≤ n → AllGe n xs → AllGe m xs
  AllGe-trans m n [] h a = tt
  AllGe-trans m n (x ∷ xs) h a = (omega arith, AllGe-trans m n xs h a.1)

  AllGe-split : (n : ℕ) (xs ys : List ℕ) → AllGe n (xs ++ ys) → AllGe n xs × AllGe n ys
  AllGe-split n [] ys a = (tt, a)
  AllGe-split n (x ∷ xs) ys a = let (l, r) = AllGe-split n xs ys a.1 in ((a.0, l), r)

  IsSorted-split : (xs ys : List ℕ) → IsSorted (xs ++ ys) → IsSorted xs × IsSorted ys
  IsSorted-split [] ys s = (tt, s)
  IsSorted-split (x ∷ xs) ys s =
      let (l, r) = IsSorted-split xs ys s.1 in (((AllGe-split (ticket x) xs ys s.0).0, l), r)

  insert_sorted-left :
      (p e : ℕ) (xs ys : List ℕ)
      → ticket p < ticket e
      → insert_sorted p (xs ++ e ∷ ys) ≡ insert_sorted p xs ++ e ∷ ys
  unfolding insert_sorted
  insert_sorted-left p e [] ys h = ground arith
  insert_sorted-left p e (x ∷ xs) ys h = elim (Bool-cases (ltb (ticket p) (ticket x))) [
    | inl t ↦ rw t
    | inr t ↦ rw (t, insert_sorted-left p e xs ys h)
  ]

  insert_sorted-right :
      (p e : ℕ) (xs ys : List ℕ)
      → ticket e ≤ ticket p
      → IsSorted (xs ++ e ∷ ys)
      → insert_sorted p (xs ++ e ∷ ys) ≡ xs ++ e ∷ insert_sorted p ys
  unfolding insert_sorted
  insert_sorted-right p e [] ys h s = ground arith
  insert_sorted-right p e (x ∷ xs) ys h s =
      let ge = (AllGe-split (ticket x) xs (e ∷ ys) s.0).1 in
      elim (Bool-cases (ltb (ticket p) (ticket x))) [
        | inl t ↦ absurd (ground arith)
        | inr t ↦ rw (t, insert_sorted-right p e xs ys h s.1)
      ]

  -- In a tree ordered by tickets the descent puts the task where a sorted list has its place.
  pub inorder-link_task :
      (p accu : ℕ) (t : Tree)
      → IsSorted (inorder t)
      → inorder (link_task ticket p accu t) ≡ insert_sorted p (inorder t)
  unfolding link_task
  inorder-link_task p accu leaf s = unfold insert_sorted in refl
  inorder-link_task p accu (node l e a r) s =
      let (sl, sr) = IsSorted-split (inorder l) (e ∷ inorder r) s in
      elim (Bool-cases (ltb (ticket p) (ticket e))) [
        | inl t ↦
            rw (t, insert_sorted-left p e (inorder l) (inorder r) (ground arith))
              (ap (λ xs. xs ++ e ∷ inorder r) (inorder-link_task p accu l sl))
        | inr t ↦
            rw (t, insert_sorted-right p e (inorder l) (inorder r) (ground arith) s)
              (ap (λ xs. inorder l ++ e ∷ xs) (inorder-link_task p accu r sr.1))
      ]

  AllGe-insert_sorted :
      (n p : ℕ) (xs : List ℕ) → n ≤ ticket p → AllGe n xs → AllGe n (insert_sorted p xs)
  unfolding insert_sorted
  AllGe-insert_sorted n p [] h a = (h, tt)
  AllGe-insert_sorted n p (x ∷ xs) h a = elim (Bool-cases (ltb (ticket p) (ticket x))) [
    | inl t ↦ rw t (h, a)
    | inr t ↦ rw t (a.0, AllGe-insert_sorted n p xs h a.1)
  ]

  pub insert_sorted-IsSorted : (p : ℕ) (xs : List ℕ) → IsSorted xs → IsSorted (insert_sorted p xs)
  unfolding insert_sorted
  insert_sorted-IsSorted p [] s = (tt, tt)
  insert_sorted-IsSorted p (x ∷ xs) s = elim (Bool-cases (ltb (ticket p) (ticket x))) [
    | inl t ↦ rw t ((ground arith, AllGe-trans (ticket p) (ticket x) xs (ground arith) s.0), s)
    | inr t ↦
        rw t
          (AllGe-insert_sorted (ticket x) p xs (ground arith) s.0, insert_sorted-IsSorted p xs s.1)
  ]
