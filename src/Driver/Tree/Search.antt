-- ===== src/Driver/Tree/Search.antt =====
-- The tree as an ordered set of offsets.
use linux_kernel_programming.Prelude.{
  ℕ, ◌<◌, ◌≡◌, refl, sym, ap, ◌∙◌, Bool, true, false, ◌||◌, none, some, List, [], ◌∷◌, ◌++◌, arith,
  ltb, ◌==◌, if◌then◌else◌, length, length-append, Bool-cases, inl, inr,
}
use linux_kernel_programming.Driver.Tree.{
  Tree, leaf, node, inorder, InsertResult, inserted, duplicate, link_entry, zswap_rb_insert,
  zswap_rb_search, print_tree,
}

abbrev pub elem : ℕ → List ℕ → Bool
elem x [] = false
elem x (y ∷ ys) = (y == x) || elem x ys

abbrev pub Above : ℕ → List ℕ → Type 0
Above n xs = (x : ℕ) → elem x xs ≡ true → n < x

abbrev pub Below : ℕ → List ℕ → Type 0
Below n xs = (x : ℕ) → elem x xs ≡ true → x < n

-- Strictly increasing.
abbrev pub IsSorted : List ℕ → Type 0
IsSorted [] = Unit
IsSorted (x ∷ xs) = Above x xs × IsSorted xs

pub elem-append : (x : ℕ) (xs ys : List ℕ) → elem x (xs ++ ys) ≡ (elem x xs || elem x ys)
elem-append x [] ys = refl
elem-append x (z ∷ xs) ys = rw (elem-append x xs ys) (ground arith)

record IsSplit (e : ℕ) (xs ys : List ℕ) : Type 0 where
  below : Below e xs
  left : IsSorted xs
  above : Above e ys
  right : IsSorted ys

IsSorted-IsSplit : (e : ℕ) (xs ys : List ℕ) → IsSorted (xs ++ e ∷ ys) → IsSplit e xs ys
IsSorted-IsSplit e [] ys s = record {
  below = λ x h. absurd (ground arith);
  left = tt;
  above = s.0;
  right = s.1;
}
IsSorted-IsSplit e (z ∷ xs) ys s =
    let v = IsSorted-IsSplit e xs ys s.1 in
    record {
      below = λ x h. elim (Bool-cases (z == x)) [
        | inl t ↦
            let q = s.0 e (rw (elem-append e xs (e ∷ ys)) (ground arith)) in
            let same : z ≡ x = ground arith in omega arith
        | inr t ↦ v.below x (ground arith)
      ];
      left = (λ x h. s.0 x (rw (elem-append x xs (e ∷ ys), h) refl), v.left);
      above = v.above;
      right = v.right;
    }

elem-left : (x e : ℕ) (xs ys : List ℕ) → IsSplit e xs ys → x < e → elem x (xs ++ e ∷ ys) ≡ elem x xs
elem-left x e xs ys v h = rw (elem-append x xs (e ∷ ys)) (elim (Bool-cases (elem x ys)) [
  | inl t ↦ absurd (omega (arith, v.above x t))
  | inr t ↦ ground (arith, t)
])

elem-right :
    (x e : ℕ) (xs ys : List ℕ) → IsSplit e xs ys → e < x → elem x (xs ++ e ∷ ys) ≡ elem x ys
elem-right x e xs ys v h = rw (elem-append x xs (e ∷ ys)) (elim (Bool-cases (elem x xs)) [
  | inl t ↦ absurd (omega (arith, v.below x t))
  | inr t ↦ ground (arith, t)
])

-- In an ordered tree zswap_rb_search finds exactly the offsets that are in it.
pub zswap_rb_search-elem :
    (t : Tree) (x : ℕ)
    → IsSorted (inorder t)
    → zswap_rb_search t x ≡ (if elem x (inorder t) then some x else none)
unfolding zswap_rb_search
zswap_rb_search-elem leaf x s = refl
zswap_rb_search-elem (node l e r) x s =
    let v = IsSorted-IsSplit e (inorder l) (inorder r) s in
    elim (Bool-cases (ltb x e)) [
      | inl a ↦
          rw (a, elem-left x e (inorder l) (inorder r) v (ground arith))
            (zswap_rb_search-elem l x v.left)
      | inr a ↦ elim (Bool-cases (ltb e x)) [
        | inl b ↦
            rw (a, b, elem-right x e (inorder l) (inorder r) v (ground arith))
              (zswap_rb_search-elem r x v.right)
        | inr b ↦
            let same : e ≡ x = ground arith in
            rw (a, b, elem-append x (inorder l) (e ∷ inorder r)) (ground (arith, same))
      ]
    ]

IsSplit-IsSorted : (e : ℕ) (xs ys : List ℕ) → IsSplit e xs ys → IsSorted (xs ++ e ∷ ys)
IsSplit-IsSorted e [] ys v = (v.above, v.right)
IsSplit-IsSorted e (z ∷ xs) ys v = (
  above,
  IsSplit-IsSorted e xs ys (record {
    below = λ x h. v.below x (ground (arith, h));
    left = v.left.1;
    above = v.above;
    right = v.right;
  }),
)
  where
    z_below : z < e
    z_below = v.below z (ground arith)

    above : Above z (xs ++ e ∷ ys)
    above x h = elim (Bool-cases (elem x xs)) [
      | inl t ↦ v.left.0 x t
      | inr t ↦ elim (Bool-cases (elem x ys)) [
        | inl u ↦ let a = v.above x u in omega (arith, z_below)
        | inr u ↦ let here : e ≡ x = other x h t u in omega (arith, z_below)
      ]
    ]
      where
        other :
            (x : ℕ) → elem x (xs ++ e ∷ ys) ≡ true → elem x xs ≡ false → elem x ys ≡ false → e ≡ x
        other x h t u = let h' = sym (elem-append x xs (e ∷ ys)) ∙ h in ground (arith, h')

-- The tree `t'` is ordered and holds `x` besides the offsets of `t`.
pub record IsInserted (x : ℕ) (t t' : Tree) : Type 0 where
  pub sorted : IsSorted (inorder t')
  pub holds : (y : ℕ) → elem y (inorder t') ≡ ((x == y) || elem y (inorder t))

link_entry-duplicate :
    (t : Tree) (x : ℕ)
    → IsSorted (inorder t)
    → elem x (inorder t) ≡ true
    → link_entry x t ≡ duplicate x
unfolding link_entry
link_entry-duplicate leaf x s h = absurd (ground arith)
link_entry-duplicate (node l e r) x s h =
    let v = IsSorted-IsSplit e (inorder l) (inorder r) s in
    elim (Bool-cases (ltb x e)) [
      | inl a ↦
          rw
            (
              a,
              link_entry-duplicate l x v.left
                  (sym (elem-left x e (inorder l) (inorder r) v (ground arith)) ∙ h),
            )
            refl
      | inr a ↦ elim (Bool-cases (ltb e x)) [
        | inl b ↦
            rw
              (
                a,
                b,
                link_entry-duplicate r x v.right
                    (sym (elem-right x e (inorder l) (inorder r) v (ground arith)) ∙ h),
              )
              refl
        | inr b ↦ let same : e ≡ x = ground arith in rw (a, b) (ap duplicate same)
      ]
    ]

module _ (x e : ℕ) (l r t' : Tree) (v : IsSplit e (inorder l) (inorder r)) where
  IsInserted-left : x < e → IsInserted x l t' → IsInserted x (node l e r) (node t' e r)
  IsInserted-left h p = record {
    sorted =
        IsSplit-IsSorted e (inorder t') (inorder r)
          (record { below = below; left = p.sorted; above = v.above; right = v.right });
    holds = λ y.
        rw
          (
            elem-append y (inorder t') (e ∷ inorder r),
            elem-append y (inorder l) (e ∷ inorder r),
            p.holds y,
          )
          (ground arith);
  }
    where
      below : Below e (inorder t')
      below y q = elim (Bool-cases (x == y)) [
        | inl t ↦ let same : x ≡ y = ground arith in omega (arith, h)
        | inr t ↦ let q' = sym (p.holds y) ∙ q in v.below y (ground (arith, q'))
      ]

  IsInserted-right : e < x → IsInserted x r t' → IsInserted x (node l e r) (node l e t')
  IsInserted-right h p = record {
    sorted =
        IsSplit-IsSorted e (inorder l) (inorder t')
          (record { below = v.below; left = v.left; above = above; right = p.sorted });
    holds = λ y.
        rw
          (
            elem-append y (inorder l) (e ∷ inorder t'),
            elem-append y (inorder l) (e ∷ inorder r),
            p.holds y,
          )
          (ground arith);
  }
    where
      above : Above e (inorder t')
      above y q = elim (Bool-cases (x == y)) [
        | inl t ↦ let same : x ≡ y = ground arith in omega (arith, h)
        | inr t ↦ let q' = sym (p.holds y) ∙ q in v.above y (ground (arith, q'))
      ]

link_entry-IsInserted :
    (t : Tree) (x : ℕ)
    → IsSorted (inorder t)
    → elem x (inorder t) ≡ false
    → (t' : Tree) × ((link_entry x t ≡ inserted t') × IsInserted x t t')
unfolding link_entry
link_entry-IsInserted leaf x s h = (
  node leaf x leaf,
  (refl, record { sorted = (λ y q. absurd (ground arith), tt); holds = λ y. refl }),
)
link_entry-IsInserted (node l e r) x s h =
    let v = IsSorted-IsSplit e (inorder l) (inorder r) s in
    elim (Bool-cases (ltb x e)) [
      | inl a ↦
          let (t', (done, p)) =
            link_entry-IsInserted l x v.left
              (sym (elem-left x e (inorder l) (inorder r) v (ground arith)) ∙ h) in
          (node t' e r, (rw (a, done) refl, IsInserted-left x e l r t' v (ground arith) p))
      | inr a ↦ elim (Bool-cases (ltb e x)) [
        | inl b ↦
            let (t', (done, p)) =
              link_entry-IsInserted r x v.right
                (sym (elem-right x e (inorder l) (inorder r) v (ground arith)) ∙ h) in
            (node l e t', (rw (a, b, done) refl, IsInserted-right x e l r t' v (ground arith) p))
        | inr b ↦
            let same : e ≡ x = ground arith in
            let h' = sym (elem-append x (inorder l) (e ∷ inorder r)) ∙ h in
            absurd (ground (arith, same, h'))
      ]
    ]

-- The outcome `r` of inserting `x` into `t`.
pub data Insertion (x : ℕ) (t : Tree) (r : InsertResult) : Type 0 where
  refused : elem x (inorder t) ≡ true → r ≡ duplicate x → Insertion x t r
  added :
      elem x (inorder t) ≡ false
      → (t' : Tree) → r ≡ inserted t'
      → IsInserted x t t'
      → Insertion x t r

-- With a rebalancing that keeps the order of the nodes, in an ordered tree: zswap_rb_insert refuses an
-- offset that is in the tree, with the entry of that offset; for any other offset the new tree is
-- ordered and holds the offset besides the old ones.
pub zswap_rb_insert-Insertion :
    (rb_insert_color : ℕ → Tree → Tree)
    → ((x : ℕ) (t : Tree) → inorder (rb_insert_color x t) ≡ inorder t)
    → (t : Tree) (x : ℕ) → IsSorted (inorder t)
    → Insertion x t (zswap_rb_insert rb_insert_color t x)
unfolding zswap_rb_insert
zswap_rb_insert-Insertion rb_insert_color keeps t x s = elim (Bool-cases (elem x (inorder t))) [
  | inl h ↦ refused h (rw (link_entry-duplicate t x s h) refl)
  | inr h ↦
      let (t', (done, p)) = link_entry-IsInserted t x s h in
      added h (rb_insert_color x t') (rw done refl)
        (record { sorted = rw (keeps x t') p.sorted; holds = λ y. rw (keeps x t') (p.holds y) })
]

-- print_tree returns the number of nodes, and prints as many offsets.
pub print_tree-length :
    (t : Tree)
    → ((print_tree t).0 ≡ length (inorder t)) × ((print_tree t).0 ≡ length (print_tree t).1)
unfolding print_tree
print_tree-length leaf = (refl, refl)
print_tree-length (node l e r) =
    let (a, b) = print_tree-length l in
    let (c, d) = print_tree-length r in
    (
      omega (arith, a, c, length-append (inorder l) (e ∷ inorder r)),
      omega (arith, b, d, length-append (print_tree r).1 (print_tree l).1),
    )
