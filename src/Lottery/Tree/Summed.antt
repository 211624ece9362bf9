-- ===== src/Lottery/Tree/Summed.antt =====
-- The accumulated tickets: what update_postorder establishes.
use linux_kernel_programming.Prelude.{
  ℕ, ◌+◌, ◌<◌, ◌≡◌, refl, ap, ap₂, ◌++◌, ◌∷◌, arith, Bool-cases, inl, inr, ltb,
}
use linux_kernel_programming.Prelude.Words.{u64_mod}
use linux_kernel_programming.Prelude.Sums.{sum, sum-append}
use linux_kernel_programming.Lottery.Tree.{
  link_task, Tree, leaf, node, inorder, subtotal, update_postorder, left_accu,
}

-- The tickets of a subtree.
abbrev pub total : (ℕ → ℕ) → Tree → ℕ
total ticket t = sum ticket (inorder t)

-- Every node's `accu_ticket` is the sum of the tickets of its subtree.
abbrev pub IsSummed : (ℕ → ℕ) → Tree → Type 0
IsSummed ticket leaf = Unit {0}
IsSummed ticket (node l e a r) =
    IsSummed ticket l × (a ≡ total ticket l + ticket e + total ticket r) × IsSummed ticket r

pub total-node :
    (ticket : ℕ → ℕ) (l r : Tree) (e a : ℕ)
    → total ticket (node l e a r) ≡ total ticket l + ticket e + total ticket r
total-node ticket l r e a = omega (arith, sum-append ticket (inorder l) (e ∷ inorder r))

pub left_accu-total : (ticket : ℕ → ℕ) (t : Tree) → IsSummed ticket t → left_accu t ≡ total ticket t
unfolding left_accu
left_accu-total ticket leaf s = refl
left_accu-total ticket (node l e a r) s = omega (arith, total-node ticket l r e a)

-- The four cases of a node's children are one sum.
subtotal-left_accu :
    (l r : Tree) (own : ℕ)
    → left_accu l + left_accu r + own < u64_mod
    → subtotal l r own ≡ left_accu l + left_accu r + own
unfolding subtotal left_accu
subtotal-left_accu leaf leaf own h = omega arith
subtotal-left_accu leaf (node _ _ _ _) own h = omega arith
subtotal-left_accu (node _ _ _ _) leaf own h = omega arith
subtotal-left_accu (node _ _ _ _) (node _ _ _ _) own h = omega arith

-- update_postorder keeps the tasks and their order.
pub inorder-update_postorder :
    (ticket : ℕ → ℕ) (t : Tree) → inorder (update_postorder ticket t) ≡ inorder t
unfolding update_postorder
inorder-update_postorder ticket leaf = refl
inorder-update_postorder ticket (node l e a r) =
    ap₂ (λ xs ys. xs ++ e ∷ ys) (inorder-update_postorder ticket l)
      (inorder-update_postorder ticket r)

-- After update_postorder every accumulated total is right, whatever they were before, where the sum
-- of all tickets fits 64 bits.
pub update_postorder-IsSummed :
    (ticket : ℕ → ℕ) (t : Tree)
    → total ticket t < u64_mod
    → IsSummed ticket (update_postorder ticket t)
unfolding update_postorder
update_postorder-IsSummed ticket leaf h = tt
update_postorder-IsSummed ticket (node l e a r) h =
    let small = total-node ticket l r e a in
    let sl = update_postorder-IsSummed ticket l (omega arith) in
    let sr = update_postorder-IsSummed ticket r (omega arith) in
    let l' = update_postorder ticket l in
    let r' = update_postorder ticket r in
    (
      sl,
      omega (
        arith,
        subtotal-left_accu l' r' (ticket e),
        left_accu-total ticket l' sl,
        left_accu-total ticket r' sr,
        ap (sum ticket) (inorder-update_postorder ticket l),
        ap (sum ticket) (inorder-update_postorder ticket r),
      ),
      sr,
    )

-- Linking a task adds it once, wherever the tickets send it.
pub sum-link_task :
    (f ticket : ℕ → ℕ) (p accu : ℕ) (t : Tree)
    → sum f (inorder (link_task ticket p accu t)) ≡ f p + sum f (inorder t)
unfolding link_task
sum-link_task f ticket p accu leaf = refl
sum-link_task f ticket p accu (node l e a r) = elim (Bool-cases (ltb (ticket p) (ticket e))) [
  | inl t ↦ rw t (
      omega (
        arith,
        sum-append f (inorder (link_task ticket p accu l)) (e ∷ inorder r),
        sum-append f (inorder l) (e ∷ inorder r),
        sum-link_task f ticket p accu l,
      ))
  | inr t ↦ rw t (
      omega (
        arith,
        sum-append f (inorder l) (e ∷ inorder (link_task ticket p accu r)),
        sum-append f (inorder l) (e ∷ inorder r),
        sum-link_task f ticket p accu r,
      ))
]
