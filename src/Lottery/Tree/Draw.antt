-- ===== src/Lottery/Tree/Draw.antt =====
-- The tree descent picks the task that the linked-list walk over the same tasks would pick.
use linux_kernel_programming.Prelude.{ℕ, ◌+◌, ◌<◌, ◌≡◌, refl, ◌∷◌, arith, leb, Bool-cases, inl, inr}
use linux_kernel_programming.Prelude.Words.{add64, u64_mod}
use linux_kernel_programming.Lottery.Linked.{pick_from}
use linux_kernel_programming.Lottery.Linked.Draw.{pick_from-cons, pick_from-append}
use linux_kernel_programming.Lottery.Tree.{
  Tree, leaf, node, inorder, left_accu, goes_left, pick_node,
}
use linux_kernel_programming.Lottery.Tree.Summed.{total, IsSummed, total-node, left_accu-total}

goes_left-leb :
    (ticket : ℕ → ℕ) (t : Tree) (lucky s : ℕ)
    → IsSummed ticket t
    → s + total ticket t < u64_mod
    → s < lucky
    → goes_left t lucky s ≡ leb lucky (s + total ticket t)
unfolding goes_left
goes_left-leb ticket leaf lucky s v h p = ground arith
goes_left-leb ticket (node l e a r) lucky s v h p = ground (arith, total-node ticket l r e a)

-- With right totals, a sum of tickets that fits 64 bits and a lucky ticket above the start, the tree
-- policy draws the winner that the linked-list policy draws from the same tasks in order.
pub pick_node-eq-pick_from :
    (ticket : ℕ → ℕ) (t : Tree) (lucky s : ℕ)
    → IsSummed ticket t
    → s + total ticket t < u64_mod
    → s < lucky
    → pick_node ticket lucky s t ≡ pick_from ticket lucky s (inorder t)
unfolding pick_node
pick_node-eq-pick_from ticket leaf lucky s v h p = unfold pick_from in refl
pick_node-eq-pick_from ticket (node l e a r) lucky s v h p =
    let small = total-node ticket l r e a in
    let left = left_accu-total ticket l v.0 in
    let here : add64 (add64 (left_accu l) (ticket e)) s ≡ s + total ticket l + ticket e =
      omega arith in
    let next : add64 s (add64 (left_accu l) (ticket e)) ≡ s + total ticket l + ticket e =
      omega arith in
    rw
      (
        goes_left-leb ticket l lucky s v.0 (omega arith) p,
        here,
        next,
        pick_from-append ticket lucky s (inorder l) (e ∷ inorder r) (omega arith) p,
        pick_from-cons ticket lucky (s + total ticket l) e (inorder r) (omega arith),
        pick_node-eq-pick_from ticket l lucky s v.0 (omega arith) p,
      )
      (elim (Bool-cases (leb lucky (s + total ticket l + ticket e))) [
        | inl t ↦ rw t
        | inr t ↦ rw (
          t,
          pick_node-eq-pick_from ticket r lucky (s + total ticket l + ticket e) v.2 (omega arith)
              (ground arith),
        )
      ])
