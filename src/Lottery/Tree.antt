-- ===== src/Lottery/Tree.antt =====
-- The red-black tree policy of sched_lottery.c (CONFIG_SCHED_LOTTERY_RB_POLICY).
-- A node is the pid of its task and the `accu_ticket` of its lottery_task; colours belong to the
-- kernel's rbtree, which is a parameter (`Class`). `ticket p` is the `ticket` of p's lottery_task.
pub mod Summed
pub mod Draw
pub mod Order
use linux_kernel_programming.Prelude.{
  ℕ, Bool, false, Option, none, some, List, [], ◌∷◌, ◌++◌, leb, ltb, if◌then◌else◌,
}
use linux_kernel_programming.Prelude.Words.{add64}

pub data Tree : Type 0 where
  leaf : Tree
  node : (rb_left : Tree) (entry : ℕ) (accu_ticket : ℕ) (rb_right : Tree) → Tree

-- The tasks from left to right.
abbrev pub inorder : Tree → List ℕ
inorder leaf = []
inorder (node l e a r) = inorder l ++ e ∷ inorder r

-- The new `accu_ticket` of a node, by which children it has.
unfoldable pub subtotal : Tree → Tree → ℕ → ℕ
subtotal (node _ _ left _) (node _ _ right _) own = add64 (add64 left right) own
subtotal (node _ _ left _) leaf own = add64 left own
subtotal leaf (node _ _ right _) own = add64 right own
subtotal leaf leaf own = own

-- The children first, then the node from the children's new totals.
unfoldable pub update_postorder : (ℕ → ℕ) → Tree → Tree
unfolding subtotal
update_postorder ticket leaf = leaf
update_postorder ticket (node l e a r) =
    let l' = update_postorder ticket l in
    let r' = update_postorder ticket r in node l' e (subtotal l' r' (ticket e)) r'

unfoldable pub recalc_accu_lottery : (ℕ → ℕ) → Tree → Tree
unfolding update_postorder
recalc_accu_lottery ticket root = update_postorder ticket root

-- The descent of insert_lottery_rb_task and `rb_link_node`: `p` becomes a leaf, right of its equals.
unfoldable pub link_task : (ℕ → ℕ) → ℕ → ℕ → Tree → Tree
link_task ticket p accu leaf = node leaf p accu leaf
link_task ticket p accu (node l e a r) =
    let left = node (link_task ticket p accu l) e a r in
    let right = node l e a (link_task ticket p accu r) in
    if ltb (ticket p) (ticket e) then left else right

module _ (rb_insert_color : ℕ → Tree → Tree) where
  unfoldable pub insert_lottery_rb_task : (ℕ → ℕ) → ℕ → ℕ → Tree → Tree
  unfolding link_task recalc_accu_lottery
  insert_lottery_rb_task ticket p accu root =
      recalc_accu_lottery ticket (rb_insert_color p (link_task ticket p accu root))

module _ (rb_erase : ℕ → Tree → Tree) where
  unfoldable pub remove_lottery_rb_task : (ℕ → ℕ) → ℕ → Tree → Tree
  unfolding recalc_accu_lottery
  remove_lottery_rb_task ticket p root = recalc_accu_lottery ticket (rb_erase p root)

-- What the left child adds to `total_so_far`.
unfoldable pub left_accu : Tree → ℕ
left_accu leaf = 0
left_accu (node _ _ a _) = a

-- `lucky_ticket2 <= left->accu_ticket + left_total`, with a left child.
unfoldable pub goes_left : Tree → ℕ → ℕ → Bool
goes_left leaf lucky left_total = false
goes_left (node _ _ a _) lucky left_total = leb lucky (add64 a left_total)

-- The loop of pick_winner_rb_task. At an empty right child it ends with NULL, as at a leaf.
unfoldable pub pick_node : (ℕ → ℕ) → ℕ → ℕ → Tree → Option ℕ
unfolding left_accu goes_left
pick_node ticket lucky left_total leaf = none
pick_node ticket lucky left_total (node l e a r) =
    let left = pick_node ticket lucky left_total l in
    let total_so_far = add64 (left_accu l) (ticket e) in
    let right = pick_node ticket lucky (add64 left_total total_so_far) r in
    if goes_left l lucky left_total
    then left
    else if leb lucky (add64 total_so_far left_total)
    then some e
    else right
