-- ===== src/Lottery/Linked.antt =====
-- The linked-list policy of sched_lottery.c (CONFIG_SCHED_LOTTERY_RB_POLICY not set).
-- A task is known by its pid, so the run queue is a list of pids, head first.
pub mod Draw
use linux_kernel_programming.Prelude.{
  ℕ, Option, none, some, List, [], ◌∷◌, ◌++◌, leb, if◌then◌else◌,
}
use linux_kernel_programming.Prelude.Words.{add64}
use linux_kernel_programming.Prelude.Sums.{erase}

-- `list_add_tail`. The scheduler calls it with a task whose node is not linked; to link a node twice corrupts the list of
-- the kernel, and is not modelled.
unfoldable pub insert_lottery_task : ℕ → List ℕ → List ℕ
insert_lottery_task p queue = queue ++ p ∷ []

-- `list_del` of the node of `p`
unfoldable pub remove_lottery_task : ℕ → List ℕ → List ℕ
remove_lottery_task p queue = erase p queue

-- The loop of pick_winner_task: the first task at which the running total reaches the lucky ticket.
unfoldable pub pick_from : (ℕ → ℕ) → ℕ → ℕ → List ℕ → Option ℕ
pick_from ticket lucky total_so_far [] = none
pick_from ticket lucky total_so_far (t ∷ ts) =
    let total_so_far' = add64 total_so_far (ticket t) in
    let rest = pick_from ticket lucky total_so_far' ts in
    if leb lucky total_so_far' then some t else rest
