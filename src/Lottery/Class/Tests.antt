-- ===== src/Lottery/Class/Tests.antt =====
-- The scheduling class on a queue of three tasks, and the theorems at such inputs.
use mathlib.Core.Path.{fun_ext}
use linux_kernel_programming.Prelude.{
  ℕ, ◌+◌, ◌*◌, ◌≡◌, refl, Bool, true, false, some, List, [], ◌∷◌, ◌++◌, arith, ◌==◌, if◌then◌else◌,
  length, ◌≤◌,
}
use linux_kernel_programming.Prelude.Sums.{sum, erase}
use linux_kernel_programming.Lottery.Task.{Task, sched_lottery, task_running}
use linux_kernel_programming.Lottery.EventLog.{
  Event, EventLog, lines, lottery_msg, init_log, register_lottery_event,
  register_lottery_event_bounded,
}
use linux_kernel_programming.Lottery.Linked.{pick_from}
use linux_kernel_programming.Lottery.Linked.Draw.{Holds, wins, wins_fair}
use linux_kernel_programming.Lottery.Tree.{Tree, leaf, node, inorder, update_postorder, pick_node}
use linux_kernel_programming.Lottery.Tree.Summed.{IsSummed, update_postorder-IsSummed}
use linux_kernel_programming.Lottery.Tree.Draw.{pick_node-eq-pick_from}
use linux_kernel_programming.Lottery.Class.{
  Kernel, IsKernel, Sched, enqueue_task_lottery, dequeue_task_lottery, pick_next_task_lottery,
  prio_changed_lottery,
}
use linux_kernel_programming.Lottery.Class.Accounting.{
  queue, IsAccounted, enqueue_task_lottery-IsAccounted, dequeue_task_lottery-IsAccounted,
}
use linux_kernel_programming.Lottery.Class.Pick.{pick_next_task_lottery-Holds}
use linux_kernel_programming.Lottery.Class.Priority.{prio_changed_lottery-breaks}

-- An erasing that rebuilds the tree as a list-like one.
abbrev rebuild : List ℕ → Tree
rebuild [] = leaf
rebuild (x ∷ xs) = node leaf x 0 (rebuild xs)

inorder-rebuild : (xs : List ℕ) → inorder (rebuild xs) ≡ xs
inorder-rebuild [] = refl
inorder-rebuild (x ∷ xs) = ground (arith, inorder-rebuild xs)

abbrev kernel_of : Bool → Kernel
kernel_of rb = record {
  config_rb_policy = rb;
  max_event_lines = 100;
  sched_clock = λ n. 10 * n;
  get_random_int = λ n. 12;
  rb_insert_color = λ p t. t;
  rb_erase = λ p t. rebuild (erase p (inorder t));
}

kernel_of-IsKernel : (rb : Bool) → IsKernel (kernel_of rb)
kernel_of-IsKernel rb = record {
  inorder-rb_insert_color = λ p t. refl;
  inorder-rb_erase = λ p t h. inorder-rebuild (erase p (inorder t));
}

-- The tasks 1, 2, 3 with 3, 5, 2 tickets.
abbrev tickets : ℕ → ℕ
tickets p = if p == 1 then 3 else if p == 2 then 5 else if p == 3 then 2 else 7

abbrev task_of : ℕ → Task
task_of p = record {
  policy = sched_lottery;
  state = task_running;
  rt_priority = tickets p;
  ticket = tickets p;
  entry_ticket = tickets p;
  accu_ticket = 0;
}

abbrev tree : Tree
tree = node (node leaf 3 2 leaf) 1 10 (node leaf 2 5 leaf)

abbrev empty_log : EventLog
empty_log = record { lottery_event = []; cursor = 0 }

abbrev state : Sched
state = record {
  tasks = task_of;
  lottery_list = 1 ∷ 2 ∷ 3 ∷ [];
  lottery_rb_root = tree;
  nr_running = 3;
  total_ticket = 10;
  lucky_ticket = 0;
  lucky_ticket2 = 0;
  log = empty_log;
  curr = 1;
  resched = [];
  readings = 0;
  draws = 0;
}

-- A state in which task 2 has a new priority.
abbrev raised : Sched
raised = record state {
  tasks = λ p. if p == 2 then record (task_of 2) { rt_priority = 9 } else task_of p;
}

state-IsAccounted : IsAccounted (kernel_of false) state
state-IsAccounted = record { total = refl; fits = omega arith; same = refl; summed = (omega arith) }

state-IsAccounted_rb : IsAccounted (kernel_of true) state
state-IsAccounted_rb = record {
  total = refl;
  fits = omega arith;
  same = refl;
  summed = (omega arith);
}

pick_walks : pick_from tickets 4 0 (1 ∷ 2 ∷ 3 ∷ []) ≡ some 2
unfolding pick_from
pick_walks = refl

pick_descends : pick_node tickets 6 0 tree ≡ some 2
unfolding pick_node
pick_descends = refl

register_lottery_event_bounded_example :
    (lines (register_lottery_event 1 5 (init_log 0 0) lottery_msg empty_log) ≤ 1)
    × ((new : List Event) × ((register_lottery_event 1 5
            (init_log 0 0)
            lottery_msg
            empty_log).lottery_event
          ≡ [] ++ new)
        × (length new ≤ 1))
register_lottery_event_bounded_example =
    register_lottery_event_bounded 1 5 (init_log 0 0) lottery_msg empty_log (omega arith)

wins_fair_example : wins tickets 0 (1 ∷ 2 ∷ 3 ∷ []) 2 0 10 ≡ 5
wins_fair_example = wins_fair tickets 2 0 (1 ∷ 2 ∷ 3 ∷ []) (omega arith)

update_postorder-IsSummed_example :
    IsSummed tickets (update_postorder tickets (node (node leaf 3 9 leaf) 1 0 leaf))
update_postorder-IsSummed_example =
    update_postorder-IsSummed tickets (node (node leaf 3 9 leaf) 1 0 leaf) (omega arith)

pick_node-eq-pick_from_example : pick_node tickets 6 0 tree ≡ pick_from tickets 6 0 (3 ∷ 1 ∷ 2 ∷ [])
pick_node-eq-pick_from_example =
    pick_node-eq-pick_from tickets tree 6 0 (omega arith) (omega arith) (omega arith)

enqueue_task_lottery-IsAccounted_example :
    let s' = enqueue_task_lottery (kernel_of true) (some 4) state in
    IsAccounted (kernel_of true) s'
    × (s'.total_ticket ≡ 17)
    × ((f : ℕ → ℕ) → sum f (queue (kernel_of true) s') ≡ f 4 + sum f (3 ∷ 1 ∷ 2 ∷ []))
enqueue_task_lottery-IsAccounted_example =
    enqueue_task_lottery-IsAccounted (kernel_of true) (kernel_of-IsKernel true) 4 state
      state-IsAccounted_rb (omega arith)

dequeue_task_lottery-IsAccounted_example :
    let s' = dequeue_task_lottery (kernel_of true) (some 2) state in
    IsAccounted (kernel_of true) s'
    × (s'.total_ticket + 5 ≡ 10)
    × ((f : ℕ → ℕ) → sum f (queue (kernel_of true) s') + f 2 ≡ sum f (3 ∷ 1 ∷ 2 ∷ []))
dequeue_task_lottery-IsAccounted_example =
    dequeue_task_lottery-IsAccounted (kernel_of true) (kernel_of-IsKernel true) 2 state
      state-IsAccounted_rb (omega arith)

pick_next_task_lottery-Holds_example :
    (h : Holds tickets 3 0 (3 ∷ 1 ∷ 2 ∷ [])) × ((pick_next_task_lottery (kernel_of true) state).0
      ≡ some h.holder)
pick_next_task_lottery-Holds_example =
    pick_next_task_lottery-Holds (kernel_of true) state state-IsAccounted_rb (omega arith)

prio_changed_lottery-breaks_example :
    ((prio_changed_lottery (kernel_of false) 2 state).total_ticket ≡ 20)
    × ¬ IsAccounted (kernel_of false) (prio_changed_lottery (kernel_of false) 2 state)
prio_changed_lottery-breaks_example =
    prio_changed_lottery-breaks (kernel_of false) 2 state state-IsAccounted refl refl (omega arith)
      (omega arith)

raised-IsAccounted_rb : IsAccounted (kernel_of true) raised
raised-IsAccounted_rb = record {
  total = refl;
  fits = omega arith;
  same = fun_ext λ p. ground arith;
  summed = (omega arith);
}
