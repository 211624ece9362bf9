-- ===== src/Lottery/Class.antt =====
-- The scheduling class of sched_lottery.c over the run queue's state, with the lottery parts of
-- kernel/sched.c. One definition serves both settings of CONFIG_SCHED_LOTTERY_RB_POLICY.
pub mod Accounting
pub mod Pick
pub mod Priority
mod Tests
use linux_kernel_programming.Prelude.{
  ℕ, ◌+◌, ◌-◌, ◌%◌, ◌<◌, ◌≡◌, Bool, true, false, ◌||◌, Option, none, some, List, [], ◌∷◌, arith,
  ltb, ◌==◌, if◌then◌else◌,
}
use linux_kernel_programming.Prelude.Words.{u64_mod, u32_mod, add64, sub64, add32, sub32}
use linux_kernel_programming.Prelude.Sums.{count, erase}
use linux_kernel_programming.Lottery.Task.{
  Task, Policy, sched_fifo, sched_rr, sched_lottery, TaskState, task_dead, exit_dead, exit_zombie,
}
use linux_kernel_programming.Lottery.EventLog.{
  EventLog, Message, winner, picked, enqueued, dequeued, finished, Action, lottery_msg, lottery_win,
  lottery_enqueue, lottery_dequeue, lottery_task_done, lottery_context_switch,
  register_lottery_event, switched,
}
use linux_kernel_programming.Lottery.Linked.{insert_lottery_task, remove_lottery_task, pick_from}
use linux_kernel_programming.Lottery.Tree.{
  Tree, inorder, insert_lottery_rb_task, remove_lottery_rb_task, pick_node,
}

-- What the class takes from the kernel: the configuration, LOTTERY_MAX_EVENT_LINES, the readings of
-- the clock and of the random generator in the order in which they are taken, and the rbtree.
pub record Kernel : Type 0 where
  pub config_rb_policy : Bool
  pub max_event_lines : ℕ
  pub sched_clock : ℕ → ℕ
  pub get_random_int : ℕ → ℕ
  pub rb_insert_color : ℕ → Tree → Tree
  pub rb_erase : ℕ → Tree → Tree

-- Rebalancing keeps the order of the nodes, and erasing takes out one node.
pub record IsKernel (k : Kernel) : Type 0 where
  pub inorder-rb_insert_color : (p : ℕ) (t : Tree) → inorder (k.rb_insert_color p t) ≡ inorder t
  pub inorder-rb_erase :
      (p : ℕ) (t : Tree) → 0 < count p (inorder t) → inorder (k.rb_erase p t) ≡ erase p (inorder t)

-- The globals of sched_lottery.c, the `lottery_rq` and `curr` of the run queue, and the tasks.
-- `readings` and `draws` count the uses of the clock and of the random generator; `resched` holds
-- the tasks that `resched_task` marked.
pub record Sched : Type 0 where
  pub tasks : ℕ → Task
  pub lottery_list : List ℕ
  pub lottery_rb_root : Tree
  pub nr_running : ℕ
  pub total_ticket : ℕ
  pub lucky_ticket : ℕ
  pub lucky_ticket2 : ℕ
  pub log : EventLog
  pub curr : ℕ
  pub resched : List ℕ
  pub readings : ℕ
  pub draws : ℕ

abbrev pub ticket_of : Sched → ℕ → ℕ
ticket_of s p = (s.tasks p).ticket

abbrev pub entry_ticket_of : Sched → ℕ → ℕ
entry_ticket_of s p = (s.tasks p).entry_ticket

abbrev pub set_task : Sched → ℕ → Task → Sched
set_task s p t = record s { tasks = λ q. if q == p then t else s.tasks q }

-- `resched_task`
abbrev pub resched_task : ℕ → Sched → Sched
resched_task p s = record s { resched = p ∷ s.resched }

abbrev pub is_rt_policy : Policy → Bool
is_rt_policy sched_fifo = true
is_rt_policy sched_rr = true
is_rt_policy sched_lottery = true
is_rt_policy _ = false

abbrev pub is_lottery : Policy → Bool
is_lottery sched_lottery = true
is_lottery _ = false

-- `TASK_DEAD`, `EXIT_DEAD` or `EXIT_ZOMBIE`
abbrev pub is_done : TaskState → Bool
is_done task_dead = true
is_done exit_dead = true
is_done exit_zombie = true
is_done _ = false

module _ (k : Kernel) where
  -- A message whose last argument is the time since the reading `start`, which is read now; the
  -- event is stamped with one more reading.
  unfoldable pub log_timed : ℕ → (ℕ → Message) → Action → Sched → Sched
  unfolding register_lottery_event
  log_timed start message event s = record s {
    log =
        register_lottery_event k.max_event_lines (k.sched_clock (s.readings + 1))
          (message (sub64 (k.sched_clock s.readings) start)) event s.log;
    readings = s.readings + 2;
  }

  -- An event with no time in its message.
  unfoldable pub log_event : Message → Action → Sched → Sched
  unfolding register_lottery_event
  log_event message event s = record s {
    log = register_lottery_event k.max_event_lines (k.sched_clock s.readings) message event s.log;
    readings = s.readings + 1;
  }

  -- The reading of the clock at the start of a function.
  abbrev pub start_clock : Sched → ℕ × Sched
  start_clock s = (k.sched_clock s.readings, record s { readings = s.readings + 1 })

  abbrev pub draw_lucky : Sched → ℕ × Sched
  draw_lucky s = (k.get_random_int s.draws % s.total_ticket + 1, record s { draws = s.draws + 1 })

  -- What both policies do with the task that they found.
  unfoldable pub report_winner : ℕ → ℕ → Option ℕ → Sched → Option ℕ × Sched
  unfolding log_timed
  report_winner start lucky none s = (none, s)
  report_winner start lucky (some t) s =
      (some t, log_timed start (winner t lucky (ticket_of s t) s.total_ticket) lottery_win s)

  unfoldable pub pick_winner_task : Sched → Option ℕ × Sched
  pick_winner_task s =
      let (start, s₁) = start_clock s in
      if s.total_ticket == 0
      then (none, s₁)
      else let (lucky, s₂) = draw_lucky s₁ in
        report_winner start lucky (pick_from (ticket_of s) lucky 0 s.lottery_list)
          (record s₂ { lucky_ticket = lucky })

  unfoldable pub pick_winner_rb_task : Sched → Option ℕ × Sched
  pick_winner_rb_task s =
      let (start, s₁) = start_clock s in
      if s.total_ticket == 0
      then (none, s₁)
      else let (lucky, s₂) = draw_lucky s₁ in
        report_winner start lucky (pick_node (entry_ticket_of s) lucky 0 s.lottery_rb_root)
          (record s₂ { lucky_ticket2 = lucky })

  unfoldable pub who_is_winner : Sched → Option ℕ × Sched
  who_is_winner s =
      if k.config_rb_policy
      then pick_winner_rb_task (record s { lucky_ticket2 = 0 })
      else pick_winner_task (record s { lucky_ticket = 0 })

  -- The winner of a tick, against the task `p` that the tick is for.
  unfoldable pub preempt_by : ℕ → Option ℕ × Sched → Sched
  preempt_by p (none, s) = s
  preempt_by p (some t, s) = if p == t then s else resched_task t s

  unfoldable pub check_preempt_curr_lottery : ℕ → Sched → Sched
  check_preempt_curr_lottery p s =
      if is_lottery (s.tasks s.curr).policy
      then preempt_by p (who_is_winner s)
      else resched_task s.curr s

  unfoldable pub task_tick_lottery : ℕ → Sched → Sched
  task_tick_lottery p s = check_preempt_curr_lottery p s

  -- The message names the lucky ticket of the other policy, as the code does.
  unfoldable pub report_pick : Option ℕ × Sched → Option ℕ × Sched
  unfolding log_event
  report_pick (none, s) = (none, s)
  report_pick (some t, s) =
      let lucky = if k.config_rb_policy then s.lucky_ticket else s.lucky_ticket2 in
      (some t, log_event (picked s.curr (ticket_of s s.curr) t (ticket_of s t) lucky) lottery_msg s)

  unfoldable pub pick_next_task_lottery : Sched → Option ℕ × Sched
  pick_next_task_lottery s =
      if s.total_ticket == 0 then (none, s) else report_pick (who_is_winner s)

  -- The insertion by policy.
  unfoldable pub insert_task : ℕ → Sched → Sched
  unfolding insert_lottery_rb_task insert_lottery_task
  insert_task p s =
      if k.config_rb_policy
      then record s {
        lottery_rb_root =
            insert_lottery_rb_task k.rb_insert_color (entry_ticket_of s) p (s.tasks p).accu_ticket
              s.lottery_rb_root;
      }
      else record s { lottery_list = insert_lottery_task p s.lottery_list }

  -- The removal by policy.
  unfoldable pub remove_task : ℕ → Sched → Sched
  unfolding remove_lottery_rb_task remove_lottery_task
  remove_task p s =
      if k.config_rb_policy
      then record s {
        lottery_rb_root = remove_lottery_rb_task k.rb_erase (entry_ticket_of s) p s.lottery_rb_root;
      }
      else record s { lottery_list = remove_lottery_task p s.lottery_list }

  -- `none` is a NULL task, for which the code prints an alert only.
  unfoldable pub enqueue_task_lottery : Option ℕ → Sched → Sched
  unfolding log_timed
  enqueue_task_lottery none s = let (start, s₁) = start_clock s in s₁
  enqueue_task_lottery (some p) s =
      let (start, s₁) = start_clock s in
      let s₂ = insert_task p s₁ in
      let s₃ = record s₂ {
        total_ticket = add64 s₂.total_ticket (ticket_of s₂ p);
        nr_running = add32 s₂.nr_running 1;
      } in
      log_timed start (enqueued p (ticket_of s₃ p) s₃.total_ticket) lottery_enqueue s₃

  -- A finished task is reported once more.
  unfoldable pub report_done : ℕ → Sched → Sched
  unfolding log_event
  report_done p s =
      if is_done (s.tasks p).state
      then log_event (finished p (ticket_of s p)) lottery_task_done s
      else s

  unfoldable pub dequeue_task_lottery : Option ℕ → Sched → Sched
  unfolding log_timed
  dequeue_task_lottery none s = let (start, s₁) = start_clock s in s₁
  dequeue_task_lottery (some p) s =
      let (start, s₁) = start_clock s in
      let s₂ = remove_task p s₁ in
      let s₃ = record s₂ {
        total_ticket = sub64 s₂.total_ticket (ticket_of s₂ p);
        nr_running = sub32 s₂.nr_running 1;
      } in
      report_done p
        (log_timed start (dequeued p (ticket_of s₃ p) s₃.total_ticket) lottery_dequeue s₃)

  -- The event of `schedule` (kernel/sched.c), when a lottery task leaves or enters the processor. `none` stands for the -1 that is printed for a task of another class.
  unfoldable pub log_context_switch : ℕ → ℕ → Sched → Sched
  unfolding log_event
  log_context_switch prev next s =
      let a = is_lottery (s.tasks prev).policy in
      let b = is_lottery (s.tasks next).policy in
      if a || b
      then log_event
          (switched prev (if a then some (ticket_of s prev) else none) next
            (if b then some (ticket_of s next) else none))
          lottery_context_switch s
      else s

-- `int` to `unsigned long long`: the sign is extended.
abbrev pub sign_extend : ℕ → ℕ
sign_extend w = if ltb w 0x8000_0000 then w else w + (u64_mod - u32_mod)

-- The loop of prio_changed_lottery over the list: the total grows by every ticket of the queue, and
-- by `diff` at `p`.
unfoldable pub recount : (ℕ → ℕ) → ℕ → ℕ → List ℕ → ℕ → ℕ
recount ticket p diff [] total = total
recount ticket p diff (t ∷ ts) total =
    let total' = add64 total (ticket t) in
    recount ticket p diff ts (if p == t then add64 total' (sign_extend diff) else total')

unfoldable pub prio_changed_lottery : Kernel → ℕ → Sched → Sched
unfolding recount
prio_changed_lottery k p s =
    let t = s.tasks p in
    let diff = sub64 t.rt_priority t.ticket % u32_mod in
    let s₁ = set_task s p (record t { ticket = t.rt_priority }) in
    if k.config_rb_policy
    then s₁
    else record s₁ { total_ticket = recount (ticket_of s₁) p diff s₁.lottery_list s₁.total_ticket }

-- The lottery part of `__sched_setscheduler` (kernel/sched.c): both copies of the tickets are set.
unfoldable pub set_lottery_params : ℕ → ℕ → Sched → Sched
set_lottery_params p sched_priority s =
    set_task s p (record (s.tasks p) { ticket = sched_priority; entry_ticket = sched_priority })
