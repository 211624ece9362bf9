-- ===== src/Lottery/Task.antt =====
-- What the lottery class reads and writes of `struct task_struct`.
use linux_kernel_programming.Prelude.{ℕ}

-- `p->state`, as far as dequeue_task_lottery tells the states apart.
pub data TaskState : Type 0 where
  task_running task_sleeping task_dead exit_dead exit_zombie : TaskState

-- `p->policy`.
pub data Policy : Type 0 where
  sched_normal sched_fifo sched_rr sched_lottery : Policy

-- `entry_ticket` and `accu_ticket` are the fields `ticket` and `accu_ticket` of the embedded
-- `struct lottery_task`.
pub record Task : Type 0 where
  pub policy : Policy
  pub state : TaskState
  pub rt_priority : ℕ
  pub ticket : ℕ
  pub entry_ticket : ℕ
  pub accu_ticket : ℕ
