-- ===== src/Lottery/Class/Accounting.antt =====
-- The bookkeeping of tickets: `total_ticket` against the queue, through enqueue and dequeue.
use linux_kernel_programming.Prelude.{
  ℕ, ◌+◌, ◌<◌, ◌≡◌, ap, List, [], ◌∷◌, some, arith, if◌then◌else◌, Bool-cases, inl, inr,
}
use linux_kernel_programming.Prelude.Words.{u64_mod, sub64}
use linux_kernel_programming.Prelude.Sums.{sum, sum-append, sum-erase, count}
use linux_kernel_programming.Lottery.Tree.{
  Tree, inorder, link_task, recalc_accu_lottery, insert_lottery_rb_task, remove_lottery_rb_task,
}
use linux_kernel_programming.Lottery.Tree.Summed.{
  IsSummed, inorder-update_postorder, update_postorder-IsSummed, sum-link_task,
}
use linux_kernel_programming.Lottery.Linked.{insert_lottery_task, remove_lottery_task}
use linux_kernel_programming.Lottery.Class.{
  Kernel, IsKernel, Sched, ticket_of, entry_ticket_of, insert_task, remove_task,
  enqueue_task_lottery, dequeue_task_lottery, report_done,
}

-- The tasks that are queued, in the order in which a draw passes them.
abbrev pub queue : Kernel → Sched → List ℕ
queue k s = if k.config_rb_policy then inorder s.lottery_rb_root else s.lottery_list

-- `total_ticket` is the sum over the queue, below 2 ^ 64; the two copies of a task's tickets agree;
-- the accumulated totals of the tree are right.
pub record IsAccounted (k : Kernel) (s : Sched) : Type 0 where
  pub total : s.total_ticket ≡ sum (ticket_of s) (queue k s)
  pub fits : s.total_ticket < u64_mod
  pub same : (λ p. (s.tasks p).entry_ticket) ≡ ticket_of s
  pub summed : IsSummed (ticket_of s) s.lottery_rb_root

module _ (k : Kernel) (kernel : IsKernel k) (f : ℕ → ℕ) (p : ℕ) (s : Sched) where
  -- An insertion adds the task once to the queue.
  pub sum-insert_task : sum f (queue k (insert_task k p s)) ≡ f p + sum f (queue k s)
  unfolding insert_task insert_lottery_task insert_lottery_rb_task recalc_accu_lottery
  sum-insert_task = elim (Bool-cases k.config_rb_policy) [
    | inl e ↦
        rw (e, inorder-update_postorder, kernel.inorder-rb_insert_color)
          (sum-link_task f (entry_ticket_of s) p (s.tasks p).accu_ticket s.lottery_rb_root)
    | inr e ↦ rw e (omega (arith, sum-append f s.lottery_list (p ∷ [])))
  ]

  -- A removal takes it out once.
  pub sum-remove_task :
      0 < count p (queue k s) → sum f (queue k (remove_task k p s)) + f p ≡ sum f (queue k s)
  unfolding remove_task remove_lottery_task remove_lottery_rb_task recalc_accu_lottery
  sum-remove_task h = elim (Bool-cases k.config_rb_policy) [
    | inl e ↦
        rw (e, inorder-update_postorder, kernel.inorder-rb_erase p s.lottery_rb_root (rw e at h))
          (sum-erase f p (inorder s.lottery_rb_root) (rw e at h))
    | inr e ↦ rw e (sum-erase f p s.lottery_list (rw e at h))
  ]

-- After a change of the tree by policy the accumulated totals are right, if all tickets fit.
module _ (k : Kernel) (kernel : IsKernel k) (p : ℕ) (s : Sched) (v : IsAccounted k s) where
  IsSummed-by :
      (t : Tree)
      → sum (ticket_of s) (inorder t) < u64_mod
      → IsSummed (ticket_of s) (recalc_accu_lottery (entry_ticket_of s) t)
  unfolding recalc_accu_lottery
  IsSummed-by t h = rw v.same (update_postorder-IsSummed (ticket_of s) t h)

  IsSummed-insert_task :
      s.total_ticket + ticket_of s p < u64_mod
      → IsSummed (ticket_of s) (insert_task k p s).lottery_rb_root
  unfolding insert_task insert_lottery_rb_task
  IsSummed-insert_task h = elim (Bool-cases k.config_rb_policy) [
    | inl e ↦
        let added =
          sum-link_task (ticket_of s) (entry_ticket_of s) p (s.tasks p).accu_ticket
            s.lottery_rb_root in
        let kept = ap (sum (ticket_of s)) (
          kernel.inorder-rb_insert_color p
            (link_task (entry_ticket_of s) p (s.tasks p).accu_ticket s.lottery_rb_root)) in
        let total : s.total_ticket ≡ sum (ticket_of s) (inorder s.lottery_rb_root) =
          rw e at v.total in
        rw e (IsSummed-by _ (omega (arith, added, kept, total)))
    | inr e ↦ rw e v.summed
  ]

  IsSummed-remove_task :
      0 < count p (queue k s) → IsSummed (ticket_of s) (remove_task k p s).lottery_rb_root
  unfolding remove_task remove_lottery_rb_task
  IsSummed-remove_task h = elim (Bool-cases k.config_rb_policy) [
    | inl e ↦
        let there : 0 < count p (inorder s.lottery_rb_root) = rw e at h in
        let gone = sum-erase (ticket_of s) p (inorder s.lottery_rb_root) there in
        let kept = ap (sum (ticket_of s)) (kernel.inorder-rb_erase p s.lottery_rb_root there) in
        let total : s.total_ticket ≡ sum (ticket_of s) (inorder s.lottery_rb_root) =
          rw e at v.total in
        rw e (IsSummed-by _ (omega (arith, gone, kept, total, v.fits)))
    | inr e ↦ rw e v.summed
  ]

-- The parts of the state that an insertion or a removal leaves alone.
record SameBooks (s s' : Sched) : Type 0 where
  tasks : s'.tasks ≡ s.tasks
  total_ticket : s'.total_ticket ≡ s.total_ticket
  nr_running : s'.nr_running ≡ s.nr_running

insert_task-SameBooks : (k : Kernel) (p : ℕ) (s : Sched) → SameBooks s (insert_task k p s)
unfolding insert_task
insert_task-SameBooks k p s = ground arith

remove_task-SameBooks : (k : Kernel) (p : ℕ) (s : Sched) → SameBooks s (remove_task k p s)
unfolding remove_task
remove_task-SameBooks k p s = ground arith

-- What the books are about is the same in two states.
record SameQueue (s s' : Sched) : Type 0 where
  tasks : s'.tasks ≡ s.tasks
  lottery_list : s'.lottery_list ≡ s.lottery_list
  lottery_rb_root : s'.lottery_rb_root ≡ s.lottery_rb_root
  total_ticket : s'.total_ticket ≡ s.total_ticket

report_done-SameQueue : (k : Kernel) (p : ℕ) (s : Sched) → SameQueue s (report_done k p s)
unfolding report_done
report_done-SameQueue k p s = ground arith

IsAccounted-SameQueue :
    (k : Kernel) (s s' : Sched) → SameQueue s s' → IsAccounted k s → IsAccounted k s'
IsAccounted-SameQueue k s s' q v = record {
  total = rw (q.tasks, q.lottery_list, q.lottery_rb_root, q.total_ticket) v.total;
  fits = rw q.total_ticket v.fits;
  same = rw q.tasks v.same;
  summed = rw (q.tasks, q.lottery_rb_root) v.summed;
}

module _ (k : Kernel) (kernel : IsKernel k) (p : ℕ) (s : Sched) (v : IsAccounted k s) where
  -- Where the tickets of the queue and of `p` fit 64 bits, enqueue keeps the books, adds the tickets
  -- of `p` to the total and puts `p` into the queue once.
  pub enqueue_task_lottery-IsAccounted :
      s.total_ticket + ticket_of s p < u64_mod
      → let s' = enqueue_task_lottery k (some p) s in
        IsAccounted k s'
        × (s'.total_ticket ≡ s.total_ticket + ticket_of s p)
        × ((f : ℕ → ℕ) → sum f (queue k s') ≡ f p + sum f (queue k s))
  unfolding enqueue_task_lottery
  enqueue_task_lottery-IsAccounted h =
      let s₁ : Sched = record s { readings = s.readings + 1 } in
      let v₁ : IsAccounted k s₁ = record {
        total = v.total;
        fits = v.fits;
        same = v.same;
        summed = v.summed;
      } in
      let b = insert_task-SameBooks k p s₁ in
      let added = sum-insert_task k kernel (ticket_of s) p s₁ in
      (
        record {
          total = rw (b.tasks, b.total_ticket) (omega (arith, added, v.total));
          fits = rw (b.tasks, b.total_ticket) (omega arith);
          same = rw b.tasks v.same;
          summed = rw b.tasks (IsSummed-insert_task k kernel p s₁ v₁ h);
        },
        rw (b.tasks, b.total_ticket) (omega arith),
        λ f. sum-insert_task k kernel f p s₁,
      )

  -- dequeue of a queued task keeps the books, takes its tickets off the total and takes it out of
  -- the queue once.
  pub dequeue_task_lottery-IsAccounted :
      0 < count p (queue k s)
      → let s' = dequeue_task_lottery k (some p) s in
        IsAccounted k s'
        × (s'.total_ticket + ticket_of s p ≡ s.total_ticket)
        × ((f : ℕ → ℕ) → sum f (queue k s') + f p ≡ sum f (queue k s))
  unfolding dequeue_task_lottery
  dequeue_task_lottery-IsAccounted h =
      let s₁ : Sched = record s { readings = s.readings + 1 } in
      let v₁ : IsAccounted k s₁ = record {
        total = v.total;
        fits = v.fits;
        same = v.same;
        summed = v.summed;
      } in
      let s₂ : Sched = record (remove_task k p s₁) {
        total_ticket = sub64 (remove_task k p s₁).total_ticket (ticket_of (remove_task k p s₁) p);
      } in
      let b = remove_task-SameBooks k p s₁ in
      let gone = sum-remove_task k kernel (ticket_of s) p s₁ h in
      let v₂ : IsAccounted k s₂ = record {
        total = rw (b.tasks, b.total_ticket) (omega (arith, gone, v.total, v.fits));
        fits = rw (b.tasks, b.total_ticket) (omega arith);
        same = rw b.tasks v.same;
        summed = rw b.tasks (IsSummed-remove_task k kernel p s₁ v₁ h);
      } in
      let q = report_done-SameQueue k p _ in
      (
        IsAccounted-SameQueue k _ _ q
            (record { total = v₂.total; fits = v₂.fits; same = v₂.same; summed = v₂.summed }),
        rw (q.total_ticket, b.tasks, b.total_ticket) (omega (arith, gone, v.total, v.fits)),
        λ f. rw (q.lottery_list, q.lottery_rb_root) (sum-remove_task k kernel f p s₁ h),
      )
