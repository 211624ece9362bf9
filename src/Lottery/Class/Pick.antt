-- ===== src/Lottery/Class/Pick.antt =====
-- Who runs next.
use linux_kernel_programming.Prelude.{
  ℕ, ◌+◌, ◌%◌, ◌<◌, ◌≡◌, ◌∙◌, refl, Option, none, some, Bool-cases, inl, inr, arith, ◌==◌, false,
}
use linux_kernel_programming.Lottery.Linked.{pick_from}
use linux_kernel_programming.Lottery.Linked.Draw.{Holds, pick_from-Holds}
use linux_kernel_programming.Lottery.Tree.{pick_node}
use linux_kernel_programming.Lottery.Tree.Draw.{pick_node-eq-pick_from}
use linux_kernel_programming.Lottery.Class.{
  Kernel, Sched, ticket_of, report_winner, report_pick, pick_winner_task, pick_winner_rb_task,
  who_is_winner, pick_next_task_lottery,
}
use linux_kernel_programming.Lottery.Class.Accounting.{IsAccounted, queue}

module _ (k : Kernel) where
  report_winner-0 :
      (start lucky : ℕ) (o : Option ℕ) (s : Sched) → (report_winner k start lucky o s).0 ≡ o
  unfolding report_winner
  report_winner-0 start lucky none s = refl
  report_winner-0 start lucky (some t) s = refl

  report_pick-0 : (r : Option ℕ × Sched) → (report_pick k r).0 ≡ r.0
  unfolding report_pick
  report_pick-0 (none, s) = refl
  report_pick-0 (some t, s) = refl

  -- The lucky ticket that the next draw takes.
  abbrev pub lucky_of : Sched → ℕ
  lucky_of s = k.get_random_int s.draws % s.total_ticket + 1

  pick_winner_task-0 :
      (s : Sched)
      → 0 < s.total_ticket
      → (pick_winner_task k s).0 ≡ pick_from (ticket_of s) (lucky_of s) 0 s.lottery_list
  unfolding pick_winner_task
  pick_winner_task-0 s h =
      let e : (s.total_ticket == 0) ≡ false = ground arith in rw (e, report_winner-0)

  pick_winner_rb_task-0 :
      (s : Sched)
      → IsAccounted k s
      → 0 < s.total_ticket
      → (pick_winner_rb_task k s).0 ≡ pick_node (ticket_of s) (lucky_of s) 0 s.lottery_rb_root
  unfolding pick_winner_rb_task
  pick_winner_rb_task-0 s v h =
      let e : (s.total_ticket == 0) ≡ false = ground arith in rw (e, report_winner-0, v.same)

  -- Both policies draw the winner of the walk over the queue.
  who_is_winner-0 :
      (s : Sched)
      → IsAccounted k s
      → 0 < s.total_ticket
      → (who_is_winner k s).0 ≡ pick_from (ticket_of s) (lucky_of s) 0 (queue k s)
  unfolding who_is_winner
  who_is_winner-0 s v h = elim (Bool-cases k.config_rb_policy) [
    | inl e ↦
        let total : s.total_ticket ≡ _ = rw e at v.total in
        let v' : IsAccounted k (record s { lucky_ticket2 = 0 }) = record {
          total = v.total;
          fits = v.fits;
          same = v.same;
          summed = v.summed;
        } in
        simp e (
          pick_winner_rb_task-0 (record s { lucky_ticket2 = 0 }) v' h
          ∙ pick_node-eq-pick_from (ticket_of s) s.lottery_rb_root (lucky_of s) 0 v.summed
              (omega (arith, total, v.fits)) (omega arith))
    | inr e ↦ simp e (pick_winner_task-0 (record s { lucky_ticket = 0 }) h)
  ]

  -- With the books in order and a ticket in the queue, both policies pick a task, and it is the
  -- queued task whose range of tickets holds the lucky ticket.
  pub pick_next_task_lottery-Holds :
      (s : Sched)
      → IsAccounted k s
      → 0 < s.total_ticket
      → (h : Holds (ticket_of s) (lucky_of s) 0 (queue k s)) × ((pick_next_task_lottery k s).0
          ≡ some h.holder)
  unfolding pick_next_task_lottery
  pick_next_task_lottery-Holds s v h =
      let e : (s.total_ticket == 0) ≡ false = ground arith in
      let (r, found) =
        pick_from-Holds (ticket_of s) (lucky_of s) 0 (queue k s) (omega (arith, v.total, v.fits))
          (omega arith) (omega (arith, v.total)) in
      (r, rw (e, report_pick-0) (who_is_winner-0 s v h ∙ found))
