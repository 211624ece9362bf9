-- ===== src/Lottery/Class/Priority.antt =====
-- What a change of priority does to the books.
use mathlib.Core.Path.{fun_ext}
use linux_kernel_programming.Prelude.{
  ℕ, ◌+◌, ◌*◌, ◌%◌, ◌<◌, ◌≡◌, ◌≢◌, ◌∙◌, ap, sym, List, [], ◌∷◌, Bool-cases, inl, inr, arith, ◌==◌,
  false, true, ==_iff,
}
use linux_kernel_programming.Prelude.Words.{u64_mod, u32_mod, add64, sub64}
use linux_kernel_programming.Prelude.Sums.{sum, count}
use linux_kernel_programming.Lottery.Task.{Task}
use linux_kernel_programming.Lottery.Class.{
  Kernel, Sched, set_task, ticket_of, entry_ticket_of, recount, sign_extend, prio_changed_lottery,
}
use linux_kernel_programming.Lottery.Class.Accounting.{IsAccounted, queue}

-- The loop of prio_changed_lottery adds every ticket of the list, and `diff` once for each place of
-- the task.
recount-sum :
    (ticket : ℕ → ℕ) (p diff : ℕ) (queue : List ℕ) (total : ℕ)
    → total < u64_mod
    → recount ticket p diff queue total
      ≡ add64 total (sum ticket queue + count p queue * sign_extend diff)
unfolding recount
recount-sum ticket p diff [] total h = omega arith
recount-sum ticket p diff (t ∷ ts) total h = elim (Bool-cases (p == t)) [
  | inl e ↦
      let e' : p ≡ t = ground arith in
      rw
        (
          e,
          (==_iff t p).1 (sym e'),
          recount-sum ticket p diff ts (add64 (add64 total (ticket t)) (sign_extend diff))
              (omega arith),
        )
        (omega arith)
  | inr e ↦
      let e' : (t == p) ≡ false = ground arith in
      rw (e, e', recount-sum ticket p diff ts (add64 total (ticket t)) (omega arith)) (omega arith)
]

==_refl : (p : ℕ) → (p == p) ≡ true
==_refl p = ground arith

-- The tasks after `p->ticket = p->rt_priority`, and `diff`.
abbrev pub repriced : ℕ → Sched → Sched
repriced p s = set_task s p (record (s.tasks p) { ticket = (s.tasks p).rt_priority })

abbrev pub diff_of : ℕ → Sched → ℕ
diff_of p s = sub64 (s.tasks p).rt_priority (s.tasks p).ticket % u32_mod

-- Writing the tickets that a task has already changes no ticket.
ticket_of-repriced :
    (p : ℕ) (s : Sched)
    → (s.tasks p).rt_priority ≡ ticket_of s p
    → ticket_of (repriced p s) ≡ ticket_of s
ticket_of-repriced p s h = fun_ext λ q. elim (Bool-cases (q == p)) [
  | inl e ↦ let e' : q ≡ p = ground arith in rw (e, ticket_of, e') h
  | inr e ↦ rw (e, ticket_of)
]

-- Under the linked-list policy the total grows by the new tickets of the whole queue, and by the
-- difference once for each place of the task in the queue, modulo 2 ^ 64. The queue stays.
pub prio_changed_lottery-total :
    (k : Kernel) (p : ℕ) (s : Sched)
    → k.config_rb_policy ≡ false
    → s.total_ticket < u64_mod
    → let s' = prio_changed_lottery k p s in
      (s'.total_ticket
        ≡ add64 s.total_ticket (
            sum (ticket_of s') s.lottery_list + count p s.lottery_list * sign_extend (diff_of p s)))
      × (queue k s' ≡ s.lottery_list)
      × (ticket_of s' ≡ ticket_of (repriced p s))
unfolding prio_changed_lottery
prio_changed_lottery-total k p s list fits = (
  simp list
      (recount-sum (ticket_of (repriced p s)) p (diff_of p s) s.lottery_list s.total_ticket fits),
  simp list,
  simp list,
)

module _ (k : Kernel) (p : ℕ) (s : Sched) (v : IsAccounted k s) where
  -- Under the linked-list policy, when the priority given to a task equals the tickets that it has already, so that no
  -- ticket changes, prio_changed_lottery doubles the total, and the books, in order before, are not in order after it. A
  -- ticket is queued, and twice the total is below 2 ^ 64.
  pub prio_changed_lottery-breaks :
      k.config_rb_policy ≡ false
      → (s.tasks p).rt_priority ≡ ticket_of s p
      → 0 < s.total_ticket
      → s.total_ticket + s.total_ticket < u64_mod
      → ((prio_changed_lottery k p s).total_ticket ≡ s.total_ticket + s.total_ticket)
        × ¬ IsAccounted k (prio_changed_lottery k p s)
  prio_changed_lottery-breaks list same some_ticket small =
      let s' = prio_changed_lottery k p s in
      let (total', queue', tickets') = prio_changed_lottery-total k p s list v.fits in
      let tickets = tickets' ∙ ticket_of-repriced p s same in
      let total : s.total_ticket ≡ sum (ticket_of s) s.lottery_list = simp list at v.total in
      let sum' : sum (ticket_of s') s.lottery_list ≡ s.total_ticket = rw tickets (sym total) in
      let zero_diff : diff_of p s ≡ 0 = rw same (omega arith) in
      let doubled : s'.total_ticket ≡ s.total_ticket + s.total_ticket =
        total' ∙ (rw (sum', zero_diff) (omega (arith, v.fits))) in
      (
        doubled,
        λ v'.
            let again : s'.total_ticket ≡ sum (ticket_of s') s.lottery_list =
              rw queue' at v'.total in
            omega (arith, again, sum', doubled),
      )

  -- Under the tree policy a new priority reaches one copy of the task's tickets only, and the
  -- total not at all. So the books break.
  pub prio_changed_lottery-stale :
      k.config_rb_policy ≡ true
      → (s.tasks p).rt_priority ≢ ticket_of s p
      → let s' = prio_changed_lottery k p s in
        (s'.total_ticket ≡ s.total_ticket)
        × (ticket_of s' p ≡ (s.tasks p).rt_priority)
        × (entry_ticket_of s' p ≡ ticket_of s p)
        × ¬ IsAccounted k s'
  prio_changed_lottery-stale rb other =
      let b = ap (λ (f : ℕ → Task). (f p).ticket) tasks' ∙ own_ticket in
      let c =
        ap (λ (f : ℕ → Task). (f p).entry_ticket) tasks'
        ∙ own_entry
        ∙ ap (λ (f : ℕ → ℕ). f p) v.same in
      (
        unfold prio_changed_lottery in simp rb,
        b,
        c,
        λ v'. other (sym b ∙ sym (ap (λ (f : ℕ → ℕ). f p) v'.same) ∙ c),
      )
    where
      tasks' : (prio_changed_lottery k p s).tasks ≡ (repriced p s).tasks
      tasks' = unfold prio_changed_lottery in simp rb

      own_ticket : ((repriced p s).tasks p).ticket ≡ (s.tasks p).rt_priority
      own_ticket = rw (==_refl p)

      own_entry : ((repriced p s).tasks p).entry_ticket ≡ (s.tasks p).entry_ticket
      own_entry = rw (==_refl p)
