-- ===== src/Probe/Trace.antt =====
-- What the log of the probes holds.
use linux_kernel_programming.Prelude.{
  ℕ, ◌+◌, ◌≡◌, refl, Bool, true, false, Option, none, some, List, [], ◌∷◌, ==_iff, if◌then◌else◌,
  ◌==◌, ◌≢◌, ap, sym, ◌∙◌,
}
use linux_kernel_programming.Prelude.Bytes.{starts_with}
use linux_kernel_programming.Probe.{
  Probe, fair_return, rt_return, enqueue, dequeue, hrtimer_wakeup, nanosleep, timer, cs, tick,
  wakeup, Task, name, is_cyclitest, Line, line_if, task_line, handler, Kernel, Hit, cons_line,
  trace,
}

-- The measuring thread: the first thread of a process with that name after the one that started it.
pub record Measuring (p : Task) : Type 0 where
  pub named : starts_with name p.comm ≡ true
  pub second : p.pid ≡ p.tgid + 1

both : (a b : Bool) → (if a then b else false) ≡ true → (a ≡ true) × (b ≡ true)
both true b h = (refl, h)
both false b h = absurd cc

is_cyclitest-Measuring : (p : Task) → is_cyclitest (some p) ≡ true → Measuring p
unfolding is_cyclitest
is_cyclitest-Measuring p h =
    let (named, second) = both (starts_with name p.comm) (p.pid == p.tgid + 1) h in
    record { named = named; second = (==_iff p.pid (p.tgid + 1)).0 second }

-- A line is one of the timer interrupt, or it names the measuring thread, and no line is one of scheduler_tick.
pub data Genuine (l : Line) : Type 0 where
  of_timer : l.probe ≡ timer → l.pid ≡ none → Genuine l
  of_thread : (p : Task) → Measuring p → l.pid ≡ some p.pid → l.probe ≢ tick → Genuine l

task_line-Genuine :
    (probe : Probe) (t : Option Task) (time : ℕ) (l : Line)
    → probe ≢ tick
    → task_line probe t time ≡ some l
    → (l.probe ≡ probe) × Genuine l
unfolding is_cyclitest
task_line-Genuine probe none time l n h = absurd cc
task_line-Genuine probe (some p) time l n h = by_test (is_cyclitest (some p)) refl h
  where
    by_test :
        (b : Bool)
        → is_cyclitest (some p) ≡ b
        → line_if b (record { probe = probe; pid = some p.pid; time_stamp = time }) ≡ some l
        → (l.probe ≡ probe) × Genuine l
    by_test true e q =
        let w : record { probe = probe; pid = some p.pid; time_stamp = time } ≡ l = cc in
        let w' : probe ≡ l.probe = ap (λ (x : Line). x.probe) w in
        (
          sym w',
          of_thread p (is_cyclitest-Measuring p e) (sym (ap (λ (x : Line). x.pid) w))
              (λ c. n (w' ∙ c)),
        )
    by_test false e q = absurd cc

handler-Genuine :
    (probe : Probe) (t : Option Task) (time : ℕ) (l : Line)
    → handler probe t time ≡ some l
    → (l.probe ≡ probe) × Genuine l
unfolding handler is_cyclitest
handler-Genuine timer t time l h =
    let w : record { probe = timer; pid = none; time_stamp = time } ≡ l = cc in
    (
      sym (ap (λ (x : Line). x.probe) w),
      of_timer (sym (ap (λ (x : Line). x.probe) w)) (sym (ap (λ (x : Line). x.pid) w)),
    )
handler-Genuine tick t time l h = absurd cc
handler-Genuine fair_return t time l h = task_line-Genuine fair_return t time l (λ e. cc) h
handler-Genuine rt_return t time l h = task_line-Genuine rt_return t time l (λ e. cc) h
handler-Genuine enqueue t time l h = task_line-Genuine enqueue t time l (λ e. cc) h
handler-Genuine dequeue t time l h = task_line-Genuine dequeue t time l (λ e. cc) h
handler-Genuine hrtimer_wakeup t time l h = task_line-Genuine hrtimer_wakeup t time l (λ e. cc) h
handler-Genuine nanosleep t time l h = task_line-Genuine nanosleep t time l (λ e. cc) h
handler-Genuine cs t time l h = task_line-Genuine cs t time l (λ e. cc) h
handler-Genuine wakeup t time l h = task_line-Genuine wakeup t time l (λ e. cc) h

-- Each line of a log has a property.
unfoldable pub Each : (Line → Type 0) → List Line → Type 0
Each P [] = Unit
Each P (l ∷ ls) = P l × Each P ls

-- Whatever functions are called, a line of the log is one of a probe that is planted, and it is one of the timer interrupt
-- or names a thread of cyclictest whose pid is one more than that of its process. No line is one of scheduler_tick.
pub trace-Genuine :
    {K : Type 0} (kernel : Kernel K) (k : K) (hs : List Hit)
    → Each (λ l. (kernel.planted l.probe k ≡ true) × Genuine l) (trace kernel k hs)
unfolding trace Each
trace-Genuine kernel k [] = tt
trace-Genuine kernel k (h ∷ hs) =
    by_plant (kernel.planted h.probe k) refl (handler h.probe h.task h.time) refl
      (trace-Genuine kernel k hs)
  where
    P : Line → Type 0
    P l = (kernel.planted l.probe k ≡ true) × Genuine l

    by_plant :
        (b : Bool)
        → kernel.planted h.probe k ≡ b
        → (o : Option Line) → handler h.probe h.task h.time ≡ o
        → Each P (trace kernel k hs)
        → Each P (if b then cons_line o (trace kernel k hs) else trace kernel k hs)
    by_plant true e (some l) q rest =
        let (same, g) = handler-Genuine h.probe h.task h.time l q in
        ((ap (λ x. kernel.planted x k) same ∙ e, g), rest)
    by_plant true e none q rest = rest
    by_plant false e o q rest = rest
