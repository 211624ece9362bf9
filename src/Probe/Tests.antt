-- ===== src/Probe/Tests.antt =====
-- The probe module with a kernel that grants every registration.
use linux_kernel_programming.Prelude.{
  ℕ, ◌≡◌, refl, sym, ap, ◌∙◌, Bool, true, false, Bool-cases, inl, inr, none, some, List, [], ◌∷◌,
  ◌==◌, ==_iff, if◌then◌else◌, if_true,
}
use linux_kernel_programming.Prelude.Int.{ℤ, pos}
use linux_kernel_programming.Probe.{
  Probe, fair_return, rt_return, enqueue, dequeue, hrtimer_wakeup, nanosleep, timer, cs, tick,
  wakeup, name, Kernel, Hit, trace, jprobe_init, register_all,
}
use linux_kernel_programming.Probe.Trace.{Each, Genuine, trace-Genuine}
use linux_kernel_programming.Probe.Planted.{IsKernel, first, next, jprobe_init-planted}

number : Probe → ℕ
number fair_return = 0
number rt_return = 1
number enqueue = 2
number dequeue = 3
number hrtimer_wakeup = 4
number nanosleep = 5
number timer = 6
number cs = 7
number tick = 8
number wakeup = 9

abbrev with_probe : Probe → Bool → (Probe → Bool) → Probe → Bool
with_probe p b k q = if number p == number q then b else k q

abbrev granting : Kernel (Probe → Bool)
granting = record {
  register = λ p k. (pos 0, with_probe p true k);
  unregister = λ p k. with_probe p false k;
  planted = λ p k. k p;
}

same : (p : Probe) → (number p == number p) ≡ true
same p = (==_iff (number p) (number p)).1 refl

granting-IsKernel : IsKernel granting
granting-IsKernel = record {
  registered = λ p k k' n e.
      ap (λ (r : ℤ × (Probe → Bool)). r.1 p) (sym e)
      ∙ if_true (number p == number p) true (k p) (same p);
  stays = λ p q k h. elim (Bool-cases (number p == number q)) [ inl e ↦ rw e | inr e ↦ rw e h ];
  unregistered = λ p k. if_true (number p == number p) false (k p) (same p);
  stays_out = λ p q k h. elim (Bool-cases (number p == number q)) [ inl e ↦ rw e | inr e ↦ rw e h ];
}

abbrev nothing : Probe → Bool
nothing p = false

abbrev loaded : Probe → Bool
loaded = (jprobe_init granting nothing).1

jprobe_init-planted_example : loaded rt_return ≡ true
jprobe_init-planted_example =
    jprobe_init-planted granting granting-IsKernel rt_return nothing (next _ _ (first _)) init_done
  where
    init_done : (jprobe_init granting nothing).0 ≡ pos 0
    init_done = unfold jprobe_init register_all in refl

abbrev hits : List Hit
hits =
    record { probe = enqueue; task = some (record { comm = name; pid = 8; tgid = 7 }); time = 1 }
    ∷ record { probe = timer; task = none; time = 2 }
    ∷ []

trace-Genuine_example : Each (λ l. (loaded l.probe ≡ true) × Genuine l) (trace granting loaded hits)
trace-Genuine_example = trace-Genuine granting loaded hits
