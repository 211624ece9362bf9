-- ===== src/Probe.antt =====
-- p5/group5_project5/jprobe_p5final.c: the probes that print when the measuring thread of cyclictest is picked, woken or
-- switched. The probes of the kernel are a parameter.
pub mod Planted
pub mod Trace
mod Tests
use linux_kernel_programming.Prelude.{
  ℕ, zero, suc, ◌+◌, ◌==◌, Bool, true, false, ◌&&◌, Option, none, some, List, [], ◌∷◌,
  if◌then◌else◌,
}
use linux_kernel_programming.Prelude.Int.{ℤ, pos, negsuc}
use linux_kernel_programming.Prelude.Bytes.{starts_with}

-- The two kretprobes and the eight jprobes.
pub data Probe : Type 0 where
  fair_return rt_return enqueue dequeue hrtimer_wakeup nanosleep timer cs tick wakeup : Probe

-- The fields of `struct task_struct` that the code reads.
pub record Task : Type 0 where
  pub comm : List ℕ
  pub pid : ℕ
  pub tgid : ℕ

-- "cyclictest"
abbrev pub name : List ℕ
name = b'c' ∷ b'y' ∷ b'c' ∷ b'l' ∷ b'i' ∷ b'c' ∷ b't' ∷ b'e' ∷ b's' ∷ b't' ∷ []

unfoldable pub is_cyclitest : Option Task → Bool
is_cyclitest none = false
is_cyclitest (some p) = if starts_with name p.comm then p.pid == p.tgid + 1 else false

-- What a handler prints: the function, the thread and the time.
pub record Line : Type 0 where
  pub probe : Probe
  pub pid : Option ℕ
  pub time_stamp : ℕ

abbrev pub pid_of : Option Task → Option ℕ
pid_of none = none
pid_of (some p) = some p.pid

abbrev pub line_if : Bool → Line → Option Line
line_if true l = some l
line_if false l = none

abbrev pub task_line : Probe → Option Task → ℕ → Option Line
task_line probe p time_stamp =
    line_if (is_cyclitest p) (record { probe = probe; pid = pid_of p; time_stamp = time_stamp })

-- The handler of each probe, with the task that the probed function works on. The one of scheduler_tick asks for NULL.
unfoldable pub handler : Probe → Option Task → ℕ → Option Line
unfolding is_cyclitest
handler timer p time_stamp = some (record { probe = timer; pid = none; time_stamp = time_stamp })
handler tick p time_stamp =
    line_if (is_cyclitest none) (record { probe = tick; pid = none; time_stamp = time_stamp })
handler probe p time_stamp = task_line probe p time_stamp

-- The probes of the kernel `K`: registering gives a negative code when it fails.
pub record Kernel (K : Type 0) : Type 0 where
  pub register : Probe → K → ℤ × K
  pub unregister : Probe → K → K
  pub planted : Probe → K → Bool

-- A call of a probed function.
pub record Hit : Type 0 where
  pub probe : Probe
  pub task : Option Task
  pub time : ℕ

abbrev pub cons_line : Option Line → List Line → List Line
cons_line none log = log
cons_line (some l) log = l ∷ log

-- The probes in the order in which jprobe_init registers them.
abbrev pub init_order : List Probe
init_order = fair_return ∷ rt_return ∷ enqueue ∷ dequeue ∷ timer ∷ tick ∷ []

abbrev pub exit_order : List Probe
exit_order =
    fair_return ∷ rt_return ∷ enqueue ∷ dequeue ∷ hrtimer_wakeup ∷ nanosleep ∷ timer ∷ cs ∷ tick
    ∷ wakeup ∷ []

module _ {K : Type 0} (kernel : Kernel K) where
  -- The log of a sequence of calls.
  unfoldable pub trace : K → List Hit → List Line
  unfolding handler
  trace k [] = []
  trace k (h ∷ hs) =
      let rest = trace k hs in
      if kernel.planted h.probe k then cons_line (handler h.probe h.task h.time) rest else rest

  abbrev pub or_failed : ℤ → K → ℤ × K → ℤ × K
  or_failed (pos n) k rest = rest
  or_failed (negsuc n) k rest = (negsuc 0, k)

  -- A registration that fails ends the load; what was registered before stays.
  unfoldable pub register_all : List Probe → K → ℤ × K
  register_all [] k = (pos 0, k)
  register_all (p ∷ ps) k =
      let (ret, k') = kernel.register p k in let rest = register_all ps k' in or_failed ret k' rest

  unfoldable pub unregister_all : List Probe → K → K
  unregister_all [] k = k
  unregister_all (p ∷ ps) k = unregister_all ps (kernel.unregister p k)

  unfoldable pub jprobe_init : K → ℤ × K
  unfolding register_all
  jprobe_init k = register_all init_order k

  unfoldable pub jprobe_exit : K → K
  unfolding unregister_all
  jprobe_exit k = unregister_all exit_order k
