-- ===== src/Parallel/Ends.antt =====
-- Outcomes that are a crash or a return with a property, for p6/prototype-parallel/kernel/core.c.
use mathlib.Core.Path.{subst}
use linux_kernel_programming.Prelude.{◌≡◌, Bool, true, false, if◌then◌else◌, refl}
use linux_kernel_programming.Prelude.Int.{ℤ}
use linux_kernel_programming.Parallel.{Store, Outcome, done, hangs, crashes, and_then}
use linux_kernel_programming.Parallel.Lock.{LeavesLock}

unfoldable pub Ends : {A : Type 0} → (A → Type 0) → Outcome A → Type 0
Ends P (done a) = P a
Ends P hangs = ⊥
Ends P crashes = Unit

pub Ends-if :
    {A : Type 0} (P : A → Type 0) (b : Bool) (x y : Outcome A)
    → Ends P x
    → Ends P y
    → Ends P (if b then x else y)
Ends-if P true x y p q = p
Ends-if P false x y p q = q

pub Ends-and_then :
    {A B : Type 0} (P : A → Type 0) (Q : B → Type 0) (o : Outcome A) (f : A → Outcome B)
    → Ends P o
    → ((a : A) → P a → Ends Q (f a))
    → Ends Q (and_then o f)
unfolding Ends and_then
Ends-and_then P Q (done a) f p h = h a p
Ends-and_then P Q hangs f p h = p
Ends-and_then P Q crashes f p h = p

-- Whenever the outcome is a return, it has the property.
abbrev pub Whenever : {A : Type 0} → (A → Type 0) → Outcome A → Type 0
Whenever {A = A} P o = (a : A) → o ≡ done a → P a

pub Whenever-done : {A : Type 0} (P : A → Type 0) (a : A) → P a → Whenever P (done a)
Whenever-done P a p b e = let q : a ≡ b = cc in subst P q p

pub Whenever-if :
    {A : Type 0} (P : A → Type 0) (b : Bool) (x y : Outcome A)
    → Whenever P x
    → Whenever P y
    → Whenever P (if b then x else y)
Whenever-if P true x y p q = p
Whenever-if P false x y p q = q

pub Whenever-and_then :
    {A B : Type 0} (P : A → Type 0) (Q : B → Type 0) (o : Outcome A) (f : A → Outcome B)
    → Whenever P o
    → ((a : A) → P a → Whenever Q (f a))
    → Whenever Q (and_then o f)
unfolding and_then
Whenever-and_then P Q (done a) f p h b e = h a (p a refl) b e
Whenever-and_then P Q hangs f p h b e = absurd cc
Whenever-and_then P Q crashes f p h b e = absurd cc

pub Whenever-hangs : {A : Type 0} (P : A → Type 0) → Whenever P hangs
Whenever-hangs P a e = absurd cc

abbrev pub AnyOf : {A : Type 0} → A → Type 0
AnyOf a = Unit

pub Ends-Whenever : {A : Type 0} (P : A → Type 0) (o : Outcome A) → Ends P o → Whenever P o
unfolding Ends
Ends-Whenever P (done a) h b e = Whenever-done P a h b e
Ends-Whenever P hangs h a e = absurd cc
Ends-Whenever P crashes h a e = absurd cc

-- The lock is as `held` says, for a store and for a result with a store.
abbrev pub Held : {F : Type 0} → Bool → Store F → Type 0
Held held s = s.erase_lock ≡ held

abbrev pub HeldAfter : {F : Type 0} → Bool → ℤ × Store F → Type 0
HeldAfter held r = r.1.erase_lock ≡ held

module _ {F : Type 0} where
  pub LeavesLock-Ends :
      (held : Bool) (o : Outcome (ℤ × Store F)) → LeavesLock held o → Ends (HeldAfter held) o
  unfolding LeavesLock Ends
  LeavesLock-Ends held (done r) h = h
  LeavesLock-Ends held hangs h = h
  LeavesLock-Ends held crashes h = h
