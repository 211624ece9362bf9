-- ===== src/Parallel/Runs.antt =====
-- Sequences of calls to the store of p6/prototype-parallel/kernel/core.c, and when they come to a stop at
-- erase_lock.
use mathlib.Core.Path.{subst}
use linux_kernel_programming.Prelude.{
  ℕ, ◌≡◌, ◌↔◌, refl, sym, ap, ◌∙◌, ◌⊎◌, inl, inr, true, false, List, [], ◌∷◌, Bool-cases,
}
use linux_kernel_programming.Prelude.Int.{ℤ}
use linux_kernel_programming.Vanilla.{Mtd}
use linux_kernel_programming.Parallel.{
  Store, Outcome, done, hangs, crashes, and_then, with_lock, set_keyval, get_keyval, del_key,
}
use linux_kernel_programming.Parallel.Lock.{
  keeps_lock, LeavesLock, set_keyval-lock, get_keyval-lock, del_key-lock,
}

pub data Call : Type 0 where
  call_set : (key val : List ℕ) → Call
  call_get call_del : (key : List ℕ) → Call

module _ {F : Type 0} (mtd : Mtd F) where
  unfoldable pub step : Call → Store F → Outcome (Store F)
  unfolding and_then
  step (call_set key val) s = and_then (set_keyval mtd key val s) (λ r. done r.1)
  step (call_get key) s = and_then (get_keyval mtd key s) (λ r. done r.1)
  step (call_del key) s = and_then (del_key key s) (λ r. done r.1)

  unfoldable pub run : List Call → Store F → Outcome (Store F)
  unfolding and_then
  run [] s = done s
  run (c ∷ cs) s = and_then (step c s) (run cs)

  -- A set that keeps the lock, with a call after it.
  pub data Leaks : List Call → Store F → Type 0 where
    here :
        (key val : List ℕ) (c : Call) (cs : List Call) (s s' : Store F)
        → keeps_lock mtd key val (with_lock true s) ≡ true
        → step (call_set key val) s ≡ done s'
        → Leaks (call_set key val ∷ c ∷ cs) s
    later :
        (c : Call) (cs : List Call) (s s' : Store F)
        → step c s ≡ done s'
        → Leaks cs s'
        → Leaks (c ∷ cs) s

  -- With the lock held every call hangs.
  step-held : (c : Call) (s : Store F) → s.erase_lock ≡ true → step c s ≡ hangs
  unfolding step and_then set_keyval get_keyval del_key
  step-held (call_set key val) s h = let e : set_keyval mtd key val s ≡ hangs = rw h in rw e
  step-held (call_get key) s h = let e : get_keyval mtd key s ≡ hangs = rw h in rw e
  step-held (call_del key) s h = let e : del_key key s ≡ hangs = rw h in rw e

  Stepped : Call → Store F → Outcome (Store F) → Type 0
  Stepped c s (done s') =
      (s'.erase_lock ≡ false)
      ⊎ ((s'.erase_lock ≡ true)
          × (key : List ℕ) × (val : List ℕ) × (c ≡ call_set key val)
          × (keeps_lock mtd key val (with_lock true s) ≡ true))
  Stepped c s hangs = ⊥
  Stepped c s crashes = Unit

  step-Stepped : (c : Call) (s : Store F) → s.erase_lock ≡ false → Stepped c s (step c s)
  unfolding step and_then Stepped
  step-Stepped (call_set key val) s free =
      stored (set_keyval mtd key val s) (set_keyval-lock mtd key val s free)
    where
      stored :
          (o : Outcome (ℤ × Store F))
          → LeavesLock (keeps_lock mtd key val (with_lock true s)) o
          → Stepped (call_set key val) s (and_then o (λ r. done r.1))
      stored (done (ret, s')) l =
          unfold LeavesLock in
          elim (Bool-cases (keeps_lock mtd key val (with_lock true s))) [
            | inl k ↦ inr (l ∙ k, key, val, refl, k)
            | inr k ↦ inl (l ∙ k)
          ]
      stored hangs l = unfold LeavesLock in l
      stored crashes l = tt
  step-Stepped (call_get key) s free = elim (get_keyval-lock mtd key s free) [
    | inl e ↦ rw e tt
    | inr r ↦ rw r.1 (inl refl)
  ]
  step-Stepped (call_del key) s free = let (ret, s', e, l) = del_key-lock key s free in rw e (inl l)

  run-Leaks : (cs : List Call) (s : Store F) → s.erase_lock ≡ false → run cs s ≡ hangs → Leaks cs s
  unfolding run and_then Stepped
  run-Leaks [] s free h = absurd cc
  run-Leaks (c ∷ cs) s free h =
      stepped (λ s' l. run-Leaks cs s' l) (step c s) refl (step-Stepped c s free) h
    where
      after :
          (cs : List Call) (s' : Store F)
          → run cs s' ≡ hangs
          → (d : Call) × (ds : List Call) × (cs ≡ d ∷ ds)
      after [] s' e = absurd cc
      after (d ∷ ds) s' e = (d, ds, refl)

      stepped :
          ((s' : Store F) → s'.erase_lock ≡ false → run cs s' ≡ hangs → Leaks cs s')
          → (o : Outcome (Store F)) → step c s ≡ o
          → Stepped c s o
          → and_then o (run cs) ≡ hangs
          → Leaks (c ∷ cs) s
      stepped rest (done s') e (inl l) h = later c cs s s' e (rest s' l h)
      stepped rest (done s') e (inr (l, key, val, q, k)) h =
          let (d, ds, w) = after cs s' h in
          subst (λ x. Leaks x s) (sym (ap (λ x. x ∷ cs) q ∙ ap (λ x. call_set key val ∷ x) w))
            (here key val d ds s s' k (ap (λ x. step x s) (sym q) ∙ e))
      stepped rest hangs e l h = absurd l
      stepped rest crashes e l h = absurd cc

  step-keeps :
      (key val : List ℕ) (s s' : Store F)
      → keeps_lock mtd key val (with_lock true s) ≡ true
      → step (call_set key val) s ≡ done s'
      → s'.erase_lock ≡ true
  step-keeps key val s s' k e = elim (Bool-cases s.erase_lock) [
    | inl h ↦ absurd (stuck (sym (step-held (call_set key val) s h) ∙ e))
    | inr free ↦
        stored (set_keyval mtd key val s)
          (subst (λ b. LeavesLock b (set_keyval mtd key val s)) k
            (set_keyval-lock mtd key val s free))
          (unfold step in e)
  ]
    where
      stuck : hangs ≡ done s' → ⊥
      stuck q = cc

      stored :
          (o : Outcome (ℤ × Store F))
          → LeavesLock true o
          → and_then o (λ r. done r.1) ≡ done s'
          → s'.erase_lock ≡ true
      stored (done (ret, t)) l q =
          unfold LeavesLock and_then in let w : t ≡ s' = cc in sym (ap (λ x. x.erase_lock) w) ∙ l
      stored hangs l q = absurd (unfold LeavesLock in l)
      stored crashes l q = absurd (unfold and_then in none_such q)
        where
          none_such : crashes ≡ done s' → ⊥
          none_such q = cc

  Leaks-run : (cs : List Call) (s : Store F) → Leaks cs s → run cs s ≡ hangs
  unfolding run and_then
  Leaks-run _ _ (here key val c cs s s' k e) = rw (e, step-held c s' (step-keeps key val s s' k e))
  Leaks-run _ _ (later c cs s s' e l) = rw e (Leaks-run cs s' l)

  -- From a store whose lock is free, a sequence of calls comes to a stop exactly when one of them before the last is a
  -- set that keeps the lock: of a couple that is too big, or without a block to write to.
  pub run-hangs :
      (cs : List Call) (s : Store F) → s.erase_lock ≡ false → (run cs s ≡ hangs) ↔ Leaks cs s
  run-hangs cs s free = (run-Leaks cs s free, Leaks-run cs s)
