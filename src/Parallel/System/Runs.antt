-- ===== src/Parallel/System/Runs.antt =====
-- Runs of calls and timers of p6/prototype-parallel/kernel/core.c, and when they come to a stop at erase_lock.
use mathlib.Core.Path.{subst}
use linux_kernel_programming.Prelude.{
  ◌+◌, ◌*◌, ◌%◌, ◌≡◌, ◌↔◌, refl, sym, ap, ◌∙◌, Bool, true, false, Bool-cases, inl, inr, List, [],
  ◌∷◌, ltb, length, if◌then◌else◌,
}
use linux_kernel_programming.Prelude.Int.{ℤ, pos}
use linux_kernel_programming.Prelude.Words.{u64_mod}
use linux_kernel_programming.Vanilla.{Mtd, EraseResult, erase_rejected, erase_done, erase_failed}
use linux_kernel_programming.Parallel as Parallel
use linux_kernel_programming.Parallel.{Store, Outcome, done, hangs, crashes, and_then, with_lock}
use linux_kernel_programming.Parallel.Lock.{keeps_lock, get_keyval-lock, del_key-lock}
use linux_kernel_programming.Parallel.Erase.{format, format_with, reset_store}
use linux_kernel_programming.Parallel.Ends.{Ends, Ends-and_then, Held, HeldAfter}
use linux_kernel_programming.Parallel.Flush.{Image}
use linux_kernel_programming.Parallel.System.{
  System, Call, call_set, call_get, call_del, call_format, call_flush, Event, call, flush_timer,
  wear_timer, perform, step, run, set_keyval, flush_metadata, flush_exit, flush_threshold, gc,
  flush_timer_callback, wear_timer_callback,
}
use linux_kernel_programming.Parallel.System.Locks.{
  Locked, LockedAfter, set_keyval-Locked, flush_forced-Locked, timers-Locked,
}

-- Whether a call is among the events.
unfoldable pub has_call : List Event → Bool
has_call [] = false
has_call (call c ∷ es) = true
has_call (_ ∷ es) = has_call es

-- The outcome is a return with a property.
abbrev Passes : {A : Type 0} → (A → Type 0) → Outcome A → Type 0
Passes {A = A} P o = (a : A) × (o ≡ done a) × P a

Passes-if :
    {A : Type 0} (P : A → Type 0) (b : Bool) (x y : Outcome A)
    → Passes P x
    → Passes P y
    → Passes P (if b then x else y)
Passes-if P true x y p q = p
Passes-if P false x y p q = q

Passes-true :
    {A : Type 0} (P : A → Type 0) (b : Bool) (x y : Outcome A)
    → b ≡ true
    → Passes P x
    → Passes P (if b then x else y)
Passes-true P b x y e p = rw e p

module _ {F : Type 0} (mtd : Mtd F) (m : Image F) where
  -- Whether the event leaves the lock held when it found it free.
  unfoldable pub event_keeps : Event → System F → Bool
  event_keeps (call (call_set key val)) k = keeps_lock mtd key val (with_lock true k.store)
  event_keeps _ k = false

  -- An event that keeps the lock, with a call after it.
  pub data Leaks : List Event → System F → Type 0 where
    here :
        (e : Event) (es : List Event) (k k' : System F)
        → event_keeps e k ≡ true
        → step mtd m e k ≡ done k'
        → has_call es ≡ true
        → Leaks (e ∷ es) k
    later :
        (e : Event) (es : List Event) (k k' : System F)
        → step mtd m e k ≡ done k'
        → Leaks es k'
        → Leaks (e ∷ es) k

  format-Held : (s : Store F) → Held false s → Ends (HeldAfter false) (format mtd s)
  unfolding format
  format-Held s h = opened s.erase_lock h
    where
      by_driver : (r : EraseResult × F) → Ends (HeldAfter false) (format_with r s)
      by_driver (erase_done, f) = unfold format_with reset_store Ends in refl
      by_driver (erase_rejected, f) = unfold format_with Ends in tt
      by_driver (erase_failed, f) = unfold format_with Ends in tt

      opened :
          (l : Bool)
          → l ≡ false
          → Ends (HeldAfter false) (
              if l
              then hangs
              else format_with
                  (mtd.mtd_erase 0 (s.block_size * length s.blocks % u64_mod) s.flash)
                  s)
      opened l e =
          rw e (by_driver (mtd.mtd_erase 0 (s.block_size * length s.blocks % u64_mod) s.flash))

  -- From a state with the lock free no event hangs.
  step-Locked :
      (e : Event) (k : System F) → Locked false k → Ends (Locked (event_keeps e k)) (step mtd m e k)
  unfolding step perform event_keeps
  step-Locked (call (call_set key val)) k h =
      let l = keeps_lock mtd key val (with_lock true k.store) in
      Ends-and_then (LockedAfter l) (Locked l) (set_keyval mtd m key val k) (λ r. done r.1)
        (set_keyval-Locked mtd m key val k h) (λ r g. unfold Ends in g)
  step-Locked (call (call_get key)) k h = elim (get_keyval-lock mtd key k.store h) [
    | inl e ↦ rw e (unfold and_then Ends in tt)
    | inr r ↦ rw r.1 (unfold and_then Ends in refl)
  ]
  step-Locked (call (call_del key)) k h =
      let (ret, s', e, l) = del_key-lock key k.store h in rw e (unfold and_then Ends in l)
  step-Locked (call call_format) k h =
      Ends-and_then (HeldAfter false) (Locked false) (format mtd k.store)
        (λ r. done (record k { store = r.1 })) (format-Held k.store h) (λ r g. unfold Ends in g)
  step-Locked (call call_flush) k h =
      Ends-and_then (LockedAfter false) (Locked false) (flush_metadata mtd m true k) (λ r. done r.1)
        (flush_forced-Locked mtd m k h) (λ r g. unfold Ends in g)
  step-Locked flush_timer k h =
      subst (λ l. Ends (Locked l) (flush_timer_callback mtd m k)) h (timers-Locked mtd m k).0
  step-Locked wear_timer k h =
      subst (λ l. Ends (Locked l) (wear_timer_callback mtd k)) h (timers-Locked mtd m k).1

  -- With the lock held every call hangs.
  perform-held : (c : Call) (k : System F) → Locked true k → perform mtd m c k ≡ hangs
  unfolding perform and_then set_keyval flush_metadata format Parallel.set_keyval
      Parallel.get_keyval Parallel.del_key
  perform-held (call_set key val) k h =
      let e : Parallel.set_keyval mtd key val k.store ≡ hangs = rw h in rw e
  perform-held (call_get key) k h =
      let e : Parallel.get_keyval mtd key k.store ≡ hangs = rw h in rw e
  perform-held (call_del key) k h = let e : Parallel.del_key key k.store ≡ hangs = rw h in rw e
  perform-held call_format k h = let e : format mtd k.store ≡ hangs = rw h in rw e
  perform-held call_flush k h = let e : flush_metadata mtd m true k ≡ hangs = rw h in rw e

  -- With the lock held a timer returns.
  wear_timer-held :
      (k : System F) → Locked true k → Passes (Locked true) (wear_timer_callback mtd k)
  unfolding wear_timer_callback gc
  wear_timer-held k h =
      Passes-if (Locked true) (ltb k.store.pages_per_block 64) _ _ (k, refl, h)
        (Passes-if (Locked true) k.is_gb _ _
          (Passes-true (Locked true) k.store.erase_lock _ _ h (k, refl, h))
          (record k { is_gb = true }, refl, h))

  flush_timer-held :
      (k : System F) → Locked true k → Passes (Locked true) (flush_timer_callback mtd m k)
  unfolding flush_timer_callback flush_metadata and_then
  flush_timer-held k h =
      Passes-if (Locked true) k.recent_update _ _ (returned (flush_metadata mtd m false k) flushed)
        (k, refl, h)
    where
      flushed : Passes (LockedAfter true) (flush_metadata mtd m false k)
      flushed =
          Passes-if (LockedAfter true) k.is_flush _ _
            (Passes-if (LockedAfter true) (ltb k.flush_cnt flush_threshold) _ _
              (flush_exit (record k { flush_cnt = k.flush_cnt + 1 }) (pos 0, k.store), refl, h)
              (Passes-true (LockedAfter true) k.store.erase_lock _ _ h
                (flush_exit (record k { flush_cnt = 0 }) (pos 0, k.store), refl, h)))
            (flush_exit k (pos 0, k.store), refl, h)

      returned :
          (o : Outcome (ℤ × System F))
          → Passes (LockedAfter true) o
          → Passes (Locked true) (and_then o (λ r. done r.1))
      returned o (r, e, l) = rw e (r.1, refl, l)

  -- From a state with the lock held a run hangs when it comes to a call, and the timers before it return.
  run-held :
      (es : List Event) (k : System F) → Locked true k → has_call es ≡ true → run mtd m es k ≡ hangs
  unfolding run and_then has_call step
  run-held [] k h c = absurd cc
  run-held (call c ∷ es) k h i = rw (perform-held c k h)
  run-held (flush_timer ∷ es) k h i =
      let (k', e, l) = flush_timer-held k h in rw e (run-held es k' l i)
  run-held (wear_timer ∷ es) k h i =
      let (k', e, l) = wear_timer-held k h in rw e (run-held es k' l i)

  run-held-call :
      (es : List Event) (k : System F) → Locked true k → run mtd m es k ≡ hangs → has_call es ≡ true
  unfolding run and_then has_call step
  run-held-call [] k h c = absurd cc
  run-held-call (call c ∷ es) k h i = refl
  run-held-call (flush_timer ∷ es) k h i =
      let (k', e, l) = flush_timer-held k h in
      run-held-call es k' l (sym (ap (λ o. and_then o (run mtd m es)) e) ∙ i)
  run-held-call (wear_timer ∷ es) k h i =
      let (k', e, l) = wear_timer-held k h in
      run-held-call es k' l (sym (ap (λ o. and_then o (run mtd m es)) e) ∙ i)

  Leaks-has_call : (es : List Event) (k : System F) → Leaks es k → has_call es ≡ true
  unfolding has_call
  Leaks-has_call _ _ (here (call c) es k k' n s i) = refl
  Leaks-has_call _ _ (here flush_timer es k k' n s i) = i
  Leaks-has_call _ _ (here wear_timer es k k' n s i) = i
  Leaks-has_call _ _ (later (call c) es k k' s l) = refl
  Leaks-has_call _ _ (later flush_timer es k k' s l) = Leaks-has_call es k' l
  Leaks-has_call _ _ (later wear_timer es k k' s l) = Leaks-has_call es k' l

  -- The lock after an event that returned.
  step-after :
      (e : Event) (k k' : System F)
      → Locked false k
      → step mtd m e k ≡ done k'
      → Locked (event_keeps e k) k'
  step-after e k k' h s =
      let p : Ends (Locked (event_keeps e k)) (done k') =
        subst (Ends (Locked (event_keeps e k))) s (step-Locked e k h) in
      unfold Ends in p

  Leaks-run :
      (es : List Event) (k : System F) → Locked false k → Leaks es k → run mtd m es k ≡ hangs
  unfolding run and_then
  Leaks-run _ _ h (here e es k k' n s i) = rw (s, run-held es k' (step-after e k k' h s ∙ n) i)
  Leaks-run _ _ h (later e es k k' s l) =
      let q : run mtd m es k' ≡ hangs = elim (Bool-cases (event_keeps e k)) [
        | inl n ↦ run-held es k' (step-after e k k' h s ∙ n) (Leaks-has_call es k' l)
        | inr n ↦ Leaks-run es k' (step-after e k k' h s ∙ n) l
      ] in
      rw (s, q)

  run-Leaks :
      (es : List Event) (k : System F) → Locked false k → run mtd m es k ≡ hangs → Leaks es k
  unfolding run and_then
  run-Leaks [] k h i = absurd cc
  run-Leaks (e ∷ es) k h i =
      stepped (λ k' l. run-Leaks es k' l) (step mtd m e k) refl (step-Locked e k h) i
    where
      stepped :
          ((k' : System F) → Locked false k' → run mtd m es k' ≡ hangs → Leaks es k')
          → (o : Outcome (System F)) → step mtd m e k ≡ o
          → Ends (Locked (event_keeps e k)) o
          → and_then o (run mtd m es) ≡ hangs
          → Leaks (e ∷ es) k
      stepped rest (done k') s l i =
          let q : Locked (event_keeps e k) k' = step-after e k k' h s in
          elim (Bool-cases (event_keeps e k)) [
            | inl n ↦ here e es k k' n s (run-held-call es k' (q ∙ n) i)
            | inr n ↦ later e es k k' s (rest k' (q ∙ n) i)
          ]
      stepped rest hangs s l i = absurd (unfold Ends in l)
      stepped rest crashes s l i = absurd cc

  -- From a state with the lock free a run of calls and timers comes to a stop exactly when a set keeps the lock, for a
  -- couple that is too big or without a block to write to, and a call comes after it. The timers never stop a run, and no
  -- timer releases a lock that was kept.
  pub system_run-hangs :
      (es : List Event) (k : System F)
      → k.store.erase_lock ≡ false
      → (run mtd m es k ≡ hangs) ↔ Leaks es k
  system_run-hangs es k free = (run-Leaks es k free, Leaks-run es k free)
