-- ===== src/Parallel/System/Locks.antt =====
-- The lock in the steps of the system: the timers never wait, and after a step the lock is as the step found it, but for
-- a set that keeps it.
use mathlib.Core.Path.{subst}
use linux_kernel_programming.Prelude.{
  ℕ, ◌+◌, ◌≡◌, refl, Bool, true, false, ◌||◌, List, ltb, leb, length, if◌then◌else◌,
}
use linux_kernel_programming.Prelude.Int.{ℤ, pos}
use linux_kernel_programming.Vanilla.{Mtd}
use linux_kernel_programming.Parallel as Parallel
use linux_kernel_programming.Parallel.{
  Store, Outcome, done, hangs, crashes, and_then, with_lock, drop_old, get_next_block_to_write,
}
use linux_kernel_programming.Parallel.HashTable.{hash_search}
use linux_kernel_programming.Parallel.Lock.{no_block, keeps_lock, set_keyval-lock}
use linux_kernel_programming.Parallel.Ends.{
  Ends, Ends-if, Ends-and_then, Held, HeldAfter, LeavesLock-Ends,
}
use linux_kernel_programming.Parallel.Collect.{gc_locked}
use linux_kernel_programming.Parallel.Keeps.{Held-Closed}
use linux_kernel_programming.Parallel.Collect.Unlocked.{gc_locked-Kept}
use linux_kernel_programming.Parallel.Flush.{Image, flush_locked}
use linux_kernel_programming.Parallel.Flush.Unlocked.{flush_locked-Kept}
use linux_kernel_programming.Parallel.System.{
  System, gc, flush_now, flush_metadata, flush_exit, flush_threshold, flush_threshold2, count_write,
  has_invalid, gc_check, set_keyval, flush_timer_callback, wear_timer_callback,
}

module _ {F : Type 0} where
  -- The lock of the system is as `held` says, also beside a result.
  abbrev pub Locked : Bool → System F → Type 0
  Locked held k = Held held k.store

  abbrev pub LockedAfter : Bool → ℤ × System F → Type 0
  LockedAfter held r = Locked held r.1

  module _ (mtd : Mtd F) where
    pub gc-Locked : (held : Bool) (k : System F) → Locked held k → Ends (Locked held) (gc mtd k)
    unfolding gc
    gc-Locked held k h =
        Ends-if (Locked held) (ltb k.store.pages_per_block 64) _ _ (unfold Ends in h)
          (Ends-if (Locked held) k.is_gb _ _ (by_lock k.store.erase_lock refl) (unfold Ends in h))
      where
        by_lock :
            (l : Bool)
            → k.store.erase_lock ≡ l
            → Ends (Locked held) (
                if l
                then done k
                else and_then
                    (gc_locked mtd (with_lock true k.store))
                    (λ s. done (record k { store = with_lock false s; is_gb = false })))
        by_lock true e = unfold Ends in h
        by_lock false e =
            Ends-and_then (Held true) (Locked held) (gc_locked mtd (with_lock true k.store)) _
              (gc_locked-Kept mtd (Held true) (Held-Closed true) (with_lock true k.store) refl)
              (λ s g. unfold Ends in let q : false ≡ held = cc in q)

    module _ (m : Image F) where
      flush_now-Locked : (k : System F) → Ends (LockedAfter false) (flush_now mtd m k)
      unfolding flush_now
      flush_now-Locked k =
          Ends-and_then (HeldAfter true) (LockedAfter false)
            (flush_locked mtd m (with_lock true k.store)) _
            (flush_locked-Kept mtd (Held true) (Held-Closed true) m (with_lock true k.store) refl)
            (λ r g. unfold Ends in refl)

      pub flush_forced-Locked :
          (k : System F) → Locked false k → Ends (LockedAfter false) (flush_metadata mtd m true k)
      unfolding flush_metadata
      flush_forced-Locked k h = opened k.store.erase_lock h
        where
          opened :
              (l : Bool)
              → l ≡ false
              → Ends (LockedAfter false) (if l then hangs else flush_now mtd m k)
          opened l e = rw e (flush_now-Locked k)

      pub flush_timed-Locked :
          (held : Bool) (k : System F)
          → Locked held k
          → Ends (LockedAfter held) (flush_metadata mtd m false k)
      unfolding flush_metadata
      flush_timed-Locked held k h =
          let counted : System F = record k { flush_cnt = k.flush_cnt + 1 } in
          let early : Ends (LockedAfter held) (done (flush_exit counted (pos 0, k.store))) =
            unfold Ends in h in
          let given_up : Ends (LockedAfter held) (done (flush_exit k (pos 0, k.store))) =
            unfold Ends in h in
          Ends-if (LockedAfter held) k.is_flush _ _
            (Ends-if (LockedAfter held) (ltb k.flush_cnt flush_threshold) _ _ early
              (by_lock k.store.erase_lock refl))
            given_up
        where
          by_lock :
              (l : Bool)
              → k.store.erase_lock ≡ l
              → Ends (LockedAfter held) (
                  if l
                  then done (flush_exit (record k { flush_cnt = 0 }) (pos 0, k.store))
                  else flush_now mtd m (record k { flush_cnt = 0 }))
          by_lock true e = unfold Ends in h
          by_lock false e =
              let q : false ≡ held = cc in
              subst (λ b. Ends (LockedAfter b) (flush_now mtd m (record k { flush_cnt = 0 }))) q
                (flush_now-Locked (record k { flush_cnt = 0 }))

      count_write-Locked :
          (k : System F) → Locked false k → Ends (Locked false) (count_write mtd m k)
      unfolding count_write
      count_write-Locked k h =
          Ends-if (Locked false) (leb flush_threshold2 k.write_cnt) _ _
            (Ends-and_then (LockedAfter false) (Locked false)
              (flush_metadata mtd m true (record k { write_cnt = 0 })) (λ r. done r.1)
              (flush_forced-Locked (record k { write_cnt = 0 }) h) (λ r g. unfold Ends in g))
            (unfold Ends in h)

      gc_check-Locked : (k : System F) → Locked false k → Ends (Locked false) (gc_check mtd m k)
      unfolding gc_check
      gc_check-Locked k h =
          Ends-and_then (Locked false) (Locked false) _ (count_write mtd m)
            (Ends-if (Locked false) (has_invalid k.store.blocks) (gc mtd k) (done k)
              (gc-Locked false k h) (unfold Ends in h))
            count_write-Locked

      -- With the lock free set_keyval does not hang, and when it returns the lock is held exactly when it keeps the lock:
      -- gc_check and what it calls release it.
      pub set_keyval-Locked :
          (key val : List ℕ) (k : System F)
          → Locked false k
          → Ends
              (LockedAfter (keeps_lock mtd key val (with_lock true k.store)))
              (set_keyval mtd m key val k)
      unfolding set_keyval
      set_keyval-Locked key val k h =
          let s = with_lock true k.store in
          let old = drop_old (hash_search s.hash_size key s.hashtable) s in
          Ends-and_then (HeldAfter (keeps_lock mtd key val s))
            (LockedAfter (keeps_lock mtd key val s)) (Parallel.set_keyval mtd key val k.store) _
            (LeavesLock-Ends (keeps_lock mtd key val s) (Parallel.set_keyval mtd key val k.store)
              (set_keyval-lock mtd key val k.store h))
            (λ r g.
              by_guards (ltb s.page_size (length key + length val + 8)) s.read_only
                (no_block (get_next_block_to_write mtd old)) r g)
        where
          by_guards :
              (big ro none_left : Bool) (r : ℤ × Store F)
              → HeldAfter (if big then true else if ro then false else none_left) r
              → let k' : System F = record k { store = r.1 } in
                Ends (LockedAfter (if big then true else if ro then false else none_left)) (
                  if big || (ro || none_left)
                  then done (r.0, k')
                  else and_then
                      (gc_check mtd m (record k' { recent_update = true }))
                      (λ q. done (r.0, q)))
          by_guards true ro n r g = unfold Ends in g
          by_guards false true n r g = unfold Ends in g
          by_guards false false true r g = unfold Ends in g
          by_guards false false false r g =
              let k' : System F = record k { store = r.1; recent_update = true } in
              Ends-and_then (Locked false) (LockedAfter false) (gc_check mtd m k')
                (λ q. done (r.0, q)) (gc_check-Locked k' g) (λ q g'. unfold Ends in g')

      -- Neither timer waits for the lock, held or free, and each leaves it as it found it.
      pub timers-Locked :
          (k : System F)
          → Ends (Locked k.store.erase_lock) (flush_timer_callback mtd m k)
            × Ends (Locked k.store.erase_lock) (wear_timer_callback mtd k)
      unfolding flush_timer_callback wear_timer_callback
      timers-Locked k =
          let l = k.store.erase_lock in
          (
            Ends-if (Locked l) k.recent_update _ _
                (Ends-and_then (LockedAfter l) (Locked l) (flush_metadata mtd m false k)
                  (λ r. done r.1) (flush_timed-Locked l k refl) (λ r g. unfold Ends in g))
                (unfold Ends in refl),
            gc-Locked l k refl,
          )
