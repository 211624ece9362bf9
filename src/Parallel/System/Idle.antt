-- ===== src/Parallel/System/Idle.antt =====
-- The flush timer of p6/prototype-parallel/kernel/core.c over the runs of the system.
use linux_kernel_programming.Prelude.{
  if_false, ℕ, ◌+◌, ◌≡◌, refl, Bool, true, false, ◌||◌, List, [], ◌∷◌, ltb, leb, length,
  if◌then◌else◌,
}
use linux_kernel_programming.Prelude.Int.{ℤ, pos}
use linux_kernel_programming.Vanilla.{Mtd}
use linux_kernel_programming.Parallel as Parallel
use linux_kernel_programming.Parallel.{
  Store, Outcome, done, hangs, crashes, and_then, with_lock, drop_old, get_next_block_to_write,
}
use linux_kernel_programming.Parallel.HashTable.{hash_search}
use linux_kernel_programming.Parallel.Lock.{no_block}
use linux_kernel_programming.Parallel.Erase.{format}
use linux_kernel_programming.Parallel.Collect.{gc_locked}
use linux_kernel_programming.Parallel.Flush.{Image, flush_locked}
use linux_kernel_programming.Parallel.Ends.{
  Whenever, Whenever-done, Whenever-if, Whenever-and_then, Whenever-hangs, AnyOf,
}
use linux_kernel_programming.Parallel.System.{
  System, Call, call_set, call_get, call_del, call_format, call_flush, Event, call, flush_timer,
  wear_timer, perform, step, run, gc, flush_now, flush_metadata, flush_exit, flush_threshold,
  flush_threshold2, count_write, has_invalid, gc_check, set_keyval, flush_timer_callback,
  wear_timer_callback,
}

module _ {F : Type 0} where
  -- No flush is under way; with any store.
  abbrev pub NoFlush : System F → Type 0
  NoFlush k = k.is_flush ≡ false

  abbrev NoFlushAfter : ℤ × System F → Type 0
  NoFlushAfter r = NoFlush r.1

  module _ (mtd : Mtd F) where
    gc-NoFlush : (k : System F) → NoFlush k → Whenever NoFlush (gc mtd k)
    unfolding gc
    gc-NoFlush k h =
        let collected =
          and_then (gc_locked mtd (with_lock true k.store))
            (λ s. done (record k { store = with_lock false s; is_gb = false })) in
        let c : Whenever NoFlush collected =
          Whenever-and_then AnyOf NoFlush (gc_locked mtd (with_lock true k.store)) _ (λ a e. tt)
            (λ s u. Whenever-done NoFlush _ h) in
        Whenever-if NoFlush (ltb k.store.pages_per_block 64) _ _ (Whenever-done NoFlush k h) (
          Whenever-if NoFlush k.is_gb _ _
            (Whenever-if NoFlush k.store.erase_lock _ _ (Whenever-done NoFlush k h) c)
            (Whenever-done NoFlush (record k { is_gb = true }) h))

    module _ (m : Image F) where
      flush_now-NoFlush : (k : System F) → Whenever NoFlushAfter (flush_now mtd m k)
      unfolding flush_now
      flush_now-NoFlush k =
          Whenever-and_then AnyOf NoFlushAfter (flush_locked mtd m (with_lock true k.store)) _
            (λ a e. tt)
            (λ r u. Whenever-done NoFlushAfter (flush_exit k (r.0, with_lock false r.1)) refl)

      -- However flush_metadata returns, the flag is clear.
      flush_metadata-NoFlush :
          (force : Bool) (k : System F) → Whenever NoFlushAfter (flush_metadata mtd m force k)
      unfolding flush_metadata
      flush_metadata-NoFlush true k =
          Whenever-if NoFlushAfter k.store.erase_lock _ _ (Whenever-hangs NoFlushAfter)
            (flush_now-NoFlush k)
      flush_metadata-NoFlush false k =
          let exited =
            λ (x : System F). Whenever-done NoFlushAfter (flush_exit x (pos 0, k.store)) refl in
          Whenever-if NoFlushAfter k.is_flush _ _
            (Whenever-if NoFlushAfter (ltb k.flush_cnt flush_threshold) _ _
              (exited (record k { flush_cnt = k.flush_cnt + 1 }))
              (Whenever-if NoFlushAfter k.store.erase_lock _ _ (exited (record k { flush_cnt = 0 }))
                (flush_now-NoFlush (record k { flush_cnt = 0 }))))
            (exited k)

      count_write-NoFlush : (k : System F) → NoFlush k → Whenever NoFlush (count_write mtd m k)
      unfolding count_write
      count_write-NoFlush k h =
          Whenever-if NoFlush (leb flush_threshold2 k.write_cnt) _ _
            (Whenever-and_then NoFlushAfter NoFlush
              (flush_metadata mtd m true (record k { write_cnt = 0 })) (λ r. done r.1)
              (flush_metadata-NoFlush true (record k { write_cnt = 0 }))
              (λ r g. Whenever-done NoFlush r.1 g))
            (Whenever-done NoFlush (record k { write_cnt = k.write_cnt + 1 }) h)

      gc_check-NoFlush : (k : System F) → NoFlush k → Whenever NoFlush (gc_check mtd m k)
      unfolding gc_check
      gc_check-NoFlush k h =
          Whenever-and_then NoFlush NoFlush _ (count_write mtd m)
            (Whenever-if NoFlush (has_invalid k.store.blocks) (gc mtd k) (done k) (gc-NoFlush k h)
              (Whenever-done NoFlush k h))
            count_write-NoFlush

      set_keyval-NoFlush :
          (key val : List ℕ) (k : System F)
          → NoFlush k
          → Whenever NoFlushAfter (set_keyval mtd m key val k)
      unfolding set_keyval
      set_keyval-NoFlush key val k h =
          let s = with_lock true k.store in
          let old = drop_old (hash_search s.hash_size key s.hashtable) s in
          let early =
            ltb s.page_size (length key + length val + 8)
            || (s.read_only || no_block (get_next_block_to_write mtd old)) in
          Whenever-and_then AnyOf NoFlushAfter (Parallel.set_keyval mtd key val k.store) _
            (λ a e. tt)
            (λ r u.
              let k' : System F = record k { store = r.1; recent_update = true } in
              Whenever-if NoFlushAfter early _ _
                (Whenever-done NoFlushAfter (r.0, record k { store = r.1 }) h)
                (Whenever-and_then NoFlush NoFlushAfter (gc_check mtd m k') (λ q. done (r.0, q))
                  (gc_check-NoFlush k' h) (λ q g. Whenever-done NoFlushAfter (r.0, q) g)))

      get_keyval-NoFlush :
          (key : List ℕ) (k : System F)
          → NoFlush k
          → Whenever NoFlush (perform mtd m (call_get key) k)
      unfolding perform
      get_keyval-NoFlush key k h =
          Whenever-and_then AnyOf NoFlush (Parallel.get_keyval mtd key k.store)
            (λ r. done (record k { store = r.1 })) (λ a e. tt)
            (λ r u. Whenever-done NoFlush (record k { store = r.1 }) h)

      perform-NoFlush : (c : Call) (k : System F) → NoFlush k → Whenever NoFlush (perform mtd m c k)
      unfolding perform
      perform-NoFlush (call_set key val) k h =
          Whenever-and_then NoFlushAfter NoFlush (set_keyval mtd m key val k) (λ r. done r.1)
            (set_keyval-NoFlush key val k h) (λ r g. Whenever-done NoFlush r.1 g)
      perform-NoFlush (call_get key) k h = get_keyval-NoFlush key k h
      perform-NoFlush (call_del key) k h =
          Whenever-and_then AnyOf NoFlush (Parallel.del_key key k.store)
            (λ r. done (record k { store = r.1 })) (λ a e. tt)
            (λ r u. Whenever-done NoFlush (record k { store = r.1 }) h)
      perform-NoFlush call_format k h =
          Whenever-and_then AnyOf NoFlush (format mtd k.store)
            (λ r. done (record k { store = r.1 })) (λ a e. tt)
            (λ r u. Whenever-done NoFlush (record k { store = r.1 }) h)
      perform-NoFlush call_flush k h =
          Whenever-and_then NoFlushAfter NoFlush (flush_metadata mtd m true k) (λ r. done r.1)
            (flush_metadata-NoFlush true k) (λ r g. Whenever-done NoFlush r.1 g)

      step-NoFlush : (e : Event) (k : System F) → NoFlush k → Whenever NoFlush (step mtd m e k)
      unfolding step flush_timer_callback wear_timer_callback
      step-NoFlush (call c) k h = perform-NoFlush c k h
      step-NoFlush flush_timer k h =
          Whenever-if NoFlush k.recent_update _ _
            (Whenever-and_then NoFlushAfter NoFlush (flush_metadata mtd m false k) (λ r. done r.1)
              (flush_metadata-NoFlush false k) (λ r g. Whenever-done NoFlush r.1 g))
            (Whenever-done NoFlush k h)
      step-NoFlush wear_timer k h = gc-NoFlush k h

      run-NoFlush : (es : List Event) (k : System F) → NoFlush k → Whenever NoFlush (run mtd m es k)
      unfolding run
      run-NoFlush [] k h = Whenever-done NoFlush k h
      run-NoFlush (e ∷ es) k h =
          Whenever-and_then NoFlush NoFlush (step mtd m e k) (run mtd m es) (step-NoFlush e k h)
            (λ k' g. run-NoFlush es k' g)

      -- When the module was loaded with `is_flush` clear, then after every run of calls and timers that returns the flush
      -- timer writes nothing: it returns with the store as it was, also when there is a recent update, and forgets the
      -- update.
      pub flush_timer-idle :
          (es : List Event) (k k' : System F)
          → k.is_flush ≡ false
          → run mtd m es k ≡ done k'
          → (k'' : System F) × (step mtd m flush_timer k' ≡ done k'')
            × (k''.store ≡ k'.store)
            × (k''.recent_update ≡ false)
      flush_timer-idle es k k' h r = unfold step flush_timer_callback in idle k'.recent_update refl
        where
          given_up : flush_metadata mtd m false k' ≡ done (flush_exit k' (pos 0, k'.store))
          given_up = unfold flush_metadata in if_false k'.is_flush _ _ (run-NoFlush es k h k' r)

          idle :
              (b : Bool)
              → k'.recent_update ≡ b
              → (k'' : System F) × ((if b
                    then and_then (flush_metadata mtd m false k') (λ r. done r.1)
                    else done k')
                  ≡ done k'')
                × (k''.store ≡ k'.store)
                × (k''.recent_update ≡ false)
          idle true e =
              rw given_up ((flush_exit k' (pos 0, k'.store)).1, unfold and_then in refl, refl, refl)
          idle false e = (k', refl, refl, e)
