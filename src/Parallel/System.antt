-- ===== src/Parallel/System.antt =====
-- The store of p6/prototype-parallel/kernel/core.c with the flags and counters around it: gc, flush_metadata, gc_check, the
-- calls of a user, and the two timers, each as a step that runs to its end.
pub mod Locks
pub mod Runs
pub mod Idle
pub mod Tests
use linux_kernel_programming.Prelude.{
  ℕ, ◌+◌, Bool, true, false, ◌||◌, List, [], ◌∷◌, ltb, leb, if◌then◌else◌, length,
}
use linux_kernel_programming.Prelude.Int.{ℤ, pos, negsuc}
use linux_kernel_programming.Vanilla.{Mtd}
use linux_kernel_programming.Parallel as Parallel
use linux_kernel_programming.Parallel.{
  BlkInfo, Store, Outcome, done, hangs, crashes, and_then, with_lock, drop_old,
  get_next_block_to_write,
}
use linux_kernel_programming.Parallel.HashTable.{hash_search}
use linux_kernel_programming.Parallel.Lock.{no_block}
use linux_kernel_programming.Parallel.Erase.{format}
use linux_kernel_programming.Parallel.Collect.{gc_locked}
use linux_kernel_programming.Parallel.Flush.{Image, flush_locked}

-- `cnt` of flush_metadata is `flush_cnt` here.
pub record System (F : Type 0) : Type 0 where
  pub store : Store F
  pub is_gb : Bool
  pub is_flush : Bool
  pub recent_update : Bool
  pub flush_cnt : ℕ
  pub write_cnt : ℕ

abbrev pub flush_threshold : ℕ
flush_threshold = 100

abbrev pub invalid_threshold2 : ℕ
invalid_threshold2 = 50

abbrev pub flush_threshold2 : ℕ
flush_threshold2 = 1000

-- Whether a block has so many invalid pages that gc is called at once.
unfoldable pub has_invalid : List BlkInfo → Bool
has_invalid [] = false
has_invalid (b ∷ bs) = leb invalid_threshold2 b.nb_invalid || has_invalid bs

module _ {F : Type 0} where
  -- The end of flush_metadata, which all its branches reach.
  abbrev pub flush_exit : System F → ℤ × Store F → ℤ × System F
  flush_exit k r = (r.0, record k { store = r.1; recent_update = false; is_flush = false })

  module _ (mtd : Mtd F) where
    -- `atomic_cmpxchg` returns the old value: with `is_gb` clear gc sets it and returns.
    unfoldable pub gc : System F → Outcome (System F)
    unfolding and_then gc_locked
    gc k =
        let collected =
          and_then (gc_locked mtd (with_lock true k.store))
            (λ s. done (record k { store = with_lock false s; is_gb = false })) in
        if ltb k.store.pages_per_block 64
        then done k
        else if k.is_gb
        then if k.store.erase_lock then done k else collected
        else done (record k { is_gb = true })

    module _ (m : Image F) where
      -- flush_metadata with the lock taken, and its release.
      unfoldable pub flush_now : System F → Outcome (ℤ × System F)
      unfolding and_then flush_locked
      flush_now k =
          and_then (flush_locked mtd m (with_lock true k.store))
            (λ r. done (flush_exit k (r.0, with_lock false r.1)))

      -- A flush that is forced waits for the lock.
      unfoldable pub flush_metadata : Bool → System F → Outcome (ℤ × System F)
      unfolding flush_now
      flush_metadata true k =
          let flushed = flush_now k in if k.store.erase_lock then hangs else flushed
      flush_metadata false k =
          let given_up = done (flush_exit k (pos 0, k.store)) in
          let reset = record k { flush_cnt = 0 } in
          let flushed = flush_now reset in
          if k.is_flush
          then if ltb k.flush_cnt flush_threshold
            then done (flush_exit (record k { flush_cnt = k.flush_cnt + 1 }) (pos 0, k.store))
            else if k.store.erase_lock
            then done (flush_exit reset (pos 0, k.store))
            else flushed
          else given_up

      -- The second half of gc_check.
      unfoldable pub count_write : System F → Outcome (System F)
      unfolding flush_metadata and_then
      count_write k =
          let flushed =
            and_then (flush_metadata true (record k { write_cnt = 0 })) (λ r. done r.1) in
          if leb flush_threshold2 k.write_cnt
          then flushed
          else done (record k { write_cnt = k.write_cnt + 1 })

      unfoldable pub gc_check : System F → Outcome (System F)
      unfolding gc and_then count_write has_invalid
      gc_check k = and_then (if has_invalid k.store.blocks then gc k else done k) count_write

      -- set_keyval; a return before its end leaves out the flag and gc_check.
      unfoldable pub set_keyval : List ℕ → List ℕ → System F → Outcome (ℤ × System F)
      unfolding and_then gc_check
      set_keyval key val k =
          let s = with_lock true k.store in
          let old = drop_old (hash_search s.hash_size key s.hashtable) s in
          let early =
            ltb s.page_size (length key + length val + 8)
            || (s.read_only || no_block (get_next_block_to_write mtd old)) in
          and_then (Parallel.set_keyval mtd key val k.store) (λ r.
            let k' : System F = record k { store = r.1 } in
            let checked =
              and_then (gc_check (record k' { recent_update = true })) (λ q. done (r.0, q)) in
            if early then done (r.0, k') else checked)

      unfoldable pub flush_timer_callback : System F → Outcome (System F)
      unfolding flush_metadata and_then
      flush_timer_callback k =
          let flushed = and_then (flush_metadata false k) (λ r. done r.1) in
          if k.recent_update then flushed else done k

    unfoldable pub wear_timer_callback : System F → Outcome (System F)
    unfolding gc
    wear_timer_callback k = gc k

-- A call that waits for erase_lock: those of a user, the ioctl that formats, and the flush at the unload.
pub data Call : Type 0 where
  call_set : (key val : List ℕ) → Call
  call_get call_del : (key : List ℕ) → Call
  call_format call_flush : Call

pub data Event : Type 0 where
  call : Call → Event
  flush_timer wear_timer : Event

module _ {F : Type 0} (mtd : Mtd F) (m : Image F) where
  unfoldable pub perform : Call → System F → Outcome (System F)
  unfolding and_then set_keyval flush_metadata format Parallel.get_keyval Parallel.del_key
  perform (call_set key val) k = and_then (set_keyval mtd m key val k) (λ r. done r.1)
  perform (call_get key) k =
      and_then (Parallel.get_keyval mtd key k.store) (λ r. done (record k { store = r.1 }))
  perform (call_del key) k =
      and_then (Parallel.del_key key k.store) (λ r. done (record k { store = r.1 }))
  perform call_format k = and_then (format mtd k.store) (λ r. done (record k { store = r.1 }))
  perform call_flush k = and_then (flush_metadata mtd m true k) (λ r. done r.1)

  unfoldable pub step : Event → System F → Outcome (System F)
  unfolding perform flush_timer_callback wear_timer_callback
  step (call c) k = perform c k
  step flush_timer k = flush_timer_callback mtd m k
  step wear_timer k = wear_timer_callback mtd k

  unfoldable pub run : List Event → System F → Outcome (System F)
  unfolding and_then step
  run [] k = done k
  run (e ∷ es) k = and_then (step e k) (run es)
