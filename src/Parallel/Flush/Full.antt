-- ===== src/Parallel/Flush/Full.antt =====
-- flush_metadata when no block is free.
use linux_kernel_programming.Prelude.{
  ℕ, zero, suc, ◌+◌, ◌-◌, ◌/◌, ◌≡◌, refl, ap, ◌∙◌, Bool, true, false, ◌||◌, List, [], ◌∷◌, ◌++◌,
  ltb, take, drop, replicate, length, if◌then◌else◌, arith,
}
use linux_kernel_programming.Prelude.Int.{ℤ, pos, negsuc}
use linux_kernel_programming.Vanilla.{Mtd}
use linux_kernel_programming.Parallel.{
  BlkInfo, Store, Outcome, done, hangs, crashes, and_then, is_meta, with_lock,
}
use linux_kernel_programming.Parallel.Collect.{is_empty}
use linux_kernel_programming.Parallel.Ends.{Ends, Held}
use linux_kernel_programming.Parallel.Flush.{
  Image, Chosen, choose, recycle, mark_order, write_all, flush_chosen, flush_locked,
}
use linux_kernel_programming.Parallel.Keeps.{Held-Closed}
use linux_kernel_programming.Parallel.Flush.Unlocked.{recycle-Kept}
use linux_kernel_programming.Parallel.System.{System, flush_metadata, flush_now}

unfoldable pub any_empty : List BlkInfo → Bool
any_empty [] = false
any_empty (b ∷ bs) = is_empty b || any_empty bs

any_empty-drop : (i : ℕ) (bs : List BlkInfo) → any_empty bs ≡ false → any_empty (drop i bs) ≡ false
unfolding any_empty
any_empty-drop zero bs h = h
any_empty-drop (suc i) [] h = refl
any_empty-drop (suc i) (b ∷ bs) h = any_empty-drop i bs (ground (arith, h))

module _ {F : Type 0} (mtd : Mtd F) where
  choose-none :
      (nb_blocks : ℕ) (pre : List ℤ) (n i : ℕ) (c : Chosen F)
      → any_empty c.store.blocks ≡ false
      → choose mtd nb_blocks pre n i c ≡ c
  unfolding choose
  choose-none nb_blocks pre zero i c h = refl
  choose-none nb_blocks pre (suc n) i c h =
      by_block (is_meta i (take nb_blocks c.order) || is_meta i pre) (drop i c.store.blocks)
        (choose mtd nb_blocks pre n (i + 1) c) _ (choose-none nb_blocks pre n (i + 1) c h)
        (any_empty-drop i c.store.blocks h)
    where
      by_block :
          (used : Bool) (bs : List BlkInfo) (x y : Chosen F)
          → x ≡ c
          → any_empty bs ≡ false
          → (if used then x else elim bs [ [] ↦ c | b ∷ bs' ↦ if is_empty b then y else x ]) ≡ c
      by_block true bs x y q e = q
      by_block false [] x y q e = refl
      by_block false (b ∷ bs) x y q e =
          let f : is_empty b ≡ false = unfold any_empty in ground (arith, e) in rw f q

  mark_order-first :
      (n : ℕ) (rest : List ℤ) (s : Store F)
      → mark_order (take (n + 1) (replicate (n + 1) (negsuc 1) ++ rest)) s ≡ crashes
  mark_order-first n rest s = first (n + 1) n (omega arith)
    where
      first :
          (k n : ℕ) → k ≡ suc n → mark_order (take k (replicate k (negsuc 1) ++ rest)) s ≡ crashes
      first k n e = rw e (unfold mark_order in refl)

  flush_chosen-first :
      (m : Image F) (nb_pages n : ℕ) (pre rest : List ℤ) (s : Store F)
      → flush_chosen mtd m nb_pages
          (n + 1)
          pre
          (record { order = replicate (n + 1) (negsuc 1) ++ rest; cnt = 0; store = s })
        ≡ crashes
  unfolding flush_chosen
  flush_chosen-first m nb_pages n pre rest s =
      recycled (recycle mtd pre (n + 1 - 0) 0 s)
        (recycle-Kept mtd (Held s.erase_lock) (Held-Closed s.erase_lock) pre (n + 1 - 0) 0 s refl)
    where
      recycled :
          (o : Outcome (Store F))
          → Ends (Held s.erase_lock) o
          → and_then o (λ s₁.
            and_then (mark_order (take (n + 1) (replicate (n + 1) (negsuc 1) ++ rest)) s₁) (λ s₂.
              write_all mtd m nb_pages 0 0 (pos 0) (record s₂ {
                meta_blkordr = replicate (n + 1) (negsuc 1) ++ rest;
                metadata_size = s₂.hashtable_size + s₂.block_info_size;
              })))
            ≡ crashes
      recycled (done s₁) e = unfold and_then in rw (mark_order-first n rest s₁)
      recycled hangs e = absurd (unfold Ends in e)
      recycled crashes e = unfold and_then in refl

  flush_locked-full :
      (m : Image F) (s : Store F) → any_empty s.blocks ≡ false → flush_locked mtd m s ≡ crashes
  unfolding flush_locked
  flush_locked-full m s h =
      let nb_pages = s.metadata_size / s.page_size in
      let n = nb_pages / s.pages_per_block in
      let pre = s.meta_blkordr in
      let c : Chosen F = record {
        order = replicate (n + 1) (negsuc 1) ++ drop (n + 1) pre;
        cnt = 0;
        store = s;
      } in
      by_size (ltb (length pre) (n + 1)) (
        ap (flush_chosen mtd m nb_pages (n + 1) pre)
          (choose-none (n + 1) (take (n + 1) pre) (length s.blocks) 0 c h)
        ∙ flush_chosen-first m nb_pages n pre (drop (n + 1) pre) s)
    where
      by_size :
          {o : Outcome (ℤ × Store F)} (b : Bool)
          → o ≡ crashes
          → (if b then crashes else o) ≡ crashes
      by_size true e = refl
      by_size false e = e

  -- When no block of the flash is free and the lock is free, a flush that is forced, by gc_check or by the unload of the
  -- module, ends in BUG() or in an access outside the array of blocks: the blocks that it uses again do not come into
  -- `meta_blkordr`.
  pub flush_metadata-full :
      (m : Image F) (k : System F)
      → k.store.erase_lock ≡ false
      → any_empty k.store.blocks ≡ false
      → flush_metadata mtd m true k ≡ crashes
  unfolding flush_metadata flush_now and_then
  flush_metadata-full m k free h =
      let e : flush_now mtd m k ≡ crashes = rw (flush_locked-full m (with_lock true k.store) h) in
      by_lock k.store.erase_lock free e
    where
      by_lock :
          {o : Outcome (ℤ × System F)} (b : Bool)
          → b ≡ false
          → o ≡ crashes
          → (if b then hangs else o) ≡ crashes
      by_lock b q e = rw (q, e)
