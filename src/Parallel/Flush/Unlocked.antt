-- ===== src/Parallel/Flush/Unlocked.antt =====
-- What flush_metadata does under erase_lock ends, and keeps what the writes to the fields keep.
use linux_kernel_programming.Prelude.{
  ℕ, zero, suc, ◌+◌, ◌-◌, ◌*◌, ◌/◌, ◌%◌, ◌==◌, ◌||◌, Bool, true, false, none, List, [], ◌∷◌, ◌++◌,
  ltb, take, drop, replicate, length, if◌then◌else◌,
}
use linux_kernel_programming.Prelude.Int.{ℤ, pos, negsuc}
use linux_kernel_programming.Prelude.Bytes.{memcpy}
use linux_kernel_programming.Vanilla.{Mtd}
use linux_kernel_programming.Parallel.{
  BlkInfo, Store, done, crashes, is_meta, mark_used, write_page,
}
use linux_kernel_programming.Parallel.Erase.{format_single}
use linux_kernel_programming.Parallel.Collect.{is_empty, or_block}
use linux_kernel_programming.Parallel.Ends.{Ends, Ends-if, Ends-and_then}
use linux_kernel_programming.Parallel.Keeps.{
  Closed, After, mark_used-Kept, write_page-Kept, format_single-Kept,
}
use linux_kernel_programming.Parallel.Flush.{
  Image, Chosen, entry, meta_hdr_base, decimal, find_winner, mark_order, meta_page, written,
  write_meta_hdr, choose, take_block, flush_chosen, recycle, write_meta, write_all, flush_locked,
}

module _ {F : Type 0} (mtd : Mtd F) (P : Store F → Type 0) (closed : Closed P) where
  ChosenKept : Chosen F → Type 0
  ChosenKept c = P c.store

  mark_order-Kept : (order : List ℤ) (s : Store F) → P s → Ends P (mark_order order s)
  unfolding mark_order Ends
  mark_order-Kept [] s h = h
  mark_order-Kept (negsuc n ∷ order) s h = tt
  mark_order-Kept (pos i ∷ order) s h =
      mark_order-Kept order (mark_used i s) (mark_used-Kept mtd P closed i s h)

  written-Kept : (ret : ℤ) (s : Store F) → P s → Ends P (written (ret, s))
  unfolding written Ends
  written-Kept (pos zero) s h = h
  written-Kept (pos (suc n)) s h = tt
  written-Kept (negsuc n) s h = tt

  write_meta_hdr-Kept :
      (pg_idx n : ℕ) (s : Store F) → P s → Ends (After P) (write_meta_hdr mtd pg_idx n s)
  unfolding write_meta_hdr Ends
  write_meta_hdr-Kept pg_idx n s h =
      let buf = memcpy (replicate s.page_size 0) 0 (meta_hdr_base ++ decimal n) in
      Ends-if (After P) s.meta_read_only _ _ h (
        Ends-and_then (After P) (After P) (write_page mtd pg_idx buf s)
          (λ r. done (r.0, mark_used (pg_idx / s.pages_per_block) r.1))
          (write_page-Kept mtd P closed pg_idx buf s h)
          (λ r k. mark_used-Kept mtd P closed (pg_idx / s.pages_per_block) r.1 k))

  choose-Kept :
      (nb_blocks : ℕ) (pre : List ℤ) (n i : ℕ) (c : Chosen F)
      → ChosenKept c
      → ChosenKept (choose mtd nb_blocks pre n i c)
  unfolding choose ChosenKept
  choose-Kept nb_blocks pre zero i c h = h
  choose-Kept nb_blocks pre (suc n) i c h =
      let c' = take_block mtd nb_blocks pre i c in
      let winner =
        or_block
          (find_winner (take nb_blocks c.order) pre c.store.blocks (i + 1) none
            (drop (i + 1) c.store.blocks))
          i in
      let k : ChosenKept c' =
        unfold take_block in
        format_single-Kept mtd P closed (entry pre c.cnt) (mark_used winner c.store)
          (mark_used-Kept mtd P closed winner c.store h) in
      by_block (is_meta i (take nb_blocks c.order) || is_meta i pre) (drop i c.store.blocks)
        (choose mtd nb_blocks pre n (i + 1) c) c' (choose mtd nb_blocks pre n (i + 1) c')
        (ltb c'.cnt nb_blocks) (choose-Kept nb_blocks pre n (i + 1) c h) k
        (choose-Kept nb_blocks pre n (i + 1) c' k)
    where
      by_tests :
          (x y z : Chosen F) (e q : Bool)
          → ChosenKept x
          → ChosenKept y
          → ChosenKept z
          → ChosenKept (if e then if q then z else y else x)
      by_tests x y z false q kx ky kz = kx
      by_tests x y z true true kx ky kz = kz
      by_tests x y z true false kx ky kz = ky

      by_block :
          (used : Bool) (bs : List BlkInfo) (x y z : Chosen F) (p : Bool)
          → ChosenKept x
          → ChosenKept y
          → ChosenKept z
          → ChosenKept (
              if used
              then x
              else elim bs [ [] ↦ c | b ∷ bs' ↦ if is_empty b then if p then z else y else x ])
      by_block true bs x y z p kx ky kz = kx
      by_block false [] x y z p kx ky kz = h
      by_block false (b ∷ bs') x y z p kx ky kz = by_tests x y z (is_empty b) p kx ky kz

  pub recycle-Kept : (pre : List ℤ) (n i : ℕ) (s : Store F) → P s → Ends P (recycle mtd pre n i s)
  unfolding recycle Ends
  recycle-Kept pre zero i s h = h
  recycle-Kept pre (suc n) i s h = by_entry (λ t k. recycle-Kept pre n (i + 1) t k) (entry pre i)
    where
      by_entry :
          ((t : Store F) → P t → Ends P (recycle mtd pre n (i + 1) t))
          → (b : ℤ)
          → Ends P (elim b [
            | negsuc k ↦ crashes
            | pos b ↦ recycle mtd pre n (i + 1) (mark_used b (format_single mtd (pos b) s).1)
          ])
      by_entry rest (negsuc k) = tt
      by_entry rest (pos b) = rest _ (
          mark_used-Kept mtd P closed b (format_single mtd (pos b) s).1
            (format_single-Kept mtd P closed (pos b) s h))

  write_meta-Kept :
      (m : Image F) (i jack_ofs : ℕ) (b ret : ℤ) (s : Store F)
      → P s
      → Ends (After P) (write_meta mtd m i jack_ofs b ret s)
  unfolding write_meta Ends
  write_meta-Kept m i jack_ofs (negsuc n) ret s h = tt
  write_meta-Kept m i jack_ofs (pos b) ret s h =
      let j = i % (s.pages_per_block - 1) in
      let page = meta_page m i s in
      let header = write_meta_hdr mtd (b * s.pages_per_block) jack_ofs s in
      Ends-and_then (After P) (After P) (if j == 0 then header else done (ret, s)) _
        (Ends-if (After P) (j == 0) header (done (ret, s))
          (write_meta_hdr-Kept (b * s.pages_per_block) jack_ofs s h) h)
        (λ r k.
          Ends-and_then (After P) (After P)
            (write_page mtd (b * s.pages_per_block + j + 1) page r.1) _
            (write_page-Kept mtd P closed (b * s.pages_per_block + j + 1) page r.1 k)
            (λ w k'.
              Ends-and_then P (After P) (written w) (λ s'. done (r.0, s')) (written-Kept w.0 w.1 k')
                (λ s' k''. k'')))

  write_all-Kept :
      (m : Image F) (n i jack_ofs : ℕ) (ret : ℤ) (s : Store F)
      → P s
      → Ends (After P) (write_all mtd m n i jack_ofs ret s)
  unfolding write_all Ends
  write_all-Kept m zero i jack_ofs ret s h = h
  write_all-Kept m (suc n) i jack_ofs ret s h =
      let first = i % (s.pages_per_block - 1) == 0 in
      let number = if first then jack_ofs else jack_ofs - 1 in
      Ends-and_then (After P) (After P)
        (write_meta mtd m i number (entry s.meta_blkordr number) ret s)
        (λ r. write_all mtd m n (i + 1) (number + 1) r.0 r.1)
        (write_meta-Kept m i number (entry s.meta_blkordr number) ret s h)
        (λ r k. write_all-Kept m n (i + 1) (number + 1) r.0 r.1 k)

  flush_chosen-Kept :
      (m : Image F) (nb_pages nb_blocks : ℕ) (pre : List ℤ) (c : Chosen F)
      → ChosenKept c
      → Ends (After P) (flush_chosen mtd m nb_pages nb_blocks pre c)
  unfolding flush_chosen ChosenKept
  flush_chosen-Kept m nb_pages nb_blocks pre c k =
      Ends-and_then P (After P) (recycle mtd pre (nb_blocks - c.cnt) c.cnt c.store) _
        (recycle-Kept pre (nb_blocks - c.cnt) c.cnt c.store k)
        (λ s₁ k₁.
          Ends-and_then P (After P) (mark_order (take nb_blocks c.order) s₁) _
            (mark_order-Kept (take nb_blocks c.order) s₁ k₁)
            (λ s₂ k₂.
              write_all-Kept m nb_pages 0 0 (pos 0) _
                (closed.at_order s₂ c.order (s₂.hashtable_size + s₂.block_info_size) k₂)))

  pub flush_locked-Kept : (m : Image F) (s : Store F) → P s → Ends (After P) (flush_locked mtd m s)
  unfolding flush_locked
  flush_locked-Kept m s h =
      let nb_pages = s.metadata_size / s.page_size in
      let nb_blocks = nb_pages / s.pages_per_block + 1 in
      let pre = s.meta_blkordr in
      let c : Chosen F = record {
        order = replicate nb_blocks (negsuc 1) ++ drop nb_blocks pre;
        cnt = 0;
        store = s;
      } in
      Ends-if (After P) (ltb (length pre) nb_blocks) crashes _ (unfold Ends in tt) (
        flush_chosen-Kept m nb_pages nb_blocks pre _ (
          choose-Kept nb_blocks (take nb_blocks pre) (length s.blocks) 0 c
            (unfold ChosenKept in h)))
