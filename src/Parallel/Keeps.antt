-- ===== src/Parallel/Keeps.antt =====
-- Properties of the store of p6/prototype-parallel/kernel/core.c that the writes to its fields keep.
use linux_kernel_programming.Prelude.{
  ℕ, ◌+◌, ◌*◌, ◌/◌, ◌%◌, Bool, true, false, Bool-cases, inl, inr, List, set, replicate,
  if◌then◌else◌,
}
use linux_kernel_programming.Prelude.Int.{ℤ, pos, negsuc}
use linux_kernel_programming.Prelude.Words.{add32, u64_mod}
use linux_kernel_programming.Vanilla.{
  Mtd, EraseResult, erase_rejected, erase_done, erase_failed, blk_free,
}
use linux_kernel_programming.Serial.HashTable.{Bucket, bucket_at, pg_free}
use linux_kernel_programming.Parallel.{
  BlkInfo, Store, done, crashes, block_at, mark_used, next_offset, check_full, is_read_only,
  invalid_pg, list_add, write_page, write_data_hdr,
}
use linux_kernel_programming.Parallel.HashTable.{hash_add}
use linux_kernel_programming.Parallel.Erase.{format_single, erase_with, reset_block}
use linux_kernel_programming.Parallel.Ends.{Ends, Ends-if, Ends-and_then, Held}

-- The writes of write_page to the store keep the property.
pub record Writes {F : Type 0} (P : Store F → Type 0) : Type 0 where
  pub at_flash : (s : Store F) (f : F) → P s → P (record s { flash = f })
  pub at_block :
      (s : Store F) (i : ℕ) (b : BlkInfo) → P s → P (record s { blocks = set s.blocks i b })
  pub at_flags :
      (s : Store F) (r r' : Bool) → P s → P (record s { read_only = r; meta_read_only = r' })

-- Each write to a field of the store keeps the property.
pub record Closed {F : Type 0} (P : Store F → Type 0) : Type 0 where
  pub at_flash : (s : Store F) (f : F) → P s → P (record s { flash = f })
  pub at_block :
      (s : Store F) (i : ℕ) (b : BlkInfo) → P s → P (record s { blocks = set s.blocks i b })
  pub at_lists : (s : Store F) (l : ℕ → List ℕ) → P s → P (record s { lists = l })
  pub at_flags :
      (s : Store F) (r r' : Bool) → P s → P (record s { read_only = r; meta_read_only = r' })
  pub at_bucket :
      (s : Store F) (g : ℕ) (b : Bucket) → P s → P (record s { hashtable = set s.hashtable g b })
  pub at_added :
      (s : Store F) (key : List ℕ) (index : ℕ)
      → P s
      → P (record s { hashtable = (hash_add s.hash_size key index s.hashtable).1 })
  pub at_order :
      (s : Store F) (o : List ℤ) (n : ℕ)
      → P s
      → P (record s { meta_blkordr = o; metadata_size = n })

-- The lock is not among those fields.
pub Held-Closed : {F : Type 0} (held : Bool) → Closed {F = F} (Held held)
Held-Closed held = record {
  at_flash = λ s f h. h;
  at_block = λ s i b h. h;
  at_lists = λ s l h. h;
  at_flags = λ s r r' h. h;
  at_bucket = λ s g b h. h;
  at_added = λ s key index h. h;
  at_order = λ s o n h. h;
}

module _ {F : Type 0} (P : Store F → Type 0) where
  abbrev pub After : ℤ × Store F → Type 0
  After r = P r.1

module _ {F : Type 0} (mtd : Mtd F) (P : Store F → Type 0) (writes : Writes P) where
  check_full-Written : (ret : ℤ) (s : Store F) → P s → P (check_full ret s).1
  unfolding check_full
  check_full-Written ret s h = elim (Bool-cases (is_read_only s)) [
    | inl e ↦ rw e (writes.at_flags s true s.meta_read_only h)
    | inr e ↦ rw e h
  ]

  pub write_page-Written :
      (i : ℕ) (buf : List ℕ) (s : Store F) → P s → Ends (After P) (write_page mtd i buf s)
  unfolding write_page Ends
  write_page-Written i buf s h =
      by_driver s.read_only (mtd.mtd_write (i * s.page_size % u64_mod) buf s.flash)
    where
      by_driver :
          (r : Bool) (w : Bool × F)
          → Ends (After P) (
              if r
              then done (check_full (negsuc 0) s)
              else if w.0
              then done (
                  check_full
                    (pos 0)
                    (next_offset (i / s.pages_per_block) (record s { flash = w.1 })))
              else crashes)
      by_driver true w = check_full-Written (negsuc 0) s h
      by_driver false (true, f) =
          check_full-Written (pos 0) (next_offset (i / s.pages_per_block) (record s { flash = f }))
            (writes.at_block (record s { flash = f }) (i / s.pages_per_block) _
              (writes.at_flash s f h))
      by_driver false (false, f) = tt

  pub write_data_hdr-Written : (i : ℕ) (s : Store F) → P s → Ends (After P) (write_data_hdr mtd i s)
  unfolding write_data_hdr Ends
  write_data_hdr-Written i s h = Ends-if (After P) s.meta_read_only _ _ h (
      Ends-and_then (After P) (After P) (write_page mtd i (replicate s.page_size 0) s)
        (λ r. done (r.0, mark_used (i / s.pages_per_block) r.1))
        (write_page-Written i (replicate s.page_size 0) s h)
        (λ r k. writes.at_block r.1 (i / s.pages_per_block) _ k))

module _ {F : Type 0} (mtd : Mtd F) (P : Store F → Type 0) (closed : Closed P) where
  pub mark_used-Kept : (i : ℕ) (s : Store F) → P s → P (mark_used i s)
  mark_used-Kept i s h = closed.at_block s i _ h

  pub list_add-Kept : (b g : ℕ) (s : Store F) → P s → P (list_add b g s)
  list_add-Kept b g s h = closed.at_lists s _ h

  pub invalid_pg-Kept : (g : ℕ) (s : Store F) → P s → P (invalid_pg g s)
  unfolding invalid_pg
  invalid_pg-Kept g s h =
      let b = bucket_at s.hashtable g in
      let i = b.index / s.pages_per_block in
      let block = block_at s.blocks i in
      let t : Store F = record s {
        hashtable = set s.hashtable g (record b { p_state = pg_free });
      } in
      let u : Store F = record t {
        blocks = set s.blocks i (record block { nb_invalid = block.nb_invalid + 1 });
      } in
      closed.at_lists u _ (closed.at_block t i _ (closed.at_bucket s g _ h))

  writes_of : Writes P
  writes_of = record {
    at_flash = closed.at_flash;
    at_block = closed.at_block;
    at_flags = closed.at_flags;
  }

  pub write_page-Kept :
      (i : ℕ) (buf : List ℕ) (s : Store F) → P s → Ends (After P) (write_page mtd i buf s)
  write_page-Kept = write_page-Written mtd P writes_of

  pub write_data_hdr-Kept : (i : ℕ) (s : Store F) → P s → Ends (After P) (write_data_hdr mtd i s)
  write_data_hdr-Kept = write_data_hdr-Written mtd P writes_of

  reset_block-Kept : (i : ℕ) (s : Store F) → P s → P (reset_block i s)
  unfolding reset_block
  reset_block-Kept i s h =
      let b : BlkInfo = record {
        state = blk_free;
        worn = add32 (block_at s.blocks i).worn 1;
        nb_invalid = 0;
        current_page_offset = 0;
      } in
      let t : Store F = record s { blocks = set s.blocks i b } in
      let u : Store F = record t { read_only = false; meta_read_only = false } in
      closed.at_lists u _ (closed.at_flags t false false (closed.at_block s i b h))

  pub format_single-Kept : (i : ℤ) (s : Store F) → P s → P (format_single mtd i s).1
  unfolding format_single
  format_single-Kept (negsuc n) s h = h
  format_single-Kept (pos i) s h =
      by_driver (mtd.mtd_erase (i * s.block_size % u64_mod) s.block_size s.flash)
    where
      by_driver : (r : EraseResult × F) → P (erase_with i r s).1
      by_driver (erase_done, f) =
          unfold erase_with in reset_block-Kept i (record s { flash = f }) (closed.at_flash s f h)
      by_driver (erase_rejected, f) = unfold erase_with in closed.at_flash s f h
      by_driver (erase_failed, f) = unfold erase_with in closed.at_flash s f h
