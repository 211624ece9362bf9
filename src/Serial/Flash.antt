-- ===== src/Serial/Flash.antt =====
-- Pages and blocks on the flash in p6/prototype-serial/kernel/core.c: write_page, read_page,
-- format_single, write_hdr, get_next_page. `lists b` is the list of block `b`: the buckets that hold its
-- valid pages, head first.
pub mod Extends
pub mod Write
pub mod Next
mod Tests
use linux_kernel_programming.Prelude.{
  ℕ, zero, ◌+◌, ◌*◌, ◌/◌, ◌%◌, Bool, true, false, Option, List, [], ltb, ◌==◌, if◌then◌else◌, set,
  replicate,
}
use linux_kernel_programming.Prelude.Int.{ℤ, pos, negsuc}
use linux_kernel_programming.Prelude.Words.{add32, u64_mod}
use linux_kernel_programming.Prelude.Bytes.{le32, memcpy}
use linux_kernel_programming.Vanilla.{Mtd, EraseResult, erase_rejected, erase_done, erase_failed}
use linux_kernel_programming.Serial.Blocks.{
  BlkInfo, blk_free, blk_used, block_at, get_healthy_block, is_read_only,
}

-- The part of `lkp_kv_cfg` that these functions use, with the contents of the flash.
pub record Config (F : Type 0) : Type 0 where
  pub flash : F
  pub block_size : ℕ
  pub page_size : ℕ
  pub pages_per_block : ℕ
  pub blocks : List BlkInfo
  pub format_done : ℤ
  pub read_only : Bool
  pub lists : ℕ → List ℕ

-- `NAND_DATA`, or `NAND_META_DATA` with the number of the metadata block.
pub data Header : Type 0 where
  nand_data : Header
  nand_meta_data : ℕ → Header

module _ {F : Type 0} where
  -- `blocks[i].current_page_offset++`
  abbrev pub next_offset : ℕ → Config F → Config F
  next_offset i c =
      let b = block_at c.blocks i in
      record c {
        blocks = set c.blocks i (record b { current_page_offset = b.current_page_offset + 1 });
      }

  -- `blocks[i].state = BLK_USED`
  abbrev pub use_block : ℕ → Config F → Config F
  use_block i c = record c {
    blocks = set c.blocks i (record (block_at c.blocks i) { state = blk_used });
  }

  -- The end of write_page: the last page was written, or there are more.
  unfoldable pub check_full : Config F → ℤ × Config F
  check_full c =
      if is_read_only c.pages_per_block c.blocks
      then (negsuc 0, record c { read_only = true })
      else (pos 0, c)

  -- The metadata after a successful erase of block `i`.
  unfoldable pub reset_block : ℕ → Config F → Config F
  reset_block i c = record c {
    blocks = set c.blocks i (record {
      state = blk_free;
      worn = add32 (block_at c.blocks i).worn 1;
      nb_invalid = 0;
      current_page_offset = 0;
    });
    read_only = false;
    lists = λ b. if b == i then [] else c.lists b;
  }

  -- The callback has run when the wait ends.
  unfoldable pub erase_with : ℕ → EraseResult × F → Config F → ℤ × Config F
  erase_with i (erase_rejected, flash') c =
      (negsuc 0, record c { flash = flash'; format_done = pos 0 })
  erase_with i (erase_failed, flash') c =
      (negsuc 0, record c { flash = flash'; format_done = negsuc 0 })
  erase_with i (erase_done, flash') c =
      (pos 0, reset_block i (record c { flash = flash'; format_done = pos 1 }))

  module _ (mtd : Mtd F) where
    unfoldable pub read_page : ℕ → Config F → Option (List ℕ)
    read_page page_index c = mtd.mtd_read (page_index * c.page_size % u64_mod) c.page_size c.flash

    unfoldable pub write_page : ℕ → List ℕ → Config F → ℤ × Config F
    write_page page_index buf c =
        let (done, flash') = mtd.mtd_write (page_index * c.page_size % u64_mod) buf c.flash in
        let c₁ = record c { flash = flash' } in
        if c.read_only
        then (negsuc 0, c)
        else if done
        then check_full (next_offset (page_index / c.pages_per_block) c₁)
        else (negsuc 1, c₁)

    -- The return value of write_page is ignored.
    unfoldable pub write_hdr : ℕ → Header → Config F → Config F
    write_hdr pg_idx nand_data c =
        use_block (pg_idx / c.pages_per_block) (write_page pg_idx (replicate c.page_size 0) c).1
    write_hdr pg_idx (nand_meta_data meta_blk_num) c =
        let buf = memcpy (replicate c.page_size 0) 0 (le32 1990) in
        (write_page pg_idx (memcpy buf 4 (le32 meta_blk_num)) c).1

    -- What get_next_page does with the block that it chose: an empty block gets its header first.
    unfoldable pub prepare_block : ℤ → Config F → ℤ × Config F
    prepare_block (negsuc n) c = (negsuc 0, c)
    prepare_block (pos b) c =
        let offset = (block_at c.blocks b).current_page_offset in
        let fresh = write_hdr (b * c.pages_per_block + offset) nand_data (use_block b c) in
        (pos b, if ltb offset 1 then fresh else c)

    unfoldable pub get_next_page : Config F → ℤ × Config F
    get_next_page c = prepare_block (get_healthy_block c.pages_per_block c.blocks) c

    -- A negative index is no error.
    unfoldable pub format_single : ℤ → Config F → ℤ × Config F
    format_single (negsuc n) c = (pos 0, c)
    format_single (pos i) c =
        erase_with i (mtd.mtd_erase (i * c.block_size % u64_mod) c.block_size c.flash) c
