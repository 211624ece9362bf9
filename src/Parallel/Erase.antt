-- ===== src/Parallel/Erase.antt =====
-- Erasing in p6/prototype-parallel/kernel/core.c: format_single and format. The wait for the callback ends, since the
-- driver calls it.
pub mod Empty
use linux_kernel_programming.Prelude.{
  ℕ, ◌+◌, ◌*◌, ◌%◌, Bool, false, List, [], ◌==◌, if◌then◌else◌, set, map, length,
}
use linux_kernel_programming.Prelude.Int.{ℤ, pos, negsuc}
use linux_kernel_programming.Prelude.Words.{add32, u64_mod}
use linux_kernel_programming.Vanilla.{
  Mtd, EraseResult, erase_rejected, erase_done, erase_failed, blk_free,
}
use linux_kernel_programming.Serial.Format.{fresh_bucket}
use linux_kernel_programming.Parallel.{
  BlkInfo, Store, Outcome, done, hangs, crashes, block_at, with_lock,
}

abbrev pub fresh_block : BlkInfo → BlkInfo
fresh_block b = record { state = blk_free; worn = 0; nb_invalid = 0; current_page_offset = 0 }

module _ {F : Type 0} where
  unfoldable pub reset_block : ℕ → Store F → Store F
  reset_block i s =
      let worn = (block_at s.blocks i).worn in
      record s {
        blocks = set s.blocks i (record {
          state = blk_free;
          worn = add32 worn 1;
          nb_invalid = 0;
          current_page_offset = 0;
        });
        lists = λ k. if k == i then [] else s.lists k;
        read_only = false;
        meta_read_only = false;
      }

  -- How format_single ends by what the driver and its callback say.
  unfoldable pub erase_with : ℕ → EraseResult × F → Store F → ℤ × Store F
  erase_with i (erase_done, flash') s = (pos 0, reset_block i (record s { flash = flash' }))
  erase_with i (_, flash') s = (negsuc 0, record s { flash = flash' })

  unfoldable pub reset_store : Store F → Store F
  reset_store s = record s {
    read_only = false;
    meta_read_only = false;
    blocks = map fresh_block s.blocks;
    lists = λ b. [];
    hashtable = map fresh_bucket s.hashtable;
  }

  -- An erasure that fails is a BUG() of format.
  unfoldable pub format_with : EraseResult × F → Store F → Outcome (ℤ × Store F)
  format_with (erase_done, flash') s =
      done (pos 0, with_lock false (reset_store (record s { flash = flash' })))
  format_with _ s = crashes

  module _ (mtd : Mtd F) where
    unfoldable pub format_single : ℤ → Store F → ℤ × Store F
    unfolding erase_with
    format_single (negsuc n) s = (negsuc 0, s)
    format_single (pos i) s =
        erase_with i (mtd.mtd_erase (i * s.block_size % u64_mod) s.block_size s.flash) s

    unfoldable pub format : Store F → Outcome (ℤ × Store F)
    unfolding format_with
    format s =
        let formatted =
          format_with (mtd.mtd_erase 0 (s.block_size * length s.blocks % u64_mod) s.flash) s in
        if s.erase_lock then hangs else formatted
