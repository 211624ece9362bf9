-- ===== src/Serial/Format.antt =====
-- format in p6/prototype-serial/kernel/core.c: the whole flash is erased.
pub mod Empty
use linux_kernel_programming.Prelude.{ℕ, ◌*◌, ◌%◌, Bool, false, List, [], map, length}
use linux_kernel_programming.Prelude.Int.{ℤ, pos, negsuc}
use linux_kernel_programming.Prelude.Words.{u64_mod}
use linux_kernel_programming.Vanilla.{Mtd, EraseResult, erase_rejected, erase_done, erase_failed}
use linux_kernel_programming.Serial.HashTable.{Bucket, pg_free}
use linux_kernel_programming.Serial.Blocks.{BlkInfo, blk_free}
use linux_kernel_programming.Serial.Flash.{Config}
use linux_kernel_programming.Serial.Store.{Store}

-- A block and a bucket after the format. The key and the page of a bucket stay.
abbrev pub fresh_block : BlkInfo → BlkInfo
fresh_block b = record { state = blk_free; worn = 0; nb_invalid = 0; current_page_offset = 0 }

abbrev pub fresh_bucket : Bucket → Bucket
fresh_bucket b = record b { p_state = pg_free; dirty = false }

module _ {F : Type 0} where
  unfoldable pub reset_store : Store F → Store F
  reset_store s = record s {
    config = record s.config {
      read_only = false;
      blocks = map fresh_block s.config.blocks;
      lists = λ b. [];
    };
    hashtable = map fresh_bucket s.hashtable;
  }

  -- The callback has run when the wait ends.
  unfoldable pub format_with : EraseResult × F → Store F → ℤ × Store F
  format_with (erase_rejected, flash') s =
      (negsuc 0, record s { config = record s.config { flash = flash'; format_done = pos 0 } })
  format_with (erase_failed, flash') s =
      (negsuc 1, record s { config = record s.config { flash = flash'; format_done = negsuc 0 } })
  format_with (erase_done, flash') s = (
    pos 0,
    reset_store (record s { config = record s.config { flash = flash'; format_done = pos 1 } }),
  )

  unfoldable pub format : Mtd F → Store F → ℤ × Store F
  unfolding format_with
  format mtd s =
      format_with
        (mtd.mtd_erase 0 (s.config.block_size * length s.config.blocks % u64_mod) s.config.flash) s
