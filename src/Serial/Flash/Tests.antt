-- ===== src/Serial/Flash/Tests.antt =====
-- Erasing a block of a flash of two blocks.
use linux_kernel_programming.Prelude.{ℕ, ◌+◌, ◌≡◌, refl, true, [], ◌∷◌, some, replicate}
use linux_kernel_programming.Prelude.Int.{pos, negsuc}
use linux_kernel_programming.Vanilla.{Mtd, erase_done}
use linux_kernel_programming.Serial.Blocks.{int_order, blk_used, get_healthy_block, least_worn}
use linux_kernel_programming.Serial.Flash.{Config, get_next_page, prepare_block}

-- A flash that only counts the pages written since it was erased.
abbrev driver : Mtd ℕ
driver = record {
  mtd_read = λ a len f. some (replicate len 255);
  mtd_write = λ a buf f. (true, f + 1);
  mtd_erase = λ a len f. (erase_done, 0);
}

abbrev full : Config ℕ
full = record {
  flash = 4;
  block_size = 32;
  page_size = 16;
  pages_per_block = 2;
  blocks =
      record { state = blk_used; worn = 3; nb_invalid = 2; current_page_offset = 2 }
      ∷ record { state = blk_used; worn = 5; nb_invalid = 0; current_page_offset = 2 }
      ∷ [];
  format_done = pos 0;
  read_only = true;
  lists = λ b. [];
}

no_page : (get_next_page driver full).0 ≡ negsuc 0
unfolding get_next_page get_healthy_block least_worn int_order prepare_block
no_page = refl
