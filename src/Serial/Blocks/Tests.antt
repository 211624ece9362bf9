-- ===== src/Serial/Blocks/Tests.antt =====
-- The choice of blocks on four blocks.
use linux_kernel_programming.Prelude.{ℕ, zero, suc, ◌<◌, ◌≡◌, refl, true, List, [], ◌∷◌, arith}
use linux_kernel_programming.Prelude.Int.{pos, negsuc}
use linux_kernel_programming.Serial.Blocks.{
  int_order, BlkInfo, blk_free, blk_used, blk_meta, block_at, is_usable, is_healthy, int_max,
  least_worn, get_healthy_block, get_meta_block, or_open_block,
}
use linux_kernel_programming.Serial.Blocks.Least.{Outcome, get_healthy_block-Outcome}

abbrev blocks : List BlkInfo
blocks =
    record { state = blk_meta; worn = 1; nb_invalid = 0; current_page_offset = 4 }
    ∷ record { state = blk_used; worn = 3; nb_invalid = 1; current_page_offset = 2 }
    ∷ record { state = blk_free; worn = 2; nb_invalid = 0; current_page_offset = 0 }
    ∷ record { state = blk_free; worn = 2; nb_invalid = 0; current_page_offset = 0 }
    ∷ []

healthy : get_healthy_block 4 blocks ≡ pos 2
unfolding get_healthy_block least_worn int_order
healthy = refl

meta : get_meta_block 4 blocks ≡ pos 2
unfolding get_meta_block or_open_block least_worn int_order
meta = refl

blocks_usable :
    (j : ℕ)
    → j < 4
    → (is_usable (block_at blocks j).state ≡ true) × ((block_at blocks j).worn < int_max)
blocks_usable zero h = (refl, omega arith)
blocks_usable (suc zero) h = (refl, omega arith)
blocks_usable (suc (suc zero)) h = (refl, omega arith)
blocks_usable (suc (suc (suc zero))) h = (refl, omega arith)
blocks_usable (suc (suc (suc (suc j)))) h = absurd (omega arith)

get_healthy_block-Outcome_example :
    Outcome (is_healthy 4) 0 int_max (negsuc 0) blocks (get_healthy_block 4 blocks)
get_healthy_block-Outcome_example = get_healthy_block-Outcome 4 blocks
