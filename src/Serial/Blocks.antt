-- ===== src/Serial/Blocks.antt =====
-- The choice of blocks in p6/prototype-serial/kernel/core.c: get_healthy_block, get_meta_block,
-- is_read_only. The blocks are the array `config.blocks`.
pub mod Least
mod Tests
use linux_kernel_programming.Prelude.{
  ℕ, ◌+◌, Bool, true, false, ◌&&◌, List, [], ◌∷◌, ltb, ◌==◌, if◌then◌else◌, get_or,
}
use linux_kernel_programming.Prelude.Int.{ℤ, pos, negsuc}
use linux_kernel_programming.Prelude.Words.{add32}

pub data BlkState : Type 0 where
  blk_free blk_used blk_meta blk_invalid : BlkState

-- `worn` counts erasures. It is an `int`, which wraps, and stands here as its 32-bit word. The list of valid pages stands in Serial.Flash.
pub record BlkInfo : Type 0 where
  pub state : BlkState
  pub worn : ℕ
  pub nb_invalid : ℕ
  pub current_page_offset : ℕ

abbrev pub is_usable : BlkState → Bool
is_usable blk_invalid = false
is_usable _ = true

abbrev pub is_data : BlkState → Bool
is_data blk_meta = false
is_data _ = true

abbrev pub is_used : BlkState → Bool
is_used blk_used = true
is_used _ = false

-- The distance of an `int` from the least one, by which ints are compared.
unfoldable pub int_order : ℕ → ℕ
int_order word = add32 word 0x8000_0000

-- `worn < minimum`
abbrev pub is_below : ℕ → ℕ → Bool
is_below worn minimum = ltb (int_order worn) (int_order minimum)

-- `0x7FFFFFFF`
abbrev pub int_max : ℕ
int_max = 0x7fff_ffff

abbrev pub block_at : List BlkInfo → ℕ → BlkInfo
block_at bs i =
    get_or bs i (record { state = blk_invalid; worn = 0; nb_invalid = 0; current_page_offset = 0 })

-- The loops over the blocks: from index `i` on, the first block with the least wear below `minimum`
-- among those that pass the test, or `ret`.
unfoldable pub least_worn : (BlkInfo → Bool) → ℕ → ℕ → ℤ → List BlkInfo → ℤ
least_worn ok i minimum ret [] = ret
least_worn ok i minimum ret (b ∷ bs) =
    let better = ok b && is_below b.worn minimum in
    least_worn ok (i + 1) (if better then b.worn else minimum) (if better then pos i else ret) bs

abbrev pub is_healthy : ℕ → BlkInfo → Bool
is_healthy pages_per_block b = is_usable b.state && ltb b.current_page_offset pages_per_block

unfoldable pub get_healthy_block : ℕ → List BlkInfo → ℤ
get_healthy_block pages_per_block bs =
    least_worn (is_healthy pages_per_block) 0 int_max (negsuc 0) bs

abbrev pub is_empty_data : BlkInfo → Bool
is_empty_data b = is_data b.state && (b.current_page_offset == 0)

abbrev pub is_open_data : ℕ → BlkInfo → Bool
is_open_data pages_per_block b = is_data b.state && ltb b.current_page_offset pages_per_block

-- The second loop runs when the first one found no block.
unfoldable pub or_open_block : ℕ → List BlkInfo → ℤ → ℤ
or_open_block pages_per_block bs (pos n) = pos n
or_open_block pages_per_block bs (negsuc n) =
    least_worn (is_open_data pages_per_block) 0 int_max (negsuc n) bs

unfoldable pub get_meta_block : ℕ → List BlkInfo → ℤ
get_meta_block pages_per_block bs =
    or_open_block pages_per_block bs (least_worn is_empty_data 0 int_max (negsuc 0) bs)

unfoldable pub is_read_only : ℕ → List BlkInfo → Bool
is_read_only pages_per_block [] = true
is_read_only pages_per_block (b ∷ bs) =
    let rest = is_read_only pages_per_block bs in
    if ltb b.current_page_offset pages_per_block then false else rest
