-- ===== src/Parallel/Choice.antt =====
-- The choice of a block in p6/prototype-parallel/kernel/core.c and in p6/prototype-serial/kernel/core.c.
use linux_kernel_programming.Prelude.{
  ℕ, ◌+◌, ◌/◌, ◌≡◌, refl, Bool, List, [], ◌∷◌, take, if◌then◌else◌, Bool-cases, inl, inr,
}
use linux_kernel_programming.Prelude.Int.{ℤ, negsuc}
use linux_kernel_programming.Serial.Blocks as Serial
use linux_kernel_programming.Serial.Blocks.{least_worn, is_healthy, blk_invalid, blk_used}
use linux_kernel_programming.Parallel.{BlkInfo, Store, is_meta, healthy_loop, get_healthy_block}

-- The blocks as the serial store has them, the metadata blocks as invalid ones.
abbrev pub serial_block : Bool → BlkInfo → Serial.BlkInfo
serial_block meta b = record {
  state = if meta then blk_invalid else blk_used;
  worn = b.worn;
  nb_invalid = b.nb_invalid;
  current_page_offset = b.current_page_offset;
}

unfoldable pub serial_blocks : List ℤ → ℕ → List BlkInfo → List Serial.BlkInfo
serial_blocks order i [] = []
serial_blocks order i (b ∷ bs) = serial_block (is_meta i order) b ∷ serial_blocks order (i + 1) bs

healthy_loop-least_worn :
    (pages_per_block : ℕ) (order : List ℤ) (i minimum : ℕ) (ret : ℤ) (bs : List BlkInfo)
    → healthy_loop pages_per_block order i minimum ret bs
      ≡ least_worn (is_healthy pages_per_block) i minimum ret (serial_blocks order i bs)
unfolding healthy_loop least_worn serial_blocks
healthy_loop-least_worn w order i minimum ret [] = refl
healthy_loop-least_worn w order i minimum ret (b ∷ bs) = elim (Bool-cases (is_meta i order)) [
  | inl e ↦ rw e (healthy_loop-least_worn w order (i + 1) minimum ret bs)
  | inr e ↦ rw e (healthy_loop-least_worn w order (i + 1) _ _ bs)
]

-- get_healthy_block of the parallel store chooses the block that the one of the serial store chooses, when the
-- first blocks of `meta_blkordr` are taken for invalid ones: as many as the metadata with one page more needs.
pub get_healthy_block-serial :
    {F : Type 0} (s : Store F)
    → let nb_blocks = (s.metadata_size / s.page_size + 1) / s.pages_per_block + 1 in
      get_healthy_block s
      ≡ Serial.get_healthy_block s.pages_per_block
          (serial_blocks (take nb_blocks s.meta_blkordr) 0 s.blocks)
unfolding get_healthy_block Serial.get_healthy_block
get_healthy_block-serial s =
    healthy_loop-least_worn s.pages_per_block _ 0 0x7fff_ffff (negsuc 0) s.blocks
