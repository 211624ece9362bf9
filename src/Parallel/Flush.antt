-- ===== src/Parallel/Flush.antt =====
-- The metadata on the flash in p6/prototype-parallel/kernel/core.c: the header of a metadata block and flush_metadata, from
-- the lock it takes to the lock it releases. `crashes` stands for BUG() and for an access outside an array.
pub mod Unlocked
pub mod Full
use linux_kernel_programming.Prelude.{
  ℕ, zero, suc, ◌+◌, ◌-◌, ◌*◌, ◌/◌, ◌%◌, ◌==◌, Bool, true, false, ◌||◌, Option, none, some, List,
  [], ◌∷◌, ◌++◌, ltb, if◌then◌else◌, get_or, set, take, drop, replicate, length,
}
use linux_kernel_programming.Prelude.Int.{ℤ, pos, negsuc}
use linux_kernel_programming.Prelude.Bytes.{memcpy}
use linux_kernel_programming.Vanilla.{Mtd}
use linux_kernel_programming.Parallel.{
  BlkInfo, Store, Outcome, done, hangs, crashes, and_then, is_meta, mark_used, write_page,
}
use linux_kernel_programming.Parallel.Erase.{format_single}
use linux_kernel_programming.Parallel.Collect.{is_empty, find_free, less_worn, or_block}

abbrev pub meta_hdr_base : List ℕ
meta_hdr_base = b'9' ∷ b'4' ∷ b'8' ∷ b'7' ∷ b'9' ∷ b'4' ∷ b'0' ∷ []

-- The decimal digits of a number with at most `fuel` of them, in front of `rest`.
unfoldable pub digits : ℕ → ℕ → List ℕ → List ℕ
digits zero n rest = rest
digits (suc fuel) n rest =
    let front = digits fuel (n / 10) ((48 + n % 10) ∷ rest) in
    if ltb n 10 then (48 + n) ∷ rest else front

-- The text that `snprintf(tmp, 10, "%d", n)` leaves: nine digits at most.
abbrev pub decimal : ℕ → List ℕ
decimal n = take 9 (digits 10 n [])

-- Entry `i` of an array of block numbers.
abbrev pub entry : List ℤ → ℕ → ℤ
entry order i = get_or order i (negsuc 0)

-- The least worn free block from block `z` on that is in neither order.
unfoldable pub find_winner : List ℤ → List ℤ → List BlkInfo → ℕ → Option ℕ → List BlkInfo → Option ℕ
unfolding is_meta
find_winner order pre blocks z best [] = best
find_winner order pre blocks z best (b ∷ bs) =
    let skipped = find_winner order pre blocks (z + 1) best bs in
    let tried = find_winner order pre blocks (z + 1) (less_worn blocks z best) bs in
    if is_empty b then if is_meta z order || is_meta z pre then skipped else tried else skipped

-- What the machine keeps of both arrays: their bytes in memory, rounded up to pages.
pub record Image (F : Type 0) : Type 0 where
  pub block_bytes : Store F → List ℕ
  pub table_bytes : Store F → List ℕ

-- The blocks that were chosen so far: the new order, their number, and the store.
pub record Chosen (F : Type 0) : Type 0 where
  pub order : List ℤ
  pub cnt : ℕ
  pub store : Store F

module _ {F : Type 0} where
  -- The states of the blocks in the order are set; a number below 0 lies outside the array.
  unfoldable pub mark_order : List ℤ → Store F → Outcome (Store F)
  mark_order [] s = done s
  mark_order (negsuc n ∷ order) s = crashes
  mark_order (pos i ∷ order) s = mark_order order (mark_used i s)

  -- Page `i` of the metadata: the blocks first, then the table.
  unfoldable pub meta_page : Image F → ℕ → Store F → List ℕ
  meta_page m i s =
      let blk_pgs = s.block_info_size / s.page_size in
      if ltb i blk_pgs
      then take s.page_size (drop (i * s.page_size) (m.block_bytes s))
      else take s.page_size (drop ((i - blk_pgs) * s.page_size) (m.table_bytes s))

  -- A page that could not be written is a BUG().
  unfoldable pub written : ℤ × Store F → Outcome (Store F)
  written (pos zero, s) = done s
  written (pos (suc n), s) = crashes
  written (negsuc n, s) = crashes

  module _ (mtd : Mtd F) where
    -- write_hdr for metadata block number `n`.
    unfoldable pub write_meta_hdr : ℕ → ℕ → Store F → Outcome (ℤ × Store F)
    unfolding and_then
    write_meta_hdr pg_idx n s =
        let buf = memcpy (replicate s.page_size 0) 0 (meta_hdr_base ++ decimal n) in
        let written = write_page mtd pg_idx buf s in
        if s.meta_read_only
        then done (negsuc 0, s)
        else and_then written (λ r. done (r.0, mark_used (pg_idx / s.pages_per_block) r.1))

    -- Block `i` is free: the least worn of the free blocks behind it is taken, or else block `i`, and the old metadata
    -- block with its number is erased.
    unfoldable pub take_block : ℕ → List ℤ → ℕ → Chosen F → Chosen F
    unfolding find_winner
    take_block nb_blocks pre i c =
        let s = c.store in
        let winner =
          or_block
            (find_winner (take nb_blocks c.order) pre s.blocks (i + 1) none (drop (i + 1) s.blocks))
            i in
        record {
          order = set c.order c.cnt (pos winner);
          cnt = c.cnt + 1;
          store = (format_single mtd (entry pre c.cnt) (mark_used winner s)).1;
        }

    -- The loop that looks for `nb_blocks` free blocks, from block `i` on, with `n` blocks to go. `pre` is the old order.
    unfoldable pub choose : ℕ → List ℤ → ℕ → ℕ → Chosen F → Chosen F
    unfolding is_meta take_block
    choose nb_blocks pre zero i c = c
    choose nb_blocks pre (suc n) i c =
        let c' = take_block nb_blocks pre i c in
        let skipped = choose nb_blocks pre n (i + 1) c in
        let taken = choose nb_blocks pre n (i + 1) c' in
        if is_meta i (take nb_blocks c.order) || is_meta i pre
        then skipped
        else elim (drop i c.store.blocks) [
          | [] ↦ c
          | b ∷ bs ↦ if is_empty b then if ltb c'.cnt nb_blocks then taken else c' else skipped
        ]

    -- Old metadata blocks are used again when there are too few free ones: `n` of them, from number `i` on. The order
    -- is not set.
    unfoldable pub recycle : List ℤ → ℕ → ℕ → Store F → Outcome (Store F)
    recycle pre zero i s = done s
    recycle pre (suc n) i s = elim (entry pre i) [
      | negsuc k ↦ crashes
      | pos b ↦ recycle pre n (i + 1) (mark_used b (format_single mtd (pos b) s).1)
    ]

    -- One page of the metadata into block `b`, after its header when it is the first one.
    unfoldable pub write_meta : Image F → ℕ → ℕ → ℤ → ℤ → Store F → Outcome (ℤ × Store F)
    unfolding and_then written meta_page
    write_meta m i jack_ofs (negsuc k) ret s = crashes
    write_meta m i jack_ofs (pos b) ret s =
        let j = i % (s.pages_per_block - 1) in
        let page = meta_page m i s in
        let header = write_meta_hdr (b * s.pages_per_block) jack_ofs s in
        and_then (if j == 0 then header else done (ret, s)) (λ r.
          and_then (write_page mtd (b * s.pages_per_block + j + 1) page r.1)
            (λ w. and_then (written w) (λ s'. done (r.0, s'))))

    -- The loop over the pages of the metadata, `n` of them from page `i` on.
    unfoldable pub write_all : Image F → ℕ → ℕ → ℕ → ℤ → Store F → Outcome (ℤ × Store F)
    unfolding and_then write_meta
    write_all m zero i jack_ofs ret s = done (ret, s)
    write_all m (suc n) i jack_ofs ret s =
        let first = i % (s.pages_per_block - 1) == 0 in
        let number = if first then jack_ofs else jack_ofs - 1 in
        and_then (write_meta m i number (entry s.meta_blkordr number) ret s)
          (λ r. write_all m n (i + 1) (number + 1) r.0 r.1)

    -- What follows when the loop has chosen its blocks.
    unfoldable pub flush_chosen : Image F → ℕ → ℕ → List ℤ → Chosen F → Outcome (ℤ × Store F)
    unfolding and_then recycle mark_order write_all
    flush_chosen m nb_pages nb_blocks pre c =
        and_then (recycle pre (nb_blocks - c.cnt) c.cnt c.store) (λ s₁.
          and_then (mark_order (take nb_blocks c.order) s₁) (λ s₂.
            write_all m nb_pages 0 0 (pos 0) (record s₂ {
              meta_blkordr = c.order;
              metadata_size = s₂.hashtable_size + s₂.block_info_size;
            })))

    -- An array that is shorter than the number of blocks is overrun.
    unfoldable pub flush_locked : Image F → Store F → Outcome (ℤ × Store F)
    unfolding choose flush_chosen
    flush_locked m s =
        let nb_pages = s.metadata_size / s.page_size in
        let nb_blocks = nb_pages / s.pages_per_block + 1 in
        let pre = s.meta_blkordr in
        let order = replicate nb_blocks (negsuc 1) ++ drop nb_blocks pre in
        let c =
          choose nb_blocks (take nb_blocks pre) (length s.blocks) 0
            (record { order = order; cnt = 0; store = s }) in
        let flushed = flush_chosen m nb_pages nb_blocks pre c in
        if ltb (length pre) nb_blocks then crashes else flushed
