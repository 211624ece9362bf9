-- ===== src/Vanilla/Mount.antt =====
-- The mount of core.c: init_config and init_scan, which builds the metadata from the flash.
pub mod Scanned
use linux_kernel_programming.Prelude.{
  ℕ, zero, suc, ◌+◌, ◌-◌, ◌*◌, ◌/◌, Bool, true, false, Option, none, some, List, [], ◌∷◌, ◌==◌,
  if◌then◌else◌, get_or, take, replicate,
}
use linux_kernel_programming.Prelude.Int.{ℤ, pos, negsuc}
use linux_kernel_programming.Prelude.Bytes.{le_value}
use linux_kernel_programming.Vanilla.{
  PageState, pg_free, pg_valid, blk_free, blk_used, BlkInfo, Mtd, Config, block_at, free_mark,
  read_page,
}
use linux_kernel_programming.Vanilla.Scan.{is_valid_page, page_at}

-- What get_mtd_device returns. A partition has less than 2 ^ 31 blocks, so that `nb_blocks` is their number.
pub record MtdInfo (F : Type 0) : Type 0 where
  pub size : ℕ
  pub erasesize : ℕ
  pub writesize : ℕ
  pub contents : F

-- The first word of a page that was never written holds ones only.
abbrev pub is_erased : List ℕ → Bool
is_erased buffer = le_value (take 4 buffer) == free_mark

unfoldable pub cons_some {ℓ} : {A : Type ℓ} → A → Option (List A) → Option (List A)
cons_some a none = none
cons_some a (some xs) = some (a ∷ xs)

-- One page of the scan, with `n` pages behind it in the block, whose scan is `rest`. An erased page
-- ends the scan of the block.
unfoldable pub scan_page : Option (List ℕ) → ℕ → Option (List PageState) → Option (List PageState)
scan_page none n rest = none
scan_page (some buffer) n rest =
    if is_erased buffer then some (replicate (suc n) pg_free) else cons_some pg_valid rest

-- A block is used when a valid page was found in it. Valid pages come first.
unfoldable pub block_of : List PageState → BlkInfo
block_of [] = record { state = blk_free; pages_states = [] }
block_of (pg_free ∷ ps) = record { state = blk_free; pages_states = pg_free ∷ ps }
block_of (pg_valid ∷ ps) = record { state = blk_used; pages_states = pg_valid ∷ ps }

unfoldable pub cons_block : Option (List PageState) → Option (List BlkInfo) → Option (List BlkInfo)
cons_block none rest = none
cons_block (some ps) rest = cons_some (block_of ps) rest

module _ {F : Type 0} where
  -- The last page of the last block holds something.
  abbrev pub last_written : Config F → List BlkInfo → Bool
  last_written c bs =
      is_valid_page (page_at (block_at bs (c.nb_blocks - 1)).pages_states (c.pages_per_block - 1))

  -- On an error the metadata are freed.
  unfoldable pub finish_scan : Option (List BlkInfo) → Config F → ℤ × Config F
  finish_scan none c = (negsuc 0, record c { blocks = [] })
  finish_scan (some bs) c =
      (pos 0, record c { blocks = bs; read_only = if last_written c bs then true else c.read_only })

  module _ (mtd : Mtd F) where
    -- The pages of one block, `n` of them from page `index` on.
    unfoldable pub scan_pages : Config F → ℕ → ℕ → Option (List PageState)
    unfolding scan_page
    scan_pages c index zero = some []
    scan_pages c index (suc n) = scan_page (read_page mtd c index) n (scan_pages c (index + 1) n)

    -- `n` blocks from block `i` on.
    unfoldable pub scan_blocks : Config F → ℕ → ℕ → Option (List BlkInfo)
    unfolding cons_block
    scan_blocks c i zero = some []
    scan_blocks c i (suc n) =
        cons_block (scan_pages c (i * c.pages_per_block) c.pages_per_block)
          (scan_blocks c (i + 1) n)

    unfoldable pub init_scan : Config F → ℤ × Config F
    unfolding finish_scan
    init_scan c = finish_scan (scan_blocks c 0 c.nb_blocks) c

    -- `none` is the index -1, for which the parameter of the module was not given; `device` is what
    -- get_mtd_device returns for another index. The current block and page are not set here.
    unfoldable pub init_config : Option ℕ → (ℕ → Option (MtdInfo F)) → Config F → ℤ × Config F
    unfolding init_scan
    init_config none device c = (negsuc 0, c)
    init_config (some mtd_index) device c =
        let c₁ = record c { format_done = pos 0; read_only = false } in
        elim (device mtd_index) [
          | none ↦ (negsuc 0, c₁)
          | some info ↦ init_scan (record c₁ {
            flash = info.contents;
            block_size = info.erasesize;
            page_size = info.writesize;
            pages_per_block = info.erasesize / info.writesize;
            nb_blocks = info.size / info.erasesize;
          })
        ]
