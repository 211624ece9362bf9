-- ===== src/Vanilla/Format.antt =====
-- Formatting: the state that it leaves.
use linux_kernel_programming.Prelude.{
  ℕ, zero, suc, ◌*◌, ◌/◌, ◌%◌, ◌<◌, ◌≡◌, ◌∙◌, refl, ap, false, List, [], ◌∷◌, map, arith, ◌==◌,
  Bool-cases, inl, inr, length, length-map, length-set,
}
use linux_kernel_programming.Prelude.Int.{pos}
use linux_kernel_programming.Prelude.Words.{u64_mod}
use linux_kernel_programming.Vanilla.{
  Config, Mtd, BlkInfo, blk_used, blk_free, PageState, pg_free, is_free, block_at, set_block_state,
  erase_done, not_found, reset, format_with, format, get_keyval,
}
use linux_kernel_programming.Vanilla.Scan.{is_valid_page, page_at, scanned, get_blocks-none}
use linux_kernel_programming.Vanilla.Alloc.{block_at-set}
use linux_kernel_programming.Vanilla.Roundtrip.{IsValid, IsOpen}

abbrev cleared : BlkInfo → BlkInfo
cleared b = record { state = blk_free; pages_states = map (λ _. pg_free) b.pages_states }

page_at-cleared :
    (ps : List PageState) (j : ℕ) → is_valid_page (page_at (map (λ _. pg_free) ps) j) ≡ false
page_at-cleared [] j = refl
page_at-cleared (p ∷ ps) zero = refl
page_at-cleared (p ∷ ps) (suc j) = page_at-cleared ps j

block_at-cleared :
    (bs : List BlkInfo) (b : ℕ) → block_at (map cleared bs) b ≡ cleared (block_at bs b)
block_at-cleared [] b = refl
block_at-cleared (x ∷ bs) zero = refl
block_at-cleared (x ∷ bs) (suc b) = block_at-cleared bs b

-- The blocks after a format: cleared, block 0 marked as used.
abbrev fresh : List BlkInfo → List BlkInfo
fresh bs = set_block_state 0 blk_used (map cleared bs)

module _ (bs : List BlkInfo) (some_block : 0 < length bs) where
  pages-fresh :
      (b : ℕ)
      → (block_at (fresh bs) b).pages_states ≡ map (λ _. pg_free) (block_at bs b).pages_states
  pages-fresh b =
      rw (block_at-set (map cleared bs) 0 b _ (omega (arith, length-map bs cleared)))
        (elim (Bool-cases (0 == b)) [
          | inl e ↦ let e' : 0 ≡ b = ground arith in rw (e, ← e', block_at-cleared bs 0)
          | inr e ↦ rw (e, block_at-cleared bs b)
        ])

  empty : (b j : ℕ) → is_valid_page (page_at (block_at (fresh bs) b).pages_states j) ≡ false
  empty b j =
      ap (λ ps. is_valid_page (page_at ps j)) (pages-fresh b)
      ∙ page_at-cleared (block_at bs b).pages_states j

  used-fresh : is_free (block_at (fresh bs) 0).state ≡ false
  used-fresh = rw (block_at-set (map cleared bs) 0 0 _ (omega (arith, length-map bs cleared)))

  scanned-fresh : (b j : ℕ) → scanned (fresh bs) b j ≡ false
  scanned-fresh b j = elim (Bool-cases (is_free (block_at (fresh bs) b).state)) [
    | inl e ↦ rw e
    | inr e ↦ rw e (empty b j)
  ]

-- The arrays of the store have the sizes of the flash, whose last page a 64-bit address reaches.
pub record IsShaped {F : Type 0} (c : Config F) : Type 0 where
  pub pages : c.block_size / c.page_size ≡ c.pages_per_block
  pub count : length c.blocks ≡ c.nb_blocks
  pub full_blocks :
      (b : ℕ) → b < c.nb_blocks → length (block_at c.blocks b).pages_states ≡ c.pages_per_block
  pub addressable : c.nb_blocks * c.pages_per_block * c.page_size < u64_mod

module _ {F : Type 0} (mtd : Mtd F) (c : Config F) where
  -- A format that the driver carries out, of a flash with a block and a page, returns 0. The store is then valid and
  -- writable at page 0 of block 0, and no key is found. Before it the arrays have the sizes of the flash; which pages and
  -- blocks are marked as in use, the current block, and read-only do not matter.
  pub format-IsValid :
      (f' : F)
      → IsShaped c
      → 0 < c.nb_blocks
      → 0 < c.pages_per_block
      → mtd.mtd_erase 0 (c.block_size * c.nb_blocks % u64_mod) c.flash ≡ (erase_done, f')
      → let (ret, c') = format mtd c in
        (ret ≡ pos 0)
        × IsValid c'
        × IsOpen c' 0 0
        × ((key : List ℕ) → get_keyval mtd key c' ≡ not_found)
  unfolding format format_with reset get_keyval
  format-IsValid f' v nb ppb e = rw e (
      let l : 0 < length c.blocks = rw v.count nb in
      let c' : Config F = reset (record c { flash = f'; format_done = pos 1 }) in
      (
        refl,
        record {
          pages = v.pages;
          count = length-set (map cleared c.blocks) 0 _ ∙ length-map c.blocks cleared ∙ v.count;
          full_blocks = λ b h.
              ap (λ (ps : List PageState). length ps) (pages-fresh c.blocks l b)
              ∙ length-map (block_at c.blocks b).pages_states _
              ∙ v.full_blocks b h;
          free_empty = λ b j f. empty c.blocks l b j;
          addressable = v.addressable;
        },
        record {
          block = refl;
          offset = refl;
          block_in = nb;
          offset_in = ppb;
          used = used-fresh c.blocks l;
          writable = refl;
        },
        λ key. get_blocks-none mtd c' key 0 (fresh c.blocks) (scanned-fresh c.blocks l),
      ))
