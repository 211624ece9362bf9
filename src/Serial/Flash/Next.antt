-- ===== src/Serial/Flash/Next.antt =====
-- get_next_page: the block that it returns has a page left, behind its header.
use linux_kernel_programming.Prelude.{
  ℕ, ◌+◌, ◌*◌, ◌<◌, ◌≡◌, refl, sym, ap, ◌∙◌, true, false, List, arith, ltb, ◌==◌, inl, inr,
  if◌then◌else◌, Bool-cases, length, length-set, length-replicate, replicate,
}
use linux_kernel_programming.Prelude.Int.{ℤ, pos, negsuc}
use linux_kernel_programming.Prelude.Pages.{div_page}
use linux_kernel_programming.Vanilla.{Mtd}
use linux_kernel_programming.Vanilla.Roundtrip.{IsMtd}
use linux_kernel_programming.Serial.Blocks.{
  blk_used, is_used, block_at, get_healthy_block, is_healthy, int_max, BlkInfo, is_read_only,
}
use linux_kernel_programming.Serial.Blocks.Least.{
  Outcome, kept, chosen, get_healthy_block-Outcome, is_read_only-all,
}
use linux_kernel_programming.Serial.Flash.{
  Config, nand_data, use_block, write_hdr, write_page, prepare_block, get_next_page,
}
use linux_kernel_programming.Serial.Flash.Write.{WrotePage, write_page-WrotePage}
use linux_kernel_programming.Serial.Flash.Extends.{
  Accepts, IsFlash, IsOpened, Extends, Extends-refl, Extends-trans, Extends-set, IsFlash-Extends,
  block_at-set,
}

not_full :
    (pages_per_block : ℕ) (bs : List BlkInfo) (i : ℕ)
    → i < length bs
    → ltb (block_at bs i).current_page_offset pages_per_block ≡ true
    → is_read_only pages_per_block bs ≡ false
not_full ppb bs i h room = elim (Bool-cases (is_read_only ppb bs)) [
  | inl r ↦ let no_room = is_read_only-all ppb bs r i h in absurd (ground arith)
  | inr r ↦ r
]

-- Block `b` of `c'` is ready for a write, and the pages in use in `c` are as they were.
pub record NextPage {F : Type 0} (mtd : Mtd F) (c : Config F) (b : ℕ) (c' : Config F) : Type 0 where
  pub extends : Extends mtd c c'
  pub block_in : b < length c'.blocks
  pub room : (block_at c'.blocks b).current_page_offset < c'.pages_per_block
  pub behind_header : 0 < (block_at c'.blocks b).current_page_offset
  pub used : is_used (block_at c'.blocks b).state ≡ true
  pub writable : c'.read_only ≡ false
  pub opened : IsOpened c'
  pub lists : c'.lists ≡ c.lists

module _ {F : Type 0} (mtd : Mtd F) (laws : IsMtd mtd) (accepts : Accepts mtd) (c : Config F)
    (v : IsFlash c) (opened : IsOpened c) (pages : 1 < c.pages_per_block)
    (writable : c.read_only ≡ false) where
  module _ (b : ℕ) (h : b < length c.blocks)
      (o : (block_at c.blocks b).current_page_offset < c.pages_per_block) where
    used_block :
        (j : ℕ)
        → block_at (use_block b c).blocks j ≡ (
            if b == j
            then record (block_at c.blocks b) { state = blk_used }
            else block_at c.blocks j)
    used_block j = block_at-set c.blocks b j _ h

    IsOpened-block : IsOpened (use_block b c)
    IsOpened-block j i = rw (used_block j) (elim (Bool-cases (b == j)) [
      | inl e ↦ rw e (λ p q. refl)
      | inr e ↦ rw e (
          opened j (
            omega (
              arith,
              i,
              length-set c.blocks b (record (block_at c.blocks b) { state = blk_used }),
            )))
    ])

    Extends-block : Extends mtd c (use_block b c)
    Extends-block = Extends-set mtd c b _ h (omega arith) (λ s. refl)

    -- The header of a fresh block.
    headed :
        (block_at c.blocks b).current_page_offset ≡ 0
        → NextPage mtd c b (
            write_hdr mtd
              (b * c.pages_per_block + (block_at c.blocks b).current_page_offset)
              nand_data
              (use_block b c))
    unfolding write_hdr
    headed fresh =
        let own : (block_at (use_block b c).blocks b).current_page_offset
            ≡ (block_at c.blocks b).current_page_offset =
          rw (used_block b) (ground arith) in
        let w =
          write_page-WrotePage mtd laws accepts (use_block b c) b (replicate c.page_size 0)
            (IsFlash-Extends mtd c _ Extends-block v) IsOpened-block
            (omega (arith, h, Extends-block.count)) (rw own o) (rw (used_block b) (ground arith))
            (length-replicate c.page_size 0) writable in
        let p = ap (λ n. b * c.pages_per_block + n) own in
        let w' : WrotePage mtd (use_block b c) b (replicate c.page_size 0) (
            write_page mtd (b * c.pages_per_block + (block_at c.blocks b).current_page_offset)
              (replicate c.page_size 0) (use_block b c)) =
          rw p at w in
        let (d, _) = div_page b (block_at c.blocks b).current_page_offset c.pages_per_block o in
        rw d (finish _ w')
      where
        finish :
            (r : ℤ × Config F)
            → WrotePage mtd (use_block b c) b (replicate c.page_size 0) r
            → NextPage mtd c b (use_block b r.1)
        finish r w =
            let count = w.extends.count ∙ Extends-block.count in
            let inside : b < length r.1.blocks = omega (arith, h, count) in
            let here : (j : ℕ)
                → block_at (use_block b r.1).blocks j ≡ (
                    if b == j
                    then record (block_at r.1.blocks b) { state = blk_used }
                    else block_at r.1.blocks j) =
              λ j. block_at-set r.1.blocks b j _ inside in
            let own : (block_at (use_block b c).blocks b).current_page_offset ≡ 0 =
              (rw (used_block b) (ground arith)) ∙ fresh in
            let offset : (block_at (use_block b r.1).blocks b).current_page_offset ≡ 1 =
              (rw (here b) (ground arith)) ∙ w.next ∙ ap (λ n. n + 1) own in
            let room : (block_at r.1.blocks b).current_page_offset < r.1.pages_per_block =
              omega (arith, w.next, own, pages, w.extends.pages_per_block) in
            record {
              extends = Extends-trans mtd c _ _ Extends-block (
                  Extends-trans mtd _ r.1 _ w.extends
                    (Extends-set mtd r.1 b _ inside (omega arith) (λ s. refl)));
              block_in = omega (
                arith,
                inside,
                length-set r.1.blocks b (record (block_at r.1.blocks b) { state = blk_used }),
              );
              room = omega (arith, offset, pages, w.extends.pages_per_block);
              behind_header = omega (arith, offset);
              used = rw (here b) (ground arith);
              writable =
                  w.read_only
                  ∙ not_full r.1.pages_per_block r.1.blocks b inside (ground (arith, room));
              opened = λ j i. rw (here j) (elim (Bool-cases (b == j)) [
                | inl e ↦ rw e (λ p q. refl)
                | inr e ↦ rw e (
                    w.opened j (
                      omega (
                        arith,
                        i,
                        length-set r.1.blocks b
                            (record (block_at r.1.blocks b) { state = blk_used }),
                      )))
              ]);
              lists = w.lists;
            }

    prepare_block-NextPage : NextPage mtd c b (prepare_block mtd (pos b) c).1
    unfolding prepare_block
    prepare_block-NextPage = elim (Bool-cases (ltb (block_at c.blocks b).current_page_offset 1)) [
      | inl e ↦ rw e (headed (ground arith))
      | inr e ↦ rw e (record {
        extends = Extends-refl mtd c;
        block_in = h;
        room = o;
        behind_header = ground arith;
        used = opened b h (ground arith) o;
        writable = writable;
        opened = opened;
        lists = refl;
      })
    ]

  -- What get_next_page returns, when it finds a block.
  pub get_next_page-NextPage :
      (b : ℕ)
      → get_healthy_block c.pages_per_block c.blocks ≡ pos b
      → ((get_next_page mtd c).0 ≡ pos b) × NextPage mtd c b (get_next_page mtd c).1
  unfolding get_next_page
  get_next_page-NextPage b e = rw e (
    unfold prepare_block in refl,
    by_outcome (get_healthy_block-Outcome c.pages_per_block c.blocks),
  )
    where
      by_outcome :
          Outcome
            (is_healthy c.pages_per_block)
            0
            int_max
            (negsuc 0)
            c.blocks
            (get_healthy_block c.pages_per_block c.blocks)
          → NextPage mtd c b (prepare_block mtd (pos b) c).1
      by_outcome (kept k low) = absurd (negative (sym e ∙ k))
        where
          negative : pos b ≡ negsuc 0 → ⊥
          negative q = cc
      by_outcome (chosen n k h p l least first) =
          let same : pos (0 + n) ≡ pos b = sym k ∙ e in
          let same' : n ≡ b = ground arith in
          let h' = rw same' at h in
          let p' = rw same' at p in prepare_block-NextPage b h' (ground (arith, p'))
