-- ===== src/Serial/Flash/Write.antt =====
-- What the write of the next page of a block leaves.
use linux_kernel_programming.Prelude.{
  ℕ, ◌+◌, ◌*◌, ◌/◌, ◌%◌, ◌<◌, ◌≡◌, ◌≢◌, ◌⊎◌, inl, inr, refl, sym, ap, ◌∙◌, Bool, true, false, some,
  List, arith, ◌==◌, if◌then◌else◌, Bool-cases, length, length-set,
}
use linux_kernel_programming.Prelude.Int.{ℤ, pos, negsuc}
use linux_kernel_programming.Prelude.Words.{u64_mod}
use linux_kernel_programming.Prelude.Pages.{page-lt, page_end, pages_apart, div_page}
use linux_kernel_programming.Vanilla.{Mtd}
use linux_kernel_programming.Vanilla.Roundtrip.{IsMtd}
use linux_kernel_programming.Serial.Blocks.{is_used, block_at, is_read_only}
use linux_kernel_programming.Serial.Flash.{Config, next_offset, check_full, read_page, write_page}
use linux_kernel_programming.Serial.Flash.Extends.{
  Accepts, next_of, IsFlash, IsOpened, Extends, Extends-refl, Extends-trans, Extends-set,
  block_at-set,
}

module _ {F : Type 0} (mtd : Mtd F) where
  module _ (laws : IsMtd mtd) where
    -- A page before the offset of its block is none that is written next.
    other_page :
        (c : Config F) (b q : ℕ) (buf : List ℕ) (f' : F)
        → IsFlash c
        → b < length c.blocks
        → (block_at c.blocks b).current_page_offset < c.pages_per_block
        → length buf ≡ c.page_size
        → mtd.mtd_write
            ((b * c.pages_per_block + (block_at c.blocks b).current_page_offset)
              * c.page_size
              % u64_mod)
            buf
            c.flash
          ≡ (true, f')
        → q / c.pages_per_block < length c.blocks
        → q % c.pages_per_block < (block_at c.blocks (q / c.pages_per_block)).current_page_offset
        → mtd.mtd_read (q * c.page_size % u64_mod) c.page_size f'
          ≡ mtd.mtd_read (q * c.page_size % u64_mod) c.page_size c.flash
    other_page c b q buf f' v h o l w qb qo =
        let p = b * c.pages_per_block + (block_at c.blocks b).current_page_offset in
        let total = length c.blocks * c.pages_per_block in
        let q_in : q < total = omega (
          arith,
          page-lt (q / c.pages_per_block) (q % c.pages_per_block) (length c.blocks)
              c.pages_per_block qb (omega (arith, v.some_page)),
        ) in
        let p_in =
          page-lt b (block_at c.blocks b).current_page_offset (length c.blocks) c.pages_per_block h
            o in
        let q_small : q * c.page_size % u64_mod ≡ q * c.page_size =
          omega (arith, page_end q total c.page_size q_in, v.addressable) in
        let p_small : p * c.page_size % u64_mod ≡ p * c.page_size =
          omega (arith, page_end p total c.page_size p_in, v.addressable) in
        let apart = pages_apart q p c.page_size (differ p refl) in
        laws.read_other (p * c.page_size % u64_mod) buf c.flash f' (q * c.page_size % u64_mod)
          c.page_size w (rw (q_small, p_small, l) apart)
      where
        differ :
            (p : ℕ) → p ≡ b * c.pages_per_block + (block_at c.blocks b).current_page_offset → q ≢ p
        differ p e same =
            let (d, m) = div_page b (block_at c.blocks b).current_page_offset c.pages_per_block o in
            let d' : q / c.pages_per_block ≡ b = rw (same, e) d in
            let m' : q % c.pages_per_block ≡ (block_at c.blocks b).current_page_offset =
              rw (same, e) m in
            let clash = rw d' at qo in omega (arith, m', clash)

  check_full-Extends :
      (c : Config F)
      → IsOpened c
      → let (r, c') = check_full c in
        Extends mtd c c'
        × IsOpened c'
        × (c'.blocks ≡ c.blocks)
        × (c'.lists ≡ c.lists)
        × ((q : ℕ) → read_page mtd q c' ≡ read_page mtd q c)
        × (c'.read_only ≡ (if is_read_only c.pages_per_block c.blocks then true else c.read_only))
        × ((r ≡ pos 0) ⊎ (r ≡ negsuc 0))
  unfolding check_full read_page
  check_full-Extends c o = elim (Bool-cases (is_read_only c.pages_per_block c.blocks)) [
    | inl e ↦ rw e (
      record {
        page_size = refl;
        pages_per_block = refl;
        count = refl;
        offset = λ b. omega arith;
        used = λ b h. h;
        same = λ q h k. refl;
      },
      o,
      refl,
      refl,
      λ q. refl,
      refl,
      inr refl,
    )
    | inr e ↦ rw e (Extends-refl mtd c, o, refl, refl, λ q. refl, refl, inl refl)
  ]

if_same : (t : Bool) → (if t then true else false) ≡ t
if_same true = refl
if_same false = refl

-- What the write of `buf` into the next page of block `b` leaves.
pub record WrotePage {F : Type 0} (mtd : Mtd F) (c : Config F) (b : ℕ) (buf : List ℕ)
    (r : ℤ × Config F) : Type 0 where
  pub extends : Extends mtd c r.1
  pub page : read_page mtd (next_of c b) r.1 ≡ some buf
  pub next :
      (block_at r.1.blocks b).current_page_offset ≡ (block_at c.blocks b).current_page_offset + 1
  pub used : is_used (block_at r.1.blocks b).state ≡ true
  pub lists : r.1.lists ≡ c.lists
  pub opened : IsOpened r.1
  pub read_only : r.1.read_only ≡ is_read_only r.1.pages_per_block r.1.blocks
  pub result : (r.0 ≡ pos 0) ⊎ (r.0 ≡ negsuc 0)

module _ {F : Type 0} (mtd : Mtd F) (laws : IsMtd mtd) (accepts : Accepts mtd) where
  pub write_page-WrotePage :
      (c : Config F) (b : ℕ) (buf : List ℕ)
      → IsFlash c
      → IsOpened c
      → b < length c.blocks
      → (block_at c.blocks b).current_page_offset < c.pages_per_block
      → is_used (block_at c.blocks b).state ≡ true
      → length buf ≡ c.page_size
      → c.read_only ≡ false
      → WrotePage mtd c b buf (write_page mtd (next_of c b) buf c)
  unfolding write_page
  write_page-WrotePage c b buf v opened h o u l writable =
      let (f', w) = accepts (next_of c b * c.page_size % u64_mod) buf c.flash in
      rw (step f' w) (wrote f' w (check_full-Extends mtd (written f') (opened' f')))
    where
      written : F → Config F
      written f' = next_offset b (record c { flash = f' })

      step :
          (f' : F)
          → mtd.mtd_write (next_of c b * c.page_size % u64_mod) buf c.flash ≡ (true, f')
          → write_page mtd (next_of c b) buf c ≡ check_full (written f')
      step f' w =
          let (d, _) = div_page b (block_at c.blocks b).current_page_offset c.pages_per_block o in
          rw (w, d) (simp writable)

      at_block :
          (f' : F) (j : ℕ)
          → block_at (written f').blocks j ≡ (
              if b == j
              then record (block_at c.blocks b) {
                current_page_offset = (block_at c.blocks b).current_page_offset + 1;
              }
              else block_at c.blocks j)
      at_block f' j = block_at-set c.blocks b j _ h

      opened' : (f' : F) → IsOpened (written f')
      opened' f' j i = rw (at_block f' j) (elim (Bool-cases (b == j)) [
        | inl e ↦ rw e (λ p q. u)
        | inr e ↦ rw e (
            opened j (
              omega (
                arith,
                i,
                length-set c.blocks b (record (block_at c.blocks b) {
                  current_page_offset = (block_at c.blocks b).current_page_offset + 1;
                }),
              )))
      ])

      flashed :
          (f' : F)
          → mtd.mtd_write (next_of c b * c.page_size % u64_mod) buf c.flash ≡ (true, f')
          → Extends mtd c (record c { flash = f' })
      flashed f' w = record {
        page_size = refl;
        pages_per_block = refl;
        count = refl;
        offset = λ b. omega arith;
        used = λ b h. h;
        same = λ q i k. unfold read_page in other_page mtd laws c b q buf f' v h o l w i k;
      }

      wrote :
          (f' : F)
          → mtd.mtd_write (next_of c b * c.page_size % u64_mod) buf c.flash ≡ (true, f')
          → (Extends mtd (written f') (check_full (written f')).1
              × IsOpened (check_full (written f')).1
              × ((check_full (written f')).1.blocks ≡ (written f').blocks)
              × ((check_full (written f')).1.lists ≡ c.lists)
              × ((q : ℕ)
                  → read_page mtd q (check_full (written f')).1 ≡ read_page mtd q (written f'))
              × ((check_full (written f')).1.read_only ≡ (
                  if is_read_only c.pages_per_block (written f').blocks then true else c.read_only))
              × (((check_full (written f')).0 ≡ pos 0) ⊎ ((check_full (written f')).0 ≡ negsuc 0)))
          → WrotePage mtd c b buf (check_full (written f'))
      wrote f' w (x, op, blocks, lists, reads, ro, result) = record {
        extends =
            Extends-trans mtd c (written f') _
              (Extends-trans mtd c (record c { flash = f' }) (written f') (flashed f' w)
                (Extends-set mtd (record c { flash = f' }) b _ h (omega arith) (λ s. s)))
              x;
        page =
            reads (next_of c b)
            ∙ (unfold read_page in
                (ap (λ n. mtd.mtd_read (next_of c b * c.page_size % u64_mod) n f') (sym l)
                  ∙ laws.read_written _ buf c.flash f' w));
        next =
            ap (λ bs. (block_at bs b).current_page_offset) blocks
            ∙ (rw (at_block f' b) (ground arith));
        used =
            ap (λ bs. is_used (block_at bs b).state) blocks ∙ (rw (at_block f' b) (ground arith));
        lists = lists;
        opened = op;
        read_only = ro ∙ (rw (blocks, x.pages_per_block, writable) (if_same _));
        result = result;
      }
