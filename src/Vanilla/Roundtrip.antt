-- ===== src/Vanilla/Roundtrip.antt =====
-- What set_keyval stored, get_keyval returns.
use linux_kernel_programming.Prelude.{
  ℕ, zero, suc, ◌+◌, ◌*◌, ◌/◌, ◌%◌, ◌≤◌, ◌<◌, ◌≡◌, ◌≢◌, ◌⊎◌, ◌∙◌, refl, ap, ap₂, sym, true, false,
  some, List, [], arith, ◌==◌, if◌then◌else◌, length, ltb, append-nil,
}
use linux_kernel_programming.Prelude.Int.{ℤ, pos, negsuc}
use linux_kernel_programming.Prelude.Words.{u64_mod}
use linux_kernel_programming.Prelude.Pages.{
  page-lt, page_end, pages_apart, page_injective, div_page,
}
use linux_kernel_programming.Vanilla.{
  Config, Mtd, BlkInfo, is_free, block_at, set_page_valid, free_mark, page_of, found, not_found,
  match_page, read_page, get_next_page_index_to_write, finish_write, write_page, get_blocks,
  get_keyval, set_result, write_new, set_keyval, page_index_of,
}
use linux_kernel_programming.Vanilla.Page.{match_page-page_of, length-page_of}
use linux_kernel_programming.Vanilla.Scan.{scanned, matched, get_blocks-not_found, get_blocks-found}
use linux_kernel_programming.Vanilla.Alloc.{
  FreeIsEmpty, FreeIsEmpty-set_page_valid, next_page-SameScan, scanned-set_page_valid, scanned-lt,
}

-- The flash keeps what was written, and a write leaves every other page alone.
pub record IsMtd {F : Type 0} (mtd : Mtd F) : Type 0 where
  pub read_written :
      (addr : ℕ) (buf : List ℕ) (f f' : F)
      → mtd.mtd_write addr buf f ≡ (true, f')
      → mtd.mtd_read addr (length buf) f' ≡ some buf
  pub read_other :
      (addr : ℕ) (buf : List ℕ) (f f' : F) (a len : ℕ)
      → mtd.mtd_write addr buf f ≡ (true, f')
      → (a + len ≤ addr) ⊎ (addr + length buf ≤ a)
      → mtd.mtd_read a len f' ≡ mtd.mtd_read a len f

-- The metadata of a mounted store. `last` is the end of the flash in bytes.
pub record IsValid {F : Type 0} (c : Config F) : Type 0 where
  pub pages : c.block_size / c.page_size ≡ c.pages_per_block
  pub count : length c.blocks ≡ c.nb_blocks
  pub full_blocks :
      (b : ℕ) → b < c.nb_blocks → length (block_at c.blocks b).pages_states ≡ c.pages_per_block
  pub free_empty : FreeIsEmpty c.blocks
  pub addressable : c.nb_blocks * c.pages_per_block * c.page_size < u64_mod

-- Block `b` is the current one, used, with a page left at `o`.
pub record IsOpen {F : Type 0} (c : Config F) (b o : ℕ) : Type 0 where
  pub block : c.current_block ≡ pos b
  pub offset : c.current_page_offset ≡ o
  pub block_in : b < c.nb_blocks
  pub offset_in : o < c.pages_per_block
  pub used : is_free (block_at c.blocks b).state ≡ false
  pub writable : c.read_only ≡ false

set_result-1 : {F : Type 0} (r : ℤ × Config F) → (set_result r).1 ≡ r.1
unfolding set_result
set_result-1 (pos n, c) = refl
set_result-1 (negsuc zero, c) = refl
set_result-1 (negsuc (suc zero), c) = refl
set_result-1 (negsuc (suc (suc n)), c) = refl

-- What a successful write leaves behind for the scan.
record Written {F : Type 0} (c : Config F) (b o : ℕ) (f' : F) (c' : Config F) : Type 0 where
  flash : c'.flash ≡ f'
  page_size : c'.page_size ≡ c.page_size
  pages_per_block : c'.pages_per_block ≡ c.pages_per_block
  here : scanned c'.blocks b o ≡ true
  others :
      (b' j : ℕ) → scanned c'.blocks b' j ≡ true → (b' ≢ b) ⊎ (j ≢ o) → scanned c.blocks b' j ≡ true

module _ {F : Type 0} (c : Config F) (b o : ℕ) (v : IsValid c) (q : IsOpen c b o) where
  in_block : o < length (block_at c.blocks b).pages_states
  in_block = omega (arith, v.full_blocks b q.block_in, q.offset_in)

  marked : List BlkInfo
  marked = set_page_valid b o c.blocks

  scanned-marked :
      (b' j : ℕ)
      → scanned marked b' j ≡ (
          if b == b'
          then (if o == j then true else scanned c.blocks b' j)
          else scanned c.blocks b' j)
  unfolding marked
  scanned-marked b' j =
      scanned-set_page_valid c.blocks b o b' j (omega (arith, v.count, q.block_in)) in_block q.used

  marked-here : scanned marked b o ≡ true
  marked-here = scanned-marked b o ∙ ground arith

  marked-others :
      (b' j : ℕ) → scanned marked b' j ≡ true → (b' ≢ b) ⊎ (j ≢ o) → scanned c.blocks b' j ≡ true
  marked-others b' j w ne = ground (arith, scanned-marked b' j)

  marked-FreeIsEmpty : FreeIsEmpty marked
  unfolding marked
  marked-FreeIsEmpty =
      FreeIsEmpty-set_page_valid c.blocks b o (omega (arith, v.count, q.block_in)) q.used
        v.free_empty

  abbrev pub page : ℕ
  page = b * c.pages_per_block + o

  written : F → Config F
  written f' = record c { flash = f'; blocks = marked }

  write_page-eq :
      (mtd : Mtd F) (buf : List ℕ) (f' : F)
      → mtd.mtd_write (page * c.page_size % u64_mod) buf c.flash ≡ (true, f')
      → write_page mtd (pos page) buf c ≡ finish_write (get_next_page_index_to_write (written f'))
  unfolding write_page page written marked
  write_page-eq mtd buf f' w =
      let d = div_page b o c.pages_per_block q.offset_in in rw (w, d.0, d.1) (simp q.writable)

  write_page-Written :
      (mtd : Mtd F) (buf : List ℕ) (f' : F)
      → mtd.mtd_write (page * c.page_size % u64_mod) buf c.flash ≡ (true, f')
      → Written c b o f' (write_page mtd (pos page) buf c).1
  unfolding written
  write_page-Written mtd buf f' w =
      let s = next_page-SameScan (written f') marked-FreeIsEmpty in
      rw (write_page-eq mtd buf f' w) (record {
        flash = s.flash;
        page_size = s.page_size;
        pages_per_block = s.pages_per_block;
        here = s.covers b o ∙ marked-here;
        others = λ b' j h ne. marked-others b' j (sym (s.covers b' j) ∙ h) ne;
      })

  module _ (mtd : Mtd F) (laws : IsMtd mtd) (key val : List ℕ) (f' : F)
      (missing : get_keyval mtd key c ≡ not_found)
      (fits : length key + length val + 8 ≤ c.page_size) (sized : c.page_size < free_mark)
      (done : mtd.mtd_write (page * c.page_size % u64_mod) (page_of c.page_size key val) c.flash
        ≡ (true, f')) where
    -- A page below the end of the flash has an address that does not wrap.
    address :
        (p : ℕ) → p < c.nb_blocks * c.pages_per_block → p * c.page_size % u64_mod ≡ p * c.page_size
    address p h =
        omega (arith, page_end p (c.nb_blocks * c.pages_per_block) c.page_size h, v.addressable)

    page_in : page < c.nb_blocks * c.pages_per_block
    unfolding page
    page_in = page-lt b o c.nb_blocks c.pages_per_block q.block_in q.offset_in

    not_there :
        (b' j : ℕ)
        → j < c.pages_per_block
        → (b' ≢ b) ⊎ (j ≢ o)
        → b' * c.pages_per_block + j ≡ page
        → ⊥
    unfolding page
    not_there b' j h ne e =
        let (x, y) = page_injective b' j b o c.pages_per_block h q.offset_in e in ground arith

    stored : match_page key page (some (page_of c.page_size key val)) ≡ found page val
    stored =
        rw append-nil at (
          match_page-page_of c.page_size page key [] val (rw append-nil (omega arith))
            (omega arith))

    module _ (c' : Config F) (w : Written c b o f' c') where
      read_written_flash :
          (p : ℕ) → read_page mtd c' p ≡ mtd.mtd_read (p * c.page_size % u64_mod) c.page_size f'
      unfolding read_page
      read_written_flash p =
          λ i. mtd.mtd_read (p * w.page_size i % u64_mod) (w.page_size i) (w.flash i)

      same_read :
          (p : ℕ)
          → p < c.nb_blocks * c.pages_per_block
          → p ≢ page
          → read_page mtd c' p ≡ read_page mtd c p
      same_read p h ne =
          read_written_flash p
          ∙ laws.read_other _ _ c.flash f' _ c.page_size done (
              rw (address p h, address page page_in, length-page_of c.page_size key val fits)
                (pages_apart p page c.page_size ne))
          ∙ (unfold read_page in refl)

      read_back : read_page mtd c' page ≡ some (page_of c.page_size key val)
      read_back =
          let l = length-page_of c.page_size key val fits in
          read_written_flash page ∙ (rw l at (laws.read_written _ _ c.flash f' done))

      other_pages :
          (b' j : ℕ)
          → scanned c'.blocks b' j ≡ true
          → (b' ≢ b) ⊎ (j ≢ o)
          → matched mtd c' key ((0 + b') * c'.pages_per_block + j) ≡ not_found
      other_pages b' j h ne =
          let before = w.others b' j h ne in
          let (lb, lj) = scanned-lt c.blocks b' j before in
          let lb' : b' < c.nb_blocks = omega (arith, lb, v.count) in
          let lj' : j < c.pages_per_block = omega (arith, lj, v.full_blocks b' lb') in
          let z : 0 + b' ≡ b' = omega arith in
          let p = (0 + b') * c.pages_per_block + j in
          let inside : p < c.nb_blocks * c.pages_per_block =
            rw z (page-lt b' j c.nb_blocks c.pages_per_block lb' lj') in
          let elsewhere : p ≢ page = λ e. not_there b' j lj' ne (rw z at e) in
          ap (λ k. matched mtd c' key ((0 + b') * k + j)) w.pages_per_block
          ∙ ap (match_page key p) (same_read p inside elsewhere)
          ∙ get_blocks-not_found mtd c key 0 c.blocks (unfold get_keyval in missing) b' j before

      found_after : get_blocks mtd c' key 0 c'.blocks ≡ found page val
      found_after =
          let z : 0 + b ≡ b = omega arith in
          let at_page : (0 + b) * c'.pages_per_block + o ≡ page =
            unfold page in (rw (z, w.pages_per_block)) in
          let here = ap (match_page key page) read_back ∙ stored in
          get_blocks-found mtd c' key 0 c'.blocks b o val w.here other_pages (rw at_page here)
          ∙ ap (λ p. found p val) at_page

    set_keyval-1 :
        (set_keyval mtd key val c).1 ≡ (write_page mtd (pos page) (page_of c.page_size key val) c).1
    unfolding set_keyval write_new page
    set_keyval-1 =
        let roomy : ltb c.page_size (length key + length val + 8) ≡ false = ground arith in
        let index : page_index_of c.pages_per_block c.current_block c.current_page_offset
            ≡ pos (b * c.pages_per_block + o) =
          ap₂ (page_index_of c.pages_per_block) q.block q.offset in
        rw (roomy, missing)
          (set_result-1 _ ∙ ap (λ i. (write_page mtd i (page_of c.page_size key val) c).1) index)

    -- With a driver that keeps what is written, in a store whose metadata are in order, with a page
    -- left in the current block: if the key is not found, the couple fits a page and the driver
    -- accepts the write, then get_keyval returns the value after set_keyval, from the page that was
    -- next. This holds for the last page too, for which set_keyval returns an error.
    pub get_keyval-set_keyval : get_keyval mtd key (set_keyval mtd key val c).1 ≡ found page val
    get_keyval-set_keyval = rw set_keyval-1 (
        unfold get_keyval in
        found_after _ (write_page-Written mtd (page_of c.page_size key val) f' done))
