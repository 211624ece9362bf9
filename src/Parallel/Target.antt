-- ===== src/Parallel/Target.antt =====
-- The block that get_next_block_to_write returns.
use linux_kernel_programming.Prelude.{
  ℕ, ◌+◌, ◌*◌, ◌<◌, ◌≡◌, refl, ◌⊎◌, inl, inr, Bool, true, false, List, arith, ltb, if◌then◌else◌,
  Bool-cases, replicate, ◌/◌, ◌%◌, ◌≢◌, ◌==◌, ap, Option, none, some,
}
use linux_kernel_programming.Prelude.Int.{ℤ, pos, negsuc}
use linux_kernel_programming.Prelude.Words.{u64_mod}
use linux_kernel_programming.Vanilla.{Mtd, page_of}
use linux_kernel_programming.Parallel.{
  Store, Outcome, done, hangs, crashes, and_then, block_at, mark_used, next_offset, check_full,
  is_read_only, write_page, write_data_hdr, prepare_block, get_next_block_to_write,
  get_healthy_block, put_page, link_page,
}
use linux_kernel_programming.Parallel.HashTable.{hash_add}
use linux_kernel_programming.Parallel.Ends.{
  Whenever, Whenever-done, Whenever-if, Whenever-and_then, Ends-Whenever,
}
use linux_kernel_programming.Parallel.Keeps.{
  Writes, After, write_page-Written, write_data_hdr-Written,
}

-- What a function of the code returns, when it returns.
ReturnsCode : {F : Type 0} → Outcome (ℤ × Store F) → Type 0
ReturnsCode (done (ret, s)) = (ret ≡ pos 0) ⊎ (ret ≡ negsuc 0)
ReturnsCode hangs = Unit
ReturnsCode crashes = Unit

module _ {F : Type 0} where
  check_full-code :
      (s : Store F) → ((check_full (pos 0) s).0 ≡ pos 0) ⊎ ((check_full (pos 0) s).0 ≡ negsuc 0)
  unfolding check_full
  check_full-code s = elim (Bool-cases (is_read_only s)) [
    | inl e ↦ rw e (inr refl)
    | inr e ↦ rw e (inl refl)
  ]

  check_full-refused : (s : Store F) → (check_full (negsuc 0) s).0 ≡ negsuc 0
  unfolding check_full
  check_full-refused s = elim (Bool-cases (is_read_only s)) [ inl e ↦ rw e | inr e ↦ rw e ]

  module _ (mtd : Mtd F) where
    write_page-code : (i : ℕ) (buf : List ℕ) (s : Store F) → ReturnsCode (write_page mtd i buf s)
    unfolding write_page ReturnsCode
    write_page-code i buf s =
        by_driver s.read_only (mtd.mtd_write (i * s.page_size % u64_mod) buf s.flash)
      where
        by_driver :
            (r : Bool) (w : Bool × F)
            → ReturnsCode (
                if r
                then done (check_full (negsuc 0) s)
                else if w.0
                then done (
                    check_full
                      (pos 0)
                      (next_offset (i / s.pages_per_block) (record s { flash = w.1 })))
                else crashes)
        by_driver true w = inr (check_full-refused s)
        by_driver false (true, f) =
            check_full-code (next_offset (i / s.pages_per_block) (record s { flash = f }))
        by_driver false (false, f) = tt

    write_data_hdr-code : (i : ℕ) (s : Store F) → ReturnsCode (write_data_hdr mtd i s)
    unfolding write_data_hdr
    write_data_hdr-code i s =
        by_flag s.meta_read_only (write_page mtd i (replicate s.page_size 0) s)
          (write_page-code i (replicate s.page_size 0) s)
      where
        by_flag :
            (r : Bool) (o : Outcome (ℤ × Store F))
            → ReturnsCode o
            → ReturnsCode (
                if r
                then done (negsuc 0, s)
                else and_then o (λ r. done (r.0, mark_used (i / s.pages_per_block) r.1)))
        by_flag true o p = unfold ReturnsCode in inr refl
        by_flag false (done r) p = unfold ReturnsCode and_then in p
        by_flag false hangs p = unfold ReturnsCode and_then in p
        by_flag false crashes p = unfold ReturnsCode and_then in p

    -- A block with pages written before is returned, marked as used.
    get_next_block_to_write-open :
        (s : Store F) (b : ℕ)
        → get_healthy_block s ≡ pos b
        → 0 < (block_at s.blocks b).current_page_offset
        → get_next_block_to_write mtd s ≡ done (pos b, mark_used b s)
    unfolding get_next_block_to_write prepare_block
    get_next_block_to_write-open s b h p =
        let e : ltb (block_at s.blocks b).current_page_offset 1 ≡ false = ground arith in rw (h, e)

    code_of_header :
        (s : Store F) (b : ℕ) (ret : ℤ) (s' : Store F)
        → get_healthy_block s ≡ pos b
        → (block_at s.blocks b).current_page_offset ≡ 0
        → get_next_block_to_write mtd s ≡ done (ret, s')
        → (ret ≡ pos 0) ⊎ (ret ≡ negsuc 0)
    unfolding get_next_block_to_write prepare_block
    code_of_header s b ret s' h z = rw h (
        fresh (ltb (block_at s.blocks b).current_page_offset 1) (ground arith) ret s'
          (write_data_hdr mtd (b * s.pages_per_block + (block_at s.blocks b).current_page_offset)
            (mark_used b s))
          (write_data_hdr-code (b * s.pages_per_block + (block_at s.blocks b).current_page_offset)
            (mark_used b s)))
      where
        fresh :
            (t : Bool)
            → t ≡ true
            → (ret : ℤ) (s' : Store F) (o : Outcome (ℤ × Store F)) → ReturnsCode o
            → (if t then o else done (pos b, mark_used b s)) ≡ done (ret, s')
            → (ret ≡ pos 0) ⊎ (ret ≡ negsuc 0)
        fresh true t ret s' (done (r, x)) p e =
            let q : r ≡ ret = cc in rw (← q) (unfold ReturnsCode in p)
        fresh true t ret s' hangs p e = absurd cc
        fresh true t ret s' crashes p e = absurd cc
        fresh false t ret s' o p e = absurd cc

    -- The lists of valid pages are those of `s`; and all of them but that of block 0 are.
    abbrev SameLists : Store F → Store F → Type 0
    SameLists s t = t.lists ≡ s.lists

    abbrev OnlyBlock0 : Store F → ℤ × Store F → Type 0
    OnlyBlock0 s r = (j : ℕ) → 0 ≢ j → r.1.lists j ≡ s.lists j

    SameLists-Writes : (s : Store F) → Writes (SameLists s)
    SameLists-Writes s = record {
      at_flash = λ t f h. h;
      at_block = λ t i b h. h;
      at_flags = λ t r r' h. h;
    }

    prepare_block-lists :
        (s : Store F) (b : ℕ) → Whenever (After (SameLists s)) (prepare_block mtd (pos b) s)
    unfolding prepare_block
    prepare_block-lists s b =
        let index = b * s.pages_per_block + (block_at s.blocks b).current_page_offset in
        Whenever-if (After (SameLists s)) (ltb (block_at s.blocks b).current_page_offset 1) _ _
          (Ends-Whenever (After (SameLists s)) (write_data_hdr mtd index (mark_used b s)) (
            write_data_hdr-Written mtd (SameLists s) (SameLists-Writes s) index (mark_used b s)
              refl))
          (Whenever-done (After (SameLists s)) (pos b, mark_used b s) refl)

    link_page-0 :
        (s : Store F) (g : Option ℕ) (ret : ℤ) (t : Store F)
        → SameLists s t
        → Whenever (OnlyBlock0 s) (link_page 0 g (ret, t))
    unfolding link_page
    link_page-0 s none ret t h = λ a e. absurd cc
    link_page-0 s (some g) ret t h =
        Whenever-done (OnlyBlock0 s) _
          (λ j ne. let e : (j == 0) ≡ false = ground arith in rw e (ap (λ (l : ℕ → List ℕ). l j) h))

    put_page-0 :
        (s : Store F) (key val : List ℕ) (ret : ℤ) (t : Store F)
        → (ret ≡ pos 0) ⊎ (ret ≡ negsuc 0)
        → SameLists s t
        → Whenever (OnlyBlock0 s) (put_page mtd key val (ret, t))
    unfolding put_page
    put_page-0 s key val ret t (inr e) h =
        rw e (Whenever-done (OnlyBlock0 s) (negsuc 2, t) (λ j ne. ap (λ (l : ℕ → List ℕ). l j) h))
    put_page-0 s key val ret t (inl e) h =
        let index = 0 * t.pages_per_block + (block_at t.blocks 0).current_page_offset in
        let buf = page_of t.page_size key val in
        rw e (
          Whenever-and_then (After (SameLists s)) (OnlyBlock0 s) (write_page mtd index buf t) _
            (Ends-Whenever (After (SameLists s)) (write_page mtd index buf t)
              (write_page-Written mtd (SameLists s) (SameLists-Writes s) index buf t h))
            (λ r g.
              let (ret2, u) = hash_add r.1.hash_size key index r.1.hashtable in
              link_page-0 s ret2 r.0 (record r.1 { hashtable = u }) g))

    -- When get_healthy_block chose a block of which no page was written, get_next_block_to_write returns 0 or -1,
    -- whichever block was chosen. The put_page of set_keyval that follows, when it returns, has added the page of the
    -- couple to the list of no block but block 0, also when the block chosen is another.
    pub get_next_block_to_write-fresh :
        (key val : List ℕ) (s : Store F) (b : ℕ) (ret r : ℤ) (s' t : Store F)
        → get_healthy_block s ≡ pos b
        → (block_at s.blocks b).current_page_offset ≡ 0
        → get_next_block_to_write mtd s ≡ done (ret, s')
        → put_page mtd key val (ret, s') ≡ done (r, t)
        → ((ret ≡ pos 0) ⊎ (ret ≡ negsuc 0)) × ((j : ℕ) → 0 ≢ j → t.lists j ≡ s.lists j)
    get_next_block_to_write-fresh key val s b ret r s' t h z e p =
        let code = code_of_header s b ret s' h z e in
        let same : SameLists s s' =
          prepare_block-lists s b (ret, s') (unfold get_next_block_to_write in rw h at e) in
        (code, put_page-0 s key val ret s' code same (r, t) p)
