-- ===== src/Vanilla/Alloc.antt =====
-- Where the next page is written: the invariant of the metadata, and the choice of blocks.
use linux_kernel_programming.Prelude.{
  ℕ, zero, suc, ◌+◌, ◌/◌, ◌<◌, ◌≡◌, ◌∙◌, refl, ap, sym, true, false, List, [], ◌∷◌, arith, ◌==◌,
  if◌then◌else◌, Bool-cases, inl, inr, set, length, get_or-set_self, get_or-set_ne, get_or-beyond,
  dec_lt,
}
use linux_kernel_programming.Prelude.Int.{ℤ, pos, negsuc}
use linux_kernel_programming.Vanilla.{
  Config, BlkInfo, blk_used, pg_free, pg_valid, is_free, block_at, no_block, set_block_state,
  set_page_valid, free_from, get_next_free_block, open_block, get_next_page_index_to_write,
  finish_write,
}
use linux_kernel_programming.Vanilla.Scan.{is_valid_page, page_at, scanned}

true≢false : true ≡ false → ⊥
true≢false e = cc

-- What free_from returns: the first free block, or -1 when all blocks are used.
pub data FirstFree (i : ℕ) (bs : List BlkInfo) (r : ℤ) : Type 0 where
  first :
      (n : ℕ)
      → r ≡ pos (i + n)
      → n < length bs
      → is_free (block_at bs n).state ≡ true
      → ((j : ℕ) → j < n → is_free (block_at bs j).state ≡ false)
      → FirstFree i bs r
  full :
      r ≡ negsuc 0
      → ((j : ℕ) → j < length bs → is_free (block_at bs j).state ≡ false)
      → FirstFree i bs r

free_from-FirstFree : (i : ℕ) (bs : List BlkInfo) → FirstFree i bs (free_from i bs)
unfolding free_from
free_from-FirstFree i [] = full refl (λ j h. absurd (omega arith))
free_from-FirstFree i (b ∷ bs) = elim (Bool-cases (is_free b.state)) [
  | inl f ↦ rw f (first 0 (ap pos (omega arith)) (omega arith) f (λ j h. absurd (omega arith)))
  | inr u ↦ rw u (step i b bs u (free_from (i + 1) bs) (free_from-FirstFree (i + 1) bs))
]
  where
    below :
        (b : BlkInfo) (bs : List BlkInfo) (n : ℕ)
        → is_free b.state ≡ false
        → ((j : ℕ) → j < n → is_free (block_at bs j).state ≡ false)
        → (j : ℕ) → j < suc n
        → is_free (block_at (b ∷ bs) j).state ≡ false
    below b bs n u h zero l = u
    below b bs n u h (suc j) l = h j (omega arith)

    step :
        (i : ℕ) (b : BlkInfo) (bs : List BlkInfo)
        → is_free b.state ≡ false
        → (r : ℤ) → FirstFree (i + 1) bs r
        → FirstFree i (b ∷ bs) r
    step i b bs u r (first n e l f h) =
        first (suc n) (e ∙ ap pos (omega arith)) (omega arith) f (below b bs n u h)
    step i b bs u r (full e h) = full e (below b bs (length bs) u h)

-- get_next_free_block returns the lowest block that is free, and -1 exactly when none is.
pub get_next_free_block-FirstFree :
    {F : Type 0} (c : Config F) → FirstFree 0 c.blocks (get_next_free_block c)
unfolding get_next_free_block
get_next_free_block-FirstFree c = free_from-FirstFree 0 c.blocks

pub block_at-set :
    (bs : List BlkInfo) (i j : ℕ) (b : BlkInfo)
    → i < length bs
    → block_at (set bs i b) j ≡ (if i == j then b else block_at bs j)
block_at-set bs i j b h = elim (Bool-cases (i == j)) [
  | inl e ↦ let e' : i ≡ j = ground arith in rw (e, ← e') (get_or-set_self bs i b no_block h)
  | inr e ↦ rw e (get_or-set_ne bs i j b no_block (ground arith))
]

-- A free block holds no valid page.
abbrev pub FreeIsEmpty : List BlkInfo → Type 0
FreeIsEmpty bs =
    (b j : ℕ)
    → is_free (block_at bs b).state ≡ true
    → is_valid_page (page_at (block_at bs b).pages_states j) ≡ false

-- Marking an empty free block as used changes nothing that a scan covers.
pub scanned-set_block_state :
    (bs : List BlkInfo) (n b j : ℕ)
    → FreeIsEmpty bs
    → n < length bs
    → is_free (block_at bs n).state ≡ true
    → scanned (set_block_state n blk_used bs) b j ≡ scanned bs b j
scanned-set_block_state bs n b j e l f = rw (block_at-set bs n b _ l) (elim (Bool-cases (n == b)) [
  | inl same ↦ let s : n ≡ b = ground arith in rw (same, ← s, f, e n j f)
  | inr other ↦ rw other
])

-- Marking a page of a used block as valid adds that page to what a scan covers.
pub scanned-set_page_valid :
    (bs : List BlkInfo) (n o b j : ℕ)
    → n < length bs
    → o < length (block_at bs n).pages_states
    → is_free (block_at bs n).state ≡ false
    → scanned (set_page_valid n o bs) b j
      ≡ (if n == b then (if o == j then true else scanned bs b j) else scanned bs b j)
scanned-set_page_valid bs n o b j l p u = rw (block_at-set bs n b _ l) (elim (Bool-cases (n == b)) [
  | inr other ↦ rw other
  | inl same ↦
      let s : n ≡ b = ground arith in
      rw (same, ← s, u)
        (elim (Bool-cases (o == j)) [
          | inl here ↦
              let h : o ≡ j = ground arith in
              rw (here, ← h, get_or-set_self (block_at bs n).pages_states o pg_valid pg_free p)
          | inr there ↦ rw (
            there,
            get_or-set_ne (block_at bs n).pages_states o j pg_valid pg_free (ground arith),
          )
        ])
])

-- A scanned page lies in an existing block, within its pages.
pub scanned-lt :
    (bs : List BlkInfo) (b j : ℕ)
    → scanned bs b j ≡ true
    → (b < length bs) × (j < length (block_at bs b).pages_states)
scanned-lt bs b j v = elim (dec_lt b (length bs)) [
  | no l ↦ absurd (outside l)
  | yes l ↦ elim (dec_lt j (length (block_at bs b).pages_states)) [
    | no m ↦ absurd (unmarked m)
    | yes m ↦ (l, m)
  ]
]
  where
    outside : ¬ (b < length bs) → ⊥
    outside l =
        let e : block_at bs b ≡ no_block = get_or-beyond bs b no_block (omega arith) in
        true≢false (
          sym v
          ∙ ap
              (λ (x : BlkInfo).
                if is_free x.state then false else is_valid_page (page_at x.pages_states j))
              e)

    unmarked : ¬ (j < length (block_at bs b).pages_states) → ⊥
    unmarked m =
        let e : page_at (block_at bs b).pages_states j ≡ pg_free =
          get_or-beyond (block_at bs b).pages_states j pg_free (omega arith) in
        true≢false (sym v ∙ (rw e (ground arith)))

-- Marking a page of a used block keeps the free blocks empty.
pub FreeIsEmpty-set_page_valid :
    (bs : List BlkInfo) (n o : ℕ)
    → n < length bs
    → is_free (block_at bs n).state ≡ false
    → FreeIsEmpty bs
    → FreeIsEmpty (set_page_valid n o bs)
FreeIsEmpty-set_page_valid bs n o l u e b j =
    rw (block_at-set bs n b _ l) (elim (Bool-cases (n == b)) [
      | inr other ↦ rw other (e b j)
      | inl same ↦ rw same (λ f. absurd (true≢false (sym f ∙ u)))
    ])

-- The parts of the state that a lookup reads.
pub record SameScan {F : Type 0} (c c' : Config F) : Type 0 where
  pub flash : c'.flash ≡ c.flash
  pub page_size : c'.page_size ≡ c.page_size
  pub pages_per_block : c'.pages_per_block ≡ c.pages_per_block
  pub covers : (b j : ℕ) → scanned c'.blocks b j ≡ scanned c.blocks b j

module _ {F : Type 0} where
  open_block-SameScan :
      (r : ℤ) (c : Config F)
      → FreeIsEmpty c.blocks
      → FirstFree 0 c.blocks r
      → SameScan c (open_block r c).1
  unfolding open_block
  open_block-SameScan r c e (full z h) =
      rw z (record { flash = refl; page_size = refl; pages_per_block = refl; covers = λ b j. refl })
  open_block-SameScan r c e (first n z l f h) =
      let z' : r ≡ pos n = z ∙ ap pos (omega arith) in
      rw z' (record {
        flash = refl;
        page_size = refl;
        pages_per_block = refl;
        covers = λ b j. scanned-set_block_state c.blocks n b j e l f;
      })

  finish_write-SameScan :
      (c : Config F) (r : ℤ × Config F) → SameScan c r.1 → SameScan c (finish_write r).1
  unfolding finish_write
  finish_write-SameScan c (pos n, c') s = s
  finish_write-SameScan c (negsuc n, c') s = record {
    flash = s.flash;
    page_size = s.page_size;
    pages_per_block = s.pages_per_block;
    covers = s.covers;
  }

  -- Choosing the next page, with the turn to read-only mode, changes nothing that a lookup reads.
  pub next_page-SameScan :
      (c : Config F)
      → FreeIsEmpty c.blocks
      → SameScan c (finish_write (get_next_page_index_to_write c)).1
  unfolding get_next_page_index_to_write
  next_page-SameScan c e =
      elim (Bool-cases (c.current_page_offset + 1 == c.block_size / c.page_size)) [
        | inr stay ↦ rw stay (
            unfold finish_write in
            record { flash = refl; page_size = refl; pages_per_block = refl; covers = λ b j. refl })
        | inl turn ↦
            let c₁ : Config F = record c { current_page_offset = c.current_page_offset + 1 } in
            let s =
              open_block-SameScan (get_next_free_block c₁) c₁ e
                (get_next_free_block-FirstFree c₁) in
            rw turn (
              finish_write-SameScan c _ (record {
                flash = s.flash;
                page_size = s.page_size;
                pages_per_block = s.pages_per_block;
                covers = s.covers;
              }))
      ]
