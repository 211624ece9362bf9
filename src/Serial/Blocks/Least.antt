-- ===== src/Serial/Blocks/Least.antt =====
-- Wear leveling: which block the loops choose.
use linux_kernel_programming.Prelude.{
  ℕ, zero, suc, ◌+◌, ◌≤◌, ◌<◌, ◌≡◌, refl, sym, ap, ◌∙◌, ◌↔◌, Bool, true, false, List, [], ◌∷◌,
  arith, ltb, length, Bool-cases, inl, inr,
}
use linux_kernel_programming.Prelude.Int.{ℤ, pos, negsuc}
use linux_kernel_programming.Serial.Blocks.{
  BlkInfo, block_at, least_worn, int_order, is_below, int_max, is_healthy, get_healthy_block,
  is_empty_data, is_open_data, get_meta_block, or_open_block, is_read_only, is_usable,
}

-- Wear is compared as the `int`s that it is. The outcome `r` of a search from index `i` on for a wear below `minimum`: `ret`, where no block that
-- passes has less, or the first of the least worn.
pub data Outcome (ok : BlkInfo → Bool) (i minimum : ℕ) (ret : ℤ) (bs : List BlkInfo) (r : ℤ)
    : Type 0 where
  kept :
      r ≡ ret
      → ((j : ℕ)
          → j < length bs
          → ok (block_at bs j) ≡ true
          → int_order minimum ≤ int_order (block_at bs j).worn)
      → Outcome ok i minimum ret bs r
  chosen :
      (n : ℕ)
      → r ≡ pos (i + n)
      → n < length bs
      → ok (block_at bs n) ≡ true
      → int_order (block_at bs n).worn < int_order minimum
      → ((j : ℕ)
          → j < length bs
          → ok (block_at bs j) ≡ true
          → int_order (block_at bs n).worn ≤ int_order (block_at bs j).worn)
      → ((j : ℕ)
          → j < n
          → ok (block_at bs j) ≡ true
          → int_order (block_at bs n).worn < int_order (block_at bs j).worn)
      → Outcome ok i minimum ret bs r

module _ (ok : BlkInfo → Bool) (i minimum : ℕ) (ret : ℤ) (b : BlkInfo) (bs : List BlkInfo)
    (r : ℤ) where
  -- The head is better than what was found before it.
  Outcome-better :
      ok b ≡ true
      → int_order b.worn < int_order minimum
      → Outcome ok (i + 1) b.worn (pos i) bs r
      → Outcome ok i minimum ret (b ∷ bs) r
  Outcome-better o w (kept e low) =
      chosen 0 (e ∙ ap pos (omega arith)) (omega arith) o w least (λ j h. absurd (omega arith))
    where
      least :
          (j : ℕ)
          → j < suc (length bs)
          → ok (block_at (b ∷ bs) j) ≡ true
          → int_order b.worn ≤ int_order (block_at (b ∷ bs) j).worn
      least zero h p = omega arith
      least (suc j) h p = low j (omega arith) p
  Outcome-better o w (chosen n e h p l least first) =
      chosen (suc n) (e ∙ ap pos (omega arith)) (omega arith) p (omega arith) least' first'
    where
      least' :
          (j : ℕ)
          → j < suc (length bs)
          → ok (block_at (b ∷ bs) j) ≡ true
          → int_order (block_at bs n).worn ≤ int_order (block_at (b ∷ bs) j).worn
      least' zero h p = omega arith
      least' (suc j) h p = least j (omega arith) p

      first' :
          (j : ℕ)
          → j < suc n
          → ok (block_at (b ∷ bs) j) ≡ true
          → int_order (block_at bs n).worn < int_order (block_at (b ∷ bs) j).worn
      first' zero h p = l
      first' (suc j) h p = first j (omega arith) p

  -- The head fails the test, or is no better.
  Outcome-skip :
      (ok b ≡ true → int_order minimum ≤ int_order b.worn)
      → Outcome ok (i + 1) minimum ret bs r
      → Outcome ok i minimum ret (b ∷ bs) r
  Outcome-skip s (kept e low) = kept e low'
    where
      low' :
          (j : ℕ)
          → j < suc (length bs)
          → ok (block_at (b ∷ bs) j) ≡ true
          → int_order minimum ≤ int_order (block_at (b ∷ bs) j).worn
      low' zero h p = s p
      low' (suc j) h p = low j (omega arith) p
  Outcome-skip s (chosen n e h p l least first) =
      chosen (suc n) (e ∙ ap pos (omega arith)) (omega arith) p l least' first'
    where
      least' :
          (j : ℕ)
          → j < suc (length bs)
          → ok (block_at (b ∷ bs) j) ≡ true
          → int_order (block_at bs n).worn ≤ int_order (block_at (b ∷ bs) j).worn
      least' zero h q = omega (arith, s q)
      least' (suc j) h q = least j (omega arith) q

      first' :
          (j : ℕ)
          → j < suc n
          → ok (block_at (b ∷ bs) j) ≡ true
          → int_order (block_at bs n).worn < int_order (block_at (b ∷ bs) j).worn
      first' zero h q = omega (arith, s q)
      first' (suc j) h q = first j (omega arith) q

least_worn-Outcome :
    (ok : BlkInfo → Bool) (i minimum : ℕ) (ret : ℤ) (bs : List BlkInfo)
    → Outcome ok i minimum ret bs (least_worn ok i minimum ret bs)
unfolding least_worn
least_worn-Outcome ok i minimum ret [] = kept refl (λ j h p. absurd (omega arith))
least_worn-Outcome ok i minimum ret (b ∷ bs) = elim (Bool-cases (ok b)) [
  | inl o ↦ elim (Bool-cases (is_below b.worn minimum)) [
    | inl w ↦
        rw (o, w)
          (Outcome-better ok i minimum ret b bs _ o (ground arith)
            (least_worn-Outcome ok (i + 1) b.worn (pos i) bs))
    | inr w ↦
        rw (o, w)
          (Outcome-skip ok i minimum ret b bs _ (λ p. ground arith)
            (least_worn-Outcome ok (i + 1) minimum ret bs))
  ]
  | inr o ↦ rw o (
      Outcome-skip ok i minimum ret b bs _ (λ p. ground arith)
        (least_worn-Outcome ok (i + 1) minimum ret bs))
]

-- get_healthy_block returns the first of the least worn among the blocks that are not invalid and have a
-- page left, wear compared as ints, and -1 only if the wear of each of these is at least INT_MAX.
pub get_healthy_block-Outcome :
    (pages_per_block : ℕ) (bs : List BlkInfo)
    → Outcome
        (is_healthy pages_per_block)
        0
        int_max
        (negsuc 0)
        bs
        (get_healthy_block pages_per_block bs)
unfolding get_healthy_block
get_healthy_block-Outcome pages_per_block bs =
    least_worn-Outcome (is_healthy pages_per_block) 0 int_max (negsuc 0) bs

-- The outcome of get_meta_block: a block from the first search, or one from the second, when no block
-- is empty.
pub data MetaOutcome (pages_per_block : ℕ) (bs : List BlkInfo) (r : ℤ) : Type 0 where
  from_empty :
      (n : ℕ)
      → r ≡ pos n
      → Outcome is_empty_data 0 int_max (negsuc 0) bs r
      → MetaOutcome pages_per_block bs r
  from_open :
      ((j : ℕ)
        → j < length bs
        → is_empty_data (block_at bs j) ≡ true
        → int_order int_max ≤ int_order (block_at bs j).worn)
      → Outcome (is_open_data pages_per_block) 0 int_max (negsuc 0) bs r
      → MetaOutcome pages_per_block bs r

-- get_meta_block returns the first of the least worn among the empty blocks without metadata; if none
-- is worn less than `int_max` times, the first of the least worn among the blocks without metadata
-- that have a page left, or -1 if each of these is worn `int_max` times or more.
pub get_meta_block-MetaOutcome :
    (pages_per_block : ℕ) (bs : List BlkInfo)
    → MetaOutcome pages_per_block bs (get_meta_block pages_per_block bs)
unfolding get_meta_block or_open_block
get_meta_block-MetaOutcome pages_per_block bs =
    choose _ (least_worn-Outcome is_empty_data 0 int_max (negsuc 0) bs)
  where
    choose :
        (r : ℤ)
        → Outcome is_empty_data 0 int_max (negsuc 0) bs r
        → MetaOutcome pages_per_block bs (or_open_block pages_per_block bs r)
    choose (pos n) o = from_empty n refl o
    choose (negsuc n) (kept e low) =
        rw e (
          from_open low (least_worn-Outcome (is_open_data pages_per_block) 0 int_max (negsuc 0) bs))
    choose (negsuc n) (chosen m e h p l least first) = absurd (negative (0 + m) e)
      where
        negative : (m : ℕ) → negsuc n ≡ pos m → ⊥
        negative m e = cc

pub is_read_only-all :
    (pages_per_block : ℕ) (bs : List BlkInfo)
    → is_read_only pages_per_block bs ≡ true
    → (j : ℕ) → j < length bs
    → ltb (block_at bs j).current_page_offset pages_per_block ≡ false
unfolding is_read_only
is_read_only-all ppb [] r j h = absurd (omega arith)
is_read_only-all ppb (b ∷ bs) r zero h = ground arith
is_read_only-all ppb (b ∷ bs) r (suc j) h = is_read_only-all ppb bs (ground arith) j (omega arith)

all-is_read_only :
    (pages_per_block : ℕ) (bs : List BlkInfo)
    → ((j : ℕ) → j < length bs → ltb (block_at bs j).current_page_offset pages_per_block ≡ false)
    → is_read_only pages_per_block bs ≡ true
unfolding is_read_only
all-is_read_only ppb [] f = refl
all-is_read_only ppb (b ∷ bs) f =
    rw (f 0 (omega arith)) (all-is_read_only ppb bs (λ j h. f (suc j) (omega arith)))

-- Where no block is invalid or worn `int_max` times, the store is read-only exactly when
-- get_healthy_block finds no block.
pub is_read_only-get_healthy_block :
    (pages_per_block : ℕ) (bs : List BlkInfo)
    → ((j : ℕ)
        → j < length bs
        → (is_usable (block_at bs j).state ≡ true)
          × (int_order (block_at bs j).worn < int_order int_max))
    → (is_read_only pages_per_block bs ≡ true) ↔ (get_healthy_block pages_per_block bs ≡ negsuc 0)
is_read_only-get_healthy_block ppb bs usable = by_outcome _ (get_healthy_block-Outcome ppb bs)
  where
    full :
        ((j : ℕ)
          → j < length bs
          → is_healthy ppb (block_at bs j) ≡ true
          → int_order int_max ≤ int_order (block_at bs j).worn)
        → (j : ℕ) → j < length bs
        → ltb (block_at bs j).current_page_offset ppb ≡ false
    full low j h = elim (Bool-cases (ltb (block_at bs j).current_page_offset ppb)) [
      | inl t ↦
          let m = low j h (rw ((usable j h).0, t) refl) in absurd (omega (arith, m, (usable j h).1))
      | inr t ↦ t
    ]

    by_outcome :
        (r : ℤ)
        → Outcome (is_healthy ppb) 0 int_max (negsuc 0) bs r
        → (is_read_only ppb bs ≡ true) ↔ (r ≡ negsuc 0)
    by_outcome r (kept e low) = (λ q. e, λ q. all-is_read_only ppb bs (full low))
    by_outcome r (chosen n e h p l least first) = (
      λ q. let room = is_read_only-all ppb bs q n h in absurd (ground arith),
      λ q. absurd (negative (0 + n) (sym e ∙ q)),
    )
      where
        negative : (m : ℕ) → pos m ≡ negsuc 0 → ⊥
        negative m e = cc
