-- ===== src/Parallel/Collect/Merge.antt =====
-- The block that gc of p6/prototype-parallel/kernel/core.c merges with.
use mathlib.Core.Path.{subst}
use linux_kernel_programming.Prelude.{
  ℕ, suc, ◌+◌, ◌≤◌, ◌<◌, ◌≡◌, refl, ap, ◌∙◌, sym, true, false, Bool-cases, inl, inr, ◌⊎◌, Option,
  none, some, List, [], ◌∷◌, arith, ltb, ◌==◌, ltb→lt, length,
}
use linux_kernel_programming.Prelude.Int.{ℤ}
use linux_kernel_programming.Serial.Blocks.{int_order, is_below}
use linux_kernel_programming.Parallel.{BlkInfo, Store, block_at, is_meta}
use linux_kernel_programming.Parallel.Collect.{
  less_worn, has_room, find_merge, gc_order, is_empty, find_free, or_else, or_block, victim_of,
}

-- Block `j` is no metadata block and not the target, and it has room for more than the valid pages of the target.
pub record Suits (pages_per_block : ℕ) (order : List ℤ) (blocks : List BlkInfo) (target j : ℕ)
    : Type 0 where
  pub other : (j == target) ≡ false
  pub data_block : is_meta j order ≡ false
  pub room : has_room pages_per_block (block_at blocks target) (block_at blocks j) ≡ true

-- Of the numbers below `n`, none has the property, or this one does and none that has it has a smaller wear.
unfoldable pub Best : (ℕ → Type 0) → (ℕ → ℕ) → ℕ → Option ℕ → Type 0
Best P worn n none = (j : ℕ) → j < n → P j → ⊥
Best P worn n (some v) = (v < n) × P v × ((j : ℕ) → j < n → P j → worn v ≤ worn j)

below-suc : (j i : ℕ) → j < i + 1 → (j < i) ⊎ (j ≡ i)
below-suc j i h = elim (Bool-cases (ltb j i)) [
  | inl e ↦ inl (ltb→lt j i e)
  | inr e ↦ inr (ground arith)
]

Best-skip :
    (P : ℕ → Type 0) (worn : ℕ → ℕ) (i : ℕ) (best : Option ℕ)
    → (P i → ⊥)
    → Best P worn i best
    → Best P worn (i + 1) best
unfolding Best
Best-skip P worn i none n h =
    λ j l p. elim (below-suc j i l) [ inl b ↦ h j b p | inr e ↦ n (subst P e p) ]
Best-skip P worn i (some v) n (b, p, m) = (
  omega (arith, b),
  p,
  λ j l q. elim (below-suc j i l) [ inl b' ↦ m j b' q | inr e ↦ absurd (n (subst P e q)) ],
)

Best-take :
    (P : ℕ → Type 0) (blocks : List BlkInfo) (i : ℕ) (best : Option ℕ)
    → P i
    → Best P (λ j. int_order (block_at blocks j).worn) i best
    → Best P (λ j. int_order (block_at blocks j).worn) (i + 1) (less_worn blocks i best)
unfolding Best
Best-take P blocks i none p h = (
  omega arith,
  p,
  λ j l q. elim (below-suc j i l) [ inl b ↦ absurd (h j b q) | inr e ↦ rw e (omega arith) ],
)
Best-take P blocks i (some v) p (b, q, m) =
    elim (Bool-cases (is_below (block_at blocks i).worn (block_at blocks v).worn)) [
      | inl e ↦
          let w =
            ltb→lt (int_order (block_at blocks i).worn) (int_order (block_at blocks v).worn) e in
          rw e (
            omega arith,
            p,
            λ j l r. elim (below-suc j i l) [
              | inl b' ↦ let g = m j b' r in omega (arith, w, g)
              | inr c ↦ rw c (omega arith)
            ],
          )
      | inr e ↦ rw e (
        omega (arith, b),
        q,
        λ j l r. elim (below-suc j i l) [ inl b' ↦ m j b' r | inr c ↦ rw c (ground (arith, e)) ],
      )
    ]

module _ (pages_per_block : ℕ) (order : List ℤ) (blocks : List BlkInfo) (target : ℕ) where
  find_merge-loop :
      (i : ℕ) (best : Option ℕ) (bs : List BlkInfo)
      → i + length bs ≡ length blocks
      → ((n : ℕ) → n < length bs → block_at bs n ≡ block_at blocks (i + n))
      → Best
          (Suits pages_per_block order blocks target)
          (λ j. int_order (block_at blocks j).worn)
          i
          best
      → Best
          (Suits pages_per_block order blocks target)
          (λ j. int_order (block_at blocks j).worn)
          (length blocks)
          (find_merge pages_per_block order blocks target i best bs)
  unfolding find_merge
  find_merge-loop i best [] size at h =
      subst
        (λ n.
          Best (Suits pages_per_block order blocks target) (λ j. int_order (block_at blocks j).worn)
            n best)
        (omega (arith, size)) h
  find_merge-loop i best (b ∷ bs) size at h =
      let worn : ℕ → ℕ = λ j. int_order (block_at blocks j).worn in
      let P : ℕ → Type 0 = Suits pages_per_block order blocks target in
      let head : b ≡ block_at blocks i = at 0 (omega arith) ∙ ap (block_at blocks) (omega arith) in
      let next : (n : ℕ) → n < length bs → block_at bs n ≡ block_at blocks (i + 1 + n) =
        λ n l. at (suc n) (omega (arith, l)) ∙ ap (block_at blocks) (omega arith) in
      let skipped : (P i → ⊥) → _ = λ n.
        find_merge-loop (i + 1) best bs (omega (arith, size)) next (Best-skip P worn i best n h) in
      elim (Bool-cases (i == target)) [
        | inl e ↦ rw e (skipped (λ p. let o = p.other in absurd cc))
        | inr e ↦ elim (Bool-cases (is_meta i order)) [
          | inl f ↦ rw (e, f) (skipped (λ p. let o = p.data_block in absurd cc))
          | inr f ↦ elim (Bool-cases (has_room pages_per_block (block_at blocks target) b)) [
            | inl g ↦
                let fits = ap (has_room pages_per_block (block_at blocks target)) (sym head) ∙ g in
                rw (e, f, g)
                  (find_merge-loop (i + 1) (less_worn blocks i best) bs (omega (arith, size)) next (
                    Best-take P blocks i best (record { other = e; data_block = f; room = fits })
                      h))
            | inr g ↦
                rw (e, f, g)
                  (skipped (λ p.
                    let o = ap (has_room pages_per_block (block_at blocks target)) head ∙ p.room in
                    absurd cc))
          ]
        ]
      ]

-- Block `j` is free and empty.
abbrev pub Empty : List BlkInfo → ℕ → Type 0
Empty blocks j = is_empty (block_at blocks j) ≡ true

find_free-loop :
    (blocks : List BlkInfo) (i : ℕ) (best : Option ℕ) (bs : List BlkInfo)
    → i + length bs ≡ length blocks
    → ((n : ℕ) → n < length bs → block_at bs n ≡ block_at blocks (i + n))
    → Best (Empty blocks) (λ j. int_order (block_at blocks j).worn) i best
    → Best
        (Empty blocks)
        (λ j. int_order (block_at blocks j).worn)
        (length blocks)
        (find_free blocks i best bs)
unfolding find_free
find_free-loop blocks i best [] size at h =
    subst (λ n. Best (Empty blocks) (λ j. int_order (block_at blocks j).worn) n best)
      (omega (arith, size)) h
find_free-loop blocks i best (b ∷ bs) size at h =
    let worn : ℕ → ℕ = λ j. int_order (block_at blocks j).worn in
    let head : b ≡ block_at blocks i = at 0 (omega arith) ∙ ap (block_at blocks) (omega arith) in
    let next : (n : ℕ) → n < length bs → block_at bs n ≡ block_at blocks (i + 1 + n) =
      λ n l. at (suc n) (omega (arith, l)) ∙ ap (block_at blocks) (omega arith) in
    elim (Bool-cases (is_empty b)) [
      | inl g ↦ rw g (
          find_free-loop blocks (i + 1) (less_worn blocks i best) bs (omega (arith, size)) next
            (Best-take (Empty blocks) blocks i best (ap is_empty (sym head) ∙ g) h))
      | inr g ↦ rw g (
          find_free-loop blocks (i + 1) best bs (omega (arith, size)) next (
            Best-skip (Empty blocks) worn i best (λ p. let o = ap is_empty head ∙ p in absurd cc)
              h))
    ]

module _ {F : Type 0} (s : Store F) (target : ℕ) where
  abbrev Mergeable : ℕ → Type 0
  Mergeable = Suits s.pages_per_block (gc_order s) s.blocks target

  abbrev wear : ℕ → ℕ
  wear j = int_order (block_at s.blocks j).worn

  -- How the victim `v` comes about.
  pub data Victim (v : ℕ) : Type 0 where
    merges : Best Mergeable wear (length s.blocks) (some v) → Victim v
    fresh :
        Best Mergeable wear (length s.blocks) none
        → Best (Empty s.blocks) wear (length s.blocks) (some v)
        → Victim v
    itself :
        Best Mergeable wear (length s.blocks) none
        → Best (Empty s.blocks) wear (length s.blocks) none
        → v ≡ target
        → Victim v

  -- Wear compared as ints, the victim of gc is a least worn block among those that have room for the pages of the target, the target and the
  -- metadata blocks left aside; when there is none, a least worn one of the free blocks; and when there is none of
  -- these, the target.
  pub victim_of-Victim : Victim (victim_of target s)
  unfolding victim_of
  victim_of-Victim =
      by_cases (find_merge s.pages_per_block (gc_order s) s.blocks target 0 none s.blocks)
        (find_free s.blocks 0 none s.blocks)
        (find_merge-loop s.pages_per_block (gc_order s) s.blocks target 0 none s.blocks
          (omega arith) (λ n l. ap (block_at s.blocks) (omega arith))
          (unfold Best in λ j l p. absurd (omega (arith, l))))
        (find_free-loop s.blocks 0 none s.blocks (omega arith)
          (λ n l. ap (block_at s.blocks) (omega arith))
          (unfold Best in λ j l p. absurd (omega (arith, l))))
    where
      by_cases :
          (a b : Option ℕ)
          → Best Mergeable wear (length s.blocks) a
          → Best (Empty s.blocks) wear (length s.blocks) b
          → Victim (or_block (or_else a b) target)
      by_cases (some v) b h k = merges h
      by_cases none (some v) h k = fresh h k
      by_cases none none h k = itself h k refl
