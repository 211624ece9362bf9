-- ===== src/Vanilla/Scan.antt =====
-- The scan of get_keyval over the valid pages of the used blocks.
use linux_kernel_programming.Prelude.{
  ℕ, zero, suc, ◌+◌, ◌*◌, ◌≡◌, ◌≢◌, ◌⊎◌, refl, Bool, true, false, List, [], ◌∷◌, arith,
  if◌then◌else◌, Bool-cases, inl, inr, get_or,
}
use linux_kernel_programming.Vanilla.{
  Config, Mtd, BlkInfo, PageState, pg_free, pg_valid, is_free, block_at, GetResult, found,
  not_found, read_error, match_page, or_next, read_page, get_pages, get_blocks,
}

abbrev pub is_valid_page : PageState → Bool
is_valid_page pg_free = false
is_valid_page pg_valid = true

abbrev pub page_at : List PageState → ℕ → PageState
page_at ps j = get_or ps j pg_free

-- Page `j` of block `b` is scanned.
abbrev pub scanned : List BlkInfo → ℕ → ℕ → Bool
scanned bs b j =
    if is_free (block_at bs b).state
    then false
    else is_valid_page (page_at (block_at bs b).pages_states j)

or_next-not_found : (a b : GetResult) → or_next a b ≡ not_found → (a ≡ not_found) × (b ≡ not_found)
or_next-not_found not_found b h = (refl, h)
or_next-not_found (found p v) b h = cc
or_next-not_found read_error b h = cc

module _ {F : Type 0} (mtd : Mtd F) (c : Config F) (key : List ℕ) where
  -- What the scan makes of page `p`.
  abbrev pub matched : ℕ → GetResult
  matched p = match_page key p (read_page mtd c p)

  shift : (i j : ℕ) → i + 1 + j ≡ i + suc j
  shift i j = omega arith

  get_pages-not_found :
      (i : ℕ) (ps : List PageState)
      → get_pages mtd c key i ps ≡ not_found
      → (j : ℕ) → is_valid_page (page_at ps j) ≡ true
      → matched (i + j) ≡ not_found
  unfolding get_pages
  get_pages-not_found i [] h j v = cc
  get_pages-not_found i (pg_free ∷ ps) h zero v = cc
  get_pages-not_found i (pg_free ∷ ps) h (suc j) v =
      rw (← shift i j) (get_pages-not_found (i + 1) ps h j v)
  get_pages-not_found i (pg_valid ∷ ps) h zero v =
      let e : i + 0 ≡ i = omega arith in rw e (or_next-not_found (matched i) _ h).0
  get_pages-not_found i (pg_valid ∷ ps) h (suc j) v =
      rw (← shift i j) (get_pages-not_found (i + 1) ps (or_next-not_found (matched i) _ h).1 j v)

  get_pages-none :
      (i : ℕ) (ps : List PageState)
      → ((j : ℕ) → is_valid_page (page_at ps j) ≡ true → matched (i + j) ≡ not_found)
      → get_pages mtd c key i ps ≡ not_found
  unfolding get_pages
  get_pages-none i [] h = refl
  get_pages-none i (pg_free ∷ ps) h =
      get_pages-none (i + 1) ps (λ j v. rw (shift i j) (h (suc j) v))
  get_pages-none i (pg_valid ∷ ps) h =
      let e : i + 0 ≡ i = omega arith in
      let first : matched i ≡ not_found = rw e at (h 0 refl) in
      rw first (get_pages-none (i + 1) ps (λ j v. rw (shift i j) (h (suc j) v)))

  get_pages-found :
      (i : ℕ) (ps : List PageState) (o : ℕ) (val : List ℕ)
      → is_valid_page (page_at ps o) ≡ true
      → ((j : ℕ) → is_valid_page (page_at ps j) ≡ true → j ≢ o → matched (i + j) ≡ not_found)
      → matched (i + o) ≡ found (i + o) val
      → get_pages mtd c key i ps ≡ found (i + o) val
  unfolding get_pages
  get_pages-found i [] o val v h t = cc
  get_pages-found i (pg_free ∷ ps) zero val v h t = cc
  get_pages-found i (pg_valid ∷ ps) zero val v h t =
      let e : i + 0 ≡ i = omega arith in
      let here : matched i ≡ found i val = rw e at t in rw (here, e)
  get_pages-found i (pg_free ∷ ps) (suc o) val v h t = rw (← shift i o) (
      get_pages-found (i + 1) ps o val v (λ j w ne. rw (shift i j) (h (suc j) w (omega arith)))
        (rw (shift i o) t))
  get_pages-found i (pg_valid ∷ ps) (suc o) val v h t =
      let e : i + 0 ≡ i = omega arith in
      let first : matched i ≡ not_found = rw e at (h 0 refl (omega arith)) in
      rw (first, ← shift i o)
        (get_pages-found (i + 1) ps o val v (λ j w ne. rw (shift i j) (h (suc j) w (omega arith)))
          (rw (shift i o) t))

  -- A scan that finds nothing has read every page that it covers, and none matched.
  pub get_blocks-not_found :
      (i : ℕ) (bs : List BlkInfo)
      → get_blocks mtd c key i bs ≡ not_found
      → (b j : ℕ) → scanned bs b j ≡ true
      → matched ((i + b) * c.pages_per_block + j) ≡ not_found
  unfolding get_blocks
  get_blocks-not_found i [] h b j v = cc
  get_blocks-not_found i (x ∷ bs) h zero j v = elim (Bool-cases (is_free x.state)) [
    | inl f ↦ absurd (free_clash f v)
    | inr u ↦
        let e : i + 0 ≡ i = omega arith in
        rw e (
          get_pages-not_found (i * c.pages_per_block) x.pages_states
            (or_next-not_found _ _ (rw u at h)).0 j (rw u at v))
  ]
    where
      free_clash : is_free x.state ≡ true → scanned (x ∷ bs) zero j ≡ true → ⊥
      free_clash f v = ground arith
  get_blocks-not_found i (x ∷ bs) h (suc b) j v = elim (Bool-cases (is_free x.state)) [
    | inl f ↦ rw (← shift i b) (get_blocks-not_found (i + 1) bs (rw f at h) b j v)
    | inr u ↦
        rw (← shift i b)
          (get_blocks-not_found (i + 1) bs (or_next-not_found _ _ (rw u at h)).1 b j v)
  ]

  -- If one page that the scan covers matches and no other does, the scan returns that page.
  pub get_blocks-found :
      (i : ℕ) (bs : List BlkInfo) (b o : ℕ) (val : List ℕ)
      → scanned bs b o ≡ true
      → ((b' j : ℕ)
          → scanned bs b' j ≡ true
          → (b' ≢ b) ⊎ (j ≢ o)
          → matched ((i + b') * c.pages_per_block + j) ≡ not_found)
      → matched ((i + b) * c.pages_per_block + o) ≡ found ((i + b) * c.pages_per_block + o) val
      → get_blocks mtd c key i bs ≡ found ((i + b) * c.pages_per_block + o) val
  unfolding get_blocks
  get_blocks-found i [] b o val v h t = cc
  get_blocks-found i (x ∷ bs) zero o val v h t = elim (Bool-cases (is_free x.state)) [
    | inl f ↦ absurd (free_clash f v)
    | inr u ↦
        let e : i + 0 ≡ i = omega arith in
        rw (
          u,
          e,
          get_pages-found (i * c.pages_per_block) x.pages_states o val (rw u at v)
              (λ j w ne. rw (← e) (h 0 j (used j u w) (inr ne))) (rw e at t),
        )
  ]
    where
      free_clash : is_free x.state ≡ true → scanned (x ∷ bs) zero o ≡ true → ⊥
      free_clash f v = ground arith

      used :
          (j : ℕ)
          → is_free x.state ≡ false
          → is_valid_page (page_at x.pages_states j) ≡ true
          → scanned (x ∷ bs) zero j ≡ true
      used j u w = ground arith
  get_blocks-found i (x ∷ bs) (suc b) o val v h t =
      let later =
        get_blocks-found (i + 1) bs b o val v
          (λ b' j w ne.
            rw (shift i b')
              (h (suc b') j w (elim ne [ inl n ↦ inl (omega arith) | inr n ↦ inr n ])))
          (rw (shift i b) t) in
      elim (Bool-cases (is_free x.state)) [
        | inl f ↦ rw (f, ← shift i b) later
        | inr u ↦
            let skip = get_pages-none (i * c.pages_per_block) x.pages_states (λ j w.
              let e : i + 0 ≡ i = omega arith in
              rw (← e) (h 0 j (used j u w) (inl (omega arith)))) in
            rw (u, skip, ← shift i b) later
      ]
    where
      used :
          (j : ℕ)
          → is_free x.state ≡ false
          → is_valid_page (page_at x.pages_states j) ≡ true
          → scanned (x ∷ bs) zero j ≡ true
      used j u w = ground arith

  -- A scan that covers no page finds nothing.
  pub get_blocks-none :
      (i : ℕ) (bs : List BlkInfo)
      → ((b j : ℕ) → scanned bs b j ≡ false)
      → get_blocks mtd c key i bs ≡ not_found
  unfolding get_blocks
  get_blocks-none i [] h = refl
  get_blocks-none i (x ∷ bs) h = elim (Bool-cases (is_free x.state)) [
    | inl f ↦ rw f (get_blocks-none (i + 1) bs (λ b. h (suc b)))
    | inr u ↦
        let skip =
          get_pages-none (i * c.pages_per_block) x.pages_states (λ j w. absurd (covered j u w)) in
        rw (u, skip) (get_blocks-none (i + 1) bs (λ b. h (suc b)))
  ]
    where
      covered :
          (j : ℕ) → is_free x.state ≡ false → is_valid_page (page_at x.pages_states j) ≡ true → ⊥
      covered j u w = ground (arith, h 0 j)
