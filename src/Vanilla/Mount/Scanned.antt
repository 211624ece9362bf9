-- ===== src/Vanilla/Mount/Scanned.antt =====
-- The metadata that the scan of a mount builds.
use linux_kernel_programming.Prelude.{
  ℕ, zero, suc, ◌+◌, ◌*◌, ◌<◌, ◌≤◌, ◌≡◌, ◌↔◌, refl, sym, ap, ◌∙◌, Bool, true, false, Option, none,
  some, List, [], ◌∷◌, arith, if◌then◌else◌, length, replicate, length-replicate, Bool-cases, inl,
  inr,
}
use linux_kernel_programming.Prelude.Int.{pos}
use linux_kernel_programming.Vanilla.{
  PageState, pg_free, pg_valid, Mtd, Config, read_page, BlkInfo, block_at, is_free,
}
use linux_kernel_programming.Vanilla.Mount.{
  is_erased, scan_pages, cons_some, cons_block, block_of, scan_blocks, finish_scan, init_scan,
  last_written,
}
use linux_kernel_programming.Vanilla.Scan.{is_valid_page, page_at}

-- A page that reads, and is not erased.
abbrev pub is_written : Option (List ℕ) → Bool
is_written none = false
is_written (some buffer) = if is_erased buffer then false else true

abbrev pub Reads : Option (List ℕ) → Type 0
Reads page = (buffer : List ℕ) × (page ≡ some buffer)

get_or-replicate_free : (n j : ℕ) → is_valid_page (page_at (replicate n pg_free) j) ≡ false
get_or-replicate_free zero j = refl
get_or-replicate_free (suc n) zero = refl
get_or-replicate_free (suc n) (suc j) = get_or-replicate_free n j

-- The states of a block's pages: a page is valid when it and all before it in the block are written.
pub record IsPrefix (page : ℕ → Option (List ℕ)) (n : ℕ) (ps : List PageState) : Type 0 where
  pub all : length ps ≡ n
  pub valid :
      (j : ℕ)
      → j < n
      → (is_valid_page (page_at ps j) ≡ true) ↔ ((k : ℕ) → k ≤ j → is_written (page k) ≡ true)

-- An erased page ends the prefix.
IsPrefix-erased :
    (page : ℕ → Option (List ℕ)) (n : ℕ)
    → is_written (page 0) ≡ false
    → IsPrefix page n (replicate n pg_free)
IsPrefix-erased page n e = record {
  all = length-replicate n pg_free;
  valid = λ j h.
      (λ v k l. ground (arith, get_or-replicate_free n j), λ w. ground (arith, w 0 (omega arith)));
}

IsPrefix-cons :
    (page : ℕ → Option (List ℕ)) (n : ℕ) (ps : List PageState)
    → is_written (page 0) ≡ true
    → IsPrefix (λ k. page (suc k)) n ps
    → IsPrefix page (suc n) (pg_valid ∷ ps)
IsPrefix-cons page n ps e p = record { all = ap suc p.all; valid = valid' }
  where
    forth :
        (j : ℕ)
        → j < n
        → is_valid_page (page_at ps j) ≡ true
        → (k : ℕ) → k ≤ suc j
        → is_written (page k) ≡ true
    forth j h v zero l = e
    forth j h v (suc k) l = (p.valid j h).0 v k (omega arith)

    first : (k : ℕ) → k ≤ 0 → is_written (page k) ≡ true
    first zero l = e
    first (suc k) l = absurd (omega arith)

    valid' :
        (j : ℕ)
        → j < suc n
        → (is_valid_page (page_at (pg_valid ∷ ps) j) ≡ true)
          ↔ ((k : ℕ) → k ≤ j → is_written (page k) ≡ true)
    valid' zero h = (λ v. first, λ w. refl)
    valid' (suc j) h =
        (forth j (omega arith), λ w. (p.valid j (omega arith)).1 (λ k l. w (suc k) (omega arith)))

IsPrefix-congr :
    (f g : ℕ → Option (List ℕ)) (n : ℕ) (ps : List PageState)
    → ((k : ℕ) → f k ≡ g k)
    → IsPrefix f n ps
    → IsPrefix g n ps
IsPrefix-congr f g n ps h p = record {
  all = p.all;
  valid = λ j l. (
    λ v k m. ap is_written (sym (h k)) ∙ (p.valid j l).0 v k m,
    λ w. (p.valid j l).1 (λ k m. ap is_written (h k) ∙ w k m),
  );
}

module _ {F : Type 0} (mtd : Mtd F) (c : Config F) where
  scan_pages-IsPrefix :
      (index n : ℕ)
      → ((k : ℕ) → k < n → Reads (read_page mtd c (index + k)))
      → (ps : List PageState) × ((scan_pages mtd c index n ≡ some ps)
          × IsPrefix (λ k. read_page mtd c (index + k)) n ps)
  unfolding scan_pages cons_some
  scan_pages-IsPrefix index zero r =
      ([], (refl, record { all = refl; valid = λ j h. absurd (omega arith) }))
  scan_pages-IsPrefix index (suc n) r =
      let (buffer, e) = r 0 (omega arith) in
      let here : read_page mtd c index ≡ some buffer = ap (read_page mtd c) (omega arith) ∙ e in
      let (ps, (scan, p)) = scan_pages-IsPrefix (index + 1) n later in
      let p' =
        IsPrefix-congr _ (λ k. read_page mtd c (index + suc k)) n ps
          (λ k. ap (read_page mtd c) (omega arith)) p in
      elim (Bool-cases (is_erased buffer)) [
        | inl t ↦ (
          replicate (suc n) pg_free,
          (rw (here, t) refl, IsPrefix-erased _ (suc n) (rw (e, t) refl)),
        )
        | inr t ↦
            (pg_valid ∷ ps, (rw (here, t, scan) refl, IsPrefix-cons _ n ps (rw (e, t) refl) p'))
      ]
    where
      later : (k : ℕ) → k < n → Reads (read_page mtd c (index + 1 + k))
      later k l =
          let (b, e) = r (suc k) (omega arith) in (b, ap (read_page mtd c) (omega arith) ∙ e)

  -- The pages of block `b`, counted from block `i`.
  abbrev pub pages_of : ℕ → ℕ → ℕ → Option (List ℕ)
  pages_of i b k = read_page mtd c ((i + b) * c.pages_per_block + k)

  -- What the scan of `n` blocks from block `i` on builds.
  pub record IsScanned (i n : ℕ) (bs : List BlkInfo) : Type 0 where
    pub count : length bs ≡ n
    pub block :
        (b : ℕ)
        → b < n
        → (ps : List PageState) × ((block_at bs b ≡ block_of ps)
            × IsPrefix (pages_of i b) c.pages_per_block ps)

  scan_blocks-IsScanned :
      (i n : ℕ)
      → ((b k : ℕ) → b < n → k < c.pages_per_block → Reads (pages_of i b k))
      → (bs : List BlkInfo) × ((scan_blocks mtd c i n ≡ some bs) × IsScanned i n bs)
  unfolding scan_blocks cons_block cons_some
  scan_blocks-IsScanned i zero r =
      ([], (refl, record { count = refl; block = λ b h. absurd (omega arith) }))
  scan_blocks-IsScanned i (suc n) r =
      let (bs, (scan, v)) =
        scan_blocks-IsScanned (i + 1) n
          (λ b k h l. let (x, e) = r (suc b) k (omega arith) l in (x, same b k ∙ e)) in
      let (ps, (pages, p)) =
        scan_pages-IsPrefix (i * c.pages_per_block) c.pages_per_block
          (λ k l. let (x, e) = r 0 k (omega arith) l in (x, first k ∙ e)) in
      (
        block_of ps ∷ bs,
        (rw (pages, scan) refl, record { count = ap suc v.count; block = block' ps bs p v }),
      )
    where
      same : (b k : ℕ) → pages_of (i + 1) b k ≡ pages_of i (suc b) k
      same b k = ap (λ m. read_page mtd c (m * c.pages_per_block + k)) (omega arith)

      first : (k : ℕ) → read_page mtd c (i * c.pages_per_block + k) ≡ pages_of i 0 k
      first k = ap (λ m. read_page mtd c (m * c.pages_per_block + k)) (omega arith)

      block' :
          (ps : List PageState) (bs : List BlkInfo)
          → IsPrefix (λ k. read_page mtd c (i * c.pages_per_block + k)) c.pages_per_block ps
          → IsScanned (i + 1) n bs
          → (b : ℕ) → b < suc n
          → (qs : List PageState) × ((block_at (block_of ps ∷ bs) b ≡ block_of qs)
              × IsPrefix (pages_of i b) c.pages_per_block qs)
      block' ps bs p v zero h =
          (ps, (refl, IsPrefix-congr _ (pages_of i 0) c.pages_per_block ps first p))
      block' ps bs p v (suc b) h =
          let (qs, (e, q)) = v.block b (omega arith) in
          (qs, (e, IsPrefix-congr _ (pages_of i (suc b)) c.pages_per_block qs (same b) q))

pages-block_of : (ps : List PageState) → (block_of ps).pages_states ≡ ps
unfolding block_of
pages-block_of [] = refl
pages-block_of (pg_free ∷ ps) = refl
pages-block_of (pg_valid ∷ ps) = refl

is_free-block_of :
    (ps : List PageState)
    → (is_free (block_of ps).state ≡ false) ↔ (is_valid_page (page_at ps 0) ≡ true)
unfolding block_of
is_free-block_of [] = (λ e. ground arith, λ e. ground arith)
is_free-block_of (pg_free ∷ ps) = (λ e. ground arith, λ e. ground arith)
is_free-block_of (pg_valid ∷ ps) = (λ e. refl, λ e. refl)

module _ {F : Type 0} (mtd : Mtd F) (c : Config F) where
  -- If every page of the partition reads, init_scan returns 0 with one entry for each block. A page is
  -- then valid exactly when it and all pages before it in its block are written, and a block is used
  -- exactly when its first page is valid. The store is read-only if the last page is valid, and else as
  -- before.
  pub init_scan-valid :
      ((b k : ℕ)
        → b < c.nb_blocks
        → k < c.pages_per_block
        → Reads (read_page mtd c (b * c.pages_per_block + k)))
      → let (ret, c') = init_scan mtd c in
        (ret ≡ pos 0)
        × (length c'.blocks ≡ c.nb_blocks)
        × ((b j : ℕ)
            → b < c.nb_blocks
            → j < c.pages_per_block
            → (is_valid_page (page_at (block_at c'.blocks b).pages_states j) ≡ true)
              ↔ ((k : ℕ) → k ≤ j → is_written (read_page mtd c (b * c.pages_per_block + k)) ≡ true))
        × ((b : ℕ)
            → b < c.nb_blocks
            → (is_free (block_at c'.blocks b).state ≡ false)
              ↔ (is_valid_page (page_at (block_at c'.blocks b).pages_states 0) ≡ true))
        × (c'.read_only ≡ (if last_written c c'.blocks then true else c.read_only))
  unfolding init_scan finish_scan
  init_scan-valid r =
      let (bs, (scan, v)) = scan_blocks-IsScanned mtd c 0 c.nb_blocks (λ b k h l.
        let (x, e) = r b k h l in
        (x, ap (λ m. read_page mtd c (m * c.pages_per_block + k)) (omega arith) ∙ e)) in
      rw scan (refl, v.count, valid bs v, used bs v, refl)
    where
      valid :
          (bs : List BlkInfo)
          → IsScanned mtd c 0 c.nb_blocks bs
          → (b j : ℕ) → b < c.nb_blocks
          → j < c.pages_per_block
          → (is_valid_page (page_at (block_at bs b).pages_states j) ≡ true)
            ↔ ((k : ℕ) → k ≤ j → is_written (read_page mtd c (b * c.pages_per_block + k)) ≡ true)
      valid bs v b j h l =
          let (ps, (e, p)) = v.block b h in
          let p' =
            IsPrefix-congr _ (λ k. read_page mtd c (b * c.pages_per_block + k)) c.pages_per_block ps
              (λ k. ap (λ m. read_page mtd c (m * c.pages_per_block + k)) (omega arith)) p in
          rw (e, pages-block_of ps) (p'.valid j l)

      used :
          (bs : List BlkInfo)
          → IsScanned mtd c 0 c.nb_blocks bs
          → (b : ℕ) → b < c.nb_blocks
          → (is_free (block_at bs b).state ≡ false)
            ↔ (is_valid_page (page_at (block_at bs b).pages_states 0) ≡ true)
      used bs v b h =
          let (ps, (e, p)) = v.block b h in rw (e, pages-block_of ps) (is_free-block_of ps)
