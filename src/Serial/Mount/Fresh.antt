-- ===== src/Serial/Mount/Fresh.antt =====
-- The load of the module on a flash without metadata.
use linux_kernel_programming.Prelude.{
  ℕ, zero, suc, ◌+◌, ◌*◌, ◌%◌, ◌<◌, ◌≤◌, ◌≡◌, refl, ap₂, ◌∙◌, Bool, true, false, none, some, List,
  [], ◌∷◌, arith, ltb, ◌==◌, if◌then◌else◌, map, length, replicate, take,
}
use linux_kernel_programming.Prelude.Int.{ℤ, pos, negsuc}
use linux_kernel_programming.Prelude.Bytes.{le_value}
use linux_kernel_programming.Prelude.Words.{u64_mod}
use linux_kernel_programming.Vanilla.{Mtd, erase_done, free_mark}
use linux_kernel_programming.Serial.Blocks.{BlkInfo, is_read_only}
use linux_kernel_programming.Serial.Flash.{Config, read_page}
use linux_kernel_programming.Serial.Flash.Extends.{IsFlash}
use linux_kernel_programming.Serial.Store.{Store}
use linux_kernel_programming.Serial.Insert.Represents.{Represents}
use linux_kernel_programming.Serial.Format.{fresh_block, format, format_with, reset_store}
use linux_kernel_programming.Serial.Format.Empty.{format-Represents}
use linux_kernel_programming.Serial.Persist.{Core, MetaSizes, meta_sizes}
use linux_kernel_programming.Serial.Mount.{
  Machine, scanned, meta_hdr_base, finish_scan, after_format, scan_headers, read_meta, load,
  load_scanned, init_scan,
}

-- A block whose first page can be read and holds no header of metadata.
abbrev pub NoHeader : {F : Type 0} → Mtd F → Config F → ℕ → Type 0
NoHeader mtd c i =
    (page : List ℕ) × (read_page mtd (i * c.pages_per_block) c ≡ some page)
    × ((le_value (take 4 page) == meta_hdr_base) ≡ false)

scan_headers-none :
    {F : Type 0} (mtd : Mtd F) (c : Config F) (n i : ℕ) (order : List ℤ)
    → ((j : ℕ) → i ≤ j → j < i + n → NoHeader mtd c j)
    → scan_headers mtd n i order 0 c ≡ scanned order 0
unfolding scan_headers
scan_headers-none mtd c zero i order h = refl
scan_headers-none mtd c (suc n) i order h =
    let (page, e, other) = h i (omega arith) (omega arith) in
    rw (e, scan_headers, other)
      (scan_headers-none mtd c n (i + 1) order (λ j l u. h j (omega arith) (omega arith)))

fresh_not_full :
    (w : ℕ) (bs : List BlkInfo)
    → 0 < w
    → 0 < length bs
    → is_read_only w (map fresh_block bs) ≡ false
unfolding is_read_only
fresh_not_full w [] p q = absurd (omega arith)
fresh_not_full w (b ∷ bs) p q = let e : ltb 0 w ≡ true = ground arith in rw e

after_format-eq :
    {F : Type 0} (r : ℤ × Store F)
    → r.0 ≡ pos 0
    → is_read_only r.1.config.pages_per_block r.1.config.blocks ≡ false
    → after_format r ≡ (pos 0, r.1)
unfolding finish_scan
after_format-eq {F} (pos zero, s) e w =
    if_not (is_read_only s.config.pages_per_block s.config.blocks) w
  where
    if_not :
        (t : Bool)
        → t ≡ false
        → (if◌then◌else◌ {A = ℤ × Store F} t
            (pos 0, record s { config = record s.config { read_only = true } })
            (pos 0, s))
          ≡ (pos 0, s)
    if_not t e = rw e
after_format-eq (pos (suc n), s) e w = absurd (differ e)
  where
    differ : pos (suc n) ≡ pos 0 → ⊥
    differ q = cc
after_format-eq (negsuc n, s) e w = absurd (differ e)
  where
    differ : negsuc n ≡ pos 0 → ⊥
    differ q = cc

format-blocks :
    {F : Type 0} (mtd : Mtd F) (s : Store F) (f' : F)
    → mtd.mtd_erase 0 (s.config.block_size * length s.config.blocks % u64_mod) s.config.flash
      ≡ (erase_done, f')
    → ((format mtd s).1.config.blocks ≡ map fresh_block s.config.blocks)
      × ((format mtd s).1.config.pages_per_block ≡ s.config.pages_per_block)
unfolding format format_with reset_store
format-blocks mtd s f' e = rw e (refl, refl)

-- A format that the driver carries out, followed by the end of init_scan.
after_format-Represents :
    {F : Type 0} (mtd : Mtd F) (s : Store F) (f' : F)
    → length s.hashtable ≡ s.hash_size
    → 0 < s.hash_size
    → IsFlash s.config
    → 1 < s.config.pages_per_block
    → s.config.page_size < free_mark
    → 0 < length s.config.blocks
    → mtd.mtd_erase 0 (s.config.block_size * length s.config.blocks % u64_mod) s.config.flash
      ≡ (erase_done, f')
    → (s' : Store F) × (after_format (format mtd s) ≡ (pos 0, s')) × Represents mtd s' (λ key. none)
after_format-Represents mtd s f' sized some_bucket flash headers small some_block e =
    let (ret, writable, r) = format-Represents mtd s f' sized some_bucket flash headers small e in
    let (blocks, w) = format-blocks mtd s f' e in
    let not_full : is_read_only (format mtd s).1.config.pages_per_block
          (format mtd s).1.config.blocks
        ≡ false =
      ap₂ is_read_only w blocks
      ∙ fresh_not_full s.config.pages_per_block s.config.blocks (omega (arith, headers))
          some_block in
    ((format mtd s).1, after_format-eq (format mtd s) ret not_full, r)

-- On a flash in which the first page of each block can be read and holds no header of metadata, with a driver that
-- carries out each erase, init_scan returns 0 and leaves a store that represents the empty map, whatever bytes
-- the fresh arrays and buffers held: there are two pages to a block and one block at least.
pub init_scan-Represents :
    {F : Type 0} (mtd : Mtd F) (m : Machine) (s : Store F)
    → ((i : ℕ) → i < length s.config.blocks → NoHeader mtd s.config i)
    → ((addr len : ℕ) (f : F) → (f' : F) × (mtd.mtd_erase addr len f ≡ (erase_done, f')))
    → length (m.restore m.fresh_bytes).0 ≡ length s.config.blocks
    → length (m.restore m.fresh_bytes).1 ≡ s.hash_size
    → 0 < s.hash_size
    → IsFlash s.config
    → 1 < s.config.pages_per_block
    → s.config.page_size < free_mark
    → 0 < length s.config.blocks
    → (k : Core F) × (init_scan mtd m s ≡ some (pos 0, k)) × Represents mtd k.store (λ key. none)
unfolding init_scan load_scanned load read_meta
init_scan-Represents {F} mtd m s none_found erases same_blocks same_buckets some_bucket flash
      headers small some_block =
    let s₁ : Store F = record s {
      config = record s.config { blocks = (m.restore m.fresh_bytes).0; lists = λ b. [] };
      hashtable = (m.restore m.fresh_bytes).1;
    } in
    let (f', e) =
      erases 0 (s₁.config.block_size * length s₁.config.blocks % u64_mod) s₁.config.flash in
    let (s', done, r) =
      after_format-Represents mtd s₁ f' same_buckets some_bucket
        (record { addressable = rw same_blocks flash.addressable; some_page = flash.some_page })
        headers small (omega (arith, same_blocks, some_block)) e in
    let nb_blocks = length s.config.blocks in
    let sizes : MetaSizes =
      meta_sizes
        (m.bucket_size * nb_blocks * s.config.pages_per_block + m.blk_info_size * nb_blocks)
        s.config.page_size s.config.pages_per_block in
    let order : List ℤ = replicate sizes.nb_meta_blocks (negsuc 0) in
    let scan =
      scan_headers-none mtd s.config (length s.config.blocks) 0 order
        (λ j l u. none_found j (omega (arith, u))) in
    let short : ltb (length order) 0 ≡ false = ground arith in
    (
      record { store = s'; sizes = sizes; meta_blkordr = order; time_flush = 0 },
      rw (scan, short, done),
      r,
    )
