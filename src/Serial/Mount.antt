-- ===== src/Serial/Mount.antt =====
-- The load of the module in p6/prototype-serial/kernel/core.c: init_config and init_scan, which restores the
-- metadata that flush_metadata wrote, or formats the flash. `none` stands for an access outside an array.
pub mod Fresh
use linux_kernel_programming.Prelude.{
  ℕ, zero, suc, ◌+◌, ◌-◌, ◌*◌, ◌/◌, Bool, true, false, Option, none, some, List, [], ◌∷◌, ◌++◌, ltb,
  ◌==◌, if◌then◌else◌, set, take, drop, replicate, length,
}
use linux_kernel_programming.Prelude.Int.{ℤ, pos, negsuc}
use linux_kernel_programming.Prelude.Bytes.{le_value}
use linux_kernel_programming.Prelude.Words.{u64_mod}
use linux_kernel_programming.Vanilla.{Mtd}
use linux_kernel_programming.Vanilla.Mount.{MtdInfo}
use linux_kernel_programming.Serial.HashTable.{Bucket, is_valid}
use linux_kernel_programming.Serial.Blocks.{BlkInfo, is_read_only}
use linux_kernel_programming.Serial.Flash.{Config, read_page}
use linux_kernel_programming.Serial.Store.{Store}
use linux_kernel_programming.Serial.Insert.{list_add}
use linux_kernel_programming.Serial.Format.{format}
use linux_kernel_programming.Serial.Persist.{Core, meta_sizes}

abbrev pub meta_hdr_base : ℕ
meta_hdr_base = 1990

-- What the code leaves to the machine: the sizes of its structs, what fresh buffers and arrays hold, and the
-- arrays that bytes stand for.
pub record Machine : Type 0 where
  pub bucket_size : ℕ
  pub blk_info_size : ℕ
  pub fresh_bytes : List ℕ
  pub fresh_blocks : ℕ → List BlkInfo
  pub fresh_buckets : ℕ → List Bucket
  pub restore : List ℕ → List BlkInfo × List Bucket

-- The outcome of the search for headers: the order of the metadata blocks and their number, or a page that cannot be read.
pub data Scan : Type 0 where
  scanned : (order : List ℤ) (cnt : ℕ) → Scan
  unreadable outside : Scan

-- Page `j` of a metadata block as the 64 bits that read_page makes of it; the number is negative for a block
-- that was not found.
abbrev pub meta_page : ℤ → ℕ → ℕ → ℕ
meta_page (pos b) pages_per_block j = b * pages_per_block + j
meta_page (negsuc n) pages_per_block j = u64_mod - (n + 1) * pages_per_block + j

module _ {F : Type 0} where
  -- Each bucket that holds a key goes on the list of its block, from bucket `i` on.
  unfoldable pub link_valid : ℕ → List Bucket → Store F → Store F
  link_valid i [] s = s
  link_valid i (b ∷ t) s =
      let skipped = link_valid (i + 1) t s in
      let linked = link_valid (i + 1) t (list_add (b.index / s.config.pages_per_block) i s) in
      if is_valid b.p_state then linked else skipped

  -- The end of init_scan: the last page was written, or there are more.
  unfoldable pub finish_scan : Store F → ℤ × Store F
  finish_scan s =
      if is_read_only s.config.pages_per_block s.config.blocks
      then (pos 0, record s { config = record s.config { read_only = true } })
      else (pos 0, s)

  abbrev pub after_format : ℤ × Store F → ℤ × Store F
  after_format (pos zero, s) = finish_scan s
  after_format (ret, s) = (ret, s)

  module _ (mtd : Mtd F) where
    -- The first loop, over `n` blocks from block `i` on.
    unfoldable pub scan_headers : ℕ → ℕ → List ℤ → ℕ → Config F → Scan
    scan_headers zero i order cnt c = scanned order cnt
    scan_headers (suc n) i order cnt c = elim (read_page mtd (i * c.pages_per_block) c) [
      | none ↦ unreadable
      | some tmp ↦
          let blkordr_index = le_value (take 4 (drop 4 tmp)) in
          let skipped = scan_headers n (i + 1) order cnt c in
          let taken = scan_headers n (i + 1) (set order blkordr_index (pos i)) (cnt + 1) c in
          if le_value (take 4 tmp) == meta_hdr_base
          then if ltb blkordr_index (length order) then taken else outside
          else skipped
    ]

    -- The pages of a metadata block, `n` of them from page `j` on, and those of several blocks.
    unfoldable pub read_meta_block : ℤ → ℕ → ℕ → Config F → Option (List ℕ)
    read_meta_block b zero j c = some []
    read_meta_block b (suc n) j c = elim (read_page mtd (meta_page b c.pages_per_block j) c) [
      | none ↦ none
      | some page ↦ elim (read_meta_block b n (j + 1) c) [
        | none ↦ none
        | some bytes ↦ some (page ++ bytes)
      ]
    ]

    unfoldable pub read_meta : List ℤ → Config F → Option (List ℕ)
    unfolding read_meta_block
    read_meta [] c = some []
    read_meta (b ∷ order) c = elim (read_meta_block b (c.pages_per_block - 1) 1 c) [
      | none ↦ none
      | some page ↦ elim (read_meta order c) [ none ↦ none | some bytes ↦ some (page ++ bytes) ]
    ]

    -- The arrays are copied from the buffer, which holds the pages that were read; without metadata the flash is formatted.
    unfoldable pub load : Machine → ℕ → List ℕ → Store F → ℤ × Store F
    unfolding link_valid finish_scan
    load m cnt bytes s =
        let (bs, t) = m.restore (bytes ++ m.fresh_bytes) in
        let s₁ = record s {
          config = record s.config { blocks = bs; lists = λ b. [] };
          hashtable = t;
        } in
        let formatted = after_format (format mtd s₁) in
        if cnt == 0 then formatted else finish_scan (link_valid 0 t s₁)

    unfoldable pub load_scanned : Machine → Scan → Core F → Option (ℤ × Core F)
    unfolding load read_meta
    load_scanned m unreadable k = some (negsuc 2, k)
    load_scanned m outside k = none
    load_scanned m (scanned order cnt) k =
        if ltb (length order) cnt then none else elim (read_meta (take cnt order) k.store.config) [
          | none ↦ some (negsuc 3, record k { meta_blkordr = order })
          | some bytes ↦
              let (ret, s) = load m cnt bytes k.store in
              some (ret, record k { store = s; meta_blkordr = order })
        ]

    -- The array of blocks is the fresh one, of `nb_blocks` entries.
    unfoldable pub init_scan : Machine → Store F → Option (ℤ × Core F)
    unfolding load_scanned scan_headers
    init_scan m s =
        let nb_blocks = length s.config.blocks in
        let metadata_size =
          m.bucket_size * nb_blocks * s.config.pages_per_block + m.blk_info_size * nb_blocks in
        let sizes = meta_sizes metadata_size s.config.page_size s.config.pages_per_block in
        let order = replicate sizes.nb_meta_blocks (negsuc 0) in
        load_scanned m (scan_headers nb_blocks 0 order 0 s.config)
          (record { store = s; sizes = sizes; meta_blkordr = order; time_flush = 0 })

    -- A failure of init_scan is -1 here. `device` is get_mtd_device; without an index nothing happens.
    unfoldable pub init_config :
        Machine → Option ℕ → (ℕ → Option (MtdInfo F)) → Option (ℤ × Option (Core F))
    unfolding init_scan
    init_config m none device = some (negsuc 0, none)
    init_config m (some mtd_index) device = elim (device mtd_index) [
      | none ↦ some (negsuc 0, none)
      | some info ↦
          let nb_blocks = info.size / info.erasesize in
          let pages_per_block = info.erasesize / info.writesize in
          let s : Store F = record {
            config = record {
              flash = info.contents;
              block_size = info.erasesize;
              page_size = info.writesize;
              pages_per_block = pages_per_block;
              blocks = m.fresh_blocks nb_blocks;
              format_done = pos 0;
              read_only = false;
              lists = λ b. [];
            };
            hashtable = m.fresh_buckets (nb_blocks * pages_per_block);
            hash_size = nb_blocks * pages_per_block;
          } in
          elim (init_scan m s) [
            | none ↦ none
            | some (pos zero, k) ↦ some (pos 0, some k)
            | some (ret, k) ↦ some (negsuc 0, some k)
          ]
    ]
