-- ===== src/Parallel/Mount.antt =====
-- The load and the unload of the module in p6/prototype-parallel/kernel/core.c: init_config, init_scan, lkp_kv_init and
-- lkp_kv_exit. `crashes` stands for BUG() and for an access outside an array.
pub mod Fresh
use linux_kernel_programming.Prelude.{
  ℕ, zero, suc, ◌+◌, ◌-◌, ◌*◌, ◌/◌, ◌==◌, Bool, true, false, ◌&&◌, Option, none, some, List, [],
  ◌∷◌, map, ltb, leb, if◌then◌else◌, set, drop, replicate, length,
}
use linux_kernel_programming.Prelude.Int.{ℤ, pos, negsuc}
use linux_kernel_programming.Prelude.Bytes.{memcpy, starts_with}
use linux_kernel_programming.Vanilla.{Mtd, blk_free}
use linux_kernel_programming.Vanilla.Mount.{MtdInfo}
use linux_kernel_programming.Serial.HashTable.{Bucket, is_valid}
use linux_kernel_programming.Serial.Collect.{c_string}
use linux_kernel_programming.Parallel.{
  BlkInfo, Store, Outcome, done, hangs, crashes, and_then, is_read_only, list_add, read_page,
  with_lock,
}
use linux_kernel_programming.Parallel.Flush.{Image, meta_hdr_base}
use linux_kernel_programming.Parallel.System.{System, flush_metadata}

-- What the code leaves to the machine: the sizes of its structs, the bytes of a table with that many fresh buckets, and the
-- arrays that bytes stand for. A block with the state 0xFFFFFFFF is `none`.
pub record Machine : Type 0 where
  pub bucket_size : ℕ
  pub blk_info_size : ℕ
  pub fresh_table : ℕ → List ℕ
  pub blocks_of : List ℕ → List (Option BlkInfo)
  pub table_of : List ℕ → List Bucket

abbrev pub is_digit : ℕ → Bool
is_digit x = leb 48 x && ltb x 58

-- `simple_strtol` of a text without a sign; `n` was read before.
unfoldable pub strtol : ℕ → List ℕ → ℕ
strtol n [] = n
strtol n (x ∷ xs) = let rest = strtol (n * 10 + (x - 48)) xs in if is_digit x then rest else n

-- The memory of both arrays, the pages of the table and those of both that were read, and the order of the metadata blocks.
pub record Loaded : Type 0 where
  pub block_bytes : List ℕ
  pub table_bytes : List ℕ
  pub jack_ofs : ℕ
  pub total_ram_pg_cnt : ℕ
  pub order : List ℤ

-- What the first loop does after a block: it goes on, or all pages are read.
pub data Progress : Type 0 where
  going_on finished : Loaded → Progress

abbrev pub or_fresh : Option BlkInfo → BlkInfo
or_fresh none = record { state = blk_free; worn = 0; nb_invalid = 0; current_page_offset = 0 }
or_fresh (some b) = b

module _ {F : Type 0} where
  -- One page is copied: page `at` of the metadata in its own order. The table takes its pages in the order in which they
  -- are read.
  unfoldable pub copy_page : Store F → ℕ → List ℕ → Loaded → Outcome Loaded
  copy_page s at page l =
      let blk_pgs = s.block_info_size / s.page_size in
      if ltb at blk_pgs
      then done (record l { block_bytes = memcpy l.block_bytes (at * s.page_size) page })
      else if ltb l.jack_ofs (s.hashtable_size / s.page_size)
      then done (record l {
        table_bytes = memcpy l.table_bytes (l.jack_ofs * s.page_size) page;
        jack_ofs = l.jack_ofs + 1;
      })
      else crashes

  -- Each bucket that holds a key goes on the list of its block, from bucket `i` on.
  unfoldable pub link_valid : ℕ → List Bucket → Store F → Store F
  link_valid i [] s = s
  link_valid i (b ∷ t) s =
      let skipped = link_valid (i + 1) t s in
      let linked = link_valid (i + 1) t (list_add (b.index / s.pages_per_block) i s) in
      if is_valid b.p_state then linked else skipped

  -- The end of init_scan: the last page was written, or there are more.
  unfoldable pub finish_scan : Store F → ℤ × Store F
  finish_scan s =
      if is_read_only s
      then (pos 0, with_lock false (record s { read_only = true; meta_read_only = true }))
      else (pos 0, with_lock false s)

  -- The arrays that were loaded.
  unfoldable pub construct : Machine → Store F → Loaded → ℤ × Store F
  unfolding link_valid finish_scan
  construct m s l =
      let t = m.table_of l.table_bytes in
      finish_scan (
        link_valid 0 t (record s {
          blocks = map or_fresh (m.blocks_of l.block_bytes);
          lists = λ b. [];
          hashtable = t;
          meta_blkordr = l.order;
          metadata_size = s.hashtable_size + s.block_info_size;
        }))

  module _ (mtd : Mtd F) where
    -- The pages of metadata block number `idx_num`, which is block `i`: `n` of them from page `j` on.
    unfoldable pub read_block : Store F → ℕ → ℕ → ℕ → ℕ → Loaded → Outcome Progress
    unfolding copy_page and_then
    read_block s i idx_num zero j l = done (going_on l)
    read_block s i idx_num (suc n) j l =
        let cnt = l.total_ram_pg_cnt + 1 in
        let pages = s.hashtable_size / s.page_size + s.block_info_size / s.page_size in
        let l' = record l { total_ram_pg_cnt = cnt } in
        let copied : Outcome Progress = elim (read_page mtd (i * s.pages_per_block + j) s) [
          | none ↦ crashes
          | some page ↦
              and_then (copy_page s (idx_num * s.pages_per_block + (j - 1)) page l')
                (λ l''. read_block s i idx_num n (j + 1) l'')
        ] in
        if ltb pages cnt then done (finished l') else copied

    -- A block with a header: its number is the text behind the header. Text of more than 100 bytes overruns its buffer.
    unfoldable pub load_block : Store F → ℕ → List ℕ → Loaded → Outcome Progress
    unfolding read_block
    load_block s i page l =
        let text = drop (length meta_hdr_base) (c_string page) in
        let idx_num = strtol 0 text in
        let loaded =
          read_block s i idx_num (s.pages_per_block - 1) 1
            (record l { order = set l.order idx_num (pos i) }) in
        if ltb 100 (length text)
        then crashes
        else if ltb idx_num (length l.order)
        then loaded
        else crashes

    -- The loop over the blocks, `n` of them from block `i` on.
    unfoldable pub scan_blocks : Store F → ℕ → ℕ → Loaded → Outcome Loaded
    unfolding load_block and_then
    scan_blocks s zero i l = done l
    scan_blocks s (suc n) i l = elim (read_page mtd (i * s.pages_per_block) s) [
      | none ↦ crashes
      | some page ↦
          let skipped = scan_blocks s n (i + 1) l in
          let loaded =
            and_then (load_block s i page l)
              (λ p. elim p [ going_on l' ↦ scan_blocks s n (i + 1) l' | finished l' ↦ done l' ]) in
          if starts_with meta_hdr_base page then loaded else skipped
    ]

    -- Both arrays are fresh, for `nb_blocks` blocks.
    unfoldable pub init_scan : Machine → ℕ → Store F → Outcome (ℤ × Store F)
    unfolding scan_blocks construct and_then
    init_scan m nb_blocks s =
        let fresh : Loaded = record {
          block_bytes = replicate s.block_info_size 0;
          table_bytes = m.fresh_table s.hash_size;
          jack_ofs = 0;
          total_ram_pg_cnt = 0;
          order = s.meta_blkordr;
        } in
        let scanned = and_then (scan_blocks s nb_blocks 0 fresh) (λ l. done (construct m s l)) in
        if s.erase_lock then hangs else scanned

    -- The sizes are rounded up to pages. Both indices name one partition; a partition is what get_mtd_device returns.
    unfoldable pub init_config :
        Machine → Option ℕ → (ℕ → Option (MtdInfo F)) → List ℤ → Outcome (ℤ × Option (Store F))
    unfolding init_scan and_then
    init_config m none device order = done (negsuc 0, none)
    init_config m (some mtd_index) device order = elim (device mtd_index) [
      | none ↦ done (negsuc 0, none)
      | some info ↦
          let nb_blocks = info.size / info.erasesize in
          let pages_per_block = info.erasesize / info.writesize in
          let hash_size = (pages_per_block - 1) * nb_blocks in
          let block_info_size =
            (m.blk_info_size * nb_blocks / info.writesize + 1) * info.writesize in
          let hashtable_size = (m.bucket_size * hash_size / info.writesize + 1) * info.writesize in
          let s : Store F = record {
            flash = info.contents;
            block_size = info.erasesize;
            page_size = info.writesize;
            pages_per_block = pages_per_block;
            blocks = [];
            lists = λ b. [];
            read_only = false;
            meta_read_only = false;
            hashtable_size = hashtable_size;
            block_info_size = block_info_size;
            metadata_size = hashtable_size + block_info_size;
            meta_blkordr = order;
            hashtable = [];
            hash_size = hash_size;
            erase_lock = false;
          } in
          and_then (init_scan m nb_blocks s) (λ r. done (pos 0, some r.1))
    ]

    -- What lkp_kv_init does with a store: `device` is the result of register_chrdev, and the timers start or are active.
    abbrev pub started : ℤ → Bool → Bool → Store F → ℤ × Option (System F)
    started (negsuc n) flush_started wear_started s = (negsuc 1, none)
    started (pos n) flush_started wear_started s =
        let k : System F = record {
          store = s;
          is_gb = false;
          is_flush = false;
          recent_update = false;
          flush_cnt = 0;
          write_cnt = 0;
        } in
        if flush_started
        then if wear_started then (pos 0, some k) else (negsuc 3, some k)
        else (negsuc 2, some k)

    abbrev pub configured : ℤ → Bool → Bool → ℤ × Option (Store F) → ℤ × Option (System F)
    configured registered flush_started wear_started (ret, none) = (negsuc 0, none)
    configured registered flush_started wear_started (ret, some s) =
        started registered flush_started wear_started s

    unfoldable pub lkp_kv_init :
        Machine
        → Option ℕ
        → (ℕ → Option (MtdInfo F))
        → ℤ
        → Bool
        → Bool
        → Outcome (ℤ × Option (System F))
    unfolding init_config and_then
    lkp_kv_init m mtd_index device registered flush_started wear_started =
        and_then (init_config m mtd_index device (replicate 100 (negsuc 0)))
          (λ r. done (configured registered flush_started wear_started r))

    -- The unload flushes the metadata; the result is only printed.
    unfoldable pub lkp_kv_exit : Image F → System F → Outcome (System F)
    unfolding flush_metadata and_then
    lkp_kv_exit m k = and_then (flush_metadata mtd m true k) (λ r. done r.1)
