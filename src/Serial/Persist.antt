-- ===== src/Serial/Persist.antt =====
-- Metadata on the flash in p6/prototype-serial/kernel/core.c: move_pages_to_other_block, flush_metadata
-- and the sizes that init_scan sets. `none` stands for an access outside an array or a buffer.
pub mod Sizes
use linux_kernel_programming.Prelude.{
  ℕ, zero, suc, ◌+◌, ◌-◌, ◌*◌, ◌/◌, Bool, true, false, ◌&&◌, Option, none, some, List, [], ◌∷◌,
  ◌++◌, ltb, if◌then◌else◌, set, take, drop, replicate, length,
}
use linux_kernel_programming.Prelude.Int.{ℤ, pos, negsuc, ◌+ℤ◌}
use linux_kernel_programming.Prelude.Bytes.{le_value, memcpy}
use linux_kernel_programming.Vanilla.{Mtd}
use linux_kernel_programming.Serial.HashTable.{SearchResult, found, hash_search, hash_add}
use linux_kernel_programming.Serial.Blocks.{
  BlkState, blk_free, blk_used, blk_meta, blk_invalid, block_at, get_meta_block,
}
use linux_kernel_programming.Serial.Flash.{
  Config, nand_meta_data, read_page, write_page, write_hdr, format_single, get_next_page,
}
use linux_kernel_programming.Serial.Store.{Store, invalid_pg}
use linux_kernel_programming.Serial.Insert.{link_page}
use linux_kernel_programming.Serial.Collect.{c_string}

-- The fields of `lkp_kv_cfg` that the sizes of the metadata stand in, and how init_scan sets them:
-- `metadata_size` is the size in bytes of both arrays.
pub record MetaSizes : Type 0 where
  pub nb_meta_pages : ℕ
  pub nb_meta_blocks : ℕ

abbrev pub meta_sizes : ℕ → ℕ → ℕ → MetaSizes
meta_sizes metadata_size page_size pages_per_block =
    let pages = metadata_size / page_size + 1 in
    record { nb_meta_pages = pages; nb_meta_blocks = pages / (pages_per_block - 1) + 1 }

-- A positive `int`.
abbrev pub is_positive : ℕ → Bool
is_positive n = ltb 0 n && ltb n 2147483648

-- What `kmalloc` left in the three buffers of move_pages_to_other_block is a parameter; `key` is the buffer of 128
-- bytes for the key. It gets no NUL at its end, so the bytes of an earlier key may follow.
abbrev pub copy_key : List ℕ → ℕ → List ℕ → List ℕ
copy_key key key_len buffer = memcpy key 0 (take key_len (drop 8 buffer))

module _ {F : Type 0} where
  abbrev pub mark_block : ℕ → BlkState → Store F → Store F
  mark_block i state s = record s {
    config = record s.config {
      blocks = set s.config.blocks i (record (block_at s.config.blocks i) { state = state });
    };
  }

  module _ (mtd : Mtd F) where
    -- The write of a page that moves. The result of write_page is ignored.
    unfoldable pub rewrite_page : List ℕ → List ℕ → ℤ → Store F → Option (ℤ × Store F)
    unfolding link_page
    rewrite_page key buffer (negsuc n) s = none
    rewrite_page key buffer (pos b) s =
        let index =
          b * s.config.pages_per_block + (block_at s.config.blocks b).current_page_offset in
        let (ret, c) = write_page mtd index buffer s.config in
        let (ret2, t) = hash_add s.hash_size key index s.hashtable in
        link_page b ret2 (ret, record s { config = c; hashtable = t })

    -- What happens to a page by what hash_search returned.
    unfoldable pub move_found : List ℕ → List ℕ → SearchResult → Store F → Option (ℤ × Store F)
    move_found key buffer (found g) s =
        let s₁ = invalid_pg g s in
        let (target, c) = get_next_page mtd s₁.config in
        rewrite_page key buffer target (record s₁ { config = c })
    move_found key buffer _ s = some (pos 0, s)

    -- One page: a page without a key or a value is passed over. A key or a value that does not fit the buffer it is
    -- copied to, or runs past the end of the page, is an access outside.
    unfoldable pub move_page : List ℕ → List ℕ → Store F → Option (List ℕ × Store F)
    move_page key buffer s =
        let key_len = le_value (take 4 buffer) in
        let val_len = le_value (take 4 (drop 4 buffer)) in
        let key' = copy_key key key_len buffer in
        if is_positive key_len
        then if ltb 128 key_len
          then none
          else if is_positive val_len
          then if ltb s.config.page_size (8 + key_len + val_len)
            then none
            else elim (move_found (c_string key') buffer
                (hash_search s.hash_size (c_string key') s.hashtable) s) [
                  | none ↦ none
                  | some (ret, s') ↦ some (key', s')
                ]
          else some (key', s)
        else some (key, s)

    -- The loop over the pages of the block, the next `n` from page `page_index` on; `false` for a page that
    -- could not be read.
    unfoldable pub move_pages : ℕ → ℕ → List ℕ → Store F → Option (Bool × Store F)
    move_pages zero page_index key s = some (true, s)
    move_pages (suc n) page_index key s = elim (read_page mtd page_index s.config) [
      | none ↦ some (false, s)
      | some buffer ↦ elim (move_page key buffer s) [
        | none ↦ none
        | some (key', s') ↦ move_pages n (page_index + 1) key' s'
      ]
    ]

    -- The end of move_pages_to_other_block.
    unfoldable pub format_moved : ℕ → Option (Bool × Store F) → Option (ℤ × Store F)
    format_moved i none = none
    format_moved i (some (false, s)) = some (negsuc 3, s)
    format_moved i (some (true, s)) =
        let (ret, c) = format_single mtd (pos i) s.config in some (ret, record s { config = c })

    unfoldable pub move_block : ℕ → List ℕ → BlkState → Store F → Option (ℤ × Store F)
    move_block i key blk_free s = some (pos 0, s)
    move_block i key blk_used s =
        let s₁ = mark_block i blk_invalid s in
        format_moved i
          (move_pages (s₁.config.pages_per_block - 1) (i * s₁.config.pages_per_block + 1) key s₁)
    move_block i key _ s = format_moved i (some (true, s))

    unfoldable pub move_pages_to_other_block : List ℕ → ℤ → Store F → Option (ℤ × Store F)
    move_pages_to_other_block key (negsuc n) s = none
    move_pages_to_other_block key (pos i) s = move_block i key (block_at s.config.blocks i).state s

    -- The first loop of flush_metadata: the blocks that hold the old metadata are erased.
    unfoldable pub format_all : List ℤ → Config F → Config F
    format_all [] c = c
    format_all (i ∷ is) c = format_all is (format_single mtd i c).1

    -- The second loop: `n` blocks are chosen, emptied and marked.
    unfoldable pub choose_blocks : ℕ → List ℕ → Store F → Option (List ℕ × Store F)
    choose_blocks zero key s = some ([], s)
    choose_blocks (suc n) key s =
        let target = get_meta_block s.config.pages_per_block s.config.blocks in
        elim target [
          | negsuc _ ↦ none
          | pos i ↦ elim (move_pages_to_other_block key (pos i) s) [
            | none ↦ none
            | some (ret, s') ↦ elim (choose_blocks n key (mark_block i blk_meta s')) [
              | none ↦ none
              | some (order, s'') ↦ some (i ∷ order, s'')
            ]
          ]
        ]

    -- The pages `j` on of block `i`, `n` of them, from page `offset` of the memory at `buffer` on.
    unfoldable pub write_meta_pages : ℕ → ℕ → ℕ → List ℕ → ℕ → Config F → Bool × Config F
    write_meta_pages i j zero buffer offset c = (true, c)
    write_meta_pages i j (suc n) buffer offset c =
        let page = take c.page_size (drop (c.page_size * offset) buffer) in
        let (ret, c') = write_page mtd (i * c.pages_per_block + j) page c in
        let rest = write_meta_pages i (j + 1) n buffer (offset + 1) c' in
        elim ret [ pos k ↦ rest | negsuc k ↦ (false, c') ]

    -- The third loop, from metadata block number `k` on.
    unfoldable pub write_meta_blocks : List ℕ → ℕ → List ℕ → ℕ → Config F → Bool × Config F
    write_meta_blocks [] k buffer offset c = (true, c)
    write_meta_blocks (i ∷ is) k buffer offset c =
        let n = c.pages_per_block - 1 in
        let c₁ = write_hdr mtd (i * c.pages_per_block) (nand_meta_data k) c in
        let (done, c₂) = write_meta_pages i 1 n buffer offset c₁ in
        let rest = write_meta_blocks is (k + 1) buffer (offset + n) c₂ in
        if done then rest else (false, c₂)

-- The store with the metadata blocks in their order and the time of the last flush.
pub record Core (F : Type 0) : Type 0 where
  pub store : Store F
  pub sizes : MetaSizes
  pub meta_blkordr : List ℤ
  pub time_flush : ℕ

-- What the code leaves to the machine: the contents of the fresh buffer for a key, the bytes of both arrays in memory,
-- and what follows them in the buffer of flush_metadata and behind it.
pub record Memory (F : Type 0) : Type 0 where
  pub key_buffer : List ℕ
  pub metadata_bytes : Store F → List ℕ
  pub beyond : List ℕ

unfoldable pub positions : List ℕ → List ℤ
positions [] = []
positions (i ∷ is) = pos i ∷ positions is

-- flush_metadata returns -2 when a write fails; the time of the flush stays then.
unfoldable pub flush_metadata : {F : Type 0} → Mtd F → Memory F → ℕ → Core F → Option (ℤ × Core F)
flush_metadata mtd m now k =
    let s = record k.store { config = format_all mtd k.meta_blkordr k.store.config } in
    elim (choose_blocks mtd k.sizes.nb_meta_blocks m.key_buffer s) [
      | none ↦ none
      | some (order, s₁) ↦
          let buffer = m.metadata_bytes s₁ ++ m.beyond in
          let (done, c) = write_meta_blocks mtd order 0 buffer 0 s₁.config in
          let k' = record k { store = record s₁ { config = c }; meta_blkordr = positions order } in
          some (if done then (pos 0, record k' { time_flush = now }) else (negsuc 1, k'))
    ]
