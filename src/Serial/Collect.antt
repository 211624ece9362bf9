-- ===== src/Serial/Collect.antt =====
-- Garbage collection in p6/prototype-serial/kernel/core.c: gc and gb_check. `none` stands for BUG() and
-- for an access outside the arrays.
pub mod Idle
use linux_kernel_programming.Prelude.{
  ℕ, zero, suc, ◌+◌, ◌*◌, ◌/◌, ◌==◌, Bool, true, false, Option, none, some, List, [], ◌∷◌, ◌++◌,
  leb, if◌then◌else◌, take, drop, replicate,
}
use linux_kernel_programming.Prelude.Int.{ℤ, pos, negsuc}
use linux_kernel_programming.Prelude.Bytes.{le32, le_value, memcpy}
use linux_kernel_programming.Vanilla.{Mtd}
use linux_kernel_programming.Serial.HashTable.{
  SearchResult, found, bucket_at, hash_search, hash_add,
}
use linux_kernel_programming.Serial.Blocks.{BlkInfo, block_at}
use linux_kernel_programming.Serial.Flash.{
  Config, nand_data, use_block, read_page, write_page, write_hdr, format_single,
}
use linux_kernel_programming.Serial.Store.{Store, invalid_pg}
use linux_kernel_programming.Serial.Insert.{list_add}

abbrev pub invalid_threshold : ℕ
invalid_threshold = 48

-- The first block with `invalid_threshold` invalid pages, from index `i` on.
unfoldable pub find_target : ℕ → List BlkInfo → Option ℕ
find_target i [] = none
find_target i (b ∷ bs) =
    let rest = find_target (i + 1) bs in if leb invalid_threshold b.nb_invalid then some i else rest

-- The block that is erased and written to. Its loop tests the constant `BLK_FREE`, which is 0, in place of
-- the state of a block, so it finds none.
abbrev pub victim_of : ℕ → ℕ
victim_of target = target

-- A C string in a buffer: the bytes before the first NUL.
unfoldable pub c_string : List ℕ → List ℕ
c_string [] = []
c_string (x ∷ xs) = let rest = c_string xs in if x == 0 then [] else x ∷ rest

-- What `strncpy` writes for `n` bytes of a source.
abbrev pub strncpy : ℕ → List ℕ → List ℕ
strncpy n src = take n (c_string (take n src) ++ replicate n 0)

-- The lengths that are kept for each page.
pub record Lengths : Type 0 where
  pub key_len : ℕ
  pub val_len : ℕ

-- The lengths of the page that lies in the buffer at `off`.
abbrev pub lengths_at : ℕ → List ℕ → Lengths
lengths_at off buffer = record {
  key_len = le_value (take 4 (drop off buffer));
  val_len = le_value (take 4 (drop (off + 4) buffer));
}

-- The key that lies in the buffer at `off`.
abbrev pub key_at : ℕ → ℕ → List ℕ → List ℕ
key_at off key_len buffer = c_string (take key_len (drop (off + 8) buffer))

abbrev pub cons_lengths :
    {F : Type 0}
    → Lengths
    → Option (List Lengths × List ℕ × Store F)
    → Option (List Lengths × List ℕ × Store F)
cons_lengths l none = none
cons_lengths l (some (ls, buffer, s)) = some (l ∷ ls, buffer, s)

-- The new text of a page in the buffer: the same lengths, key and value again.
unfoldable pub rebuild : ℕ → Lengths → List ℕ → List ℕ
rebuild off l buffer =
    let b₁ = memcpy buffer off (le32 l.key_len) in
    let b₂ = memcpy b₁ (off + 4) (le32 l.val_len) in
    let b₃ = memcpy b₂ (off + 8) (strncpy l.key_len (drop (off + 8) b₂)) in
    memcpy b₃ (off + 8 + l.key_len) (strncpy l.val_len (drop (off + 8 + l.key_len) b₃))

module _ {F : Type 0} where
  -- `invalid_pg(hash_search(key))`; a negative index lies outside the table.
  unfoldable pub invalid_key : SearchResult → Store F → Option (Store F)
  invalid_key (found h) s = some (invalid_pg h s)
  invalid_key _ s = none

  -- One page that was written back: hash_add and list_add. A page that could not be written is a BUG().
  unfoldable pub linked_back : ℕ → ℤ → Option ℕ → Store F → Option (Store F)
  linked_back victim (pos r) (some g) s = some (list_add victim g s)
  linked_back victim _ _ s = none

  module _ (mtd : Mtd F) where
    -- The walk over the list of block `target`; `cnt` pages were read before. The pages are
    -- `pages_per_block` bytes apart in the buffer, as in the code.
    unfoldable pub gather :
        ℕ → List ℕ → ℕ → List ℕ → Store F → Option (List Lengths × List ℕ × Store F)
    gather target [] cnt buffer s = some ([], buffer, s)
    gather target (g ∷ gs) cnt buffer s =
        let index = (bucket_at s.hashtable g).index in
        let off = cnt * s.config.pages_per_block in
        if index / s.config.pages_per_block == target
        then elim (read_page mtd index s.config) [
          | none ↦ none
          | some page ↦
              let buffer' = memcpy buffer off page in
              let l = lengths_at off buffer' in
              elim (invalid_key (hash_search s.hash_size (key_at off l.key_len buffer') s.hashtable)
                s) [
                  | none ↦ none
                  | some s' ↦ cons_lengths l (gather target gs (cnt + 1) buffer' s')
                ]
        ]
        else some ([], buffer, s)

    -- The loop that writes the pages into block `victim`, from page `i` of the buffer on.
    unfoldable pub write_back : ℕ → ℕ → List Lengths → List ℕ → Store F → Option (Store F)
    write_back victim i [] buffer s = some s
    write_back victim i (l ∷ ls) buffer s =
        let off = i * s.config.pages_per_block in
        let buffer' = rebuild off l buffer in
        let pg_index =
          victim * s.config.pages_per_block
          + (block_at s.config.blocks victim).current_page_offset in
        let (ret, c) =
          write_page mtd pg_index (take s.config.page_size (drop off buffer')) s.config in
        let (ret2, t) = hash_add s.hash_size (key_at off l.key_len buffer') pg_index s.hashtable in
        elim (linked_back victim ret ret2 (record s { config = c; hashtable = t })) [
          | none ↦ none
          | some s' ↦ write_back victim (i + 1) ls buffer' s'
        ]

    -- The victim is erased, gets its header and the pages, and is used.
    unfoldable pub refill : ℕ → Option (List Lengths × List ℕ × Store F) → Option (Store F)
    refill victim none = none
    refill victim (some (ls, buffer, s)) =
        let c = (format_single mtd (pos victim) s.config).1 in
        let pg_index =
          victim * c.pages_per_block + (block_at c.blocks victim).current_page_offset in
        let s₁ = record s { config = write_hdr mtd pg_index nand_data c } in
        elim (write_back victim 0 ls buffer s₁) [
          | none ↦ none
          | some s₂ ↦ some (record s₂ { config = use_block victim s₂.config })
        ]

    unfoldable pub gc : Store F → Option (Store F)
    gc s = elim (find_target 0 s.config.blocks) [
      | none ↦ some s
      | some target ↦
          let buffer = replicate (s.config.page_size * s.config.pages_per_block) 0 in
          refill (victim_of target) (gather target (s.config.lists target) 0 buffer s)
    ]

    unfoldable pub gb_check : Store F → Option (Store F)
    unfolding gc
    gb_check s = elim (find_target 0 s.config.blocks) [ none ↦ some s | some target ↦ gc s ]
