-- ===== src/Parallel/Collect.antt =====
-- Garbage collection in p6/prototype-parallel/kernel/core.c: gc, from the lock it takes to the lock it releases.
pub mod Unlocked
pub mod Merge
use linux_kernel_programming.Prelude.{
  ℕ, zero, suc, ◌+◌, ◌*◌, ◌/◌, ◌%◌, ◌==◌, Bool, true, false, ◌&&◌, Option, none, some, List, [],
  ◌∷◌, ltb, leb, if◌then◌else◌, take, drop, replicate,
}
use linux_kernel_programming.Prelude.Int.{ℤ, pos, negsuc}
use linux_kernel_programming.Prelude.Bytes.{memcpy}
use linux_kernel_programming.Vanilla.{Mtd, blk_used, blk_free}
use linux_kernel_programming.Serial.Blocks.{is_below}
use linux_kernel_programming.Serial.HashTable.{SearchResult, found, bucket_at}
use linux_kernel_programming.Serial.Collect.{Lengths, lengths_at, key_at, rebuild}
use linux_kernel_programming.Parallel.{
  BlkInfo, Store, Outcome, done, hangs, crashes, and_then, block_at, is_used, is_meta, mark_used,
  invalid_pg, list_add, read_page, write_page, write_data_hdr,
}
use linux_kernel_programming.Parallel.HashTable.{hash_search, hash_add}
use linux_kernel_programming.Parallel.Erase.{format_single}

abbrev pub invalid_threshold : ℕ
invalid_threshold = 20

-- The first block outside the metadata with `invalid_threshold` invalid pages, from index `i` on.
unfoldable pub find_target : List ℤ → ℕ → List BlkInfo → Option ℕ
unfolding is_meta
find_target order i [] = none
find_target order i (b ∷ bs) =
    let rest = find_target order (i + 1) bs in
    if is_meta i order then rest else if leb invalid_threshold b.nb_invalid then some i else rest

-- The block that was kept, or block `i` when there was none or it is worn less.
abbrev pub less_worn : List BlkInfo → ℕ → Option ℕ → Option ℕ
less_worn blocks i none = some i
less_worn blocks i (some j) =
    if is_below (block_at blocks i).worn (block_at blocks j).worn then some i else some j

-- Whether block `b` has more room than block `t` has valid pages; one page of `t` is its header.
abbrev pub has_room : ℕ → BlkInfo → BlkInfo → Bool
has_room pages_per_block t b =
    ltb (t.current_page_offset + b.current_page_offset) (pages_per_block + t.nb_invalid + 1)

-- The block to merge with, from block `i` on; `best` was found before.
unfoldable pub find_merge : ℕ → List ℤ → List BlkInfo → ℕ → ℕ → Option ℕ → List BlkInfo → Option ℕ
unfolding is_meta
find_merge pages_per_block order blocks target i best [] = best
find_merge pages_per_block order blocks target i best (b ∷ bs) =
    let skipped = find_merge pages_per_block order blocks target (i + 1) best bs in
    let tried =
      find_merge pages_per_block order blocks target (i + 1) (less_worn blocks i best) bs in
    if i == target
    then skipped
    else if is_meta i order
    then skipped
    else if has_room pages_per_block (block_at blocks target) b
    then tried
    else skipped

abbrev pub is_empty : BlkInfo → Bool
is_empty b = b.current_page_offset == 0 && (if is_used b.state then false else true)

-- The free block that is worn least, from block `i` on.
unfoldable pub find_free : List BlkInfo → ℕ → Option ℕ → List BlkInfo → Option ℕ
find_free blocks i best [] = best
find_free blocks i best (b ∷ bs) =
    let skipped = find_free blocks (i + 1) best bs in
    let tried = find_free blocks (i + 1) (less_worn blocks i best) bs in
    if is_empty b then tried else skipped

abbrev pub or_else : Option ℕ → Option ℕ → Option ℕ
or_else (some i) o = some i
or_else none o = o

abbrev pub or_block : Option ℕ → ℕ → ℕ
or_block (some i) target = i
or_block none target = target

-- The pages that gc holds in its buffer, and the store.
pub record Gathered (F : Type 0) : Type 0 where
  pub lengths : List Lengths
  pub buffer : List ℕ
  pub store : Store F

module _ {F : Type 0} where
  -- As many of the first entries of `meta_blkordr` as gc takes for metadata blocks.
  unfoldable pub gc_order : Store F → List ℤ
  gc_order s = take ((s.metadata_size / s.page_size + 1) / s.pages_per_block + 1) s.meta_blkordr

  unfoldable pub victim_of : ℕ → Store F → ℕ
  unfolding find_merge find_free gc_order
  victim_of target s =
      or_block
        (or_else (find_merge s.pages_per_block (gc_order s) s.blocks target 0 none s.blocks)
          (find_free s.blocks 0 none s.blocks))
        target

  abbrev pub cons_lengths : Lengths → Gathered F → Gathered F
  cons_lengths l g = record g { lengths = l ∷ g.lengths }

  -- `invalid_pg(hash_search(key))`; a negative index lies outside the table.
  unfoldable pub invalid_key : SearchResult → Store F → Outcome (Store F)
  unfolding invalid_pg
  invalid_key (found h) s = done (invalid_pg h s)
  invalid_key _ s = crashes

  -- The end of the write of one page. A page that could not be written is a BUG().
  unfoldable pub linked_back : ℕ → Option ℕ → ℤ × Store F → Outcome (Store F)
  linked_back victim (some g) (pos r, s) = done (list_add victim g s)
  linked_back victim _ _ = crashes

  module _ (mtd : Mtd F) where
    -- The walk over the list of block `target`; `cnt` pages were read before. The pages are
    -- `pages_per_block` bytes apart in the buffer, as in the code.
    unfoldable pub gather : ℕ → List ℕ → ℕ → List ℕ → Store F → Outcome (Gathered F)
    unfolding and_then invalid_key
    gather target [] cnt buffer s = done (record { lengths = []; buffer = buffer; store = s })
    gather target (g ∷ gs) cnt buffer s =
        let index = (bucket_at s.hashtable g).index in
        let off = cnt * s.pages_per_block in
        if index / s.pages_per_block == target
        then elim (read_page mtd index s) [
          | none ↦ crashes
          | some page ↦
              let buffer' = memcpy buffer off page in
              let l = lengths_at off buffer' in
              let key = key_at off l.key_len buffer' in
              and_then (invalid_key (hash_search s.hash_size key s.hashtable) s) (λ s'.
                and_then (gather target gs (cnt + 1) buffer' s') (λ r. done (cons_lengths l r)))
        ]
        else done (record { lengths = []; buffer = buffer; store = s })

    -- The loop that writes the pages into block `victim`, from page `i` of the buffer on.
    unfoldable pub write_back : ℕ → ℕ → List Lengths → List ℕ → Store F → Outcome (Store F)
    unfolding and_then linked_back
    write_back victim i [] buffer s = done s
    write_back victim i (l ∷ ls) buffer s =
        let off = i * s.pages_per_block in
        let buffer' = rebuild off l buffer in
        let pg_index =
          victim * s.pages_per_block + (block_at s.blocks victim).current_page_offset in
        let key = key_at off l.key_len buffer' in
        and_then (write_page mtd pg_index (take s.page_size (drop off buffer')) s) (λ r.
          let (ret2, t) = hash_add r.1.hash_size key pg_index r.1.hashtable in
          and_then (linked_back victim ret2 (r.0, record r.1 { hashtable = t }))
            (λ s'. write_back victim (i + 1) ls buffer' s'))

    -- A block without a page gets its header.
    unfoldable pub open_victim : ℕ → Store F → Outcome (Store F)
    unfolding and_then write_data_hdr
    open_victim victim s =
        let pg_index =
          victim * s.pages_per_block + (block_at s.blocks victim).current_page_offset in
        let opened = and_then (write_data_hdr mtd pg_index s) (λ r. done r.1) in
        if pg_index % s.pages_per_block == 0 then opened else done s

    -- Block `target` is erased, and its pages go to block `victim`.
    unfoldable pub refill : ℕ → ℕ → Gathered F → Outcome (Store F)
    unfolding and_then format_single
    refill target victim g =
        let s = (format_single mtd (pos target) g.store).1 in
        and_then (open_victim victim s) (λ s₁.
          and_then (write_back victim 0 g.lengths g.buffer s₁) (λ s₂. done (mark_used victim s₂)))

    unfoldable pub collect : ℕ → ℕ → Store F → Outcome (Store F)
    unfolding and_then
    collect target victim s =
        let buffer = replicate (s.page_size * s.pages_per_block) 0 in
        and_then (gather target (s.lists target) 0 buffer s) (refill target victim)

    unfoldable pub gc_locked : Store F → Outcome (Store F)
    unfolding find_target gc_order
    gc_locked s = elim (find_target (gc_order s) 0 s.blocks) [
      | none ↦ done s
      | some target ↦ let victim = victim_of target s in collect target victim (mark_used victim s)
    ]
