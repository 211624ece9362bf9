-- ===== src/Parallel.antt =====
-- The store of p6/prototype-parallel/kernel/core.c, whose calls take the lock `erase_lock`: set_keyval up to
-- the release of the lock, get_keyval, del_key, and the functions below them. `config.blocks` and `meta_config.blocks`
-- are one array.
pub mod HashTable
pub mod Lock
pub mod Ends
pub mod Keeps
pub mod Lookup
pub mod Runs
pub mod Target
pub mod Choice
pub mod Erase
pub mod Collect
pub mod Flush
pub mod System
pub mod Device
pub mod Mount
mod Tests
use linux_kernel_programming.Prelude.{
  ℕ, zero, suc, ◌+◌, ◌-◌, ◌*◌, ◌/◌, ◌%◌, Bool, true, false, ◌&&◌, Option, none, some, List, [], ◌∷◌,
  ltb, leb, ◌==◌, if◌then◌else◌, get_or, set, take, drop, replicate, length,
}
use linux_kernel_programming.Prelude.Int.{ℤ, pos, negsuc}
use linux_kernel_programming.Prelude.Words.{u64_mod}
use linux_kernel_programming.Prelude.Bytes.{le_value, starts_with}
use linux_kernel_programming.Prelude.Sums.{erase}
use linux_kernel_programming.Vanilla.{Mtd, BlkState, blk_used, blk_free, page_of}
use linux_kernel_programming.Serial.Blocks.{is_below}
use linux_kernel_programming.Serial.HashTable.{
  Bucket, bucket_at, is_valid, pg_free, SearchResult, found, probed_all, absent,
}
use linux_kernel_programming.Parallel.HashTable.{hash_search, hash_add}

-- `worn` is an `int`, as its 32-bit word.
pub record BlkInfo : Type 0 where
  pub state : BlkState
  pub worn : ℕ
  pub nb_invalid : ℕ
  pub current_page_offset : ℕ

abbrev pub is_used : BlkState → Bool
is_used blk_used = true
is_used blk_free = false

-- Both configurations, the table and the lock. `lists` holds the buckets of the valid pages of a block, head first.
pub record Store (F : Type 0) : Type 0 where
  pub flash : F
  pub block_size : ℕ
  pub page_size : ℕ
  pub pages_per_block : ℕ
  pub blocks : List BlkInfo
  pub lists : ℕ → List ℕ
  pub read_only : Bool
  pub meta_read_only : Bool
  pub hashtable_size : ℕ
  pub block_info_size : ℕ
  pub metadata_size : ℕ
  pub meta_blkordr : List ℤ
  pub hashtable : List Bucket
  pub hash_size : ℕ
  pub erase_lock : Bool

-- How a call ends: it returns, it waits for a lock that is never released, or it ends in BUG() or in an
-- access outside an array.
pub data Outcome (A : Type 0) : Type 0 where
  done : A → Outcome A
  hangs crashes : Outcome A

unfoldable pub and_then : {A B : Type 0} → Outcome A → (A → Outcome B) → Outcome B
and_then (done a) f = f a
and_then hangs f = hangs
and_then crashes f = crashes

abbrev pub block_at : List BlkInfo → ℕ → BlkInfo
block_at bs i =
    get_or bs i (record { state = blk_free; worn = 0; nb_invalid = 0; current_page_offset = 0 })

-- Whether block `i` is among the metadata blocks.
unfoldable pub is_meta : ℕ → List ℤ → Bool
is_meta i [] = false
is_meta i (negsuc n ∷ order) = is_meta i order
is_meta i (pos k ∷ order) = let rest = is_meta i order in if i == k then true else rest

-- The loop of get_healthy_block, from block `i` on: metadata blocks are passed over.
unfoldable pub healthy_loop : ℕ → List ℤ → ℕ → ℕ → ℤ → List BlkInfo → ℤ
unfolding is_meta
healthy_loop pages_per_block order i minimum ret [] = ret
healthy_loop pages_per_block order i minimum ret (b ∷ bs) =
    let better = ltb b.current_page_offset pages_per_block && is_below b.worn minimum in
    let skipped = healthy_loop pages_per_block order (i + 1) minimum ret bs in
    let tried =
      healthy_loop pages_per_block order (i + 1) (if better then b.worn else minimum)
        (if better then pos i else ret) bs in
    if is_meta i order then skipped else tried

unfoldable pub count_full : ℕ → List BlkInfo → ℕ
count_full pages_per_block [] = 0
count_full pages_per_block (b ∷ bs) =
    let rest = count_full pages_per_block bs in
    if leb pages_per_block b.current_page_offset then rest + 1 else rest

-- The results of set_keyval when it stored the couple.
unfoldable pub set_result : ℤ → ℤ
set_result (negsuc zero) = negsuc 2
set_result _ = pos 0

-- What get_keyval returns, with the value: a page that cannot be read is a BUG(), and a block that is not in use
-- or a page with another key is -3.
unfoldable pub match_key : List ℕ → ℕ → Option (List ℕ) → Outcome (ℤ × List ℕ)
match_key key page none = crashes
match_key key page (some buffer) =
    let key_len = le_value (take 4 buffer) in
    let val_len = le_value (take 4 (drop 4 buffer)) in
    if starts_with key (drop 8 buffer)
    then done (pos page, take val_len (drop (8 + key_len) buffer))
    else done (negsuc 2, [])

module _ {F : Type 0} where
  unfoldable pub get_healthy_block : Store F → ℤ
  get_healthy_block s =
      let nb_blocks = (s.metadata_size / s.page_size + 1) / s.pages_per_block + 1 in
      healthy_loop s.pages_per_block (take nb_blocks s.meta_blkordr) 0 0x7fff_ffff (negsuc 0)
        s.blocks

  unfoldable pub is_read_only : Store F → Bool
  is_read_only s =
      let nb_blocks = s.metadata_size / s.page_size / s.pages_per_block + 1 in
      leb (length s.blocks - (nb_blocks - 1)) (count_full s.pages_per_block s.blocks)

  unfoldable pub invalid_pg : ℕ → Store F → Store F
  invalid_pg g s =
      let b = bucket_at s.hashtable g in
      let i = b.index / s.pages_per_block in
      let block = block_at s.blocks i in
      record s {
        hashtable = set s.hashtable g (record b { p_state = pg_free });
        blocks = set s.blocks i (record block { nb_invalid = block.nb_invalid + 1 });
        lists = λ k. erase g (s.lists k);
      }

  abbrev pub mark_used : ℕ → Store F → Store F
  mark_used i s = record s {
    blocks = set s.blocks i (record (block_at s.blocks i) { state = blk_used });
  }

  abbrev pub next_offset : ℕ → Store F → Store F
  next_offset i s =
      let b = block_at s.blocks i in
      record s {
        blocks = set s.blocks i (record b { current_page_offset = b.current_page_offset + 1 });
      }

  -- The end of write_page: the last page was written, or there are more.
  unfoldable pub check_full : ℤ → Store F → ℤ × Store F
  check_full ret s = if is_read_only s then (negsuc 0, record s { read_only = true }) else (ret, s)

  abbrev pub with_lock : Bool → Store F → Store F
  with_lock held s = record s { erase_lock = held }

  -- `list_add(&hashtable[g].p_list, blocks[b].list)`
  abbrev pub list_add : ℕ → ℕ → Store F → Store F
  list_add b g s = record s { lists = λ k. if k == b then g ∷ s.lists k else s.lists k }

  unfoldable pub drop_old : SearchResult → Store F → Store F
  unfolding invalid_pg
  drop_old (found g) s = invalid_pg g s
  drop_old probed_all s = s
  drop_old absent s = s

  -- The end of set_keyval under the lock: list_add and the release. A table without a free bucket gives the
  -- index -1.
  unfoldable pub link_page : ℕ → Option ℕ → ℤ × Store F → Outcome (ℤ × Store F)
  unfolding set_result
  link_page b none r = crashes
  link_page b (some g) (ret, s) = done (set_result ret, with_lock false (list_add b g s))

  module _ (mtd : Mtd F) where
    unfoldable pub read_page : ℕ → Store F → Option (List ℕ)
    read_page page_index s = mtd.mtd_read (page_index * s.page_size % u64_mod) s.page_size s.flash

    -- A failed write is a BUG().
    unfoldable pub write_page : ℕ → List ℕ → Store F → Outcome (ℤ × Store F)
    unfolding check_full
    write_page page_index buf s =
        let (written, flash') = mtd.mtd_write (page_index * s.page_size % u64_mod) buf s.flash in
        if s.read_only
        then done (check_full (negsuc 0) s)
        else if written
        then done (
            check_full (pos 0)
              (next_offset (page_index / s.pages_per_block) (record s { flash = flash' })))
        else crashes

    -- write_hdr for a data block.
    unfoldable pub write_data_hdr : ℕ → Store F → Outcome (ℤ × Store F)
    unfolding and_then
    write_data_hdr pg_idx s =
        let written = write_page pg_idx (replicate s.page_size 0) s in
        if s.meta_read_only
        then done (negsuc 0, s)
        else and_then written (λ r. done (r.0, mark_used (pg_idx / s.pages_per_block) r.1))

    -- What get_next_block_to_write does with the block that it chose. For an empty block it returns what
    -- write_hdr does.
    unfoldable pub prepare_block : ℤ → Store F → Outcome (ℤ × Store F)
    unfolding write_data_hdr
    prepare_block (negsuc n) s = done (negsuc 0, s)
    prepare_block (pos b) s =
        let offset = (block_at s.blocks b).current_page_offset in
        let header = write_data_hdr (b * s.pages_per_block + offset) (mark_used b s) in
        if ltb offset 1 then header else done (pos b, mark_used b s)

    unfoldable pub get_next_block_to_write : Store F → Outcome (ℤ × Store F)
    unfolding prepare_block
    get_next_block_to_write s = prepare_block (get_healthy_block s) s

    -- The write into the block that get_next_block_to_write returned. Without one, set_keyval returns and
    -- keeps the lock.
    unfoldable pub put_page : List ℕ → List ℕ → ℤ × Store F → Outcome (ℤ × Store F)
    unfolding link_page and_then
    put_page key val (negsuc n, s) = done (negsuc 2, s)
    put_page key val (pos b, s) =
        let index = b * s.pages_per_block + (block_at s.blocks b).current_page_offset in
        and_then (write_page index (page_of s.page_size key val) s) (λ r.
          let (ret2, t) = hash_add r.1.hash_size key index r.1.hashtable in
          link_page b ret2 (r.0, record r.1 { hashtable = t }))

    -- set_keyval with the lock taken. A couple that is too big keeps it.
    unfoldable pub set_locked : List ℕ → List ℕ → Store F → Outcome (ℤ × Store F)
    unfolding put_page drop_old and_then
    set_locked key val s =
        let stored =
          and_then (get_next_block_to_write (drop_old (hash_search s.hash_size key s.hashtable) s))
            (put_page key val) in
        if ltb s.page_size (length key + length val + 8)
        then done (negsuc 0, s)
        else if s.read_only
        then done (negsuc 2, with_lock false s)
        else stored

    unfoldable pub set_keyval : List ℕ → List ℕ → Store F → Outcome (ℤ × Store F)
    unfolding set_locked
    set_keyval key val s =
        let locked = set_locked key val (with_lock true s) in if s.erase_lock then hangs else locked

    unfoldable pub get_at : List ℕ → SearchResult → Store F → Outcome (ℤ × List ℕ)
    unfolding match_key
    get_at key (found g) s =
        let b = bucket_at s.hashtable g in
        if is_used (block_at s.blocks (b.index / s.pages_per_block)).state
        then if is_valid b.p_state
          then match_key key b.index (read_page b.index s)
          else done (negsuc 0, [])
        else done (negsuc 2, [])
    get_at key probed_all s = done (negsuc 0, [])
    get_at key absent s = done (negsuc 0, [])

    unfoldable pub get_keyval : List ℕ → Store F → Outcome ((ℤ × List ℕ) × Store F)
    unfolding get_at and_then
    get_keyval key s =
        let looked =
          and_then (get_at key (hash_search s.hash_size key s.hashtable) s)
            (λ r. done (r, with_lock false s)) in
        if s.erase_lock then hangs else looked

  unfoldable pub delete_at : SearchResult → Store F → ℤ × Store F
  unfolding invalid_pg
  delete_at (found g) s =
      let b = bucket_at s.hashtable g in
      if is_used (block_at s.blocks (b.index / s.pages_per_block)).state
      then if is_valid b.p_state then (pos b.index, invalid_pg g s) else (negsuc 0, s)
      else (negsuc 0, s)
  delete_at probed_all s = (negsuc 0, s)
  delete_at absent s = (negsuc 0, s)

  unfoldable pub del_key : List ℕ → Store F → Outcome (ℤ × Store F)
  unfolding delete_at
  del_key key s =
      let (ret, s') = delete_at (hash_search s.hash_size key s.hashtable) s in
      if s.erase_lock then hangs else done (ret, with_lock false s')
