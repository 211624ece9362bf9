-- ===== src/Serial/Store.antt =====
-- Lookup and deletion in p6/prototype-serial/kernel/core.c: get_keyval, del_key, invalid_pg.
pub mod Freed
mod Tests
use linux_kernel_programming.Prelude.{
  ℕ, ◌+◌, ◌*◌, ◌/◌, Bool, true, false, Option, none, some, List, if◌then◌else◌, set, take, drop,
}
use linux_kernel_programming.Prelude.Int.{ℤ, pos, negsuc}
use linux_kernel_programming.Prelude.Bytes.{le_value, starts_with}
use linux_kernel_programming.Prelude.Sums.{erase}
use linux_kernel_programming.Vanilla.{Mtd, GetResult, found, not_found, read_error}
use linux_kernel_programming.Serial.HashTable.{
  Bucket, bucket_at, is_valid, pg_free, SearchResult, hash_search,
}
use linux_kernel_programming.Serial.HashTable as Table
use linux_kernel_programming.Serial.Blocks.{is_used, BlkInfo, BlkState, blk_used, block_at}
use linux_kernel_programming.Serial.Flash.{Config, read_page}

-- The blocks and pages, and the hash table with one bucket for each page.
pub record Store (F : Type 0) : Type 0 where
  pub config : Config F
  pub hashtable : List Bucket
  pub hash_size : ℕ

-- What get_keyval does with the page that it read.
unfoldable pub match_key : List ℕ → ℕ → Option (List ℕ) → GetResult
match_key key page none = read_error
match_key key page (some buffer) =
    let key_len = le_value (take 4 buffer) in
    let val_len = le_value (take 4 (drop 4 buffer)) in
    if starts_with key (drop 8 buffer)
    then found page (take val_len (drop (8 + key_len) buffer))
    else not_found

module _ {F : Type 0} where
  -- `blocks[page / pages_per_block].state == BLK_USED`
  abbrev pub in_used_block : Store F → ℕ → Bool
  in_used_block s page = is_used (block_at s.config.blocks (page / s.config.pages_per_block)).state

  -- `list_del` takes the bucket off the list that it is on.
  unfoldable pub invalid_pg : ℕ → Store F → Store F
  invalid_pg g s =
      let b = bucket_at s.hashtable g in
      let i = b.index / s.config.pages_per_block in
      let block = block_at s.config.blocks i in
      record s {
        hashtable = set s.hashtable g (record b { p_state = pg_free });
        config = record s.config {
          blocks = set s.config.blocks i (record block { nb_invalid = block.nb_invalid + 1 });
          lists = λ k. erase g (s.config.lists k);
        };
      }

  -- del_key by what hash_search returned.
  unfoldable pub delete_at : SearchResult → Store F → ℤ × Store F
  delete_at (Table.found g) s =
      let b = bucket_at s.hashtable g in
      if in_used_block s b.index
      then if is_valid b.p_state then (pos b.index, invalid_pg g s) else (negsuc 0, s)
      else (negsuc 1, s)
  delete_at _ s = (negsuc 1, s)

  unfoldable pub del_key : List ℕ → Store F → ℤ × Store F
  del_key key s = delete_at (hash_search s.hash_size key s.hashtable) s

  module _ (mtd : Mtd F) where
    -- get_keyval by what hash_search returned.
    unfoldable pub get_at : List ℕ → SearchResult → Store F → GetResult
    get_at key (Table.found g) s =
        let b = bucket_at s.hashtable g in
        if in_used_block s b.index
        then if is_valid b.p_state
          then match_key key b.index (read_page mtd b.index s.config)
          else not_found
        else not_found
    get_at key _ s = not_found

    unfoldable pub get_keyval : List ℕ → Store F → GetResult
    get_keyval key s = get_at key (hash_search s.hash_size key s.hashtable) s
