-- ===== src/Serial/Tests.antt =====
-- The serial store on a flash of two blocks of two pages of 16 bytes, from its format on.
use mathlib.Core.Path.{subst}
use linux_kernel_programming.Prelude.{
  ℕ, zero, suc, ◌-◌, ◌%◌, ◌<◌, ◌≤◌, ◌≡◌, ◌≢◌, ◌⊎◌, refl, true, false, Option, sym, ap, none, some,
  List, [], ◌∷◌, arith, replicate,
}
use linux_kernel_programming.Prelude.Int.{ℤ, pos, negsuc}
use linux_kernel_programming.Vanilla.{Mtd, erase_done}
use linux_kernel_programming.Vanilla.ByteFlash.{Flash, bytes, driver, driver-IsMtd}
use linux_kernel_programming.Serial.HashTable.{
  Bucket, pg_free, pg_valid, hash, hash_from, hash_search, search_loop, hash_add, add_loop, within,
}
use linux_kernel_programming.Serial.HashTable.Lookup.{has_room}
use linux_kernel_programming.Serial.Blocks.{
  int_order, BlkInfo, blk_free, blk_used, get_healthy_block, least_worn, is_read_only,
}
use linux_kernel_programming.Serial.Flash.Extends.{Accepts}
use linux_kernel_programming.Serial.Store.{Store, del_key}
use linux_kernel_programming.Serial.Insert.{store_pair, put_page, drop_old, link_page}
use linux_kernel_programming.Serial.Insert.Represents.{Map, put, remove, Represents}
use linux_kernel_programming.Serial.Insert.Refine.{store_pair-Represents}
use linux_kernel_programming.Serial.Insert.Delete.{del_key-Represents}
use linux_kernel_programming.Serial.Format.{format, format_with, reset_store}
use linux_kernel_programming.Serial.Format.Empty.{format-Represents}
use linux_kernel_programming.Serial.Collect.{invalid_threshold}
use linux_kernel_programming.Serial.Mount.{Machine, init_scan}
use linux_kernel_programming.Serial.Mount.Fresh.{NoHeader, init_scan-Represents}
use linux_kernel_programming.Serial.Flash.{
  read_page, get_next_page, prepare_block, write_page, write_hdr, check_full, next_offset,
}
use linux_kernel_programming.Serial.Persist.{Core, Memory, meta_sizes}
use linux_kernel_programming.Serial.Set.{set_keyval}
use linux_kernel_programming.Serial.Set.Few.{FewInvalid}
use linux_kernel_programming.Serial.Set.Refine.{set_keyval-Represents}
use linux_kernel_programming.Serial.Device.{kvlib_set, kvlib_get, kvlib_del}
use linux_kernel_programming.Serial.Device.Refine.{
  closed, answer, del_answer, kvlib_get-Represents, kvlib_del-Represents, kvlib_set-Represents,
}

abbrev bytes_driver : Mtd Flash
bytes_driver = driver erase_done

accepts : Accepts bytes_driver
accepts addr buf f = ((bytes_driver.mtd_write addr buf f).1, refl)

abbrev key_a : List ℕ
key_a = b'a' ∷ []

abbrev val_x : List ℕ
val_x = b'x' ∷ b'y' ∷ []

-- A store with a key whose page is not there, before its format.
abbrev raw_block : BlkInfo
raw_block = record { state = blk_used; worn = 3; nb_invalid = 1; current_page_offset = 2 }

abbrev raw_bucket : Bucket
raw_bucket = record { dirty = true; index = 9; key = key_a; p_state = pg_valid }

abbrev raw : Store Flash
raw = record {
  config = record {
    flash = λ i. 7;
    block_size = 32;
    page_size = 16;
    pages_per_block = 2;
    blocks = raw_block ∷ raw_block ∷ [];
    format_done = pos 0;
    read_only = true;
    lists = λ b. 0 ∷ [];
  };
  hashtable = raw_bucket ∷ raw_bucket ∷ raw_bucket ∷ raw_bucket ∷ [];
  hash_size = 4;
}

format-Represents_example :
    let (ret, s') = format bytes_driver raw in
    (ret ≡ pos 0) × (s'.config.read_only ≡ false) × Represents bytes_driver s' (λ key. none)
format-Represents_example =
    format-Represents bytes_driver raw (λ i. 255) refl (omega arith)
      (record { addressable = omega arith; some_page = omega arith }) (omega arith) (omega arith)
      refl

abbrev fresh : Store Flash
fresh = record {
  config = record {
    flash = λ i. 255;
    block_size = 32;
    page_size = 16;
    pages_per_block = 2;
    blocks =
        record { state = blk_free; worn = 0; nb_invalid = 0; current_page_offset = 0 }
        ∷ record { state = blk_free; worn = 0; nb_invalid = 0; current_page_offset = 0 }
        ∷ [];
    format_done = pos 1;
    read_only = false;
    lists = λ b. [];
  };
  hashtable =
      record { dirty = false; index = 9; key = key_a; p_state = pg_free }
      ∷ record { dirty = false; index = 9; key = key_a; p_state = pg_free }
      ∷ record { dirty = false; index = 9; key = key_a; p_state = pg_free }
      ∷ record { dirty = false; index = 9; key = key_a; p_state = pg_free }
      ∷ [];
  hash_size = 4;
}

empty_map : Map
empty_map key = none

fresh-Represents : Represents bytes_driver fresh empty_map
unfolding format format_with reset_store empty_map
fresh-Represents =
    (format-Represents bytes_driver raw (λ i. 255) refl (omega arith)
      (record { addressable = omega arith; some_page = omega arith }) (omega arith) (omega arith)
      refl).2

first_block : get_healthy_block 2 fresh.config.blocks ≡ pos 0
unfolding get_healthy_block least_worn int_order
first_block = refl

free_bucket_a : has_room 4 3 (hash key_a % 4) fresh.hashtable ≡ true
unfolding has_room hash hash_from
free_bucket_a = refl

stored :
    (ret : ℤ) × (s' : Store Flash) × (store_pair bytes_driver key_a val_x fresh ≡ some (ret, s'))
    × ((ret ≡ pos 0) ⊎ (ret ≡ negsuc 0))
    × Represents bytes_driver s' (put key_a val_x empty_map)
stored =
    store_pair-Represents bytes_driver (driver-IsMtd erase_done) accepts fresh empty_map key_a val_x
      0 fresh-Represents refl (omega arith) first_block (omega arith) free_bucket_a

-- The store with the couple.
abbrev store_in : Option (ℤ × Store Flash) → Store Flash
store_in none = fresh
store_in (some (ret, s)) = s

abbrev filled : Store Flash
filled = store_in (store_pair bytes_driver key_a val_x fresh)

filled-Represents : Represents bytes_driver filled (put key_a val_x empty_map)
filled-Represents =
    subst (λ s. Represents bytes_driver s (put key_a val_x empty_map)) (sym (ap store_in stored.2))
      stored.4

del_key-Represents_example :
    let (ret, s') = del_key key_a filled in
    Represents bytes_driver s' (remove key_a (put key_a val_x empty_map))
    × (((put key_a val_x empty_map key_a ≡ none) × (ret ≡ negsuc 1) × (s' ≡ filled))
        ⊎ ((put key_a val_x empty_map key_a ≢ none) × (ret ≢ negsuc 1)))
del_key-Represents_example =
    del_key-Represents bytes_driver filled (put key_a val_x empty_map) key_a filled-Represents

abbrev core_of : Store Flash → Core Flash
core_of s = record { store = s; sizes = meta_sizes 440 16 2; meta_blkordr = []; time_flush = 0 }

abbrev memory : Memory Flash
memory = record { key_buffer = []; metadata_bytes = λ s. []; beyond = [] }

few : FewInvalid (invalid_threshold - 1) fresh.config.blocks
few zero = omega arith
few (suc zero) = omega arith
few (suc (suc j)) = omega arith

set_keyval-Represents_example :
    (ret : ℤ) × (s' : Store Flash) × (set_keyval bytes_driver memory 0 5 key_a val_x (core_of fresh)
      ≡ some (ret, core_of s'))
    × ((ret ≡ pos 0) ⊎ (ret ≡ negsuc 2))
    × Represents bytes_driver s' (put key_a val_x empty_map)
set_keyval-Represents_example =
    set_keyval-Represents bytes_driver memory 0 5 (driver-IsMtd erase_done) accepts (core_of fresh)
      empty_map key_a val_x 0 fresh-Represents refl (omega arith) first_block (omega arith)
      free_bucket_a few refl

kvlib_set-Represents_example :
    (ret : ℤ) × (s' : Store Flash) × (kvlib_set bytes_driver memory 0 5 true 0 key_a val_x
        (closed (core_of fresh))
      ≡ some (ret, none, closed (core_of s')))
    × ((ret ≡ pos 0) ⊎ (ret ≡ negsuc 4))
    × Represents bytes_driver s' (put key_a val_x empty_map)
kvlib_set-Represents_example =
    kvlib_set-Represents bytes_driver memory 0 5 (driver-IsMtd erase_done) accepts (core_of fresh)
      empty_map key_a val_x 0 fresh-Represents refl (omega arith) first_block (omega arith)
      free_bucket_a few refl

filled_pages : filled.config.page_size ≤ 2056
unfolding store_pair get_next_page prepare_block get_healthy_block least_worn int_order hash_search
    search_loop hash hash_add add_loop write_page write_hdr check_full is_read_only within put_page
    hash_from drop_old link_page next_offset
filled_pages = omega arith

kvlib_get-Represents_example :
    let (ret, value) = answer key_a (put key_a val_x empty_map key_a) in
    kvlib_get bytes_driver memory 0 5 true 0 0 key_a key_a key_a (closed (core_of filled))
    ≡ some (ret, value, closed (core_of filled))
kvlib_get-Represents_example =
    kvlib_get-Represents bytes_driver memory 0 5 (core_of filled) (put key_a val_x empty_map) key_a
      key_a key_a filled-Represents filled_pages

kvlib_del-Represents_example :
    (s' : Store Flash) × (kvlib_del bytes_driver memory 0 5 true 0 key_a (closed (core_of filled))
      ≡ some (del_answer (put key_a val_x empty_map key_a), none, closed (core_of s')))
    × Represents bytes_driver s' (remove key_a (put key_a val_x empty_map))
kvlib_del-Represents_example =
    kvlib_del-Represents bytes_driver memory 0 5 (core_of filled) (put key_a val_x empty_map) key_a
      filled-Represents

-- Fresh arrays hold the blocks and buckets of `raw`.
abbrev machine : Machine
machine = record {
  bucket_size = 120;
  blk_info_size = 24;
  fresh_bytes = 1 ∷ [];
  fresh_blocks = λ n. replicate n raw_block;
  fresh_buckets = λ n. replicate n raw_bucket;
  restore = λ b. (raw.config.blocks, raw.hashtable);
}

no_header : (i : ℕ) → i < 2 → NoHeader bytes_driver raw.config i
unfolding read_page bytes
no_header i h = (replicate 16 7, refl, refl)

init_scan-Represents_example :
    (k : Core Flash) × (init_scan bytes_driver machine raw ≡ some (pos 0, k))
    × Represents bytes_driver k.store (λ key. none)
init_scan-Represents_example =
    init_scan-Represents bytes_driver machine raw no_header (λ addr len f. ((λ i. 255), refl)) refl
      refl (omega arith) (record { addressable = omega arith; some_page = omega arith })
      (omega arith) (omega arith) (omega arith)
