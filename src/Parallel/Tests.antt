-- ===== src/Parallel/Tests.antt =====
-- Calls to a store of two blocks of two pages of 16 bytes: block 0 is full, and nothing is written in block 1.
use linux_kernel_programming.Prelude.{ℕ, ◌≡◌, ◌≢◌, ◌⊎◌, refl, false, List, [], ◌∷◌, replicate}
use linux_kernel_programming.Prelude.Int.{ℤ, pos, negsuc}
use linux_kernel_programming.Vanilla.{Mtd, blk_used, blk_free, erase_done}
use linux_kernel_programming.Vanilla.ByteFlash.{Flash, driver}
use linux_kernel_programming.Serial.HashTable.{Bucket, pg_free, hash_from, add_loop, within}
use linux_kernel_programming.Serial.HashTable as Serial
use linux_kernel_programming.Serial.Blocks.{int_order}
use linux_kernel_programming.Parallel.{
  Store, Outcome, done, hangs, crashes, and_then, get_healthy_block, healthy_loop, is_meta,
  get_next_block_to_write, prepare_block, write_data_hdr, write_page, check_full, is_read_only,
  count_full, put_page, link_page, set_result,
}
use linux_kernel_programming.Parallel.HashTable.{hash, hash_add}
use linux_kernel_programming.Parallel.Target.{get_next_block_to_write-fresh}

abbrev pub bytes_driver : Mtd Flash
bytes_driver = driver erase_done

abbrev free_bucket : Bucket
free_bucket = record { dirty = false; index = 0; key = []; p_state = pg_free }

abbrev pub store : Store Flash
store = record {
  flash = λ i. 255;
  block_size = 32;
  page_size = 16;
  pages_per_block = 2;
  blocks =
      record { state = blk_used; worn = 4; nb_invalid = 0; current_page_offset = 2 }
      ∷ record { state = blk_free; worn = 4; nb_invalid = 0; current_page_offset = 0 }
      ∷ [];
  lists = λ b. [];
  read_only = false;
  meta_read_only = false;
  hashtable_size = 0;
  block_info_size = 0;
  metadata_size = 0;
  meta_blkordr = negsuc 0 ∷ [];
  hashtable = free_bucket ∷ free_bucket ∷ free_bucket ∷ free_bucket ∷ [];
  hash_size = 4;
  erase_lock = false;
}

abbrev pub key_a : List ℕ
key_a = b'a' ∷ []

abbrev pub long_value : List ℕ
long_value = replicate 20 b'x'

abbrev state_of : Outcome (ℤ × Store Flash) → Store Flash
state_of (done (ret, s)) = s
state_of hangs = store
state_of crashes = store

abbrev next : Outcome (ℤ × Store Flash)
next = get_next_block_to_write bytes_driver store

chosen : get_healthy_block store ≡ pos 1
unfolding get_healthy_block healthy_loop int_order is_meta
chosen = refl

next_done : next ≡ done (pos 0, state_of next)
unfolding get_next_block_to_write get_healthy_block healthy_loop int_order is_meta prepare_block
    write_data_hdr write_page check_full is_read_only count_full and_then
next_done = refl

abbrev put : Outcome (ℤ × Store Flash)
put = put_page bytes_driver key_a key_a (pos 0, state_of next)

put_done : put ≡ done (negsuc 2, state_of put)
unfolding put_page get_next_block_to_write get_healthy_block healthy_loop int_order is_meta
    prepare_block write_data_hdr write_page check_full is_read_only count_full and_then hash_add
    Serial.hash hash_from hash within add_loop link_page set_result
put_done = refl

get_next_block_to_write-fresh_example :
    ((pos 0 ≡ pos 0) ⊎ (pos 0 ≡ negsuc 0))
    × ((j : ℕ) → 0 ≢ j → (state_of put).lists j ≡ store.lists j)
get_next_block_to_write-fresh_example =
    get_next_block_to_write-fresh bytes_driver key_a key_a store 1 (pos 0) (negsuc 2)
      (state_of next) (state_of put) chosen refl next_done put_done
