-- ===== src/Serial/Store/Tests.antt =====
-- Deletion in a store of one block of two pages.
use linux_kernel_programming.Prelude.{ℕ, ◌≡◌, refl, false, List, [], ◌∷◌, ◌==◌, if◌then◌else◌}
use linux_kernel_programming.Prelude.Int.{pos}
use linux_kernel_programming.Prelude.Bytes.{bytes_eq}
use linux_kernel_programming.Serial.HashTable.{
  pg_free, pg_valid, found, hash, hash_from, hash_search, search_loop,
}
use linux_kernel_programming.Serial.Blocks.{blk_used}
use linux_kernel_programming.Serial.Store.{Store, del_key, delete_at, invalid_pg}

abbrev key_a : List ℕ
key_a = b'a' ∷ []

-- The hash of "a" is even.
abbrev store : Store ℕ
store = record {
  config = record {
    flash = 0;
    block_size = 32;
    page_size = 16;
    pages_per_block = 2;
    blocks = record { state = blk_used; worn = 0; nb_invalid = 0; current_page_offset = 2 } ∷ [];
    format_done = pos 0;
    read_only = false;
    lists = λ b. if b == 0 then 0 ∷ [] else [];
  };
  hashtable =
      record { dirty = false; index = 1; key = key_a; p_state = pg_valid }
      ∷ record { dirty = false; index = 0; key = []; p_state = pg_free }
      ∷ [];
  hash_size = 2;
}

key_found : hash_search 2 key_a store.hashtable ≡ found 0
unfolding hash_search search_loop hash hash_from bytes_eq
key_found = refl

-- The page of the key is returned.
deleted : (del_key key_a store).0 ≡ pos 1
unfolding del_key delete_at invalid_pg hash_search search_loop hash hash_from bytes_eq
deleted = refl
