-- ===== src/Serial/HashTable/Tests.antt =====
-- The hash table at small sizes, and its theorems at such tables.
use linux_kernel_programming.Prelude.{
  ℕ, zero, suc, ◌%◌, ◌≡◌, refl, true, false, none, some, replicate, List, [], ◌∷◌, arith,
  if◌then◌else◌,
}
use linux_kernel_programming.Prelude.Bytes.{bytes_eq}
use linux_kernel_programming.Serial.HashTable.{
  search_loop, add_loop, Bucket, pg_valid, is_valid, no_bucket, bucket_at, hash, hash_add,
  hash_search, found, probed_all, within,
}
use linux_kernel_programming.Serial.HashTable.Lookup.{
  has_room, NotStored, hash_search-hash_add, hash_search-hash_add_ne,
}

-- The key "a", the key "b", and a table of three buckets that holds "b".
abbrev key_a : List ℕ
key_a = b'a' ∷ []

abbrev key_b : List ℕ
key_b = b'b' ∷ []

abbrev empty_table : List Bucket
empty_table = no_bucket ∷ no_bucket ∷ no_bucket ∷ []

abbrev table_b : List Bucket
table_b =
    no_bucket
    ∷ no_bucket
    ∷ record { dirty = false; index = 7; key = key_b; p_state = pg_valid }
    ∷ []

hash_a : hash key_a ≡ 177670
unfolding hash
hash_a = refl

search_finds_b : hash_search 3 key_b table_b ≡ found 2
unfolding hash_search hash search_loop bytes_eq
search_finds_b = refl

none_stored : NotStored key_a empty_table
none_stored zero v = cc
none_stored (suc zero) v = cc
none_stored (suc (suc zero)) v = cc
none_stored (suc (suc (suc j))) v = cc

-- With two buckets taken, the key "a" goes to the last bucket of its probe sequence and is not found.
abbrev two_taken : List Bucket
two_taken =
    no_bucket
    ∷ record { dirty = false; index = 5; key = key_b; p_state = pg_valid }
    ∷ record { dirty = false; index = 7; key = key_b; p_state = pg_valid }
    ∷ []

last_not_found : hash_search 3 key_a (hash_add 3 key_a 9 two_taken).1 ≡ probed_all
unfolding hash_search hash_add within hash search_loop add_loop bytes_eq
last_not_found = refl

hash_add_a : (hash_add 3 key_a 4 empty_table).0 ≡ some 1
unfolding hash_add within hash add_loop
hash_add_a = refl

-- A key of 128 bytes does not fit the array.
too_long : (hash_add 3 (replicate 128 97) 4 empty_table).0 ≡ none
unfolding hash_add within hash add_loop
too_long = refl

hash_search-hash_add_example :
    let t' = (hash_add 3 key_a 4 empty_table).1 in
    (hash_search 3 key_a t'
      ≡ (if has_room 3 2 (hash key_a % 3) empty_table then found 1 else probed_all))
    × ((bucket_at t' 1).key ≡ key_a)
    × ((bucket_at t' 1).index ≡ 4)
    × (is_valid (bucket_at t' 1).p_state ≡ true)
hash_search-hash_add_example =
    hash_search-hash_add 3 key_a 4 empty_table refl (omega arith) 1 (omega arith) none_stored
      hash_add_a

differ : bytes_eq key_a key_b ≡ false
unfolding bytes_eq
differ = refl

hash_search-hash_add_ne_example : hash_search 3 key_b (hash_add 3 key_a 4 table_b).1 ≡ found 2
hash_search-hash_add_ne_example =
    hash_search-hash_add_ne 3 key_a 4 table_b key_b 2 refl (omega arith) (omega arith) differ
      search_finds_b
