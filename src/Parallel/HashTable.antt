-- ===== src/Parallel/HashTable.antt =====
-- p6/prototype-parallel/kernel/hash.c. The loops are those of p6/prototype-serial/kernel/hash.c; `n` is HASH_SIZE.
use linux_kernel_programming.Prelude.{
  ℕ, ◌+◌, ◌-◌, ◌*◌, ◌%◌, ◌<◌, ◌≡◌, ap, ◌∙◌, Option, List, arith, length,
}
use linux_kernel_programming.Prelude.Pages.{div_page}
use linux_kernel_programming.Serial.HashTable as Serial
use linux_kernel_programming.Serial.HashTable.{Bucket, SearchResult, add_loop, search_loop, within}
use linux_kernel_programming.Serial.HashTable.Lookup.{within-fits}

unfoldable pub hash : ℕ → List ℕ → ℕ
hash n str = Serial.hash str % n

-- `sizeof(key)` of a bucket, the last field of it
abbrev pub key_size : ℕ
key_size = 88

-- As in the serial store, `none` is the return value -1, or a key that does not fit the bucket. The callers use either
-- as an access outside an array.
unfoldable pub hash_add : ℕ → List ℕ → ℕ → List Bucket → Option ℕ × List Bucket
unfolding hash within
hash_add n key index t =
    let r = add_loop n key index (n - 1) (hash n key) t in (within key_size key r.0, r.1)

unfoldable pub hash_search : ℕ → List ℕ → List Bucket → SearchResult
unfolding hash
hash_search n key t = search_loop n key (n - 1) (hash n key % n) t

-- The table behaves as that of the serial store: both take the same bucket for a key that fits, and find it there.
pub hash_table_serial :
    (n : ℕ) (key : List ℕ) (index : ℕ) (t : List Bucket)
    → 0 < n
    → (length key < key_size → hash_add n key index t ≡ Serial.hash_add n key index t)
      × (hash_search n key t ≡ Serial.hash_search n key t)
unfolding hash_add hash_search hash Serial.hash_add Serial.hash_search
hash_table_serial n key index t h =
    let e : Serial.hash key % n % n ≡ Serial.hash key % n = twice (Serial.hash key) n h in
    (
      λ short.
          let r = (add_loop n key index (n - 1) (Serial.hash key % n) t).0 in
          rw (within-fits 88 key r short, within-fits 128 key r (omega arith)),
      ap (λ i. search_loop n key (n - 1) i t) e,
    )
  where
    twice : (x n : ℕ) → 0 < n → x % n % n ≡ x % n
    twice x n h =
        let z : x % n ≡ 0 * n + x % n = omega arith in
        ap (λ y. y % n) z ∙ (div_page 0 (x % n) n (omega arith)).1
