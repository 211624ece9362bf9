-- ===== src/Serial/HashTable.antt =====
-- p6/prototype-serial/kernel/hash.c: open addressing with linear probing. The table is the array
-- `config.hashtable`; `n` is `hash_size`, the number of flash pages and of buckets.
pub mod Probe
pub mod Lookup
pub mod Reach
mod Tests
use linux_kernel_programming.Prelude.{
  ℕ, zero, suc, ◌+◌, ◌-◌, ◌*◌, ◌%◌, Bool, true, false, ◌&&◌, Option, none, some, List, [], ◌∷◌, ltb,
  ◌==◌, if◌then◌else◌, get_or, set, length,
}
use linux_kernel_programming.Prelude.Words.{u32_mod, add32}
use linux_kernel_programming.Prelude.Bytes.{bytes_eq}

pub data PageState : Type 0 where
  pg_free pg_valid : PageState

-- `key` is the string in `char key[128]`: it has fewer bytes than the array, since hash_add stores no other.
-- The lists that `p_list` links are `lists` of Serial.Flash; `b_state`, which no code reads, is left out.
pub record Bucket : Type 0 where
  pub dirty : Bool
  pub index : ℕ
  pub key : List ℕ
  pub p_state : PageState

abbrev pub is_valid : PageState → Bool
is_valid pg_free = false
is_valid pg_valid = true

-- What a read past the table is taken to give.
abbrev pub no_bucket : Bucket
no_bucket = record { dirty = false; index = 0; key = []; p_state = pg_free }

abbrev pub bucket_at : List Bucket → ℕ → Bucket
bucket_at t i = get_or t i no_bucket

-- A `char` is signed: its value as an `unsigned int`.
abbrev pub char_value : ℕ → ℕ
char_value c = if ltb c 128 then c else c + (u32_mod - 256)

-- The loop of `hash`, over the bytes of the string.
unfoldable pub hash_from : ℕ → List ℕ → ℕ
hash_from h [] = h
hash_from h (c ∷ cs) = hash_from (add32 (h * 33) (char_value c)) cs

unfoldable pub hash : List ℕ → ℕ
unfolding hash_from
hash str = hash_from 5381 str

-- `hashtable[i].dirty = 1`
abbrev pub mark : ℕ → List Bucket → List Bucket
mark i t = set t i (record (bucket_at t i) { dirty = true })

-- `sizeof(key)` of a bucket
abbrev pub key_size : ℕ
key_size = 128

-- The bucket that was taken, if `strcpy` of the key stays inside the bucket's array of `size` bytes. The NUL of a key
-- of `size` bytes is written over the field behind the array, and a longer key over the next bucket: such a write outside
-- an array is `none`.
unfoldable pub within : ℕ → List ℕ → Option ℕ → Option ℕ
within size key g = if ltb (length key) size then g else none

-- A free bucket receives a key that fits its array. Its dirty bit stays.
abbrev pub place : List ℕ → ℕ → ℕ → List Bucket → List Bucket
place key index i t =
    set t i (record (bucket_at t i) { p_state = pg_valid; key = key; index = index })

-- The loop of hash_add with `rounds` further probes allowed (`hash_size - 1 - count`).
-- `none` is the return value -1.
unfoldable pub add_loop :
    (n : ℕ) (key : List ℕ) (index rounds i : ℕ) → List Bucket → Option ℕ × List Bucket
add_loop n key index zero i t =
    if is_valid (bucket_at t i).p_state then (none, mark i t) else (some i, place key index i t)
add_loop n key index (suc rounds) i t =
    let rest = add_loop n key index rounds ((i + 1) % n) (mark i t) in
    if is_valid (bucket_at t i).p_state then rest else (some i, place key index i t)

-- `none` is the return value -1, or a key that does not fit the bucket. The callers use the result as an index unseen, so
-- that both end in an access outside an array; the table behind a key that does not fit is not that of the code.
unfoldable pub hash_add : ℕ → List ℕ → ℕ → List Bucket → Option ℕ × List Bucket
unfolding within
hash_add n key index t =
    let r = add_loop n key index (n - 1) (hash key % n) t in (within key_size key r.0, r.1)

-- The return values of hash_search: a bucket, -1 after the whole probe, -2 at a clean bucket.
pub data SearchResult : Type 0 where
  found : ℕ → SearchResult
  probed_all absent : SearchResult

-- The loop of hash_search with `rounds` probes left (`hash_size - 1 - counter`).
unfoldable pub search_loop : (n : ℕ) (key : List ℕ) (rounds i : ℕ) → List Bucket → SearchResult
search_loop n key zero i t = probed_all
search_loop n key (suc rounds) i t =
    let rest = search_loop n key rounds ((i + 1) % n) t in
    let b = bucket_at t i in
    if is_valid b.p_state && bytes_eq b.key key then found i else if b.dirty then rest else absent

unfoldable pub hash_search : ℕ → List ℕ → List Bucket → SearchResult
hash_search n key t = search_loop n key (n - 1) (hash key % n) t
