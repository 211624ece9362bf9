-- ===== src/Serial/HashTable/Lookup.antt =====
-- hash_search after hash_add, and what a found bucket is.
use mathlib.Core.Path.{subst}
use linux_kernel_programming.Prelude.{
  ℕ, zero, suc, ◌+◌, ◌-◌, ◌%◌, ◌<◌, ◌≡◌, refl, sym, ◌⊎◌, ◌↔◌, inl, inr, Bool, true, false, Option,
  none, some, List, arith, ◌==◌, Bool-cases, if◌then◌else◌, length, ltb, length-set, ◌∙◌,
}
use linux_kernel_programming.Prelude.Bytes.{bytes_eq, bytes_eq_refl, bytes_eq-eq}
use linux_kernel_programming.Serial.HashTable.{
  Bucket, is_valid, bucket_at, mark, place, hash, add_loop, hash_add, search_loop, hash_search,
  found, probed_all, key_size, within,
}
use linux_kernel_programming.Serial.HashTable.Probe.{
  Keeps, bucket_at-set, length-add_loop, add_loop-Keeps, add_loop-only, next-lt,
}

-- One of the `rounds` buckets from `i` on, going round, is free.
unfoldable pub has_room : (n rounds i : ℕ) → List Bucket → Bool
has_room n zero i t = false
has_room n (suc r) i t =
    let rest = has_room n r ((i + 1) % n) t in
    if is_valid (bucket_at t i).p_state then rest else true

-- No bucket of the table holds the key.
abbrev pub NotStored : List ℕ → List Bucket → Type 0
NotStored key t =
    (j : ℕ) → is_valid (bucket_at t j).p_state ≡ true → bytes_eq (bucket_at t j).key key ≡ false

p_state-mark :
    (t : List Bucket) (i j : ℕ)
    → i < length t
    → (bucket_at (mark i t) j).p_state ≡ (bucket_at t j).p_state
p_state-mark t i j h = rw (bucket_at-set t i j _ h) (elim (Bool-cases (i == j)) [
  | inl e ↦ let e' : i ≡ j = ground arith in rw (e, ← e')
  | inr e ↦ rw e
])

key-mark :
    (t : List Bucket) (i j : ℕ) → i < length t → (bucket_at (mark i t) j).key ≡ (bucket_at t j).key
key-mark t i j h = rw (bucket_at-set t i j _ h) (elim (Bool-cases (i == j)) [
  | inl e ↦ let e' : i ≡ j = ground arith in rw (e, ← e')
  | inr e ↦ rw e
])

dirty-mark : (t : List Bucket) (i : ℕ) → i < length t → (bucket_at (mark i t) i).dirty ≡ true
dirty-mark t i h = rw (bucket_at-set t i i _ h) (ground arith)

has_room-mark :
    (n r i j : ℕ) (t : List Bucket) → j < length t → has_room n r i (mark j t) ≡ has_room n r i t
unfolding has_room
has_room-mark n zero i j t h = refl
has_room-mark n (suc r) i j t h = rw (p_state-mark t j i h, has_room-mark n r ((i + 1) % n) j t h)

NotStored-mark :
    (key : List ℕ) (t : List Bucket) (i : ℕ)
    → i < length t
    → NotStored key t
    → NotStored key (mark i t)
NotStored-mark key t i h no_key j = rw (p_state-mark t i j h, key-mark t i j h) (no_key j)

==_refl : (i : ℕ) → (i == i) ≡ true
==_refl i = ground arith

some_eq : {a b : ℕ} → some a ≡ some b → a ≡ b
some_eq p = ground arith

not_some : {g : ℕ} → none ≡ some g → ⊥
not_some p = cc

not_found : {g : ℕ} → probed_all ≡ found g → ⊥
not_found p = cc

-- What hash_search and the bucket say after the loop of hash_add returned `g`.
record Stored (n : ℕ) (key : List ℕ) (index rounds i g : ℕ) (t t' : List Bucket) : Type 0 where
  lookup : search_loop n key rounds i t' ≡ (if has_room n rounds i t then found g else probed_all)
  holds :
      ((bucket_at t' g).key ≡ key)
      × ((bucket_at t' g).index ≡ index)
      × (is_valid (bucket_at t' g).p_state ≡ true)

module _ (n : ℕ) (key : List ℕ) (index : ℕ) where
  placed :
      (t : List Bucket) (i : ℕ)
      → i < length t
      → let b = bucket_at (place key index i t) i in
        (b.key ≡ key) × (b.index ≡ index) × (is_valid b.p_state ≡ true)
  placed t i h = rw (bucket_at-set t i i _ h, ==_refl i) (refl, refl, refl)

  -- A probe that passes a marked bucket of another key.
  search_loop-next :
      (r i : ℕ) (t t' : List Bucket)
      → length t ≡ n
      → i < n
      → NotStored key t
      → is_valid (bucket_at t i).p_state ≡ true
      → Keeps (bucket_at (mark i t) i) (bucket_at t' i)
      → search_loop n key (suc r) i t' ≡ search_loop n key r ((i + 1) % n) t'
  unfolding search_loop
  search_loop-next r i t t' l h no_key e k =
      let valid : is_valid (bucket_at (mark i t) i).p_state ≡ true =
        rw (p_state-mark t i i (omega arith)) e in
      let other : bytes_eq (bucket_at t' i).key key ≡ false =
        rw (k.key valid, key-mark t i i (omega arith)) (no_key i e) in
      rw (k.p_state valid, other, k.dirty (dirty-mark t i (omega arith)))

  room :
      (r i g : ℕ) (t : List Bucket)
      → length t ≡ n
      → i < n
      → is_valid (bucket_at t i).p_state ≡ true
      → (if has_room n r ((i + 1) % n) (mark i t) then found g else probed_all)
        ≡ (if has_room n (suc r) i t then found g else probed_all)
  unfolding has_room
  room r i g t l h e = rw (has_room-mark n r ((i + 1) % n) i t (omega arith), e)

  -- The bucket that was free is found at once, if the search has a probe left.
  place-Stored :
      (rounds i : ℕ) (t : List Bucket)
      → length t ≡ n
      → i < n
      → is_valid (bucket_at t i).p_state ≡ false
      → Stored n key index rounds i i t (place key index i t)
  unfolding search_loop has_room
  place-Stored zero i t l h e = record { lookup = refl; holds = placed t i (omega arith) }
  place-Stored (suc r) i t l h e =
      let (k, x, v) = placed t i (omega arith) in
      let same : bytes_eq (bucket_at (place key index i t) i).key key ≡ true =
        rw k (bytes_eq_refl key) in
      record { lookup = rw (e, v, same); holds = (k, x, v) }

  add_loop-Stored :
      (rounds i g : ℕ) (t : List Bucket)
      → length t ≡ n
      → i < n
      → NotStored key t
      → (add_loop n key index rounds i t).0 ≡ some g
      → Stored n key index rounds i g t (add_loop n key index rounds i t).1
  unfolding add_loop
  add_loop-Stored zero i g t l h no_key = elim (Bool-cases (is_valid (bucket_at t i).p_state)) [
    | inl e ↦ rw e (λ p. absurd (not_some p))
    | inr e ↦ rw e (λ p.
        subst (λ x. Stored n key index zero i x t (place key index i t)) (some_eq p)
          (place-Stored zero i t l h e))
  ]
  add_loop-Stored (suc r) i g t l h no_key = elim (Bool-cases (is_valid (bucket_at t i).p_state)) [
    | inl e ↦ rw e (λ p.
        let l' = length-set t i _ ∙ l in
        let ih =
          add_loop-Stored r ((i + 1) % n) g (mark i t) l' (next-lt i n h)
            (NotStored-mark key t i (omega arith) no_key) p in
        record {
          lookup =
              search_loop-next r i t _ l h no_key e
                (add_loop-Keeps n key index r ((i + 1) % n) i (mark i t) l' (next-lt i n h))
              ∙ ih.lookup
              ∙ room r i g t l h e;
          holds = ih.holds;
        })
    | inr e ↦ rw e (λ p.
        subst (λ x. Stored n key index (suc r) i x t (place key index i t)) (some_eq p)
          (place-Stored (suc r) i t l h e))
  ]

pub within-some :
    (size : ℕ) (key : List ℕ) (r : Option ℕ) (g : ℕ) → within size key r ≡ some g → r ≡ some g
unfolding within
within-some size key r g = elim (Bool-cases (ltb (length key) size)) [
  | inl e ↦ rw e (λ p. p)
  | inr e ↦ rw e (λ p. absurd cc)
]

pub within-short :
    (size : ℕ) (key : List ℕ) (r : Option ℕ) (g : ℕ)
    → within size key r ≡ some g
    → length key < size
unfolding within
within-short size key r g = elim (Bool-cases (ltb (length key) size)) [
  | inl e ↦ λ p. ground arith
  | inr e ↦ rw e (λ p. absurd cc)
]

pub within-fits :
    (size : ℕ) (key : List ℕ) (r : Option ℕ) → length key < size → within size key r ≡ r
unfolding within
within-fits size key r h = let e : ltb (length key) size ≡ true = ground arith in rw e

module _ (n : ℕ) (key : List ℕ) (index : ℕ) (t : List Bucket) (l : length t ≡ n) (pos : 0 < n) where
  -- After hash_add of a new key of fewer than 128 bytes the returned bucket holds the key and its page, and
  -- hash_search finds it there, if one of the first `n - 1` buckets of the probe sequence was free. In the last
  -- bucket of the sequence hash_search does not look: the key is stored and is not found.
  pub hash_search-hash_add :
      (g : ℕ)
      → length key < key_size
      → NotStored key t
      → (hash_add n key index t).0 ≡ some g
      → let t' = (hash_add n key index t).1 in
        (hash_search n key t'
          ≡ (if has_room n (n - 1) (hash key % n) t then found g else probed_all))
        × ((bucket_at t' g).key ≡ key)
        × ((bucket_at t' g).index ≡ index)
        × (is_valid (bucket_at t' g).p_state ≡ true)
  unfolding hash_add hash_search
  hash_search-hash_add g short no_key p =
      let r =
        add_loop-Stored n key index (n - 1) (hash key % n) g t l (omega arith) no_key
          (within-some key_size key _ g p) in
      (r.lookup, r.holds.0, r.holds.1, r.holds.2)

  -- hash_add keeps every stored key in its bucket with its page, and no bucket comes to hold a key
  -- other than the added one.
  pub hash_add-Keeps :
      (j : ℕ)
      → let t' = (hash_add n key index t).1 in
        Keeps (bucket_at t j) (bucket_at t' j)
        × (is_valid (bucket_at t' j).p_state ≡ true
            → (is_valid (bucket_at t j).p_state ≡ true) ⊎ ((bucket_at t' j).key ≡ key))
        × (length t' ≡ n)
  unfolding hash_add
  hash_add-Keeps j = (
    add_loop-Keeps n key index (n - 1) (hash key % n) j t l (omega arith),
    add_loop-only n key index (n - 1) (hash key % n) j t l (omega arith),
    length-add_loop n key index (n - 1) (hash key % n) t ∙ l,
  )

-- A probe that does not find `other` because of a new key goes on as before.
search_loop-Keeps :
    (n : ℕ) (key other : List ℕ) (r i g : ℕ) (t t' : List Bucket)
    → bytes_eq key other ≡ false
    → ((j : ℕ) → Keeps (bucket_at t j) (bucket_at t' j))
    → ((j : ℕ)
        → is_valid (bucket_at t' j).p_state ≡ true
        → (is_valid (bucket_at t j).p_state ≡ true) ⊎ ((bucket_at t' j).key ≡ key))
    → search_loop n other r i t ≡ found g
    → search_loop n other r i t' ≡ found g
unfolding search_loop
search_loop-Keeps n key other zero i g t t' ne k o = λ p. p
search_loop-Keeps n key other (suc r) i g t t' ne k o = λ p. ground (
  arith,
  (k i).p_state,
  (k i).key,
  (k i).dirty,
  o i,
  search_loop-Keeps n key other r ((i + 1) % n) g t t' ne k o,
)

-- What hash_search finds is a bucket of the table that holds the key.
search_loop-found :
    (n : ℕ) (key : List ℕ) (r i g : ℕ) (t : List Bucket)
    → i < n
    → search_loop n key r i t ≡ found g
    → (g < n) × (is_valid (bucket_at t g).p_state ≡ true) × ((bucket_at t g).key ≡ key)
unfolding search_loop
search_loop-found n key zero i g t h = λ p. absurd (not_found p)
search_loop-found n key (suc r) i g t h = λ p. ground (
  arith,
  next-lt i n h,
  bytes_eq-eq (bucket_at t i).key key,
  search_loop-found n key r ((i + 1) % n) g t,
)

-- What hash_search finds is a bucket within the table that holds the key.
pub hash_search-found :
    (n : ℕ) (key : List ℕ) (g : ℕ) (t : List Bucket)
    → 0 < n
    → hash_search n key t ≡ found g
    → (g < n) × (is_valid (bucket_at t g).p_state ≡ true) × ((bucket_at t g).key ≡ key)
unfolding hash_search
hash_search-found n key g t h = search_loop-found n key (n - 1) (hash key % n) g t (omega arith)

-- In a table of `n` > 0 buckets, adding a key of fewer than 128 bytes does not hide another: what hash_search found before
-- hash_add it finds after it.
pub hash_search-hash_add_ne :
    (n : ℕ) (key : List ℕ) (index : ℕ) (t : List Bucket) (other : List ℕ) (g : ℕ)
    → length t ≡ n
    → 0 < n
    → length key < key_size
    → bytes_eq key other ≡ false
    → hash_search n other t ≡ found g
    → hash_search n other (hash_add n key index t).1 ≡ found g
unfolding hash_search
hash_search-hash_add_ne n key index t other g l pos short ne =
    search_loop-Keeps n key other (n - 1) (hash other % n) g t (hash_add n key index t).1 ne
      (λ j. (hash_add-Keeps n key index t l pos j).0)
      (λ j. (hash_add-Keeps n key index t l pos j).1)

add_loop-none :
    (n : ℕ) (key : List ℕ) (index r i : ℕ) (t : List Bucket)
    → length t ≡ n
    → i < n
    → ((add_loop n key index r i t).0 ≡ none) ↔ (has_room n (suc r) i t ≡ false)
unfolding add_loop has_room
add_loop-none n key index zero i t l h = ground arith
add_loop-none n key index (suc r) i t l h = elim (Bool-cases (is_valid (bucket_at t i).p_state)) [
  | inl e ↦
      let ih =
        add_loop-none n key index r ((i + 1) % n) (mark i t) (length-set t i _ ∙ l)
          (next-lt i n h) in
      rw (e, ← has_room-mark n (suc r) ((i + 1) % n) i t (omega arith)) ih
  | inr e ↦ rw e (ground arith)
]

-- hash_add of a key that fits its bucket fails exactly when all `n` buckets of its probe sequence hold keys.
pub hash_add-none :
    (n : ℕ) (key : List ℕ) (index : ℕ) (t : List Bucket)
    → length t ≡ n
    → 0 < n
    → length key < key_size
    → ((hash_add n key index t).0 ≡ none) ↔ (has_room n n (hash key % n) t ≡ false)
unfolding hash_add
hash_add-none n key index t l h short =
    let e : n ≡ suc (n - 1) = omega arith in
    let r = add_loop-none n key index (n - 1) (hash key % n) t l (omega arith) in
    rw (within-fits key_size key (add_loop n key index (n - 1) (hash key % n) t).0 short) (
      λ p. subst (λ m. has_room n m (hash key % n) t ≡ false) (sym e) (r.0 p),
      λ p. r.1 (subst (λ m. has_room n m (hash key % n) t ≡ false) e p),
    )
