-- ===== src/Serial/HashTable/Reach.antt =====
-- Tables in which hash_search finds every stored key: kept by insertion and by deletion.
use linux_kernel_programming.Prelude.{
  ℕ, zero, suc, ◌+◌, ◌-◌, ◌%◌, ◌<◌, ◌≡◌, ◌≢◌, refl, sym, ◌∙◌, ap, ◌⊎◌, ◌↔◌, inl, inr, true, false,
  some, List, arith, ◌==◌, Bool-cases, length, length-set, set,
}
use linux_kernel_programming.Prelude.Bytes.{bytes_eq, bytes_eq_refl, bytes_eq-eq}
use linux_kernel_programming.Serial.HashTable.{
  Bucket, is_valid, pg_free, bucket_at, mark, place, hash, add_loop, hash_add, search_loop,
  key_size, hash_search, found,
}
use linux_kernel_programming.Serial.HashTable.Probe.{bucket_at-set, mark-only, next-lt}
use linux_kernel_programming.Serial.HashTable.Lookup.{
  NotStored, has_room, hash_search-found, hash_search-hash_add, hash_search-hash_add_ne,
  hash_add-Keeps, within-fits, within-short,
}

-- Every bucket that holds a key is the one that hash_search finds for that key.
pub record IsReachable (n : ℕ) (t : List Bucket) : Type 0 where
  pub sized : length t ≡ n
  pub some_bucket : 0 < n
  pub reach :
      (j : ℕ)
      → is_valid (bucket_at t j).p_state ≡ true
      → hash_search n (bucket_at t j).key t ≡ found j

-- In such a table hash_search decides which bucket holds a key.
pub hash_search_iff :
    (n : ℕ) (t : List Bucket) (key : List ℕ) (j : ℕ)
    → IsReachable n t
    → (hash_search n key t ≡ found j)
      ↔ ((is_valid (bucket_at t j).p_state ≡ true) × ((bucket_at t j).key ≡ key))
hash_search_iff n t key j r = (
  λ s. let (_, valid, same) = hash_search-found n key j t r.some_bucket s in (valid, same),
  λ v. ap (λ k. hash_search n k t) (sym v.1) ∙ r.reach j v.0,
)

place-where :
    (key : List ℕ) (index : ℕ) (t : List Bucket) (i j : ℕ)
    → i < length t
    → is_valid (bucket_at (place key index i t) j).p_state ≡ true
    → (is_valid (bucket_at t j).p_state ≡ true) ⊎ (i ≡ j)
place-where key index t i j h = rw (bucket_at-set t i j _ h) (elim (Bool-cases (i == j)) [
  | inl e ↦ rw e (λ v. inr (ground arith))
  | inr e ↦ rw e (λ v. inl v)
])

-- A bucket that holds a key afterwards held one before, or is the one that was returned.
add_loop-where :
    (n : ℕ) (key : List ℕ) (index rounds i j : ℕ) (t : List Bucket)
    → length t ≡ n
    → i < n
    → is_valid (bucket_at (add_loop n key index rounds i t).1 j).p_state ≡ true
    → (is_valid (bucket_at t j).p_state ≡ true) ⊎ ((add_loop n key index rounds i t).0 ≡ some j)
unfolding add_loop
add_loop-where n key index zero i j t l h = elim (Bool-cases (is_valid (bucket_at t i).p_state)) [
  | inl e ↦ rw e (λ v. inl (mark-only t i j (omega arith) v))
  | inr e ↦ rw e (λ v. elim (place-where key index t i j (omega arith) v) [
    | inl was ↦ inl was
    | inr here ↦ inr (ap some here)
  ])
]
add_loop-where n key index (suc r) i j t l h =
    elim (Bool-cases (is_valid (bucket_at t i).p_state)) [
      | inl e ↦ rw e (λ v.
          elim (add_loop-where n key index r ((i + 1) % n) j (mark i t) (length-set t i _ ∙ l)
            (next-lt i n h) v) [
              | inl was ↦ inl (mark-only t i j (omega arith) was)
              | inr here ↦ inr here
            ])
      | inr e ↦ rw e (λ v. elim (place-where key index t i j (omega arith) v) [
        | inl was ↦ inl was
        | inr here ↦ inr (ap some here)
      ])
    ]

hash_add-where :
    (n : ℕ) (key : List ℕ) (index j : ℕ) (t : List Bucket)
    → length t ≡ n
    → 0 < n
    → is_valid (bucket_at (hash_add n key index t).1 j).p_state ≡ true
    → length key < key_size
    → (is_valid (bucket_at t j).p_state ≡ true) ⊎ ((hash_add n key index t).0 ≡ some j)
unfolding hash_add
hash_add-where n key index j t l h v short =
    rw (within-fits key_size key (add_loop n key index (n - 1) (hash key % n) t).0 short)
      (add_loop-where n key index (n - 1) (hash key % n) j t l (omega arith) v)

-- What an insertion into bucket `g` leaves: the new key in `g`, and the others where they were.
pub record Inserted (n : ℕ) (key : List ℕ) (index g : ℕ) (t t' : List Bucket) : Type 0 where
  pub reachable : IsReachable n t'
  pub here :
      (is_valid (bucket_at t' g).p_state ≡ true)
      × ((bucket_at t' g).key ≡ key)
      × ((bucket_at t' g).index ≡ index)
  pub others :
      (j : ℕ)
      → is_valid (bucket_at t' j).p_state ≡ true
      → (j ≡ g)
        ⊎ ((is_valid (bucket_at t j).p_state ≡ true)
            × ((bucket_at t' j).key ≡ (bucket_at t j).key)
            × ((bucket_at t' j).index ≡ (bucket_at t j).index))
  pub kept :
      (j : ℕ)
      → is_valid (bucket_at t j).p_state ≡ true
      → (is_valid (bucket_at t' j).p_state ≡ true)
        × ((bucket_at t' j).key ≡ (bucket_at t j).key)
        × ((bucket_at t' j).index ≡ (bucket_at t j).index)

module _ (n : ℕ) (key : List ℕ) (index g : ℕ) (t : List Bucket) (r : IsReachable n t) where
  pub hash_add-Inserted :
      NotStored key t
      → has_room n (n - 1) (hash key % n) t ≡ true
      → (hash_add n key index t).0 ≡ some g
      → Inserted n key index g t (hash_add n key index t).1
  hash_add-Inserted no_key room added = record {
    reachable = record {
      sized = (hash_add-Keeps n key index t r.sized r.some_bucket 0).2;
      some_bucket = r.some_bucket;
      reach = reach;
    };
    here = (new.3, new.1, new.2);
    others = others;
    kept = kept;
  }
    where
      short : length key < key_size
      short = unfold hash_add in within-short key_size key _ g added

      new :
          (hash_search n key (hash_add n key index t).1 ≡ found g)
          × ((bucket_at (hash_add n key index t).1 g).key ≡ key)
          × ((bucket_at (hash_add n key index t).1 g).index ≡ index)
          × (is_valid (bucket_at (hash_add n key index t).1 g).p_state ≡ true)
      new =
          rw room at (hash_search-hash_add n key index t r.sized r.some_bucket g short no_key added)

      kept :
          (j : ℕ)
          → is_valid (bucket_at t j).p_state ≡ true
          → (is_valid (bucket_at (hash_add n key index t).1 j).p_state ≡ true)
            × ((bucket_at (hash_add n key index t).1 j).key ≡ (bucket_at t j).key)
            × ((bucket_at (hash_add n key index t).1 j).index ≡ (bucket_at t j).index)
      kept j v =
          let k = (hash_add-Keeps n key index t r.sized r.some_bucket j).0 in
          (k.p_state v, k.key v, k.index v)

      others :
          (j : ℕ)
          → is_valid (bucket_at (hash_add n key index t).1 j).p_state ≡ true
          → (j ≡ g)
            ⊎ ((is_valid (bucket_at t j).p_state ≡ true)
                × ((bucket_at (hash_add n key index t).1 j).key ≡ (bucket_at t j).key)
                × ((bucket_at (hash_add n key index t).1 j).index ≡ (bucket_at t j).index))
      others j v = elim (hash_add-where n key index j t r.sized r.some_bucket v short) [
        | inl was ↦ inr (was, (kept j was).1, (kept j was).2)
        | inr here ↦ let same = sym here ∙ added in inl (ground arith)
      ]

      reach :
          (j : ℕ)
          → is_valid (bucket_at (hash_add n key index t).1 j).p_state ≡ true
          → hash_search n (bucket_at (hash_add n key index t).1 j).key (hash_add n key index t).1
            ≡ found j
      reach j v = elim (others j v) [
        | inl e ↦ rw (e, new.1) new.0
        | inr was ↦ rw was.1 (
            hash_search-hash_add_ne n key index t (bucket_at t j).key j r.sized r.some_bucket short
              (apart j was.0) (r.reach j was.0))
      ]
        where
          apart :
              (j : ℕ)
              → is_valid (bucket_at t j).p_state ≡ true
              → bytes_eq key (bucket_at t j).key ≡ false
          apart j v = elim (Bool-cases (bytes_eq key (bucket_at t j).key)) [
            | inl e ↦
                let same = bytes_eq-eq key (bucket_at t j).key e in
                let other = no_key j v in
                let again : bytes_eq (bucket_at t j).key key ≡ true =
                  rw same (bytes_eq_refl (bucket_at t j).key) in
                absurd (ground arith)
            | inr e ↦ e
          ]

-- `hashtable[g].p_state = PG_FREE`
abbrev pub free_bucket : ℕ → List Bucket → List Bucket
free_bucket g t = set t g (record (bucket_at t g) { p_state = pg_free })

-- A probe for another key passes the freed bucket as before.
search_loop-free_bucket :
    (n : ℕ) (other : List ℕ) (r i g : ℕ) (t : List Bucket)
    → g < length t
    → bytes_eq (bucket_at t g).key other ≡ false
    → search_loop n other r i (free_bucket g t) ≡ search_loop n other r i t
unfolding search_loop
search_loop-free_bucket n other zero i g t h ne = refl
search_loop-free_bucket n other (suc r) i g t h ne =
    rw (bucket_at-set t g i _ h, search_loop-free_bucket n other r ((i + 1) % n) g t h ne)
      (elim (Bool-cases (g == i)) [
        | inl e ↦
            let e' : g ≡ i = ground arith in
            rw (e, ← e', ne)
              (elim (Bool-cases (is_valid (bucket_at t g).p_state)) [ inl v ↦ rw v | inr v ↦ rw v ])
        | inr e ↦ rw e
      ])

module _ (n g : ℕ) (t : List Bucket) (r : IsReachable n t)
    (v : is_valid (bucket_at t g).p_state ≡ true) where
  inside : g < length t
  inside =
      let (h, _, _) = hash_search-found n (bucket_at t g).key g t r.some_bucket (r.reach g v) in
      omega (arith, h, r.sized)

  freed_bucket :
      (j : ℕ)
      → is_valid (bucket_at (free_bucket g t) j).p_state ≡ true
      → (g ≢ j) × (bucket_at (free_bucket g t) j ≡ bucket_at t j)
  freed_bucket j = rw (bucket_at-set t g j _ inside) (elim (Bool-cases (g == j)) [
    | inl e ↦ rw e (λ w. cc)
    | inr e ↦ rw e (λ w. (ground arith, refl))
  ])

  -- Two buckets of one table hold different keys.
  keys_apart :
      (j : ℕ)
      → is_valid (bucket_at t j).p_state ≡ true
      → g ≢ j
      → bytes_eq (bucket_at t g).key (bucket_at t j).key ≡ false
  keys_apart j w ne = elim (Bool-cases (bytes_eq (bucket_at t g).key (bucket_at t j).key)) [
    | inl e ↦
        let same = bytes_eq-eq (bucket_at t g).key (bucket_at t j).key e in
        let both = sym (r.reach g v) ∙ ap (λ k. hash_search n k t) same ∙ r.reach j w in
        absurd (ne (ground arith))
    | inr e ↦ e
  ]

  -- Freeing a bucket that holds a key leaves the others as they were and reachable, and no bucket holds
  -- that key afterwards.
  pub free_bucket-IsReachable : IsReachable n (free_bucket g t)
  unfolding hash_search
  free_bucket-IsReachable = record {
    sized = length-set t g _ ∙ r.sized;
    some_bucket = r.some_bucket;
    reach = λ j w.
        let (ne, same) = freed_bucket j w in
        let w' = sym (ap (λ (b : Bucket). is_valid b.p_state) same) ∙ w in
        rw same (
          search_loop-free_bucket n (bucket_at t j).key (n - 1) (hash (bucket_at t j).key % n) g t
            inside (keys_apart j w' ne)
          ∙ r.reach j w');
  }

  pub free_bucket-only :
      (j : ℕ)
      → is_valid (bucket_at (free_bucket g t) j).p_state ≡ true
      → (g ≢ j) × (bucket_at (free_bucket g t) j ≡ bucket_at t j)
  free_bucket-only = freed_bucket

  pub free_bucket-kept :
      (j : ℕ)
      → is_valid (bucket_at t j).p_state ≡ true
      → g ≢ j
      → bucket_at (free_bucket g t) j ≡ bucket_at t j
  free_bucket-kept j w ne =
      rw (bucket_at-set t g j _ inside) (let e : (g == j) ≡ false = ground arith in rw e)

  pub free_bucket-NotStored : NotStored (bucket_at t g).key (free_bucket g t)
  free_bucket-NotStored j w =
      let (ne, same) = freed_bucket j w in
      let w' = sym (ap (λ (b : Bucket). is_valid b.p_state) same) ∙ w in
      let apart = keys_apart j w' ne in
      rw same (elim (Bool-cases (bytes_eq (bucket_at t j).key (bucket_at t g).key)) [
        | inl e ↦
            let eq = bytes_eq-eq (bucket_at t j).key (bucket_at t g).key e in
            let again : bytes_eq (bucket_at t g).key (bucket_at t j).key ≡ true =
              rw eq (bytes_eq_refl (bucket_at t g).key) in
            absurd (ground arith)
        | inr e ↦ e
      ])
