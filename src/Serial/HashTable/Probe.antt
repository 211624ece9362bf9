-- ===== src/Serial/HashTable/Probe.antt =====
-- The probe sequence: what hash_add does to the buckets, and where hash_search ends.
use linux_kernel_programming.Prelude.{
  ℕ, zero, suc, ◌+◌, ◌%◌, ◌<◌, ◌≡◌, refl, ◌⊎◌, inl, inr, true, false, List, arith, ◌==◌, Bool-cases,
  if◌then◌else◌, length, set, length-set, get_or-set_self, get_or-set_ne, ◌∙◌,
}
use linux_kernel_programming.Serial.HashTable.{
  Bucket, is_valid, no_bucket, bucket_at, mark, place, add_loop,
}

-- A bucket that holds a key goes on holding it, and stays dirty.
pub record Keeps (b b' : Bucket) : Type 0 where
  pub p_state : is_valid b.p_state ≡ true → is_valid b'.p_state ≡ true
  pub key : is_valid b.p_state ≡ true → b'.key ≡ b.key
  pub index : is_valid b.p_state ≡ true → b'.index ≡ b.index
  pub dirty : b.dirty ≡ true → b'.dirty ≡ true

Keeps-refl : (b : Bucket) → Keeps b b
Keeps-refl b = record { p_state = λ h. h; key = λ h. refl; index = λ h. refl; dirty = λ h. h }

Keeps-trans : (a b c : Bucket) → Keeps a b → Keeps b c → Keeps a c
Keeps-trans a b c l r = record {
  p_state = λ h. r.p_state (l.p_state h);
  key = λ h. r.key (l.p_state h) ∙ l.key h;
  index = λ h. r.index (l.p_state h) ∙ l.index h;
  dirty = λ h. r.dirty (l.dirty h);
}

pub bucket_at-set :
    (t : List Bucket) (i j : ℕ) (b : Bucket)
    → i < length t
    → bucket_at (set t i b) j ≡ (if i == j then b else bucket_at t j)
bucket_at-set t i j b h = elim (Bool-cases (i == j)) [
  | inl e ↦ let e' : i ≡ j = ground arith in rw (e, ← e') (get_or-set_self t i b no_bucket h)
  | inr e ↦ rw e (get_or-set_ne t i j b no_bucket (ground arith))
]

set-Keeps :
    (t : List Bucket) (i j : ℕ) (b : Bucket)
    → i < length t
    → Keeps (bucket_at t i) b
    → Keeps (bucket_at t j) (bucket_at (set t i b) j)
set-Keeps t i j b h k = rw (bucket_at-set t i j b h) (elim (Bool-cases (i == j)) [
  | inl e ↦ let e' : i ≡ j = ground arith in rw (e, ← e') k
  | inr e ↦ rw e (Keeps-refl (bucket_at t j))
])

mark-Keeps :
    (t : List Bucket) (i j : ℕ) → i < length t → Keeps (bucket_at t j) (bucket_at (mark i t) j)
mark-Keeps t i j h =
    set-Keeps t i j _ h
      (record { p_state = λ v. v; key = λ v. refl; index = λ v. refl; dirty = λ v. refl })

place-Keeps :
    (key : List ℕ) (index : ℕ) (t : List Bucket) (i j : ℕ)
    → i < length t
    → is_valid (bucket_at t i).p_state ≡ false
    → Keeps (bucket_at t j) (bucket_at (place key index i t) j)
place-Keeps key index t i j h free = set-Keeps t i j _ h (record {
  p_state = λ v. refl;
  key = λ v. absurd (clash v);
  index = λ v. absurd (clash v);
  dirty = λ v. v;
})
  where
    clash : is_valid (bucket_at t i).p_state ≡ true → ⊥
    clash v = cc

pub mark-only :
    (t : List Bucket) (i j : ℕ)
    → i < length t
    → is_valid (bucket_at (mark i t) j).p_state ≡ true
    → is_valid (bucket_at t j).p_state ≡ true
mark-only t i j h = rw (bucket_at-set t i j _ h) (elim (Bool-cases (i == j)) [
  | inl e ↦ let e' : i ≡ j = ground arith in rw (e, ← e') (λ v. v)
  | inr e ↦ rw e (λ v. v)
])

place-only :
    (key : List ℕ) (index : ℕ) (t : List Bucket) (i j : ℕ)
    → i < length t
    → is_valid (bucket_at (place key index i t) j).p_state ≡ true
    → (is_valid (bucket_at t j).p_state ≡ true) ⊎ ((bucket_at (place key index i t) j).key ≡ key)
place-only key index t i j h =
    rw (bucket_at-set t i j _ h)
      (elim (Bool-cases (i == j)) [ inl e ↦ rw e (λ v. inr refl) | inr e ↦ rw e (λ v. inl v) ])

pub next-lt : (i n : ℕ) → i < n → (i + 1) % n < n
next-lt i n h = omega arith

module _ (n : ℕ) (key : List ℕ) (index : ℕ) where
  pub length-add_loop :
      (rounds i : ℕ) (t : List Bucket) → length (add_loop n key index rounds i t).1 ≡ length t
  unfolding add_loop
  length-add_loop zero i t = elim (Bool-cases (is_valid (bucket_at t i).p_state)) [
    | inl e ↦ rw e (length-set t i _)
    | inr e ↦ rw e (length-set t i _)
  ]
  length-add_loop (suc r) i t = elim (Bool-cases (is_valid (bucket_at t i).p_state)) [
    | inl e ↦ rw e (length-add_loop r ((i + 1) % n) (mark i t) ∙ length-set t i _)
    | inr e ↦ rw e (length-set t i _)
  ]

  -- hash_add never loses a stored key, nor changes its page.
  pub add_loop-Keeps :
      (rounds i j : ℕ) (t : List Bucket)
      → length t ≡ n
      → i < n
      → Keeps (bucket_at t j) (bucket_at (add_loop n key index rounds i t).1 j)
  unfolding add_loop
  add_loop-Keeps zero i j t l h = elim (Bool-cases (is_valid (bucket_at t i).p_state)) [
    | inl e ↦ rw e (mark-Keeps t i j (omega arith))
    | inr e ↦ rw e (place-Keeps key index t i j (omega arith) e)
  ]
  add_loop-Keeps (suc r) i j t l h = elim (Bool-cases (is_valid (bucket_at t i).p_state)) [
    | inl e ↦ rw e (
        Keeps-trans _ _ _ (mark-Keeps t i j (omega arith))
          (add_loop-Keeps r ((i + 1) % n) j (mark i t) (length-set t i _ ∙ l) (next-lt i n h)))
    | inr e ↦ rw e (place-Keeps key index t i j (omega arith) e)
  ]

  -- A bucket that holds a key afterwards held one before, or holds the new key.
  pub add_loop-only :
      (rounds i j : ℕ) (t : List Bucket)
      → length t ≡ n
      → i < n
      → is_valid (bucket_at (add_loop n key index rounds i t).1 j).p_state ≡ true
      → (is_valid (bucket_at t j).p_state ≡ true)
        ⊎ ((bucket_at (add_loop n key index rounds i t).1 j).key ≡ key)
  unfolding add_loop
  add_loop-only zero i j t l h = elim (Bool-cases (is_valid (bucket_at t i).p_state)) [
    | inl e ↦ rw e (λ v. inl (mark-only t i j (omega arith) v))
    | inr e ↦ rw e (place-only key index t i j (omega arith))
  ]
  add_loop-only (suc r) i j t l h = elim (Bool-cases (is_valid (bucket_at t i).p_state)) [
    | inl e ↦ rw e (λ v.
        elim (add_loop-only r ((i + 1) % n) j (mark i t) (length-set t i _ ∙ l) (next-lt i n h) v) [
          | inl was ↦ inl (mark-only t i j (omega arith) was)
          | inr new ↦ inr new
        ])
    | inr e ↦ rw e (place-only key index t i j (omega arith))
  ]
