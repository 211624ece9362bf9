-- ===== src/Prelude/Bytes.antt =====
-- Byte strings of C as lists of bytes without the terminating NUL, and buffers.
use linux_kernel_programming.Prelude.{
  ℕ, zero, suc, ◌+◌, ◌-◌, ◌*◌, ◌/◌, ◌%◌, ◌<◌, ◌≡◌, refl, ap, Bool, true, false, ◌&&◌, List, [], ◌∷◌,
  ◌++◌, arith, ◌==◌, length, take, drop, replicate, ◌∙◌,
}

-- `strcmp(a, b) == 0`
unfoldable pub bytes_eq : List ℕ → List ℕ → Bool
bytes_eq [] [] = true
bytes_eq (a ∷ xs) (b ∷ ys) = a == b && bytes_eq xs ys
bytes_eq _ _ = false

pub bytes_eq_refl : (a : List ℕ) → bytes_eq a a ≡ true
unfolding bytes_eq
bytes_eq_refl [] = refl
bytes_eq_refl (a ∷ xs) = ground (arith, bytes_eq_refl xs)

pub bytes_eq-eq : (a b : List ℕ) → bytes_eq a b ≡ true → a ≡ b
unfolding bytes_eq
bytes_eq-eq [] [] h = refl
bytes_eq-eq [] (b ∷ bs) h = cc
bytes_eq-eq (a ∷ xs) [] h = cc
bytes_eq-eq (a ∷ xs) (b ∷ ys) h = ground (arith, bytes_eq-eq xs ys)

-- The four bytes of an `int`, lowest first, and the number that bytes stand for.
abbrev pub le32 : ℕ → List ℕ
le32 n = n % 256 ∷ (n / 256 % 256) ∷ (n / 65536 % 256) ∷ (n / 16777216 % 256) ∷ []

abbrev pub le_value : List ℕ → ℕ
le_value [] = 0
le_value (b ∷ bs) = b + 256 * le_value bs

pub le_value-le32 : (n : ℕ) → n < 4294967296 → le_value (le32 n) ≡ n
le_value-le32 n h = omega arith

-- `memcpy(buf + off, src, length src)`
unfoldable pub memcpy : List ℕ → ℕ → List ℕ → List ℕ
memcpy buf off src = take off buf ++ (src ++ drop (off + length src) buf)

-- `strncmp(buf, key, strlen(key)) == 0`, where the key holds no NUL.
unfoldable pub starts_with : List ℕ → List ℕ → Bool
starts_with [] buf = true
starts_with (k ∷ ks) [] = false
starts_with (k ∷ ks) (b ∷ bs) = k == b && starts_with ks bs

pub starts_with-append : (key rest : List ℕ) → starts_with key (key ++ rest) ≡ true
unfolding starts_with
starts_with-append [] rest = refl
starts_with-append (k ∷ ks) rest = ground (arith, starts_with-append ks rest)

pub take-append_self : (xs ys : List ℕ) → take (length xs) (xs ++ ys) ≡ xs
take-append_self [] ys = refl
take-append_self (x ∷ xs) ys = ap (λ l. x ∷ l) (take-append_self xs ys)

pub drop-append_self : (xs ys : List ℕ) → drop (length xs) (xs ++ ys) ≡ ys
drop-append_self [] ys = refl
drop-append_self (x ∷ xs) ys = drop-append_self xs ys

drop-append_add : (xs ys : List ℕ) (n : ℕ) → drop (length xs + n) (xs ++ ys) ≡ drop n ys
drop-append_add [] ys n = ap (λ m. drop m ys) (omega arith)
drop-append_add (x ∷ xs) ys n =
    let e : suc (length xs) + n ≡ suc (length xs + n) = omega arith in
    rw e (drop-append_add xs ys n)

pub memcpy-append :
    (pre rest src : List ℕ)
    → memcpy (pre ++ rest) (length pre) src ≡ pre ++ (src ++ drop (length src) rest)
unfolding memcpy
memcpy-append pre rest src = rw (take-append_self pre rest, drop-append_add pre rest (length src))

pub drop-replicate : (m n a : ℕ) → drop m (replicate n a) ≡ replicate (n - m) a
drop-replicate zero n a = let e : n ≡ n - 0 = omega arith in ap (λ k. replicate k a) e
drop-replicate (suc m) zero a = let e : 0 ≡ 0 - suc m = omega arith in ap (λ k. replicate k a) e
drop-replicate (suc m) (suc n) a =
    let e : n - m ≡ suc n - suc m = omega arith in drop-replicate m n a ∙ ap (λ k. replicate k a) e
