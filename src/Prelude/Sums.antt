-- ===== src/Prelude/Sums.antt =====
-- Sums and occurrences over a list of numbers.
use linux_kernel_programming.Prelude.{
  ℕ, ◌+◌, ◌≡◌, List, [], ◌∷◌, ◌++◌, arith, ◌<◌, ◌≤◌, Bool-cases, inl, inr, ◌==◌, if◌then◌else◌,
}

-- The sum of `f x` over the list.
abbrev pub sum : (ℕ → ℕ) → List ℕ → ℕ
sum f [] = 0
sum f (x ∷ xs) = f x + sum f xs

pub sum-append : (f : ℕ → ℕ) (xs ys : List ℕ) → sum f (xs ++ ys) ≡ sum f xs + sum f ys
sum-append f [] ys = omega arith
sum-append f (x ∷ xs) ys = omega (arith, sum-append f xs ys)

-- How often `a` occurs in the list.
abbrev pub count : ℕ → List ℕ → ℕ
count a [] = 0
count a (x ∷ xs) = (if x == a then 1 else 0) + count a xs

pub count-append :
    (p : ℕ) (before after : List ℕ) → count p (before ++ after) ≡ count p before + count p after
count-append p [] after = ground arith
count-append p (q ∷ before) after = rw (count-append p before after) (ground arith)

-- The list without the first `a`.
abbrev pub erase : ℕ → List ℕ → List ℕ
erase a [] = []
erase a (x ∷ xs) = if x == a then xs else x ∷ erase a xs

pub sum-erase :
    (f : ℕ → ℕ) (a : ℕ) (xs : List ℕ) → 0 < count a xs → sum f (erase a xs) + f a ≡ sum f xs
sum-erase f a [] h = absurd (omega arith)
sum-erase f a (x ∷ xs) h = elim (Bool-cases (x == a)) [
  | inl e ↦ let e' : x ≡ a = ground arith in rw e' (ground arith)
  | inr e ↦ let h' : 0 < count a xs = ground arith in rw e (omega (arith, sum-erase f a xs h'))
]

-- Removing the element that was appended gives the list back, if it was not there before.
pub erase-append_new : (a : ℕ) (xs : List ℕ) → count a xs ≡ 0 → erase a (xs ++ a ∷ []) ≡ xs
erase-append_new a [] h = ground arith
erase-append_new a (x ∷ xs) h = ground (arith, erase-append_new a xs)

pub sum-le-count : (f : ℕ → ℕ) (a : ℕ) (xs : List ℕ) → 0 < count a xs → f a ≤ sum f xs
sum-le-count f a xs h = omega (arith, sum-erase f a xs h)
