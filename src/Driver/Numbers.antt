-- ===== src/Driver/Numbers.antt =====
-- get_independant_num of p2/driver.c. The array `g_rand_int_arry` is a list, in which -1 is an empty place; the
-- numbers that get_random_bytes gives are a function of how many were drawn before.
pub mod Distinct
use linux_kernel_programming.Prelude.{
  ℕ, zero, suc, ◌+◌, ◌*◌, ◌%◌, Bool, true, false, ◌||◌, Option, none, some, List, [], ◌∷◌, ltb,
  ◌==◌, if◌then◌else◌, set, take,
}
use linux_kernel_programming.Prelude.Int.{ℤ, pos, negsuc}

-- `a != -1`
abbrev pub is_taken : ℤ → Bool
is_taken (negsuc zero) = false
is_taken _ = true

-- The first loop: the first empty place, or the length of the array.
unfoldable pub first_empty : List ℤ → ℕ
first_empty [] = 0
first_empty (a ∷ arr) = let next = suc (first_empty arr) in if is_taken a then next else 0

-- `abs(i % m)`
abbrev pub abs_mod : ℤ → ℕ → ℕ
abs_mod (pos i) m = i % m
abs_mod (negsuc i) m = (i + 1) % m

abbrev pub is_number : ℕ → ℤ → Bool
is_number x (pos y) = y == x
is_number x (negsuc n) = false

-- The loop that looks for the number among the places that it is given.
unfoldable pub is_drawn : ℕ → List ℤ → Bool
is_drawn x [] = false
is_drawn x (a ∷ arr) = is_number x a || is_drawn x arr

-- How a call ends: with a number, the array and the count of draws; in a write behind the array; or not, with
-- the fuel.
pub data Drawn : Type 0 where
  drawn : (rand_int : ℕ) (arr : List ℤ) (draws : ℕ) → Drawn
  outside spins : Drawn

module _ (random : ℕ → ℤ) (dstruct_size : ℕ) where
  abbrev pub rand_at : ℕ → ℕ
  rand_at p = abs_mod (random p) (dstruct_size * 2)

  -- The draws from number `p` on, until one is not among `places`; `none` where the fuel runs out.
  unfoldable pub retry : ℕ → List ℤ → ℕ → Option (ℕ × ℕ)
  retry zero places p = none
  retry (suc fuel) places p =
      let again = retry fuel places (p + 1) in
      if is_drawn (rand_at p) places then again else some (rand_at p, p + 1)

  abbrev pub store_number : ℕ → List ℤ → Option (ℕ × ℕ) → Drawn
  store_number cnt arr none = spins
  store_number cnt arr (some (x, p)) = drawn x (set arr cnt (pos x)) p

  -- Without an empty place the first loop ends behind the array.
  unfoldable pub get_independant_num : ℕ → List ℤ → ℕ → Drawn
  unfolding first_empty retry
  get_independant_num fuel arr p =
      let cnt = first_empty arr in
      let stored = store_number cnt arr (retry fuel (take (cnt + 1) arr) p) in
      if ltb cnt (dstruct_size + 1) then stored else outside
