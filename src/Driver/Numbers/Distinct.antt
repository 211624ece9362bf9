-- ===== src/Driver/Numbers/Distinct.antt =====
-- The numbers that get_independant_num draws.
use linux_kernel_programming.Prelude.{
  ℕ, zero, suc, ◌+◌, ◌*◌, ◌≤◌, ◌<◌, ◌≡◌, refl, sym, ap, ◌∙◌, Bool, true, false, ◌||◌, some, List,
  [], ◌∷◌, ◌++◌, arith, ltb, ◌==◌, Bool-cases, inl, inr, set, take, length, replicate,
}
use linux_kernel_programming.Prelude.Int.{ℤ, pos, negsuc}
use linux_kernel_programming.Driver.Tree.Search.{elem}
use linux_kernel_programming.Driver.Numbers.{
  first_empty, is_drawn, drawn, abs_mod, rand_at, retry, get_independant_num,
}

-- The array after the numbers `taken` were drawn, with `k` empty places.
abbrev pub filled : List ℕ → ℕ → List ℤ
filled [] k = replicate k (negsuc 0)
filled (x ∷ xs) k = pos x ∷ filled xs k

first_empty-filled : (xs : List ℕ) (k : ℕ) → first_empty (filled xs (suc k)) ≡ length xs
unfolding first_empty
first_empty-filled [] k = refl
first_empty-filled (x ∷ xs) k = ap suc (first_empty-filled xs k)

is_drawn-filled :
    (y : ℕ) (xs : List ℕ) (k : ℕ)
    → is_drawn y (take (suc (length xs)) (filled xs (suc k))) ≡ elem y xs
unfolding is_drawn
is_drawn-filled y [] k = refl
is_drawn-filled y (x ∷ xs) k = ap (λ b. (x == y) || b) (is_drawn-filled y xs k)

set-filled :
    (xs : List ℕ) (k x : ℕ) → set (filled xs (suc k)) (length xs) (pos x) ≡ filled (xs ++ x ∷ []) k
set-filled [] k x = refl
set-filled (y ∷ xs) k x = ap (λ l. pos y ∷ l) (set-filled xs k x)

abs_mod_bound : (r : ℤ) (m : ℕ) → 0 < m → abs_mod r m < m
abs_mod_bound (pos i) m h = omega arith
abs_mod_bound (negsuc i) m h = omega arith

module _ (random : ℕ → ℤ) (dstruct_size : ℕ) where
  -- Among any `fuel` draws there is a number that differs from `dstruct_size` given ones.
  abbrev pub Yields : ℕ → Type 0
  Yields fuel =
      (p : ℕ) (taken : List ℕ)
      → length taken ≤ dstruct_size
      → (k : ℕ) × (k < fuel) × (elem (rand_at random dstruct_size (p + k)) taken ≡ false)

  retry_total :
      (fuel : ℕ) (places : List ℤ) (p k : ℕ)
      → k < fuel
      → is_drawn (rand_at random dstruct_size (p + k)) places ≡ false
      → (x : ℕ) × (q : ℕ) × (retry random dstruct_size fuel places p ≡ some (x, q))
        × (is_drawn x places ≡ false)
        × (0 < dstruct_size → x < dstruct_size * 2)
  unfolding retry
  retry_total zero places p k h fresh = elim h [ ]
  retry_total (suc fuel) places p k h fresh =
      elim (Bool-cases (is_drawn (rand_at random dstruct_size p) places)) [
        | inr new ↦ (
          rand_at random dstruct_size p,
          p + 1,
          rw new,
          new,
          λ l. abs_mod_bound (random p) (dstruct_size * 2) (omega arith),
        )
        | inl old ↦ later k h fresh old (retry_total fuel places (p + 1))
      ]
    where
      later :
          (k : ℕ)
          → k < suc fuel
          → is_drawn (rand_at random dstruct_size (p + k)) places ≡ false
          → is_drawn (rand_at random dstruct_size p) places ≡ true
          → ((j : ℕ)
              → j < fuel
              → is_drawn (rand_at random dstruct_size (p + 1 + j)) places ≡ false
              → (x : ℕ) × (q : ℕ) × (retry random dstruct_size fuel places (p + 1) ≡ some (x, q))
                × (is_drawn x places ≡ false)
                × (0 < dstruct_size → x < dstruct_size * 2))
          → (x : ℕ) × (q : ℕ) × (retry random dstruct_size (suc fuel) places p ≡ some (x, q))
            × (is_drawn x places ≡ false)
            × (0 < dstruct_size → x < dstruct_size * 2)
      later zero h fresh old rest =
          let e : p + 0 ≡ p = omega arith in let fresh' = rw e at fresh in absurd (clash old fresh')
        where
          clash : {b : Bool} → b ≡ true → b ≡ false → ⊥
          clash s t = cc
      later (suc j) h fresh old rest =
          let e : p + suc j ≡ p + 1 + j = omega arith in
          let (x, q, done, new, small) = rest j (omega arith) (rw e at fresh) in
          (x, q, rw old done, new, small)

  -- With an empty place in the array, and a source that yields a new number among `fuel` draws, get_independant_num returns: a
  -- number below `dstruct_size * 2` that was not drawn before, and the array with it in the first empty place.
  pub get_independant_num-drawn :
      (fuel : ℕ) (taken : List ℕ) (k p : ℕ)
      → Yields fuel
      → 0 < dstruct_size
      → length taken + k ≡ dstruct_size
      → (x : ℕ) × (q : ℕ) × (get_independant_num random dstruct_size fuel (filled taken (suc k)) p
          ≡ drawn x (filled (taken ++ x ∷ []) k) q)
        × (elem x taken ≡ false)
        × (x < dstruct_size * 2)
  unfolding get_independant_num
  get_independant_num-drawn fuel taken k p yields some_place sized =
      let (j, l, fresh) = yields p taken (omega arith) in
      let one : length taken + 1 ≡ suc (length taken) = omega arith in
      let seen = λ (y : ℕ). is_drawn-filled y taken k in
      let (x, q, done, new, small) =
        retry_total fuel (take (suc (length taken)) (filled taken (suc k))) p j l
          (seen (rand_at random dstruct_size (p + j)) ∙ fresh) in
      let within : ltb (length taken) (dstruct_size + 1) ≡ true = ground arith in
      (
        x,
        q,
        rw (first_empty-filled taken k, within, one, done)
            (ap (λ a. drawn x a q) (set-filled taken k x)),
        sym (seen x) ∙ new,
        small some_place,
      )
