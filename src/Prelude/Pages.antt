-- ===== src/Prelude/Pages.antt =====
-- Page numbers: page `o` of block `b` is `b * w + o`, where a block has `w` pages.
use linux_kernel_programming.Prelude.{
  ℕ, ◌+◌, ◌*◌, ◌/◌, ◌%◌, ◌≤◌, ◌<◌, ◌≡◌, ◌≢◌, ◌⊎◌, ap, sym, arith, inl, inr, dec_lt,
}

pub page-lt : (b j n w : ℕ) → b < n → j < w → b * w + j < n * w
page-lt b j n w h k = grind arith

pub page_end : (p n size : ℕ) → p < n → p * size + size ≤ n * size
page_end p n size h = grind arith

pub page_injective :
    (b j b' j' w : ℕ) → j < w → j' < w → b * w + j ≡ b' * w + j' → (b ≡ b') × (j ≡ j')
page_injective b j b' j' w h h' e = elim (dec_lt b b') [
  | yes l ↦ absurd (omega (arith, page_end b b' w l))
  | no l ↦ elim (dec_lt b' b) [
    | yes m ↦ absurd (omega (arith, page_end b' b w m))
    | no m ↦ let s : b ≡ b' = omega arith in let m = ap (λ x. x * w) s in (s, omega arith)
  ]
]

pub pages_apart :
    (p q size : ℕ) → p ≢ q → (p * size + size ≤ q * size) ⊎ (q * size + size ≤ p * size)
pages_apart p q size ne = elim (dec_lt p q) [
  | yes l ↦ inl (page_end p q size l)
  | no l ↦ inr (page_end q p size (omega arith))
]

pub div_page : (b o w : ℕ) → o < w → ((b * w + o) / w ≡ b) × ((b * w + o) % w ≡ o)
div_page b o w h =
    let x = b * w + o in
    let (l, r) = page_injective b o (x / w) (x % w) w h (omega arith) (omega arith) in
    (sym l, sym r)
