-- ===== src/Vanilla/ByteFlash.antt =====
-- A driver for a flash that holds a byte at each address: it accepts each write, keeps what is written, and erases to
-- 255.
use linux_kernel_programming.Prelude.{
  ℕ, zero, suc, ◌+◌, ◌≤◌, ◌<◌, ◌≡◌, ◌⊎◌, ◌∙◌, refl, ap, ap₂, sym, Bool, true, false, List, [], ◌∷◌,
  arith, ◌==◌, if◌then◌else◌, length, some,
}
use linux_kernel_programming.Vanilla.{Mtd, EraseResult}
use linux_kernel_programming.Vanilla.Roundtrip.{IsMtd}

-- A flash that holds a byte at each address.
abbrev pub Flash : Type 0
Flash = ℕ → ℕ

unfoldable pub bytes : Flash → ℕ → ℕ → List ℕ
bytes f a zero = []
bytes f a (suc n) = f a ∷ bytes f (a + 1) n

unfoldable pub overlay : ℕ → List ℕ → Flash → Flash
overlay addr [] f a = f a
overlay addr (x ∷ xs) f a = if a == addr then x else overlay (addr + 1) xs f a

bytes_congr :
    (f g : Flash) (a n : ℕ) → ((i : ℕ) → a ≤ i → i < a + n → f i ≡ g i) → bytes f a n ≡ bytes g a n
unfolding bytes
bytes_congr f g a zero h = refl
bytes_congr f g a (suc n) h =
    ap₂ ◌∷◌ (h a (omega arith) (omega arith))
      (bytes_congr f g (a + 1) n (λ i l u. h i (omega arith) (omega arith)))

overlay_outside :
    (addr : ℕ) (buf : List ℕ) (f : Flash) (i : ℕ)
    → (i < addr) ⊎ (addr + length buf ≤ i)
    → overlay addr buf f i ≡ f i
unfolding overlay
overlay_outside addr [] f i h = refl
overlay_outside addr (x ∷ xs) f i h =
    let e : (i == addr) ≡ false = ground arith in
    rw e (overlay_outside (addr + 1) xs f i (omega arith))

bytes-overlay :
    (addr : ℕ) (buf : List ℕ) (f : Flash) → bytes (overlay addr buf f) addr (length buf) ≡ buf
unfolding bytes overlay
bytes-overlay addr [] f = refl
bytes-overlay addr (x ∷ xs) f =
    let e : (addr == addr) ≡ true = ground arith in
    ap₂ ◌∷◌ (rw e) (
      bytes_congr _ (overlay (addr + 1) xs f) (addr + 1) (length xs) (λ i l u. later i l)
      ∙ bytes-overlay (addr + 1) xs f)
  where
    later :
        (i : ℕ)
        → addr + 1 ≤ i
        → (if i == addr then x else overlay (addr + 1) xs f i) ≡ overlay (addr + 1) xs f i
    later i l = let e : (i == addr) ≡ false = ground arith in rw e

abbrev pub driver : EraseResult → Mtd Flash
driver r = record {
  mtd_read = λ a len f. some (bytes f a len);
  mtd_write = λ a buf f. (true, overlay a buf f);
  mtd_erase = λ a len f. (r, λ i. 255);
}

pub driver-IsMtd : (r : EraseResult) → IsMtd (driver r)
driver-IsMtd r = record {
  read_written = λ addr buf f f' w. ap some (
      ap (λ (g : Flash). bytes g addr (length buf)) (sym (ap (λ (p : Bool × Flash). p.1) w))
      ∙ bytes-overlay addr buf f);
  read_other = λ addr buf f f' a len w apart. ap some (
      ap (λ (g : Flash). bytes g a len) (sym (ap (λ (p : Bool × Flash). p.1) w))
      ∙ bytes_congr (overlay addr buf f) f a len
          (λ i l u. overlay_outside addr buf f i (side addr buf a len i l u apart)));
}
  where
    side :
        (addr : ℕ) (buf : List ℕ) (a len i : ℕ)
        → a ≤ i
        → i < a + len
        → (a + len ≤ addr) ⊎ (addr + length buf ≤ a)
        → (i < addr) ⊎ (addr + length buf ≤ i)
    side addr buf a len i l u apart = omega arith
