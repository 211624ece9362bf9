-- ===== src/Serial/Flash/Extends.antt =====
-- Writing: a page that is in use stays as it is, and blocks only fill up.
use linux_kernel_programming.Prelude.{
  ℕ, ◌+◌, ◌*◌, ◌/◌, ◌%◌, ◌≤◌, ◌<◌, ◌≡◌, inl, inr, refl, ap, ◌∙◌, true, List, arith, ◌==◌,
  if◌then◌else◌, Bool-cases, length, set, length-set, get_or-set_self, get_or-set_ne,
}
use linux_kernel_programming.Prelude.Words.{u64_mod}
use linux_kernel_programming.Vanilla.{Mtd}
use linux_kernel_programming.Serial.Blocks.{BlkInfo, is_used, block_at}
use linux_kernel_programming.Serial.Flash.{Config, read_page}

-- A driver that accepts every write.
abbrev pub Accepts : {F : Type 0} → Mtd F → Type 0
Accepts {F} mtd =
    (addr : ℕ) (buf : List ℕ) (f : F) → (f' : F) × (mtd.mtd_write addr buf f ≡ (true, f'))

-- The page that is written next in block `b`.
abbrev pub next_of : {F : Type 0} → Config F → ℕ → ℕ
next_of c b = b * c.pages_per_block + (block_at c.blocks b).current_page_offset

pub record IsFlash {F : Type 0} (c : Config F) : Type 0 where
  pub addressable : length c.blocks * c.pages_per_block * c.page_size < u64_mod
  pub some_page : 0 < c.pages_per_block

-- A block with pages before and behind its offset is a used one.
abbrev pub IsOpened : {F : Type 0} → Config F → Type 0
IsOpened c =
    (b : ℕ)
    → b < length c.blocks
    → 0 < (block_at c.blocks b).current_page_offset
    → (block_at c.blocks b).current_page_offset < c.pages_per_block
    → is_used (block_at c.blocks b).state ≡ true

-- Page `q` is written: it lies in a block of the flash, before the offset of the block.
pub record InUse {F : Type 0} (c : Config F) (q : ℕ) : Type 0 where
  pub block_in : q / c.pages_per_block < length c.blocks
  pub below :
      q % c.pages_per_block < (block_at c.blocks (q / c.pages_per_block)).current_page_offset
  pub used : is_used (block_at c.blocks (q / c.pages_per_block)).state ≡ true

-- `c'` is `c` after writes.
pub record Extends {F : Type 0} (mtd : Mtd F) (c c' : Config F) : Type 0 where
  pub page_size : c'.page_size ≡ c.page_size
  pub pages_per_block : c'.pages_per_block ≡ c.pages_per_block
  pub count : length c'.blocks ≡ length c.blocks
  pub offset :
      (b : ℕ)
      → (block_at c.blocks b).current_page_offset ≤ (block_at c'.blocks b).current_page_offset
  pub used :
      (b : ℕ)
      → is_used (block_at c.blocks b).state ≡ true
      → is_used (block_at c'.blocks b).state ≡ true
  pub same :
      (q : ℕ)
      → q / c.pages_per_block < length c.blocks
      → q % c.pages_per_block < (block_at c.blocks (q / c.pages_per_block)).current_page_offset
      → read_page mtd q c' ≡ read_page mtd q c

pub block_at-set :
    (bs : List BlkInfo) (i j : ℕ) (b : BlkInfo)
    → i < length bs
    → block_at (set bs i b) j ≡ (if i == j then b else block_at bs j)
block_at-set bs i j b h = elim (Bool-cases (i == j)) [
  | inl e ↦ let e' : i ≡ j = ground arith in rw (e, ← e') (get_or-set_self bs i b _ h)
  | inr e ↦ rw e (get_or-set_ne bs i j b _ (ground arith))
]

module _ {F : Type 0} (mtd : Mtd F) where
  pub Extends-refl : (c : Config F) → Extends mtd c c
  Extends-refl c = record {
    page_size = refl;
    pages_per_block = refl;
    count = refl;
    offset = λ b. omega arith;
    used = λ b h. h;
    same = λ q h k. refl;
  }

  pub Extends-trans : (a b c : Config F) → Extends mtd a b → Extends mtd b c → Extends mtd a c
  Extends-trans a b c l r = record {
    page_size = r.page_size ∙ l.page_size;
    pages_per_block = r.pages_per_block ∙ l.pages_per_block;
    count = r.count ∙ l.count;
    offset = λ i. omega (arith, l.offset i, r.offset i);
    used = λ i h. r.used i (l.used i h);
    same = λ q h k. r.same q (inside q h) (below q k) ∙ l.same q h k;
  }
    where
      block : (q : ℕ) → q / b.pages_per_block ≡ q / a.pages_per_block
      block q = ap (λ w. q / w) l.pages_per_block

      inside :
          (q : ℕ)
          → q / a.pages_per_block < length a.blocks
          → q / b.pages_per_block < length b.blocks
      inside q h = rw (block q) (omega (arith, h, l.count))

      below :
          (q : ℕ)
          → q % a.pages_per_block < (block_at a.blocks (q / a.pages_per_block)).current_page_offset
          → q % b.pages_per_block < (block_at b.blocks (q / b.pages_per_block)).current_page_offset
      below q k =
          rw (block q, ap (λ w. q % w) l.pages_per_block)
            (omega (arith, k, l.offset (q / a.pages_per_block)))

  pub InUse-Extends : (c c' : Config F) (q : ℕ) → Extends mtd c c' → InUse c q → InUse c' q
  InUse-Extends c c' q x u =
      let block = ap (λ w. q / w) x.pages_per_block in
      record {
        block_in = rw block (omega (arith, u.block_in, x.count));
        below =
            rw (block, ap (λ w. q % w) x.pages_per_block)
              (omega (arith, u.below, x.offset (q / c.pages_per_block)));
        used = rw block (x.used (q / c.pages_per_block) u.used);
      }

  pub IsFlash-Extends : (c c' : Config F) → Extends mtd c c' → IsFlash c → IsFlash c'
  IsFlash-Extends c c' x v = record {
    addressable = rw (x.page_size, x.pages_per_block, x.count) v.addressable;
    some_page = rw x.pages_per_block v.some_page;
  }

  -- A change of the metadata alone.
  pub Extends-set :
      (c : Config F) (i : ℕ) (b : BlkInfo)
      → i < length c.blocks
      → (block_at c.blocks i).current_page_offset ≤ b.current_page_offset
      → (is_used (block_at c.blocks i).state ≡ true → is_used b.state ≡ true)
      → Extends mtd c (record c { blocks = set c.blocks i b })
  unfolding read_page
  Extends-set c i b h o u = record {
    page_size = refl;
    pages_per_block = refl;
    count = length-set c.blocks i b;
    offset = λ j. rw (block_at-set c.blocks i j b h) (elim (Bool-cases (i == j)) [
      | inl e ↦ let e' : i ≡ j = ground arith in rw (e, ← e') o
      | inr e ↦ rw e (omega arith)
    ]);
    used = λ j. rw (block_at-set c.blocks i j b h) (elim (Bool-cases (i == j)) [
      | inl e ↦ let e' : i ≡ j = ground arith in rw (e, ← e') u
      | inr e ↦ rw e (λ w. w)
    ]);
    same = λ q k l. refl;
  }
