-- ===== src/Serial/Set/Few.antt =====
-- A couple that is stored adds at most one invalid page to a block.
use linux_kernel_programming.Prelude.{
  ℕ, zero, suc, ◌+◌, ◌*◌, ◌/◌, ◌%◌, ◌<◌, ◌≡◌, Bool, true, false, Option, none, some, List, [], ◌∷◌,
  arith, set, replicate, if◌then◌else◌, ltb, Bool-cases, inl, inr,
}
use linux_kernel_programming.Prelude.Int.{ℤ, pos, negsuc}
use linux_kernel_programming.Prelude.Words.{u64_mod}
use linux_kernel_programming.Vanilla.{Mtd}
use linux_kernel_programming.Serial.HashTable.{
  SearchResult, found, probed_all, absent, hash_search, bucket_at,
}
use linux_kernel_programming.Serial.Blocks.{BlkInfo, block_at, is_read_only, get_healthy_block}
use linux_kernel_programming.Serial.Flash.{
  Config, check_full, next_offset, write_page, write_hdr, prepare_block, get_next_page, use_block,
}
use linux_kernel_programming.Serial.Store.{Store, invalid_pg}
use linux_kernel_programming.Serial.Insert.{drop_old, list_add, link_page, put_page, store_pair}

-- Every block has less than `n` invalid pages.
abbrev pub FewInvalid : ℕ → List BlkInfo → Type 0
FewInvalid n bs = (j : ℕ) → (block_at bs j).nb_invalid < n

FewInvalid-set :
    (n : ℕ) (bs : List BlkInfo) (i : ℕ) (b : BlkInfo)
    → FewInvalid n bs
    → b.nb_invalid < n
    → FewInvalid n (set bs i b)
FewInvalid-set n [] i b few h j = few j
FewInvalid-set n (x ∷ bs) zero b few h zero = h
FewInvalid-set n (x ∷ bs) zero b few h (suc j) = few (suc j)
FewInvalid-set n (x ∷ bs) (suc i) b few h zero = few zero
FewInvalid-set n (x ∷ bs) (suc i) b few h (suc j) = FewInvalid-set n bs i b (λ k. few (suc k)) h j

module _ {F : Type 0} (mtd : Mtd F) (n : ℕ) where
  check_full-FewInvalid :
      (c : Config F) → FewInvalid n c.blocks → FewInvalid n (check_full c).1.blocks
  unfolding check_full
  check_full-FewInvalid c few = elim (Bool-cases (is_read_only c.pages_per_block c.blocks)) [
    | inl e ↦ rw e few
    | inr e ↦ rw e few
  ]

  write_page-FewInvalid :
      (i : ℕ) (buf : List ℕ) (c : Config F)
      → FewInvalid n c.blocks
      → FewInvalid n (write_page mtd i buf c).1.blocks
  unfolding write_page
  write_page-FewInvalid i buf c few =
      by_driver c.read_only (mtd.mtd_write (i * c.page_size % u64_mod) buf c.flash)
    where
      by_driver :
          (r : Bool) (w : Bool × F)
          → FewInvalid n
              (if r
                then (negsuc 0, c)
                else if w.0
                then check_full (next_offset (i / c.pages_per_block) (record c { flash = w.1 }))
                else (negsuc 1, record c { flash = w.1 })).1.blocks
      by_driver true w = few
      by_driver false (true, f) =
          check_full-FewInvalid (next_offset (i / c.pages_per_block) (record c { flash = f }))
            (FewInvalid-set n c.blocks (i / c.pages_per_block) _ few (few (i / c.pages_per_block)))
      by_driver false (false, f) = few

  use_block-FewInvalid :
      (i : ℕ) (c : Config F) → FewInvalid n c.blocks → FewInvalid n (use_block i c).blocks
  use_block-FewInvalid i c few = FewInvalid-set n c.blocks i _ few (few i)

  get_next_page-FewInvalid :
      (c : Config F) → FewInvalid n c.blocks → FewInvalid n (get_next_page mtd c).1.blocks
  unfolding get_next_page prepare_block write_hdr
  get_next_page-FewInvalid c few = by_block (get_healthy_block c.pages_per_block c.blocks)
    where
      by_block : (b : ℤ) → FewInvalid n (prepare_block mtd b c).1.blocks
      by_block (negsuc k) = few
      by_block (pos b) = elim (Bool-cases (ltb (block_at c.blocks b).current_page_offset 1)) [
        | inl e ↦
            let pg_index = b * c.pages_per_block + (block_at c.blocks b).current_page_offset in
            rw e (
              use_block-FewInvalid (pg_index / c.pages_per_block)
                (write_page mtd pg_index (replicate c.page_size 0) (use_block b c)).1
                (write_page-FewInvalid pg_index (replicate c.page_size 0) (use_block b c)
                  (use_block-FewInvalid b c few)))
        | inr e ↦ rw e few
      ]

  put_page-FewInvalid :
      (key val : List ℕ) (b : ℤ) (s : Store F) (ret : ℤ) (s' : Store F)
      → FewInvalid n s.config.blocks
      → put_page mtd key val b s ≡ some (ret, s')
      → FewInvalid n s'.config.blocks
  unfolding put_page link_page
  put_page-FewInvalid key val (negsuc k) s ret s' few e = absurd cc
  put_page-FewInvalid key val (pos b) s ret s' few e =
      linked _ _ _ (write_page-FewInvalid _ _ s.config few) e
    where
      linked :
          (g : Option ℕ) (r : ℤ) (s₁ : Store F)
          → FewInvalid n s₁.config.blocks
          → link_page b g (r, s₁) ≡ some (ret, s')
          → FewInvalid n s'.config.blocks
      linked none r s₁ few e = absurd cc
      linked (some g) r s₁ few e = let q : list_add b g s₁ ≡ s' = cc in rw (← q) few

drop_old-FewInvalid :
    {F : Type 0} (n : ℕ) (r : SearchResult) (s : Store F)
    → FewInvalid n s.config.blocks
    → FewInvalid (suc n) (drop_old r s).config.blocks
unfolding drop_old invalid_pg
drop_old-FewInvalid n (found g) s few =
    let i = (bucket_at s.hashtable g).index / s.config.pages_per_block in
    let h = few i in
    FewInvalid-set (suc n) s.config.blocks i _ (λ j. let l = few j in omega arith) (omega arith)
drop_old-FewInvalid n probed_all s few = λ j. let l = few j in omega arith
drop_old-FewInvalid n absent s few = λ j. let l = few j in omega arith

pub store_pair-FewInvalid :
    {F : Type 0} (mtd : Mtd F) (key val : List ℕ) (s : Store F) (ret : ℤ) (s' : Store F) (n : ℕ)
    → FewInvalid n s.config.blocks
    → store_pair mtd key val s ≡ some (ret, s')
    → FewInvalid (suc n) s'.config.blocks
unfolding store_pair
store_pair-FewInvalid mtd key val s ret s' n few e =
    put_page-FewInvalid mtd (suc n) key val _ _ ret s'
      (get_next_page-FewInvalid mtd (suc n) _
        (drop_old-FewInvalid n (hash_search s.hash_size key s.hashtable) s few))
      e
