-- ===== src/Serial/Persist/Sizes.antt =====
-- The pages that flush_metadata writes and the buffer that it writes from.
use linux_kernel_programming.Prelude.{ℕ, ◌+◌, ◌-◌, ◌*◌, ◌/◌, ◌%◌, ◌<◌, ◌≡◌, arith}
use linux_kernel_programming.Serial.Persist.{meta_sizes}

-- The metadata fits the buffer of flush_metadata, but the blocks it is written to have more pages than the
-- buffer, always: the last pages are read behind the end of the buffer.
pub meta_sizes-beyond :
    (metadata_size page_size pages_per_block : ℕ)
    → 0 < page_size
    → 1 < pages_per_block
    → let m = meta_sizes metadata_size page_size pages_per_block in
      (metadata_size < page_size * m.nb_meta_pages)
      × (m.nb_meta_pages < m.nb_meta_blocks * (pages_per_block - 1))
meta_sizes-beyond size page ppb p q =
    (rounded size page p, rounded' (size / page + 1) (ppb - 1) (omega (arith, q)))
  where
    rounded : (n d : ℕ) → 0 < d → n < d * (n / d + 1)
    rounded n d h =
        let e : n / d * d + n % d ≡ n = omega arith in
        let l : n % d < d = omega arith in
        let m : d * (n / d + 1) ≡ n / d * d + d = omega arith in omega arith

    rounded' : (n d : ℕ) → 0 < d → n < (n / d + 1) * d
    rounded' n d h =
        let e : n / d * d + n % d ≡ n = omega arith in
        let l : n % d < d = omega arith in
        let m : (n / d + 1) * d ≡ n / d * d + d = omega arith in omega arith
