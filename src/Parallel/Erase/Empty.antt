-- ===== src/Parallel/Erase/Empty.antt =====
-- After a format no key is found.
use linux_kernel_programming.Prelude.{
  ℕ, ◌*◌, ◌%◌, ◌<◌, ◌≡◌, refl, Bool, false, List, [], length, if◌then◌else◌,
}
use linux_kernel_programming.Prelude.Int.{pos, negsuc}
use linux_kernel_programming.Prelude.Words.{u64_mod}
use linux_kernel_programming.Vanilla.{Mtd, erase_done}
use linux_kernel_programming.Serial.Format.Empty.{none_valid}
use linux_kernel_programming.Parallel.{Store, done, hangs, with_lock, get_keyval}
use linux_kernel_programming.Parallel.Lookup.{get_keyval-none}
use linux_kernel_programming.Parallel.Erase.{format, format_with, reset_store}

module _ {F : Type 0} (mtd : Mtd F) where
  get_keyval-fresh :
      (key : List ℕ) (s : Store F)
      → 0 < s.hash_size
      → get_keyval mtd key (with_lock false (reset_store s))
        ≡ done ((negsuc 0, []), with_lock false (reset_store s))
  unfolding reset_store
  get_keyval-fresh key s some_bucket =
      get_keyval-none mtd key (with_lock false (reset_store s)) some_bucket refl
        (none_valid s.hashtable)

  -- With the lock free, a format that the driver carries out returns 0 with the lock free and the store writable, and
  -- afterwards get_keyval returns -1 for whatever key, in a table with a bucket at least.
  pub parallel_format-empty :
      (s : Store F) (f' : F) (key : List ℕ)
      → s.erase_lock ≡ false
      → 0 < s.hash_size
      → mtd.mtd_erase 0 (s.block_size * length s.blocks % u64_mod) s.flash ≡ (erase_done, f')
      → (s' : Store F) × (format mtd s ≡ done (pos 0, s'))
        × (s'.read_only ≡ false)
        × (s'.erase_lock ≡ false)
        × (get_keyval mtd key s' ≡ done ((negsuc 0, []), s'))
  parallel_format-empty s f' key free some_bucket e =
      let t = record s { flash = f' } in
      (
        with_lock false (reset_store t),
        unfold format in by_lock s.erase_lock free,
        unfold reset_store in refl,
        refl,
        get_keyval-fresh key t some_bucket,
      )
    where
      carried_out :
          format_with (mtd.mtd_erase 0 (s.block_size * length s.blocks % u64_mod) s.flash) s
          ≡ done (pos 0, with_lock false (reset_store (record s { flash = f' })))
      carried_out = unfold format_with in rw e

      by_lock :
          (l : Bool)
          → l ≡ false
          → (if l
              then hangs
              else format_with
                  (mtd.mtd_erase 0 (s.block_size * length s.blocks % u64_mod) s.flash)
                  s)
            ≡ done (pos 0, with_lock false (reset_store (record s { flash = f' })))
      by_lock l q = rw q carried_out
