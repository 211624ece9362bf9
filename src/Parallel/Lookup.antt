-- ===== src/Parallel/Lookup.antt =====
-- Lookups in a store of p6/prototype-parallel/kernel/core.c whose table holds nothing.
use linux_kernel_programming.Prelude.{ℕ, ◌<◌, ◌≡◌, ◌≢◌, refl, sym, ◌∙◌, false, if_false, List, []}
use linux_kernel_programming.Prelude.Int.{ℤ, negsuc}
use linux_kernel_programming.Vanilla.{Mtd}
use linux_kernel_programming.Serial.HashTable.{
  Bucket, SearchResult, found, probed_all, absent, bucket_at, is_valid,
}
use linux_kernel_programming.Serial.HashTable.Lookup.{hash_search-found}
use linux_kernel_programming.Parallel.{Store, done, and_then, with_lock, get_at, get_keyval}
use linux_kernel_programming.Parallel.HashTable.{hash_search, hash_table_serial}

-- No bucket of the table is in use.
abbrev pub NoneValid : List Bucket → Type 0
NoneValid t = (j : ℕ) → is_valid (bucket_at t j).p_state ≡ false

module _ {F : Type 0} (mtd : Mtd F) where
  -- A lookup in a store whose table holds nothing.
  pub get_keyval-none :
      (key : List ℕ) (s : Store F)
      → 0 < s.hash_size
      → s.erase_lock ≡ false
      → NoneValid s.hashtable
      → get_keyval mtd key s ≡ done ((negsuc 0, []), with_lock false s)
  unfolding get_keyval
  get_keyval-none key s some_bucket free h =
      if_false s.erase_lock _ _ free
      ∙ missing (hash_search s.hash_size key s.hashtable) (λ j e.
        let (_, same) = hash_table_serial s.hash_size key 0 s.hashtable some_bucket in
        let (_, v, _) =
          hash_search-found s.hash_size key j s.hashtable some_bucket (sym same ∙ e) in
        let v' = h j in absurd cc)
    where
      missing :
          (r : SearchResult)
          → ((j : ℕ) → r ≢ found j)
          → and_then {B = (ℤ × List ℕ) × Store F}
              (get_at mtd key r s)
              (λ r. done (r, with_lock false s))
            ≡ done ((negsuc 0, []), with_lock false s)
      missing (found j) n = absurd (n j refl)
      missing probed_all n = unfold get_at and_then in refl
      missing absent n = unfold get_at and_then in refl
