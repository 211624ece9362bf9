-- ===== src/Serial/Store/Freed.antt =====
-- What a deletion frees.
use linux_kernel_programming.Prelude.{
  ℕ, ◌<◌, ◌≡◌, ◌≢◌, refl, sym, ap, ◌∙◌, true, false, List, [], arith, length, set, get_or-set_self,
}
use linux_kernel_programming.Prelude.Int.{pos}
use linux_kernel_programming.Serial.HashTable.{
  Bucket, bucket_at, is_valid, pg_free, found, hash_search,
}
use linux_kernel_programming.Serial.HashTable.Lookup.{hash_search-found}
use linux_kernel_programming.Serial.Store.{Store, in_used_block, invalid_pg, delete_at, del_key}

module _ {F : Type 0} (s : Store F) (key : List ℕ) (g : ℕ) where
  -- If hash_search finds the key in a bucket whose page lies in a used block, del_key returns that page.
  -- After it no search, for any key, ends at that bucket.
  pub del_key-freed :
      length s.hashtable ≡ s.hash_size
      → 0 < s.hash_size
      → hash_search s.hash_size key s.hashtable ≡ found g
      → in_used_block s (bucket_at s.hashtable g).index ≡ true
      → let (ret, s') = del_key key s in
        (ret ≡ pos (bucket_at s.hashtable g).index)
        × ((other : List ℕ) → hash_search s'.hash_size other s'.hashtable ≢ found g)
  unfolding del_key delete_at invalid_pg
  del_key-freed sized some_bucket search used =
      let (inside, valid, same) =
        hash_search-found s.hash_size key g s.hashtable some_bucket search in
      rw (search, used, valid)
        (
          refl,
          λ other again.
              let (_, valid', _) =
                hash_search-found s.hash_size other g (set s.hashtable g freed_bucket) some_bucket
                  again in
              let freed =
                get_or-set_self s.hashtable g freed_bucket (bucket_at [] 0)
                  (omega (arith, inside, sized)) in
              let impossible : false ≡ true =
                sym (ap (λ (b : Bucket). is_valid b.p_state) freed) ∙ valid' in
              absurd (ground arith),
        )
    where
      freed_bucket : Bucket
      freed_bucket = record (bucket_at s.hashtable g) { p_state = pg_free }
