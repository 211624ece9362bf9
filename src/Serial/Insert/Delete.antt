-- ===== src/Serial/Insert/Delete.antt =====
-- Deletion in a store that represents a map.
use linux_kernel_programming.Prelude.{
  ℕ, ◌≡◌, ◌≢◌, refl, sym, ap, ◌∙◌, ◌⊎◌, ◌↔◌, inl, inr, true, none, some, List, arith, Bool-cases,
}
use linux_kernel_programming.Prelude.Bytes.{bytes_eq, bytes_eq_refl, bytes_eq-eq}
use linux_kernel_programming.Prelude.Int.{pos, negsuc}
use linux_kernel_programming.Vanilla.{Mtd, not_found}
use linux_kernel_programming.Serial.HashTable as Table
use linux_kernel_programming.Serial.HashTable.{
  Bucket, bucket_at, is_valid, hash, hash_search, hash_add,
}
use linux_kernel_programming.Serial.HashTable.Lookup.{NotStored}
use linux_kernel_programming.Serial.HashTable.Reach.{hash_search_iff}
use linux_kernel_programming.Serial.Store.{Store, delete_at, del_key, get_keyval}
use linux_kernel_programming.Serial.Insert.{drop_old}
use linux_kernel_programming.Serial.Insert.Represents.{
  IsStore, Represents, Map, remove, get_keyval-HoldsPage, get_keyval-absent, search_cases, value_of,
}
use linux_kernel_programming.Serial.Insert.Steps.{Dropped, drop_old-Dropped, drop_old-miss}

pub drop_old-del_key :
    {F : Type 0} (mtd : Mtd F) (s : Store F) (key : List ℕ)
    → IsStore mtd s
    → let r = hash_search s.hash_size key s.hashtable in
      ((del_key key s).1 ≡ drop_old r s)
      × (((g : ℕ) × ((r ≡ Table.found g)
              × ((del_key key s).0 ≡ pos (bucket_at s.hashtable g).index)))
          ⊎ (((g : ℕ) → r ≢ Table.found g) × ((del_key key s).0 ≡ negsuc 1)))
unfolding del_key delete_at
drop_old-del_key mtd s key v = elim (search_cases (hash_search s.hash_size key s.hashtable)) [
  | inl hit ↦
      let (g, search) = hit in
      let (valid, _) = (hash_search_iff s.hash_size s.hashtable key g v.table).0 search in
      rw (search, (v.pages g valid).in_use.used, valid)
        (unfold drop_old in refl, inl (g, (refl, refl)))
  | inr miss ↦ (missed _ miss, inr (miss, missed_result _ miss))
]
  where
    missed :
        (r : Table.SearchResult) → ((g : ℕ) → r ≢ Table.found g) → (delete_at r s).1 ≡ drop_old r s
    missed (Table.found g) miss = absurd (miss g refl)
    missed Table.probed_all miss = unfold drop_old in refl
    missed Table.absent miss = unfold drop_old in refl

    missed_result :
        (r : Table.SearchResult) → ((g : ℕ) → r ≢ Table.found g) → (delete_at r s).0 ≡ negsuc 1
    missed_result (Table.found g) miss = absurd (miss g refl)
    missed_result Table.probed_all miss = refl
    missed_result Table.absent miss = refl

del_key-lookup :
    {F : Type 0} (mtd : Mtd F) (s : Store F) (m : Map) (key : List ℕ)
    → Represents mtd s m
    → let (ret, s') = del_key key s in
      Represents mtd s' (remove key m)
      × ((ret ≡ negsuc 1) ↔ (m key ≡ none))
      × ((ret ≡ negsuc 1) → s' ≡ s)
del_key-lookup mtd s m key r =
    let d = drop_old-Dropped mtd key s r.valid in
    let (same, result) = drop_old-del_key mtd s key r.valid in
    (
      rw same (record { valid = d.valid; lookup = λ k. looked k d }),
      answer result,
      untouched result same,
    )
  where
    gone :
        (s' : Store _)
        → IsStore mtd s'
        → NotStored key s'.hashtable
        → get_keyval mtd key s' ≡ not_found
    gone s' v n = get_keyval-absent mtd s' key (λ j search.
        let (valid, own) = (hash_search_iff s'.hash_size s'.hashtable key j v.table).0 search in
        let again : bytes_eq (bucket_at s'.hashtable j).key key ≡ true =
          rw own (bytes_eq_refl key) in
        let other = n j valid in absurd (ground arith))

    looked :
        (k : List ℕ)
        → Dropped mtd key s (drop_old (hash_search s.hash_size key s.hashtable) s)
        → value_of (get_keyval mtd k (drop_old (hash_search s.hash_size key s.hashtable) s))
          ≡ remove key m k
    looked k d = elim (Bool-cases (bytes_eq key k)) [
      | inl e ↦ rw (e, ← bytes_eq-eq key k e) (ap value_of (gone _ d.valid d.not_stored))
      | inr e ↦ rw e (d.others k e ∙ r.lookup k)
    ]

    answer :
        ((g : ℕ) × ((hash_search s.hash_size key s.hashtable ≡ Table.found g)
              × ((del_key key s).0 ≡ pos (bucket_at s.hashtable g).index)))
          ⊎ (((g : ℕ) → hash_search s.hash_size key s.hashtable ≢ Table.found g)
              × ((del_key key s).0 ≡ negsuc 1))
        → ((del_key key s).0 ≡ negsuc 1) ↔ (m key ≡ none)
    answer (inl (g, (search, ret))) =
        let (valid, own) = (hash_search_iff s.hash_size s.hashtable key g r.valid.table).0 search in
        let hit =
          get_keyval-HoldsPage mtd s key g (r.valid.pages g valid) r.valid.sized search valid own in
        let some_value = sym (ap value_of hit) ∙ r.lookup key in
        (λ e. absurd (negative (sym ret ∙ e)), λ e. absurd (full (some_value ∙ e)))
      where
        negative : {n : ℕ} → pos n ≡ negsuc 1 → ⊥
        negative q = cc

        full : {x : List ℕ} → some x ≡ none → ⊥
        full q = cc
    answer (inr (miss, ret)) =
        (λ e. sym (r.lookup key) ∙ ap value_of (get_keyval-absent mtd s key miss), λ e. ret)

    untouched :
        ((g : ℕ) × ((hash_search s.hash_size key s.hashtable ≡ Table.found g)
              × ((del_key key s).0 ≡ pos (bucket_at s.hashtable g).index)))
          ⊎ (((g : ℕ) → hash_search s.hash_size key s.hashtable ≢ Table.found g)
              × ((del_key key s).0 ≡ negsuc 1))
        → (del_key key s).1 ≡ drop_old (hash_search s.hash_size key s.hashtable) s
        → (del_key key s).0 ≡ negsuc 1
        → (del_key key s).1 ≡ s
    untouched (inl (g, (search, ret))) same e = absurd (negative (sym ret ∙ e))
      where
        negative : {n : ℕ} → pos n ≡ negsuc 1 → ⊥
        negative q = cc
    untouched (inr (miss, ret)) same e = same ∙ drop_old-miss s _ miss

-- del_key takes the key off the map and keeps the store valid. It returns -2 and changes nothing when the map does
-- not have the key, and another result when it does.
pub del_key-Represents :
    {F : Type 0} (mtd : Mtd F) (s : Store F) (m : Map) (key : List ℕ)
    → Represents mtd s m
    → let (ret, s') = del_key key s in
      Represents mtd s' (remove key m)
      × (((m key ≡ none) × (ret ≡ negsuc 1) × (s' ≡ s)) ⊎ ((m key ≢ none) × (ret ≢ negsuc 1)))
del_key-Represents mtd s m key r =
    let (after, code, same) = del_key-lookup mtd s m key r in
    (
      after,
      elim (drop_old-del_key mtd s key r.valid).1 [
        | inl hit ↦
            let (g, (search, ret)) = hit in
            inr (λ e. absurd (differ (sym ret ∙ code.1 e)), λ e. absurd (differ (sym ret ∙ e)))
        | inr miss ↦ let (absent, ret) = miss in inl (code.0 ret, ret, same ret)
      ],
    )
  where
    differ : {n : ℕ} → pos n ≡ negsuc 1 → ⊥
    differ q = cc
