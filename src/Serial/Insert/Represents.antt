-- ===== src/Serial/Insert/Represents.antt =====
-- The store as a finite map from keys to values.
use linux_kernel_programming.Prelude.{
  ℕ, ◌+◌, ◌≤◌, ◌<◌, ◌≡◌, ◌≢◌, refl, sym, ap, ◌∙◌, ◌⊎◌, inl, inr, true, Option, none, some, List, [],
  arith, if◌then◌else◌, length, append-nil, ◌++◌,
}
use linux_kernel_programming.Prelude.Bytes.{bytes_eq}
use linux_kernel_programming.Vanilla.{
  Mtd, GetResult, found, not_found, page_of, free_mark, match_page,
}
use linux_kernel_programming.Vanilla.Page.{match_page-page_of}
use linux_kernel_programming.Serial.HashTable as Table
use linux_kernel_programming.Serial.HashTable.{
  Bucket, bucket_at, is_valid, SearchResult, probed_all, absent, hash_search,
}
use linux_kernel_programming.Serial.HashTable.Reach.{IsReachable, hash_search_iff}
use linux_kernel_programming.Serial.Flash.{Config, read_page}
use linux_kernel_programming.Serial.Flash.Extends.{IsFlash, IsOpened, InUse, Extends, InUse-Extends}
use linux_kernel_programming.Serial.Store.{Store, match_key, get_at, get_keyval}

-- The abstract store.
abbrev pub Map : Type 0
Map = List ℕ → Option (List ℕ)

abbrev pub put : List ℕ → List ℕ → Map → Map
put key val m k = if bytes_eq key k then some val else m k

abbrev pub remove : List ℕ → Map → Map
remove key m k = if bytes_eq key k then none else m k

abbrev pub value_of : GetResult → Option (List ℕ)
value_of (found page value) = some value
value_of _ = none

-- The page of a bucket holds its key and a value.
pub record HoldsPage {F : Type 0} (mtd : Mtd F) (c : Config F) (b : Bucket) : Type 0 where
  pub value : List ℕ
  pub page : read_page mtd b.index c ≡ some (page_of c.page_size b.key value)
  pub in_use : InUse c b.index
  pub fits : length b.key + length value + 8 ≤ c.page_size

-- The invariant of the store.
pub record IsStore {F : Type 0} (mtd : Mtd F) (s : Store F) : Type 0 where
  pub table : IsReachable s.hash_size s.hashtable
  pub pages :
      (j : ℕ)
      → is_valid (bucket_at s.hashtable j).p_state ≡ true
      → HoldsPage mtd s.config (bucket_at s.hashtable j)
  pub flash : IsFlash s.config
  pub opened : IsOpened s.config
  pub sized : s.config.page_size < free_mark
  pub headers : 1 < s.config.pages_per_block

-- A valid store that answers every lookup as the map does.
pub record Represents {F : Type 0} (mtd : Mtd F) (s : Store F) (m : Map) : Type 0 where
  pub valid : IsStore mtd s
  pub lookup : (key : List ℕ) → value_of (get_keyval mtd key s) ≡ m key

match_key-match_page :
    (key : List ℕ) (index : ℕ) (value buffer : List ℕ)
    → match_page key index (some buffer) ≡ found index value
    → match_key key index (some buffer) ≡ found index value
unfolding match_page match_key
match_key-match_page key index value buffer h = ground arith

module _ {F : Type 0} (mtd : Mtd F) (s : Store F) where
  -- A lookup that hash_search answers with a bucket whose page holds the key.
  pub get_keyval-HoldsPage :
      (key : List ℕ) (j : ℕ) (h : HoldsPage mtd s.config (bucket_at s.hashtable j))
      → s.config.page_size < free_mark
      → hash_search s.hash_size key s.hashtable ≡ Table.found j
      → is_valid (bucket_at s.hashtable j).p_state ≡ true
      → (bucket_at s.hashtable j).key ≡ key
      → get_keyval mtd key s ≡ found (bucket_at s.hashtable j).index h.value
  unfolding get_keyval get_at
  get_keyval-HoldsPage key j h small search valid same =
      let b = bucket_at s.hashtable j in
      let page : read_page mtd b.index s.config
          ≡ some (page_of s.config.page_size (key ++ []) h.value) =
        h.page
        ∙ ap (λ k. some (page_of s.config.page_size k h.value)) (same ∙ sym (append-nil key)) in
      let fits = h.fits in
      let key_small : length (key ++ []) < free_mark = rw (append-nil key, ← same) (omega arith) in
      let hit =
        match_page-page_of s.config.page_size b.index key [] h.value key_small (omega arith) in
      rw (search, h.in_use.used, valid, page) (match_key-match_page key b.index h.value _ hit)

  pub get_keyval-absent :
      (key : List ℕ)
      → ((j : ℕ) → hash_search s.hash_size key s.hashtable ≢ Table.found j)
      → get_keyval mtd key s ≡ not_found
  unfolding get_keyval get_at
  get_keyval-absent key miss = by_result (hash_search s.hash_size key s.hashtable) miss
    where
      by_result :
          (r : SearchResult) → ((j : ℕ) → r ≢ Table.found j) → get_at mtd key r s ≡ not_found
      by_result (Table.found g) miss = absurd (miss g refl)
      by_result probed_all miss = refl
      by_result absent miss = refl

pub search_cases :
    (r : SearchResult) → ((g : ℕ) × (r ≡ Table.found g)) ⊎ ((g : ℕ) → r ≢ Table.found g)
search_cases (Table.found g) = inl (g, refl)
search_cases probed_all = inr (λ g e. cc)
search_cases absent = inr (λ g e. cc)

pub HoldsPage-Extends :
    {F : Type 0} (mtd : Mtd F) (c c' : Config F) (b b' : Bucket)
    → Extends mtd c c'
    → b'.key ≡ b.key
    → b'.index ≡ b.index
    → (h : HoldsPage mtd c b) → HoldsPage mtd c' b'
HoldsPage-Extends mtd c c' b b' x k i h = record {
  value = h.value;
  page =
      rw (i, k)
        (x.same b.index h.in_use.block_in h.in_use.below
          ∙ h.page
          ∙ ap (λ n. some (page_of n b.key h.value)) (sym x.page_size));
  in_use = rw i (InUse-Extends mtd c c' b.index x h.in_use);
  fits = rw (k, x.page_size) h.fits;
}

-- Two valid stores answer a lookup alike, if the bucket of the key is the same.
module _ {F : Type 0} (mtd : Mtd F) (s s' : Store F) (v : IsStore mtd s) (v' : IsStore mtd s')
    (key : List ℕ) (x : Extends mtd s.config s'.config)
    (kept : (j : ℕ)
      → is_valid (bucket_at s.hashtable j).p_state ≡ true
      → (bucket_at s.hashtable j).key ≡ key
      → (is_valid (bucket_at s'.hashtable j).p_state ≡ true)
        × ((bucket_at s'.hashtable j).key ≡ (bucket_at s.hashtable j).key)
        × ((bucket_at s'.hashtable j).index ≡ (bucket_at s.hashtable j).index))
    (only : (j : ℕ)
      → is_valid (bucket_at s'.hashtable j).p_state ≡ true
      → (bucket_at s'.hashtable j).key ≡ key
      → (is_valid (bucket_at s.hashtable j).p_state ≡ true)
        × ((bucket_at s.hashtable j).key ≡ key)) where
  pub get_keyval-same : value_of (get_keyval mtd key s') ≡ value_of (get_keyval mtd key s)
  unfolding HoldsPage-Extends
  get_keyval-same = elim (search_cases (hash_search s.hash_size key s.hashtable)) [
    | inl hit ↦
        let (g, search) = hit in
        let (valid, same) = (hash_search_iff s.hash_size s.hashtable key g v.table).0 search in
        let (valid', same', index') = kept g valid same in
        let search' =
          (hash_search_iff s'.hash_size s'.hashtable key g v'.table).1 (valid', same' ∙ same) in
        let h = v.pages g valid in
        let h' =
          HoldsPage-Extends mtd s.config s'.config _ (bucket_at s'.hashtable g) x same' index' h in
        ap value_of (get_keyval-HoldsPage mtd s' key g h' v'.sized search' valid' (same' ∙ same))
        ∙ ap value_of (sym (get_keyval-HoldsPage mtd s key g h v.sized search valid same))
    | inr miss ↦
        ap value_of (
          get_keyval-absent mtd s' key (λ j search'.
            let (valid', same') =
              (hash_search_iff s'.hash_size s'.hashtable key j v'.table).0 search' in
            miss j
              ((hash_search_iff s.hash_size s.hashtable key j v.table).1 (only j valid' same'))))
        ∙ ap value_of (sym (get_keyval-absent mtd s key miss))
  ]
