-- ===== src/Serial/Format/Empty.antt =====
-- After a format the store is the empty map.
use linux_kernel_programming.Prelude.{
  ℕ, zero, suc, ◌*◌, ◌%◌, ◌<◌, ◌≡◌, refl, ap, ◌∙◌, true, false, none, List, [], ◌∷◌, map, length,
  length-map, arith,
}
use linux_kernel_programming.Prelude.Int.{pos}
use linux_kernel_programming.Prelude.Words.{u64_mod}
use linux_kernel_programming.Vanilla.{Mtd, erase_done, free_mark}
use linux_kernel_programming.Serial.HashTable.{Bucket, bucket_at, is_valid}
use linux_kernel_programming.Serial.HashTable.Lookup.{hash_search-found}
use linux_kernel_programming.Serial.Blocks.{BlkInfo, block_at}
use linux_kernel_programming.Serial.Flash.Extends.{IsFlash}
use linux_kernel_programming.Serial.Store.{Store}
use linux_kernel_programming.Serial.Insert.Represents.{
  Represents, IsStore, get_keyval-absent, value_of,
}
use linux_kernel_programming.Serial.Format.{
  fresh_block, fresh_bucket, reset_store, format, format_with,
}

pub none_valid :
    (t : List Bucket) (j : ℕ) → is_valid (bucket_at (map fresh_bucket t) j).p_state ≡ false
none_valid [] j = refl
none_valid (b ∷ t) zero = refl
none_valid (b ∷ t) (suc j) = none_valid t j

no_offset : (bs : List BlkInfo) (j : ℕ) → (block_at (map fresh_block bs) j).current_page_offset ≡ 0
no_offset [] j = refl
no_offset (b ∷ bs) zero = refl
no_offset (b ∷ bs) (suc j) = no_offset bs j

module _ {F : Type 0} (mtd : Mtd F) (s : Store F) (sized : length s.hashtable ≡ s.hash_size)
    (some_bucket : 0 < s.hash_size) (flash : IsFlash s.config)
    (headers : 1 < s.config.pages_per_block) (small : s.config.page_size < free_mark) where
  reset_store-IsStore : IsStore mtd (reset_store s)
  unfolding reset_store
  reset_store-IsStore = record {
    table = record {
      sized = length-map s.hashtable fresh_bucket ∙ sized;
      some_bucket = some_bucket;
      reach = λ j v. absurd (never s.hashtable j v);
    };
    pages = λ j v. absurd (never s.hashtable j v);
    flash = record {
      addressable = rw (length-map s.config.blocks fresh_block) flash.addressable;
      some_page = flash.some_page;
    };
    opened = λ b h p q. absurd (omega (arith, p, no_offset s.config.blocks b));
    sized = small;
    headers = headers;
  }
    where
      never :
          (t : List Bucket) (j : ℕ) → is_valid (bucket_at (map fresh_bucket t) j).p_state ≡ true → ⊥
      never t j v = let n = none_valid t j in cc

  reset_store-Represents : Represents mtd (reset_store s) (λ key. none)
  unfolding reset_store
  reset_store-Represents = record {
    valid = reset_store-IsStore;
    lookup = λ key. ap value_of (
        get_keyval-absent mtd (reset_store s) key (λ j search.
          let (_, v, _) =
            hash_search-found s.hash_size key j (map fresh_bucket s.hashtable) some_bucket search in
          let n = none_valid s.hashtable j in absurd (ground arith)));
  }

-- A format that the driver carries out returns 0 and leaves the empty map, whatever the store and the
-- flash held: a table with one bucket at least, and blocks with two pages at least, are all it needs.
pub format-Represents :
    {F : Type 0} (mtd : Mtd F) (s : Store F) (f' : F)
    → length s.hashtable ≡ s.hash_size
    → 0 < s.hash_size
    → IsFlash s.config
    → 1 < s.config.pages_per_block
    → s.config.page_size < free_mark
    → mtd.mtd_erase 0 (s.config.block_size * length s.config.blocks % u64_mod) s.config.flash
      ≡ (erase_done, f')
    → let (ret, s') = format mtd s in
      (ret ≡ pos 0) × (s'.config.read_only ≡ false) × Represents mtd s' (λ key. none)
unfolding format format_with
format-Represents mtd s f' sized some_bucket flash headers small e = rw e (
  refl,
  unfold reset_store in refl,
  reset_store-Represents mtd
      (record s { config = record s.config { flash = f'; format_done = pos 1 } }) sized some_bucket
      (record { addressable = flash.addressable; some_page = flash.some_page }) headers small,
)
