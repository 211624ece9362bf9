-- ===== src/Serial/Insert/Refine.antt =====
-- The store implements a finite map: insertion and replacement.
use linux_kernel_programming.Prelude.{
  ℕ, zero, suc, ◌+◌, ◌-◌, ◌/◌, ◌%◌, ◌≤◌, ◌<◌, ◌≡◌, ◌≢◌, refl, sym, ap, ◌∙◌, ◌⊎◌, inl, inr, Bool,
  true, false, Option, none, some, List, arith, Bool-cases, length,
}
use linux_kernel_programming.Prelude.Bytes.{bytes_eq, bytes_eq_refl, bytes_eq-eq}
use linux_kernel_programming.Prelude.Int.{ℤ, pos, negsuc}
use linux_kernel_programming.Prelude.Pages.{div_page}
use linux_kernel_programming.Vanilla.{Mtd, page_of, found}
use linux_kernel_programming.Vanilla.Page.{length-page_of}
use linux_kernel_programming.Vanilla.Roundtrip.{IsMtd}
use linux_kernel_programming.Serial.HashTable.{
  Bucket, bucket_at, is_valid, hash, hash_search, hash_add, key_size,
}
use linux_kernel_programming.Serial.HashTable.Lookup.{NotStored, has_room, hash_add-none}
use linux_kernel_programming.Serial.HashTable.Reach.{Inserted, hash_add-Inserted, hash_search_iff}
use linux_kernel_programming.Serial.Blocks.{block_at, get_healthy_block}
use linux_kernel_programming.Serial.Flash.{Config, write_page, read_page, get_next_page}
use linux_kernel_programming.Serial.Flash.Write.{WrotePage, write_page-WrotePage}
use linux_kernel_programming.Serial.Flash.Extends.{
  Accepts, Extends, Extends-trans, IsFlash-Extends, next_of,
}
use linux_kernel_programming.Serial.Flash.Next.{NextPage, get_next_page-NextPage}
use linux_kernel_programming.Serial.Store.{Store, get_keyval}
use linux_kernel_programming.Serial.Insert.{drop_old, list_add, link_page, put_page, store_pair}
use linux_kernel_programming.Serial.Insert.Represents.{
  IsStore, HoldsPage, HoldsPage-Extends, Represents, Map, put, get_keyval-same,
  get_keyval-HoldsPage, value_of,
}
use linux_kernel_programming.Serial.Insert.Steps.{drop_old-Dropped}

-- A free bucket within the first `r` of the probe sequence is one within the first `r + 1`.
has_room_mono :
    (n r i : ℕ) (t : List Bucket) → has_room n r i t ≡ true → has_room n (suc r) i t ≡ true
unfolding has_room
has_room_mono n zero i t h = cc
has_room_mono n (suc r) i t h = elim (Bool-cases (is_valid (bucket_at t i).p_state)) [
  | inl v ↦ let h' = rw v at h in rw v (has_room_mono n r ((i + 1) % n) t h')
  | inr v ↦ rw v
]

option_cases : (r : Option ℕ) → r ≢ none → (g : ℕ) × (r ≡ some g)
option_cases none h = absurd (h refl)
option_cases (some g) h = (g, refl)

-- hash_add finds a bucket, when one of those that hash_search probes is free.
hash_add-some :
    (n : ℕ) (key : List ℕ) (index : ℕ) (t : List Bucket)
    → length t ≡ n
    → 0 < n
    → length key < key_size
    → has_room n (n - 1) (hash key % n) t ≡ true
    → (g : ℕ) × ((hash_add n key index t).0 ≡ some g)
hash_add-some n key index t l h short room = option_cases (hash_add n key index t).0 (λ e.
    let e' = (hash_add-none n key index t l h short).0 e in
    let m : suc (n - 1) ≡ n = omega arith in
    let more : has_room n n (hash key % n) t ≡ true =
      ap (λ r. has_room n r (hash key % n) t) (sym m)
      ∙ has_room_mono n (n - 1) (hash key % n) t room in
    cc)

Extends-list_add :
    {F : Type 0} (mtd : Mtd F) (b g : ℕ) (s : Store F)
    → Extends mtd s.config (list_add b g s).config
Extends-list_add mtd b g s = record {
  page_size = refl;
  pages_per_block = refl;
  count = refl;
  offset = λ b. omega arith;
  used = λ b h. h;
  same = λ q h k. unfold read_page in refl;
}

-- The write of a couple whose key is not stored, into a block that is ready for it.
module _ {F : Type 0} (mtd : Mtd F) (laws : IsMtd mtd) (accepts : Accepts mtd) (key val : List ℕ)
    (s : Store F) (v : IsStore mtd s) (no_key : NotStored key s.hashtable)
    (fits : length key + length val + 8 ≤ s.config.page_size)
    (room : has_room s.hash_size (s.hash_size - 1) (hash key % s.hash_size) s.hashtable ≡ true)
    (b : ℕ) (c : Config F) (ready : NextPage mtd s.config b c) where
  abbrev index : ℕ
  index = next_of c b

  abbrev buffer : List ℕ
  buffer = page_of c.page_size key val

  wrote : WrotePage mtd c b buffer (write_page mtd index buffer c)
  wrote =
      write_page-WrotePage mtd laws accepts c b buffer
        (IsFlash-Extends mtd s.config c ready.extends v.flash) ready.opened ready.block_in
        ready.room ready.used
        (length-page_of c.page_size key val
          (let e = ready.extends.page_size in omega (arith, fits)))
        ready.writable

  module _ (g : ℕ) (placed : (hash_add s.hash_size key index s.hashtable).0 ≡ some g) where
    abbrev after : Store F
    after = list_add b g (record s {
      config = (write_page mtd index buffer c).1;
      hashtable = (hash_add s.hash_size key index s.hashtable).1;
    })

    added :
        Inserted s.hash_size key index g s.hashtable (hash_add s.hash_size key index s.hashtable).1
    added = hash_add-Inserted s.hash_size key index g s.hashtable v.table no_key room placed

    since_write : Extends mtd (write_page mtd index buffer c).1 after.config
    since_write = Extends-list_add mtd b g (record s {
      config = (write_page mtd index buffer c).1;
      hashtable = (hash_add s.hash_size key index s.hashtable).1;
    })

    since : Extends mtd s.config after.config
    since =
        Extends-trans mtd s.config c _ ready.extends
          (Extends-trans mtd c _ _ wrote.extends since_write)

    new_page : HoldsPage mtd after.config (bucket_at after.hashtable g)
    new_page =
        let (_, k, i) = added.here in
        let (d, m) =
          div_page b (block_at c.blocks b).current_page_offset c.pages_per_block ready.room in
        let pb = wrote.extends.pages_per_block in
        let db : index / after.config.pages_per_block ≡ b = ap (λ w. index / w) pb ∙ d in
        let mb : index % after.config.pages_per_block ≡ (block_at c.blocks b).current_page_offset =
          ap (λ w. index % w) pb ∙ m in
        record {
          value = val;
          page =
              rw (i, k)
                (unfold read_page in
                  wrote.page ∙ ap (λ n. some (page_of n key val)) (sym wrote.extends.page_size));
          in_use = rw i (record {
            block_in = rw db (omega (arith, ready.block_in, wrote.extends.count));
            below = rw (db, mb) (omega (arith, wrote.next));
            used = rw db wrote.used;
          });
          fits = rw k (omega (arith, fits, wrote.extends.page_size, ready.extends.page_size));
        }

    after-IsStore : IsStore mtd after
    after-IsStore = record {
      table = added.reachable;
      pages = λ j w. elim (added.others j w) [
        | inl e ↦ rw e new_page
        | inr was ↦
            HoldsPage-Extends mtd s.config after.config (bucket_at s.hashtable j) _ since was.1
              was.2 (v.pages j was.0)
      ];
      flash = IsFlash-Extends mtd s.config after.config since v.flash;
      opened = wrote.opened;
      sized = omega (arith, v.sized, since.page_size);
      headers = omega (arith, v.headers, since.pages_per_block);
    }

    lookup_new : get_keyval mtd key after ≡ found (bucket_at after.hashtable g).index val
    unfolding new_page
    lookup_new =
        get_keyval-HoldsPage mtd after key g new_page after-IsStore.sized
          ((hash_search_iff s.hash_size after.hashtable key g added.reachable).1
            (added.here.0, added.here.1))
          added.here.0 added.here.1

    lookup_other :
        (k : List ℕ)
        → bytes_eq key k ≡ false
        → value_of (get_keyval mtd k after) ≡ value_of (get_keyval mtd k s)
    lookup_other k ne =
        get_keyval-same mtd s after v after-IsStore k since (λ j w same. added.kept j w)
          (λ j w same. elim (added.others j w) [
            | inl e ↦
                let own : key ≡ k =
                  sym added.here.1 ∙ ap (λ i. (bucket_at after.hashtable i).key) (sym e) ∙ same in
                let again : bytes_eq key k ≡ true = rw (← own) (bytes_eq_refl key) in
                absurd (clash again ne)
            | inr was ↦ (was.0, sym was.1 ∙ same)
          ])
      where
        clash : {t : Bool} → t ≡ true → t ≡ false → ⊥
        clash p q = cc

-- The first part of set_keyval puts the couple into the map and keeps the store valid, whether the
-- key is new or replaces an old couple. It is total: with a driver that accepts every write and keeps what
-- is written, in a store that is not read-only, if the key has fewer than 128 bytes, the couple fits a page, a block with a page left is
-- found, and one of the buckets that a search for the key probes is free.
pub store_pair-Represents :
    {F : Type 0} (mtd : Mtd F)
    → IsMtd mtd
    → Accepts mtd
    → (s : Store F) (m : Map) (key val : List ℕ) (b : ℕ) → Represents mtd s m
    → s.config.read_only ≡ false
    → length key + length val + 8 ≤ s.config.page_size
    → get_healthy_block s.config.pages_per_block s.config.blocks ≡ pos b
    → length key < key_size
    → has_room s.hash_size (s.hash_size - 1) (hash key % s.hash_size) s.hashtable ≡ true
    → (ret : ℤ) × (s' : Store F) × (store_pair mtd key val s ≡ some (ret, s'))
      × ((ret ≡ pos 0) ⊎ (ret ≡ negsuc 0))
      × Represents mtd s' (put key val m)
unfolding store_pair put_page
store_pair-Represents {F} mtd laws accepts s m key val b r writable fits healthy short room =
    let d = drop_old-Dropped mtd key s r.valid in
    let s₁ : Store F = drop_old (hash_search s.hash_size key s.hashtable) s in
    let (target, ready) =
      get_next_page-NextPage mtd laws accepts s₁.config d.valid.flash d.valid.opened d.valid.headers
        (d.read_only ∙ writable) b (d.healthy ∙ healthy) in
    let c : Config F = (get_next_page mtd s₁.config).1 in
    let room₁ = d.room room in
    let (g, placed) =
      hash_add-some s₁.hash_size key (next_of c b) s₁.hashtable d.valid.table.sized
        d.valid.table.some_bucket short room₁ in
    let fits₁ : length key + length val + 8 ≤ s₁.config.page_size =
      omega (arith, fits, d.extends.page_size) in
    (
      (write_page mtd (next_of c b) (page_of c.page_size key val) c).0,
      after mtd laws accepts key val s₁ d.valid d.not_stored fits₁ room₁ b c ready g placed,
      rw (target, placed) (unfold link_page in refl),
      (wrote mtd laws accepts key val s₁ d.valid d.not_stored fits₁ room₁ b c ready).result,
      record {
        valid =
            after-IsStore mtd laws accepts key val s₁ d.valid d.not_stored fits₁ room₁ b c ready g
              placed;
        lookup = λ k. elim (Bool-cases (bytes_eq key k)) [
          | inl e ↦
              rw (e, ← bytes_eq-eq key k e)
                (ap value_of (
                  lookup_new mtd laws accepts key val s₁ d.valid d.not_stored fits₁ room₁ b c ready
                    g placed))
          | inr e ↦ rw e (
              lookup_other mtd laws accepts key val s₁ d.valid d.not_stored fits₁ room₁ b c ready g
                placed k e
              ∙ d.others k e
              ∙ r.lookup k)
        ];
      },
    )
