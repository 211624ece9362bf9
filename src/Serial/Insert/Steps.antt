-- ===== src/Serial/Insert/Steps.antt =====
-- Giving up the page of a key, in a valid store.
use mathlib.Core.Path.{subst}
use linux_kernel_programming.Prelude.{
  ℕ, zero, suc, ◌+◌, ◌-◌, ◌/◌, ◌%◌, ◌<◌, ◌≡◌, ◌≢◌, refl, sym, ap, ap₂, ◌∙◌, inl, inr, Bool, true,
  false, ◌&&◌, List, [], ◌∷◌, arith, ◌==◌, if◌then◌else◌, Bool-cases, length, length-set, set,
}
use linux_kernel_programming.Prelude.Bytes.{bytes_eq, bytes_eq_refl, bytes_eq-eq}
use linux_kernel_programming.Prelude.Int.{ℤ, pos}
use linux_kernel_programming.Vanilla.{Mtd}
use linux_kernel_programming.Serial.HashTable.{
  Bucket, bucket_at, is_valid, SearchResult, found, probed_all, absent, hash, hash_search,
}
use linux_kernel_programming.Serial.HashTable.Probe.{bucket_at-set}
use linux_kernel_programming.Serial.HashTable.Lookup.{NotStored, has_room, hash_search-found}
use linux_kernel_programming.Serial.HashTable.Reach.{
  hash_search_iff, free_bucket, free_bucket-IsReachable, free_bucket-only, free_bucket-kept,
  free_bucket-NotStored,
}
use linux_kernel_programming.Serial.Blocks.{
  BlkInfo, block_at, is_below, is_healthy, least_worn, get_healthy_block,
}
use linux_kernel_programming.Serial.Flash.{read_page}
use linux_kernel_programming.Serial.Flash.Extends.{
  IsOpened, Extends, Extends-refl, Extends-trans, Extends-set, IsFlash-Extends, block_at-set,
}
use linux_kernel_programming.Serial.Store.{Store, invalid_pg, get_keyval}
use linux_kernel_programming.Serial.Insert.{drop_old}
use linux_kernel_programming.Serial.Insert.Represents.{
  IsStore, HoldsPage, HoldsPage-Extends, get_keyval-same, search_cases, value_of,
}

-- A block that is as fit and as worn as the one it replaces changes nothing for the choice.
least_worn-set :
    (ok : BlkInfo → Bool) (i minimum : ℕ) (ret : ℤ) (bs : List BlkInfo) (j : ℕ) (b : BlkInfo)
    → ok b ≡ ok (block_at bs j)
    → b.worn ≡ (block_at bs j).worn
    → least_worn ok i minimum ret (set bs j b) ≡ least_worn ok i minimum ret bs
unfolding least_worn
least_worn-set ok i minimum ret [] j b o w = refl
least_worn-set ok i minimum ret (x ∷ bs) zero b o w =
    ap₂
      (λ p worn.
        least_worn ok (i + 1) (if p && is_below worn minimum then worn else minimum)
          (if p && is_below worn minimum then pos i else ret) bs)
      o w
least_worn-set ok i minimum ret (x ∷ bs) (suc j) b o w = least_worn-set ok (i + 1) _ _ bs j b o w

has_room-free_bucket :
    (n r i g : ℕ) (t : List Bucket)
    → g < length t
    → has_room n r i t ≡ true
    → has_room n r i (free_bucket g t) ≡ true
unfolding has_room
has_room-free_bucket n zero i g t h = λ e. e
has_room-free_bucket n (suc r) i g t h = rw (bucket_at-set t g i _ h) (elim (Bool-cases (g == i)) [
  | inl e ↦ rw e (λ p. refl)
  | inr e ↦ rw e (elim (Bool-cases (is_valid (bucket_at t i).p_state)) [
    | inl v ↦ rw v (has_room-free_bucket n r ((i + 1) % n) g t h)
    | inr v ↦ rw v (λ p. refl)
  ])
])

-- `s'` is `s` without the key.
pub record Dropped {F : Type 0} (mtd : Mtd F) (key : List ℕ) (s s' : Store F) : Type 0 where
  pub valid : IsStore mtd s'
  pub extends : Extends mtd s.config s'.config
  pub others :
      (k : List ℕ)
      → bytes_eq key k ≡ false
      → value_of (get_keyval mtd k s') ≡ value_of (get_keyval mtd k s)
  pub not_stored : NotStored key s'.hashtable
  pub hash_size : s'.hash_size ≡ s.hash_size
  pub read_only : s'.config.read_only ≡ s.config.read_only
  pub healthy :
      get_healthy_block s'.config.pages_per_block s'.config.blocks
      ≡ get_healthy_block s.config.pages_per_block s.config.blocks
  pub room :
      has_room s.hash_size (s.hash_size - 1) (hash key % s.hash_size) s.hashtable ≡ true
      → has_room s'.hash_size (s'.hash_size - 1) (hash key % s'.hash_size) s'.hashtable ≡ true

pub drop_old-miss :
    {F : Type 0} (s : Store F) (r : SearchResult) → ((g : ℕ) → r ≢ found g) → drop_old r s ≡ s
unfolding drop_old
drop_old-miss s (found g) miss = absurd (miss g refl)
drop_old-miss s probed_all miss = refl
drop_old-miss s absent miss = refl

module _ {F : Type 0} (mtd : Mtd F) (key : List ℕ) (s : Store F) (v : IsStore mtd s) where
  module _ (g : ℕ) (search : hash_search s.hash_size key s.hashtable ≡ found g) where
    in_bucket :
        (is_valid (bucket_at s.hashtable g).p_state ≡ true) × ((bucket_at s.hashtable g).key ≡ key)
    in_bucket = (hash_search_iff s.hash_size s.hashtable key g v.table).0 search

    holding : HoldsPage mtd s.config (bucket_at s.hashtable g)
    holding = v.pages g in_bucket.0

    abbrev block : ℕ
    block = (bucket_at s.hashtable g).index / s.config.pages_per_block

    abbrev counted : BlkInfo
    counted = record (block_at s.config.blocks block) {
      nb_invalid = (block_at s.config.blocks block).nb_invalid + 1;
    }

    invalid_pg-Extends : Extends mtd s.config (invalid_pg g s).config
    unfolding invalid_pg
    invalid_pg-Extends =
        Extends-trans mtd s.config (record s.config { blocks = set s.config.blocks block counted })
          _ (Extends-set mtd s.config block counted holding.in_use.block_in (omega arith) (λ u. u))
          (record {
            page_size = refl;
            pages_per_block = refl;
            count = refl;
            offset = λ b. omega arith;
            used = λ b h. h;
            same = λ q h k. unfold read_page in refl;
          })

    invalid_pg-IsOpened : IsOpened (invalid_pg g s).config
    unfolding invalid_pg
    invalid_pg-IsOpened j i =
        rw (block_at-set s.config.blocks block j counted holding.in_use.block_in)
          (elim (Bool-cases (block == j)) [
            | inl e ↦ rw e (λ p q. holding.in_use.used)
            | inr e ↦ rw e (v.opened j (omega (arith, i, length-set s.config.blocks block counted)))
          ])

    invalid_pg-IsStore : IsStore mtd (invalid_pg g s)
    unfolding invalid_pg
    invalid_pg-IsStore = record {
      table = free_bucket-IsReachable s.hash_size g s.hashtable v.table in_bucket.0;
      pages = λ j w.
          let (ne, same) = free_bucket-only s.hash_size g s.hashtable v.table in_bucket.0 j w in
          let w' = sym (ap (λ (b : Bucket). is_valid b.p_state) same) ∙ w in
          HoldsPage-Extends mtd s.config _ (bucket_at s.hashtable j) _ invalid_pg-Extends
            (ap (λ (b : Bucket). b.key) same) (ap (λ (b : Bucket). b.index) same) (v.pages j w');
      flash = IsFlash-Extends mtd s.config _ invalid_pg-Extends v.flash;
      opened = invalid_pg-IsOpened;
      sized = v.sized;
      headers = v.headers;
    }

    invalid_pg-Dropped : Dropped mtd key s (invalid_pg g s)
    unfolding invalid_pg
    invalid_pg-Dropped = record {
      valid = invalid_pg-IsStore;
      extends = invalid_pg-Extends;
      others = λ k ne.
          get_keyval-same mtd s (invalid_pg g s) v invalid_pg-IsStore k invalid_pg-Extends
            (kept k ne) (only k);
      not_stored =
          subst (λ k. NotStored k (free_bucket g s.hashtable)) in_bucket.1
            (free_bucket-NotStored s.hash_size g s.hashtable v.table in_bucket.0);
      hash_size = refl;
      read_only = refl;
      healthy =
          unfold get_healthy_block in
          least_worn-set (is_healthy s.config.pages_per_block) _ _ _ s.config.blocks block counted
            refl refl;
      room =
          has_room-free_bucket s.hash_size (s.hash_size - 1) (hash key % s.hash_size) g s.hashtable
            inside;
    }
      where
        inside : g < length s.hashtable
        inside =
            let (h, _, _) =
              hash_search-found s.hash_size key g s.hashtable v.table.some_bucket search in
            omega (arith, h, v.table.sized)

        kept :
            (k : List ℕ)
            → bytes_eq key k ≡ false
            → (j : ℕ) → is_valid (bucket_at s.hashtable j).p_state ≡ true
            → (bucket_at s.hashtable j).key ≡ k
            → (is_valid (bucket_at (free_bucket g s.hashtable) j).p_state ≡ true)
              × ((bucket_at (free_bucket g s.hashtable) j).key ≡ (bucket_at s.hashtable j).key)
              × ((bucket_at (free_bucket g s.hashtable) j).index ≡ (bucket_at s.hashtable j).index)
        kept k ne j w same =
            let e =
              free_bucket-kept s.hash_size g s.hashtable v.table in_bucket.0 j w
                (differ k ne j same) in
            (
              ap (λ (b : Bucket). is_valid b.p_state) e ∙ w,
              ap (λ (b : Bucket). b.key) e,
              ap (λ (b : Bucket). b.index) e,
            )
          where
            differ :
                (k : List ℕ)
                → bytes_eq key k ≡ false
                → (j : ℕ) → (bucket_at s.hashtable j).key ≡ k
                → g ≢ j
            differ k ne j same e =
                let k' : key ≡ k =
                  sym in_bucket.1 ∙ ap (λ i. (bucket_at s.hashtable i).key) e ∙ same in
                let again : bytes_eq key k ≡ true = rw (← k') (bytes_eq_refl key) in cc

        only :
            (k : List ℕ) (j : ℕ)
            → is_valid (bucket_at (free_bucket g s.hashtable) j).p_state ≡ true
            → (bucket_at (free_bucket g s.hashtable) j).key ≡ k
            → (is_valid (bucket_at s.hashtable j).p_state ≡ true)
              × ((bucket_at s.hashtable j).key ≡ k)
        only k j w same =
            let (ne, e) = free_bucket-only s.hash_size g s.hashtable v.table in_bucket.0 j w in
            (
              sym (ap (λ (b : Bucket). is_valid b.p_state) e) ∙ w,
              sym (ap (λ (b : Bucket). b.key) e) ∙ same,
            )

  miss-Dropped : ((g : ℕ) → hash_search s.hash_size key s.hashtable ≢ found g) → Dropped mtd key s s
  miss-Dropped miss = record {
    valid = v;
    extends = Extends-refl mtd s.config;
    others = λ k ne. refl;
    not_stored = λ j w. elim (Bool-cases (bytes_eq (bucket_at s.hashtable j).key key)) [
      | inl e ↦ absurd (
          miss j (
            (hash_search_iff s.hash_size s.hashtable key j v.table).1
              (w, bytes_eq-eq (bucket_at s.hashtable j).key key e)))
      | inr e ↦ e
    ];
    hash_size = refl;
    read_only = refl;
    healthy = refl;
    room = λ r. r;
  }

  pub drop_old-Dropped : Dropped mtd key s (drop_old (hash_search s.hash_size key s.hashtable) s)
  drop_old-Dropped = elim (search_cases (hash_search s.hash_size key s.hashtable)) [
    | inl hit ↦ rw hit.1 (unfold drop_old in invalid_pg-Dropped hit.0 hit.1)
    | inr miss ↦ rw (drop_old-miss s _ miss) (miss-Dropped miss)
  ]
