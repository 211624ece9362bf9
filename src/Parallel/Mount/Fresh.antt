-- ===== src/Parallel/Mount/Fresh.antt =====
-- The load of the module on a flash without metadata.
use linux_kernel_programming.Prelude.{
  if_false, ℕ, zero, suc, ◌+◌, ◌*◌, ◌<◌, ◌≡◌, refl, ap, ◌∙◌, false, Bool-cases, inl, inr, some,
  List, [], ◌∷◌, map, arith, replicate,
}
use linux_kernel_programming.Prelude.Int.{pos, negsuc}
use linux_kernel_programming.Prelude.Bytes.{starts_with}
use linux_kernel_programming.Vanilla.{Mtd}
use linux_kernel_programming.Serial.HashTable.{Bucket}
use linux_kernel_programming.Parallel.{
  Store, Outcome, done, and_then, with_lock, get_keyval, is_read_only, read_page,
}
use linux_kernel_programming.Parallel.Flush.{meta_hdr_base}
use linux_kernel_programming.Parallel.Lookup.{NoneValid, get_keyval-none}
use linux_kernel_programming.Parallel.Mount.{
  Machine, Loaded, or_fresh, link_valid, finish_scan, construct, scan_blocks, init_scan,
}

-- The first page of each block can be read, and does not begin as a header.
abbrev pub NoHeaders : {F : Type 0} → Mtd F → ℕ → Store F → Type 0
NoHeaders mtd nb_blocks s =
    (i : ℕ)
    → i < nb_blocks
    → (page : List ℕ) × (read_page mtd (i * s.pages_per_block) s ≡ some page)
      × (starts_with meta_hdr_base page ≡ false)

module _ {F : Type 0} where
  link_valid-none : (i : ℕ) (t : List Bucket) (s : Store F) → NoneValid t → link_valid i t s ≡ s
  unfolding link_valid
  link_valid-none i [] s h = refl
  link_valid-none i (b ∷ t) s h = rw (h 0) (link_valid-none (i + 1) t s (λ j. h (suc j)))

  module _ (mtd : Mtd F) where
    scan_blocks-none :
        (s : Store F) (n i : ℕ) (l : Loaded)
        → NoHeaders mtd (i + n) s
        → scan_blocks mtd s n i l ≡ done l
    unfolding scan_blocks
    scan_blocks-none s zero i l h = refl
    scan_blocks-none s (suc n) i l h =
        let (page, read, other) = h i (omega arith) in
        rw (scan_blocks, read, other)
          (scan_blocks-none s n (i + 1) l (λ j b. h j (omega (arith, b))))

    -- finish_scan sets flags only.
    finish_scan-kept :
        (s : Store F)
        → ((finish_scan s).0 ≡ pos 0)
          × ((finish_scan s).1.erase_lock ≡ false)
          × (with_lock false (finish_scan s).1 ≡ (finish_scan s).1)
          × ((finish_scan s).1.hashtable ≡ s.hashtable)
          × ((finish_scan s).1.hash_size ≡ s.hash_size)
          × ((finish_scan s).1.meta_blkordr ≡ s.meta_blkordr)
    unfolding finish_scan
    finish_scan-kept s = elim (Bool-cases (is_read_only s)) [
      | inl e ↦ rw e (refl, refl, refl, refl, refl, refl)
      | inr e ↦ rw e (refl, refl, refl, refl, refl, refl)
    ]

    -- On a flash where the first page of no block begins as a header, init_scan returns 0 with the lock free: no
    -- metadata block is known that was not before, and get_keyval returns -1 for whatever key, when the bytes of the
    -- fresh table stand for buckets that are not in use.
    pub parallel_init_scan-fresh :
        (m : Machine) (nb_blocks : ℕ) (s : Store F) (key : List ℕ)
        → s.erase_lock ≡ false
        → 0 < s.hash_size
        → NoHeaders mtd nb_blocks s
        → NoneValid (m.table_of (m.fresh_table s.hash_size))
        → (s' : Store F) × (init_scan mtd m nb_blocks s ≡ done (pos 0, s'))
          × (s'.erase_lock ≡ false)
          × (s'.meta_blkordr ≡ s.meta_blkordr)
          × (get_keyval mtd key s' ≡ done ((negsuc 0, []), s'))
    parallel_init_scan-fresh m nb_blocks s key free some_bucket headers fresh =
        let (zero_ret, unlocked, same, table, size, order) = finish_scan-kept loaded in
        let s' = (finish_scan loaded).1 in
        let e : get_keyval mtd key s' ≡ done ((negsuc 0, []), with_lock false s') =
          get_keyval-none mtd key s' (rw size some_bucket) unlocked (rw table fresh) in
        (
          s',
          scanned ∙ ap done (ap (λ ret. (ret, s')) zero_ret),
          unlocked,
          order,
          e ∙ ap (λ x. done ((negsuc 0, []), x)) same,
        )
      where
        loaded : Store F
        loaded = record s {
          blocks = map or_fresh (m.blocks_of (replicate s.block_info_size 0));
          lists = λ b. [];
          hashtable = m.table_of (m.fresh_table s.hash_size);
          metadata_size = s.hashtable_size + s.block_info_size;
        }

        fresh_memory : Loaded
        fresh_memory = record {
          block_bytes = replicate s.block_info_size 0;
          table_bytes = m.fresh_table s.hash_size;
          jack_ofs = 0;
          total_ram_pg_cnt = 0;
          order = s.meta_blkordr;
        }

        constructed : construct m s fresh_memory ≡ finish_scan loaded
        constructed =
            unfold construct in
            ap finish_scan (link_valid-none 0 (m.table_of (m.fresh_table s.hash_size)) loaded fresh)

        after :
            (l : Outcome Loaded)
            → l ≡ done fresh_memory
            → and_then l (λ x. done (construct m s x)) ≡ done (finish_scan loaded)
        after l e = rw e (unfold and_then in ap done constructed)

        scanned : init_scan mtd m nb_blocks s ≡ done (finish_scan loaded)
        scanned =
            unfold init_scan in
            if_false s.erase_lock _ _ free
            ∙ after (scan_blocks mtd s nb_blocks 0 fresh_memory)
                (scan_blocks-none s nb_blocks 0 fresh_memory (λ i b. headers i (omega (arith, b))))
