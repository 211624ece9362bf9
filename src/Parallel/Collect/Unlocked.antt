-- ===== src/Parallel/Collect/Unlocked.antt =====
-- What gc does under erase_lock ends, and keeps what the writes to the fields keep.
use linux_kernel_programming.Prelude.{
  ℕ, ◌+◌, ◌*◌, ◌/◌, ◌%◌, ◌==◌, Option, none, some, List, [], ◌∷◌, take, drop, replicate,
}
use linux_kernel_programming.Prelude.Int.{ℤ, pos, negsuc}
use linux_kernel_programming.Prelude.Bytes.{memcpy}
use linux_kernel_programming.Vanilla.{Mtd}
use linux_kernel_programming.Serial.HashTable.{SearchResult, found, probed_all, absent, bucket_at}
use linux_kernel_programming.Serial.Collect.{Lengths, lengths_at, key_at, rebuild}
use linux_kernel_programming.Parallel.{
  Store, done, crashes, and_then, block_at, mark_used, invalid_pg, read_page, write_data_hdr,
}
use linux_kernel_programming.Parallel.HashTable.{hash_search, hash_add}
use linux_kernel_programming.Parallel.Erase.{format_single}
use linux_kernel_programming.Parallel.Ends.{Ends, Ends-if, Ends-and_then}
use linux_kernel_programming.Parallel.Keeps.{
  Closed, After, mark_used-Kept, list_add-Kept, invalid_pg-Kept, write_page-Kept,
  write_data_hdr-Kept, format_single-Kept,
}
use linux_kernel_programming.Parallel.Collect.{
  Gathered, invalid_key, linked_back, cons_lengths, gather, write_back, open_victim, refill,
  collect, gc_locked, find_target, gc_order, victim_of,
}

module _ {F : Type 0} (mtd : Mtd F) (P : Store F → Type 0) (closed : Closed P) where
  GatheredKept : Gathered F → Type 0
  GatheredKept g = P g.store

  invalid_key-Kept : (r : SearchResult) (s : Store F) → P s → Ends P (invalid_key r s)
  unfolding invalid_key Ends invalid_pg
  invalid_key-Kept (found h) s l = invalid_pg-Kept mtd P closed h s l
  invalid_key-Kept probed_all s l = tt
  invalid_key-Kept absent s l = tt

  linked_back-Kept :
      (victim : ℕ) (g : Option ℕ) (ret : ℤ) (s : Store F)
      → P s
      → Ends P (linked_back victim g (ret, s))
  unfolding linked_back Ends
  linked_back-Kept victim none (pos n) s l = tt
  linked_back-Kept victim none (negsuc n) s l = tt
  linked_back-Kept victim (some g) (pos n) s l = list_add-Kept mtd P closed victim g s l
  linked_back-Kept victim (some g) (negsuc n) s l = tt

  gather-Kept :
      (target : ℕ) (gs : List ℕ) (cnt : ℕ) (buffer : List ℕ) (s : Store F)
      → P s
      → Ends GatheredKept (gather mtd target gs cnt buffer s)
  unfolding gather Ends GatheredKept
  gather-Kept target [] cnt buffer s l = l
  gather-Kept target (g ∷ gs) cnt buffer s l =
      Ends-if GatheredKept ((bucket_at s.hashtable g).index / s.pages_per_block == target) _ _
        (read (λ b t k. gather-Kept target gs (cnt + 1) b t k)
          (read_page mtd (bucket_at s.hashtable g).index s))
        l
    where
      read :
          ((b : List ℕ) (t : Store F)
            → P t
            → Ends GatheredKept (gather mtd target gs (cnt + 1) b t))
          → (p : Option (List ℕ))
          → Ends GatheredKept (elim p [
            | none ↦ crashes
            | some page ↦
                let buffer' = memcpy buffer (cnt * s.pages_per_block) page in
                let l = lengths_at (cnt * s.pages_per_block) buffer' in
                let key = key_at (cnt * s.pages_per_block) l.key_len buffer' in
                and_then (invalid_key (hash_search s.hash_size key s.hashtable) s) (λ s'.
                  and_then
                    (gather mtd target gs (cnt + 1) buffer' s')
                    (λ r. done (cons_lengths l r)))
          ])
      read rest none = tt
      read rest (some page) =
          let buffer' = memcpy buffer (cnt * s.pages_per_block) page in
          let ls = lengths_at (cnt * s.pages_per_block) buffer' in
          let key = key_at (cnt * s.pages_per_block) ls.key_len buffer' in
          let search = hash_search s.hash_size key s.hashtable in
          Ends-and_then P GatheredKept (invalid_key search s) _ (invalid_key-Kept search s l)
            (λ s' k.
              Ends-and_then GatheredKept GatheredKept (gather mtd target gs (cnt + 1) buffer' s') _
                (rest buffer' s' k) (λ r k'. k'))

  write_back-Kept :
      (victim i : ℕ) (ls : List Lengths) (buffer : List ℕ) (s : Store F)
      → P s
      → Ends P (write_back mtd victim i ls buffer s)
  unfolding write_back Ends
  write_back-Kept victim i [] buffer s h = h
  write_back-Kept victim i (l ∷ ls) buffer s h =
      let off = i * s.pages_per_block in
      let buffer' = rebuild off l buffer in
      let pg_index = victim * s.pages_per_block + (block_at s.blocks victim).current_page_offset in
      let key = key_at off l.key_len buffer' in
      Ends-and_then (After P) P _ _
        (write_page-Kept mtd P closed pg_index (take s.page_size (drop off buffer')) s h)
        (λ r k.
          let (ret2, t) = hash_add r.1.hash_size key pg_index r.1.hashtable in
          Ends-and_then P P _ _
            (linked_back-Kept victim ret2 r.0 (record r.1 { hashtable = t })
              (closed.at_added r.1 key pg_index k))
            (λ s' k'. write_back-Kept victim (i + 1) ls buffer' s' k'))

  open_victim-Kept : (victim : ℕ) (s : Store F) → P s → Ends P (open_victim mtd victim s)
  unfolding open_victim Ends
  open_victim-Kept victim s h =
      let pg_index = victim * s.pages_per_block + (block_at s.blocks victim).current_page_offset in
      Ends-if P (pg_index % s.pages_per_block == 0) _ _
        (Ends-and_then (After P) P (write_data_hdr mtd pg_index s) (λ r. done r.1)
          (write_data_hdr-Kept mtd P closed pg_index s h) (λ r k. k))
        h

  refill-Kept :
      (target victim : ℕ) (g : Gathered F) → GatheredKept g → Ends P (refill mtd target victim g)
  unfolding refill Ends GatheredKept
  refill-Kept target victim g h =
      let s = (format_single mtd (pos target) g.store).1 in
      Ends-and_then P P (open_victim mtd victim s) _
        (open_victim-Kept victim s (format_single-Kept mtd P closed (pos target) g.store h))
        (λ s₁ k.
          Ends-and_then P P (write_back mtd victim 0 g.lengths g.buffer s₁) _
            (write_back-Kept victim 0 g.lengths g.buffer s₁ k)
            (λ s₂ k'. mark_used-Kept mtd P closed victim s₂ k'))

  collect-Kept : (target victim : ℕ) (s : Store F) → P s → Ends P (collect mtd target victim s)
  unfolding collect
  collect-Kept target victim s h =
      let buffer = replicate (s.page_size * s.pages_per_block) 0 in
      Ends-and_then GatheredKept P _ _ (gather-Kept target (s.lists target) 0 buffer s h)
        (refill-Kept target victim)

  pub gc_locked-Kept : (s : Store F) → P s → Ends P (gc_locked mtd s)
  unfolding gc_locked
  gc_locked-Kept s h = collected (find_target (gc_order s) 0 s.blocks)
    where
      collected :
          (t : Option ℕ)
          → Ends P (elim t [
            | none ↦ done s
            | some target ↦
                let victim = victim_of target s in collect mtd target victim (mark_used victim s)
          ])
      collected none = unfold Ends in h
      collected (some target) =
          let victim = victim_of target s in
          collect-Kept target victim (mark_used victim s) (mark_used-Kept mtd P closed victim s h)
