-- ===== src/Parallel/Lock.antt =====
-- When the calls of the store release erase_lock.
use mathlib.Core.Path.{subst}
use linux_kernel_programming.Prelude.{
  ℕ, ◌+◌, ◌*◌, ◌/◌, ◌%◌, replicate, ◌≡◌, ◌≢◌, refl, ◌∙◌, Bool, true, false, Option, none, some,
  List, ◌⊎◌, drop, ltb, if◌then◌else◌, Bool-cases, inl, inr, length,
}
use linux_kernel_programming.Prelude.Int.{ℤ, pos, negsuc}
use linux_kernel_programming.Prelude.Words.{u64_mod}
use linux_kernel_programming.Prelude.Bytes.{starts_with}
use linux_kernel_programming.Vanilla.{Mtd, page_of}
use linux_kernel_programming.Serial.HashTable.{
  SearchResult, found, probed_all, absent, bucket_at, is_valid,
}
use linux_kernel_programming.Parallel.HashTable.{hash_search, hash_add}
use linux_kernel_programming.Parallel.{
  Store, Outcome, done, hangs, crashes, and_then, block_at, with_lock, mark_used, next_offset,
  check_full, is_read_only, drop_old, invalid_pg, write_page, write_data_hdr, prepare_block,
  get_next_block_to_write, get_healthy_block, link_page, put_page, set_locked, set_keyval,
  match_key, read_page, is_used, get_at, get_keyval, delete_at, del_key,
}

-- Whether get_next_block_to_write returns without a block.
abbrev pub no_block : {F : Type 0} → Outcome (ℤ × Store F) → Bool
no_block (done (negsuc n, s)) = true
no_block _ = false

-- Whether set_keyval keeps the lock: for a couple that is too big, or when it gets no block.
abbrev pub keeps_lock : {F : Type 0} → Mtd F → List ℕ → List ℕ → Store F → Bool
keeps_lock mtd key val s =
    if ltb s.page_size (length key + length val + 8)
    then true
    else if s.read_only
    then false
    else no_block
        (get_next_block_to_write mtd (drop_old (hash_search s.hash_size key s.hashtable) s))

-- The outcome is a return that leaves the lock as `held`, or a crash.
unfoldable pub LeavesLock : {F : Type 0} → Bool → Outcome (ℤ × Store F) → Type 0
LeavesLock held (done (ret, s)) = s.erase_lock ≡ held
LeavesLock held hangs = ⊥
LeavesLock held crashes = Unit

module _ {F : Type 0} where
  check_full-lock : (ret : ℤ) (s : Store F) → (check_full ret s).1.erase_lock ≡ s.erase_lock
  unfolding check_full
  check_full-lock ret s = elim (Bool-cases (is_read_only s)) [ inl e ↦ rw e | inr e ↦ rw e ]

  LeavesLock-if :
      (held b : Bool) (x y : Outcome (ℤ × Store F))
      → LeavesLock held x
      → LeavesLock held y
      → LeavesLock held (if b then x else y)
  LeavesLock-if held true x y p q = p
  LeavesLock-if held false x y p q = q

  LeavesLock-and_then :
      (k held : Bool) (o : Outcome (ℤ × Store F)) (f : ℤ × Store F → Outcome (ℤ × Store F))
      → LeavesLock k o
      → ((r : ℤ × Store F) → r.1.erase_lock ≡ k → LeavesLock held (f r))
      → LeavesLock held (and_then o f)
  unfolding LeavesLock and_then
  LeavesLock-and_then k held (done a) f p h = h a p
  LeavesLock-and_then k held hangs f p h = p
  LeavesLock-and_then k held crashes f p h = p

  drop_old-lock : (r : SearchResult) (s : Store F) → (drop_old r s).erase_lock ≡ s.erase_lock
  unfolding drop_old invalid_pg
  drop_old-lock (found g) s = refl
  drop_old-lock probed_all s = refl
  drop_old-lock absent s = refl

  module _ (mtd : Mtd F) where
    pub write_page-lock :
        (i : ℕ) (buf : List ℕ) (s : Store F) → LeavesLock s.erase_lock (write_page mtd i buf s)
    unfolding write_page LeavesLock
    write_page-lock i buf s =
        by_driver s.read_only (mtd.mtd_write (i * s.page_size % u64_mod) buf s.flash)
      where
        by_driver :
            (r : Bool) (w : Bool × F)
            → LeavesLock s.erase_lock (
                if r
                then done (check_full (negsuc 0) s)
                else if w.0
                then done (
                    check_full
                      (pos 0)
                      (next_offset (i / s.pages_per_block) (record s { flash = w.1 })))
                else crashes)
        by_driver true w = check_full-lock (negsuc 0) s
        by_driver false (true, f) =
            check_full-lock (pos 0) (next_offset (i / s.pages_per_block) (record s { flash = f }))
        by_driver false (false, f) = tt

    pub write_data_hdr-lock :
        (i : ℕ) (s : Store F) → LeavesLock s.erase_lock (write_data_hdr mtd i s)
    unfolding write_data_hdr LeavesLock
    write_data_hdr-lock i s = LeavesLock-if s.erase_lock s.meta_read_only _ _ refl (
        LeavesLock-and_then s.erase_lock s.erase_lock (write_page mtd i (replicate s.page_size 0) s)
          (λ r. done (r.0, mark_used (i / s.pages_per_block) r.1))
          (write_page-lock i (replicate s.page_size 0) s) (λ r k. k))

    get_next_block_to_write-lock :
        (s : Store F) → LeavesLock s.erase_lock (get_next_block_to_write mtd s)
    unfolding get_next_block_to_write prepare_block LeavesLock
    get_next_block_to_write-lock s = prepared (get_healthy_block s)
      where
        prepared : (b : ℤ) → LeavesLock s.erase_lock (prepare_block mtd b s)
        prepared (negsuc n) = refl
        prepared (pos b) =
            LeavesLock-if s.erase_lock (ltb (block_at s.blocks b).current_page_offset 1) _ _
              (write_data_hdr-lock
                (b * s.pages_per_block + (block_at s.blocks b).current_page_offset) (mark_used b s))
              refl

    put_page-lock :
        (key val : List ℕ) (o : Outcome (ℤ × Store F))
        → LeavesLock true o
        → LeavesLock (no_block o) (and_then o (put_page mtd key val))
    unfolding and_then put_page link_page LeavesLock
    put_page-lock key val (done (negsuc n, s)) h = h
    put_page-lock key val (done (pos b, s)) h =
        let index = b * s.pages_per_block + (block_at s.blocks b).current_page_offset in
        LeavesLock-and_then s.erase_lock false
          (write_page mtd index (page_of s.page_size key val) s) _
          (write_page-lock index (page_of s.page_size key val) s)
          (λ r w.
            linked (hash_add r.1.hash_size key index r.1.hashtable).0 r.0
              (record r.1 { hashtable = (hash_add r.1.hash_size key index r.1.hashtable).1 }))
      where
        linked : (g : Option ℕ) (ret : ℤ) (s : Store F) → LeavesLock false (link_page b g (ret, s))
        linked none ret s = tt
        linked (some g) ret s = refl
    put_page-lock key val hangs h = h
    put_page-lock key val crashes h = h

    set_locked-lock :
        (key val : List ℕ) (s : Store F)
        → s.erase_lock ≡ true
        → LeavesLock (keeps_lock mtd key val s) (set_locked mtd key val s)
    unfolding set_locked LeavesLock
    set_locked-lock key val s held =
        by_guards (ltb s.page_size (length key + length val + 8)) s.read_only
      where
        old : Store F
        old = drop_old (hash_search s.hash_size key s.hashtable) s

        kept : LeavesLock true (get_next_block_to_write mtd old)
        kept =
            subst (λ k. LeavesLock k (get_next_block_to_write mtd old))
              (drop_old-lock (hash_search s.hash_size key s.hashtable) s ∙ held)
              (get_next_block_to_write-lock old)

        by_guards :
            (big ro : Bool)
            → LeavesLock
                (if big
                  then true
                  else if ro
                  then false
                  else no_block (get_next_block_to_write mtd old))
                (if big
                  then done (negsuc 0, s)
                  else if ro
                  then done (negsuc 2, with_lock false s)
                  else and_then (get_next_block_to_write mtd old) (put_page mtd key val))
        by_guards true ro = held
        by_guards false true = refl
        by_guards false false = put_page-lock key val (get_next_block_to_write mtd old) kept

    -- With the lock free set_keyval does not hang. It keeps the lock exactly for a couple that is too big for a page,
    -- and, in a store that is not read-only, when it gets no block to write to.
    pub set_keyval-lock :
        (key val : List ℕ) (s : Store F)
        → s.erase_lock ≡ false
        → LeavesLock (keeps_lock mtd key val (with_lock true s)) (set_keyval mtd key val s)
    unfolding set_keyval
    set_keyval-lock key val s free = opened s.erase_lock free
      where
        opened :
            (held : Bool)
            → held ≡ false
            → LeavesLock
                (keeps_lock mtd key val (with_lock true s))
                (if held then hangs else set_locked mtd key val (with_lock true s))
        opened held f = rw f (set_locked-lock key val (with_lock true s) refl)

    -- With the lock free get_keyval does not hang. When it returns, the store is as before.
    pub get_keyval-lock :
        (key : List ℕ) (s : Store F)
        → s.erase_lock ≡ false
        → (get_keyval mtd key s ≡ crashes)
          ⊎ ((r : ℤ × List ℕ) × (get_keyval mtd key s ≡ done (r, with_lock false s)))
    unfolding get_keyval and_then
    get_keyval-lock key s free =
        opened s.erase_lock free _ (looked (hash_search s.hash_size key s.hashtable))
      where
        opened :
            (held : Bool)
            → held ≡ false
            → (o : Outcome (ℤ × List ℕ)) → o ≢ hangs
            → let x : Outcome ((ℤ × List ℕ) × Store F) =
                if held then hangs else and_then o (λ r. done (r, with_lock false s)) in
              (x ≡ crashes) ⊎ ((r : ℤ × List ℕ) × (x ≡ done (r, with_lock false s)))
        opened held f (done r) n = rw f (inr (r, refl))
        opened held f hangs n = absurd (n refl)
        opened held f crashes n = rw f (inl refl)

        matched : (page : ℕ) (buffer : Option (List ℕ)) → match_key key page buffer ≢ hangs
        matched page none = unfold match_key in λ e. cc
        matched page (some buffer) =
            unfold match_key in
            elim (Bool-cases (starts_with key (drop 8 buffer))) [
              | inl e ↦ rw e (λ q. cc)
              | inr e ↦ rw e (λ q. cc)
            ]

        looked : (r : SearchResult) → get_at mtd key r s ≢ hangs
        looked (found g) =
            unfold get_at in
            let b = bucket_at s.hashtable g in
            elim (Bool-cases (is_used (block_at s.blocks (b.index / s.pages_per_block)).state)) [
              | inr e ↦ rw e (λ q. cc)
              | inl e ↦ rw e (elim (Bool-cases (is_valid b.p_state)) [
                | inl v ↦ rw v (matched b.index (read_page mtd b.index s))
                | inr v ↦ rw v (λ q. cc)
              ])
            ]
        looked probed_all = unfold get_at in λ e. cc
        looked absent = unfold get_at in λ e. cc

  -- With the lock free del_key returns and leaves it free.
  pub del_key-lock :
      (key : List ℕ) (s : Store F)
      → s.erase_lock ≡ false
      → (ret : ℤ) × (s' : Store F) × (del_key key s ≡ done (ret, s')) × (s'.erase_lock ≡ false)
  unfolding del_key
  del_key-lock key s free =
      let (ret, s') = delete_at (hash_search s.hash_size key s.hashtable) s in
      (ret, with_lock false s', opened s.erase_lock free (done (ret, with_lock false s')), refl)
    where
      opened :
          (held : Bool)
          → held ≡ false
          → (x : Outcome (ℤ × Store F)) → (if held then hangs else x) ≡ x
      opened held f x = rw f
