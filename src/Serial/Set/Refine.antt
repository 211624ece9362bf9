-- ===== src/Serial/Set/Refine.antt =====
-- set_keyval puts a couple into the map that the store represents.
use linux_kernel_programming.Prelude.{
  if_false, ℕ, ◌+◌, ◌-◌, ◌≤◌, ◌<◌, ◌%◌, ◌≡◌, ◌⊎◌, inl, inr, refl, ◌∙◌, true, false, some, List,
  arith, length, ltb,
}
use linux_kernel_programming.Prelude.Int.{ℤ, pos, negsuc}
use linux_kernel_programming.Vanilla.{Mtd}
use linux_kernel_programming.Vanilla.Roundtrip.{IsMtd}
use linux_kernel_programming.Serial.HashTable.{hash, key_size}
use linux_kernel_programming.Serial.HashTable.Lookup.{has_room}
use linux_kernel_programming.Serial.Blocks.{get_healthy_block}
use linux_kernel_programming.Serial.Flash.Extends.{Accepts}
use linux_kernel_programming.Serial.Store.{Store}
use linux_kernel_programming.Serial.Insert.{store_pair}
use linux_kernel_programming.Serial.Insert.Represents.{Map, put, Represents}
use linux_kernel_programming.Serial.Insert.Refine.{store_pair-Represents}
use linux_kernel_programming.Serial.Collect.{invalid_threshold}
use linux_kernel_programming.Serial.Collect.Idle.{gb_check-idle}
use linux_kernel_programming.Serial.Persist.{Core, Memory}
use linux_kernel_programming.Serial.Set.Few.{FewInvalid, store_pair-FewInvalid}
use linux_kernel_programming.Serial.Set.{
  stamp, is_due, set_result, finish_set, set_stored, set_keyval,
}

-- A couple that does not fit a page, or any couple for a store that is read-only, is refused: nothing changes.
pub set_keyval-refused :
    {F : Type 0} (mtd : Mtd F) (memory : Memory F) (sec nsec : ℕ) (key val : List ℕ) (k : Core F)
    → ((k.store.config.page_size < length key + length val + 8)
        → set_keyval mtd memory sec nsec key val k ≡ some (negsuc 0, k))
      × (length key + length val + 8 ≤ k.store.config.page_size
          → k.store.config.read_only ≡ true
          → set_keyval mtd memory sec nsec key val k ≡ some (negsuc 2, k))
unfolding set_keyval
set_keyval-refused mtd memory sec nsec key val k = (
  λ big.
      let e : ltb k.store.config.page_size (length key + length val + 8) ≡ true = ground arith in
      rw e,
  λ small ro.
      let e : ltb k.store.config.page_size (length key + length val + 8) ≡ false = ground arith in
      rw (e, ro),
)

set_keyval-stored :
    {F : Type 0} (mtd : Mtd F) (memory : Memory F) (sec nsec : ℕ) (key val : List ℕ) (k : Core F)
    (ret : ℤ) (s' : Store F)
    → length key + length val + 8 ≤ k.store.config.page_size
    → k.store.config.read_only ≡ false
    → store_pair mtd key val k.store ≡ some (ret, s')
    → FewInvalid invalid_threshold s'.config.blocks
    → is_due (stamp sec nsec) k.time_flush ≡ false
    → set_keyval mtd memory sec nsec key val k ≡ some (set_result ret, record k { store = s' })
unfolding set_keyval set_stored finish_set
set_keyval-stored mtd memory sec nsec key val k ret s' fits writable stored low early =
    let e : ltb k.store.config.page_size (length key + length val + 8) ≡ false = ground arith in
    if_false _ _ _ e
    ∙ if_false _ _ _ writable
    ∙ rw (stored, set_stored, gb_check-idle mtd s' (λ j l. low j), early, finish_set)

result_cases :
    (ret : ℤ)
    → (ret ≡ pos 0) ⊎ (ret ≡ negsuc 0)
    → (set_result ret ≡ pos 0) ⊎ (set_result ret ≡ negsuc 2)
unfolding set_result
result_cases ret (inl e) = rw e (inl refl)
result_cases ret (inr e) = rw e (inr refl)

-- set_keyval puts the couple into the map and keeps the store valid, when no block is one short of the threshold
-- of garbage collection and no flush is due, under the conditions that the write of a couple has: a store that is
-- not read-only, a couple that fits a page, a block with a page left, a free bucket among those probed, and
-- a driver that accepts each write and keeps it. The key has fewer than 128 bytes. A couple with that key is replaced,
-- where the comment on the function says -2. It returns 0, or -3 when it took the last page.
pub set_keyval-Represents :
    {F : Type 0} (mtd : Mtd F) (memory : Memory F) (sec nsec : ℕ)
    → IsMtd mtd
    → Accepts mtd
    → (k : Core F) (m : Map) (key val : List ℕ) (b : ℕ) → Represents mtd k.store m
    → k.store.config.read_only ≡ false
    → length key + length val + 8 ≤ k.store.config.page_size
    → get_healthy_block k.store.config.pages_per_block k.store.config.blocks ≡ pos b
    → length key < key_size
    → has_room k.store.hash_size
        (k.store.hash_size - 1)
        (hash key % k.store.hash_size)
        k.store.hashtable
      ≡ true
    → FewInvalid (invalid_threshold - 1) k.store.config.blocks
    → is_due (stamp sec nsec) k.time_flush ≡ false
    → (ret : ℤ) × (s' : Store F) × (set_keyval mtd memory sec nsec key val k
        ≡ some (ret, record k { store = s' }))
      × ((ret ≡ pos 0) ⊎ (ret ≡ negsuc 2))
      × Represents mtd s' (put key val m)
set_keyval-Represents mtd memory sec nsec laws accepts k m key val b r writable fits healthy short
      room few early =
    let (ret, s', stored, result, after) =
      store_pair-Represents mtd laws accepts k.store m key val b r writable fits healthy short
        room in
    (
      set_result ret,
      s',
      set_keyval-stored mtd memory sec nsec key val k ret s' fits writable stored
          (store_pair-FewInvalid mtd key val k.store ret s' (invalid_threshold - 1) few stored)
          early,
      result_cases ret result,
      after,
    )
