-- ===== src/Serial/Set.antt =====
-- set_keyval in p6/prototype-serial/kernel/core.c, with the garbage collection and the flush of the
-- metadata that follow the write. `none` stands for BUG() and for an access outside an array.
pub mod Few
pub mod Refine
use linux_kernel_programming.Prelude.{
  ℕ, zero, suc, ◌+◌, ◌*◌, ◌%◌, Bool, Option, none, some, List, ltb, leb, if◌then◌else◌, length,
}
use linux_kernel_programming.Prelude.Int.{ℤ, pos, negsuc}
use linux_kernel_programming.Prelude.Words.{u64_mod, sub64}
use linux_kernel_programming.Vanilla.{Mtd}
use linux_kernel_programming.Serial.Store.{Store}
use linux_kernel_programming.Serial.Insert.{store_pair}
use linux_kernel_programming.Serial.Collect.{gb_check}
use linux_kernel_programming.Serial.Persist.{Core, Memory, flush_metadata}

-- The time of day that the code keeps in an `unsigned long`: seconds times a million, plus the nanoseconds.
abbrev pub stamp : ℕ → ℕ → ℕ
stamp tv_sec tv_nsec = (tv_sec * 1000000 + tv_nsec) % u64_mod

abbrev pub is_due : ℕ → ℕ → Bool
is_due time_write time_flush = leb 1000000 (sub64 time_write time_flush)

-- The result of set_keyval by that of write_page.
unfoldable pub set_result : ℤ → ℤ
set_result (negsuc zero) = negsuc 2
set_result (negsuc (suc zero)) = negsuc 3
set_result _ = pos 0

abbrev pub flushed : {F : Type 0} → ℤ → Option (ℤ × Core F) → Option (ℤ × Core F)
flushed ret none = none
flushed ret (some (_, k)) = some (set_result ret, k)

module _ {F : Type 0} (mtd : Mtd F) (memory : Memory F) (tv_sec tv_nsec : ℕ) where
  -- The end of set_keyval, after gb_check. The result of flush_metadata is ignored.
  unfoldable pub finish_set : ℤ → Core F → Option (ℤ × Core F)
  finish_set ret k =
      let now = stamp tv_sec tv_nsec in
      if is_due now k.time_flush
      then flushed ret (flush_metadata mtd memory now k)
      else some (set_result ret, k)

  unfoldable pub set_stored : List ℕ → List ℕ → Core F → Option (ℤ × Core F)
  unfolding finish_set
  set_stored key val k = elim (store_pair mtd key val k.store) [
    | none ↦ none
    | some (ret, s₁) ↦ elim (gb_check mtd s₁) [
      | none ↦ none
      | some s₂ ↦ finish_set ret (record k { store = s₂ })
    ]
  ]

  unfoldable pub set_keyval : List ℕ → List ℕ → Core F → Option (ℤ × Core F)
  unfolding set_stored
  set_keyval key val k =
      if ltb k.store.config.page_size (length key + length val + 8)
      then some (negsuc 0, k)
      else if k.store.config.read_only
      then some (negsuc 2, k)
      else set_stored key val k
