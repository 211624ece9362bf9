-- ===== src/Serial/Collect/Idle.antt =====
-- Below the threshold garbage collection does nothing.
use linux_kernel_programming.Prelude.{
  ℕ, suc, ◌+◌, ◌<◌, ◌≡◌, refl, none, some, List, [], ◌∷◌, arith, false, leb, length,
}
use linux_kernel_programming.Vanilla.{Mtd}
use linux_kernel_programming.Serial.Blocks.{BlkInfo, block_at}
use linux_kernel_programming.Serial.Store.{Store}
use linux_kernel_programming.Serial.Collect.{invalid_threshold, find_target, gb_check}

pub find_target-none :
    (i : ℕ) (bs : List BlkInfo)
    → ((j : ℕ) → j < length bs → (block_at bs j).nb_invalid < invalid_threshold)
    → find_target i bs ≡ none
unfolding find_target
find_target-none i [] h = refl
find_target-none i (b ∷ bs) h =
    let first = h 0 (omega arith) in
    let e : leb invalid_threshold b.nb_invalid ≡ false = ground arith in
    rw e (find_target-none (i + 1) bs (λ j l. h (suc j) (omega arith)))

pub gb_check-idle :
    {F : Type 0} (mtd : Mtd F) (s : Store F)
    → ((j : ℕ)
        → j < length s.config.blocks
        → (block_at s.config.blocks j).nb_invalid < invalid_threshold)
    → gb_check mtd s ≡ some s
unfolding gb_check
gb_check-idle mtd s h = rw (find_target-none 0 s.config.blocks h, gb_check)
