-- ===== src/Serial/Insert.antt =====
-- The first part of set_keyval in p6/prototype-serial/kernel/core.c: the old page of the key is given up
-- and the couple is written. `none` stands for an access outside the arrays, to `blocks[-1]` when
-- no block is left and to `hashtable[-1]` when the table is full.
pub mod Represents
pub mod Steps
pub mod Refine
pub mod Delete
use linux_kernel_programming.Prelude.{
  ℕ, zero, suc, ◌+◌, ◌*◌, ◌==◌, Option, none, some, List, ◌∷◌, if◌then◌else◌,
}
use linux_kernel_programming.Prelude.Int.{ℤ, pos, negsuc}
use linux_kernel_programming.Vanilla.{Mtd, page_of}
use linux_kernel_programming.Serial.HashTable.{SearchResult, found, hash_search, hash_add}
use linux_kernel_programming.Serial.Blocks.{block_at}
use linux_kernel_programming.Serial.Flash.{Config, write_page, get_next_page}
use linux_kernel_programming.Serial.Store.{Store, invalid_pg}

module _ {F : Type 0} where
  -- A key that is stored gives up its page.
  unfoldable pub drop_old : SearchResult → Store F → Store F
  unfolding invalid_pg
  drop_old (found g) s = invalid_pg g s
  drop_old _ s = s

  -- `list_add(&hashtable[g].p_list, blocks[b].list)`
  abbrev pub list_add : ℕ → ℕ → Store F → Store F
  list_add b g s = record s {
    config = record s.config {
      lists = λ k. if k == b then g ∷ s.config.lists k else s.config.lists k;
    };
  }

  unfoldable pub link_page : ℕ → Option ℕ → ℤ × Store F → Option (ℤ × Store F)
  link_page b none r = none
  link_page b (some g) (ret, s) = some (ret, list_add b g s)

  module _ (mtd : Mtd F) (key val : List ℕ) where
    -- The write into the block that get_next_page returned; the result is that of write_page.
    unfoldable pub put_page : ℤ → Store F → Option (ℤ × Store F)
    unfolding link_page
    put_page (negsuc n) s = none
    put_page (pos b) s =
        let index =
          b * s.config.pages_per_block + (block_at s.config.blocks b).current_page_offset in
        let (ret, c) = write_page mtd index (page_of s.config.page_size key val) s.config in
        let (ret2, t) = hash_add s.hash_size key index s.hashtable in
        link_page b ret2 (ret, record s { config = c; hashtable = t })

    unfoldable pub store_pair : Store F → Option (ℤ × Store F)
    unfolding drop_old put_page
    store_pair s =
        let s₁ = drop_old (hash_search s.hash_size key s.hashtable) s in
        let (target, c) = get_next_page mtd s₁.config in put_page target (record s₁ { config = c })
