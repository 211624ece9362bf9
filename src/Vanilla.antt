-- ===== src/Vanilla.antt =====
-- p6/prototype-vanilla/kernel/core.c: the key-value store that scans the flash for each lookup.
pub mod Page
pub mod Scan
pub mod Alloc
pub mod Roundtrip
pub mod Format
pub mod Mount
pub mod Device
pub mod ByteFlash
mod Tests
use linux_kernel_programming.Prelude.{
  ℕ, zero, suc, ◌+◌, ◌-◌, ◌*◌, ◌/◌, ◌%◌, Bool, true, false, ◌&&◌, Option, none, some, List, [], ◌∷◌,
  ltb, ◌==◌, if◌then◌else◌, get_or, set, take, drop, replicate, length, map,
}
use linux_kernel_programming.Prelude.Int.{ℤ, pos, negsuc, sub_ℕ, pos_part}
use linux_kernel_programming.Prelude.Words.{u64_mod}
use linux_kernel_programming.Prelude.Bytes.{le32, le_value, memcpy, starts_with}

pub data BlkState : Type 0 where
  blk_free blk_used : BlkState

pub data PageState : Type 0 where
  pg_free pg_valid : PageState

pub record BlkInfo : Type 0 where
  pub state : BlkState
  pub pages_states : List PageState

abbrev pub is_free : BlkState → Bool
is_free blk_free = true
is_free blk_used = false

-- What an erase request ends in: refused at once, or accepted with the state that the driver hands
-- to the callback.
pub data EraseResult : Type 0 where
  erase_rejected erase_done erase_failed : EraseResult

-- The MTD driver over a flash `F`: `_read` of an address and a length (`none` is an error), `_write`
-- of bytes (whether it returned 0), `_erase` of a range.
pub record Mtd (F : Type 0) : Type 0 where
  pub mtd_read : ℕ → ℕ → F → Option (List ℕ)
  pub mtd_write : ℕ → List ℕ → F → Bool × F
  pub mtd_erase : ℕ → ℕ → F → EraseResult × F

-- `lkp_kv_cfg`, with the contents of the flash. The semaphore is not modelled.
pub record Config (F : Type 0) : Type 0 where
  pub flash : F
  pub nb_blocks : ℕ
  pub block_size : ℕ
  pub page_size : ℕ
  pub current_block : ℤ
  pub current_page_offset : ℕ
  pub pages_per_block : ℕ
  pub blocks : List BlkInfo
  pub format_done : ℤ
  pub read_only : Bool

abbrev pub no_block : BlkInfo
no_block = record { state = blk_free; pages_states = [] }

abbrev pub block_at : List BlkInfo → ℕ → BlkInfo
block_at bs i = get_or bs i no_block

-- `blocks[i].state = state`
abbrev pub set_block_state : ℕ → BlkState → List BlkInfo → List BlkInfo
set_block_state i state bs = set bs i (record (block_at bs i) { state = state })

-- `blocks[i].pages_states[j] = PG_VALID`
abbrev pub set_page_valid : ℕ → ℕ → List BlkInfo → List BlkInfo
set_page_valid i j bs =
    set bs i (record (block_at bs i) { pages_states = set (block_at bs i).pages_states j pg_valid })

-- The conversion of an `int` to `uint64_t`.
abbrev pub to_u64 : ℤ → ℕ
to_u64 (pos n) = n
to_u64 (negsuc n) = u64_mod - 1 - n

-- `block * pages_per_block + offset`
abbrev pub page_index_of : ℕ → ℤ → ℕ → ℤ
page_index_of pages_per_block (pos b) offset = pos (b * pages_per_block + offset)
page_index_of pages_per_block (negsuc n) offset = sub_ℕ offset (suc n * pages_per_block)

-- The lowest free block from index `i` on, or -1.
unfoldable pub free_from : ℕ → List BlkInfo → ℤ
free_from i [] = negsuc 0
free_from i (b ∷ bs) = let rest = free_from (i + 1) bs in if is_free b.state then pos i else rest

-- The page that set_keyval writes: sizes, key and value over zeros.
unfoldable pub page_of : ℕ → List ℕ → List ℕ → List ℕ
page_of page_size key val =
    let zeros = replicate page_size 0 in
    let b₁ = memcpy zeros 0 (le32 (length key)) in
    let b₂ = memcpy b₁ 4 (le32 (length val)) in
    let b₃ = memcpy b₂ 8 key in memcpy b₃ (8 + length key) val

abbrev pub free_mark : ℕ
free_mark = 0xffff_ffff

-- The return value of get_keyval: the page and the value, -1, -2.
pub data GetResult : Type 0 where
  found : (page : ℕ) (value : List ℕ) → GetResult
  not_found read_error : GetResult

-- What the loop of get_keyval does with a page that it read: `not_found` goes on.
unfoldable pub match_page : List ℕ → ℕ → Option (List ℕ) → GetResult
match_page key index none = read_error
match_page key index (some buffer) =
    let key_len = le_value (take 4 buffer) in
    let val_len = le_value (take 4 (drop 4 buffer)) in
    if key_len == free_mark
    then not_found
    else if starts_with key (drop 8 buffer)
    then found index (take val_len (drop (8 + key_len) buffer))
    else not_found

-- The first answer of two parts of a scan.
abbrev pub or_next : GetResult → GetResult → GetResult
or_next not_found next = next
or_next (found page value) next = found page value
or_next read_error next = read_error

module _ {F : Type 0} where
  unfoldable pub get_next_free_block : Config F → ℤ
  unfolding free_from
  get_next_free_block c = free_from 0 c.blocks

  -- The new block, or -1 with no other change.
  unfoldable pub open_block : ℤ → Config F → ℤ × Config F
  open_block (negsuc n) c = (negsuc 0, record c { current_block = negsuc n })
  open_block (pos b) c = (
    pos 0,
    record c {
      current_block = pos b;
      blocks = set_block_state b blk_used c.blocks;
      current_page_offset = 0;
    },
  )

  unfoldable pub get_next_page_index_to_write : Config F → ℤ × Config F
  get_next_page_index_to_write c =
      let c₁ = record c { current_page_offset = c.current_page_offset + 1 } in
      if c₁.current_page_offset == c.block_size / c.page_size
      then open_block (get_next_free_block c₁) c₁
      else (pos c₁.current_page_offset, c₁)

  -- The end of write_page: no block left means read-only mode and -1.
  unfoldable pub finish_write : ℤ × Config F → ℤ × Config F
  finish_write (negsuc n, c) = (negsuc 0, record c { read_only = true })
  finish_write (pos n, c) = (pos 0, c)

  -- The return value of set_keyval by that of write_page.
  unfoldable pub set_result : ℤ × Config F → ℤ × Config F
  set_result (pos n, c) = (pos 0, c)
  set_result (negsuc zero, c) = (negsuc 2, c)
  set_result (negsuc (suc zero), c) = (negsuc 3, c)
  set_result (negsuc (suc (suc n)), c) = (pos 0, c)

  -- The metadata after a successful erase.
  unfoldable pub reset : Config F → Config F
  reset c = record c {
    blocks = set_block_state 0 blk_used (
        map (λ b. record { state = blk_free; pages_states = map (λ _. pg_free) b.pages_states })
          c.blocks);
    current_block = pos 0;
    current_page_offset = 0;
    read_only = false;
  }

  -- The callback has run when the wait ends: `format_done` is 1 or -1.
  unfoldable pub format_with : EraseResult × F → Config F → ℤ × Config F
  format_with (erase_rejected, flash') c =
      (negsuc 0, record c { flash = flash'; format_done = pos 0 })
  format_with (erase_failed, flash') c =
      (negsuc 0, record c { flash = flash'; format_done = negsuc 0 })
  format_with (erase_done, flash') c =
      (pos 0, reset (record c { flash = flash'; format_done = pos 1 }))

  module _ (mtd : Mtd F) where
    unfoldable pub read_page : Config F → ℕ → Option (List ℕ)
    read_page c page_index = mtd.mtd_read (page_index * c.page_size % u64_mod) c.page_size c.flash

    unfoldable pub write_page : ℤ → List ℕ → Config F → ℤ × Config F
    write_page page_index buf c =
        let (done, flash') =
          mtd.mtd_write (to_u64 page_index * c.page_size % u64_mod) buf c.flash in
        let c₁ = record c { flash = flash' } in
        let i = pos_part page_index in
        let c₂ = record c₁ {
          blocks = set_page_valid (i / c.pages_per_block) (i % c.pages_per_block) c.blocks;
        } in
        if c.read_only
        then (negsuc 0, c)
        else if done
        then finish_write (get_next_page_index_to_write c₂)
        else (negsuc 1, c₁)

    -- The pages of one block, from page `index` on. Only valid pages are read.
    unfoldable pub get_pages : Config F → List ℕ → ℕ → List PageState → GetResult
    get_pages c key index [] = not_found
    get_pages c key index (pg_free ∷ ps) = get_pages c key (index + 1) ps
    get_pages c key index (pg_valid ∷ ps) =
        or_next (match_page key index (read_page c index)) (get_pages c key (index + 1) ps)

    -- The blocks from block `i` on. Only used blocks are scanned.
    unfoldable pub get_blocks : Config F → List ℕ → ℕ → List BlkInfo → GetResult
    get_blocks c key i [] = not_found
    get_blocks c key i (b ∷ bs) =
        let rest = get_blocks c key (i + 1) bs in
        if is_free b.state
        then rest
        else or_next (get_pages c key (i * c.pages_per_block) b.pages_states) rest

    unfoldable pub get_keyval : List ℕ → Config F → GetResult
    get_keyval key c = get_blocks c key 0 c.blocks

    -- A key that get_keyval finds is refused; a read error lets the write go on.
    unfoldable pub write_new : GetResult → List ℕ → List ℕ → Config F → ℤ × Config F
    write_new (found page value) key val c = (negsuc 1, c)
    write_new _ key val c =
        let index = page_index_of c.pages_per_block c.current_block c.current_page_offset in
        set_result (write_page index (page_of c.page_size key val) c)

    unfoldable pub set_keyval : List ℕ → List ℕ → Config F → ℤ × Config F
    set_keyval key val c =
        if ltb c.page_size (length key + length val + 8)
        then (negsuc 0, c)
        else write_new (get_keyval key c) key val c

    unfoldable pub format : Config F → ℤ × Config F
    format c = format_with (mtd.mtd_erase 0 (c.block_size * c.nb_blocks % u64_mod) c.flash) c
