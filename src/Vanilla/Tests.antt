-- ===== src/Vanilla/Tests.antt =====
-- The store on a flash of bytes, small runs, and the theorems at such states.
use linux_kernel_programming.Prelude.{
  ◌↔◌, ◌*◌, ℕ, zero, suc, ◌+◌, ◌≤◌, ◌<◌, ◌≡◌, refl, true, false, List, [], ◌∷◌, arith,
  if◌then◌else◌, length, some,
}
use linux_kernel_programming.Prelude.Int.{pos}
use linux_kernel_programming.Prelude.Bytes.{memcpy, starts_with}
use linux_kernel_programming.Vanilla.{
  Config, blk_used, blk_free, pg_free, pg_valid, is_free, block_at, erase_done, read_page, found,
  not_found, match_page, page_of, get_keyval, get_blocks, get_pages, set_keyval, format,
}
use linux_kernel_programming.Vanilla.ByteFlash.{Flash, overlay, driver, driver-IsMtd}
use linux_kernel_programming.Vanilla.Scan.{is_valid_page, page_at}
use linux_kernel_programming.Vanilla.Roundtrip.{IsValid, IsOpen, get_keyval-set_keyval}
use linux_kernel_programming.Vanilla.Format.{IsShaped, format-IsValid}
use linux_kernel_programming.Vanilla.Mount.{init_scan, last_written}
use linux_kernel_programming.Vanilla.Mount.Scanned.{is_written, init_scan-valid}
use linux_kernel_programming.Vanilla.Device.{kvlib_set, kvlib_get}
use linux_kernel_programming.Vanilla.Device.Codes.{closed, kvlib_get-kvlib_set}

-- Two blocks of two pages of 16 bytes, formatted.
abbrev store : Config Flash
store = record {
  flash = λ i. 255;
  nb_blocks = 2;
  block_size = 32;
  page_size = 16;
  current_block = pos 0;
  current_page_offset = 0;
  pages_per_block = 2;
  blocks =
      record { state = blk_used; pages_states = pg_free ∷ pg_free ∷ [] }
      ∷ record { state = blk_free; pages_states = pg_free ∷ pg_free ∷ [] }
      ∷ [];
  format_done = pos 0;
  read_only = false;
}

store-IsValid : IsValid store
store-IsValid = record {
  pages = refl;
  count = refl;
  full_blocks = sizes;
  free_empty = empty;
  addressable = omega arith;
}
  where
    sizes : (b : ℕ) → b < 2 → length (block_at store.blocks b).pages_states ≡ 2
    sizes zero h = refl
    sizes (suc zero) h = refl
    sizes (suc (suc b)) h = absurd (omega arith)

    free_pages : (j : ℕ) → is_valid_page (page_at (pg_free ∷ pg_free ∷ []) j) ≡ false
    free_pages zero = refl
    free_pages (suc zero) = refl
    free_pages (suc (suc j)) = refl

    empty :
        (b j : ℕ)
        → is_free (block_at store.blocks b).state ≡ true
        → is_valid_page (page_at (block_at store.blocks b).pages_states j) ≡ false
    empty zero j f = free_pages j
    empty (suc zero) j f = free_pages j
    empty (suc (suc b)) j f = refl

store-IsOpen : IsOpen store 0 0
store-IsOpen = record {
  block = refl;
  offset = refl;
  block_in = omega arith;
  offset_in = omega arith;
  used = refl;
  writable = refl;
}

abbrev key_a : List ℕ
key_a = b'a' ∷ []

abbrev val_xy : List ℕ
val_xy = b'x' ∷ b'y' ∷ []

key_missing : get_keyval (driver erase_done) key_a store ≡ not_found
unfolding get_keyval get_blocks get_pages
key_missing = refl

-- The key "ab" is taken for a lookup of "a".
prefix_found : match_page key_a 5 (some (page_of 16 (b'a' ∷ b'b' ∷ []) val_xy)) ≡ found 5 val_xy
unfolding match_page page_of memcpy starts_with
prefix_found = refl

get_keyval-set_keyval_example :
    get_keyval (driver erase_done) key_a (set_keyval (driver erase_done) key_a val_xy store).1
    ≡ found 0 val_xy
get_keyval-set_keyval_example =
    get_keyval-set_keyval store 0 0 store-IsValid store-IsOpen (driver erase_done)
      (driver-IsMtd erase_done) key_a val_xy (overlay 0 (page_of 16 key_a val_xy) (λ i. 255))
      key_missing (omega arith) (omega arith) refl

-- A store whose free block 0 holds a page, and which is read-only.
abbrev mixed : Config Flash
mixed = record store {
  read_only = true;
  blocks =
      record { state = blk_free; pages_states = pg_valid ∷ pg_free ∷ [] }
      ∷ record { state = blk_used; pages_states = pg_free ∷ pg_free ∷ [] }
      ∷ [];
}

mixed-IsShaped : IsShaped mixed
mixed-IsShaped = record {
  pages = refl;
  count = refl;
  full_blocks = sizes;
  addressable = omega arith;
}
  where
    sizes : (b : ℕ) → b < 2 → length (block_at mixed.blocks b).pages_states ≡ 2
    sizes zero h = refl
    sizes (suc zero) h = refl
    sizes (suc (suc b)) h = absurd (omega arith)

format-IsValid_example :
    let (ret, c') = format (driver erase_done) mixed in
    (ret ≡ pos 0)
    × IsValid c'
    × IsOpen c' 0 0
    × ((key : List ℕ) → get_keyval (driver erase_done) key c' ≡ not_found)
format-IsValid_example =
    format-IsValid (driver erase_done) mixed (λ i. 255) mixed-IsShaped (omega arith) (omega arith)
      refl

kvlib_get-kvlib_set_example :
    let after = (kvlib_set (driver erase_done) true 0 key_a val_xy (closed store)).1 in
    kvlib_get (driver erase_done) true 0 0 val_xy val_xy key_a after ≡ some (pos 0, val_xy, after)
kvlib_get-kvlib_set_example =
    kvlib_get-kvlib_set (driver erase_done) key_a val_xy store val_xy val_xy 0 0 store-IsValid
      store-IsOpen (driver-IsMtd erase_done) (overlay 0 (page_of 16 key_a val_xy) (λ i. 255))
      key_missing (omega arith) (omega arith) (omega arith) refl

-- The first page of the flash holds a couple.
abbrev stored : Config Flash
stored = record store { flash = overlay 0 (page_of 16 key_a val_xy) (λ i. 255); blocks = [] }

all_read :
    (index : ℕ) → (buffer : List ℕ) × (read_page (driver erase_done) stored index ≡ some buffer)
unfolding read_page
all_read index = (_, refl)

init_scan-valid_example :
    let (ret, c') = init_scan (driver erase_done) stored in
    (ret ≡ pos 0)
    × (length c'.blocks ≡ 2)
    × ((b j : ℕ)
        → b < 2
        → j < 2
        → (is_valid_page (page_at (block_at c'.blocks b).pages_states j) ≡ true) ↔ (
            (k : ℕ) → k ≤ j → is_written (read_page (driver erase_done) stored (b * 2 + k)) ≡ true))
    × ((b : ℕ)
        → b < 2
        → (is_free (block_at c'.blocks b).state ≡ false)
          ↔ (is_valid_page (page_at (block_at c'.blocks b).pages_states 0) ≡ true))
    × (c'.read_only ≡ (if last_written stored c'.blocks then true else false))
init_scan-valid_example =
    init_scan-valid (driver erase_done) stored (λ b k h l. all_read (b * 2 + k))
