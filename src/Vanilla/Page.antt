-- ===== src/Vanilla/Page.antt =====
-- The page that set_keyval writes, and what get_keyval reads back from it.
use linux_kernel_programming.Prelude.{
  ℕ, ◌+◌, ◌-◌, ◌≤◌, ◌<◌, ◌≡◌, refl, true, false, some, List, [], ◌++◌, append_assoc, arith, ◌==◌,
  length, take, drop, replicate, length-append, length-replicate,
}
use linux_kernel_programming.Prelude.Bytes.{
  le32, le_value, le_value-le32, memcpy, memcpy-append, drop-replicate, starts_with,
  starts_with-append, take-append_self, drop-append_self,
}
use linux_kernel_programming.Vanilla.{page_of, free_mark, found, match_page}

-- The last copy, behind the sizes and the key.
write_val :
    (k v key val rest : List ℕ)
    → length k + length v ≡ 8
    → memcpy (k ++ (v ++ (key ++ rest))) (8 + length key) val
      ≡ k ++ (v ++ (key ++ (val ++ drop (length val) rest)))
write_val k v key val rest h =
    let e : length (k ++ (v ++ key)) ≡ 8 + length key =
      omega (arith, length-append k (v ++ key), length-append v key) in
    let m = memcpy-append (k ++ (v ++ key)) rest val in
    rw
      (
        append_assoc k (v ++ key) rest,
        append_assoc v key rest,
        append_assoc k (v ++ key) (val ++ drop (length val) rest),
        append_assoc v key (val ++ drop (length val) rest),
        e,
      )
      at m

-- The page is the two sizes, the key, the value, and zeros up to the page size.
pub page_of-append :
    (page_size : ℕ) (key val : List ℕ)
    → page_of page_size key val
      ≡ le32 (length key)
        ++ (le32 (length val)
            ++ (key ++ (val ++ replicate (page_size - 8 - length key - length val) 0)))
unfolding page_of
page_of-append page_size key val =
    let z : List ℕ = replicate page_size 0 in
    let k = le32 (length key) in
    let v = le32 (length val) in
    let r₂ = drop 4 (drop 4 z) in
    let r₃ = drop (length key) r₂ in
    let e₁ : memcpy z 0 k ≡ k ++ drop 4 z = memcpy-append [] z k in
    let e₂ : memcpy (k ++ drop 4 z) 4 v ≡ k ++ (v ++ r₂) = memcpy-append k (drop 4 z) v in
    let e₃ : memcpy (k ++ (v ++ r₂)) 8 key ≡ k ++ (v ++ (key ++ r₃)) =
      memcpy-append (k ++ v) r₂ key in
    let e₄ : memcpy (k ++ (v ++ (key ++ r₃))) (8 + length key) val
        ≡ k ++ (v ++ (key ++ (val ++ drop (length val) r₃))) =
      write_val k v key val r₃ refl in
    let z₁ : drop (length val) r₃ ≡ replicate (page_size - 4 - 4 - length key - length val) 0 = rw (
      drop-replicate 4 page_size 0,
      drop-replicate 4 (page_size - 4) 0,
      drop-replicate (length key) (page_size - 4 - 4) 0,
      drop-replicate (length val) (page_size - 4 - 4 - length key) 0,
    ) in
    let z₂ : page_size - 4 - 4 - length key - length val ≡ page_size - 8 - length key - length val =
      omega arith in
    rw (e₁, e₂, e₃, e₄, z₁, z₂)

-- A page is exactly one flash page long, if the couple fits.
pub length-page_of :
    (page_size : ℕ) (key val : List ℕ)
    → length key + length val + 8 ≤ page_size
    → length (page_of page_size key val) ≡ page_size
length-page_of page_size key val h =
    let z : ℕ = 0 in
    let zeros : List ℕ = replicate (page_size - 8 - length key - length val) 0 in
    rw (page_of-append page_size key val) (
      omega (
        arith,
        length-append key (val ++ zeros),
        length-append val zeros,
        length-replicate (page_size - 8 - length key - length val) z,
      ))

rest_value :
    (index : ℕ) (key val zeros head : List ℕ)
    → length head ≡ 8
    → found index (take (length val) (drop (8 + length key) (head ++ (key ++ (val ++ zeros)))))
      ≡ found index val
rest_value index key val zeros head h =
    let e : 8 + length key ≡ length (head ++ key) = omega (arith, length-append head key) in
    rw (
      e,
      ← append_assoc head key (val ++ zeros),
      drop-append_self (head ++ key) (val ++ zeros),
      take-append_self val zeros,
    )

-- get_keyval takes a stored page for every key that the stored key begins with, and returns the
-- stored value.
pub match_page-page_of :
    (page_size index : ℕ) (key extra val : List ℕ)
    → length (key ++ extra) < free_mark
    → length val < free_mark
    → match_page key index (some (page_of page_size (key ++ extra) val)) ≡ found index val
unfolding match_page
match_page-page_of page_size index key extra val hk hv =
    rw (page_of-append page_size (key ++ extra) val) (
      let stored = key ++ extra in
      let k : le_value (le32 (length stored)) ≡ length stored =
        le_value-le32 (length stored) (omega arith) in
      let v : le_value (le32 (length val)) ≡ length val =
        le_value-le32 (length val) (omega arith) in
      let sized : (length stored == free_mark) ≡ false = ground arith in
      let zeros : List ℕ = replicate (page_size - 8 - length stored - length val) 0 in
      let prefix : starts_with key (stored ++ (val ++ zeros)) ≡ true =
        rw (append_assoc key extra (val ++ zeros))
          (starts_with-append key (extra ++ (val ++ zeros))) in
      rw (k, v, sized, prefix)
        (rest_value index stored val zeros (le32 (length stored) ++ le32 (length val)) refl))
