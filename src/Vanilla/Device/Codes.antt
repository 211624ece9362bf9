-- ===== src/Vanilla/Device/Codes.antt =====
-- What the library reports of the store.
use linux_kernel_programming.Prelude.{
  ℕ, zero, suc, ◌+◌, ◌*◌, ◌%◌, ◌≤◌, length, ltb, ◌<◌, ◌≡◌, ◌⊎◌, refl, ap, true, false, List, ◌==◌,
  some, arith, inl, inr,
}
use linux_kernel_programming.Prelude.Int.{pos, negsuc}
use linux_kernel_programming.Vanilla.{
  Mtd, Config, found, not_found, get_keyval, set_keyval, page_of, free_mark,
}
use linux_kernel_programming.Prelude.Words.{u64_mod}
use linux_kernel_programming.Vanilla.Roundtrip.{IsMtd, IsValid, IsOpen, get_keyval-set_keyval}
use linux_kernel_programming.Vanilla.Device.{
  Device, got, set_return, get_return, reply_get, printed, device_open, device_ioctl,
  device_release, kvlib_set, kvlib_get,
}

-- The device that no process has open.
abbrev pub closed : {F : Type 0} → Config F → Device F
closed c = record { config = c; file_is_open = false }

kvlib_get-found :
    {F : Type 0} (mtd : Mtd F) (key val : List ℕ) (c : Config F) (heap value : List ℕ) (page : ℕ)
    → get_keyval mtd key c ≡ found page val
    → length val ≤ length value
    → kvlib_get mtd true 0 0 heap value key (closed c) ≡ some (pos 0, val, closed c)
unfolding kvlib_get device_ioctl reply_get get_return device_open device_release printed
kvlib_get-found mtd key val c heap value page h room =
    let short : ltb (length val) (length value + 1) ≡ true = ground arith in
    let text : printed (length value + 1) heap (some val) ≡ some val = rw short in
    rw h (ap (got (pos 0) (closed c)) text)

module _ {F : Type 0} (mtd : Mtd F) (key val : List ℕ) (c : Config F) where
  -- If the copy from user space fails, nothing is stored and the store and the device are as
  -- before, but kvlib_set returns 0, the code of success: the status -7 of the device has no case in
  -- the library.
  pub kvlib_set-uncopied :
      (uncopied_in : ℕ)
      → 0 < uncopied_in
      → kvlib_set mtd true uncopied_in key val (closed c) ≡ (pos 0, closed c)
  unfolding kvlib_set
  kvlib_set-uncopied zero h = absurd (omega arith)
  kvlib_set-uncopied (suc n) h = let e : (suc n == 0) ≡ false = ground arith in rw e

  -- kvlib_get returns 0 and what its fresh buffer held when the key could not be copied in, or when the value
  -- of a stored key could not be copied out: the status -5 of the device has no case in the library.
  pub kvlib_get-uncopied :
      (heap value : List ℕ) (uncopied_in uncopied_out page : ℕ)
      → (0 < uncopied_in) ⊎ ((0 < uncopied_out) × (get_keyval mtd key c ≡ found page val))
      → kvlib_get mtd true uncopied_in uncopied_out heap value key (closed c)
        ≡ some (pos 0, heap, closed c)
  unfolding kvlib_get device_ioctl reply_get get_return device_open device_release printed
  kvlib_get-uncopied heap value (suc n) out page h =
      let e : (suc n == 0) ≡ false = ground arith in rw e
  kvlib_get-uncopied heap value zero zero page h = absurd (nothing h)
    where
      nothing : (0 < 0) ⊎ ((0 < 0) × (get_keyval mtd key c ≡ found page val)) → ⊥
      nothing (inl l) = omega arith
      nothing (inr r) = omega (arith, r.0)
  kvlib_get-uncopied heap value zero (suc m) page (inl l) = absurd (omega arith)
  kvlib_get-uncopied heap value zero (suc m) page (inr r) = rw r.1

  kvlib_set-code :
      kvlib_set mtd true 0 key val (closed c)
      ≡ (set_return (some (set_keyval mtd key val c).0), closed (set_keyval mtd key val c).1)
  unfolding kvlib_set
  kvlib_set-code = refl

  -- Through the library: under the conditions of the round trip of the store, with all bytes copied
  -- and all ioctl calls reaching the device, and with a buffer of the caller that holds a string at least as long
  -- as the value, kvlib_get returns 0 and the value after kvlib_set, and leaves the device as it was.
  pub kvlib_get-kvlib_set :
      (heap value : List ℕ) (b o : ℕ)
      → IsValid c
      → IsOpen c b o
      → IsMtd mtd
      → (f' : F) → get_keyval mtd key c ≡ not_found
      → length key + length val + 8 ≤ c.page_size
      → c.page_size < free_mark
      → length val ≤ length value
      → mtd.mtd_write
          ((b * c.pages_per_block + o) * c.page_size % u64_mod)
          (page_of c.page_size key val)
          c.flash
        ≡ (true, f')
      → let after = (kvlib_set mtd true 0 key val (closed c)).1 in
        kvlib_get mtd true 0 0 heap value key after ≡ some (pos 0, val, after)
  kvlib_get-kvlib_set heap value b o v q laws f' missing fits sized room done =
      let r = get_keyval-set_keyval c b o v q mtd laws key val f' missing fits sized done in
      rw (kvlib_set-code) (kvlib_get-found mtd key val _ heap value _ r room)

-- The codes of set_keyval in the library: 0 stays, and -1 to -4 become -3 to -6.
pub set_return-code :
    (n : ℕ)
    → n < 4
    → (set_return (some (negsuc n)) ≡ negsuc (n + 2)) × (set_return (some (pos n)) ≡ pos 0)
unfolding set_return
set_return-code zero h = (refl, refl)
set_return-code (suc zero) h = (refl, refl)
set_return-code (suc (suc zero)) h = (refl, refl)
set_return-code (suc (suc (suc zero))) h = (refl, refl)
set_return-code (suc (suc (suc (suc n)))) h = absurd (omega arith)
