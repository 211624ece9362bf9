-- ===== src/Parallel/Device/Blocks.antt =====
-- A couple that is too big and the calls of the library after it.
use linux_kernel_programming.Prelude.{
  if_true, if_false, ℕ, ◌+◌, ◌<◌, ◌≡◌, refl, ◌∙◌, true, false, List, none, length, ltb, arith,
}
use linux_kernel_programming.Prelude.Int.{negsuc}
use linux_kernel_programming.Vanilla.{Mtd}
use linux_kernel_programming.Vanilla.Device.{set_return}
use linux_kernel_programming.Parallel as Parallel
use linux_kernel_programming.Parallel.{
  Store, Outcome, done, hangs, and_then, with_lock, set_locked, get_keyval, del_key,
}
use linux_kernel_programming.Parallel.Flush.{Image}
use linux_kernel_programming.Parallel.System.{System, set_keyval}
use linux_kernel_programming.Parallel.Device.{Device, kvlib_set, kvlib_get, kvlib_del}

-- A device that no process has open.
abbrev pub closed : {F : Type 0} → System F → Device F
closed k = record { system = k; file_is_open = false }

module _ {F : Type 0} (mtd : Mtd F) (m : Image F) where
  -- The store refuses the couple with the lock held.
  set_keyval-big :
      (key val : List ℕ) (s : Store F)
      → s.erase_lock ≡ false
      → s.page_size < length key + length val + 8
      → Parallel.set_keyval mtd key val s ≡ done (negsuc 0, with_lock true s)
  set_keyval-big key val s free big =
      let e : ltb s.page_size (length key + length val + 8) ≡ true = ground arith in
      unfold Parallel.set_keyval set_locked in
      if_false s.erase_lock _ _ free ∙ if_true (ltb s.page_size (length key + length val + 8)) _ _ e

  system-big :
      (key val : List ℕ) (k : System F)
      → k.store.erase_lock ≡ false
      → k.store.page_size < length key + length val + 8
      → set_keyval mtd m key val k ≡ done (negsuc 0, record k { store = with_lock true k.store })
  unfolding set_keyval and_then
  system-big key val k free big =
      let e : ltb k.store.page_size (length key + length val + 8) ≡ true = ground arith in
      rw (set_keyval-big key val k.store free big, e)

  -- The calls wait for a lock that is held.
  held-get :
      (heap value key : List ℕ) (out : ℕ) (k : System F)
      → k.store.erase_lock ≡ true
      → kvlib_get mtd m true 0 out heap value key (closed k) ≡ hangs
  unfolding kvlib_get and_then
  held-get heap value key out k held =
      let e : get_keyval mtd key k.store ≡ hangs =
        unfold get_keyval in if_true k.store.erase_lock _ _ held in
      rw e

  held-del :
      (key : List ℕ) (k : System F)
      → k.store.erase_lock ≡ true
      → kvlib_del mtd m true 0 key (closed k) ≡ hangs
  unfolding kvlib_del and_then
  held-del key k held =
      let e : del_key key k.store ≡ hangs = unfold del_key in if_true k.store.erase_lock _ _ held in
      rw e

  held-set :
      (key val : List ℕ) (k : System F)
      → k.store.erase_lock ≡ true
      → kvlib_set mtd m true 0 key val (closed k) ≡ hangs
  unfolding kvlib_set and_then set_keyval
  held-set key val k held =
      let e : Parallel.set_keyval mtd key val k.store ≡ hangs =
        unfold Parallel.set_keyval in if_true k.store.erase_lock _ _ held in
      rw e

  -- When a program stores a couple that is too big for a page, with the lock free and the device closed, kvlib_set returns
  -- -3, the code for it, and every kvlib_set, kvlib_get and kvlib_del after it hangs, whatever its arguments.
  pub kvlib_set-blocks :
      (key val key' val' heap value : List ℕ) (out : ℕ) (k : System F)
      → k.store.erase_lock ≡ false
      → k.store.page_size < length key + length val + 8
      → (k' : System F) × (kvlib_set mtd m true 0 key val (closed k)
          ≡ done (negsuc 2, none, closed k'))
        × (kvlib_set mtd m true 0 key' val' (closed k') ≡ hangs)
        × (kvlib_get mtd m true 0 out heap value key' (closed k') ≡ hangs)
        × (kvlib_del mtd m true 0 key' (closed k') ≡ hangs)
  kvlib_set-blocks key val key' val' heap value out k free big =
      let k' : System F = record k { store = with_lock true k.store } in
      (
        k',
        refused,
        held-set key' val' k' refl,
        held-get heap value key' out k' refl,
        held-del key' k' refl,
      )
    where
      refused :
          kvlib_set mtd m true 0 key val (closed k)
          ≡ done (negsuc 2, none, closed (record k { store = with_lock true k.store }))
      refused = unfold kvlib_set and_then set_return in rw (system-big key val k free big)
