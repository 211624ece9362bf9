-- ===== src/Parallel/Device.antt =====
-- The character device of p6/prototype-parallel/kernel/device.c, and the library of p6/prototype-parallel/user/kvlib.c that
-- opens it for each call. The bytes that a copy between user and kernel space leaves uncopied are arguments, and so is whether
-- the ioctl call reaches the handler.
pub mod Blocks
mod Tests
use linux_kernel_programming.Prelude.{
  ℕ, zero, suc, Bool, true, false, Option, some, none, List, ◌==◌, if◌then◌else◌,
}
use linux_kernel_programming.Prelude.Int.{ℤ, pos, negsuc}
use linux_kernel_programming.Vanilla.{Mtd}
use linux_kernel_programming.Vanilla.Device.{
  Reply, printed, ebusy, set_return, get_return, format_return,
}
use linux_kernel_programming.Serial.Device.{
  Request, ioctl_format, ioctl_gc, ioctl_print, ioctl_other, ioctl_set, ioctl_get, ioctl_del,
  no_status, only_status, val_size,
}
use linux_kernel_programming.Parallel.{
  Store, Outcome, done, hangs, crashes, and_then, get_keyval, del_key,
}
use linux_kernel_programming.Parallel.Erase.{format}
use linux_kernel_programming.Parallel.Flush.{Image}
use linux_kernel_programming.Parallel.System.{System, set_keyval, gc}

-- The system and `file_is_open`.
pub record Device (F : Type 0) : Type 0 where
  pub system : System F
  pub file_is_open : Bool

-- The answer to IOCTL_GET by what get_keyval returned.
abbrev pub reply_get : ℤ × List ℕ → ℕ → Reply
reply_get (pos page, val) uncopied_out =
    if uncopied_out == 0
    then record { status = some (pos page); val = some val }
    else record { status = some (negsuc 4); val = none }
reply_get (negsuc n, val) uncopied_out = only_status (negsuc n)

module _ {F : Type 0} where
  unfoldable pub device_open : Device F → ℤ × Device F
  device_open d = if d.file_is_open then (ebusy, d) else (pos 0, record d { file_is_open = true })

  unfoldable pub device_release : Device F → Device F
  device_release d = record d { file_is_open = false }

  abbrev pub with_store : Device F → Store F → Device F
  with_store d s = record d { system = record d.system { store = s } }

  -- The value that kvlib_get gives the caller.
  abbrev pub print_value : List ℕ → ℤ × Option (List ℕ) × Device F → Outcome (ℤ × List ℕ × Device F)
  print_value heap (ret, val, d) = elim (printed val_size heap val) [
    | none ↦ crashes
    | some text ↦ done (ret, text, d)
  ]

  module _ (mtd : Mtd F) (m : Image F) where
    -- print_hash writes to the log only.
    unfoldable pub device_ioctl : Request → ℕ → ℕ → Device F → Outcome (ℤ × Reply × Device F)
    unfolding and_then format set_keyval get_keyval del_key gc
    device_ioctl ioctl_format uncopied_in uncopied_out d =
        and_then (format mtd d.system.store) (λ r. done (pos 0, only_status r.0, with_store d r.1))
    device_ioctl (ioctl_set key val) uncopied_in uncopied_out d =
        let stored =
          and_then (set_keyval mtd m key val d.system)
            (λ r. done (pos 0, only_status r.0, record d { system = r.1 })) in
        if uncopied_in == 0 then stored else done (pos 0, only_status (negsuc 6), d)
    device_ioctl (ioctl_get key) uncopied_in uncopied_out d =
        let looked =
          and_then (get_keyval mtd key d.system.store)
            (λ r. done (pos 0, reply_get r.0 uncopied_out, with_store d r.1)) in
        if uncopied_in == 0 then looked else done (pos 0, only_status (negsuc 4), d)
    device_ioctl (ioctl_del key) uncopied_in uncopied_out d =
        let deleted =
          and_then (del_key key d.system.store)
            (λ r. done (pos 0, only_status r.0, with_store d r.1)) in
        if uncopied_in == 0 then deleted else done (pos 0, only_status (negsuc 4), d)
    device_ioctl ioctl_gc uncopied_in uncopied_out d =
        and_then (gc mtd d.system) (λ k. done (pos 0, no_status, record d { system = k }))
    device_ioctl ioctl_print uncopied_in uncopied_out d = done (pos 0, no_status, d)
    device_ioctl ioctl_other uncopied_in uncopied_out d = done (negsuc 7, no_status, d)

    -- A library call: it opens the device, sends the request and closes the device. `reached` says whether `ioctl`
    -- returns 0. If it does not, the call returns at once and leaves the device open.
    unfoldable pub call :
        (Option ℤ → ℤ)
        → Bool
        → Request
        → ℕ
        → ℕ
        → Device F
        → Outcome (ℤ × Option (List ℕ) × Device F)
    unfolding device_open device_release device_ioctl and_then
    call code reached request uncopied_in uncopied_out d =
        let (fd, opened) = device_open d in
        let answered =
          and_then (device_ioctl request uncopied_in uncopied_out opened)
            (λ r. done (code r.1.status, r.1.val, device_release r.2)) in
        if d.file_is_open
        then done (negsuc 0, none, d)
        else if reached
        then answered
        else done (negsuc 1, none, opened)

    unfoldable pub kvlib_set :
        Bool → ℕ → List ℕ → List ℕ → Device F → Outcome (ℤ × Option (List ℕ) × Device F)
    unfolding call set_return
    kvlib_set reached uncopied_in key value d =
        call set_return reached (ioctl_set key value) uncopied_in 0 d

    -- `value` is the string in the buffer of the caller, which has room for what is printed, and `heap` the string that
    -- `kv.val` holds if no value is copied to it, or only a part of one.
    unfoldable pub kvlib_get :
        Bool → ℕ → ℕ → List ℕ → List ℕ → List ℕ → Device F → Outcome (ℤ × List ℕ × Device F)
    unfolding call get_return device_open and_then
    kvlib_get reached uncopied_in uncopied_out heap value key d =
        let answered =
          and_then (call get_return reached (ioctl_get key) uncopied_in uncopied_out d)
            (print_value heap) in
        if d.file_is_open
        then done (negsuc 0, value, d)
        else if reached
        then answered
        else done (negsuc 1, value, (device_open d).1)

    -- The codes of kvlib_del are those of kvlib_get.
    unfoldable pub kvlib_del :
        Bool → ℕ → List ℕ → Device F → Outcome (ℤ × Option (List ℕ) × Device F)
    unfolding call get_return
    kvlib_del reached uncopied_in key d = call get_return reached (ioctl_del key) uncopied_in 0 d

    unfoldable pub kvlib_print : Bool → Device F → Outcome (ℤ × Option (List ℕ) × Device F)
    unfolding call
    kvlib_print reached d = call (λ status. pos 0) reached ioctl_print 0 0 d

    -- Format and garbage collection close the device on both paths.
    abbrev pub close_after :
        ℤ × Option (List ℕ) × Device F → Outcome (ℤ × Option (List ℕ) × Device F)
    close_after (ret, val, d) = done (ret, val, record d { file_is_open = false })

    unfoldable pub kvlib_format : Bool → Device F → Outcome (ℤ × Option (List ℕ) × Device F)
    unfolding call format_return and_then
    kvlib_format reached d =
        let formatted = and_then (call format_return reached ioctl_format 0 0 d) close_after in
        if d.file_is_open then done (negsuc 0, none, d) else formatted

    unfoldable pub kvlib_gc : Bool → Device F → Outcome (Device F)
    unfolding call and_then
    kvlib_gc reached d =
        let collected =
          and_then (call (λ status. pos 0) reached ioctl_gc 0 0 d)
            (λ r. done (record r.2 { file_is_open = false })) in
        if d.file_is_open then done d else collected
