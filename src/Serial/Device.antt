-- ===== src/Serial/Device.antt =====
-- The character device of p6/prototype-serial/kernel/device.c, and the library of
-- p6/prototype-serial/user/kvlib.c that opens it for each call. The bytes that a copy between user and kernel space
-- leaves uncopied are arguments, and so is whether the ioctl call reaches the handler. `none` stands for a
-- call that ends in BUG() or in an access outside an array.
pub mod Refine
use linux_kernel_programming.Prelude.{
  ℕ, zero, suc, ◌+◌, Bool, true, false, Option, some, none, List, ◌==◌, if◌then◌else◌,
}
use linux_kernel_programming.Prelude.Int.{ℤ, pos, negsuc}
use linux_kernel_programming.Vanilla.{Mtd}
use linux_kernel_programming.Vanilla.Device.{
  Reply, reply_get, printed, ebusy, set_return, get_return, format_return,
}
use linux_kernel_programming.Serial.Store.{Store, get_keyval, del_key}
use linux_kernel_programming.Serial.Format.{format}
use linux_kernel_programming.Serial.Collect.{gc}
use linux_kernel_programming.Serial.Persist.{Core, Memory}
use linux_kernel_programming.Serial.Set.{set_keyval}

-- The store and `file_is_open`.
pub record Device (F : Type 0) : Type 0 where
  pub core : Core F
  pub file_is_open : Bool

-- The ioctl numbers of device.h, with the arguments that the handler copies in.
pub data Request : Type 0 where
  ioctl_format ioctl_gc ioctl_print ioctl_other : Request
  ioctl_set : (key val : List ℕ) → Request
  ioctl_get ioctl_del : (key : List ℕ) → Request

abbrev pub no_status : Reply
no_status = record { status = none; val = none }

abbrev pub only_status : ℤ → Reply
only_status ret = record { status = some ret; val = none }

-- The bytes that kvlib_get allocates for `kv.val`
abbrev pub val_size : ℕ
val_size = 2049

module _ {F : Type 0} where
  unfoldable pub device_open : Device F → ℤ × Device F
  device_open d = if d.file_is_open then (ebusy, d) else (pos 0, record d { file_is_open = true })

  unfoldable pub device_release : Device F → Device F
  device_release d = record d { file_is_open = false }

  abbrev pub with_store : Device F → Store F → Device F
  with_store d s = record d { core = record d.core { store = s } }

  -- The value that kvlib_get gives the caller.
  abbrev pub print_value :
      List ℕ → Option (ℤ × Option (List ℕ) × Device F) → Option (ℤ × List ℕ × Device F)
  print_value heap none = none
  print_value heap (some (ret, val, d)) = elim (printed val_size heap val) [
    | none ↦ none
    | some text ↦ some (ret, text, d)
  ]

  module _ (mtd : Mtd F) (memory : Memory F) (tv_sec tv_nsec : ℕ) where
    -- print_hash writes to the log only.
    unfoldable pub device_ioctl : Request → ℕ → ℕ → Device F → Option (ℤ × Reply × Device F)
    device_ioctl ioctl_format uncopied_in uncopied_out d =
        let (ret, s) = format mtd d.core.store in some (pos 0, only_status ret, with_store d s)
    device_ioctl (ioctl_set key val) uncopied_in uncopied_out d =
        if uncopied_in == 0
        then elim (set_keyval mtd memory tv_sec tv_nsec key val d.core) [
          | none ↦ none
          | some (ret, k) ↦ some (pos 0, only_status ret, record d { core = k })
        ]
        else some (pos 0, only_status (negsuc 6), d)
    device_ioctl (ioctl_get key) uncopied_in uncopied_out d =
        if uncopied_in == 0
        then some (pos 0, reply_get (get_keyval mtd key d.core.store) uncopied_out, d)
        else some (pos 0, only_status (negsuc 4), d)
    device_ioctl (ioctl_del key) uncopied_in uncopied_out d =
        let (ret, s) = del_key key d.core.store in
        if uncopied_in == 0
        then some (pos 0, only_status ret, with_store d s)
        else some (pos 0, only_status (negsuc 4), d)
    device_ioctl ioctl_gc uncopied_in uncopied_out d = elim (gc mtd d.core.store) [
      | none ↦ none
      | some s ↦ some (pos 0, no_status, with_store d s)
    ]
    device_ioctl ioctl_print uncopied_in uncopied_out d = some (pos 0, no_status, d)
    device_ioctl ioctl_other uncopied_in uncopied_out d = some (negsuc 7, no_status, d)

    -- The end of a library call: the code of the reply, the value and the device, closed again.
    unfoldable pub returned :
        (Option ℤ → ℤ) → Option (ℤ × Reply × Device F) → Option (ℤ × Option (List ℕ) × Device F)
    unfolding device_release
    returned code none = none
    returned code (some (_, reply, d)) = some (code reply.status, reply.val, device_release d)

    -- A library call: it opens the device, and sends the request. `reached` says whether `ioctl` returns 0. If it
    -- does not, the call returns at once and leaves the device open.
    unfoldable pub call :
        (Option ℤ → ℤ) → Bool → Request → ℕ → ℕ → Device F → Option (ℤ × Option (List ℕ) × Device F)
    unfolding returned device_open device_ioctl
    call code reached request uncopied_in uncopied_out d =
        let (fd, opened) = device_open d in
        if d.file_is_open
        then some (negsuc 0, none, d)
        else if reached
        then returned code (device_ioctl request uncopied_in uncopied_out opened)
        else some (negsuc 1, none, opened)

    unfoldable pub kvlib_set :
        Bool → ℕ → List ℕ → List ℕ → Device F → Option (ℤ × Option (List ℕ) × Device F)
    unfolding call set_return
    kvlib_set reached uncopied_in key value d =
        call set_return reached (ioctl_set key value) uncopied_in 0 d

    -- `value` is the string in the buffer of the caller, which has room for what is printed, and `heap` the string that
    -- `kv.val` holds if no value is copied to it, or only a part of one.
    unfoldable pub kvlib_get :
        Bool → ℕ → ℕ → List ℕ → List ℕ → List ℕ → Device F → Option (ℤ × List ℕ × Device F)
    unfolding call get_return device_open
    kvlib_get reached uncopied_in uncopied_out heap value key d =
        let answered =
          print_value heap (call get_return reached (ioctl_get key) uncopied_in uncopied_out d) in
        if d.file_is_open
        then some (negsuc 0, value, d)
        else if reached
        then answered
        else some (negsuc 1, value, (device_open d).1)

    -- The codes of kvlib_del are those of kvlib_get.
    unfoldable pub kvlib_del :
        Bool → ℕ → List ℕ → Device F → Option (ℤ × Option (List ℕ) × Device F)
    unfolding call get_return
    kvlib_del reached uncopied_in key d = call get_return reached (ioctl_del key) uncopied_in 0 d

    unfoldable pub kvlib_print : Bool → Device F → Option (ℤ × Option (List ℕ) × Device F)
    unfolding call
    kvlib_print reached d = call (λ status. pos 0) reached ioctl_print 0 0 d

    -- Format and garbage collection close the device on both paths.
    abbrev pub closed_after :
        Option (ℤ × Option (List ℕ) × Device F) → Option (ℤ × Option (List ℕ) × Device F)
    closed_after none = none
    closed_after (some (ret, val, d)) = some (ret, val, record d { file_is_open = false })

    unfoldable pub kvlib_format : Bool → Device F → Option (ℤ × Option (List ℕ) × Device F)
    unfolding call format_return
    kvlib_format reached d =
        let done = closed_after (call format_return reached ioctl_format 0 0 d) in
        if d.file_is_open then some (negsuc 0, none, d) else done

    unfoldable pub kvlib_gc : Bool → Device F → Option (Device F)
    unfolding call
    kvlib_gc reached d = elim (closed_after (call (λ status. pos 0) reached ioctl_gc 0 0 d)) [
      | none ↦ none
      | some (_, _, d') ↦ some (if d.file_is_open then d else d')
    ]
