-- ===== src/Vanilla/Device.antt =====
-- The character device of p6/prototype-vanilla/kernel/device.c, and the library of
-- p6/prototype-vanilla/user/kvlib.c that opens it for each call.
-- The bytes that a copy between user and kernel space leaves uncopied are arguments, and so is
-- whether the ioctl call reaches the handler.
pub mod Codes
use linux_kernel_programming.Prelude.{
  ℕ, zero, suc, ◌+◌, Bool, true, false, List, length, ltb, ◌==◌, if◌then◌else◌, Option, some, none,
}
use linux_kernel_programming.Prelude.Int.{ℤ, pos, negsuc}
use linux_kernel_programming.Vanilla.{
  Mtd, Config, GetResult, found, not_found, read_error, get_keyval, set_keyval, format,
}

-- The configuration of the store and `file_is_open`.
pub record Device (F : Type 0) : Type 0 where
  pub config : Config F
  pub file_is_open : Bool

-- The ioctl numbers of device.h, with the arguments that the handler copies in.
pub data Request : Type 0 where
  ioctl_format : Request
  ioctl_set : (key val : List ℕ) → Request
  ioctl_get : (key : List ℕ) → Request
  ioctl_other : Request

-- What a request leaves in user space: the status (`kv.status`, or the `int` of a format), and the
-- value that was copied out. `none` is a status or a value that was not written.
pub record Reply : Type 0 where
  pub status : Option ℤ
  pub val : Option (List ℕ)

-- `-EBUSY`
abbrev pub ebusy : ℤ
ebusy = negsuc 15

-- The answer of IOCTL_GET, where `copied_out` bytes of the value were not copied.
unfoldable pub reply_get : GetResult → ℕ → Reply
reply_get (found page value) zero = record { status = some (pos page); val = some value }
reply_get (found page value) (suc n) = record { status = some (negsuc 4); val = none }
reply_get not_found copied_out = record { status = some (negsuc 0); val = none }
reply_get read_error copied_out = record { status = some (negsuc 1); val = none }

-- What `sprintf(value, "%s", kv.val)` prints: the value that was copied out, or else the string `heap` that was left in the
-- buffer, which is fresh from malloc. A value that does not fit the buffer of `size` bytes was copied past its end: `none`.
unfoldable pub printed : ℕ → List ℕ → Option (List ℕ) → Option (List ℕ)
printed size heap none = some heap
printed size heap (some val) = if ltb (length val) size then some val else none

-- The codes of kvlib_set by the status.
unfoldable pub set_return : Option ℤ → ℤ
set_return (some (negsuc zero)) = negsuc 2
set_return (some (negsuc (suc zero))) = negsuc 3
set_return (some (negsuc (suc (suc zero)))) = negsuc 4
set_return (some (negsuc (suc (suc (suc zero))))) = negsuc 5
set_return _ = pos 0

-- The codes of kvlib_get by the status.
unfoldable pub get_return : Option ℤ → ℤ
get_return (some (negsuc zero)) = negsuc 2
get_return (some (negsuc (suc zero))) = negsuc 3
get_return _ = pos 0

-- The codes of kvlib_format by the status.
unfoldable pub format_return : Option ℤ → ℤ
format_return (some (pos zero)) = pos 0
format_return _ = negsuc 2

module _ {F : Type 0} where
  unfoldable pub device_open : Device F → ℤ × Device F
  device_open d = if d.file_is_open then (ebusy, d) else (pos 0, record d { file_is_open = true })

  unfoldable pub device_release : Device F → Device F
  device_release d = record d { file_is_open = false }

  abbrev pub set_config : Device F → Config F → Device F
  set_config d c = record d { config = c }

  -- What kvlib_get returns, with the text in the buffer of the caller.
  abbrev pub got : ℤ → Device F → Option (List ℕ) → Option (ℤ × List ℕ × Device F)
  got ret d none = none
  got ret d (some text) = some (ret, text, d)

  module _ (mtd : Mtd F) where
    -- `uncopied_in` and `uncopied_out` count the bytes that were not copied from and to the user.
    unfoldable pub device_ioctl : Request → ℕ → ℕ → Device F → ℤ × Reply × Device F
    unfolding reply_get
    device_ioctl ioctl_format uncopied_in uncopied_out d =
        let (ret, c) = format mtd d.config in
        (pos 0, record { status = some ret; val = none }, set_config d c)
    device_ioctl (ioctl_set key val) uncopied_in uncopied_out d =
        let (ret, c) = set_keyval mtd key val d.config in
        if uncopied_in == 0
        then (pos 0, record { status = some ret; val = none }, set_config d c)
        else (pos 0, record { status = some (negsuc 6); val = none }, d)
    device_ioctl (ioctl_get key) uncopied_in uncopied_out d =
        if uncopied_in == 0
        then (pos 0, reply_get (get_keyval mtd key d.config) uncopied_out, d)
        else (pos 0, record { status = some (negsuc 4); val = none }, d)
    device_ioctl ioctl_other uncopied_in uncopied_out d =
        (negsuc 7, record { status = none; val = none }, d)

    -- `reached` says whether `ioctl` returns 0. If it does not, the library returns at once and
    -- leaves the device open.
    unfoldable pub kvlib_set : Bool → ℕ → List ℕ → List ℕ → Device F → ℤ × Device F
    unfolding device_open device_ioctl device_release set_return
    kvlib_set reached uncopied_in key value d =
        let (fd, opened) = device_open d in
        let (ret, reply, after) = device_ioctl (ioctl_set key value) uncopied_in 0 opened in
        if d.file_is_open
        then (negsuc 0, d)
        else if reached
        then (set_return reply.status, device_release after)
        else (negsuc 1, opened)

    -- `value` is the string in the buffer of the caller, by whose length the library allocates `kv.val`, and `heap` the string
    -- that `kv.val` holds if no value is copied to it, or only a part of one. `none` is a write outside `kv.val`. The
    -- caller's buffer has room for what is printed.
    unfoldable pub kvlib_get :
        Bool → ℕ → ℕ → List ℕ → List ℕ → List ℕ → Device F → Option (ℤ × List ℕ × Device F)
    unfolding device_open device_ioctl device_release get_return printed
    kvlib_get reached uncopied_in uncopied_out heap value key d =
        let (fd, opened) = device_open d in
        let (ret, reply, after) = device_ioctl (ioctl_get key) uncopied_in uncopied_out opened in
        let answered =
          got (get_return reply.status) (device_release after)
            (printed (length value + 1) heap reply.val) in
        if d.file_is_open
        then some (negsuc 0, value, d)
        else if reached
        then answered
        else some (negsuc 1, value, opened)

    -- Format closes the device on both paths.
    unfoldable pub kvlib_format : Bool → Device F → ℤ × Device F
    unfolding device_open device_ioctl device_release format_return
    kvlib_format reached d =
        let (fd, opened) = device_open d in
        let (ret, reply, after) = device_ioctl ioctl_format 0 0 opened in
        if d.file_is_open
        then (negsuc 0, d)
        else if reached
        then (format_return reply.status, device_release after)
        else (negsuc 1, device_release opened)
