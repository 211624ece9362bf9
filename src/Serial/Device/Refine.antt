-- ===== src/Serial/Device/Refine.antt =====
-- The library calls on a store that represents a map.
use linux_kernel_programming.Prelude.{
  ℕ, ◌+◌, ◌-◌, ◌<◌, ◌≤◌, ◌%◌, ◌≡◌, ◌⊎◌, inl, inr, refl, sym, ap, ◌∙◌, true, false, Option, none,
  some, List, length, ltb, arith,
}
use linux_kernel_programming.Prelude.Int.{ℤ, pos, negsuc}
use linux_kernel_programming.Vanilla.{Mtd, found, not_found}
use linux_kernel_programming.Vanilla.Device.{reply_get, printed, get_return, set_return}
use linux_kernel_programming.Serial.HashTable.{bucket_at, hash_search}
use linux_kernel_programming.Serial.HashTable.Reach.{hash_search_iff}
use linux_kernel_programming.Serial.Store.{Store, get_keyval, del_key}
use linux_kernel_programming.Serial.Insert.Represents.{
  Map, put, remove, value_of, Represents, search_cases, get_keyval-HoldsPage, get_keyval-absent,
}
use linux_kernel_programming.Serial.Insert.Delete.{drop_old-del_key, del_key-Represents}
use linux_kernel_programming.Vanilla.Roundtrip.{IsMtd}
use linux_kernel_programming.Serial.HashTable.{hash, key_size}
use linux_kernel_programming.Serial.HashTable.Lookup.{has_room}
use linux_kernel_programming.Serial.Blocks.{get_healthy_block}
use linux_kernel_programming.Serial.Flash.Extends.{Accepts}
use linux_kernel_programming.Serial.Collect.{invalid_threshold}
use linux_kernel_programming.Serial.Set.{stamp, is_due}
use linux_kernel_programming.Serial.Set.Few.{FewInvalid}
use linux_kernel_programming.Serial.Set.Refine.{set_keyval-Represents}
use linux_kernel_programming.Serial.Persist.{Core, Memory}
use linux_kernel_programming.Serial.Device.{
  Device, val_size, print_value, device_open, device_release, kvlib_get, kvlib_del, kvlib_set,
}

-- A device that no process has open.
abbrev pub closed : {F : Type 0} → Core F → Device F
closed k = record { core = k; file_is_open = false }

-- What the library reports of a lookup in a map. Without a value it prints what the fresh buffer held.
abbrev pub answer : List ℕ → Option (List ℕ) → ℤ × List ℕ
answer heap none = (negsuc 2, heap)
answer heap (some value) = (pos 0, value)

-- A valid store never reports a read error.
get_keyval-cases :
    {F : Type 0} (mtd : Mtd F) (s : Store F) (m : Map) (key : List ℕ)
    → Represents mtd s m
    → ((page : ℕ) × (value : List ℕ) × (get_keyval mtd key s ≡ found page value)
        × (m key ≡ some value)
        × (length value + 8 ≤ s.config.page_size))
      ⊎ ((get_keyval mtd key s ≡ not_found) × (m key ≡ none))
get_keyval-cases mtd s m key r = elim (search_cases (hash_search s.hash_size key s.hashtable)) [
  | inl hit ↦
      let (g, search) = hit in
      let (valid, own) = (hash_search_iff s.hash_size s.hashtable key g r.valid.table).0 search in
      let h = r.valid.pages g valid in
      let e = get_keyval-HoldsPage mtd s key g h r.valid.sized search valid own in
      inl (
        (bucket_at s.hashtable g).index,
        h.value,
        e,
        sym (r.lookup key) ∙ ap value_of e,
        omega (arith, h.fits),
      )
  | inr miss ↦
      let e = get_keyval-absent mtd s key miss in inr (e, sym (r.lookup key) ∙ ap value_of e)
]

print_value-fits :
    {F : Type 0} (heap val : List ℕ) (ret : ℤ) (d : Device F)
    → length val < val_size
    → print_value heap (some (ret, some val, d)) ≡ some (ret, val, d)
unfolding printed
print_value-fits heap val ret d h =
    let e : ltb (length val) val_size ≡ true = ground arith in rw (print_value, e)

-- On pages of at most 2056 bytes, kvlib_get of a device that no one has open and whose store represents a map answers as
-- the map does: 0 with the value, or, when the map does not have the key, -3 with what the fresh buffer of the library
-- held. It leaves the device as it was.
pub kvlib_get-Represents :
    {F : Type 0} (mtd : Mtd F) (memory : Memory F) (sec nsec : ℕ) (k : Core F) (m : Map)
    (heap value key : List ℕ)
    → Represents mtd k.store m
    → k.store.config.page_size ≤ 2056
    → let (ret, value') = answer heap (m key) in
      kvlib_get mtd memory sec nsec true 0 0 heap value key (closed k)
      ≡ some (ret, value', closed k)
unfolding kvlib_get reply_get get_return device_open device_release printed
kvlib_get-Represents mtd memory sec nsec k m heap value key r small =
    elim (get_keyval-cases mtd k.store m key r) [
      | inl hit ↦
          let (page, stored, e, s, fits) = hit in
          rw (e, s) (print_value-fits heap stored (pos 0) (closed k) (omega (arith, fits, small)))
      | inr miss ↦ let (e, s) = miss in rw (e, s)
    ]

-- What the library reports of a deletion.
abbrev pub del_answer : Option (List ℕ) → ℤ
del_answer none = negsuc 3
del_answer (some value) = pos 0

del_code :
    {F : Type 0} (mtd : Mtd F) (s : Store F) (m : Map) (key : List ℕ)
    → Represents mtd s m
    → get_return (some (del_key key s).0) ≡ del_answer (m key)
unfolding get_return
del_code mtd s m key r = elim (drop_old-del_key mtd s key r.valid).1 [
  | inl hit ↦
      let (g, (search, ret)) = hit in
      let (valid, own) = (hash_search_iff s.hash_size s.hashtable key g r.valid.table).0 search in
      let e =
        get_keyval-HoldsPage mtd s key g (r.valid.pages g valid) r.valid.sized search valid own in
      rw (ret, ← r.lookup key, e)
  | inr miss ↦
      let (absent, ret) = miss in rw (ret, ← r.lookup key, get_keyval-absent mtd s key absent)
]

-- kvlib_del of a device that no one has open takes the key off the map that its store represents, and closes the
-- device. It returns 0 when the map had the key, and -4, which the library documents as a read error of the flash,
-- when it did not.
pub kvlib_del-Represents :
    {F : Type 0} (mtd : Mtd F) (memory : Memory F) (sec nsec : ℕ) (k : Core F) (m : Map)
    (key : List ℕ)
    → Represents mtd k.store m
    → (s' : Store F) × (kvlib_del mtd memory sec nsec true 0 key (closed k)
        ≡ some (del_answer (m key), none, closed (record k { store = s' })))
      × Represents mtd s' (remove key m)
unfolding kvlib_del
kvlib_del-Represents mtd memory sec nsec k m key r = (
  (del_key key k.store).1,
  ap (λ ret. some (ret, none, closed (record k { store = (del_key key k.store).1 })))
      (del_code mtd k.store m key r),
  (del_key-Represents mtd k.store m key r).0,
)

-- kvlib_set of a device that no one has open puts the couple into the map that its store represents and closes the
-- device, under the conditions of set_keyval, one of which is a key of fewer than 128 bytes. A couple with that key is
-- replaced, where the comment on the function says -4. It returns 0, or -5 when it took the last page.
pub kvlib_set-Represents :
    {F : Type 0} (mtd : Mtd F) (memory : Memory F) (sec nsec : ℕ)
    → IsMtd mtd
    → Accepts mtd
    → (k : Core F) (m : Map) (key val : List ℕ) (b : ℕ) → Represents mtd k.store m
    → k.store.config.read_only ≡ false
    → length key + length val + 8 ≤ k.store.config.page_size
    → get_healthy_block k.store.config.pages_per_block k.store.config.blocks ≡ pos b
    → length key < key_size
    → has_room k.store.hash_size
        (k.store.hash_size - 1)
        (hash key % k.store.hash_size)
        k.store.hashtable
      ≡ true
    → FewInvalid (invalid_threshold - 1) k.store.config.blocks
    → is_due (stamp sec nsec) k.time_flush ≡ false
    → (ret : ℤ) × (s' : Store F) × (kvlib_set mtd memory sec nsec true 0 key val (closed k)
        ≡ some (ret, none, closed (record k { store = s' })))
      × ((ret ≡ pos 0) ⊎ (ret ≡ negsuc 4))
      × Represents mtd s' (put key val m)
kvlib_set-Represents mtd memory sec nsec laws accepts k m key val b r writable fits healthy short
      room few early =
    let (ret, s', stored, result, after) =
      set_keyval-Represents mtd memory sec nsec laws accepts k m key val b r writable fits healthy
        short room few early in
    (set_return (some ret), s', unfold kvlib_set in rw stored, code ret result, after)
  where
    code :
        (ret : ℤ)
        → (ret ≡ pos 0) ⊎ (ret ≡ negsuc 2)
        → (set_return (some ret) ≡ pos 0) ⊎ (set_return (some ret) ≡ negsuc 4)
    code ret (inl e) = unfold set_return in rw e (inl refl)
    code ret (inr e) = unfold set_return in rw e (inr refl)
