-- ===== src/Parallel/Device/Tests.antt =====
-- The load of a parallel store on an erased flash, and calls of its library.
use linux_kernel_programming.Prelude.{◌≡◌, refl, true, false, [], ◌∷◌, none, arith, replicate}
use linux_kernel_programming.Prelude.Int.{pos, negsuc}
use linux_kernel_programming.Prelude.Bytes.{starts_with}
use linux_kernel_programming.Vanilla.ByteFlash.{Flash, bytes}
use linux_kernel_programming.Parallel.{Store, done, hangs, get_keyval, read_page}
use linux_kernel_programming.Parallel.Tests.{bytes_driver, store, key_a, long_value}
use linux_kernel_programming.Parallel.System.Tests.{image, system}
use linux_kernel_programming.Parallel.System.{System}
use linux_kernel_programming.Parallel.Device.{kvlib_set, kvlib_get, kvlib_del}
use linux_kernel_programming.Parallel.Device.Blocks.{closed, kvlib_set-blocks}
use linux_kernel_programming.Parallel.Mount.{Machine, init_scan}
use linux_kernel_programming.Parallel.Mount.Fresh.{NoHeaders, parallel_init_scan-fresh}

kvlib_set-blocks_example :
    (k : System Flash) × (kvlib_set bytes_driver image true 0 key_a long_value (closed system)
      ≡ done (negsuc 2, none, closed k))
    × (kvlib_set bytes_driver image true 0 key_a key_a (closed k) ≡ hangs)
    × (kvlib_get bytes_driver image true 0 0 key_a key_a key_a (closed k) ≡ hangs)
    × (kvlib_del bytes_driver image true 0 key_a (closed k) ≡ hangs)
kvlib_set-blocks_example =
    kvlib_set-blocks bytes_driver image key_a long_value key_a key_a key_a key_a 0 system refl
      (omega arith)

abbrev machine : Machine
machine = record {
  bucket_size = 4;
  blk_info_size = 4;
  fresh_table = λ n. replicate n 0;
  blocks_of = λ bs. none ∷ none ∷ [];
  table_of = λ bs. [];
}

store_headers : NoHeaders bytes_driver 2 store
unfolding read_page starts_with bytes
store_headers i h = (bytes store.flash 0 16, refl, refl)

parallel_init_scan-fresh_example :
    (s : Store Flash) × (init_scan bytes_driver machine 2 store ≡ done (pos 0, s))
    × (s.erase_lock ≡ false)
    × (s.meta_blkordr ≡ negsuc 0 ∷ [])
    × (get_keyval bytes_driver key_a s ≡ done ((negsuc 0, []), s))
parallel_init_scan-fresh_example =
    parallel_init_scan-fresh bytes_driver machine 2 store key_a refl (omega arith) store_headers
      (λ j. refl)
