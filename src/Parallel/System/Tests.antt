-- ===== src/Parallel/System/Tests.antt =====
-- Runs of a parallel store of two blocks of two pages of 16 bytes: block 0 is full, and nothing is written in block 1.
use linux_kernel_programming.Prelude.{◌≡◌, ◌↔◌, refl, true, false, List, [], ◌∷◌, replicate, arith}
use linux_kernel_programming.Prelude.Int.{pos, negsuc}
use linux_kernel_programming.Vanilla.{blk_used}
use linux_kernel_programming.Vanilla.ByteFlash.{Flash}
use linux_kernel_programming.Parallel.{Store, done, hangs, crashes, and_then, get_keyval}
use linux_kernel_programming.Parallel.Tests.{bytes_driver, store, key_a, long_value}
use linux_kernel_programming.Parallel.Erase.{format}
use linux_kernel_programming.Parallel.Erase.Empty.{parallel_format-empty}
use linux_kernel_programming.Parallel.Collect.{victim_of}
use linux_kernel_programming.Parallel.Collect.Merge.{Victim, victim_of-Victim}
use linux_kernel_programming.Parallel.Flush.{Image}
use linux_kernel_programming.Parallel.Flush.Full.{any_empty, flush_metadata-full}
use linux_kernel_programming.Parallel.System.{
  System, Event, call, call_set, call_get, flush_timer, wear_timer, step, run, flush_metadata, gc,
  flush_timer_callback, wear_timer_callback,
}
use linux_kernel_programming.Parallel.System.Runs.{Leaks, system_run-hangs}
use linux_kernel_programming.Parallel.System.Idle.{flush_timer-idle}

abbrev pub image : Image Flash
image = record { block_bytes = λ s. replicate 16 0; table_bytes = λ s. replicate 16 0 }

abbrev pub system : System Flash
system = record {
  store = store;
  is_gb = false;
  is_flush = false;
  recent_update = true;
  flush_cnt = 0;
  write_cnt = 0;
}

abbrev leaking : List Event
leaking = call (call_set key_a long_value) ∷ wear_timer ∷ call (call_get key_a) ∷ []

system_run-hangs_example :
    (run bytes_driver image leaking system ≡ hangs) ↔ Leaks bytes_driver image leaking system
system_run-hangs_example = system_run-hangs bytes_driver image leaking system refl

abbrev ticked : System Flash
ticked = record system { recent_update = false }

two_ticks : run bytes_driver image (flush_timer ∷ wear_timer ∷ []) system ≡ done ticked
unfolding run step and_then flush_timer_callback wear_timer_callback flush_metadata gc
two_ticks = refl

flush_timer-idle_example :
    (k : System Flash) × (step bytes_driver image flush_timer ticked ≡ done k)
    × (k.store ≡ store)
    × (k.recent_update ≡ false)
flush_timer-idle_example =
    flush_timer-idle bytes_driver image (flush_timer ∷ wear_timer ∷ []) system ticked refl two_ticks

abbrev full_system : System Flash
full_system = record system {
  store = record store {
    blocks =
        record { state = blk_used; worn = 4; nb_invalid = 0; current_page_offset = 2 }
        ∷ record { state = blk_used; worn = 4; nb_invalid = 0; current_page_offset = 1 }
        ∷ [];
  };
}

none_empty : any_empty full_system.store.blocks ≡ false
unfolding any_empty
none_empty = refl

flush_metadata-full_example : flush_metadata bytes_driver image true full_system ≡ crashes
flush_metadata-full_example = flush_metadata-full bytes_driver image full_system refl none_empty

parallel_format-empty_example :
    (s : Store Flash) × (format bytes_driver store ≡ done (pos 0, s))
    × (s.read_only ≡ false)
    × (s.erase_lock ≡ false)
    × (get_keyval bytes_driver key_a s ≡ done ((negsuc 0, []), s))
parallel_format-empty_example =
    parallel_format-empty bytes_driver store _ key_a refl (omega arith) refl

victim_of-Victim_example : Victim store 0 (victim_of 0 store)
victim_of-Victim_example = victim_of-Victim store 0
