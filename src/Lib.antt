-- ===== src/Lib.antt =====
-- Verification of the repository's kernel projects: the lottery scheduler (p3), the serial key-value
-- store over a hash table (p6/prototype-serial), the vanilla one that scans the flash
-- (p6/prototype-vanilla) and the one with locks and timers (p6/prototype-parallel), all with their device
-- and user library, the search tree of p2/driver.c with its demonstration, and the probe module (p5).
--
-- Lottery: p3/linux-2.6.32.27/kernel/sched_lottery.c and the lottery parts of kernel/sched.c.
--   Lottery.Task       the fields of a task that the class reads and writes
--   Lottery.EventLog   init_lottery_event_log, register_lottery_event
--   Lottery.Linked     insert_lottery_task, remove_lottery_task, the loop of pick_winner_task
--   Lottery.Tree       update_postorder, recalc_accu_lottery, insert_lottery_rb_task,
--                      remove_lottery_rb_task, the loop of pick_winner_rb_task
--   Lottery.Class      the handlers of the class, which share the run queue, the totals and the log;
--                      the state is the record Sched, passed from call to call
-- A task is a pid, and a run queue a list of pids or a tree of them. Both settings of
-- CONFIG_SCHED_LOTTERY_RB_POLICY are one flag of the record Kernel, which also holds the clock, the
-- random generator and the rbtree of the kernel. IsKernel says what is relied on of the rbtree:
-- rebalancing keeps the order of the nodes and erasing takes out one node. Tickets and totals wrap at
-- 2 ^ 64 and nr_running at 2 ^ 32, as in C.
--
-- Serial: p6/prototype-serial/kernel.
--   Serial.HashTable   hash.c: hash, hash_add, hash_search. The two loops recurse on the number of
--                      buckets that the counter of the C loop leaves, so no fuel is added.
--   Serial.Blocks      the choice of blocks in core.c: get_healthy_block, get_meta_block, is_read_only
--   Serial.Flash       write_page, read_page, write_hdr, get_next_page and format_single of core.c, over
--                      the driver record Mtd of Vanilla; the lists of valid pages are lists of buckets
--   Serial.Store       get_keyval, del_key and invalid_pg of core.c, over the hash table
--   Serial.Insert      the first part of set_keyval: the old page of the key, the write, the new bucket.
--                      Serial.Insert.Represents has the abstract store, a finite map, and the relation
--                      Represents between a store and the map it stands for
--   Serial.Format      format
--   Serial.Collect     gc and gb_check
--   Serial.Persist     move_pages_to_other_block and flush_metadata. The bytes of the arrays in memory and
--                      of fresh buffers are parameters, in the record Memory
--   Serial.Mount       init_config and init_scan, which load the metadata or format the flash. The arrays that
--                      bytes stand for are a parameter, in the record Machine
--   Serial.Set         set_keyval with the garbage collection and the flush behind the write; the time of
--                      day is an argument
--   Serial.Device      kernel/device.c and user/kvlib.c
-- An operation that can run into BUG() or use an index outside an array, as for blocks[-1], returns an
-- Option, and `none` is that case.
--
-- Parallel: p6/prototype-parallel/kernel.
--   Parallel           set_keyval up to the release of erase_lock, get_keyval, del_key and what they call. An
--                      Outcome tells a call that returns from one that waits for a lock that no one
--                      releases and from one that ends in BUG() or outside an array
--   Parallel.HashTable kernel/hash.c, with the loops of Serial.HashTable
--   Parallel.Runs      sequences of calls
--   Parallel.Choice    the choice of a block beside that of the serial store
--   Parallel.Erase     format_single and format
--   Parallel.Collect   gc under the lock. Its pages lie pages_per_block bytes apart in a buffer, as in the
--                      serial store
--   Parallel.Flush     write_hdr for the metadata and flush_metadata under the lock. The bytes of both
--                      arrays in memory are a parameter, the record Image
--   Parallel.Mount     lkp_kv_init, init_config, init_scan and lkp_kv_exit. The arrays that bytes stand for are a
--                      parameter, in the record Machine
--   Parallel.Device    kernel/device.c and user/kvlib.c
--   Parallel.System    the flags and counters around the store, gc, flush_metadata, gc_check, set_keyval to
--                      its end, and the two timers. The calls of a user and the timers are the events of
--                      a run, each of which runs to its end
--
-- Vanilla: p6/prototype-vanilla/kernel/core.c.
--   Vanilla            set_keyval, get_keyval, write_page, read_page, the choice of pages and blocks,
--                      format. The state is the record Config with the contents of the flash; the MTD
--                      driver is the record Mtd, and IsMtd says what is relied on: a page that was
--                      written reads back, and other pages stay. The callback of an erase has run
--                      when format goes on; the wait itself and the semaphore are not modelled.
--   Vanilla.Mount      init_config and init_scan of core.c, which build the metadata from the flash.
--   Vanilla.Device     kernel/device.c and user/kvlib.c: the device that one process opens at a time,
--                      its ioctl handler and the three calls of the library. Numbers of bytes that a
--                      copy between the spaces leaves over are arguments, and so is what a buffer that
--                      is fresh from malloc holds.
--
-- Driver: p2/driver.c.
--   Driver.Tree        the search tree: zswap_rb_insert, zswap_rb_search, print_tree. Rebalancing is a
--                      parameter that keeps the order of the nodes.
--   Driver.Numbers     get_independant_num. The numbers of get_random_bytes are a parameter, and its fuel
--                      bounds how many of them are taken
--   Driver.RbTree      RBtree, which builds a tree of such numbers and empties it range by range; its loop
--                      is on fuel
--
-- Probe: p5/group5_project5/jprobe_p5final.c. Probe has the handlers, the load and the unload; the probes of the
--   kernel are the record Kernel, and IsKernel says what is relied on of them.
--
-- Allocation by vmalloc and kmalloc always succeeds. Strings are lists of bytes without the NUL. A key that does not
-- fit the array of a bucket, of 128 bytes in the serial store and 88 in the parallel one, ends hash_add outside that array.
--
-- Not modelled: the rest of kernel/sched.c, which is upstream Linux; LinkedList, Queue and Map of p2, which
-- call containers of the kernel; p1 and p4; core_bak.c of p6/prototype-parallel, an older copy of core.c;
-- test programs and scripts.
-- Prelude holds what the models share: words, signed integers, byte strings, sums over lists.
pub mod Driver
pub mod Lottery
pub mod Parallel
pub mod Prelude
pub mod Probe
pub mod Serial
pub mod Vanilla
