-- ===== src/Lib.antt =====
-- KUMF is a set of libraries that are preloaded into programs on machines with several NUMA
-- nodes, and of tools that profile such programs. This development models the preloaded
-- libraries, the profiler that is built on performance events, and the workloads:
--
-- - src/lib/interc/ldlib.c routes allocations and threads to nodes. Its constructor `kumf_init`
--   asks the daemon for a configuration (`query_daemon_for_config`), reads the rules
--   (`load_rules`), reads the nodes, picks a mode and binds the main thread (`init_affinity`).
--   From then on `pthread_create` gives each new thread a node (`get_next_node`), the new thread
--   binds itself (`thread_entry_wrapper`), and `malloc`, `calloc`, `realloc` and `free` ask
--   `resolve_node` for a node and keep the routed blocks in a hash table, so that each goes back
--   to its own allocator.
-- - src/lib/mlock/ldlib.c locks the pages of the first large allocations within a budget, and
--   keeps the large allocations in a hash table of its own.
-- - src/lib/prof/ldlib.c logs each allocation, release and mapping in a log of the calling
--   thread.
-- - src/tools/spe_self_profile.c, preloaded by way of src/tools/spe_preload.c, samples the
--   process: `spe_profile_start` opens a file and a thread (`profile_thread_fn`), which opens an
--   event for each processor, maps their buffers, reads them once a second (`parse_spe_buffer`)
--   until `spe_profile_stop`, and closes the events.
-- - workloads/kumf_stream.c, workloads/kumf_tiered.c and workloads/mini_md_v2.c are programs
--   whose allocations the libraries route and measure.
--
-- The files: Base has what the others share, CText the C library's functions on text as the
-- sources use them (with lemmas on numerals and lines in CText/Numeral, CText/Integers and
-- CText/Lines), HashTable the chained table that the first two libraries keep.
--
-- - Interc/Types: constants, enumerations, rules, static variables. Interc/Segs: `addr_hash_fn`,
--   `record_seg`, `check_and_remove_seg`. Interc/Config: `load_rules`, with its reading of
--   printed rules in RoundTrip and Printed. Interc/Match: `match_addr`, `match_size`,
--   `resolve_node`, and in Interc/Match/First the rule that decides. Interc/Alloc: the four
--   allocation functions, with the laws of their branches in Interc/Alloc/Branches and under a
--   file's rules in Interc/Alloc/Configured.
-- - Interc/Ownership: what the allocation functions rely on in the allocators beneath them
--   (`LibcLaws`: a new block lies where none was, a release is promised only for a block that the
--   same allocator gave), and the invariant `Owned` between the table and the live blocks; Steps,
--   Grants, Returns and Realloc are about each function, Traces and Balance about sequences of
--   calls.
-- - Interc/Topology: `node_cpu_count`, `cache_node_cpu_counts`, `is_cross_socket`. Interc/Spread:
--   `get_next_node`. Interc/Bind: `bind_to_all_nodes`, `bind_thread_to_node`. Interc/Threads:
--   `pthread_create`, `thread_entry_wrapper`. Interc/Daemon: `query_daemon_for_config`.
--   Interc/Connection: `connect_daemon`, `disconnect_daemon`, `kumf_fini`. Interc/Init:
--   `init_affinity`, `kumf_init`; Interc/Init/Configured is about an allocation after it.
-- - Mlock/Pages, Mlock/HotPages, Mlock/Table and Mlock/Hooks: the functions of the page-locking
--   library; Mlock/Budget and Mlock/Accounts: what holds of its counters.
-- - Prof/Log: `get_log` and the static variables. Prof/Hooks: the interceptors. Prof/Dump: the
--   entries that are printed. Prof/Text: the text of a line. Prof/Start: `m_init`, a process from
--   its first call to its end, `open_file` and `prof_cleanup`, whose files are opened through the
--   interceptors. Prof/Indices, Prof/Slots, Prof/Threads, Prof/Records and the files in
--   Prof/Start: what holds of one call, of interleaved threads, of the entries and of a process.
-- - Spe/Ring: `parse_spe_buffer`. Spe/Poll: the loops of `profile_thread_fn` over the buffers.
--   Spe/Events: its loops that open, map and close the events. Spe/Thread: the function as a
--   whole. Spe/Config: `get_spe_pmu_type`, `read_format_bits`, `spe_event_config`. Spe/Session:
--   `spe_profile_start`, `spe_profile_stop`, and the functions of spe_preload.c. Spe/Wrapper:
--   `main`, which profiles a command.
-- - Workloads/Doubles: the operations on `double`. Workloads/Stride and Workloads/Chase: the
--   loops over arrays and the pointer chase. Workloads/Stream, Workloads/Tiered and
--   Workloads/MiniMd: the three programs; Workloads/MiniMd/Run has `init_data`, `run_simulation`
--   and `main`.
-- - Tests: runs at concrete inputs, on a small machine (Tests/World).
--
-- How the code is read: a static or thread-local variable is a field of a state record that each
-- function takes and returns; the C library, libnuma, the kernel and the daemon are records of
-- functions over a state `W` of what lies outside (`Libc`, `Numa`, `Kernel`, `DaemonIo`), which
-- the theorems take as parameters. Undefined behaviour is `none`, in the profiler `ruined`, for a
-- reply of the daemon `undefined`. Addresses and sizes are natural numbers below 2 ^ 64 with the
-- wrap written out where the code can reach it; a C `int` that can be negative is a `ℤ`. The
-- overflow of an `int` is `none`, in the page-locking library the flag `overflowed`; other
-- counters have no bound. An array with its count is the list of what was filled in. Fuel is used
-- for the lines of a file (each `fgets` takes a byte at least, so the length of the text is
-- enough) and for the digits of a process number (10). The loop of `parse_spe_buffer` has the
-- distance of head and tail as fuel, since a round takes a byte at least, and the loops in steps
-- of three the number of elements. A read of the ring buffer or of an array outside of its bounds
-- is a result of its own (`past_end`, `out_of_bounds`, `none`). `double` and its operations are a
-- record (`Doubles`) of which nothing is assumed, so the sums stand in the order in which the
-- program forms them.
--
-- Not modelled: logging, but for the topology that KUMF_DEBUG prints, and, in the first two
-- libraries, `dlsym`; the 64-bit wrap of the counters; data races, since each function runs as
-- one step (the allocation table of the routing library has no lock in the source); in the
-- profiler a signal inside a call or inside `prof_cleanup`, and its debug report; of the
-- performance profiler a failing `fork` and the kernel's writing while a buffer is read; of the
-- workloads the times, the lines on NUMA and, but in Workloads/Tiered, the allocations that the
-- programs do not test; the Python tools.
pub mod Base
pub mod CText
pub mod HashTable
pub mod Interc
pub mod Mlock
pub mod Prof
pub mod Spe
pub mod Tests
pub mod Workloads
