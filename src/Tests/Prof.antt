-- ===== src/Tests/Prof.antt =====
-- The profiler at concrete inputs: addresses rise by 4096, and the clock by one.
use kumf.Base.{
  ℕ, List, not, zero, suc, ◌+◌, ◌≡◌, refl, ◌≢◌, inl, inr, ◌==◌, if◌then◌else◌, false, [], ◌∷◌, some,
  arith,
}
use kumf.Base.Int.{pos}
use kumf.Prof.Dump.{print_thread}
use kumf.Prof.Hooks.{Libc, Event, malloc, free, log_event, log_unless, write_entry}
use kumf.Prof.Indices.{HasPrefix}
use kumf.Prof.Log.{
  LogEntry, Logs, Thread, Outcome, returns, exits, ruined, get_log, register, find_free, open_log,
  take_slot,
}
use kumf.Prof.Records.{malloc_free_logged, refused_log_ruins}
use kumf.Prof.Slots.{IsKnown}
use kumf.Prof.Start.{
  Pointers, default, Process, Loader, callocs, operator_new, operator_delete, Turn, constructs,
  calls, sigterm, m_init, early_calloc, ready, call, turn, run as run_process, open_file, finish,
  prof_cleanup, dump_from,
}
use kumf.Prof.Threads.{System, IsSound, SoundOrExit, run-SoundOrExit}

abbrev bump : ℕ → ℕ × ℕ
bump w = (w + 4096, w + 4096)

abbrev libc : Libc ℕ
libc = record {
  malloc = λ n w. bump w;
  calloc = λ k n w. bump w;
  realloc = λ p n w. bump w;
  memalign = λ align n w. bump w;
  posix_memalign = λ align n w. (pos 0, w + 4096, w + 4096);
  free = λ p w. w;
  mmap = λ length flags rest w. bump w;
  mmap64 = λ length flags rest w. bump w;
  munmap = λ start length w. (pos 0, w);
  now = λ w. (w, w + 1);
  backtrace = λ w. ([], w);
}

given : (w : ℕ) → w + 4096 ≢ 0
given w = omega arith

abbrev fresh : Thread
fresh = record { tid = 0; tid_index = 0; in_trace = false; in_our_alloc = false }

abbrev noise : LogEntry
noise = record { rdt = 0; addr = 0; size = 0; entry_type = pos 0; callchain = []; caller_addr = 77 }

abbrev no_logs : Logs ℕ
no_logs = record {
  tids = λ i. 0;
  log_arr = λ i. 0;
  log_index = λ i. 0;
  logs = λ i j. noise;
  world = 0;
}

no_threads : HasPrefix no_logs.tids
no_threads = (0, omega arith, λ k. ground arith)

abbrev start : System ℕ
start = record { threads = λ n. fresh; logs = no_logs }

start-IsSound : IsSound start
start-IsSound = record {
  known = λ n. inl (refl, refl);
  prefix = no_threads;
  bounded = λ i. omega arith;
}

abbrev event : Event
event = record { addr = 4096; size = 100; entry_type = pos 1; caller = some 5 }

run-SoundOrExit_example : SoundOrExit libc ((3, event) ∷ (8, event) ∷ (3, event) ∷ []) start
run-SoundOrExit_example =
    run-SoundOrExit libc given ((3, event) ∷ (8, event) ∷ (3, event) ∷ []) start start-IsSound

-- Two threads, under the kernel's numbers 1 and 2, with the indices 1 and 2.
abbrev two_threads : System ℕ
two_threads = record {
  threads = λ n.
      if n == 0
      then record fresh { tid = 1; tid_index = 1 }
      else if n == 1
      then record fresh { tid = 2; tid_index = 2 }
      else fresh;
  logs = record no_logs { tids = λ i. if i == 1 then 1 else if i == 2 then 2 else 0 };
}

two_threads-IsSound : IsSound two_threads
two_threads-IsSound = record {
  known = indices;
  prefix = (2, omega arith, λ k. ground arith);
  bounded = λ i. omega arith;
}
  where
    indices : (n : ℕ) → IsKnown (suc n) (two_threads.threads n) two_threads.logs.tids
    indices zero =
        inr (record { own_tid = refl; low = omega arith; high = omega arith; listed = refl })
    indices (suc zero) =
        inr (record { own_tid = refl; low = omega arith; high = omega arith; listed = refl })
    indices (suc (suc n)) = inl (ground arith, ground arith)

-- A thread with a log of one entry.
abbrev logging : Thread
logging = record fresh { tid = 900; tid_index = 1 }

abbrev one_log : Logs ℕ
one_log = record no_logs {
  tids = λ i. if i == 1 then 900 else 0;
  log_arr = λ i. if i == 1 then 64 else 0;
  log_index = λ i. if i == 1 then 1 else 0;
}

malloc_free_logged_example :
    (l₁ l₂ : Logs ℕ) × (malloc libc 900 5 100 logging one_log ≡ returns (4096, logging, l₁))
    × (free libc 900 4096 logging l₁ ≡ returns (logging, l₂))
    × (l₂.log_index 1 ≡ 3)
    × ((l₂.logs 1 1).addr ≡ 4096)
    × ((l₂.logs 1 1).size ≡ 100)
    × ((l₂.logs 1 1).entry_type ≡ pos 1)
    × ((l₂.logs 1 1).caller_addr ≡ 5)
    × ((l₂.logs 1 2).addr ≡ 4096)
    × ((l₂.logs 1 2).entry_type ≡ pos 2)
    × ((l₂.logs 1 2).caller_addr ≡ 77)
malloc_free_logged_example =
    malloc_free_logged libc 900 5 100 logging one_log (omega arith) refl refl (omega arith)
      (omega arith)

-- A machine without memory for a log.
abbrev poor : Libc ℕ
poor = record libc { malloc = λ n w. (0, w) }

refused_log_ruins_example :
    (l' : Logs ℕ) × (log_event poor 900 event logging (record no_logs { tids = one_log.tids })
      ≡ returns (logging, l'))
    × (log_event poor 900 event logging l' ≡ ruined)
refused_log_ruins_example =
    refused_log_ruins poor 900 event event logging (record no_logs { tids = one_log.tids })
      (λ w. refl) (omega arith) refl refl

-- A process under the loader, with the C library's functions from address 4096 on, of which
-- `malloc` gives no block at 0; a thread's file opens unless its number is 3.
abbrev symbols : Pointers
symbols = record {
  libc_malloc = 1;
  libc_realloc = 2;
  libc_calloc = 3;
  libc_free = 4;
  libc_mmap = 5;
  libc_munmap = 6;
  libc_mmap64 = 7;
  libc_memalign = 8;
  libc_posix_memalign = 9;
}

abbrev loader : Loader ℕ
loader = record {
  symbols = symbols;
  empty_addr = 64;
  libc = libc;
  fopen = λ tid l. returns (not (tid == 3), l);
  mkdir = λ w. w;
}

abbrev early : Process ℕ
early = record {
  prof_initialized = false;
  pointers = record {
    libc_malloc = 0;
    libc_realloc = 0;
    libc_calloc = 0;
    libc_free = 0;
    libc_mmap = 0;
    libc_munmap = 0;
    libc_mmap64 = 0;
    libc_memalign = 0;
    libc_posix_memalign = 0;
  };
  empty_data = λ i. 0;
  exit_functions = 0;
  on_sigterm = default;
  on_sigint = default;
  prof_cleanup_done = false;
  files = [];
  threads = λ n. fresh;
  logs = no_logs;
}

-- The thread 1 and the thread 3 of the kernel's each make calls.
abbrev turns : List Turn
turns =
    calls 0 (callocs 5 2 8)
    ∷ constructs
    ∷ calls 0 (operator_new 5 100)
    ∷ calls 2 (operator_delete 4096)
    ∷ []

abbrev process_of : Outcome (Process ℕ) → Process ℕ
process_of (returns p) = p
process_of exits = early
process_of ruined = early

-- where they lead: two threads have logs
abbrev served : Process ℕ
served = process_of (run_process loader turns early)

served_back : run_process loader turns early ≡ returns served
unfolding run_process turn call m_init early_calloc ready malloc free log_unless log_event get_log
    register find_free open_log take_slot write_entry
served_back = refl

-- The second thread's file does not open.
served_files : (finish loader sigterm served).files ≡ print_thread 1 served.logs ∷ []
unfolding finish prof_cleanup dump_from open_file run_process turn call m_init early_calloc ready
    malloc free log_unless log_event get_log register find_free open_log take_slot write_entry
served_files = refl
