-- ===== src/Prof/Start.antt =====
-- src/lib/prof/ldlib.c: a process under the profiler: `m_init`, the intercepted functions before
-- and after it, and the ends that print the logs. The locks make `prof_cleanup` one step.
pub mod Calls
pub mod Runs
use kumf.Base.{ℕ, zero, suc, ◌-◌, ◌==◌, ◌&&◌, if◌then◌else◌, Bool, true, false, List, [], ◌∷◌, ◌++◌}
use kumf.Base.Int.{ℤ}
use kumf.Base.Store.{update}
use kumf.Prof.Dump.{Line, print_thread}
use kumf.Prof.Hooks
use kumf.Prof.Hooks.{Libc}
use kumf.Prof.Log.{max_tid, Logs, Thread, Outcome, returns, exits, ruined}

-- the addresses of the C library's functions, 0 before they are known
pub record Pointers : Type 0 where
  pub libc_malloc : ℕ
  pub libc_realloc : ℕ
  pub libc_calloc : ℕ
  pub libc_free : ℕ
  pub libc_mmap : ℕ
  pub libc_munmap : ℕ
  pub libc_mmap64 : ℕ
  pub libc_memalign : ℕ
  pub libc_posix_memalign : ℕ

-- What a signal does: its default action, or once the function that `m_init` installs.
pub data Disposition : Type 0 where
  default flushes : Disposition

-- The static variables of the start and the end, what the process has registered, the files that
-- it printed, and the logs. `empty_data` is the static block's bytes.
pub record Process (W : Type 0) : Type 0 where
  pub prof_initialized : Bool
  pub pointers : Pointers
  pub empty_data : ℕ → ℕ
  pub exit_functions : ℕ
  pub on_sigterm : Disposition
  pub on_sigint : Disposition
  pub prof_cleanup_done : Bool
  pub files : List (ℕ × List Line)
  pub threads : ℕ → Thread
  pub logs : Logs W

-- What the process finds: `dlsym(RTLD_NEXT, …)` for the names, the address of `empty_data`, the C
-- library, `fopen` for a thread's file, and `mkdir`. What `fopen` allocates comes through the
-- intercepted functions, so it may change the logs, or not return.
pub record Loader (W : Type 0) : Type 0 where
  pub symbols : Pointers
  pub empty_addr : ℕ
  pub libc : Libc W
  pub fopen : ℕ → Logs W → Outcome (Bool × Logs W)
  pub mkdir : W → W

-- one call of an intercepted function by the program, with its caller
pub data Call : Type 0 where
  mallocs : ℕ → ℕ → Call
  callocs : ℕ → ℕ → ℕ → Call
  reallocs : ℕ → ℕ → ℕ → Call
  memaligns : ℕ → ℕ → ℕ → Call
  posix_memaligns : ℕ → ℕ → ℕ → Call
  frees : ℕ → Call
  mmaps : ℕ → ℕ → ℕ → ℕ → Call
  mmap64s : ℕ → ℕ → ℕ → ℕ → Call
  munmaps : ℕ → ℕ → ℕ → Call

-- C++'s four forms of `new`, and its two of `delete`; the caller is the return address that
-- `malloc` finds, in `operator new` or, after a tail call, behind it.
abbrev pub operator_new : ℕ → ℕ → Call
operator_new caller sz = mallocs caller sz

abbrev pub operator_delete : ℕ → Call
operator_delete ptr = frees ptr

pub data Turn : Type 0 where
  constructs : Turn
  calls : ℕ → Call → Turn

-- How a process ends: by `exit`, or by one of the signals.
pub data End : Type 0 where
  leaves sigterm sigint : End

module _ {W : Type 0} (ld : Loader W) where
  open ld use {symbols, libc, fopen, mkdir}

  unfoldable pub m_init : Process W → Process W
  m_init p = if p.prof_initialized then p else record p {
    prof_initialized = true;
    pointers = symbols;
    exit_functions = suc p.exit_functions;
    on_sigterm = flushes;
    on_sigint = flushes;
  }

  -- a call through a pointer
  abbrev pub through : {A : Type 0} → ℕ → Outcome A → Outcome A
  through f r = if f == 0 then ruined else r

  -- The thread and the logs after a call; its result is the program's.
  abbrev pub after :
      {A : Type 0} → ℕ → Process W → Outcome (A × Thread × Logs W) → Outcome (Process W)
  after n p (returns (a, th, l)) = returns (record p { threads = update p.threads n th; logs = l })
  after n p exits = exits
  after n p ruined = ruined

  abbrev pub after_free : ℕ → Process W → Outcome (Thread × Logs W) → Outcome (Process W)
  after_free n p (returns (th, l)) =
      returns (record p { threads = update p.threads n th; logs = l })
  after_free n p exits = exits
  after_free n p ruined = ruined

  -- `if (!libc_malloc) m_init();`
  unfoldable pub ready : Process W → Process W
  unfolding m_init
  ready p = if p.pointers.libc_malloc == 0 then m_init p else p

  -- The block that `calloc` gives before `m_init`: always the same, cleared.
  unfoldable pub early_calloc : Process W → Outcome (Process W)
  early_calloc p = returns (record p { empty_data = λ i. 0 })

  -- A free or a realloc of that block, which is none of the C library's, is undefined there.
  abbrev pub unless_static : {A : Type 0} → ℕ → Outcome A → Outcome A
  unless_static ptr r = if ptr == ld.empty_addr then ruined else r

  -- The intercepted functions, in the thread `n` of the kernel's number `n + 1`.
  unfoldable pub call : ℕ → Call → Process W → Outcome (Process W)
  unfolding ready early_calloc
  call n (mallocs caller sz) p =
      let p' = ready p in
      through p'.pointers.libc_malloc
        (after n p' (Hooks.malloc libc (suc n) caller sz (p'.threads n) p'.logs))
  call n (callocs caller nmemb size) p =
      if p.pointers.libc_calloc == 0
      then early_calloc p
      else after n p (Hooks.calloc libc (suc n) caller nmemb size (p.threads n) p.logs)
  call n (reallocs caller ptr size) p = through p.pointers.libc_realloc (
      unless_static ptr
        (after n p (Hooks.realloc libc (suc n) caller ptr size (p.threads n) p.logs)))
  call n (memaligns caller align sz) p =
      through p.pointers.libc_memalign
        (after n p (Hooks.memalign libc (suc n) caller align sz (p.threads n) p.logs))
  call n (posix_memaligns caller align sz) p =
      through p.pointers.libc_posix_memalign
        (after n p (Hooks.posix_memalign libc (suc n) caller align sz (p.threads n) p.logs))
  call n (frees ptr) p =
      through p.pointers.libc_free
        (unless_static ptr (after_free n p (Hooks.free libc (suc n) ptr (p.threads n) p.logs)))
  call n (mmaps caller length flags rest) p =
      through p.pointers.libc_mmap
        (after n p (Hooks.mmap libc (suc n) caller length flags rest (p.threads n) p.logs))
  call n (mmap64s caller length flags rest) p =
      through p.pointers.libc_mmap64
        (after n p (Hooks.mmap64 libc (suc n) caller length flags rest (p.threads n) p.logs))
  call n (munmaps caller start length) p =
      through p.pointers.libc_munmap
        (after n p (Hooks.munmap libc (suc n) caller start length (p.threads n) p.logs))

  unfoldable pub turn : Turn → Process W → Outcome (Process W)
  turn constructs p = returns (m_init p)
  turn (calls n c) p = call n c p

  unfoldable pub run : List Turn → Process W → Outcome (Process W)
  run [] p = returns p
  run (t ∷ ts) p = elim (turn t p) [ returns p' ↦ run ts p' | exits ↦ exits | ruined ↦ ruined ]

  -- The second try, where `exits` is the exit with code -1.
  abbrev pub opened_or_exit : Outcome (Bool × Logs W) → Outcome (Logs W)
  opened_or_exit (returns (opened, l)) = if opened then returns l else exits
  opened_or_exit exits = exits
  opened_or_exit ruined = ruined

  -- What follows the first try.
  abbrev pub or_mkdir : ℕ → Outcome (Bool × Logs W) → Outcome (Logs W)
  or_mkdir tid (returns (opened, l)) =
      let retried = opened_or_exit (fopen tid (record l { world = mkdir l.world })) in
      if opened then returns l else retried
  or_mkdir tid exits = exits
  or_mkdir tid ruined = ruined

  -- The file of a thread, with the logs behind it.
  unfoldable pub open_file : ℕ → Logs W → Outcome (Logs W)
  open_file tid l = or_mkdir tid (fopen tid l)

  -- One round of the loop of `prof_cleanup`: the thread's file, if it opens, and the other threads'.
  -- The file is written from the logs as `open_file` leaves them.
  abbrev pub write_file :
      ℕ
      → (Logs W → List (ℕ × List Line) × Outcome (Logs W))
      → Outcome (Logs W)
      → List (ℕ × List Line) × Outcome (Logs W)
  write_file i others (returns l) = let rest = others l in (print_thread i l ∷ rest.0, rest.1)
  write_file i others exits = ([], exits)
  write_file i others ruined = ([], ruined)

  -- The loop over the threads: what it wrote, and whether it came to its end.
  unfoldable pub dump_from : ℕ → ℕ → Logs W → List (ℕ × List Line) × Outcome (Logs W)
  unfolding open_file
  dump_from zero i l = ([], returns l)
  dump_from (suc left) i l =
      if l.tids i == 0
      then ([], returns l)
      else write_file i (λ l'. dump_from left (suc i) l') (open_file (l.tids i) l)

  -- The logs behind the loop, which are not read again where it did not end.
  abbrev pub dumped_logs : Logs W → Outcome (Logs W) → Logs W
  dumped_logs l (returns l') = l'
  dumped_logs l exits = l
  dumped_logs l ruined = l

  -- What the process has done when the function returned or the process ended in it.
  unfoldable pub prof_cleanup : Process W → Process W
  prof_cleanup p =
      let (files, ended) = dump_from (max_tid - 1) 1 p.logs in
      if p.prof_cleanup_done then p else record p {
        prof_cleanup_done = true;
        files = p.files ++ files;
        logs = dumped_logs p.logs ended;
      }

  -- the functions that `atexit` registered
  unfoldable pub run_exit_functions : ℕ → Process W → Process W
  run_exit_functions zero p = p
  run_exit_functions (suc k) p = run_exit_functions k (prof_cleanup p)

  -- A signal, with the process as it was and as it is with the signal's default action restored.
  abbrev pub deliver : Disposition → Process W → Process W → Process W
  deliver default p restored = p
  deliver flushes p restored = prof_cleanup restored

  -- The function that `m_init` installs is taken off the signal when it begins; it ends with the
  -- signal's default action, which ends the process.
  unfoldable pub finish : End → Process W → Process W
  finish leaves p = run_exit_functions p.exit_functions p
  finish sigterm p = deliver p.on_sigterm p (record p { on_sigterm = default })
  finish sigint p = deliver p.on_sigint p (record p { on_sigint = default })
