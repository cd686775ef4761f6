-- ===== src/Prof/Hooks.antt =====
-- src/lib/prof/ldlib.c: the intercepted functions, once `m_init` has found the C library's. C++'s
-- `operator new` and `operator delete` call `malloc` and `free`. A caller is a return address.
use kumf.Base.{ℕ, ◌+◌, ◌*◌, ◌%◌, ◌^◌, if◌then◌else◌, Bool, false, ◌||◌, List, Option, none, some}
use kumf.Base.Int.{ℤ, pos, signed32}
use kumf.Base.Store.{update}
use kumf.Prof.Log.{LogEntry, Logs, Thread, Outcome, returns, exits, ruined, no_slot, slot, get_log}

-- The C library's functions, its clock and its `backtrace`, which gives 16 addresses at most. The
-- last argument of `mmap` and `mmap64` before the state is all the others. `posix_memalign` gives
-- its result code and what the pointer's place holds after it.
pub record Libc (W : Type 0) : Type 0 where
  pub malloc : ℕ → W → ℕ × W
  pub calloc : ℕ → ℕ → W → ℕ × W
  pub realloc : ℕ → ℕ → W → ℕ × W
  pub memalign : ℕ → ℕ → W → ℕ × W
  pub posix_memalign : ℕ → ℕ → W → ℤ × ℕ × W
  pub free : ℕ → W → W
  pub mmap : ℕ → ℕ → ℕ → W → ℕ × W
  pub mmap64 : ℕ → ℕ → ℕ → W → ℕ × W
  pub munmap : ℕ → ℕ → W → ℤ × W
  pub now : W → ℕ × W
  pub backtrace : W → List ℕ × W

-- What a function writes into its place; one without a caller leaves that field as it is.
pub record Event : Type 0 where
  pub addr : ℕ
  pub size : ℕ
  pub entry_type : ℤ
  pub caller : Option ℕ

abbrev pub size_mod : ℕ
size_mod = 2 ^ 64

-- `flags + 100` or `flags + 200`, of the 32 bits of `flags`
abbrev pub map_type : ℕ → ℕ → ℤ
map_type base flags = signed32 (flags + base)

abbrev pub caller_of : Event → LogEntry → ℕ
caller_of ev old = elim ev.caller [ none ↦ old.caller_addr | some c ↦ c ]

module _ {W : Type 0} (libc : Libc W) where
  -- The time, the event's fields, and the call chain (`get_trace`, which is not in a trace here).
  unfoldable pub write_entry : Event → ℕ → ℕ → Logs W → Logs W
  write_entry ev i j l =
      let (time, w) = libc.now l.world in
      let (chain, w') = libc.backtrace w in
      let old = l.logs i j in
      let entry : LogEntry = record {
        rdt = time;
        addr = ev.addr;
        size = ev.size;
        entry_type = ev.entry_type;
        callchain = chain;
        caller_addr = caller_of ev old;
      } in
      record l { logs = update l.logs i (update (l.logs i) j entry); world = w' }

  -- The tail of every interceptor, for the thread `me`.
  unfoldable pub log_event : ℕ → Event → Thread → Logs W → Outcome (Thread × Logs W)
  log_event me ev th l = elim (get_log libc.malloc me th l) [
    | returns (no_slot, th', l') ↦ returns (th', l')
    | returns (slot i j, th', l') ↦ returns (th', write_entry ev i j l')
    | exits ↦ exits
    | ruined ↦ ruined
  ]

  unfoldable pub log_unless : Bool → ℕ → Event → Thread → Logs W → Outcome (Thread × Logs W)
  log_unless skip me ev th l = if skip then returns (th, l) else log_event me ev th l

  -- The flag that is set round the C library's call is clear after it.
  abbrev pub cleared : Thread → Thread
  cleared th = record th { in_our_alloc = false }

  abbrev pub with_result :
      {A : Type 0} → A → Outcome (Thread × Logs W) → Outcome (A × Thread × Logs W)
  with_result a (returns (th, l)) = returns (a, th, l)
  with_result a exits = exits
  with_result a ruined = ruined

  unfoldable pub malloc : ℕ → ℕ → ℕ → Thread → Logs W → Outcome (ℕ × Thread × Logs W)
  malloc me caller sz th l =
      let (addr, w) = libc.malloc sz l.world in
      let ev : Event = record {
        addr = addr;
        size = sz;
        entry_type = pos 1;
        caller = some caller;
      } in
      with_result addr (log_unless th.in_trace me ev (cleared th) (record l { world = w }))

  unfoldable pub calloc : ℕ → ℕ → ℕ → ℕ → Thread → Logs W → Outcome (ℕ × Thread × Logs W)
  calloc me caller nmemb size th l =
      let (addr, w) = libc.calloc nmemb size l.world in
      let ev : Event = record {
        addr = addr;
        size = (nmemb * size) % size_mod;
        entry_type = pos 3;
        caller = some caller;
      } in
      with_result addr (log_unless th.in_trace me ev (cleared th) (record l { world = w }))

  unfoldable pub realloc : ℕ → ℕ → ℕ → ℕ → Thread → Logs W → Outcome (ℕ × Thread × Logs W)
  realloc me caller ptr size th l =
      let (addr, w) = libc.realloc ptr size l.world in
      let ev : Event = record {
        addr = addr;
        size = size;
        entry_type = pos 4;
        caller = some caller;
      } in
      with_result addr (log_unless th.in_trace me ev (cleared th) (record l { world = w }))

  unfoldable pub memalign : ℕ → ℕ → ℕ → ℕ → Thread → Logs W → Outcome (ℕ × Thread × Logs W)
  memalign me caller align sz th l =
      let (addr, w) = libc.memalign align sz l.world in
      let ev : Event = record {
        addr = addr;
        size = sz;
        entry_type = pos 5;
        caller = some caller;
      } in
      with_result addr (log_unless th.in_trace me ev (cleared th) (record l { world = w }))

  unfoldable pub posix_memalign : ℕ → ℕ → ℕ → ℕ → Thread → Logs W → Outcome (ℤ × Thread × Logs W)
  posix_memalign me caller align sz th l =
      let (ret, addr, w) = libc.posix_memalign align sz l.world in
      let ev : Event = record {
        addr = addr;
        size = sz;
        entry_type = pos 6;
        caller = some caller;
      } in
      with_result ret (log_unless th.in_trace me ev (cleared th) (record l { world = w }))

  -- The caller's address is not written.
  unfoldable pub free : ℕ → ℕ → Thread → Logs W → Outcome (Thread × Logs W)
  free me p th l =
      let ev : Event = record { addr = p; size = 0; entry_type = pos 2; caller = none } in
      log_unless th.in_trace me ev (cleared th) (record l { world = libc.free p l.world })

  -- The mapping functions log nothing inside the others.
  unfoldable pub mmap : ℕ → ℕ → ℕ → ℕ → ℕ → Thread → Logs W → Outcome (ℕ × Thread × Logs W)
  mmap me caller length flags rest th l =
      let (addr, w) = libc.mmap length flags rest l.world in
      let ev : Event = record {
        addr = addr;
        size = length;
        entry_type = map_type 100 flags;
        caller = some caller;
      } in
      with_result addr
        (log_unless (th.in_trace || th.in_our_alloc) me ev th (record l { world = w }))

  unfoldable pub mmap64 : ℕ → ℕ → ℕ → ℕ → ℕ → Thread → Logs W → Outcome (ℕ × Thread × Logs W)
  mmap64 me caller length flags rest th l =
      let (addr, w) = libc.mmap64 length flags rest l.world in
      let ev : Event = record {
        addr = addr;
        size = length;
        entry_type = map_type 200 flags;
        caller = some caller;
      } in
      with_result addr
        (log_unless (th.in_trace || th.in_our_alloc) me ev th (record l { world = w }))

  unfoldable pub munmap : ℕ → ℕ → ℕ → ℕ → Thread → Logs W → Outcome (ℤ × Thread × Logs W)
  munmap me caller start length th l =
      let (ret, w) = libc.munmap start length l.world in
      let ev : Event = record {
        addr = start;
        size = length;
        entry_type = pos 90;
        caller = some caller;
      } in
      with_result ret
        (log_unless (th.in_trace || th.in_our_alloc) me ev th (record l { world = w }))
