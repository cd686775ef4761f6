-- ===== src/Prof/Log.antt =====
-- src/lib/prof/ldlib.c: the logs, and `get_log`, which registers a thread and hands out a place in
-- its log. The mutex makes the registration one step; each log has one thread.
use kumf.Base.{
  ℕ, zero, suc, ◌+◌, ◌-◌, ◌*◌, leb, ◌==◌, if◌then◌else◌, Bool, List, Option, none, some,
}
use kumf.Base.Int.{ℤ}
use kumf.Base.Store.{update}

abbrev pub arr_size : ℕ
arr_size = 1000000

abbrev pub max_tid : ℕ
max_tid = 512

-- `sizeof(struct log) * ARR_SIZE`
abbrev pub log_bytes : ℕ
log_bytes = 176 * arr_size

-- `struct log`; the call chain is the first `callchain_size` strings
pub record LogEntry : Type 0 where
  pub rdt : ℕ
  pub addr : ℕ
  pub size : ℕ
  pub entry_type : ℤ
  pub callchain : List ℕ
  pub caller_addr : ℕ

-- The static variables, and the state of what lies outside. `log_arr` is the address of a thread's
-- log, 0 before it has one; `logs i j` is what place `j` of the log with index `i` holds, which is
-- arbitrary before it is written.
pub record Logs (W : Type 0) : Type 0 where
  pub tids : ℕ → ℕ
  pub log_arr : ℕ → ℕ
  pub log_index : ℕ → ℕ
  pub logs : ℕ → ℕ → LogEntry
  pub world : W

-- the thread-local variables
pub record Thread : Type 0 where
  pub tid : ℕ
  pub tid_index : ℕ
  pub in_trace : Bool
  pub in_our_alloc : Bool

-- How a call ends: it returns, the process exits, or its behaviour is undefined.
pub data Outcome (A : Type 0) : Type 0 where
  returns : A → Outcome A
  exits ruined : Outcome A

-- What `get_log` answers: null, or the place in a log.
pub data Slot : Type 0 where
  no_slot : Slot
  slot : ℕ → ℕ → Slot

-- The loop over `tids`: `left` rounds, from index `i` on.
unfoldable pub find_free : ℕ → ℕ → (ℕ → ℕ) → Option ℕ
find_free zero i tids = none
find_free (suc left) i tids =
    let rest = find_free left (i + 1) tids in if tids i == 0 then some i else rest

-- `me` is what `gettid` returns. A thread that finds no index ends the process.
unfoldable pub register : {W : Type 0} → ℕ → Thread → Logs W → Option (Thread × Logs W)
register me th l =
    if th.tid == 0
    then elim (find_free (max_tid - 1) 1 l.tids) [
      | none ↦ if th.tid_index == 0 then none else some (record th { tid = me }, l)
      | some i ↦
          some (record th { tid = me; tid_index = i }, record l { tids = update l.tids i me })
    ]
    else some (th, l)

-- The address of a thread's log, which is allocated at its first use.
unfoldable pub open_log : {W : Type 0} → (ℕ → W → ℕ × W) → ℕ → Logs W → Logs W
open_log malloc i l =
    let (block, w) = malloc log_bytes l.world in
    if l.log_arr i == 0 then record l { log_arr = update l.log_arr i block; world = w } else l

-- Place 0 of a log that was refused is the null pointer, a later place of it an invalid one.
unfoldable pub take_slot : {W : Type 0} → ℕ → Logs W → Outcome (Slot × Logs W)
take_slot i l =
    let j = l.log_index i in
    let taken = record l { log_index = update l.log_index i (j + 1) } in
    if leb arr_size j
    then returns (no_slot, l)
    else if l.log_arr i == 0
    then if j == 0 then returns (no_slot, taken) else ruined
    else returns (slot i j, taken)

unfoldable pub get_log :
    {W : Type 0} → (ℕ → W → ℕ × W) → ℕ → Thread → Logs W → Outcome (Slot × Thread × Logs W)
get_log malloc me th l = elim (register me th l) [
  | none ↦ exits
  | some (th', l') ↦ elim (take_slot th'.tid_index (open_log malloc th'.tid_index l')) [
    | returns (s, l'') ↦ returns (s, th', l'')
    | exits ↦ exits
    | ruined ↦ ruined
  ]
]
