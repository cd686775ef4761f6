-- ===== src/Prof/Dump.antt =====
-- src/lib/prof/ldlib.c: what `prof_cleanup` prints of a thread's log, entry by entry; the debug
-- output is left out.
use kumf.Base.{ℕ, zero, suc, ◌-◌, ◌^◌, ◌==◌, if◌then◌else◌, ◌||◌, List, [], ◌∷◌}
use kumf.Base.Int.{ℤ}
use kumf.Prof.Log.{LogEntry, Logs}

-- `[init]`, or the name for an address
pub data Caller : Type 0 where
  init : Caller
  at_address : ℕ → Caller

pub record Line : Type 0 where
  pub caller : Caller
  pub rdt : ℕ
  pub size : ℕ
  pub addr : ℕ
  pub entry_type : ℤ

unfoldable pub print_entry : LogEntry → Line
print_entry e = record {
  caller =
      if e.caller_addr == 0 || e.caller_addr == 2 ^ 64 - 1 then init else at_address e.caller_addr;
  rdt = e.rdt;
  size = e.size;
  addr = e.addr;
  entry_type = e.entry_type;
}

-- The loop over the places of one log: `left` rounds, from place `j` on.
unfoldable pub print_log : ℕ → ℕ → (ℕ → LogEntry) → List Line
print_log zero j log = []
print_log (suc left) j log = print_entry (log j) ∷ print_log left (suc j) log

-- One file: its thread's number, and what is added to it.
unfoldable pub print_thread : {W : Type 0} → ℕ → Logs W → ℕ × List Line
print_thread i l = (l.tids i, print_log (l.log_index i) 0 (l.logs i))

-- the indices from `i` on
unfoldable pub from_to : ℕ → ℕ → List ℕ
from_to i zero = []
from_to i (suc n) = i ∷ from_to (suc i) n
