-- ===== src/Spe/Wrapper.antt =====
-- src/tools/spe_self_profile.c: `main`, the wrapper that starts a command and profiles it until it
-- ends.
pub mod Complete
use kumf.Base.{
  ℕ, zero, suc, ◌+◌, ◌-◌, ltb, leb, ◌==◌, if◌then◌else◌, ◌&&◌, Bool, true, false, Option, none,
  some, List, [], ◌∷◌, ◌++◌,
}
use kumf.Base.Store.{update}
use kumf.CText.{codes, text_eq}
use kumf.Spe.Events.{Attr, if_open, type_hardware, ip, tid, addr, cpu, weight}
use kumf.Spe.Poll.{followed_by, poll_cpus, Arrival, arrive}
use kumf.Spe.Ring.{Page, Scan, lines}

-- The attributes, with the processor's cycles if the profiler has no type of its own.
abbrev pub child_attr : Option ℕ → ℕ → Attr
child_attr none config = record {
  type = type_hardware;
  config = 0;
  sample_type = ip ∷ tid ∷ addr ∷ cpu ∷ weight ∷ [];
  sample_period = 10000;
}
child_attr (some type) config = record {
  type = type;
  config = config;
  sample_type = ip ∷ tid ∷ addr ∷ cpu ∷ weight ∷ [];
  sample_period = 10000;
}

-- What the loop over the processors leaves: the descriptors, of which each has its buffer, and those
-- that it closed again.
pub record Attached : Type 0 where
  pub fds : ℕ → Option ℕ
  pub dropped : List ℕ
  pub active_cpus : ℕ

-- A round: no event, an event whose buffer is not mapped, or one that is kept.
abbrev pub attach_one : (ℕ → Bool) → ℕ → Option ℕ → Attached → Attached
attach_one mmap i none s = record s { fds = update s.fds i none }
attach_one mmap i (some fd) s =
    if mmap fd
    then record s { fds = update s.fds i (some fd); active_cpus = s.active_cpus + 1 }
    else record s { fds = update s.fds i none; dropped = s.dropped ++ fd ∷ [] }

-- The loop, `left` rounds from processor `i` on.
unfoldable pub attach_from : (ℕ → Option ℕ) → (ℕ → Bool) → ℕ → ℕ → Attached → Attached
attach_from perf mmap zero i s = s
attach_from perf mmap (suc left) i s =
    attach_from perf mmap left (suc i) (attach_one mmap i (perf i) s)

-- The child's status as `waitpid` stores it.
pub data Status : Type 0 where
  exited : ℕ → Status
  signaled : Status

-- What `waitpid` with `WNOHANG` answers.
pub data Waited : Type 0 where
  still_running no_child : Waited
  reaped : Status → Waited

-- A round of half a second: what the kernel has written, whether the handler has set `child_exited`
-- and the status that a waiting `waitpid` would then store, and the answer of the other one.
pub record Round : Type 0 where
  pub news : Arrival
  pub child_exited : Bool
  pub final_status : Status
  pub waited : Waited

-- `status`, at first 0, if the round is the last one.
abbrev pub after_wait : Waited → Option Status
after_wait still_running = none
after_wait no_child = some (exited 0)
after_wait (reaped status) = some status

abbrev pub round_ends : Round → Option Status
round_ends r = if r.child_exited then some r.final_status else after_wait r.waited

abbrev pub is_open : Option ℕ → Bool
is_open none = false
is_open (some fd) = true

-- How the loop ends: with the status, or not within the rounds.
pub record Polled : Type 0 where
  pub written : Scan
  pub pages : ℕ → Page
  pub status : Option Status

abbrev pub before_rest : Scan → Polled → Polled
before_rest written rest = record rest { written = followed_by written rest.written }

abbrev pub or_rest : Option Status → Scan × (ℕ → Page) → Polled → Polled
or_rest none round rest = before_rest round.0 rest
or_rest (some status) round rest = record {
  written = round.0;
  pages = round.1;
  status = some status;
}

unfoldable pub poll_child : ℕ → (ℕ → Bool) → List Round → (ℕ → Page) → Polled
poll_child n attached [] pages = record { written = lines []; pages = pages; status = none }
poll_child n attached (r ∷ rounds) pages =
    let round = poll_cpus n 0 attached (arrive r.news pages) in
    let rest = poll_child n attached rounds round.1 in or_rest (round_ends r) round rest

-- The last loop: the descriptors that it closes, from processor `i` on.
unfoldable pub close_mapped : ℕ → ℕ → (ℕ → Option ℕ) → List ℕ
close_mapped zero i fds = []
close_mapped (suc left) i fds =
    let rest = close_mapped left (suc i) fds in if_open (fds i) rest (λ fd. fd ∷ rest)

-- `WIFEXITED(status) ? WEXITSTATUS(status) : 1`
abbrev pub exit_code : Status → ℕ
exit_code (exited code) = code
exit_code signaled = 1

-- What the wrapper does once the command runs and its file is open.
pub record Wrapped : Type 0 where
  pub output : Scan
  pub closed : List ℕ
  pub code : Option ℕ

abbrev pub finish : ℕ → (ℕ → Option ℕ) → List ℕ → Arrival → Polled → Option Status → Wrapped
finish n fds dropped last p none = record { output = p.written; closed = dropped; code = none }
finish n fds dropped last p (some status) = record {
  output = followed_by p.written (poll_cpus n 0 (λ i. is_open (fds i)) (arrive last p.pages)).0;
  closed = dropped ++ close_mapped n 0 fds;
  code = some (exit_code status);
}

abbrev pub unattached : Attached
unattached = record { fds = λ i. none; dropped = []; active_cpus = 0 }

unfoldable pub profile_child :
    (ℕ → Option ℕ) → (ℕ → Bool) → ℕ → List Round → Arrival → (ℕ → Page) → Wrapped
profile_child perf mmap n rounds last pages =
    let s = attach_from perf mmap n 0 unattached in
    let p = poll_child n (λ i. is_open (s.fds i)) rounds pages in
    finish n s.fds s.dropped last p p.status

pub data Main : Type 0 where
  exits : ℕ → Main
  profiled : Wrapped → Main

-- The command that the child becomes.
abbrev pub command : List (List ℕ) → List (List ℕ)
command [] = []
command (first ∷ rest) = if text_eq first (codes "--") then rest else first ∷ rest

abbrev pub is_some_left : List (List ℕ) → Bool
is_some_left [] = false
is_some_left (x ∷ xs) = true

-- `main` in the parent, for the arguments behind the program's name, whether the output file opens,
-- and what the profile of the command that it starts is.
unfoldable pub wrapper_main : List (List ℕ) → Bool → (List (List ℕ) → Wrapped) → Main
wrapper_main [] file profile = exits 1
wrapper_main (first ∷ rest) file profile =
    if text_eq first (codes "--pid") && is_some_left rest
    then exits 1
    else if file
    then profiled (profile (command (first ∷ rest)))
    else exits 1
