-- ===== src/Spe/Thread.antt =====
-- src/tools/spe_self_profile.c: `profile_thread_fn`, from the opening of the events to their closing.
pub mod Whole
use kumf.Base.{ℕ, ◌&&◌, Bool, true, false, Option, none, some, List}
use kumf.Spe.Events.{Open, cpus, opened, map_from, close_from}
use kumf.Spe.Poll.{Arrival, poll_loop}
use kumf.Spe.Ring.{Page, Scan}

-- What the thread writes, and the descriptors that it closes.
pub record Profiled : Type 0 where
  pub written : Scan
  pub closed : List ℕ

abbrev pub has_event : Option ℕ → Bool
has_event none = false
has_event (some fd) = true

-- With `online` processors, and a round for each second that the profile is active and the last one.
unfoldable pub profile_thread_fn :
    Open → (ℕ → Bool) → Option ℕ → ℕ → ℕ → List Arrival → (ℕ → Page) → Profiled
profile_thread_fn perf mmap type config online rounds pages =
    let n = cpus online in
    let fds = opened perf type config n in
    let (kept, mapped) = map_from mmap n 0 fds (λ i. false) in
    record {
      written = (poll_loop n (λ i. has_event (kept i) && mapped i) rounds pages).0;
      closed = close_from n 0 kept;
    }
