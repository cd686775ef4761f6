-- ===== src/Spe/Session.antt =====
-- src/tools/spe_self_profile.c: `spe_profile_start` and `spe_profile_stop`, and their callers in
-- src/tools/spe_preload.c, which run when the library is loaded and when the process ends.
pub mod Balance
use kumf.Base.{
  ℕ, zero, suc, ◌+◌, ◌==◌, if◌then◌else◌, Bool, true, false, Option, none, some, List, [], ◌∷◌,
  ◌++◌,
}
use kumf.CText.{codes, text_eq}

-- The file's globals, and what the calls have done: the files opened and closed, the threads created
-- and joined.
pub record Profile : Type 0 where
  pub profiling_active : Bool
  pub output_file : Option ℕ
  pub opened : List ℕ
  pub closed : List ℕ
  pub created : ℕ
  pub joined : ℕ

abbrev pub fresh : Profile
fresh = record {
  profiling_active = false;
  output_file = none;
  opened = [];
  closed = [];
  created = 0;
  joined = 0;
}

-- `spe_profile_start`, with the file that `fopen` answers, if it does. The thread's creation is
-- taken to succeed: its answer is not looked at.
unfoldable pub spe_profile_start : Option ℕ → Profile → Profile
spe_profile_start none p = if p.profiling_active then p else record p { output_file = none }
spe_profile_start (some file) p = if p.profiling_active then p else record p {
  output_file = some file;
  opened = p.opened ++ file ∷ [];
  profiling_active = true;
  created = p.created + 1;
}

abbrev pub close_output : Option ℕ → Profile → Profile
close_output none p = p
close_output (some file) p = record p { closed = p.closed ++ file ∷ []; output_file = none }

unfoldable pub spe_profile_stop : Profile → Profile
spe_profile_stop p =
    let stopped = record p { profiling_active = false; joined = p.joined + 1 } in
    if p.profiling_active then close_output p.output_file stopped else p

-- `skip && strcmp(skip, "1") == 0`, for the value of `KUMF_SKIP`
unfoldable pub skipped : Option (List ℕ) → Bool
skipped none = false
skipped (some value) = text_eq value (codes "1")

-- `kumf_init` and `kumf_fini` of src/tools/spe_preload.c
unfoldable pub kumf_init : Option (List ℕ) → Option ℕ → Profile → Profile
kumf_init skip file p = if skipped skip then p else spe_profile_start file p

unfoldable pub kumf_fini : Profile → Profile
kumf_fini p = spe_profile_stop p

pub data Call : Type 0 where
  start : Option ℕ → Call
  stop : Call

-- The calls that a process may make.
unfoldable pub run_calls : List Call → Profile → Profile
run_calls [] p = p
run_calls (start file ∷ calls) p = run_calls calls (spe_profile_start file p)
run_calls (stop ∷ calls) p = run_calls calls (spe_profile_stop p)
