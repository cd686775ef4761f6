-- ===== src/Tests/Mlock.antt =====
-- The page-locking library at concrete inputs.
use kumf.Base.{ℕ, ◌+◌, ◌-◌, ◌≤◌, ◌≡◌, refl, true, false, List, [], ◌∷◌, Option, some, arith}
use kumf.CText.{codes}
use kumf.Mlock.Accounts.{skipped_release_undercounts}
use kumf.Mlock.Budget.{IsWithin, mallocs, callocs, reallocs, frees, run, run-init-IsWithin}
use kumf.Mlock.Hooks.{kumf_mlock_init, unloaded, budget_bytes}
use kumf.Mlock.Pages.{lock_size}
use kumf.Mlock.Table.{Libc, State, record_alloc, remove_alloc}

-- Addresses that rise by 16384; every call succeeds.
abbrev bump : ℕ → ℕ → ℕ × ℕ
bump n w = (w, w + 16384)

abbrev libc : Libc ℕ
libc = record {
  malloc = bump;
  calloc = λ k n w. bump n w;
  realloc = λ p n w. bump n w;
  free = λ p w. w;
  mlock = λ p n w. (true, w);
  munlock = λ p n w. w;
}

abbrev file : Option (List ℕ)
file = some (codes "# hot\n0x7f0000001000\n")

run-init-IsWithin_example : IsWithin 4 (
    run libc
      (mallocs 5000 ∷ callocs 2 5000 ∷ reallocs 16384 9000 ∷ frees 32768 ∷ [])
      (kumf_mlock_init file (unloaded 16384)))
run-init-IsWithin_example =
    run-init-IsWithin libc file 16384
      (mallocs 5000 ∷ callocs 2 5000 ∷ reallocs 16384 9000 ∷ frees 32768 ∷ []) (omega arith)

abbrev ready : State ℕ
ready = record (unloaded 65536) {
  hot_pages = 8192 ∷ [];
  hot_pages_loaded = true;
  mlock_budget = budget_bytes;
  total_locked_bytes = 12288;
}

room : 12288 + lock_size 16384 5000 ≤ budget_bytes
unfolding lock_size
room = omega arith

-- Twenty allocations were made, and three pages are locked.
abbrev late : State ℕ
late = record ready { alloc_count = 20; pages_locked = 1 }

skipped_release_undercounts_example :
    ((record_alloc libc 16384 5000 late).overflowed ≡ false)
    × ((record_alloc libc 16384 5000 late).pages_locked ≡ 1)
    × ((remove_alloc libc 16384 (record_alloc libc 16384 5000 late)).total_locked_bytes
        ≡ 12288 - lock_size 16384 5000)
skipped_release_undercounts_example =
    skipped_release_undercounts libc 16384 5000 late (omega arith) (omega arith) refl (omega arith)
      (omega arith) (omega arith) refl
