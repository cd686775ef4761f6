-- ===== src/Mlock/Budget.antt =====
-- The locked bytes stay within the budget, and the locks within their number, whatever calls the
-- program makes.
use kumf.Base.{
  ℕ, suc, ◌+◌, ◌*◌, ◌%◌, ◌^◌, ◌<◌, ◌≤◌, length, ◌≡◌, ◌==◌, false, ◌&&◌, not, List, [], ◌∷◌, Option,
  arith, if_cases,
}
use kumf.Mlock.Hooks.{malloc, calloc, realloc, free, kumf_mlock_init, unloaded, budget_bytes}
use kumf.Mlock.Table.{
  Libc, State, entry_size, new_entry, push_entry, lock_within, try_mlock, record_alloc,
  remove_alloc, unlock_entry, unlink_entry, mlock_first_n, int_max,
}

-- What holds after `n` calls.
pub record IsWithin {W : Type 0} (n : ℕ) (s : State W) : Type 0 where
  pub budget : s.mlock_budget ≡ budget_bytes
  pub bytes : s.total_locked_bytes ≤ budget_bytes
  pub locks : s.pages_locked ≤ mlock_first_n
  pub counted : s.pages_locked + s.pages_skipped ≤ s.alloc_count
  pub calls : s.alloc_count ≤ n
  pub defined : s.overflowed ≡ false

module _ {W : Type 0} (libc : Libc W) where
  try_mlock-IsWithin :
      (n ptr size : ℕ) (s : State W)
      → n < int_max
      → IsWithin n s
      → IsWithin (suc n) (try_mlock libc ptr size s)
  unfolding try_mlock lock_within
  try_mlock-IsWithin n ptr size s few v = ground arith

  record_alloc-IsWithin :
      (n ptr size : ℕ) (s : State W)
      → n < int_max
      → IsWithin n s
      → IsWithin (suc n) (record_alloc libc ptr size s)
  unfolding record_alloc
  record_alloc-IsWithin n ptr size s few v =
      let w = libc.malloc entry_size s.world in
      let pushed = push_entry (new_entry w.0 ptr size false) (record s { world = w.1 }) in
      let pushed-IsWithin : IsWithin n pushed = record {
        budget = v.budget;
        bytes = v.bytes;
        locks = v.locks;
        counted = v.counted;
        calls = v.calls;
        defined = v.defined;
      } in
      ground (arith, try_mlock-IsWithin n ptr size pushed few pushed-IsWithin)

  remove_alloc-IsWithin :
      (n ptr : ℕ) (s : State W) → IsWithin n s → IsWithin n (remove_alloc libc ptr s)
  unfolding remove_alloc unlock_entry unlink_entry
  remove_alloc-IsWithin n ptr s v = ground arith

  world-IsWithin :
      (n : ℕ) (s : State W) (w : W) → IsWithin n s → IsWithin n (record s { world = w })
  world-IsWithin n s w v = record {
    budget = v.budget;
    bytes = v.bytes;
    locks = v.locks;
    counted = v.counted;
    calls = v.calls;
    defined = v.defined;
  }

  raise-IsWithin : (n : ℕ) (s : State W) → IsWithin n s → IsWithin (suc n) s
  raise-IsWithin n s v = record {
    budget = v.budget;
    bytes = v.bytes;
    locks = v.locks;
    counted = v.counted;
    calls = omega (arith, v.calls);
    defined = v.defined;
  }

-- A call that the program makes.
pub data Call : Type 0 where
  mallocs : ℕ → Call
  callocs : ℕ → ℕ → Call
  reallocs : ℕ → ℕ → Call
  frees : ℕ → Call

module _ {W : Type 0} (libc : Libc W) where
  unfoldable pub step : Call → State W → State W
  step (mallocs sz) s = (malloc libc sz s).1
  step (callocs nmemb size) s = (calloc libc nmemb size s).1
  step (reallocs ptr size) s = (realloc libc ptr size s).1
  step (frees p) s = free libc p s

  unfoldable pub run : List Call → State W → State W
  run [] s = s
  run (c ∷ cs) s = run cs (step c s)

  step-IsWithin :
      (n : ℕ) (c : Call) (s : State W) → n < int_max → IsWithin n s → IsWithin (suc n) (step c s)
  unfolding step malloc calloc realloc free
  step-IsWithin n (mallocs sz) s few v =
      let s' = record s { world = (libc.malloc sz s.world).1 } in
      let v' = world-IsWithin libc n s (libc.malloc sz s.world).1 v in
      if_cases (IsWithin (suc n)) s.hot_pages_loaded
        (λ _. record_alloc-IsWithin libc n (libc.malloc sz s.world).0 sz s' few v')
        (λ _. raise-IsWithin libc n _ v')
  step-IsWithin n (callocs nmemb size) s few v =
      let r = libc.calloc nmemb size s.world in
      let v' = world-IsWithin libc n s r.1 v in
      if_cases (IsWithin (suc n)) (not (r.0 == 0) && s.hot_pages_loaded)
        (λ _. record_alloc-IsWithin libc n r.0 ((nmemb * size) % 2 ^ 64) _ few v')
        (λ _. raise-IsWithin libc n _ v')
  step-IsWithin n (reallocs ptr size) s few v =
      let s₁ = remove_alloc libc ptr s in
      let r = libc.realloc ptr size s₁.world in
      let v' = world-IsWithin libc n s₁ r.1 (remove_alloc-IsWithin libc n ptr s v) in
      if_cases (IsWithin (suc n)) (not (r.0 == 0) && s.hot_pages_loaded)
        (λ _. record_alloc-IsWithin libc n r.0 size _ few v') (λ _. raise-IsWithin libc n _ v')
  step-IsWithin n (frees p) s few v = raise-IsWithin libc n _ (
      if_cases (IsWithin n) (p == 0) (λ _. v)
        (λ _. world-IsWithin libc n _ _ (
          if_cases (IsWithin n) s.hot_pages_loaded (λ _. remove_alloc-IsWithin libc n p s v)
            (λ _. v))))

  run-IsWithin :
      (n : ℕ) (cs : List Call) (s : State W)
      → n + length cs < suc int_max
      → IsWithin n s
      → IsWithin (n + length cs) (run cs s)
  unfolding run
  run-IsWithin n [] s few v = let flat : n + 0 ≡ n = omega arith in rw flat v
  run-IsWithin n (c ∷ cs) s few v =
      let shift : n + suc (length cs) ≡ suc n + length cs = omega arith in
      rw shift
        (run-IsWithin (suc n) cs (step c s) (omega arith) (step-IsWithin n c s (omega arith) v))

  -- After the page-locking library's constructor and any sequence of fewer than 2 ^ 31 calls of
  -- malloc, calloc, realloc and free, the counter of attempts has not overflowed and is at most
  -- the number of calls, the count of locked bytes is within the budget of 10 MB, at most 20
  -- allocations were locked, and each lock and each skip was an attempt that was counted.
  pub run-init-IsWithin :
      (file : Option (List ℕ)) (w : W) (cs : List Call)
      → length cs < 2 ^ 31
      → IsWithin (length cs) (run cs (kumf_mlock_init file (unloaded w)))
  unfolding kumf_mlock_init
  run-init-IsWithin file w cs few =
      let flat : 0 + length cs ≡ length cs = omega arith in
      rw flat at
        (run-IsWithin 0 cs (kumf_mlock_init file (unloaded w)) (omega arith) (ground arith))
