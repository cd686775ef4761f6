-- ===== src/Prof/Start/Runs.antt =====
-- A process under the profiler over any sequence of turns, from before `m_init`.
use kumf.Base.{ℕ, ◌≡◌, refl, ◌≢◌, inl, inr, true, List, [], ◌∷◌, arith}
use kumf.Prof.Log.{log_bytes}
use kumf.Prof.Slots.{IsCrowded}
use kumf.Prof.Start.{Process, Loader, Call, Turn, constructs, calls, m_init, turn, run}
use kumf.Prof.Start.Calls.{
  AllFound, Crowds, crowded, later, all_spare, IsRunning, RunningOrExit, call-Running,
}

module _ {W : Type 0} (ld : Loader W) (found : AllFound ld.symbols)
    (given : (w : W) → (ld.libc.malloc log_bytes w).0 ≢ 0) where
  running_m_init : (p : Process W) → IsRunning ld p → m_init ld p ≡ p
  unfolding m_init
  running_m_init p r = rw r.initialized refl

  crowd_from :
      (n : ℕ) (c : Call) (ts : List Turn) (p : Process W)
      → RunningOrExit ld (IsCrowded (p.threads n) p.logs.tids) (turn ld (calls n c) p)
      → RunningOrExit ld (Crowds ld (calls n c ∷ ts) p) (turn ld (calls n c) p)
  crowd_from n c ts p (inl (e, crowd)) = inl (e, crowded e crowd)
  crowd_from n c ts p (inr ran) = inr ran

  turn-Running :
      (t : Turn) (ts : List Turn) (p : Process W)
      → all_spare ld.empty_addr (t ∷ ts) ≡ true
      → IsRunning ld p
      → RunningOrExit ld (Crowds ld (t ∷ ts) p) (turn ld t p)
  unfolding turn
  turn-Running constructs ts p spared r = rw (running_m_init p r) (inr (p, refl, r))
  turn-Running (calls n c) ts p spared r =
      crowd_from n c ts p (call-Running ld found given n c p (ground arith) r)

  spared_rest :
      (t : Turn) (ts : List Turn)
      → all_spare ld.empty_addr (t ∷ ts) ≡ true
      → all_spare ld.empty_addr ts ≡ true
  spared_rest constructs ts h = h
  spared_rest (calls n c) ts h = ground arith

  pub run-Running :
      (ts : List Turn) (p : Process W)
      → all_spare ld.empty_addr ts ≡ true
      → IsRunning ld p
      → RunningOrExit ld (Crowds ld ts p) (run ld ts p)
  unfolding run
  run-Running [] p spared r = inr (p, refl, r)
  run-Running (t ∷ ts) p spared r = elim (turn-Running t ts p spared r) [
    | inl (e, crowd) ↦ inl (rw (e, run) refl, crowd)
    | inr (p', e, r') ↦ elim (run-Running ts p' (spared_rest t ts spared) r') [
      | inl (e', rest) ↦ inl (rw (e, run) e', later e rest)
      | inr (q, e', r'') ↦ inr (q, (rw (e, run) e'), r'')
    ]
  ]
