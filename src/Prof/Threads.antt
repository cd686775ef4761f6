-- ===== src/Prof/Threads.antt =====
-- Any number of threads that log events in any order. The mutex and the thread-local state make
-- each event one step, so an interleaving is a sequence of them.
use kumf.Base.{
  ℕ, suc, ◌<◌, ◌≤◌, ◌≡◌, refl, ◌≢◌, ◌⊎◌, inl, inr, ◌==◌, List, [], ◌∷◌, arith, if_cases,
}
use kumf.Base.Store.{update}
use kumf.Prof.Hooks.{Libc, Event, write_entry, log_event}
use kumf.Prof.Indices.{HasPrefix}
use kumf.Prof.Log.{
  arr_size, log_bytes, Logs, Thread, Outcome, returns, exits, ruined, Slot, no_slot, slot, get_log,
}
use kumf.Prof.Slots.{IsKnown, IsCrowded, IsRegistered, Extends, Takes, get_log-Takes}

-- The threads, the one with the number `n` under the kernel's number `n + 1`, and the logs.
pub record System (W : Type 0) : Type 0 where
  pub threads : ℕ → Thread
  pub logs : Logs W

-- Every thread that has an index has its own, and no log is longer than its array; the
-- indices are taken in order.
pub record IsSound {W : Type 0} (sys : System W) : Type 0 where
  pub known : (n : ℕ) → IsKnown (suc n) (sys.threads n) sys.logs.tids
  pub prefix : HasPrefix sys.logs.tids
  pub bounded : (i : ℕ) → sys.logs.log_index i ≤ arr_size

-- In a sound state a registered thread shares its index, and so its log, with no other thread.
pub IsSound-apart :
    {W : Type 0} (sys : System W) (n m : ℕ)
    → IsSound sys
    → n ≢ m
    → 0 < (sys.threads n).tid_index
    → (sys.threads n).tid_index ≢ (sys.threads m).tid_index
IsSound-apart sys n m sound apart indexed same = apart (same_owner (sound.known n) (sound.known m))
  where
    same_owner :
        IsKnown (suc n) (sys.threads n) sys.logs.tids
        → IsKnown (suc m) (sys.threads m) sys.logs.tids
        → n ≡ m
    same_owner (inl fresh) k = absurd (omega arith)
    same_owner (inr a) (inl fresh) = absurd (omega arith)
    same_owner (inr a) (inr b) = ground (arith, a.listed, b.listed)

still-IsKnown :
    (n m : ℕ) (th : Thread) (tids tids' : ℕ → ℕ)
    → Extends (suc n) tids tids'
    → IsKnown (suc m) th tids
    → IsKnown (suc m) th tids'
still-IsKnown n m th tids tids' ext (inl fresh) = inl fresh
still-IsKnown n m th tids tids' ext (inr reg) = inr (record {
  own_tid = reg.own_tid;
  low = reg.low;
  high = reg.high;
  listed = ground (arith, ext th.tid_index, reg.listed);
})

module _ {W : Type 0} (libc : Libc W) where
  unfoldable pub step : ℕ → Event → System W → Outcome (System W)
  step n ev sys = elim (log_event libc (suc n) ev (sys.threads n) sys.logs) [
    | returns (th, l) ↦ returns (record { threads = update sys.threads n th; logs = l })
    | exits ↦ exits
    | ruined ↦ ruined
  ]

  unfoldable pub run : List (ℕ × Event) → System W → Outcome (System W)
  run [] sys = returns sys
  run ((n, ev) ∷ evs) sys = elim (step n ev sys) [
    | returns sys' ↦ run evs sys'
    | exits ↦ exits
    | ruined ↦ ruined
  ]

  -- Where the process exits: at the event of a thread without an index, all being taken.
  pub data Crowds : List (ℕ × Event) → System W → Type 0 where
    crowded :
        {n : ℕ} {ev : Event} {evs : List (ℕ × Event)} {sys : System W}
        → step n ev sys ≡ exits
        → IsCrowded (sys.threads n) sys.logs.tids
        → Crowds ((n, ev) ∷ evs) sys
    later :
        {n : ℕ} {ev : Event} {evs : List (ℕ × Event)} {sys sys' : System W}
        → step n ev sys ≡ returns sys'
        → Crowds evs sys'
        → Crowds ((n, ev) ∷ evs) sys

  abbrev pub SoundOrExit : List (ℕ × Event) → System W → Type 0
  SoundOrExit evs sys =
      ((run evs sys ≡ exits) × Crowds evs sys)
      ⊎ ((sys' : System W) × (run evs sys ≡ returns sys') × IsSound sys')

  write_entry_tids : (ev : Event) (i j : ℕ) (l : Logs W) → (write_entry libc ev i j l).tids ≡ l.tids
  unfolding write_entry
  write_entry_tids ev i j l = refl

  write_entry_index :
      (ev : Event) (i j : ℕ) (l : Logs W) → (write_entry libc ev i j l).log_index ≡ l.log_index
  unfolding write_entry
  write_entry_index ev i j l = refl

  -- The thread moves on, the others keep their indices.
  pub others-IsKnown :
      (n : ℕ) (th : Thread) (tids tids' : ℕ → ℕ) (threads : ℕ → Thread)
      → IsRegistered (suc n) th tids'
      → Extends (suc n) tids tids'
      → ((m : ℕ) → IsKnown (suc m) (threads m) tids)
      → (m : ℕ) → IsKnown (suc m) (update threads n th m) tids'
  others-IsKnown n th tids tids' threads reg ext known m =
      if_cases (λ t. IsKnown (suc m) t tids') (n == m)
        (λ h. let e : m ≡ n = ground arith in rw e (inr reg))
        (λ h. still-IsKnown n m (threads m) tids tids' ext (known m))

  -- The state after the event, with its entry or without.
  abbrev pub written : Event → Slot → Logs W → Logs W
  written ev no_slot l = l
  written ev (slot i j) l = write_entry libc ev i j l

  pub Takes-IsSound :
      (n : ℕ) (ev : Event) (sys : System W) (r : Slot × Thread × Logs W)
      → Takes (suc n) sys.logs r
      → IsSound sys
      → IsSound (record { threads = update sys.threads n r.1; logs = written ev r.0 r.2 })
  Takes-IsSound n ev sys (no_slot, th, l) t sound = record {
    known = others-IsKnown n th sys.logs.tids l.tids sys.threads t.has_index t.extends sound.known;
    prefix = t.prefix;
    bounded = λ i. ground (arith, t.counted i, sound.bounded i);
  }
  Takes-IsSound n ev sys (slot i' j, th, l) t sound = record {
    known =
        rw (write_entry_tids ev i' j l)
          (others-IsKnown n th sys.logs.tids l.tids sys.threads t.has_index t.extends sound.known);
    prefix = rw (write_entry_tids ev i' j l) t.prefix;
    bounded = λ i. rw (write_entry_index ev i' j l) (ground (arith, t.counted i, sound.bounded i));
  }

  module _ (given : (w : W) → (libc.malloc log_bytes w).0 ≢ 0) where
    pub log_event_returns :
        (me : ℕ) (ev : Event) (th : Thread) (l : Logs W) (s : Slot) (th' : Thread) (l' : Logs W)
        → get_log libc.malloc me th l ≡ returns (s, th', l')
        → log_event libc me ev th l ≡ returns (th', written ev s l')
    unfolding log_event
    log_event_returns me ev th l no_slot th' l' e = rw (e, log_event) refl
    log_event_returns me ev th l (slot i j) th' l' e = rw (e, log_event) refl

    step-IsSound :
        (n : ℕ) (ev : Event) (sys : System W)
        → IsSound sys
        → ((step n ev sys ≡ exits) × IsCrowded (sys.threads n) sys.logs.tids)
          ⊎ ((sys' : System W) × (step n ev sys ≡ returns sys') × IsSound sys')
    unfolding step log_event
    step-IsSound n ev sys sound =
        elim (get_log-Takes libc.malloc given (suc n) (sys.threads n) sys.logs (omega arith)
          sound.prefix (sound.known n)) [
            | inl (e, crowd) ↦ inl (rw (e, log_event, step) refl, crowd)
            | inr ((s, th', l'), e, t) ↦ inr (
              _,
              rw (log_event_returns (suc n) ev (sys.threads n) sys.logs s th' l' e, step) refl,
              Takes-IsSound n ev sys (s, th', l') t sound,
            )
          ]

    -- Where the memory for a log is never refused, any interleaving of events of any threads,
    -- from a sound state, ends in a sound state, with an index of its own for each registered
    -- thread, the indices taken in order and no log past its array, or exits at the event of a
    -- thread without an index while all 511 are taken; it never has undefined behaviour.
    pub run-SoundOrExit :
        (evs : List (ℕ × Event)) (sys : System W) → IsSound sys → SoundOrExit evs sys
    unfolding run
    run-SoundOrExit [] sys sound = inr (sys, refl, sound)
    run-SoundOrExit ((n, ev) ∷ evs) sys sound = elim (step-IsSound n ev sys sound) [
      | inl (e, crowd) ↦ inl (rw (e, run) refl, crowded e crowd)
      | inr (sys', e, sound') ↦ elim (run-SoundOrExit evs sys' sound') [
        | inl (e', rest) ↦ inl (rw (e, run) e', later e rest)
        | inr (sys'', e', sound'') ↦ inr (sys'', (rw (e, run) e'), sound'')
      ]
    ]
