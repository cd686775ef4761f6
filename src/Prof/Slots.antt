-- ===== src/Prof/Slots.antt =====
-- Each thread has a log of its own, and `get_log` hands out its places in order.
use kumf.Base.{
  ℕ, ◌+◌, ◌-◌, ◌<◌, ◌≡◌, refl, ◌≢◌, ◌⊎◌, inl, inr, leb, ◌==◌, if◌then◌else◌, none, some, arith,
  Option-cases, Bool-cases, ◌∙◌, ◌&&◌, not,
}
use kumf.Base.Store.{update}
use kumf.Prof.Indices.{HasPrefix, IsFull, no_free-IsFull, find_free-some, taken-HasPrefix}
use kumf.Prof.Log.{
  arr_size, max_tid, log_bytes, Logs, Thread, returns, exits, Slot, no_slot, slot, find_free,
  register, open_log, take_slot, get_log,
}

-- A thread has its index, under which `tids` holds its number.
pub record IsRegistered (me : ℕ) (th : Thread) (tids : ℕ → ℕ) : Type 0 where
  pub own_tid : th.tid ≡ me
  pub low : 0 < th.tid_index
  pub high : th.tid_index < max_tid
  pub listed : tids th.tid_index ≡ me

-- A thread that has no index yet, or one of its own.
abbrev pub IsKnown : ℕ → Thread → (ℕ → ℕ) → Type 0
IsKnown me th tids = ((th.tid ≡ 0) × (th.tid_index ≡ 0)) ⊎ IsRegistered me th tids

-- A thread without an index, where none is left: one thread too many.
abbrev pub IsCrowded : Thread → (ℕ → ℕ) → Type 0
IsCrowded th tids = (th.tid_index ≡ 0) × IsFull tids

-- `tids'` lists what `tids` does, and perhaps `me`.
abbrev pub Extends : ℕ → (ℕ → ℕ) → (ℕ → ℕ) → Type 0
Extends me tids tids' = (k : ℕ) → (tids' k ≡ tids k) ⊎ ((tids k ≡ 0) × (tids' k ≡ me))

-- What a registration leaves: the thread has its index, and the logs are as they were.
pub record Registers {W : Type 0} (me : ℕ) (l : Logs W) (r : Thread × Logs W) : Type 0 where
  pub has_index : IsRegistered me r.0 r.1.tids
  pub extends : Extends me l.tids r.1.tids
  pub prefix : HasPrefix r.1.tids
  pub same_arr : r.1.log_arr ≡ l.log_arr
  pub same_index : r.1.log_index ≡ l.log_index
  pub same_logs : r.1.logs ≡ l.logs

register-cases :
    {W : Type 0} (me : ℕ) (th : Thread) (l : Logs W)
    → me ≢ 0
    → HasPrefix l.tids
    → IsKnown me th l.tids
    → ((register me th l ≡ none) × (th.tid_index ≡ 0) × IsFull l.tids)
      ⊎ ((r : Thread × Logs W) × (register me th l ≡ some r) × Registers me l r)
unfolding register
register-cases me th l nz pre (inr known) = inr (
  (th, l),
  ground (arith, known.own_tid),
  record {
    has_index = known;
    extends = λ k. inl refl;
    prefix = pre;
    same_arr = refl;
    same_index = refl;
    same_logs = refl;
  },
)
register-cases me th l nz pre (inl (no_tid, no_index)) =
    elim (Option-cases (find_free (max_tid - 1) 1 l.tids)) [
      | inl full ↦ inl (ground arith, no_index, no_free-IsFull l.tids full)
      | inr (i, found) ↦
          let place = find_free-some (max_tid - 1) 1 l.tids i found in
          inr (
            (record th { tid = me; tid_index = i }, record l { tids = update l.tids i me }),
            ground arith,
            record {
              has_index = record {
                own_tid = refl;
                low = omega (arith, place);
                high = omega (arith, place);
                listed = ground arith;
              };
              extends = λ k. ground (arith, place);
              prefix = taken-HasPrefix me i l.tids nz found pre;
              same_arr = refl;
              same_index = refl;
              same_logs = refl;
            },
          )
    ]

-- What a call of `get_log` answers that returns: the thread's log, at its next place, unless it is
-- full; the place is taken, and no other log changes.
pub record Takes {W : Type 0} (me : ℕ) (l : Logs W) (r : Slot × Thread × Logs W) : Type 0 where
  pub has_index : IsRegistered me r.1 r.2.tids
  pub extends : Extends me l.tids r.2.tids
  pub prefix : HasPrefix r.2.tids
  pub next_place : r.0 ≡ (
      if leb arr_size (l.log_index r.1.tid_index)
      then no_slot
      else slot r.1.tid_index (l.log_index r.1.tid_index))
  pub counted :
      (k : ℕ)
      → r.2.log_index k ≡ (
          if r.1.tid_index == k && not (leb arr_size (l.log_index k))
          then l.log_index k + 1
          else l.log_index k)
  pub same_logs : r.2.logs ≡ l.logs

module _ {W : Type 0} (malloc : ℕ → W → ℕ × W) where
  open_log_tids : (i : ℕ) (l : Logs W) → (open_log malloc i l).tids ≡ l.tids
  unfolding open_log
  open_log_tids i l = ground arith

  open_log_index : (i : ℕ) (l : Logs W) → (open_log malloc i l).log_index ≡ l.log_index
  unfolding open_log
  open_log_index i l = ground arith

  open_log_logs : (i : ℕ) (l : Logs W) → (open_log malloc i l).logs ≡ l.logs
  unfolding open_log
  open_log_logs i l = ground arith

  open_log_given :
      (i : ℕ) (l : Logs W)
      → ((w : W) → (malloc log_bytes w).0 ≢ 0)
      → (open_log malloc i l).log_arr i ≢ 0
  unfolding open_log
  open_log_given i l given = ground (arith, given l.world)

abbrev taken : {W : Type 0} → ℕ → Logs W → Slot × Logs W
taken i l =
    if leb arr_size (l.log_index i)
    then (no_slot, l)
    else (slot i (l.log_index i), record l { log_index = update l.log_index i (l.log_index i + 1) })

take_slot_given :
    {W : Type 0} (i : ℕ) (l : Logs W) → l.log_arr i ≢ 0 → take_slot i l ≡ returns (taken i l)
unfolding take_slot
take_slot_given i l nz = ground arith

taken-Takes :
    {W : Type 0} (me : ℕ) (l : Logs W) (th : Thread) (l₁ : Logs W)
    → IsRegistered me th l₁.tids
    → Extends me l.tids l₁.tids
    → HasPrefix l₁.tids
    → ((k : ℕ) → l₁.log_index k ≡ l.log_index k)
    → l₁.logs ≡ l.logs
    → Takes me l ((taken th.tid_index l₁).0, th, (taken th.tid_index l₁).1)
taken-Takes me l th l₁ reg ext pre index logs =
    elim (Bool-cases (leb arr_size (l₁.log_index th.tid_index))) [
      | inl full ↦ rw full (record {
        has_index = reg;
        extends = ext;
        prefix = pre;
        next_place = ground (arith, index th.tid_index);
        counted = λ k. ground (arith, index k);
        same_logs = logs;
      })
      | inr room ↦ rw room (record {
        has_index = reg;
        extends = ext;
        prefix = pre;
        next_place = ground (arith, index th.tid_index);
        counted = λ k. ground (arith, index k);
        same_logs = logs;
      })
    ]

module _ {W : Type 0} (malloc : ℕ → W → ℕ × W) (given : (w : W) → (malloc log_bytes w).0 ≢ 0) where
  get_log_registered :
      (me : ℕ) (th : Thread) (l : Logs W) (r : Thread × Logs W)
      → register me th l ≡ some r
      → let t = taken r.0.tid_index (open_log malloc r.0.tid_index r.1) in
        get_log malloc me th l ≡ returns (t.0, r.0, t.1)
  unfolding get_log
  get_log_registered me th l r e =
      rw (e, get_log)
        (rw
          (take_slot_given r.0.tid_index (open_log malloc r.0.tid_index r.1)
            (open_log_given malloc r.0.tid_index r.1 given))
          refl)

  -- Where the memory for a log is never refused, and the indices are taken in order, get_log of a
  -- thread that is new or registered either ends the process, with every index taken, or returns
  -- the next place of the thread's own log, null if the log is full; it lists the thread, counts
  -- that place, and changes no other log.
  pub get_log-Takes :
      (me : ℕ) (th : Thread) (l : Logs W)
      → me ≢ 0
      → HasPrefix l.tids
      → IsKnown me th l.tids
      → ((get_log malloc me th l ≡ exits) × IsCrowded th l.tids)
        ⊎ ((r : Slot × Thread × Logs W) × (get_log malloc me th l ≡ returns r) × Takes me l r)
  unfolding get_log
  get_log-Takes me th l nz pre known = elim (register-cases me th l nz pre known) [
    | inl (refused, no_index, full) ↦ inl (rw (refused, get_log) refl, (no_index, full))
    | inr (r, e, reg) ↦
        let i = r.0.tid_index in
        inr (
          _,
          get_log_registered me th l r e,
          taken-Takes me l r.0 (open_log malloc i r.1)
              (rw (open_log_tids malloc i r.1) reg.has_index)
              (rw (open_log_tids malloc i r.1) reg.extends)
              (rw (open_log_tids malloc i r.1) reg.prefix)
              (λ k. ground (arith, open_log_index malloc i r.1, reg.same_index))
              (open_log_logs malloc i r.1 ∙ reg.same_logs),
        )
  ]
