-- ===== src/Prof/Start/Calls.antt =====
-- The intercepted functions in a process, from its first calls on.
use kumf.Base.{
  ℕ, suc, ◌≡◌, refl, ◌≢◌, ◌⊎◌, inl, inr, ◌==◌, Bool, true, false, List, [], ◌∷◌, arith, if_cases,
  not, ◌&&◌,
}
use kumf.Base.Store.{update}
use kumf.Prof.Hooks
use kumf.Prof.Hooks.{Libc, Event, log_event, log_unless}
use kumf.Prof.Log.{log_bytes, Logs, Thread, Outcome, returns, exits}
use kumf.Prof.Slots.{IsKnown, IsCrowded, get_log-Takes}
use kumf.Prof.Threads.{System, IsSound, Takes-IsSound, log_event_returns}
use kumf.Prof.Start.{
  Pointers, flushes, Process, Loader, Call, mallocs, callocs, reallocs, memaligns, posix_memaligns,
  frees, mmaps, mmap64s, munmaps, Turn, constructs, calls, ready, through, after, after_free, call,
  run, turn, unless_static,
}

abbrev pub system : {W : Type 0} → Process W → System W
system p = record { threads = p.threads; logs = p.logs }

pub record AllFound (s : Pointers) : Type 0 where
  pub malloc_found : s.libc_malloc ≢ 0
  pub realloc_found : s.libc_realloc ≢ 0
  pub calloc_found : s.libc_calloc ≢ 0
  pub free_found : s.libc_free ≢ 0
  pub mmap_found : s.libc_mmap ≢ 0
  pub munmap_found : s.libc_munmap ≢ 0
  pub mmap64_found : s.libc_mmap64 ≢ 0
  pub memalign_found : s.libc_memalign ≢ 0
  pub posix_memalign_found : s.libc_posix_memalign ≢ 0

-- A process before `m_init` did anything.
pub record IsEarly {W : Type 0} (p : Process W) : Type 0 where
  pub uninitialized : p.prof_initialized ≡ false
  pub no_malloc : p.pointers.libc_malloc ≡ 0
  pub no_calloc : p.pointers.libc_calloc ≡ 0
  pub unregistered : p.exit_functions ≡ 0
  pub unflushed : p.prof_cleanup_done ≡ false
  pub no_files : p.files ≡ []
  pub sound : IsSound (system p)

-- A process that is set up: the functions are known, `prof_cleanup` stands registered once and
-- under both signals, nothing is printed, and the logs are sound.
pub record IsRunning {W : Type 0} (ld : Loader W) (p : Process W) : Type 0 where
  pub initialized : p.prof_initialized ≡ true
  pub found : p.pointers ≡ ld.symbols
  pub registered : p.exit_functions ≡ 1
  pub term : p.on_sigterm ≡ flushes
  pub int : p.on_sigint ≡ flushes
  pub unflushed : p.prof_cleanup_done ≡ false
  pub no_files : p.files ≡ []
  pub sound : IsSound (system p)

-- Only `calloc` comes before the constructor or a `malloc`.
abbrev pub starts : List Turn → Bool
starts [] = true
starts (constructs ∷ ts) = true
starts (calls n (mallocs caller sz) ∷ ts) = true
starts (calls n (callocs caller nmemb size) ∷ ts) = starts ts
starts (calls n c ∷ ts) = false

-- No call frees or moves the block that `calloc` gave early.
abbrev pub spares : ℕ → Call → Bool
spares a (reallocs caller ptr size) = not (ptr == a)
spares a (frees ptr) = not (ptr == a)
spares a c = true

abbrev pub all_spare : ℕ → List Turn → Bool
all_spare a [] = true
all_spare a (constructs ∷ ts) = all_spare a ts
all_spare a (calls n c ∷ ts) = spares a c && all_spare a ts

-- Where a run exits: at the call of a thread without an index, all being taken.
pub data Crowds {W : Type 0} (ld : Loader W) : List Turn → Process W → Type 0 where
  crowded :
      {n : ℕ} {c : Call} {ts : List Turn} {p : Process W}
      → turn ld (calls n c) p ≡ exits
      → IsCrowded (p.threads n) p.logs.tids
      → Crowds ld (calls n c ∷ ts) p
  later :
      {t : Turn} {ts : List Turn} {p p' : Process W}
      → turn ld t p ≡ returns p'
      → Crowds ld ts p'
      → Crowds ld (t ∷ ts) p

-- A process that is set up, or its exit for the given reason.
abbrev pub RunningOrExit : {W : Type 0} → Loader W → Type 0 → Outcome (Process W) → Type 0
RunningOrExit {W} ld E r = ((r ≡ exits) × E) ⊎ ((p : Process W) × (r ≡ returns p) × IsRunning ld p)

abbrev pub StartedOrExit : {W : Type 0} → Loader W → List Turn → Process W → Type 0
StartedOrExit {W} ld ts p =
    ((run ld ts p ≡ exits) × Crowds ld ts p)
    ⊎ ((q : Process W) × (run ld ts p ≡ returns q) × (IsEarly q ⊎ IsRunning ld q))

module _ {W : Type 0} (ld : Loader W) (found : AllFound ld.symbols)
    (given : (w : W) → (ld.libc.malloc log_bytes w).0 ≢ 0) where
  -- What the tail of a hook leaves, for any thread.
  abbrev SoundAfter : Type 0 → (ℕ → Thread) → ℕ → Outcome (Thread × Logs W) → Type 0
  SoundAfter E threads n r =
      ((r ≡ exits) × E)
      ⊎ ((x : Thread × Logs W) × (r ≡ returns x)
          × IsSound (record { threads = update threads n x.0; logs = x.1 }))

  log_unless-SoundAfter :
      (skip : Bool) (n : ℕ) (ev : Event) (th : Thread) (threads : ℕ → Thread) (l : Logs W)
      → IsKnown (suc n) th l.tids
      → IsSound (record { threads = threads; logs = l })
      → SoundAfter (IsCrowded th l.tids) threads n (log_unless ld.libc skip (suc n) ev th l)
  unfolding log_unless log_event
  log_unless-SoundAfter true n ev th threads l known sound = inr (
    (th, l),
    refl,
    record {
      known = λ m.
          if_cases (λ t. IsKnown (suc m) t l.tids) (n == m)
            (λ h. let e : m ≡ n = ground arith in rw e known) (λ h. sound.known m);
      prefix = sound.prefix;
      bounded = sound.bounded;
    },
  )
  log_unless-SoundAfter false n ev th threads l known sound =
      elim (get_log-Takes ld.libc.malloc given (suc n) th l (omega arith) sound.prefix known) [
        | inl (e, crowd) ↦ inl (rw (e, log_event) refl, crowd)
        | inr ((s, th', l'), e, t) ↦ inr (
          _,
          log_event_returns ld.libc given (suc n) ev th l s th' l' e,
          Takes-IsSound ld.libc n ev (record { threads = threads; logs = l }) (s, th', l') t sound,
        )
      ]

  cleared-IsKnown :
      (me : ℕ) (th : Thread) (tids : ℕ → ℕ)
      → IsKnown me th tids
      → IsKnown me (Hooks.cleared ld.libc th) tids
  cleared-IsKnown me th tids (inl fresh) = inl fresh
  cleared-IsKnown me th tids (inr reg) =
      inr (record { own_tid = reg.own_tid; low = reg.low; high = reg.high; listed = reg.listed })

  moved_on :
      (p : Process W) (n : ℕ) (th : Thread) (l : Logs W)
      → IsRunning ld p
      → IsSound (record { threads = update p.threads n th; logs = l })
      → IsRunning ld (record p { threads = update p.threads n th; logs = l })
  moved_on p n th l run sound = record {
    initialized = run.initialized;
    found = run.found;
    registered = run.registered;
    term = run.term;
    int = run.int;
    unflushed = run.unflushed;
    no_files = run.no_files;
    sound = sound;
  }

  -- a hook that gives a result, by the tail that it ends with
  after-Running :
      {A E : Type 0} (a : A) (n : ℕ) (p : Process W) (r : Outcome (Thread × Logs W))
      → IsRunning ld p
      → SoundAfter E p.threads n r
      → RunningOrExit ld E (after ld n p (Hooks.with_result ld.libc a r))
  after-Running a n p r run (inl (e, why)) = rw e (inl (refl, why))
  after-Running a n p r run (inr ((th, l), e, sound)) =
      rw e (inr (_, refl, moved_on p n th l run sound))

  after_free-Running :
      {E : Type 0} (n : ℕ) (p : Process W) (r : Outcome (Thread × Logs W))
      → IsRunning ld p
      → SoundAfter E p.threads n r
      → RunningOrExit ld E (after_free ld n p r)
  after_free-Running n p r run (inl (e, why)) = rw e (inl (refl, why))
  after_free-Running n p r run (inr ((th, l), e, sound)) =
      rw e (inr (_, refl, moved_on p n th l run sound))

  -- The tail of a hook in a process that is set up; the C library's call changed `w` only.
  tail :
      (skip : Bool) (n : ℕ) (ev : Event) (p : Process W) (w : W)
      → IsRunning ld p
      → SoundAfter (IsCrowded (p.threads n) p.logs.tids) p.threads n (
          log_unless ld.libc skip
            (suc n)
            ev
            (Hooks.cleared ld.libc (p.threads n))
            (record p.logs { world = w }))
  tail skip n ev p w run =
      log_unless-SoundAfter skip n ev _ p.threads _
        (cleared-IsKnown (suc n) (p.threads n) p.logs.tids (run.sound.known n))
        (record { known = run.sound.known; prefix = run.sound.prefix; bounded = run.sound.bounded })

  tail_kept :
      (skip : Bool) (n : ℕ) (ev : Event) (p : Process W) (w : W)
      → IsRunning ld p
      → SoundAfter
          (IsCrowded (p.threads n) p.logs.tids)
          p.threads
          n
          (log_unless ld.libc skip (suc n) ev (p.threads n) (record p.logs { world = w }))
  tail_kept skip n ev p w run =
      log_unless-SoundAfter skip n ev _ p.threads _ (run.sound.known n)
        (record { known = run.sound.known; prefix = run.sound.prefix; bounded = run.sound.bounded })

  pub known_pointers : (p : Process W) → IsRunning ld p → AllFound p.pointers
  known_pointers p run = rw run.found found

  pub ready_running : (p : Process W) → IsRunning ld p → ready ld p ≡ p
  unfolding ready
  ready_running p run = ground (arith, (known_pointers p run).malloc_found)

  pub through-Running :
      {E : Type 0} (f : ℕ) (r : Outcome (Process W))
      → f ≢ 0
      → RunningOrExit ld E r
      → RunningOrExit ld E (through ld f r)
  through-Running {E} f r nz h =
      if_cases (RunningOrExit ld E) (f == 0) (λ z. absurd (nz (ground arith))) (λ _. h)

  spared-Running :
      {E : Type 0} (ptr : ℕ) (r : Outcome (Process W))
      → not (ptr == ld.empty_addr) ≡ true
      → RunningOrExit ld E r
      → RunningOrExit ld E (unless_static ld ptr r)
  spared-Running {E} ptr r spared h =
      if_cases (RunningOrExit ld E) (ptr == ld.empty_addr) (λ z. absurd (ground arith)) (λ _. h)

  pub malloc-Running :
      (n caller sz : ℕ) (p : Process W)
      → IsRunning ld p
      → RunningOrExit ld
          (IsCrowded (p.threads n) p.logs.tids)
          (after ld n p (Hooks.malloc ld.libc (suc n) caller sz (p.threads n) p.logs))
  unfolding Hooks.malloc
  malloc-Running n caller sz p run = after-Running _ n p _ run (tail _ n _ p _ run)

  pub call-Running :
      (n : ℕ) (c : Call) (p : Process W)
      → spares ld.empty_addr c ≡ true
      → IsRunning ld p
      → RunningOrExit ld (IsCrowded (p.threads n) p.logs.tids) (call ld n c p)
  unfolding call Hooks.calloc Hooks.realloc Hooks.memalign Hooks.posix_memalign Hooks.free
      Hooks.mmap Hooks.mmap64 Hooks.munmap
  call-Running n (mallocs caller sz) p spared run =
      rw (ready_running p run)
        (through-Running _ _ (known_pointers p run).malloc_found (malloc-Running n caller sz p run))
  call-Running n (callocs caller nmemb size) p spared run =
      if_cases (RunningOrExit ld (IsCrowded (p.threads n) p.logs.tids))
        (p.pointers.libc_calloc == 0)
        (λ z. absurd ((known_pointers p run).calloc_found (ground arith)))
        (λ _. after-Running _ n p _ run (tail _ n _ p _ run))
  call-Running n (reallocs caller ptr size) p spared run =
      through-Running _ _ (known_pointers p run).realloc_found
        (spared-Running ptr _ spared (after-Running _ n p _ run (tail _ n _ p _ run)))
  call-Running n (memaligns caller align sz) p spared run =
      through-Running _ _ (known_pointers p run).memalign_found
        (after-Running _ n p _ run (tail _ n _ p _ run))
  call-Running n (posix_memaligns caller align sz) p spared run =
      through-Running _ _ (known_pointers p run).posix_memalign_found
        (after-Running _ n p _ run (tail _ n _ p _ run))
  call-Running n (frees ptr) p spared run =
      through-Running _ _ (known_pointers p run).free_found
        (spared-Running ptr _ spared (after_free-Running n p _ run (tail _ n _ p _ run)))
  call-Running n (mmaps caller length flags rest) p spared run =
      through-Running _ _ (known_pointers p run).mmap_found
        (after-Running _ n p _ run (tail_kept _ n _ p _ run))
  call-Running n (mmap64s caller length flags rest) p spared run =
      through-Running _ _ (known_pointers p run).mmap64_found
        (after-Running _ n p _ run (tail_kept _ n _ p _ run))
  call-Running n (munmaps caller start length) p spared run =
      through-Running _ _ (known_pointers p run).munmap_found
        (after-Running _ n p _ run (tail_kept _ n _ p _ run))
