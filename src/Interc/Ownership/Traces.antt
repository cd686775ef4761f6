-- ===== src/Interc/Ownership/Traces.antt =====
-- Programs over src/lib/interc/ldlib.c, as sequences of calls in any order and from any thread,
-- each call one step, that pass to `free` and `realloc` only what they hold.
use kumf.Base.{
  ℕ, ◌≡◌, ◌≢◌, ◌==◌, if◌then◌else◌, Bool, true, false, not, ◌&&◌, ◌||◌, [], Option, none, some,
}
use kumf.Interc.Alloc.{State, Env, malloc, calloc, realloc, free}
use kumf.Interc.Segs.{lookup}
use kumf.Interc.Types.{Tls}
use kumf.Interc.Ownership.{Block, unmapped, heap, numa, Owner, is_client, stray_size, entry_size_of}
use kumf.Interc.Ownership.Grants.{OwnedState}

-- The library's state, and the addresses of the blocks that the program holds.
pub record Run (W : Type 0) : Type 0 where
  pub state : State W
  pub held : ℕ → Bool

-- what a program holds after a call that returned `r`
abbrev pub gain : ℕ → (ℕ → Bool) → ℕ → Bool
gain r held a = held a || (not (r == 0) && r == a)

abbrev pub lose : ℕ → (ℕ → Bool) → ℕ → Bool
lose p held a = held a && not (p == a)

abbrev pub replace : ℕ → ℕ → (ℕ → Bool) → ℕ → Bool
replace p r held a = held a && not (p == a) || r == a

abbrev pub granted : {W : Type 0} → ℕ × State W → (ℕ → Bool) → Run W
granted r held = record { state = r.1; held = gain r.0 held }

abbrev pub moved : {W : Type 0} → ℕ → ℕ × State W → (ℕ → Bool) → Run W
moved p r held = record { state = r.1; held = replace p r.0 held }

-- One call of the program (a `realloc` of a block that returns null ends it), or another thread's turn, which has its own thread-local variables.
pub data Step {W : Type 0} (env : Env W) (s : Run W) : Run W → Type 0 where
  mallocs : (caller sz : ℕ) → Step env s (granted (malloc env caller sz s.state) s.held)
  callocs :
      (caller nmemb size : ℕ) → Step env s (granted (calloc env caller nmemb size s.state) s.held)
  reallocs_null : (self size : ℕ) → Step env s (granted (realloc env self 0 size s.state) s.held)
  reallocs :
      (self p size : ℕ)
      → p ≢ 0
      → s.held p ≡ true
      → (realloc env self p size s.state).0 ≢ 0
      → Step env s (moved p (realloc env self p size s.state) s.held)
  frees_null : Step env s (record { state = free env 0 s.state; held = s.held })
  frees :
      (p : ℕ)
      → p ≢ 0
      → s.held p ≡ true
      → Step env s (record { state = free env p s.state; held = lose p s.held })
  switches : (tls : Tls) → Step env s (record s { state = record s.state { tls = tls } })

pub data Reach {W : Type 0} (env : Env W) (s : Run W) : Run W → Type 0 where
  start : Reach env s s
  later : {t u : Run W} → Reach env s t → Step env t u → Reach env s u

-- Before its first call the program holds all live blocks, if any, and the table is empty.
pub record IsFresh {W : Type 0} (live : W → ℕ → Block) (s : Run W) : Type 0 where
  pub no_segs : (h : ℕ) → s.state.segs h ≡ []
  pub blocks : (a : ℕ) → live s.state.world a ≡ (if s.held a then heap else unmapped)

-- The owners behind a run: the program holds what it may free, and no block is a stray.
pub record Holds {W : Type 0} (live : W → ℕ → Block) (s : Run W) (own : ℕ → Owner) : Type 0 where
  pub owned : OwnedState live s.state own
  pub holds : (a : ℕ) → is_client (own a) ≡ s.held a
  pub no_stray : (a : ℕ) → stray_size (own a) ≡ none

abbrev pub numa_size : Block → Option ℕ
numa_size unmapped = none
numa_size heap = none
numa_size (numa n) = some n

abbrev pub is_mapped : Block → Bool
is_mapped unmapped = false
is_mapped heap = true
is_mapped (numa n) = true

-- How the table, the live blocks and what the program holds agree.
pub record Accounted {W : Type 0} (live : W → ℕ → Block) (s : Run W) : Type 0 where
  pub recorded : (a : ℕ) → entry_size_of (lookup a s.state.segs) ≡ numa_size (live s.state.world a)
  pub mapped : (a : ℕ) → s.held a ≡ true → is_mapped (live s.state.world a) ≡ true
  pub reachable : (a n : ℕ) → live s.state.world a ≡ numa n → s.held a ≡ true
