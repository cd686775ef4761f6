-- ===== src/Interc/Threads.antt =====
-- src/lib/interc/ldlib.c: `pthread_create` and `thread_entry_wrapper`.
pub mod Laws
use kumf.Base.{ℕ, ◌+◌, ◌==◌, if◌then◌else◌, Bool, true, false, Option, none, some}
use kumf.Base.Int.{ℤ, pos}
use kumf.CText.{◌>>=◌}
use kumf.Interc.Bind.{Kernel, bind_thread_to_node}
use kumf.Interc.Segs.{Libc}
use kumf.Interc.Spread.{get_next_node}
use kumf.Interc.Topology.{Numa, Affinity}
use kumf.Interc.Types.{Mode, batch, per_thread, routing, passive, Tls}

-- What a new thread runs: the program's routine, or `thread_entry_wrapper` on the arguments at
-- `block` (`struct thread_wrap_args`).
pub data Start : Type 0 where
  plain : ℕ → ℕ → Start
  wrapped : (block start_routine arg : ℕ) → ℤ → Start

-- The C library's `pthread_create`, with the result code.
abbrev pub Create : Type 0 → Type 0
Create W = Start → W → ℤ × W

-- `sizeof(struct thread_wrap_args)`
abbrev pub wrap_size : ℕ
wrap_size = 24

-- `ENOMEM`
abbrev pub enomem : ℤ
enomem = pos 12

abbrev pub passes_through : Mode → Bool
passes_through passive = true
passes_through batch = true
passes_through per_thread = false
passes_through routing = false

module _ {W : Type 0} (libc : Libc W) (create : Create W) (numa : Numa) where
  -- The thread on its node: the wrapper's arguments in a block, then the C library's call.
  unfoldable pub create_on : ℤ → ℕ → ℕ → W → ℤ × W
  create_on node start arg w =
      let (block, w') = libc.malloc wrap_size w in
      if block == 0 then (enomem, w') else create (wrapped block start arg node) w'

  -- The result code, with the affinity state and the outside state. `none` is undefined behaviour.
  unfoldable pub pthread_create : Mode → ℕ → ℕ → Affinity → W → Option (ℤ × Affinity × W)
  pthread_create mode start arg aff w =
      let (ret, w') = create (plain start arg) w in
      let (next, aff') = get_next_node numa aff in
      if passes_through mode
      then some (ret, aff, w')
      else (do node ← next; let r = create_on node start arg w; some (r.0, aff', r.1))

  -- What a thread does before the program's routine is called with its argument.
  unfoldable pub enter : Kernel W → Affinity → Start → Tls → W → Option (Tls × W)
  enter kernel aff (plain start arg) tls w = some (tls, w)
  enter kernel aff (wrapped block start arg node) tls w = do
    r ← bind_thread_to_node kernel numa aff node (libc.free block w)
    some (record tls { home_node = node }, r.1)
