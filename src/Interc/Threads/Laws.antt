-- ===== src/Interc/Threads/Laws.antt =====
-- What a thread that is created gets, in each mode.
use kumf.Base.{ℕ, ◌≡◌, ◌≢◌, false, [], some, All, arith}
use kumf.Base.Int.{ℤ}
use kumf.Interc.Bind.{Kernel}
use kumf.Interc.Bind.Laws.{IsMaskable, bind_thread_to_node-defined}
use kumf.Interc.Segs.{Libc}
use kumf.Interc.Spread.{get_next_node}
use kumf.Interc.Spread.Laws.{get_next_node-defined}
use kumf.Interc.Topology.{Numa, Affinity}
use kumf.Interc.Types.{Mode, Tls}
use kumf.Interc.Threads.{wrapped, Create, passes_through, create_on, pthread_create, enter}

module _ {W : Type 0} (libc : Libc W) (create : Create W) (numa : Numa) where
  -- In a mode that binds threads and with a node configured, pthread_create is defined: the node
  -- that get_next_node chooses goes into the wrapper's arguments, and the affinity state
  -- afterwards is the one that get_next_node leaves.
  pub pthread_create_assigns :
      (mode : Mode) (start arg : ℕ) (aff : Affinity) (w : W)
      → passes_through mode ≡ false
      → aff.nodes ≢ []
      → (n : ℤ) × ((get_next_node numa aff).0 ≡ some n)
        × (pthread_create libc create numa mode start arg aff w
            ≡ some (
              (create_on libc create numa n start arg w).0,
              (get_next_node numa aff).1,
              (create_on libc create numa n start arg w).1,
            ))
  unfolding pthread_create
  pthread_create_assigns mode start arg aff w binds some_node =
      let (n, e) = get_next_node-defined numa aff some_node in (n, e, ground arith)

  -- Where all nodes are from 0 to 63, a wrapped thread starts without undefined behaviour with
  -- the assigned node as its home and its counters unchanged, also where the binding fails.
  pub enter_home :
      (kernel : Kernel W) (aff : Affinity) (block start arg : ℕ) (n : ℤ) (tls : Tls) (w : W)
      → IsMaskable n
      → All IsMaskable aff.nodes
      → (w' : W) × (enter libc create numa kernel aff (wrapped block start arg n) tls w
          ≡ some (record tls { home_node = n }, w'))
  unfolding enter
  enter_home kernel aff block start arg n tls w h hs =
      let (r, e) = bind_thread_to_node-defined kernel numa aff n (libc.free block w) h hs in
      (r.1, rw e)
