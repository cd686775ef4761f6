-- ===== src/Interc/Alloc/Branches.antt =====
-- Each call of the allocator on the branches that do not depend on the table's invariant.
use kumf.Base.{ℕ, ◌≡◌, true, false, none, some, arith, ◌<◌, ◌≢◌}
use kumf.Base.Int.{ℤ, nonneg}
use kumf.Interc.Config.{load_rules}
use kumf.Interc.Match.Laws.{routed_to, resolve_node-routed_to}
use kumf.Interc.Segs.{record_seg}
use kumf.Interc.Types.{passive, route_threshold}
use kumf.Interc.Alloc.{State, Env, malloc, calloc, realloc, free, route, run_libc, release, place}

module _ {W : Type 0} (env : Env W) where
  open env use {libc, conf, cpu}

  -- In the passive mode malloc, calloc, realloc and free, these two on a pointer that is not
  -- null, are the C library's: the results are the same, and of the library's state only what
  -- lies outside changes.
  pub passive_transparent :
      (caller nmemb size p : ℕ) (s : State W)
      → p ≢ 0
      → s.mode ≡ passive
      → (malloc env caller size s ≡ run_libc env (libc.malloc size) s)
        × (calloc env caller nmemb size s ≡ run_libc env (libc.calloc nmemb size) s)
        × (realloc env caller p size s ≡ run_libc env (libc.realloc p size) s)
        × (free env p s ≡ release env p s)
  unfolding malloc calloc realloc free
  passive_transparent caller nmemb size p s nz h = ground arith

  route_hit :
      (caller sz : ℕ) (s : State W) (k : ℤ)
      → s.rules.rules_loaded ≡ true
      → routed_to s.rules caller sz ≡ k
      → nonneg k ≡ true
      → (libc.numa_alloc_onnode sz k s.world).0 ≢ 0
      → (route env caller sz s).0 ≡ some (libc.numa_alloc_onnode sz k s.world).0
  unfolding route place load_rules record_seg
  route_hit caller sz s k loaded to at_node got =
      ground (arith, resolve_node-routed_to cpu s.rules caller sz s.tls s.routing_ever_used)

  route_miss :
      (caller sz : ℕ) (s : State W)
      → s.rules.rules_loaded ≡ true
      → nonneg (routed_to s.rules caller sz) ≡ false
      → ((route env caller sz s).0 ≡ none) × ((route env caller sz s).1.world ≡ s.world)
  unfolding route load_rules
  route_miss caller sz s loaded no_node =
      ground (arith, resolve_node-routed_to cpu s.rules caller sz s.tls s.routing_ever_used)

  -- With the rules loaded and in force, in every mode but the passive one, a malloc of more than
  -- the threshold for which the rules name a node, and for which libnuma gives a block on that
  -- node, returns that block.
  pub malloc_routed :
      (caller sz : ℕ) (s : State W) (k : ℤ)
      → s.mode ≢ passive
      → s.rules.rules_loaded ≡ true
      → s.rules.layer2_active ≡ true
      → route_threshold < sz
      → routed_to s.rules caller sz ≡ k
      → nonneg k ≡ true
      → (libc.numa_alloc_onnode sz k s.world).0 ≢ 0
      → (malloc env caller sz s).0 ≡ (libc.numa_alloc_onnode sz k s.world).0
  unfolding malloc
  malloc_routed caller sz s k on loaded active large to at_node got =
      ground (arith, route_hit caller sz s k loaded to at_node got)

  -- With the rules loaded, where they name no node for an allocation, malloc returns the block
  -- that the C library's malloc gives.
  pub malloc_unrouted :
      (caller sz : ℕ) (s : State W)
      → s.rules.rules_loaded ≡ true
      → nonneg (routed_to s.rules caller sz) ≡ false
      → (malloc env caller sz s).0 ≡ (libc.malloc sz s.world).0
  unfolding malloc
  malloc_unrouted caller sz s loaded no_node = ground (arith, route_miss caller sz s loaded no_node)
