-- ===== src/Interc/Init.antt =====
-- src/lib/interc/ldlib.c: `init_affinity` and the constructor `kumf_init`.
pub mod Laws
pub mod Ready
pub mod Configured
use kumf.Base.{
  ℕ, zero, suc, ◌+◌, ltb, leb, ◌==◌, if◌then◌else◌, Bool, true, false, ◌&&◌, ◌||◌, not, List, [],
  ◌∷◌, ◌++◌, Option, none, some, length,
}
use kumf.Base.Int.{ℤ, pos, negsuc, nonneg, ltb_ℤ}
use kumf.CText.{codes, atoi, text_eq, tokens, ◌>>=◌}
use kumf.Interc.Alloc.{State}
use kumf.Interc.Bind.{Kernel, bind_to_all_nodes, bind_thread_to_node}
use kumf.Interc.Config.{ConfFile, load_rules, no_rules}
use kumf.Interc.Daemon.{
  Environ, DaemonIo, Answer, undefined, stays_passive, applies, query_daemon_for_config,
}
use kumf.Interc.Topology.{Numa, Affinity, cache_node_cpu_counts, is_cross_socket, reports}
use kumf.Interc.Types.{
  Mode, batch, per_thread, routing, passive, Mpolicy, preferred, bind, interleave, Spread, compact,
  Tls, max_numa_nodes,
}

-- All static variables, with the outside state.
pub record Library (W : Type 0) : Type 0 where
  pub alloc : State W
  pub affinity : Affinity

-- The loop over the tokens of KUMF_NODES.
unfoldable pub parse_nodes : Numa → List (List ℕ) → List ℤ → List ℤ
parse_nodes numa [] nodes = nodes
parse_nodes numa (tok ∷ toks) nodes =
    let n = atoi tok in
    parse_nodes numa toks (
      if ltb (length nodes) max_numa_nodes && nonneg (numa.node_size n)
      then nodes ++ n ∷ []
      else nodes)

-- The loop over all nodes: `left` rounds, from node `i` on.
unfoldable pub detect_nodes : Numa → ℕ → ℕ → List ℤ → List ℤ
detect_nodes numa zero i nodes = nodes
detect_nodes numa (suc left) i nodes = detect_nodes numa left (i + 1) (
    if ltb (length nodes) max_numa_nodes && ltb_ℤ (pos 0) (numa.node_size (pos i))
    then nodes ++ pos i ∷ []
    else nodes)

unfoldable pub configured_nodes : Numa → Environ → List ℤ → List ℤ
unfolding parse_nodes detect_nodes
configured_nodes numa e nodes = elim e.kumf_nodes [
  | none ↦ detect_nodes numa (numa.max_node + 1) 0 nodes
  | some text ↦ parse_nodes numa (tokens b',' text) nodes
]

unfoldable pub parse_policy : Environ → Mpolicy → Mpolicy
parse_policy e p = elim e.kumf_policy [
  | none ↦ p
  | some text ↦
      if text_eq text (codes "bind")
      then bind
      else if text_eq text (codes "interleave")
      then interleave
      else p
]

-- What KUMF_AFFINITY asks for.
pub data Request : Type 0 where
  off : Request
  force : Mode → Request
  auto : Request

unfoldable pub parse_affinity : Environ → Request
parse_affinity e = elim e.kumf_affinity [
  | none ↦ auto
  | some text ↦
      if text_eq text (codes "off") || text_eq text (codes "0")
      then off
      else if text_eq text (codes "batch")
      then force batch
      else if text_eq text (codes "per-thread") || text_eq text (codes "compact")
      then force per_thread
      else auto
]

-- The word `compact` names the spread strategy too.
unfoldable pub parse_spread : Environ → Spread → Spread
parse_spread e sp = elim e.kumf_affinity [
  | none ↦ sp
  | some text ↦ if text_eq text (codes "compact") then compact else sp
]

-- the mode by the topology
abbrev pub by_topology : Option Bool → Option Mode
by_topology none = none
by_topology (some cross) = some (if cross then per_thread else batch)

-- `off` is answered before; a forced mode comes first, then the rules, then the topology, which is
-- not looked at before.
unfoldable pub select_mode : Request → Bool → Option Bool → Mode → Option Mode
select_mode off has_rules cross mode = some mode
select_mode (force m) has_rules cross mode = some m
select_mode auto has_rules cross mode = if has_rules then some routing else by_topology cross

abbrev pub is_off : Request → Bool
is_off off = true
is_off (force m) = false
is_off auto = false

-- `affinity_nodes[0]`, of a static array
abbrev pub first_node : List ℤ → ℤ
first_node [] = pos 0
first_node (n ∷ ns) = n

abbrev pub set_mode : {W : Type 0} → Mode → Library W → Library W
set_mode mode lib = record lib { alloc = record lib.alloc { mode = mode } }

module _ {W : Type 0} (kernel : Kernel W) (numa : Numa) where
  -- The modes that bind threads: the cached counts, the home node, and the binding to it.
  unfoldable pub settle : Library W → Option (Library W)
  settle lib =
      let aff = cache_node_cpu_counts numa lib.affinity in
      let home = first_node aff.nodes in
      let tls = record lib.alloc.tls { home_node = home } in
      (do
        r ← bind_thread_to_node kernel numa aff home lib.alloc.world
        some (record { alloc = record lib.alloc { tls = tls; world = r.1 }; affinity = aff }))

  -- The batch mode: the processors of all the nodes; a failure is ignored.
  unfoldable pub settle_batch : Library W → Library W
  settle_batch lib = record lib {
    alloc = record lib.alloc {
      world = (bind_to_all_nodes kernel numa lib.affinity lib.alloc.world).1;
    };
  }

  -- the binding that the mode asks for
  unfoldable pub settle_mode : Library W → Option (Library W)
  settle_mode lib = elim lib.alloc.mode [
    | batch ↦ some (settle_batch lib)
    | per_thread ↦ settle lib
    | routing ↦ settle lib
    | passive ↦ some lib
  ]

  -- `none` is undefined behaviour. With KUMF_DEBUG, `debug`, the topology is printed at the end.
  unfoldable pub init_affinity : Bool → Environ → Library W → Option (Library W)
  init_affinity debug e lib =
      let nodes = configured_nodes numa e lib.affinity.nodes in
      let aff = record lib.affinity {
        nodes = nodes;
        mem_policy = parse_policy e lib.affinity.mem_policy;
        spread = parse_spread e lib.affinity.spread;
      } in
      let request = parse_affinity e in
      let mode =
        select_mode request lib.alloc.rules.layer2_active (is_cross_socket numa nodes)
          lib.alloc.mode in
      let lib' = record lib { affinity = aff } in
      if numa.available
      then if length nodes == 0
        then some (set_mode batch (record lib { affinity = record lib.affinity { nodes = nodes } }))
        else if is_off request
        then some lib'
        else if debug && not (reports numa nodes)
        then none
        else (do m ← mode; settle_mode (set_mode m lib'))
      else some (set_mode batch lib)

abbrev pub is_some : Option (List ℕ) → Bool
is_some none = false
is_some (some t) = true

abbrev pub is_explicit : Environ → Bool
is_explicit e = is_some e.kumf_affinity || is_some e.kumf_nodes || is_some e.kumf_conf

abbrev pub conf_path : Environ → List ℕ
conf_path e = elim e.kumf_conf [ none ↦ codes "kumf.conf" | some path ↦ path ]

-- The static variables as they are loaded; `beside` is the memory round `node_cpu_counts`.
unfoldable pub loaded : {W : Type 0} → (ℤ → ℕ) → W → Library W
loaded beside w = record {
  alloc = record {
    mode = batch;
    rules = no_rules;
    segs = λ h. [];
    routing_ever_used = false;
    tls = record { home_node = negsuc 0; stat_local = 0; stat_config = 0 };
    world = w;
  };
  affinity = record {
    nodes = [];
    next_node_rr = 0;
    spread = compact;
    mem_policy = preferred;
    global_thread_seq = 0;
    node_cpu_counts = beside;
    node_cpu_counts_loaded = false;
  };
}

-- The settings that the rest of `kumf_init` works with: the environment's own, or the daemon's.
unfoldable pub settings : DaemonIo → Environ → Answer
settings io e = if is_explicit e then applies e else query_daemon_for_config io e

module _ {W : Type 0} (kernel : Kernel W) (numa : Numa) (files : List ℕ → ConfFile)
    (io : DaemonIo) where
  -- The state after the constructor; `none` is undefined behaviour. `connect_daemon` only sends.
  unfoldable pub kumf_init : Bool → Environ → Library W → Option (Library W)
  kumf_init debug e lib = elim (settings io e) [
    | undefined ↦ none
    | stays_passive ↦ some (set_mode passive lib)
    | applies e' ↦ init_affinity kernel numa debug e' (record lib {
      alloc = record lib.alloc { rules = load_rules (files (conf_path e')) lib.alloc.rules };
    })
  ]
