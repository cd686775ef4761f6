-- ===== src/Tests/Threads.antt =====
-- The topology, the threads and the constructor at concrete inputs: a machine with two nodes of two
-- processors, at distance 20.
use kumf.Base.{
  ℕ, ◌*◌, ◌<◌, ◌≡◌, refl, ◌↔◌, if◌then◌else◌, ltb, Bool, true, false, [], ◌∷◌, none, some, arith,
  All, Option, ◌≢◌,
}
use kumf.Base.Int.{ℤ, pos, negsuc, ◌==ℤ◌, signed32}
use kumf.CText.{codes, text_eq, tokens, atoi, is_space, read_digits, is_digit, digit_value}
use kumf.Interc.Bind.{Kernel}
use kumf.Interc.Bind.Laws.{IsMaskable}
use kumf.Interc.Config.{load_rules, no_rules}
use kumf.Interc.Daemon.{applies, Environ, DaemonIo}
use kumf.Interc.Alloc.{malloc}
use kumf.Interc.Config.{rule_node}
use kumf.Interc.Init.Configured.{started_malloc}
use kumf.Tests.Configured.{first_line, line_file, lines-Names}
use kumf.Interc.Init.{
  Library, kumf_init, loaded, settings, is_off, parse_affinity, init_affinity, configured_nodes,
  parse_nodes, detect_nodes,
}
use kumf.Interc.Init.Ready.{off_keeps_rules}
use kumf.Interc.Spread.Fill.{next_nodes, next_nodes_fill}
use kumf.Interc.Spread.Laws.{places}
use kumf.Interc.Threads.{Create}
use kumf.Interc.Topology.{Numa, Affinity, node_cpu_count, is_cross_socket}
use kumf.Interc.Topology.Laws.{In, distances, is_cross_socket_iff}
use kumf.Interc.Types.{compact, preferred, batch, passive, Mode}
use kumf.Tests.World.{Memory, no_file, env, cpu}

abbrev known : ℤ → Bool
known (pos n) = ltb n 2
known (negsuc n) = false

abbrev numa : Numa
numa = record {
  available = true;
  max_node = 1;
  node_size = λ n. if known n then pos 4096 else negsuc 0;
  distance = λ n m. if n ==ℤ m then 10 else 20;
  mask_given = true;
  cpus_of = λ n.
      if n ==ℤ pos 0
      then some (true ∷ true ∷ [])
      else if n ==ℤ pos 1
      then some (false ∷ false ∷ true ∷ true ∷ [])
      else none;
}

abbrev aff : Affinity
aff = record {
  nodes = pos 0 ∷ pos 1 ∷ [];
  next_node_rr = 0;
  spread = compact;
  mem_policy = preferred;
  global_thread_seq = 1;
  node_cpu_counts = λ n. 2;
  node_cpu_counts_loaded = true;
}

abbrev kernel : Kernel Memory
kernel = record {
  sched_setaffinity = λ cpus w. (pos 0, w);
  set_mempolicy = λ policy mask w. (pos 0, w);
}

abbrev create : Create Memory
create start w = (pos 0, w)

-- The second, third and fourth thread.
next_nodes_fill_example : next_nodes 3 numa aff ≡ some (pos 0) ∷ some (pos 1) ∷ some (pos 1) ∷ []
unfolding places node_cpu_count
next_nodes_fill_example = next_nodes_fill 3 numa aff refl (omega arith)

narrow_nodes : All IsMaskable aff.nodes
narrow_nodes = (omega arith, (omega arith, tt))

-- A machine with a node 64.
abbrev wide : Numa
wide = record numa { cpus_of = λ n. some (true ∷ []) }

-- Three nodes, of which two are near.
abbrev three : Numa
three = record numa { distance = λ n m. if m ==ℤ pos 2 then 50 else 20 }

is_cross_socket_iff_example :
    (is_cross_socket three (pos 0 ∷ pos 1 ∷ pos 2 ∷ []) ≡ some true)
    ↔ ((near far : ℕ) × In near (20 ∷ 50 ∷ 50 ∷ []) × In far (20 ∷ 50 ∷ 50 ∷ []) × (near * 2 < far))
unfolding distances
is_cross_socket_iff_example =
    is_cross_socket_iff three (pos 0 ∷ pos 1 ∷ pos 2 ∷ [])
      ((omega arith, omega arith), ((omega arith, omega arith), ((omega arith, omega arith), tt)))

-- KUMF_NODES=0,1,7 and KUMF_AFFINITY=off
abbrev off_environ : Environ
off_environ = record {
  kumf_nodes = some (codes "0,1,7");
  kumf_conf = none;
  kumf_affinity = some (codes "off");
  kumf_policy = none;
}

abbrev io : DaemonIo
io = record {
  socket_file = false;
  socket_opens = false;
  exe_path = none;
  pid = 1;
  binds = false;
  daemon = λ message. none;
}

-- KUMF_AFFINITY=compact
abbrev compact_environ : Environ
compact_environ = record off_environ { kumf_affinity = some (codes "compact") }

explicit : settings io off_environ ≡ applies off_environ
unfolding settings
explicit = refl

disabled : is_off (parse_affinity off_environ) ≡ true
unfolding parse_affinity text_eq
disabled = refl

off_keeps_rules_example :
    (lib : Library Memory) × (kumf_init kernel numa
        (λ path. no_file)
        io
        true
        off_environ
        (loaded (λ n. 0) [])
      ≡ some lib)
    × (lib.alloc.mode ≡ batch)
    × (lib.alloc.rules ≡ load_rules no_file no_rules)
    × (lib.alloc.world ≡ [])
off_keeps_rules_example =
    off_keeps_rules kernel numa (λ path. no_file) io true off_environ off_environ (λ n. 0) []
      explicit disabled

-- The constructor with KUMF_AFFINITY=off and the file of two lines.
abbrev lib_of : Option (Library Memory) → Library Memory
lib_of none = loaded (λ n. 0) []
lib_of (some lib) = lib

abbrev off_lib : Library Memory
off_lib =
    lib_of (kumf_init kernel numa (λ path. line_file) io true off_environ (loaded (λ n. 0) []))

off_ended :
    kumf_init kernel numa (λ path. line_file) io true off_environ (loaded (λ n. 0) [])
    ≡ some off_lib
unfolding kumf_init settings loaded init_affinity configured_nodes parse_affinity text_eq
    parse_nodes detect_nodes tokens atoi is_space signed32 read_digits is_digit digit_value
off_ended = refl

off_batch : off_lib.alloc.mode ≡ batch
unfolding kumf_init settings loaded init_affinity configured_nodes parse_affinity text_eq
    parse_nodes detect_nodes tokens atoi is_space signed32 read_digits is_digit digit_value
off_batch = refl

active : (m : Mode) → m ≡ batch → m ≢ passive
active m h e = cc

off_mode : off_lib.alloc.mode ≢ passive
off_mode = active off_lib.alloc.mode off_batch

off_given : (env.libc.numa_alloc_onnode 9000 (rule_node (codes "0")) off_lib.alloc.world).0 ≢ 0
unfolding kumf_init settings loaded init_affinity configured_nodes parse_affinity text_eq
    parse_nodes detect_nodes tokens atoi is_space signed32 read_digits is_digit digit_value
off_given = omega arith

started_malloc_example :
    (malloc (record { libc = env.libc; conf = line_file; cpu = cpu }) 5000 9000 off_lib.alloc).0
    ≡ (env.libc.numa_alloc_onnode 9000 (rule_node (codes "0")) off_lib.alloc.world).0
started_malloc_example =
    started_malloc kernel numa env.libc cpu (λ path. line_file) io true off_environ off_environ
      (λ n. 0) [] off_lib (first_line ∷ []) [] 4096 8192 (codes "0") 5000 9000 explicit off_ended
      off_mode refl lines-Names (omega arith) off_given
