-- ===== src/Tests/World.antt =====
-- A small machine: blocks lie at addresses that rise, a request of more than a million bytes is
-- refused, and there are two nodes of two processors each.
use kumf.Base.{
  ℕ, ◌+◌, ◌≤◌, ◌<◌, ◌≡◌, refl, ◌≢◌, inl, inr, ◌==◌, ltb, if◌then◌else◌, true, false, List, [], ◌∷◌,
  none, arith, Bool-cases,
}
use kumf.Base.Int.{pos}
use kumf.Interc.Alloc.{State, Env}
use kumf.Interc.Config.{ConfFile}
use kumf.Interc.Match.{Cpu}
use kumf.Interc.Ownership.{Block, unmapped, heap, numa, Allocates, LibcLaws}
use kumf.Interc.Segs.{Libc, entry_size}
use kumf.Interc.Types.{routing, Rules, Tls}

-- the calls so far, the last one first: what each left at which address
abbrev pub Memory : Type 0
Memory = List (ℕ × Block)

abbrev pub live : Memory → ℕ → Block
live [] a = unmapped
live ((b, k) ∷ m) a = if b == a then k else live m a

abbrev pub next_addr : Memory → ℕ
next_addr [] = 4096
next_addr ((b, k) ∷ m) = b + next_addr m

abbrev give : Block → ℕ → Memory → ℕ × Memory
give k n m = if ltb 1000000 n then (0, m) else (next_addr m, (next_addr m, k) ∷ m)

abbrev pub libc : Libc Memory
libc = record {
  malloc = λ n m. give heap n m;
  calloc = λ k n m. give heap n m;
  realloc = λ p n m.
      if ltb 1000000 n then (0, m) else (next_addr m, (next_addr m, heap) ∷ (p, unmapped) ∷ m);
  free = λ p m. (p, unmapped) ∷ m;
  memcpy = λ d p n m. m;
  numa_alloc_onnode = λ n node m. give (numa n) n m;
  numa_free = λ p n m. (p, unmapped) ∷ m;
}

next_addr_pos : (m : Memory) → 0 < next_addr m
next_addr_pos [] = omega arith
next_addr_pos ((b, k) ∷ m) = omega (arith, next_addr_pos m)

next_addr_unmapped : (m : Memory) (a : ℕ) → next_addr m ≤ a → live m a ≡ unmapped
next_addr_unmapped [] a h = refl
next_addr_unmapped ((b, k) ∷ m) a h = ground (arith, next_addr_unmapped m a, next_addr_pos m)

give-Allocates : (k : Block) (n : ℕ) (m : Memory) → Allocates live k m (give k n m)
give-Allocates k n m = elim (Bool-cases (ltb 1000000 n)) [
  | inl large ↦ rw large (inl (refl, λ a. refl))
  | inr small ↦
      rw small
        (inr (ground (arith, next_addr_pos m), next_addr_unmapped m _ (omega arith), λ a. refl))
]

pub laws : LibcLaws live libc
laws = record {
  malloc_gives = λ n w. give-Allocates heap n w;
  calloc_gives = λ k n w. give-Allocates heap n w;
  numa_gives = λ n node w. give-Allocates (numa n) n w;
  free_takes = λ p w h a. refl;
  numa_takes = λ p n w h a. refl;
  realloc_moves = λ p n w h. elim (Bool-cases (ltb 1000000 n)) [
    | inl large ↦ rw large (inl (refl, λ a. refl))
    | inr small ↦ rw small (
        inr (
          inr (
            ground (arith, next_addr_pos w),
            inr (next_addr_unmapped w _ (omega arith)),
            λ a. refl,
          )))
  ];
  memcpy_keeps = λ d p n w a. refl;
}

pub entries_fit : (w : Memory) → (libc.malloc entry_size w).0 ≢ 0
entries_fit w = ground (arith, next_addr_pos w)

-- Blocks of 8000 bytes and more go to node 1, calls from the first page of the text to node 0.
abbrev pub rules : Rules
rules = record {
  addr_rules = record { start = 4096; end = 8192; node = pos 0 } ∷ [];
  name_rules = [];
  size_rules = record { min_size = 8000; max_size = 0; node = pos 1 } ∷ [];
  rules_loaded = true;
  layer2_active = true;
}

abbrev pub no_counts : Tls
no_counts = record { home_node = pos 0; stat_local = 0; stat_config = 0 }

abbrev pub no_file : ConfFile
no_file = record { text = none; stale = λ line. [] }

abbrev pub cpu : Cpu
cpu = record { sched_getcpu = pos 0; numa_node_of_cpu = λ c. pos 0 }

abbrev pub env : Env Memory
env = record { libc = libc; conf = no_file; cpu = cpu }

-- The library with its rules loaded, and nothing allocated.
abbrev pub start : State Memory
start = record {
  mode = routing;
  rules = rules;
  segs = λ h. [];
  routing_ever_used = false;
  tls = no_counts;
  world = [];
}
