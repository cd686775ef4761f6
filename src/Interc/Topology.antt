-- ===== src/Interc/Topology.antt =====
-- src/lib/interc/ldlib.c: the affinity state and the topology helpers `node_cpu_count`,
-- `cache_node_cpu_counts` and `is_cross_socket`.
pub mod Laws
use kumf.Base.{
  ℕ, ◌+◌, ◌-◌, ◌*◌, ◌^◌, ltb, leb, if◌then◌else◌, Bool, true, false, ◌&&◌, ◌||◌, List, [], ◌∷◌,
  Option, none, some, length, take,
}
use kumf.Base.Int.{ℤ, pos, negsuc, below, ◌==ℤ◌}
use kumf.Interc.Types.{Spread, compact, Mpolicy, preferred, max_numa_nodes}

-- libnuma's view of the machine. `cpus_of` is `numa_node_to_cpus`, with the bits of the mask, and
-- `none` where it fails; `mask_given` says whether `numa_allocate_cpumask` gives a mask. A distance
-- that libnuma does not know is 0.
pub record Numa : Type 0 where
  pub available : Bool
  pub max_node : ℕ
  pub node_size : ℤ → ℤ
  pub distance : ℤ → ℤ → ℕ
  pub mask_given : Bool
  pub cpus_of : ℤ → Option (List Bool)

-- The array `node_cpu_counts` is a function of the index, an `int`; outside 0 to 127 it is what
-- lies beside the array. The two counters stay below 2 ^ 31.
pub record Affinity : Type 0 where
  pub nodes : List ℤ
  pub next_node_rr : ℕ
  pub spread : Spread
  pub mem_policy : Mpolicy
  pub global_thread_seq : ℕ
  pub node_cpu_counts : ℤ → ℕ
  pub node_cpu_counts_loaded : Bool

abbrev pub cpu_setsize : ℕ
cpu_setsize = 1024

unfoldable pub count_set : List Bool → ℕ
count_set [] = 0
count_set (true ∷ bits) = count_set bits + 1
count_set (false ∷ bits) = count_set bits

-- What the processor mask of a node counts, where no cached count is used.
unfoldable pub count_cpus : Numa → ℤ → ℕ
count_cpus numa node =
    if numa.mask_given
    then elim (numa.cpus_of node) [ none ↦ 0 | some bits ↦ count_set (take cpu_setsize bits) ]
    else 0

unfoldable pub node_cpu_count : Numa → Affinity → ℤ → ℕ
node_cpu_count numa aff node =
    if aff.node_cpu_counts_loaded && below node max_numa_nodes
    then aff.node_cpu_counts node
    else count_cpus numa node

-- `node_cpu_counts[n] = count`
abbrev pub write_count : ℤ → ℕ → (ℤ → ℕ) → ℤ → ℕ
write_count n count counts i = if n ==ℤ i then count else counts i

-- The loop of `cache_node_cpu_counts` over the configured nodes; the flag is still clear in it.
unfoldable pub fill_counts : Numa → List ℤ → (ℤ → ℕ) → ℤ → ℕ
fill_counts numa [] counts = counts
fill_counts numa (n ∷ ns) counts =
    fill_counts numa ns
      (if below n max_numa_nodes then write_count n (count_cpus numa n) counts else counts)

-- `memset` clears the array and nothing beside it.
abbrev in_array : ℤ → Bool
in_array (pos n) = ltb n max_numa_nodes
in_array (negsuc n) = false

unfoldable pub cache_node_cpu_counts : Numa → Affinity → Affinity
cache_node_cpu_counts numa aff = if aff.node_cpu_counts_loaded then aff else record aff {
  node_cpu_counts =
      fill_counts numa aff.nodes (λ i. if in_array i then 0 else aff.node_cpu_counts i);
  node_cpu_counts_loaded = true;
}

-- `min_dist` and `max_dist` after the distance `d` was seen
unfoldable pub see : ℕ → ℕ × ℕ → ℕ × ℕ
see d (low, high) = (if ltb 0 d && ltb d low then d else low, if ltb high d then d else high)

-- the inner loop, for the node `n` and those behind it
unfoldable pub see_from : Numa → ℤ → List ℤ → ℕ × ℕ → ℕ × ℕ
see_from numa n [] seen = seen
see_from numa n (m ∷ ms) seen = see_from numa n ms (see (numa.distance n m) seen)

-- the outer loop
unfoldable pub see_pairs : Numa → List ℤ → ℕ × ℕ → ℕ × ℕ
see_pairs numa [] seen = seen
see_pairs numa (n ∷ ns) seen = see_pairs numa ns (see_from numa n ns seen)

abbrev pub int_max : ℕ
int_max = 2 ^ 31 - 1

-- The doubled distance is an `int`: `none` is its overflow, which is undefined.
unfoldable pub compare_ends : ℕ × ℕ → Option Bool
compare_ends (low, high) = if ltb int_max (low * 2) then none else some (ltb (low * 2) high)

-- Of the state only the nodes are read.
unfoldable pub is_cross_socket : Numa → List ℤ → Option Bool
unfolding see_pairs compare_ends
is_cross_socket numa nodes =
    if leb (length nodes) 1 then some false else compare_ends (see_pairs numa nodes (int_max, 0))

-- The bytes that `snprintf(cell, sizeof(cell), "%4d", …)` writes for a distance, which is an `int`.
unfoldable pub cell_width : ℕ → ℕ
cell_width d =
    if ltb d 10000
    then 4
    else if ltb d 100000
    then 5
    else if ltb d 1000000
    then 6
    else if ltb d 10000000
    then 7
    else if ltb d 100000000
    then 8
    else if ltb d 1000000000
    then 9
    else 10

-- what `strcat` has put into a node's line behind the last cell
unfoldable pub row_width : Numa → ℤ → List ℤ → ℕ
row_width numa n [] = 0
row_width numa n (m ∷ ms) = cell_width (numa.distance n m) + row_width numa n ms

-- `char line[256]`
unfoldable pub rows_fit : Numa → List ℤ → List ℤ → Bool
unfolding row_width
rows_fit numa nodes [] = true
rows_fit numa nodes (n ∷ ns) = ltb (row_width numa n nodes) 256 && rows_fit numa nodes ns

abbrev pub is_defined : Option Bool → Bool
is_defined none = false
is_defined (some b) = true

-- Whether what KUMF_DEBUG prints of the topology is defined: its comparison, and the lines of the
-- distance matrix, which overflow their buffer if they are too long.
unfoldable pub reports : Numa → List ℤ → Bool
unfolding is_cross_socket rows_fit
reports numa nodes =
    is_defined (is_cross_socket numa nodes) && (leb (length nodes) 1 || rows_fit numa nodes nodes)
