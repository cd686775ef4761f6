-- ===== src/Interc/Spread.antt =====
-- src/lib/interc/ldlib.c: `get_next_node`, the node for the next thread. The two mutexes make the
-- fetch and increment of a counter one step.
pub mod Laws
pub mod Fill
use kumf.Base.{
  ℕ, ◌+◌, ◌%◌, ltb, if◌then◌else◌, Bool, ◌&&◌, List, [], ◌∷◌, Option, none, some, length, get_elem?,
}
use kumf.Base.Int.{ℤ}
use kumf.Interc.Topology.{Numa, Affinity, node_cpu_count}
use kumf.Interc.Types.{Spread, compact, round_robin}

-- The loop: the first node whose processors reach past the thread's number.
unfoldable pub compact_node : (ℤ → ℕ) → ℕ → ℕ → List ℤ → Option ℤ
compact_node cpus seq offset [] = none
compact_node cpus seq offset (n ∷ ns) =
    let rest = compact_node cpus seq (offset + cpus n) ns in
    if ltb seq (offset + cpus n) then some n else rest

-- `affinity_nodes[k % num_affinity_nodes]`, which is undefined (`none`) if there is no node
unfoldable pub node_at : List ℤ → ℕ → Option ℤ
node_at [] k = none
node_at (n ∷ ns) k = get_elem? (n ∷ ns) (k % length (n ∷ ns))

-- The choice at a given number of the thread.
unfoldable pub pick_compact : Numa → Affinity → ℕ → Option ℤ
pick_compact numa aff seq = elim (compact_node (node_cpu_count numa aff) seq 0 aff.nodes) [
  | none ↦ node_at aff.nodes seq
  | some n ↦ some n
]

unfoldable pub get_next_node : Numa → Affinity → Option ℤ × Affinity
get_next_node numa aff = elim aff.spread [
  | compact ↦
      let seq = aff.global_thread_seq in
      (pick_compact numa aff seq, record aff { global_thread_seq = seq + 1 })
  | round_robin ↦
      let idx = aff.next_node_rr in (node_at aff.nodes idx, record aff { next_node_rr = idx + 1 })
]
