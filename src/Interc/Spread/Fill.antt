-- ===== src/Interc/Spread/Fill.antt =====
-- Threads in a row, under the compact strategy.
use kumf.Base.{
  ℕ, zero, suc, ◌+◌, ◌<◌, ◌≤◌, ◌≡◌, refl, ap, ◌∙◌, ltb, true, List, [], ◌∷◌, Option, some, length,
  get_elem?, take, drop, map, arith,
}
use kumf.Base.Int.{ℤ}
use kumf.Interc.Topology.{Numa, Affinity, node_cpu_count}
use kumf.Interc.Types.{compact}
use kumf.Interc.Spread.{get_next_node}
use kumf.Interc.Spread.Laws.{places, get_next_node_compact}

-- What `k` calls in a row return.
unfoldable pub next_nodes : ℕ → Numa → Affinity → List (Option ℤ)
next_nodes zero numa aff = []
next_nodes (suc k) numa aff = let (n, aff') = get_next_node numa aff in n ∷ next_nodes k numa aff'

take_next :
    (k i : ℕ) (xs : List ℤ)
    → i < length xs
    → get_elem? xs i ∷ map some (take k (drop (suc i) xs)) ≡ map some (take (suc k) (drop i xs))
take_next k i [] h = absurd (omega arith)
take_next k zero (x ∷ xs) h = refl
take_next k (suc i) (x ∷ xs) h = take_next k i xs (omega arith)

same_counts :
    (numa : Numa) (aff : Affinity) (seq : ℕ)
    → node_cpu_count numa (record aff { global_thread_seq = seq }) ≡ node_cpu_count numa aff
unfolding node_cpu_count
same_counts numa aff seq = refl

-- Under the compact strategy k threads in a row get the next k places of the list that has one
-- place for each processor, node by node, as long as there are so many places.
pub next_nodes_fill :
    (k : ℕ) (numa : Numa) (aff : Affinity)
    → aff.spread ≡ compact
    → let seats = places (node_cpu_count numa aff) aff.nodes in
      aff.global_thread_seq + k ≤ length seats
      → next_nodes k numa aff ≡ map some (take k (drop aff.global_thread_seq seats))
unfolding next_nodes
next_nodes_fill zero numa aff c room = refl
next_nodes_fill (suc k) numa aff c room =
    let seq = aff.global_thread_seq in
    let seats = places (node_cpu_count numa aff) aff.nodes in
    let within : ltb seq (length seats) ≡ true = ground arith in
    let later = record aff { global_thread_seq = seq + 1 } in
    let step : get_next_node numa aff ≡ (get_elem? seats seq, later) =
      rw within at (get_next_node_compact numa aff c) in
    let one : seq + 1 ≡ suc seq = omega arith in
    let ih : next_nodes k numa later ≡ map some (take k (drop (suc seq) seats)) =
      (rw (same_counts numa aff (seq + 1)) at
        (next_nodes_fill k numa later c (rw (same_counts numa aff (seq + 1)) (omega arith))))
      ∙ ap (λ i. map some (take k (drop i seats))) one in
    rw step (ap (◌∷◌ (get_elem? seats seq)) ih ∙ take_next k seq seats (omega arith))
