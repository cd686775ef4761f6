-- ===== src/Interc/Spread/Laws.antt =====
-- What the spread strategies promise: compact fills a node's processors before the next node's.
use kumf.Base.{
  ℕ, zero, suc, ◌+◌, ◌-◌, ◌<◌, ◌≤◌, ◌≡◌, refl, ◌≢◌, ltb, if◌then◌else◌, List, [], ◌∷◌, ◌++◌, none,
  some, length, get_elem?, replicate, arith, Bool-cases, Option-cases, inl, inr,
}
use kumf.Base.Int.{ℤ}
use kumf.Interc.Topology.{Numa, Affinity, node_cpu_count}
use kumf.Interc.Types.{Spread, compact, round_robin}
use kumf.Interc.Spread.{compact_node, node_at, pick_compact, get_next_node}

-- A place for each processor, node by node.
unfoldable pub places : (ℤ → ℕ) → List ℤ → List ℤ
places cpus [] = []
places cpus (n ∷ ns) = replicate (cpus n) n ++ places cpus ns

get_elem?-replicate :
    (k i : ℕ) (n : ℤ) (rest : List ℤ)
    → get_elem? (replicate k n ++ rest) i ≡ (if ltb i k then some n else get_elem? rest (i - k))
get_elem?-replicate zero zero n rest = ground arith
get_elem?-replicate zero (suc i) n rest = ground arith
get_elem?-replicate (suc k) zero n rest = ground arith
get_elem?-replicate (suc k) (suc i) n rest = ground (arith, get_elem?-replicate k i n rest)

compact_node-places :
    (cpus : ℤ → ℕ) (seq offset : ℕ) (ns : List ℤ)
    → offset ≤ seq
    → compact_node cpus seq offset ns ≡ get_elem? (places cpus ns) (seq - offset)
unfolding compact_node places
compact_node-places cpus seq offset [] h = refl
compact_node-places cpus seq offset (n ∷ ns) h =
    rw (get_elem?-replicate (cpus n) (seq - offset) n (places cpus ns))
      (elim (Bool-cases (ltb seq (offset + cpus n))) [
        | inl fits ↦ ground arith
        | inr past ↦
            let shift : seq - offset - cpus n ≡ seq - (offset + cpus n) = omega arith in
            rw (shift, past) (ground (arith, compact_node-places cpus seq (offset + cpus n) ns))
      ])

length-replicate :
    (k : ℕ) (n : ℤ) (rest : List ℤ) → length (replicate k n ++ rest) ≡ k + length rest
length-replicate zero n rest = omega arith
length-replicate (suc k) n rest = omega (arith, length-replicate k n rest)

get_elem?_past : (xs : List ℤ) (i : ℕ) → length xs ≤ i → get_elem? xs i ≡ none
get_elem?_past [] i h = refl
get_elem?_past (x ∷ xs) zero h = absurd (omega arith)
get_elem?_past (x ∷ xs) (suc i) h = get_elem?_past xs i (omega arith)

get_elem?_within : (xs : List ℤ) (i : ℕ) → i < length xs → (x : ℤ) × (get_elem? xs i ≡ some x)
get_elem?_within [] i h = absurd (omega arith)
get_elem?_within (x ∷ xs) zero h = (x, refl)
get_elem?_within (x ∷ xs) (suc i) h = get_elem?_within xs i (omega arith)

node_at-defined : (ns : List ℤ) (k : ℕ) → ns ≢ [] → (n : ℤ) × (node_at ns k ≡ some n)
unfolding node_at
node_at-defined [] k h = absurd (h refl)
node_at-defined (n ∷ ns) k h = get_elem?_within (n ∷ ns) _ (omega arith)

-- Under the compact strategy the thread with number seq gets the place of that number, and node
-- seq modulo the number of nodes past the last place; the number rises by one and nothing else
-- changes.
pub get_next_node_compact :
    (numa : Numa) (aff : Affinity)
    → aff.spread ≡ compact
    → let seq = aff.global_thread_seq in
      let seats = places (node_cpu_count numa aff) aff.nodes in
      get_next_node numa aff ≡ (
        if ltb seq (length seats) then get_elem? seats seq else node_at aff.nodes seq,
        record aff { global_thread_seq = seq + 1 },
      )
unfolding get_next_node pick_compact
get_next_node_compact numa aff h =
    let seq = aff.global_thread_seq in
    let seats = places (node_cpu_count numa aff) aff.nodes in
    let start : seq - 0 ≡ seq = omega arith in
    let at : compact_node (node_cpu_count numa aff) seq 0 aff.nodes ≡ get_elem? seats seq =
      rw start at (compact_node-places (node_cpu_count numa aff) seq 0 aff.nodes (omega arith)) in
    elim (Bool-cases (ltb seq (length seats))) [
      | inl fits ↦ let (n, e) = get_elem?_within seats seq (ground arith) in ground (arith, at, e)
      | inr past ↦ ground (arith, at, get_elem?_past seats seq (ground arith))
    ]

-- With at least one node configured the choice of a node is defined under both strategies: the
-- remainder has no divisor 0 and the index is in range.
pub get_next_node-defined :
    (numa : Numa) (aff : Affinity)
    → aff.nodes ≢ []
    → (n : ℤ) × ((get_next_node numa aff).0 ≡ some n)
unfolding get_next_node pick_compact
get_next_node-defined numa aff h =
    let (n, e) = node_at-defined aff.nodes aff.global_thread_seq h in
    let (m, f) = node_at-defined aff.nodes aff.next_node_rr h in
    spread_cases aff.spread refl n m e f
  where
    spread_cases :
        (sp : Spread)
        → aff.spread ≡ sp
        → (n m : ℤ) → node_at aff.nodes aff.global_thread_seq ≡ some n
        → node_at aff.nodes aff.next_node_rr ≡ some m
        → (x : ℤ) × ((get_next_node numa aff).0 ≡ some x)
    spread_cases round_robin r n m e f = (m, ground arith)
    spread_cases compact c n m e f =
        elim (Option-cases
          (compact_node (node_cpu_count numa aff) aff.global_thread_seq 0 aff.nodes)) [
            | inl past ↦ (n, ground arith)
            | inr (k, hit) ↦ (k, ground arith)
          ]
