-- ===== src/Interc/Init/Laws.antt =====
-- What the constructor leaves behind.
use kumf.Base.{
  ℕ, zero, suc, ◌+◌, ◌≤◌, ◌≡◌, refl, inl, inr, ltb, if◌then◌else◌, Bool, true, ◌&&◌, List, [], ◌∷◌,
  ◌++◌, length, length-append, All, All-append, arith, Bool-cases, Option-cases,
}
use kumf.Base.Int.{ℤ, pos, negsuc, nonneg, ltb_ℤ}
use kumf.CText.{atoi, tokens}
use kumf.Interc.Daemon.{Environ}
use kumf.Interc.Topology.{Numa}
use kumf.Interc.Types.{max_numa_nodes}
use kumf.Interc.Init.{parse_nodes, detect_nodes, configured_nodes}

-- Nodes that libnuma knows, at most as many as the array holds.
abbrev pub IsConfigured : Numa → List ℤ → Type 0
IsConfigured numa nodes =
    (length nodes ≤ max_numa_nodes) × All (λ n. nonneg (numa.node_size n) ≡ true) nodes

push_node :
    (numa : Numa) (ok : Bool) (n : ℤ) (nodes : List ℤ)
    → (ok ≡ true → nonneg (numa.node_size n) ≡ true)
    → IsConfigured numa nodes
    → IsConfigured numa (if ltb (length nodes) max_numa_nodes && ok then nodes ++ n ∷ [] else nodes)
push_node numa ok n nodes known h = elim (Bool-cases (ltb (length nodes) max_numa_nodes && ok)) [
  | inr full ↦ rw full h
  | inl room ↦ rw room (
    ground (arith, length-append nodes (n ∷ [])),
    All-append (λ m. nonneg (numa.node_size m) ≡ true) nodes (n ∷ []) h.1
        (known (ground arith), tt),
  )
]

parse_nodes-IsConfigured :
    (numa : Numa) (toks : List (List ℕ)) (nodes : List ℤ)
    → IsConfigured numa nodes
    → IsConfigured numa (parse_nodes numa toks nodes)
unfolding parse_nodes
parse_nodes-IsConfigured numa [] nodes h = h
parse_nodes-IsConfigured numa (tok ∷ toks) nodes h =
    parse_nodes-IsConfigured numa toks _ (push_node numa _ (atoi tok) nodes (λ k. k) h)

positive : (a : ℤ) → ltb_ℤ (pos 0) a ≡ true → nonneg a ≡ true
positive (pos n) h = refl
positive (negsuc n) h = cc

detect_nodes-IsConfigured :
    (numa : Numa) (left i : ℕ) (nodes : List ℤ)
    → IsConfigured numa nodes
    → IsConfigured numa (detect_nodes numa left i nodes)
unfolding detect_nodes
detect_nodes-IsConfigured numa zero i nodes h = h
detect_nodes-IsConfigured numa (suc left) i nodes h =
    detect_nodes-IsConfigured numa left (i + 1) _
      (push_node numa _ (pos i) nodes (positive (numa.node_size (pos i))) h)

-- Whatever KUMF_NODES says, the list of configured nodes stays within its array of 128 and has
-- only nodes whose size libnuma knows.
pub configured_nodes-IsConfigured :
    (numa : Numa) (e : Environ) (nodes : List ℤ)
    → IsConfigured numa nodes
    → IsConfigured numa (configured_nodes numa e nodes)
unfolding configured_nodes
configured_nodes-IsConfigured numa e nodes h = elim (Option-cases e.kumf_nodes) [
  | inl unset ↦
      rw (unset, configured_nodes) (detect_nodes-IsConfigured numa (numa.max_node + 1) 0 nodes h)
  | inr (text, set) ↦
      rw (set, configured_nodes) (parse_nodes-IsConfigured numa (tokens b',' text) nodes h)
]
