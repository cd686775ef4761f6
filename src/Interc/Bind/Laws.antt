-- ===== src/Interc/Bind/Laws.antt =====
-- When binding a thread is defined, and what it asks of the kernel.
use Prim.Native.Nat.{bit_or}
use kumf.Base.{
  ℕ, ◌^◌, ◌<◌, ◌≤◌, ◌≡◌, refl, inl, inr, Bool, true, List, [], ◌∷◌, none, some, All, arith,
  Bool-cases, Option-cases,
}
use kumf.Base.Int.{ℤ, pos, negsuc, nonneg}
use kumf.CText.{◌>>=◌}
use kumf.Interc.Topology.{Numa, Affinity}
use kumf.Interc.Types.{Mpolicy, preferred, bind, interleave}
use kumf.Interc.Bind.{
  Kernel, cpus_in, shift_one, all_mask, apply_policy, set_thread, bind_thread_to_node,
}

-- a node that the 64 bits of a mask can name
abbrev pub IsMaskable : ℤ → Type 0
IsMaskable (pos n) = n < 64
IsMaskable (negsuc n) = ⊥

shift_one-defined : (n : ℤ) → IsMaskable n → (m : ℕ) × (shift_one n ≡ some m)
unfolding shift_one
shift_one-defined (pos n) h = (2 ^ n, ground arith)
shift_one-defined (negsuc n) h = absurd h

all_mask-defined :
    (ns : List ℤ) (mask : ℕ) → All IsMaskable ns → (m : ℕ) × (all_mask ns mask ≡ some m)
unfolding all_mask
all_mask-defined [] mask h = (mask, refl)
all_mask-defined (n ∷ ns) mask h =
    let (b, e) = shift_one-defined n h.0 in rw (e, ◌>>=◌) (all_mask-defined ns (bit_or mask b) h.1)

module _ {W : Type 0} (kernel : Kernel W) (numa : Numa) where
  open kernel use {sched_setaffinity, set_mempolicy}

  apply_policy-defined :
      (aff : Affinity) (node : ℤ) (w : W)
      → IsMaskable node
      → All IsMaskable aff.nodes
      → (r : ℤ × W) × (apply_policy kernel numa aff node w ≡ some r)
  unfolding apply_policy
  apply_policy-defined aff node w h hs =
      let (b, e) = shift_one-defined node h in
      let (mask, f) = all_mask-defined aff.nodes 0 hs in by_policy aff.mem_policy refl b mask e f
    where
      by_policy :
          (p : Mpolicy)
          → aff.mem_policy ≡ p
          → (b mask : ℕ) → shift_one node ≡ some b
          → all_mask aff.nodes 0 ≡ some mask
          → (r : ℤ × W) × (apply_policy kernel numa aff node w ≡ some r)
      by_policy preferred q b mask e f = (set_mempolicy preferred b w, ground arith)
      by_policy bind q b mask e f = (set_mempolicy bind b w, ground arith)
      by_policy interleave q b mask e f = (set_mempolicy interleave mask w, ground arith)

  -- Where the node and all configured nodes are from 0 to 63, bind_thread_to_node is free of
  -- undefined behaviour under each policy, whatever the system calls return.
  pub bind_thread_to_node-defined :
      (aff : Affinity) (node : ℤ) (w : W)
      → IsMaskable node
      → All IsMaskable aff.nodes
      → (r : ℤ × W) × (bind_thread_to_node kernel numa aff node w ≡ some r)
  unfolding bind_thread_to_node set_thread
  bind_thread_to_node-defined aff node w h hs =
      let r = sched_setaffinity (cpus_in numa node) w in
      let (q, e) = apply_policy-defined aff node r.1 h hs in
      elim (Bool-cases numa.mask_given) [
        | inr refused ↦ ((negsuc 0, w), rw refused)
        | inl given ↦ elim (Option-cases (numa.cpus_of node)) [
          | inl unknown ↦ ((negsuc 0, w), ground arith)
          | inr (bits, known) ↦ elim (Bool-cases (nonneg r.0)) [
            | inl ok ↦ ((pos 0, q.1), ground arith)
            | inr failed ↦ (r, ground arith)
          ]
        ]
      ]

  -- For a node of 64 or more whose processors are known and whose affinity call succeeds,
  -- bind_thread_to_node shifts past the width of its mask, which is undefined.
  pub bind_thread_to_node_wide :
      (aff : Affinity) (n : ℕ) (bits : List Bool) (w : W)
      → 64 ≤ n
      → numa.mask_given ≡ true
      → numa.cpus_of (pos n) ≡ some bits
      → nonneg (sched_setaffinity (cpus_in numa (pos n)) w).0 ≡ true
      → bind_thread_to_node kernel numa aff (pos n) w ≡ none
  unfolding bind_thread_to_node set_thread apply_policy shift_one
  bind_thread_to_node_wide aff n bits w wide given known ok = ground arith
