-- ===== src/Interc/Bind.antt =====
-- src/lib/interc/ldlib.c: `bind_to_all_nodes` and `bind_thread_to_node`.
pub mod Laws
use Prim.Native.Nat.{bit_or}
use kumf.Base.{
  ℕ, zero, suc, ◌^◌, ltb, if◌then◌else◌, Bool, true, false, ◌||◌, List, [], ◌∷◌, Option, none, some,
  take,
}
use kumf.Base.Int.{ℤ, pos, negsuc, nonneg}
use kumf.CText.{◌>>=◌}
use kumf.Interc.Topology.{Numa, Affinity, cpu_setsize}
use kumf.Interc.Types.{Mpolicy, preferred, bind, interleave}

-- The two system calls, for the calling thread: the set of processors, and the policy with its
-- mask of nodes. Each returns 0, or -1 where it fails.
pub record Kernel (W : Type 0) : Type 0 where
  pub sched_setaffinity : (ℕ → Bool) → W → ℤ × W
  pub set_mempolicy : Mpolicy → ℕ → W → ℤ × W

-- `numa_bitmask_isbitset`; no bit is set past the mask's size
unfoldable pub bit_at : List Bool → ℕ → Bool
bit_at [] j = false
bit_at (b ∷ bits) zero = b
bit_at (b ∷ bits) (suc j) = bit_at bits j

-- The processors that the loop over one node's mask adds.
unfoldable pub cpus_in : Numa → ℤ → ℕ → Bool
unfolding bit_at
cpus_in numa node j =
    if numa.mask_given
    then elim (numa.cpus_of node) [ none ↦ false | some bits ↦ bit_at (take cpu_setsize bits) j ]
    else false

unfoldable pub cpus_in_all : Numa → List ℤ → ℕ → Bool
cpus_in_all numa [] j = false
cpus_in_all numa (n ∷ ns) j = cpus_in numa n j || cpus_in_all numa ns j

-- `1UL << node`, which is undefined (`none`) unless the node is from 0 to 63.
unfoldable pub shift_one : ℤ → Option ℕ
shift_one (pos n) = if ltb n 64 then some (2 ^ n) else none
shift_one (negsuc n) = none

-- the mask of `MPOL_INTERLEAVE`
unfoldable pub all_mask : List ℤ → ℕ → Option ℕ
all_mask [] mask = some mask
all_mask (n ∷ ns) mask = do b ← shift_one n; all_mask ns (bit_or mask b)

module _ {W : Type 0} (kernel : Kernel W) (numa : Numa) where
  open kernel use {sched_setaffinity, set_mempolicy}

  unfoldable pub bind_to_all_nodes : Affinity → W → ℤ × W
  bind_to_all_nodes aff w = sched_setaffinity (cpus_in_all numa aff.nodes) w

  -- The policy's call, its mask computed first.
  unfoldable pub apply_policy : Affinity → ℤ → W → Option (ℤ × W)
  apply_policy aff node w = do
    nodemask ← shift_one node
    elim aff.mem_policy [
      | preferred ↦ some (set_mempolicy preferred nodemask w)
      | bind ↦ some (set_mempolicy bind nodemask w)
      | interleave ↦ do mask ← all_mask aff.nodes 0; some (set_mempolicy interleave mask w)
    ]

  -- The part after the mask of processors: a failure of the policy's call is only logged.
  unfoldable pub set_thread : Affinity → ℤ → ℤ × W → Option (ℤ × W)
  set_thread aff node (ret, w) =
      if nonneg ret then (do r ← apply_policy aff node w; some (pos 0, r.1)) else some (ret, w)

  -- `none` is undefined behaviour.
  unfoldable pub bind_thread_to_node : Affinity → ℤ → W → Option (ℤ × W)
  bind_thread_to_node aff node w =
      if numa.mask_given
      then elim (numa.cpus_of node) [
        | none ↦ some (negsuc 0, w)
        | some bits ↦ set_thread aff node (sched_setaffinity (cpus_in numa node) w)
      ]
      else some (negsuc 0, w)
