-- ===== src/Workloads/Chase.antt =====
-- workloads/kumf_stream.c: the pointer chase of test 6: a random permutation of the indices, the
-- links that it gives, and the walk along them. `rand_r` is a parameter: from a seed to the number
-- and the new seed.
pub mod Cycle
use kumf.Base.{ℕ, zero, suc, ◌+◌, ◌-◌, ◌%◌, ltb, if◌then◌else◌, Bool, Option, none, some}
use kumf.Base.Store.{update}

-- `next[i] = i`
abbrev pub identity : ℕ → ℕ
identity i = i

abbrev pub swap : (ℕ → ℕ) → ℕ → ℕ → ℕ → ℕ
swap next i j = update (update next i (next j)) j (next i)

-- The loop from index `i` down to 1.
unfoldable pub shuffle : (ℕ → ℕ × ℕ) → ℕ → ℕ → (ℕ → ℕ) → ℕ → ℕ
shuffle rand_r zero seed next = next
shuffle rand_r (suc i) seed next =
    let (r, seed') = rand_r seed in
    let j = r % (suc i + 1) in shuffle rand_r i seed' (swap next (suc i) j)

-- The loop that stores the links, `left` rounds from index `i` on.
unfoldable pub link : ℕ → ℕ → ℕ → (ℕ → ℕ) → (ℕ → ℕ) → ℕ → ℕ
link zero i n next chase = chase
link (suc left) i n next chase =
    link left (suc i) n next (update chase (next i) (next ((i + 1) % n)))

-- `left` times `idx = chase[idx]`, with a read outside of the array as `none`.
unfoldable pub follow : ℕ → ℕ → (ℕ → ℕ) → ℕ → Option ℕ
follow n zero chase idx = some idx
follow n (suc left) chase idx =
    let rest = follow n left chase (chase idx) in if ltb idx n then rest else none

-- The two arrays, of `n` elements that `malloc` does not set.
unfoldable pub permutation : (ℕ → ℕ × ℕ) → ℕ → ℕ → ℕ
permutation rand_r n = shuffle rand_r (n - 1) 123 identity

unfoldable pub chase_links : (ℕ → ℕ × ℕ) → ℕ → (ℕ → ℕ) → ℕ → ℕ
chase_links rand_r n unset = link n 0 n (permutation rand_r n) unset
