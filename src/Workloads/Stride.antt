-- ===== src/Workloads/Stride.antt =====
-- workloads/kumf_stream.c and workloads/kumf_tiered.c: the loops over an array of doubles, in single
-- elements and in groups of three. The type of doubles and its operations are parameters, and a read
-- or write outside of an array is `none`.
pub mod Laws
use kumf.Base.{ℕ, zero, suc, ◌+◌, ◌-◌, ◌^◌, ◌%◌, ltb, if◌then◌else◌, Bool, Option, none, some}
use kumf.Base.Store.{update}

abbrev pub size_mod : ℕ
size_mod = 2 ^ 64

-- `n_doubles - 2` in `size_t`
abbrev pub less_two : ℕ → ℕ
less_two n = (n + size_mod - 2) % size_mod

module _ {D : Type 0} (add : D → D → D) where
  -- `sum += A[i]`, `left` rounds from index `i` on.
  unfoldable pub sum_from : ℕ → ℕ → (ℕ → D) → D → D
  sum_from zero i a sum = sum
  sum_from (suc left) i a sum = sum_from left (suc i) a (add sum (a i))

  -- `sum += A[indices[i]]`, for arrays of `n` elements.
  unfoldable pub sum_random : ℕ → ℕ → ℕ → (ℕ → D) → (ℕ → ℕ) → D → Option D
  sum_random n zero i a indices sum = some sum
  sum_random n (suc left) i a indices sum =
      let rest = sum_random n left (suc i) a indices (add sum (a (indices i))) in
      if ltb (indices i) n then rest else none

  -- `sum += A[i] + A[i+1] + A[i+2]`, from index `i` on.
  unfoldable pub sum_stride : ℕ → ℕ → ℕ → (ℕ → D) → D → Option D
  sum_stride zero n i a sum = none
  sum_stride (suc fuel) n i a sum =
      let rest =
        sum_stride fuel n ((i + 3) % size_mod) a
          (add sum (add (add (a i) (a (i + 1))) (a (i + 2)))) in
      if ltb i (less_two n) then if ltb (i + 2) n then rest else none else some sum

-- The loop that updates the forces: `a` are the coordinates and `b` the forces, and `scale` is the
-- product with 0.01.
module _ {D : Type 0} (add : D → D → D) (scale : D → D) where
  abbrev pub stride_step : ℕ → (ℕ → D) → (ℕ → D) → ℕ → D
  stride_step i a b =
      let b = update b i (add (b i) (scale (a i))) in
      let b = update b (i + 1) (add (b (i + 1)) (scale (a (i + 1)))) in
      update b (i + 2) (add (b (i + 2)) (scale (a (i + 2))))

  unfoldable pub update_stride : ℕ → ℕ → ℕ → (ℕ → D) → (ℕ → D) → Option (ℕ → D)
  update_stride zero n i a b = none
  update_stride (suc fuel) n i a b =
      let rest = update_stride fuel n ((i + 3) % size_mod) a (stride_step i a b) in
      if ltb i (less_two n) then if ltb (i + 2) n then rest else none else some b

-- `indices[i] = rand_r(&seed) % n`, `left` rounds from index `i` on.
unfoldable pub random_indices : (ℕ → ℕ × ℕ) → ℕ → ℕ → ℕ → ℕ → (ℕ → ℕ) → ℕ → ℕ
random_indices rand_r n zero i seed indices = indices
random_indices rand_r n (suc left) i seed indices =
    let (r, seed') = rand_r seed in
    random_indices rand_r n left (suc i) seed' (update indices i (r % n))
