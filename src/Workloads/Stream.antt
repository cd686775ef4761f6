-- ===== src/Workloads/Stream.antt =====
-- workloads/kumf_stream.c: the program, from its argument to the results that it prints, without the
-- times.
pub mod Results
use kumf.Base.{
  ℕ, zero, suc, ◌+◌, ◌-◌, ◌*◌, ◌/◌, ◌%◌, ltb, if◌then◌else◌, Bool, true, false, Option, none, some,
}
use kumf.Base.Store.{update}
use kumf.CText.{◌>>=◌}
use kumf.Workloads.Chase.{follow, chase_links}
use kumf.Workloads.Doubles.{Doubles}
use kumf.Workloads.Stride.{
  size_mod, sum_from, sum_random, sum_stride, update_stride, random_indices,
}

pub record Output (D : Type 0) : Type 0 where
  pub sequential_sum : D
  pub random_sum : D
  pub stride_sum : D
  pub b : ℕ → D
  pub final : ℕ

pub data Stream (D : Type 0) : Type 0 where
  too_small allocation_failed out_of_bounds : Stream D
  finished : Output D → Stream D

unfoldable pub n_doubles : ℕ → ℕ
n_doubles mb = (mb * 1024 * 1024) % size_mod / 8

abbrev num_runs : ℕ
num_runs = 3

module _ (ops : Doubles) where
  -- `A[i] = first + (double)(i % 100) / 100.0`
  abbrev pub initial : ℕ → ℕ → ops.double
  initial first i =
      ops.add (ops.literal first 1) (ops.div (ops.of_int (i % 100)) (ops.literal 1000 1))

  -- `B[i] = (double)i * 0.5`, `left` rounds from index `i` on.
  unfoldable pub write_from : ℕ → ℕ → (ℕ → ops.double) → ℕ → ops.double
  write_from zero i b = b
  write_from (suc left) i b =
      write_from left (suc i) (update b i (ops.mul (ops.of_int i) (ops.literal 5 1)))

  abbrev pub zero_point : ops.double
  zero_point = ops.literal 0 0

  abbrev pub scale : ops.double → ops.double
  scale x = ops.mul x (ops.literal 1 2)

  -- The runs of test 5.
  unfoldable pub update_runs : ℕ → ℕ → (ℕ → ops.double) → (ℕ → ops.double) → Option (ℕ → ops.double)
  update_runs zero n a b = some b
  update_runs (suc runs) n a b = do
    b' ← update_stride ops.add scale (n + 1) n 0 a b
    update_runs runs n a b'

  -- The tests, each run of which but those of test 5 starts from the same values.
  unfoldable pub tests : (ℕ → ℕ × ℕ) → ℕ → (ℕ → ℕ) → (ℕ → ℕ) → Option (Output ops.double)
  tests rand_r n unset_indices unset_chase = do
    random ←
        sum_random ops.add n n 0 (initial 10) (random_indices rand_r n n 0 42 unset_indices)
          zero_point
    stride ← sum_stride ops.add (n + 1) n 0 (initial 10) zero_point
    b ← update_runs num_runs n (initial 10) (write_from n 0 (initial 20))
    final ← follow n n (chase_links rand_r n unset_chase) 0
    some record {
      sequential_sum = sum_from ops.add n 0 (initial 10) zero_point;
      random_sum = random;
      stride_sum = stride;
      b = b;
      final = final;
    }

  abbrev pub reported : Option (Output ops.double) → Stream ops.double
  reported none = out_of_bounds
  reported (some o) = finished o

  -- The program: the argument as `atol` gives it, in `size_t`, if there is one, and `allocated` says whether the two arrays of so many bytes are.
  unfoldable pub stream :
      (ℕ → ℕ × ℕ) → (ℕ → Bool) → Option ℕ → (ℕ → ℕ) → (ℕ → ℕ) → Stream ops.double
  stream rand_r allocated none unset_indices unset_chase =
      if allocated ((256 * 1024 * 1024) % size_mod)
      then reported (tests rand_r (n_doubles 256) unset_indices unset_chase)
      else allocation_failed
  stream rand_r allocated (some mb) unset_indices unset_chase =
      if ltb mb 10
      then too_small
      else if allocated ((mb * 1024 * 1024) % size_mod)
      then reported (tests rand_r (n_doubles mb) unset_indices unset_chase)
      else allocation_failed
