-- ===== src/Workloads/Tiered.antt =====
-- workloads/kumf_tiered.c: the program, from its arguments to the sums that it prints, without the
-- times. A write through the null pointer of a refused allocation is `none`.
pub mod Results
use kumf.Base.{
  ℕ, zero, suc, ◌+◌, ◌-◌, ◌*◌, ◌/◌, ◌%◌, ltb, if◌then◌else◌, ◌&&◌, ◌||◌, not, Bool, true, false,
  Option, none, some, List, [], ◌∷◌,
}
use kumf.CText.{◌>>=◌}
use kumf.Workloads.Doubles.{Doubles}
use kumf.Workloads.Stride.{size_mod, sum_from, sum_random, update_stride, random_indices}

abbrev pub n_types : ℕ
n_types = 10

-- `hot_n` and `cold_n`
unfoldable pub doubles_of : ℕ → ℕ
doubles_of mb = (mb * 1024 * 1024) % size_mod / 8

-- The blocks are used without a test: `given k` is whether the call `k` of malloc, from 0 on, gave
-- one, for coordinates, forces, masses, topology and the indices, in this order.
unfoldable pub lacks_memory : (ℕ → Bool) → ℕ → ℕ → Bool
lacks_memory given hot_n cold_n =
    ltb 0 hot_n && not (given 0 && given 1 && given 4)
    || ltb 0 cold_n && not (given 2)
    || not (given 3)

module _ (ops : Doubles) where
  abbrev pub coordinate : ℕ → ops.double
  coordinate i = ops.add (ops.literal 10 1) (ops.div (ops.of_int (i % 100)) (ops.literal 1000 1))

  abbrev pub mass : ℕ → ops.double
  mass i = ops.add (ops.literal 10 1) (ops.mul (ops.of_int (i % 5)) (ops.literal 2 1))

  abbrev pub topology : ℕ → ops.double
  topology i = ops.add (ops.literal 5 1) (ops.mul (ops.literal 1 1) (ops.of_int i))

  abbrev pub scaled : ops.double → ops.double
  scaled x = ops.mul x (ops.literal 1 2)

  abbrev pub no_force : ops.double
  no_force = ops.literal 0 1

  -- The steps: the forces, and the sum that each step prints.
  unfoldable pub steps :
      ℕ → ℕ → ℕ → (ℕ → ℕ) → (ℕ → ops.double) → Option ((ℕ → ops.double) × List ops.double)
  steps zero hot_n cold_n indices forces = some (forces, [])
  steps (suc left) hot_n cold_n indices forces = do
    read ← sum_random ops.add hot_n hot_n 0 coordinate indices (ops.literal 0 0)
    forces' ← update_stride ops.add scaled (hot_n + 1) hot_n 0 coordinate forces
    rest ← steps left hot_n cold_n indices forces'
    some (
      rest.0,
      sum_from ops.add n_types 0 topology (sum_from ops.add cold_n 0 mass (ops.literal 0 0))
          ∷ rest.1,
    )

  -- The program, with its arguments as `atol` and `atoi` give them, and `n_steps` the number of
  -- steps, none for a negative one.
  unfoldable pub tiered :
      (ℕ → ℕ × ℕ) → (ℕ → Bool) → ℕ → ℕ → ℕ → (ℕ → ℕ) → Option ((ℕ → ops.double) × List ops.double)
  tiered rand_r given hot_mb cold_mb n_steps unset =
      let hot_n = doubles_of hot_mb in
      let cold_n = doubles_of cold_mb in
      let ran =
        steps n_steps hot_n cold_n (random_indices rand_r hot_n hot_n 0 42 unset) (λ i. no_force) in
      if lacks_memory given hot_n cold_n then none else ran
