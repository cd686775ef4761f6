-- ===== src/Tests/Workloads.antt =====
-- The workloads at concrete inputs, with natural numbers in place of doubles.
use kumf.Base.{
  ℕ, ◌+◌, ◌-◌, ◌*◌, ◌/◌, ◌%◌, ◌^◌, ◌<◌, ◌≡◌, refl, if◌then◌else◌, ltb, true, [], ◌∷◌, some, arith,
}
use kumf.Interc.Connection.{ConnectIo}
use kumf.CText.{codes}
use kumf.Workloads.Chase.{shuffle, link, permutation, chase_links, follow}
use kumf.Workloads.Chase.Cycle.{chase_links-cycle}
use kumf.Workloads.Doubles.{Doubles}
use kumf.Workloads.MiniMd.{
  Vec3, State, Setting, compute_nonbonded_forces, integrate_particle, parallel_for,
}
use kumf.Workloads.MiniMd.Integration.{Integrated, integrate_lem}
use kumf.Workloads.MiniMd.Nonbonded.{force_on, compute_nonbonded_forces_lem}
use kumf.Workloads.MiniMd.Run.{Data, mini_md, energy, mini_md-energy}
use kumf.Workloads.Stream.{Output, stream, finished, n_doubles, initial, zero_point, scale}
use kumf.Workloads.Stream.Results.{added, stream_results}
use kumf.Workloads.Stride.{sum_from, random_indices}
use kumf.Workloads.Stride.Laws.{group_sum}

abbrev rand_r : ℕ → ℕ × ℕ
rand_r seed = (seed / 3, (seed * 1103515245 + 12345) % 2 ^ 31)

abbrev ops : Doubles
ops = record {
  double = ℕ;
  add = λ x y. x + y;
  sub = λ x y. x - y;
  mul = λ x y. x * y;
  div = λ x y. x / y;
  neg = λ x. x;
  less = ltb;
  sqrt = λ x. x;
  cbrt = λ x. x;
  fmod = λ x y. x % y;
  of_int = λ i. i;
  literal = λ digits behind. digits;
}

chase_links-cycle_example :
    (follow 5 5 (chase_links rand_r 5 (λ i. 0)) 0 ≡ some 0)
    × ((j : ℕ)
        → j < 5
        → (k : ℕ) × (k < 5) × (follow 5 k (chase_links rand_r 5 (λ i. 0)) 0 ≡ some j))
chase_links-cycle_example = chase_links-cycle rand_r 5 (λ i. 0) (omega arith)

-- The links as they are.
links : (chase_links rand_r 3 (λ i. 0) 0 ≡ 2) × (chase_links rand_r 3 (λ i. 0) 2 ≡ 1)
unfolding chase_links permutation link shuffle
links = (refl, refl)

stream_results_example :
    (o : Output ℕ) × (stream ops rand_r (λ bytes. true) (some 10) (λ i. 0) (λ i. 0) ≡ finished o)
    × (o.sequential_sum ≡ sum_from ops.add (n_doubles 10) 0 (initial ops 10) (zero_point ops))
    × (o.random_sum
        ≡ sum_from ops.add
            (n_doubles 10)
            0
            (λ k.
              initial ops 10 (random_indices rand_r (n_doubles 10) (n_doubles 10) 0 42 (λ i. 0) k))
            (zero_point ops))
    × (o.stride_sum ≡ group_sum ops.add (n_doubles 10 / 3) 0 (initial ops 10) (zero_point ops))
    × (o.final ≡ 0)
    × ((k : ℕ)
        → k < n_doubles 10
        → o.b k ≡ (
            if ltb k (3 * (n_doubles 10 / 3))
            then added ops 3
                (scale ops (initial ops 10 k))
                (ops.mul (ops.of_int k) (ops.literal 5 1))
            else ops.mul (ops.of_int k) (ops.literal 5 1)))
unfolding n_doubles
stream_results_example = stream_results ops rand_r 10 (λ i. 0) (λ i. 0) (omega arith)

abbrev vec : ℕ → Vec3 ops
vec n = record { x = n; y = n + 1; z = n + 2 }

abbrev setting : Setting ops
setting = record {
  box_size = 9;
  masses = λ k. 1;
  particle_types = λ k. k % 10;
  topology_params = λ t. t;
}

abbrev particles : State ops
particles = record { coordinates = vec; forces = vec; velocities = vec }

compute_nonbonded_forces_lem_example :
    (compute_nonbonded_forces ops setting 3 particles).forces 1 ≡ force_on ops setting vec 3 1
compute_nonbonded_forces_lem_example =
    compute_nonbonded_forces_lem ops setting 3 particles 1 (omega arith)

integrate_lem_example :
    Integrated ops setting 1 particles
      (parallel_for ops (integrate_particle ops setting 1) (2 ∷ 0 ∷ 1 ∷ []) particles)
      1
      true
integrate_lem_example =
    integrate_lem ops setting 1 (2 ∷ 0 ∷ 1 ∷ []) particles (refl, (refl, (refl, tt))) 1

abbrev unset : Data ops
unset = record { setting = setting; state = particles; bond_list = λ i. 0 }

mini_md-energy_example : (e : ℕ) × (mini_md ops (λ c. c) 100 100 1 unset ≡ energy e)
mini_md-energy_example = mini_md-energy ops (λ c. c) 100 100 1 unset (omega arith)

abbrev socket : ConnectIo
socket = record { kumf_daemon = some (codes "/run/kumf"); file = true; socket = some 4; pid = 17 }
