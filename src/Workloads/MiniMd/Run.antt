-- ===== src/Workloads/MiniMd/Run.antt =====
-- workloads/mini_md_v2.c: `init_data`, `run_simulation` and `main`, and the bounds of a run.
use kumf.Base.{
  ℕ, zero, suc, ◌+◌, ◌*◌, ◌^◌, ◌%◌, ◌<◌, ◌≤◌, ◌≡◌, refl, ltb, leb, ◌==◌, if◌then◌else◌, true, false,
  ◌||◌, Option, none, some, List, [], ◌∷◌, arith, Bool-cases, ap, ◌∙◌, inl, inr,
}
use kumf.Base.Store.{update}
use kumf.CText.{◌>>=◌}
use kumf.Workloads.Doubles.{Doubles}
use kumf.Workloads.MiniMd.{
  Vec3, State, Setting, zero_vec, fill_bonds, num_bonds, compute_nonbonded_forces,
  compute_bond_forces, simulation_step, parallel_for, integrate_particle, second_kick, dt,
}
use kumf.Workloads.MiniMd.Bonds.{compute_bond_forces-defined, pulled}

abbrev pub int_limit : ℕ
int_limit = 2 ^ 31

-- `array[i] = value(i)`, `left` rounds from index `i` on.
unfoldable pub fill {ℓ} : {A : Type ℓ} → ℕ → ℕ → (ℕ → A) → (ℕ → A) → ℕ → A
fill zero i value array = array
fill (suc left) i value array = fill left (suc i) value (update array i (value i))

-- The indices in the order of one thread.
abbrev pub upto : ℕ → ℕ → List ℕ
upto zero i = []
upto (suc left) i = i ∷ upto left (suc i)

fill_outside {ℓ} :
    {A : Type ℓ} (left i : ℕ) (value array : ℕ → A) (k : ℕ)
    → (ltb k i || leb (i + left) k) ≡ true
    → fill left i value array k ≡ array k
unfolding fill
fill_outside zero i value array k outside = refl
fill_outside (suc left) i value array k outside =
    let other : (i == k) ≡ false = ground arith in
    fill_outside left (suc i) value _ k (ground arith) ∙ rw other refl

fill_inside {ℓ} :
    {A : Type ℓ} (left i : ℕ) (value array : ℕ → A) (k : ℕ)
    → i ≤ k
    → k < i + left
    → fill left i value array k ≡ value k
unfolding fill
fill_inside zero i value array k from until = absurd (omega arith)
fill_inside (suc left) i value array k from until = elim (Bool-cases (i == k)) [
  | inl here ↦
      let same : i ≡ k = ground arith in
      fill_outside left (suc i) value _ k (ground arith) ∙ rw here (ap value same)
  | inr later ↦ fill_inside left (suc i) value _ k (ground arith) (omega arith)
]

module _ (ops : Doubles) where
  pub record Data : Type 0 where
    pub setting : Setting ops
    pub state : State ops
    pub bond_list : ℕ → ℕ

  -- The arrays of `init_data`, for the numbers of the calls of `rand` in their order and the memory as `malloc`
  -- leaves it.
  unfoldable pub filled : (ℕ → ℕ) → ℕ → ℕ → Data → Data
  filled rand rand_max n unset =
      let box_size = ops.mul (ops.cbrt (ops.of_int n)) (ops.literal 15 1) in
      let share : ℕ → ops.double = λ c. ops.div (ops.of_int (rand c)) (ops.of_int rand_max) in
      let place : ℕ → ops.double = λ c. ops.mul (share c) box_size in
      let speed : ℕ → ops.double =
        λ c. ops.sub (ops.mul (share c) (ops.literal 1 1)) (ops.literal 5 2) in
      record {
        setting = record {
          box_size = box_size;
          masses =
              fill n 0
                (λ i. ops.add (ops.literal 10 1) (ops.mul (ops.of_int (i % 5)) (ops.literal 2 1)))
                unset.setting.masses;
          particle_types = fill n 0 (λ i. i % 10) unset.setting.particle_types;
          topology_params =
              fill 10 0 (λ i. ops.add (ops.literal 5 1) (ops.mul (ops.literal 1 1) (ops.of_int i)))
                unset.setting.topology_params;
        };
        state = record {
          coordinates =
              fill n 0
                (λ i. record { x = place (6 * i); y = place (6 * i + 1); z = place (6 * i + 2) })
                unset.state.coordinates;
          forces = fill n 0 (λ i. zero_vec ops) unset.state.forces;
          velocities =
              fill n 0
                (λ i. record {
                  x = speed (6 * i + 3);
                  y = speed (6 * i + 4);
                  z = speed (6 * i + 5);
                })
                unset.state.velocities;
        };
        bond_list = fill_bonds (num_bonds n) 0 n unset.bond_list;
      }

  -- `init_data`, with `none` where the number of the bonds' ends overflows `int`.
  unfoldable pub init_data : (ℕ → ℕ) → ℕ → ℕ → Data → Option Data
  init_data rand rand_max n unset =
      if ltb (num_bonds n * 2) int_limit then some (filled rand rand_max n unset) else none

  unfoldable pub run_simulation : Setting ops → (ℕ → ℕ) → ℕ → ℕ → State ops → Option (State ops)
  run_simulation setting list n zero s = some s
  run_simulation setting list n (suc steps) s = do
    s' ← simulation_step ops setting list n (upto n 0) (upto n 0) s
    run_simulation setting list n steps s'

  -- The kinetic energy, `left` rounds from particle `i` on.
  unfoldable pub energy_from : (ℕ → ops.double) → (ℕ → Vec3 ops) → ℕ → ℕ → ops.double → ops.double
  energy_from masses velocities zero i ke = ke
  energy_from masses velocities (suc left) i ke =
      let v = velocities i in
      let squares = ops.add (ops.add (ops.mul v.x v.x) (ops.mul v.y v.y)) (ops.mul v.z v.z) in
      energy_from masses velocities left (suc i)
        (ops.add ke (ops.mul (ops.mul (ops.literal 5 1) (masses i)) squares))

  pub data Outcome : Type 0 where
    usage overflow out_of_bounds : Outcome
    energy : ops.double → Outcome

  abbrev pub finished : ℕ → (ℕ → ops.double) → Option (State ops) → Outcome
  finished n masses none = out_of_bounds
  finished n masses (some s) = energy (energy_from masses s.velocities n 0 (ops.literal 0 1))

  abbrev pub started : ℕ → ℕ → Option Data → Outcome
  started n steps none = overflow
  started n steps (some d) = finished n d.setting.masses (do
    warm ← compute_bond_forces ops d.bond_list n (compute_nonbonded_forces ops d.setting n d.state)
    run_simulation d.setting d.bond_list n steps warm)

  -- The program: its first two arguments as `atoi` gives them, or their defaults, with 0 for a
  -- negative one.
  unfoldable pub mini_md : (ℕ → ℕ) → ℕ → ℕ → ℕ → Data → Outcome
  mini_md rand rand_max n steps unset =
      if ltb n 100 then usage else started n steps (init_data rand rand_max n unset)

  -- With fewer than 2 ^ 29 particles the initialisation is defined, each type is an index of the
  -- ten parameters, and the bonds are those of `fill_bonds`.
  pub init_data-bounds :
      (rand : ℕ → ℕ) (rand_max n : ℕ) (unset : Data)
      → n < 2 ^ 29
      → (d : Data) × (init_data rand rand_max n unset ≡ some d)
        × ((k : ℕ) → k < n → d.setting.particle_types k < 10)
        × (d.bond_list ≡ fill_bonds (num_bonds n) 0 n unset.bond_list)
  unfolding init_data filled
  init_data-bounds rand rand_max n unset fits =
      let room : ltb (num_bonds n * 2) int_limit ≡ true = ground arith in
      (
        filled rand rand_max n unset,
        rw room refl,
        λ k inside.
            rw
              (fill_inside n 0 (λ i. i % 10) unset.setting.particle_types k (omega arith)
                (omega arith))
              (omega arith),
        refl,
      )

  simulation_step-defined :
      (setting : Setting ops) (n : ℕ) (unset : ℕ → ℕ) (drift_order kick_order : List ℕ)
      (s : State ops)
      → 1 ≤ n
      → (s' : State ops) × (simulation_step ops setting
            (fill_bonds (num_bonds n) 0 n unset)
            n
            drift_order
            kick_order
            s
          ≡ some s')
  unfolding simulation_step
  simulation_step-defined setting n unset drift_order kick_order s some_particle =
      let moved =
        compute_nonbonded_forces ops setting n
          (parallel_for ops (integrate_particle ops setting (dt ops)) drift_order s) in
      (
        _,
        ap (second_kick ops setting kick_order)
            (compute_bond_forces-defined ops n unset moved some_particle),
      )

  run_simulation-defined :
      (setting : Setting ops) (n : ℕ) (unset : ℕ → ℕ) (steps : ℕ) (s : State ops)
      → 1 ≤ n
      → (s' : State ops) × (run_simulation setting (fill_bonds (num_bonds n) 0 n unset) n steps s
          ≡ some s')
  unfolding run_simulation
  run_simulation-defined setting n unset zero s some_particle = (s, refl)
  run_simulation-defined setting n unset (suc steps) s some_particle =
      let (s1, stepped) =
        simulation_step-defined setting n unset (upto n 0) (upto n 0) s some_particle in
      let (s', ran) = run_simulation-defined setting n unset steps s1 some_particle in
      (s', rw stepped ran)

  mini_md_fits :
      (rand : ℕ → ℕ) (rand_max n steps : ℕ) (unset : Data)
      → 100 ≤ n
      → n < 2 ^ 29
      → (e : ops.double) × (mini_md rand rand_max n steps unset ≡ energy e)
  unfolding mini_md
  mini_md_fits rand rand_max n steps unset enough fits =
      let known : ltb n 100 ≡ false = ground arith in
      let (d, made, types, list) = init_data-bounds rand rand_max n unset fits in
      let warmed = compute_nonbonded_forces ops d.setting n d.state in
      let warm = compute_bond_forces-defined ops n unset.bond_list warmed (omega arith) in
      let bonds = fill_bonds (num_bonds n) 0 n unset.bond_list in
      let start : State ops = record warmed {
        forces = pulled ops bonds warmed.coordinates (num_bonds n) 0 warmed.forces;
      } in
      let (s', ran) =
        run_simulation-defined d.setting n unset.bond_list steps start (omega arith) in
      (
        energy_from d.setting.masses s'.velocities n 0 (ops.literal 0 1),
        rw (known, made, list, warm, ran) refl,
      )

  -- With 100 particles or more, whatever rand returns, the program runs to its end with every
  -- index of a bond among the particles if there are fewer than 2 ^ 29 of them; with 2 ^ 29 or
  -- more the number of the bonds' ends overflows int.
  pub mini_md-energy :
      (rand : ℕ → ℕ) (rand_max n steps : ℕ) (unset : Data)
      → 100 ≤ n
      → (e : ops.double) × (mini_md rand rand_max n steps unset
          ≡ (if ltb n (2 ^ 29) then energy e else overflow))
  unfolding mini_md init_data
  mini_md-energy rand rand_max n steps unset enough = elim (Bool-cases (ltb n (2 ^ 29))) [
    | inl fits ↦ rw fits (mini_md_fits rand rand_max n steps unset enough (ground arith))
    | inr big ↦
        let known : ltb n 100 ≡ false = ground arith in
        let none_left : ltb (num_bonds n * 2) int_limit ≡ false = ground arith in
        (ops.literal 0 1, rw (big, known, none_left) refl)
  ]
