-- ===== src/Workloads/MiniMd.antt =====
-- workloads/mini_md_v2.c: the particles, and the forces and positions of a step. A loop that runs in
-- parallel is modelled with one thread, which is the default, but for the integration, whose rounds
-- may come in any order.
pub mod Bonds
pub mod Integration
pub mod Nonbonded
pub mod Run
use kumf.Base.{
  ℕ, zero, suc, ◌+◌, ◌-◌, ◌*◌, ◌%◌, ltb, if◌then◌else◌, Bool, true, false, ◌&&◌, Option, none, some,
  List, [], ◌∷◌,
}
use kumf.Base.Store.{update}
use kumf.Workloads.Doubles.{Doubles}

-- The pairs of indices in `bond_list`, `left` rounds from bond `i` on.
unfoldable pub fill_bonds : ℕ → ℕ → ℕ → (ℕ → ℕ) → ℕ → ℕ
fill_bonds zero i n list = list
fill_bonds (suc left) i n list =
    let a = i % n in
    let b = (a + 1) % n in fill_bonds left (suc i) n (update (update list (i * 2) a) (i * 2 + 1) b)

abbrev pub num_bonds : ℕ → ℕ
num_bonds n = n * 2

module _ (ops : Doubles) where
  pub record Vec3 : Type 0 where
    pub x : ops.double
    pub y : ops.double
    pub z : ops.double

  pub record State : Type 0 where
    pub coordinates : ℕ → Vec3
    pub forces : ℕ → Vec3
    pub velocities : ℕ → Vec3

  -- What a run does not change.
  pub record Setting : Type 0 where
    pub box_size : ops.double
    pub masses : ℕ → ops.double
    pub particle_types : ℕ → ℕ
    pub topology_params : ℕ → ops.double

  abbrev pub zero_vec : Vec3
  zero_vec = record { x = ops.literal 0 1; y = ops.literal 0 1; z = ops.literal 0 1 }

  abbrev pub vec_add : Vec3 → Vec3 → Vec3
  vec_add v w = record { x = ops.add v.x w.x; y = ops.add v.y w.y; z = ops.add v.z w.z }

  abbrev pub vec_sub : Vec3 → Vec3 → Vec3
  vec_sub v w = record { x = ops.sub v.x w.x; y = ops.sub v.y w.y; z = ops.sub v.z w.z }

  abbrev pub times_each : ops.double → Vec3 → Vec3
  times_each f d = record { x = ops.mul f d.x; y = ops.mul f d.y; z = ops.mul f d.z }

  unfoldable pub min_image : ops.double → ops.double → ops.double
  min_image dx box =
      let half = ops.mul box (ops.literal 5 1) in
      let dx = if ops.less half dx then ops.sub dx box else dx in
      if ops.less dx (ops.mul (ops.neg box) (ops.literal 5 1)) then ops.add dx box else dx

  abbrev pub square_sum : Vec3 → ops.double
  square_sum d = ops.add (ops.add (ops.mul d.x d.x) (ops.mul d.y d.y)) (ops.mul d.z d.z)

  -- The force of particle `j` on particle `i`, if they are near enough.
  unfoldable pub pair_force : Setting → (ℕ → Vec3) → ℕ → ℕ → Option Vec3
  pair_force setting coordinates i j =
      let ri = coordinates i in
      let rj = coordinates j in
      let cutoff2 = ops.mul (ops.literal 20 1) (ops.literal 20 1) in
      let d : Vec3 = record {
        x = min_image (ops.sub ri.x rj.x) setting.box_size;
        y = min_image (ops.sub ri.y rj.y) setting.box_size;
        z = min_image (ops.sub ri.z rj.z) setting.box_size;
      } in
      let r2 = square_sum d in
      let eps_i = setting.topology_params (setting.particle_types i) in
      let eps = ops.sqrt (ops.mul eps_i (setting.topology_params (setting.particle_types j))) in
      let sigma = ops.literal 10 1 in
      let sr2 = ops.div (ops.mul sigma sigma) r2 in
      let sr6 = ops.mul (ops.mul sr2 sr2) sr2 in
      let sr12 = ops.mul sr6 sr6 in
      let f =
        ops.div
          (ops.mul (ops.mul (ops.literal 240 1) eps)
            (ops.sub (ops.mul (ops.literal 20 1) sr12) sr6))
          r2 in
      if ops.less r2 cutoff2 && ops.less (ops.literal 1 2) r2 then some (times_each f d) else none

  abbrev pub plus_force : Vec3 → Option Vec3 → Vec3
  plus_force v none = v
  plus_force v (some f) = vec_add v f

  abbrev pub minus_force : Vec3 → Option Vec3 → Vec3
  minus_force v none = v
  minus_force v (some f) = vec_sub v f

  -- The inner loop, `left` rounds from particle `j` on: `fi` and the forces.
  unfoldable pub pairs_from :
      Setting → (ℕ → Vec3) → ℕ → ℕ → ℕ → Vec3 → (ℕ → Vec3) → Vec3 × (ℕ → Vec3)
  pairs_from setting coordinates i zero j fi forces = (fi, forces)
  pairs_from setting coordinates i (suc left) j fi forces =
      let f = pair_force setting coordinates i j in
      pairs_from setting coordinates i left (suc j) (plus_force fi f)
        (update forces j (minus_force (forces j) f))

  -- The outer loop over `n` particles, `left` rounds from particle `i` on.
  unfoldable pub nonbonded_from : Setting → (ℕ → Vec3) → ℕ → ℕ → ℕ → (ℕ → Vec3) → ℕ → Vec3
  nonbonded_from setting coordinates n zero i forces = forces
  nonbonded_from setting coordinates n (suc left) i forces =
      let row = pairs_from setting coordinates i (n - suc i) (suc i) zero_vec forces in
      nonbonded_from setting coordinates n left (suc i) (update row.1 i (vec_add (row.1 i) row.0))

  -- `memset(forces, 0, …)`
  unfoldable pub cleared : ℕ → (ℕ → Vec3) → ℕ → Vec3
  cleared n forces k = if ltb k n then zero_vec else forces k

  unfoldable pub compute_nonbonded_forces : Setting → ℕ → State → State
  compute_nonbonded_forces setting n s = record s {
    forces = nonbonded_from setting s.coordinates n n 0 (cleared n s.forces);
  }

  -- The force of bond `b`, if its ends are apart.
  unfoldable pub bond_force : (ℕ → Vec3) → ℕ → ℕ → Option Vec3
  bond_force coordinates i j =
      let d = vec_sub (coordinates i) (coordinates j) in
      let r = ops.sqrt (square_sum d) in
      let f = ops.div (ops.mul (ops.neg (ops.literal 1000 1)) (ops.sub r (ops.literal 10 1))) r in
      if ops.less r (ops.literal 1 10) then none else some (times_each f d)

  abbrev pub apply_bond : ℕ → ℕ → Option Vec3 → (ℕ → Vec3) → ℕ → Vec3
  apply_bond i j none forces = forces
  apply_bond i j (some f) forces =
      let forces = update forces i (vec_add (forces i) f) in update forces j (vec_sub (forces j) f)

  -- The loop over the bonds, `left` rounds from bond `b` on, with an index outside of the `n`
  -- particles as `none`.
  unfoldable pub bonds_from : (ℕ → ℕ) → (ℕ → Vec3) → ℕ → ℕ → ℕ → (ℕ → Vec3) → Option (ℕ → Vec3)
  bonds_from list coordinates n zero b forces = some forces
  bonds_from list coordinates n (suc left) b forces =
      let i = list (b * 2) in
      let j = list (b * 2 + 1) in
      let rest =
        bonds_from list coordinates n left (suc b)
          (apply_bond i j (bond_force coordinates i j) forces) in
      if ltb i n && ltb j n then rest else none

  abbrev pub with_forces : State → Option (ℕ → Vec3) → Option State
  with_forces s none = none
  with_forces s (some forces) = some (record s { forces = forces })

  unfoldable pub compute_bond_forces : (ℕ → ℕ) → ℕ → State → Option State
  compute_bond_forces list n s =
      with_forces s (bonds_from list s.coordinates n (num_bonds n) 0 s.forces)

  -- `velocities[i].x += 0.5 * forces[i].x * inv_m * dt`, for each coordinate
  unfoldable pub kicked : ops.double → ops.double → Vec3 → Vec3 → Vec3
  kicked dt mass force velocity =
      let inv_m = ops.div (ops.literal 10 1) mass in
      let kick : ops.double → ops.double =
        λ f. ops.mul (ops.mul (ops.mul (ops.literal 5 1) f) inv_m) dt in
      vec_add velocity record { x = kick force.x; y = kick force.y; z = kick force.z }

  unfoldable pub drifted : ops.double → ops.double → Vec3 → Vec3 → Vec3
  drifted dt box velocity position =
      let wrap : ops.double → ops.double = λ c. ops.fmod (ops.add c box) box in
      let moved = vec_add position record {
        x = ops.mul velocity.x dt;
        y = ops.mul velocity.y dt;
        z = ops.mul velocity.z dt;
      } in
      record { x = wrap moved.x; y = wrap moved.y; z = wrap moved.z }

  -- A round of `integrate`.
  abbrev pub integrate_particle : Setting → ops.double → ℕ → State → State
  integrate_particle setting dt i s =
      let velocity = kicked dt (setting.masses i) (s.forces i) (s.velocities i) in
      record s {
        coordinates =
            update s.coordinates i (drifted dt setting.box_size velocity (s.coordinates i));
        velocities = update s.velocities i velocity;
      }

  -- A round of the last loop of a step.
  abbrev pub kick_particle : Setting → ops.double → ℕ → State → State
  kick_particle setting dt i s = record s {
    velocities = update s.velocities i (kicked dt (setting.masses i) (s.forces i) (s.velocities i));
  }

  -- The rounds in the order in which the threads come to them.
  unfoldable pub parallel_for : (ℕ → State → State) → List ℕ → State → State
  parallel_for round [] s = s
  parallel_for round (i ∷ order) s = parallel_for round order (round i s)

  abbrev pub dt : ops.double
  dt = ops.literal 1 3

  abbrev pub second_kick : Setting → List ℕ → Option State → Option State
  second_kick setting order none = none
  second_kick setting order (some s) = some (parallel_for (kick_particle setting dt) order s)

  -- A step of `run_simulation`, with the orders of its two parallel loops.
  unfoldable pub simulation_step : Setting → (ℕ → ℕ) → ℕ → List ℕ → List ℕ → State → Option State
  simulation_step setting list n drift_order kick_order s =
      let moved = parallel_for (integrate_particle setting dt) drift_order s in
      second_kick setting kick_order
        (compute_bond_forces list n (compute_nonbonded_forces setting n moved))
