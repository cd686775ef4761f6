-- ===== src/Workloads/MiniMd/Integration.antt =====
-- The loop of `integrate`, for any order of its rounds.
use kumf.Base.{
  ℕ, ◌≡◌, refl, ◌==◌, if◌then◌else◌, Bool, true, false, ◌||◌, List, [], ◌∷◌, arith, Bool-cases, inl,
  inr,
}
use kumf.Workloads.Doubles.{Doubles}
use kumf.Workloads.MiniMd.{State, Setting, kicked, drifted, integrate_particle, parallel_for}

abbrev pub in_order : ℕ → List ℕ → Bool
in_order k [] = false
in_order k (i ∷ order) = (i == k) || in_order k order

-- No particle has two rounds.
abbrev pub Once : List ℕ → Type 0
Once [] = Unit
Once (i ∷ order) = (in_order i order ≡ false) × Once order

module _ (ops : Doubles) (setting : Setting ops) (dt : ops.double) where
  -- A particle after the rounds: `done` says whether its own is among them.
  abbrev pub Integrated : State ops → State ops → ℕ → Bool → Type 0
  Integrated s s' k done =
      let velocity = kicked ops dt (setting.masses k) (s.forces k) (s.velocities k) in
      (s'.velocities k ≡ (if done then velocity else s.velocities k))
      × (s'.coordinates k ≡ (
          if done
          then drifted ops dt setting.box_size velocity (s.coordinates k)
          else s.coordinates k))
      × (s'.forces k ≡ s.forces k)

  -- In whatever order the threads come to the particles, each at most once, the loop of integrate
  -- moves each particle that it comes to by its own half kick and drift, no other one, and
  -- changes no force.
  pub integrate_lem :
      (order : List ℕ) (s : State ops)
      → Once order
      → (k : ℕ)
      → Integrated s
          (parallel_for ops (integrate_particle ops setting dt) order s)
          k
          (in_order k order)
  unfolding parallel_for
  integrate_lem [] s once k = (refl, refl, refl)
  integrate_lem (i ∷ order) s once k =
      let rest = integrate_lem order (integrate_particle ops setting dt i s) once.1 k in
      elim (Bool-cases (i == k)) [
        | inl here ↦
            let same : k ≡ i = ground arith in
            let hit : (i == i) ≡ true = ground arith in
            let own = integrate_lem order (integrate_particle ops setting dt i s) once.1 i in
            rw (same, hit) (rw (once.0, hit) at own)
        | inr other ↦ rw other (rw other at rest)
      ]
