-- ===== src/Workloads/MiniMd/Nonbonded.antt =====
-- The two loops over the pairs, and the force on each particle.
use kumf.Base.{
  ℕ, zero, suc, ◌+◌, ◌-◌, ◌<◌, ◌≤◌, ◌≡◌, refl, ltb, leb, ◌==◌, true, false, ◌||◌, arith, Bool-cases,
  ap, ◌∙◌, inl, inr,
}
use kumf.Workloads.Doubles.{Doubles}
use kumf.Workloads.MiniMd.{
  Vec3, State, Setting, zero_vec, vec_add, pair_force, plus_force, minus_force, pairs_from,
  nonbonded_from, cleared, compute_nonbonded_forces,
}

module _ (ops : Doubles) (setting : Setting ops) (coordinates : ℕ → Vec3 ops) where
  -- The forces of the particles from `j` on, `left` of them, on `i`.
  unfoldable pub pulls_from : ℕ → ℕ → ℕ → Vec3 ops → Vec3 ops
  pulls_from i zero j fi = fi
  pulls_from i (suc left) j fi =
      pulls_from i left (suc j) (plus_force ops fi (pair_force ops setting coordinates i j))

  -- The forces on `k` of the particles before `i`, as reactions.
  unfoldable pub reactions_upto : ℕ → ℕ → Vec3 ops
  reactions_upto zero k = zero_vec ops
  reactions_upto (suc i) k =
      minus_force ops (reactions_upto i k) (pair_force ops setting coordinates i k)

  pairs_from-pulls_from :
      (i left j : ℕ) (fi : Vec3 ops) (forces : ℕ → Vec3 ops)
      → (pairs_from ops setting coordinates i left j fi forces).0 ≡ pulls_from i left j fi
  unfolding pairs_from pulls_from
  pairs_from-pulls_from i zero j fi forces = refl
  pairs_from-pulls_from i (suc left) j fi forces = pairs_from-pulls_from i left (suc j) _ _

  pairs_from_outside :
      (i left j : ℕ) (fi : Vec3 ops) (forces : ℕ → Vec3 ops) (k : ℕ)
      → (ltb k j || leb (j + left) k) ≡ true
      → (pairs_from ops setting coordinates i left j fi forces).1 k ≡ forces k
  unfolding pairs_from
  pairs_from_outside i zero j fi forces k outside = refl
  pairs_from_outside i (suc left) j fi forces k outside =
      let other : (j == k) ≡ false = ground arith in
      pairs_from_outside i left (suc j) _ _ k (ground arith) ∙ rw other refl

  pairs_from_inside :
      (i left j : ℕ) (fi : Vec3 ops) (forces : ℕ → Vec3 ops) (k : ℕ)
      → j ≤ k
      → k < j + left
      → (pairs_from ops setting coordinates i left j fi forces).1 k
        ≡ minus_force ops (forces k) (pair_force ops setting coordinates i k)
  unfolding pairs_from
  pairs_from_inside i zero j fi forces k from until = absurd (omega arith)
  pairs_from_inside i (suc left) j fi forces k from until = elim (Bool-cases (j == k)) [
    | inl here ↦
        let same : k ≡ j = ground arith in
        let hit : (j == j) ≡ true = ground arith in
        rw same (pairs_from_outside i left (suc j) _ _ j (ground arith) ∙ rw hit refl)
    | inr later ↦
        let rest = pairs_from_inside i left (suc j) _ _ k (ground arith) (omega arith) in
        rest ∙ rw later refl
  ]

  -- The force on `k`.
  abbrev pub force_on : ℕ → ℕ → Vec3 ops
  force_on n k = vec_add ops (reactions_upto k k) (pulls_from k (n - suc k) (suc k) (zero_vec ops))

  nonbonded_from_before :
      (n left i : ℕ) (forces : ℕ → Vec3 ops) (k : ℕ)
      → k < i
      → nonbonded_from ops setting coordinates n left i forces k ≡ forces k
  unfolding nonbonded_from
  nonbonded_from_before n zero i forces k before = refl
  nonbonded_from_before n (suc left) i forces k before =
      let other : (i == k) ≡ false = ground arith in
      nonbonded_from_before n left (suc i) _ k (omega arith)
      ∙ rw other (pairs_from_outside i (n - suc i) (suc i) _ forces k (ground arith))

  nonbonded_from-force_on :
      (n left i : ℕ) (forces : ℕ → Vec3 ops) (k : ℕ)
      → i + left ≡ n
      → ((j : ℕ) → i ≤ j → j < n → forces j ≡ reactions_upto i j)
      → i ≤ k
      → k < n
      → nonbonded_from ops setting coordinates n left i forces k ≡ force_on n k
  unfolding nonbonded_from reactions_upto
  nonbonded_from-force_on n zero i forces k ends reacted from until = absurd (omega arith)
  nonbonded_from-force_on n (suc left) i forces k ends reacted from until =
      let row = pairs_from ops setting coordinates i (n - suc i) (suc i) (zero_vec ops) forces in
      elim (Bool-cases (i == k)) [
        | inl here ↦
            let same : k ≡ i = ground arith in
            let hit : (i == i) ≡ true = ground arith in
            let own =
              pairs_from_outside i (n - suc i) (suc i) (zero_vec ops) forces i (ground arith)
              ∙ reacted i (omega arith) (omega arith) in
            let pulls = pairs_from-pulls_from i (n - suc i) (suc i) (zero_vec ops) forces in
            rw same
              (nonbonded_from_before n left (suc i) _ i (omega arith) ∙ rw (hit, own, pulls) refl)
        | inr later ↦
            nonbonded_from-force_on n left (suc i) _ k (omega arith)
              (λ j from' until'.
                let other : (i == j) ≡ false = ground arith in
                rw other (
                  pairs_from_inside i (n - suc i) (suc i) (zero_vec ops) forces j from'
                    (omega arith)
                  ∙ ap (λ f. minus_force ops f (pair_force ops setting coordinates i j))
                      (reacted j (omega arith) until')))
              (ground arith) until
      ]

-- Run in one thread, compute_nonbonded_forces gives each particle k the reactions to the
-- particles before it, taken off zero one by one in their order, plus the sum of the forces of
-- those behind it, whatever the forces were before.
pub compute_nonbonded_forces_lem :
    (ops : Doubles) (setting : Setting ops) (n : ℕ) (s : State ops) (k : ℕ)
    → k < n
    → (compute_nonbonded_forces ops setting n s).forces k ≡ force_on ops setting s.coordinates n k
unfolding compute_nonbonded_forces cleared reactions_upto
compute_nonbonded_forces_lem ops setting n s k inside =
    nonbonded_from-force_on ops setting s.coordinates n n 0 (cleared ops n s.forces) k (omega arith)
      (λ j from until. let low : ltb j n ≡ true = ground arith in rw low refl) (omega arith) inside
