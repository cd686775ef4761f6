-- ===== src/Workloads/Tiered/Results.antt =====
-- The results of workloads/kumf_tiered.c, for each size.
use kumf.Base.{ℕ, zero, suc, List, [], ◌∷◌}
use kumf.Workloads.Doubles.{Doubles}
use kumf.Workloads.Stride.{sum_from}
use kumf.Workloads.Tiered.{n_types, mass, topology}

abbrev pub copies {ℓ} : {A : Type ℓ} → ℕ → A → List A
copies zero x = []
copies (suc n) x = x ∷ copies n x

module _ (ops : Doubles) where
  abbrev pub step_sum : ℕ → ops.double
  step_sum cold_n =
      sum_from ops.add n_types 0 (topology ops)
        (sum_from ops.add cold_n 0 (mass ops) (ops.literal 0 0))
