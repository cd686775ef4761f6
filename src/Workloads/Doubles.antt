-- ===== src/Workloads/Doubles.antt =====
-- The operations on `double` that the workloads use, without laws.
use kumf.Base.{ℕ, Bool}

pub record Doubles : Type 1 where
  pub double : Type 0
  pub add : double → double → double
  pub sub : double → double → double
  pub mul : double → double → double
  pub div : double → double → double
  pub neg : double → double
  pub less : double → double → Bool
  pub sqrt : double → double
  pub cbrt : double → double
  pub fmod : double → double → double
  -- `(double)i`
  pub of_int : ℕ → double
  -- A literal: its digits, and how many of them stand behind the point.
  pub literal : ℕ → ℕ → double
