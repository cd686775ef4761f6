-- ===== src/Base/Store.antt =====
-- An array as a function from its indices.
use Prim.Native.Nat.{ℕ}
use kumf.Base.Tests.{◌==◌, if◌then◌else◌}

abbrev pub update {ℓ} : {A : Type ℓ} → (ℕ → A) → ℕ → A → ℕ → A
update f i v j = if i == j then v else f j
