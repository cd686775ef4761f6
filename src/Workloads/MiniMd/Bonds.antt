-- ===== src/Workloads/MiniMd/Bonds.antt =====
-- The list of bonds, and the loop over it.
use kumf.Base.{
  ℕ, zero, suc, ◌+◌, ◌-◌, ◌*◌, ◌%◌, ◌<◌, ◌≤◌, ◌≡◌, refl, ltb, leb, ◌==◌, if◌then◌else◌, true, false,
  ◌||◌, some, arith, Bool-cases, ap, sym, ◌∙◌, inl, inr,
}
use kumf.Workloads.Doubles.{Doubles}
use kumf.Workloads.MiniMd.{
  fill_bonds, num_bonds, Vec3, State, apply_bond, bond_force, bonds_from, compute_bond_forces,
}
use native.Mathlib.Nat.{mod-lt, mod-eq_of_lt, mod-eq-sub-mod, mod_self}

fill_bonds_outside :
    (left i n : ℕ) (list : ℕ → ℕ) (k : ℕ)
    → (ltb k (i * 2) || leb ((i + left) * 2) k) ≡ true
    → fill_bonds left i n list k ≡ list k
unfolding fill_bonds
fill_bonds_outside zero i n list k outside = refl
fill_bonds_outside (suc left) i n list k outside =
    let first : (i * 2 == k) ≡ false = ground arith in
    let second : (i * 2 + 1 == k) ≡ false = ground arith in
    fill_bonds_outside left (suc i) n _ k (ground arith) ∙ rw (second, first) refl

-- The ends of bond `b`.
abbrev pub Joins : ℕ → (ℕ → ℕ) → ℕ → Type 0
Joins n list b = (list (b * 2) ≡ b % n) × (list (b * 2 + 1) ≡ (b % n + 1) % n)

fill_bonds_inside :
    (left i n : ℕ) (list : ℕ → ℕ) (b : ℕ)
    → i ≤ b
    → b < i + left
    → Joins n (fill_bonds left i n list) b
unfolding fill_bonds
fill_bonds_inside zero i n list b from until = absurd (omega arith)
fill_bonds_inside (suc left) i n list b from until = elim (Bool-cases (b == i)) [
  | inr later ↦ fill_bonds_inside left (suc i) n _ b (ground arith) (omega arith)
  | inl here ↦
      let same : b ≡ i = ground arith in
      let hit : (i * 2 == i * 2) ≡ true = ground arith in
      let hit' : (i * 2 + 1 == i * 2 + 1) ≡ true = ground arith in
      let apart : (i * 2 + 1 == i * 2) ≡ false = ground arith in
      rw same (
        fill_bonds_outside left (suc i) n _ (i * 2) (ground arith) ∙ rw (apart, hit) refl,
        fill_bonds_outside left (suc i) n _ (i * 2 + 1) (ground arith) ∙ rw hit' refl,
      )
]

mod_wrap : (m n : ℕ) → m < n * 2 → m % n ≡ (if ltb m n then m else m - n)
mod_wrap m n small = elim (Bool-cases (ltb m n)) [
  | inl below ↦ rw below (mod-eq_of_lt (ground arith))
  | inr above ↦ rw above (mod-eq-sub-mod (ground arith) ∙ mod-eq_of_lt (ground arith))
]

mod_next : (a n : ℕ) → a < n → (a + 1) % n ≡ (if a + 1 == n then 0 else a + 1)
mod_next a n inside = elim (Bool-cases (a + 1 == n)) [
  | inl last ↦ let end : a + 1 ≡ n = ground arith in rw last (ap (λ m. m % n) end ∙ mod_self n)
  | inr more ↦ rw more (mod-eq_of_lt (ground arith))
]

-- Bond b joins particle b, or b less the number of particles from that number on, to the next
-- one, and the last particle to the first.
pub fill_bonds_lem :
    (n : ℕ) (unset : ℕ → ℕ)
    → 1 ≤ n
    → (b : ℕ) → b < num_bonds n
    → let list = fill_bonds (num_bonds n) 0 n unset in
      (list (b * 2) ≡ (if ltb b n then b else b - n))
      × (list (b * 2 + 1) ≡ (if list (b * 2) + 1 == n then 0 else list (b * 2) + 1))
fill_bonds_lem n unset some_particle b inside =
    let joins = fill_bonds_inside (num_bonds n) 0 n unset b (omega arith) (omega arith) in
    let first = joins.0 ∙ mod_wrap b n (omega arith) in
    let low : (if ltb b n then b else b - n) < n = ground arith in
    (
      first,
      joins.1
          ∙ ap (λ a. (a + 1) % n) (sym joins.0)
          ∙ mod_next (fill_bonds (num_bonds n) 0 n unset (b * 2)) n (rw first low),
    )

fill_bonds-inside :
    (n : ℕ) (unset : ℕ → ℕ)
    → 1 ≤ n
    → (b : ℕ) → b < num_bonds n
    → let list = fill_bonds (num_bonds n) 0 n unset in (list (b * 2) < n) × (list (b * 2 + 1) < n)
fill_bonds-inside n unset some_particle b inside =
    let (first, second) = fill_bonds_inside (num_bonds n) 0 n unset b (omega arith) (omega arith) in
    (rw first (mod-lt b (omega arith)), rw second (mod-lt (b % n + 1) (omega arith)))

module _ (ops : Doubles) where
  -- The bonds in the order of the loop, each on the forces that the last one leaves.
  unfoldable pub pulled : (ℕ → ℕ) → (ℕ → Vec3 ops) → ℕ → ℕ → (ℕ → Vec3 ops) → ℕ → Vec3 ops
  pulled list coordinates zero b forces = forces
  pulled list coordinates (suc left) b forces = pulled list coordinates left (suc b) (
      apply_bond ops (list (b * 2)) (list (b * 2 + 1))
        (bond_force ops coordinates (list (b * 2)) (list (b * 2 + 1))) forces)

  bonds_from-pulled :
      (left b n : ℕ) (list : ℕ → ℕ) (coordinates forces : ℕ → Vec3 ops)
      → ((c : ℕ) → b ≤ c → c < b + left → (list (c * 2) < n) × (list (c * 2 + 1) < n))
      → bonds_from ops list coordinates n left b forces
        ≡ some (pulled list coordinates left b forces)
  unfolding bonds_from pulled
  bonds_from-pulled zero b n list coordinates forces inside = refl
  bonds_from-pulled (suc left) b n list coordinates forces inside =
      let (first, second) = inside b (omega arith) (omega arith) in
      let in1 : ltb (list (b * 2)) n ≡ true = ground arith in
      let in2 : ltb (list (b * 2 + 1)) n ≡ true = ground arith in
      rw (in1, in2)
        (bonds_from-pulled left (suc b) n list coordinates _
          (λ c from until. inside c (omega arith) (omega arith)))

  -- With the list of bonds that the program fills in, no index is outside of the particles, and
  -- each bond in turn is applied to the forces.
  pub compute_bond_forces-defined :
      (n : ℕ) (unset : ℕ → ℕ) (s : State ops)
      → 1 ≤ n
      → let list = fill_bonds (num_bonds n) 0 n unset in
        compute_bond_forces ops list n s
        ≡ some (record s { forces = pulled list s.coordinates (num_bonds n) 0 s.forces })
  unfolding compute_bond_forces
  compute_bond_forces-defined n unset s some_particle =
      let list = fill_bonds (num_bonds n) 0 n unset in
      rw
        (bonds_from-pulled (num_bonds n) 0 n list s.coordinates s.forces
          (λ c from until. fill_bonds-inside n unset some_particle c (omega arith)))
        refl
