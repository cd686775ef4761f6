-- ===== src/Workloads/Stride/Laws.antt =====
-- The loops over arrays: their bounds and results.
use kumf.Base.{
  ℕ, zero, suc, ◌+◌, ◌-◌, ◌*◌, ◌%◌, ◌<◌, ◌≤◌, ◌≡◌, refl, ltb, ◌==◌, if◌then◌else◌, true, false,
  some, arith, Bool-cases, ap, ◌∙◌, inl, inr, ◌/◌, ◌||◌, leb, if_cases, ◌⊎◌,
}
use kumf.Base.Store.{update}
use kumf.Workloads.Stride.{
  size_mod, less_two, sum_from, sum_random, sum_stride, stride_step, update_stride, random_indices,
}
use native.Mathlib.Nat.{mod-lt}

random_indices_kept :
    (rand_r : ℕ → ℕ × ℕ) (n left i seed : ℕ) (indices : ℕ → ℕ) (k : ℕ)
    → k < i
    → random_indices rand_r n left i seed indices k ≡ indices k
unfolding random_indices
random_indices_kept rand_r n zero i seed indices k before = refl
random_indices_kept rand_r n (suc left) i seed indices k before =
    let other : (i == k) ≡ false = ground arith in
    random_indices_kept rand_r n left (suc i) _ _ k (omega arith) ∙ rw other refl

random_indices_bound :
    (rand_r : ℕ → ℕ × ℕ) (n left i seed : ℕ) (indices : ℕ → ℕ) (k : ℕ)
    → 1 ≤ n
    → i ≤ k
    → k < i + left
    → random_indices rand_r n left i seed indices k < n
unfolding random_indices
random_indices_bound rand_r n zero i seed indices k some_data from until = absurd (omega arith)
random_indices_bound rand_r n (suc left) i seed indices k some_data from until =
    elim (Bool-cases (k == i)) [
      | inr later ↦
          random_indices_bound rand_r n left (suc i) _ _ k some_data (ground arith) (omega arith)
      | inl here ↦
          let same : k ≡ i = ground arith in
          let hit : (i == i) ≡ true = ground arith in
          let r = (rand_r seed).0 in
          let kept =
            random_indices_kept rand_r n left (suc i) (rand_r seed).1 (update indices i (r % n)) i
              (omega arith) in
          let low : r % n < n = mod-lt r (omega arith) in rw (same, kept, hit) low
    ]

module _ {D : Type 0} (add : D → D → D) where
  sum_random-sum_from :
      (n left i : ℕ) (a : ℕ → D) (indices : ℕ → ℕ) (sum : D)
      → ((k : ℕ) → i ≤ k → k < i + left → indices k < n)
      → sum_random add n left i a indices sum ≡ some (sum_from add left i (λ k. a (indices k)) sum)
  unfolding sum_random sum_from
  sum_random-sum_from n zero i a indices sum inside = refl
  sum_random-sum_from n (suc left) i a indices sum inside =
      let here = inside i (omega arith) (omega arith) in
      let test : ltb (indices i) n ≡ true = ground arith in
      let rest =
        sum_random-sum_from n left (suc i) a indices (add sum (a (indices i)))
          (λ k from until. inside k (omega arith) (omega arith)) in
      rw test rest

  -- The drawn indices are all in the array, and the sum over them is that of the elements that
  -- they name.
  pub sum_random-random_indices :
      (rand_r : ℕ → ℕ × ℕ) (n seed : ℕ) (unset : ℕ → ℕ) (a : ℕ → D) (sum : D)
      → let indices = random_indices rand_r n n 0 seed unset in
        sum_random add n n 0 a indices sum ≡ some (sum_from add n 0 (λ k. a (indices k)) sum)
  sum_random-random_indices rand_r n seed unset a sum =
      sum_random-sum_from n n 0 a (random_indices rand_r n n 0 seed unset) sum
        (λ k from until. random_indices_bound rand_r n n 0 seed unset k (omega arith) from until)

  -- The sum of the groups of three, `groups` of them from index `i` on.
  unfoldable pub group_sum : ℕ → ℕ → (ℕ → D) → D → D
  group_sum zero i a sum = sum
  group_sum (suc groups) i a sum =
      group_sum groups (i + 3) a (add sum (add (add (a i) (a (i + 1))) (a (i + 2))))

  pub sum_stride-group_sum :
      (groups fuel n i : ℕ) (a : ℕ → D) (sum : D)
      → 2 ≤ n
      → n < size_mod - 3
      → i + 3 * groups ≤ n
      → n < i + 3 * groups + 3
      → groups < fuel
      → sum_stride add fuel n i a sum ≡ some (group_sum groups i a sum)
  unfolding sum_stride group_sum
  sum_stride-group_sum groups zero n i a sum two fits inside last fuels = absurd (omega arith)
  sum_stride-group_sum zero (suc fuel) n i a sum two fits inside last fuels =
      let done : ltb i (less_two n) ≡ false = ground arith in rw done refl
  sum_stride-group_sum (suc groups) (suc fuel) n i a sum two fits inside last fuels =
      let more : ltb i (less_two n) ≡ true = ground arith in
      let bound : ltb (i + 2) n ≡ true = ground arith in
      let next : (i + 3) % size_mod ≡ i + 3 = omega arith in
      let rest =
        sum_stride-group_sum groups fuel n (i + 3) a
          (add sum (add (add (a i) (a (i + 1))) (a (i + 2)))) two fits (omega arith) (omega arith)
          (omega arith) in
      rw (more, bound, next) rest

module _ {D : Type 0} (add : D → D → D) (scale : D → D) where
  stride_step_outside :
      (i : ℕ) (a b : ℕ → D) (k : ℕ)
      → (ltb k i || ltb (i + 2) k) ≡ true
      → stride_step add scale i a b k ≡ b k
  stride_step_outside i a b k outside =
      let first : (i == k) ≡ false = ground arith in
      let second : (i + 1 == k) ≡ false = ground arith in
      let third : (i + 2 == k) ≡ false = ground arith in rw (first, second, third) refl

  stride_step_inside :
      (i : ℕ) (a b : ℕ → D) (k : ℕ)
      → i ≤ k
      → k < i + 3
      → stride_step add scale i a b k ≡ add (b k) (scale (a k))
  stride_step_inside i a b k from until =
      let ab : (i + 1 == i + 2) ≡ false = ground arith in
      let ac : (i == i + 2) ≡ false = ground arith in
      let b' : (i == i + 1) ≡ false = ground arith in
      let places : (k ≡ i) ⊎ ((k ≡ i + 1) ⊎ (k ≡ i + 2)) = omega arith in
      elim places [
        | inl first ↦
            let hit : (i == i) ≡ true = ground arith in
            let n1 : (i + 1 == i) ≡ false = ground arith in
            let n2 : (i + 2 == i) ≡ false = ground arith in rw (first, n2, n1, hit) refl
        | inr (inl second) ↦
            let hit : (i + 1 == i + 1) ≡ true = ground arith in
            let n2 : (i + 2 == i + 1) ≡ false = ground arith in rw (second, n2, hit, b') refl
        | inr (inr third) ↦
            let hit : (i + 2 == i + 2) ≡ true = ground arith in rw (third, hit, ab, ac) refl
      ]

  -- The groups of three, `groups` of them from index `i` on.
  unfoldable update_groups : ℕ → ℕ → (ℕ → D) → (ℕ → D) → ℕ → D
  update_groups zero i a b = b
  update_groups (suc groups) i a b = update_groups groups (i + 3) a (stride_step add scale i a b)

  update_groups_outside :
      (groups i : ℕ) (a b : ℕ → D) (k : ℕ)
      → (ltb k i || leb (i + 3 * groups) k) ≡ true
      → update_groups groups i a b k ≡ b k
  unfolding update_groups
  update_groups_outside zero i a b k outside = refl
  update_groups_outside (suc groups) i a b k outside =
      update_groups_outside groups (i + 3) a _ k (ground arith)
      ∙ stride_step_outside i a b k (ground arith)

  update_groups_inside :
      (groups i : ℕ) (a b : ℕ → D) (k : ℕ)
      → i ≤ k
      → k < i + 3 * groups
      → update_groups groups i a b k ≡ add (b k) (scale (a k))
  unfolding update_groups
  update_groups_inside zero i a b k from until = absurd (omega arith)
  update_groups_inside (suc groups) i a b k from until = elim (Bool-cases (ltb k (i + 3))) [
    | inl now ↦
        update_groups_outside groups (i + 3) a _ k (ground arith)
        ∙ stride_step_inside i a b k from (ground arith)
    | inr later ↦
        let untouched = stride_step_outside i a b k (ground arith) in
        update_groups_inside groups (i + 3) a _ k (ground arith) (omega arith)
        ∙ ap (λ v. add v (scale (a k))) untouched
  ]

  update_stride-update_groups :
      (groups fuel n i : ℕ) (a b : ℕ → D)
      → 2 ≤ n
      → n < size_mod - 3
      → i + 3 * groups ≤ n
      → n < i + 3 * groups + 3
      → groups < fuel
      → update_stride add scale fuel n i a b ≡ some (update_groups groups i a b)
  unfolding update_stride update_groups
  update_stride-update_groups groups zero n i a b two fits inside last fuels = absurd (omega arith)
  update_stride-update_groups zero (suc fuel) n i a b two fits inside last fuels =
      let done : ltb i (less_two n) ≡ false = ground arith in rw done refl
  update_stride-update_groups (suc groups) (suc fuel) n i a b two fits inside last fuels =
      let more : ltb i (less_two n) ≡ true = ground arith in
      let bound : ltb (i + 2) n ≡ true = ground arith in
      let next : (i + 3) % size_mod ≡ i + 3 = omega arith in
      let rest =
        update_stride-update_groups groups fuel n (i + 3) a (stride_step add scale i a b) two fits
          (omega arith) (omega arith) (omega arith) in
      rw (more, bound, next) rest

  -- With two elements or more the loop ends within its arrays: the elements of the groups of
  -- three have one update, the last one or two none.
  pub update_stride_lem :
      (n : ℕ) (a b : ℕ → D)
      → 2 ≤ n
      → n < size_mod - 3
      → (b' : ℕ → D) × (update_stride add scale (n + 1) n 0 a b ≡ some b')
        × ((k : ℕ) → b' k ≡ (if ltb k (3 * (n / 3)) then add (b k) (scale (a k)) else b k))
  update_stride_lem n a b two fits =
      let groups = n / 3 in
      (
        update_groups groups 0 a b,
        update_stride-update_groups groups (n + 1) n 0 a b two fits (omega arith) (omega arith)
            (omega arith),
        λ k.
            if_cases (λ v. update_groups groups 0 a b k ≡ v) (ltb k (3 * groups))
              (λ inside. update_groups_inside groups 0 a b k (omega arith) (ground arith))
              (λ outside. update_groups_outside groups 0 a b k (ground arith)),
      )
