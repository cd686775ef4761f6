-- ===== src/Workloads/Stream/Results.antt =====
-- The results of workloads/kumf_stream.c, for each size.
use kumf.Base.{
  ℕ, zero, suc, ◌+◌, ◌-◌, ◌*◌, ◌/◌, ◌<◌, ◌≤◌, ◌≡◌, refl, ltb, leb, if◌then◌else◌, ◌==◌, true, false,
  some, arith, Bool-cases, ap, ◌∙◌, inl, inr, ◌||◌, sym,
}
use kumf.Workloads.Chase.Cycle.{chase_links-cycle}
use kumf.Workloads.Doubles.{Doubles}
use kumf.Workloads.Stream.{
  Output, out_of_bounds, finished, n_doubles, initial, write_from, zero_point, scale, update_runs,
  tests, stream,
}
use kumf.Workloads.Stride.{size_mod, sum_from, sum_random, sum_stride, random_indices}
use kumf.Workloads.Stride.Laws.{
  update_stride_lem, sum_random-random_indices, group_sum, sum_stride-group_sum,
}

-- The size in bytes wraps: there are no elements, or more than one.
n_doubles_bounds :
    (mb : ℕ) → ((n_doubles mb == 0) ≡ false → 2 ≤ n_doubles mb) × (n_doubles mb < size_mod - 3)
unfolding n_doubles
n_doubles_bounds mb = (λ some_left. ground arith, omega arith)

module _ (ops : Doubles) where
  write_from_outside :
      (left i : ℕ) (b : ℕ → ops.double) (k : ℕ)
      → (ltb k i || leb (i + left) k) ≡ true
      → write_from ops left i b k ≡ b k
  unfolding write_from
  write_from_outside zero i b k outside = refl
  write_from_outside (suc left) i b k outside =
      let other : (i == k) ≡ false = ground arith in
      write_from_outside left (suc i) _ k (ground arith) ∙ rw other refl

  write_from_inside :
      (left i : ℕ) (b : ℕ → ops.double) (k : ℕ)
      → i ≤ k
      → k < i + left
      → write_from ops left i b k ≡ ops.mul (ops.of_int k) (ops.literal 5 1)
  unfolding write_from
  write_from_inside zero i b k from until = absurd (omega arith)
  write_from_inside (suc left) i b k from until = elim (Bool-cases (i == k)) [
    | inl here ↦
        let same : k ≡ i = ground arith in
        write_from_outside left (suc i) _ k (ground arith)
        ∙ rw here (ap (λ x. ops.mul (ops.of_int x) (ops.literal 5 1)) (sym same))
    | inr later ↦ write_from_inside left (suc i) _ k (ground arith) (omega arith)
  ]

  -- `x += v`, so many times.
  abbrev pub added : ℕ → ops.double → ops.double → ops.double
  added zero v x = x
  added (suc times) v x = added times v (ops.add x v)

  update_runs_lem :
      (runs n : ℕ) (a b : ℕ → ops.double)
      → 2 ≤ n
      → n < size_mod - 3
      → (b' : ℕ → ops.double) × (update_runs ops runs n a b ≡ some b')
        × ((k : ℕ)
            → b' k ≡ (if ltb k (3 * (n / 3)) then added runs (scale ops (a k)) (b k) else b k))
  unfolding update_runs
  update_runs_lem zero n a b two fits = (b, refl, λ k. ground arith)
  update_runs_lem (suc runs) n a b two fits =
      let (b1, ran, first) = update_stride_lem ops.add (scale ops) n a b two fits in
      let (b', ran', rest) = update_runs_lem runs n a b1 two fits in
      (
        b',
        rw ran ran',
        λ k. rest k ∙ elim (Bool-cases (ltb k (3 * (n / 3)))) [
          | inl inside ↦ rw inside (ap (added runs (scale ops (a k))) (first k ∙ rw inside refl))
          | inr outside ↦ rw outside (first k ∙ rw outside refl)
        ],
      )

  stream_inside :
      (rand_r : ℕ → ℕ × ℕ) (mb : ℕ) (unset_indices unset_chase : ℕ → ℕ)
      → 10 ≤ mb
      → (n_doubles mb == 0) ≡ false
      → let n = n_doubles mb in
        let a = initial ops 10 in
        (o : Output ops.double) × (stream ops rand_r
            (λ bytes. true)
            (some mb)
            unset_indices
            unset_chase
          ≡ finished o)
        × (o.sequential_sum ≡ sum_from ops.add n 0 a (zero_point ops))
        × (o.random_sum
            ≡ sum_from ops.add n 0
                (λ k. a (random_indices rand_r n n 0 42 unset_indices k))
                (zero_point ops))
        × (o.stride_sum ≡ group_sum ops.add (n / 3) 0 a (zero_point ops))
        × (o.final ≡ 0)
        × ((k : ℕ)
            → k < n
            → let written = ops.mul (ops.of_int k) (ops.literal 5 1) in
              o.b k ≡ (if ltb k (3 * (n / 3)) then added 3 (scale ops (a k)) written else written))
  unfolding stream tests
  stream_inside rand_r mb unset_indices unset_chase enough some_left =
      let n = n_doubles mb in
      let a = initial ops 10 in
      let (more, fits) = n_doubles_bounds mb in
      let two = more some_left in
      let stride =
        sum_stride-group_sum ops.add (n / 3) (n + 1) n 0 a (zero_point ops) (omega arith)
          (omega arith) (omega arith) (omega arith) (omega arith) in
      let random = sum_random-random_indices ops.add rand_r n 42 unset_indices a (zero_point ops) in
      let (b', ran, updated) =
        update_runs_lem 3 n a (write_from ops n 0 (initial ops 20)) (omega arith) (omega arith) in
      let (walk, all) = chase_links-cycle rand_r n unset_chase (omega arith) in
      let known : ltb mb 10 ≡ false = ground arith in
      (
        record {
          sequential_sum = sum_from ops.add n 0 a (zero_point ops);
          random_sum =
              sum_from ops.add n 0 (λ k. a (random_indices rand_r n n 0 42 unset_indices k))
                (zero_point ops);
          stride_sum = group_sum ops.add (n / 3) 0 a (zero_point ops);
          b = b';
          final = 0;
        },
        rw (known, random, stride, ran, walk) refl,
        refl,
        refl,
        refl,
        refl,
        λ k inside.
            updated k
            ∙ ap (λ w. if ltb k (3 * (n / 3)) then added 3 (scale ops (a k)) w else w)
                (write_from_inside n 0 (initial ops 20) k (omega arith) (omega arith)),
      )

  -- With a size of 10 MB or more and memory for the arrays, the program leaves its arrays if the
  -- size in bytes wraps to no elements, and else stays within them and prints the sums of all
  -- elements, of the drawn ones and of the groups of three, and 0 as the end of the chase; an
  -- element that it wrote has three updates if it stands in a group of three, and none else.
  pub stream_results :
      (rand_r : ℕ → ℕ × ℕ) (mb : ℕ) (unset_indices unset_chase : ℕ → ℕ)
      → 10 ≤ mb
      → let n = n_doubles mb in
        let a = initial ops 10 in
        (o : Output ops.double) × (stream ops rand_r
            (λ bytes. true)
            (some mb)
            unset_indices
            unset_chase
          ≡ (if n_doubles mb == 0 then out_of_bounds else finished o))
        × (o.sequential_sum ≡ sum_from ops.add n 0 a (zero_point ops))
        × (o.random_sum
            ≡ sum_from ops.add n 0
                (λ k. a (random_indices rand_r n n 0 42 unset_indices k))
                (zero_point ops))
        × (o.stride_sum ≡ group_sum ops.add (n / 3) 0 a (zero_point ops))
        × (o.final ≡ 0)
        × ((k : ℕ)
            → k < n
            → let written = ops.mul (ops.of_int k) (ops.literal 5 1) in
              o.b k ≡ (if ltb k (3 * (n / 3)) then added 3 (scale ops (a k)) written else written))
  unfolding stream tests sum_random sum_stride
  stream_results rand_r mb unset_indices unset_chase enough =
      let n = n_doubles mb in
      let a = initial ops 10 in
      elim (Bool-cases (n == 0)) [
        | inr some_left ↦
            rw some_left (stream_inside rand_r mb unset_indices unset_chase enough some_left)
        | inl none_left ↦
            let known : ltb mb 10 ≡ false = ground arith in
            let no_elements : n ≡ 0 = ground arith in
            (
              record {
                sequential_sum = sum_from ops.add n 0 a (zero_point ops);
                random_sum =
                    sum_from ops.add n 0 (λ k. a (random_indices rand_r n n 0 42 unset_indices k))
                      (zero_point ops);
                stride_sum = group_sum ops.add (n / 3) 0 a (zero_point ops);
                b = initial ops 20;
                final = 0;
              },
              rw (none_left, known, no_elements) refl,
              refl,
              refl,
              refl,
              refl,
              λ k inside. absurd (omega arith),
            )
      ]
