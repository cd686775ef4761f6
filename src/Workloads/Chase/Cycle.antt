-- ===== src/Workloads/Chase/Cycle.antt =====
-- The permutation of the indices, and the walk along the links.
use kumf.Base.{
  ℕ, zero, suc, ◌+◌, ◌-◌, ◌%◌, ◌<◌, ◌≤◌, ◌≡◌, refl, ltb, ◌==◌, if◌then◌else◌, true, false, some,
  arith, Bool-cases, ap, sym, ◌∙◌, inl, inr,
}
use native.Mathlib.Nat.{mod-lt, mod-eq_of_lt, mod-add-mod, add-mod-mod, add-mod_right}
use kumf.Workloads.Chase.{identity, swap, shuffle, link, follow, permutation, chase_links}

-- The first `n` indices are permuted; `position` says where each stands.
pub record IsPermutation (n : ℕ) (next position : ℕ → ℕ) : Type 0 where
  pub bounded : (i : ℕ) → i < n → next i < n
  pub position_bounded : (j : ℕ) → j < n → position j < n
  pub there : (j : ℕ) → j < n → next (position j) ≡ j
  pub back : (i : ℕ) → i < n → position (next i) ≡ i

-- The exchange of two indices.
unfoldable exchange : ℕ → ℕ → ℕ → ℕ
exchange i j k = if j == k then i else if i == k then j else k

swap-exchange : (next : ℕ → ℕ) (i j k : ℕ) → swap next i j k ≡ next (exchange i j k)
unfolding exchange
swap-exchange next i j k = elim (Bool-cases (j == k)) [
  | inl at_j ↦ rw at_j refl
  | inr other ↦ elim (Bool-cases (i == k)) [
    | inl at_i ↦ rw (other, at_i) refl
    | inr free ↦ rw (other, free) refl
  ]
]

exchange-exchange : (i j k : ℕ) → exchange i j (exchange i j k) ≡ k
unfolding exchange
exchange-exchange i j k = ground arith

exchange-bounded : (n i j k : ℕ) → i < n → j < n → k < n → exchange i j k < n
unfolding exchange
exchange-bounded n i j k hi hj hk = ground arith

swap-IsPermutation :
    (n i j : ℕ) (next position : ℕ → ℕ)
    → i < n
    → j < n
    → IsPermutation n next position
    → IsPermutation n (swap next i j) (λ v. exchange i j (position v))
swap-IsPermutation n i j next position hi hj h = record {
  bounded = λ k hk. rw (swap-exchange next i j k) (h.bounded _ (exchange-bounded n i j k hi hj hk));
  position_bounded = λ v hv. exchange-bounded n i j (position v) hi hj (h.position_bounded v hv);
  there = λ v hv.
      swap-exchange next i j (exchange i j (position v))
      ∙ ap next (exchange-exchange i j (position v))
      ∙ h.there v hv;
  back = λ k hk.
      ap (λ v. exchange i j (position v)) (swap-exchange next i j k)
      ∙ ap (exchange i j) (h.back _ (exchange-bounded n i j k hi hj hk))
      ∙ exchange-exchange i j k;
}

shuffle-IsPermutation :
    (rand_r : ℕ → ℕ × ℕ) (n i seed : ℕ) (next position : ℕ → ℕ)
    → i < n
    → IsPermutation n next position
    → (position' : ℕ → ℕ) × IsPermutation n (shuffle rand_r i seed next) position'
unfolding shuffle
shuffle-IsPermutation rand_r n zero seed next position hi h = (position, h)
shuffle-IsPermutation rand_r n (suc i) seed next position hi h =
    let j = (rand_r seed).0 % (suc i + 1) in
    let hj : j < n = omega arith in
    shuffle-IsPermutation rand_r n i (rand_r seed).1 (swap next (suc i) j) _ (omega arith)
      (swap-IsPermutation n (suc i) j next position hi hj h)

-- Whatever the numbers drawn are, the shuffle of one element or more is a permutation.
pub permutation-IsPermutation :
    (rand_r : ℕ → ℕ × ℕ) (n : ℕ)
    → 1 ≤ n
    → (position : ℕ → ℕ) × IsPermutation n (permutation rand_r n) position
unfolding permutation
permutation-IsPermutation rand_r n some_data =
    shuffle-IsPermutation rand_r n (n - 1) 123 identity identity (omega arith) record {
      bounded = λ i h. h;
      position_bounded = λ j h. h;
      there = λ j h. refl;
      back = λ i h. refl;
    }

link_earlier :
    (left i n : ℕ) (next position chase : ℕ → ℕ) (k : ℕ)
    → IsPermutation n next position
    → k < i
    → i + left ≤ n
    → link left i n next chase (next k) ≡ chase (next k)
unfolding link
link_earlier zero i n next position chase k h before inside = refl
link_earlier (suc left) i n next position chase k h before inside =
    let apart : (next i == next k) ≡ false = elim (Bool-cases (next i == next k)) [
      | inl e ↦
          let same : next i ≡ next k = ground arith in
          let collide : i ≡ k =
            sym (h.back i (omega arith)) ∙ ap position same ∙ h.back k (omega arith) in
          absurd (omega arith)
      | inr e ↦ e
    ] in
    link_earlier left (suc i) n next position _ k h (omega arith) (omega arith) ∙ rw apart refl

link_at :
    (left i n : ℕ) (next position chase : ℕ → ℕ) (k : ℕ)
    → IsPermutation n next position
    → i ≤ k
    → k < i + left
    → i + left ≤ n
    → link left i n next chase (next k) ≡ next ((k + 1) % n)
unfolding link
link_at zero i n next position chase k h from until inside = absurd (omega arith)
link_at (suc left) i n next position chase k h from until inside = elim (Bool-cases (k == i)) [
  | inr later ↦
      link_at left (suc i) n next position _ k h (ground arith) (omega arith) (omega arith)
  | inl here ↦
      let same : k ≡ i = ground arith in
      let hit : (next i == next i) ≡ true = ground arith in
      rw same
        (link_earlier left (suc i) n next position _ i h (omega arith) (omega arith) ∙ rw hit refl)
]

-- The walk from the element in place `i`.
follow_lem :
    (left i n : ℕ) (next position chase : ℕ → ℕ)
    → IsPermutation n next position
    → ((k : ℕ) → k < n → chase (next k) ≡ next ((k + 1) % n))
    → i < n
    → follow n left chase (next i) ≡ some (next ((i + left) % n))
unfolding follow
follow_lem zero i n next position chase h linked hi =
    let here : i + 0 ≡ i = omega arith in rw (here, mod-eq_of_lt hi) refl
follow_lem (suc left) i n next position chase h linked hi =
    let inside : ltb (next i) n ≡ true = let b = h.bounded i hi in ground arith in
    let rest =
      follow_lem left ((i + 1) % n) n next position chase h linked (mod-lt (i + 1) (omega arith)) in
    let wrap : ((i + 1) % n + left) % n ≡ (i + suc left) % n =
      let shift : i + 1 + left ≡ i + suc left = omega arith in
      mod-add-mod (i + 1) n left ∙ ap (λ m. m % n) shift in
    rw (inside, linked i hi, rest, wrap) refl

-- Whatever rand_r returns and the new array holds, the links over n elements, one at least, are a
-- single cycle: a walk of n links from index 0 stays in the array and is at index 0 again, and it
-- meets each index within less than n links.
pub chase_links-cycle :
    (rand_r : ℕ → ℕ × ℕ) (n : ℕ) (unset : ℕ → ℕ)
    → 1 ≤ n
    → let chase = chase_links rand_r n unset in
      (follow n n chase 0 ≡ some 0)
      × ((j : ℕ) → j < n → (k : ℕ) × (k < n) × (follow n k chase 0 ≡ some j))
unfolding chase_links
chase_links-cycle rand_r n unset some_data =
    let (position, h) = permutation-IsPermutation rand_r n some_data in
    let next = permutation rand_r n in
    let chase = link n 0 n next unset in
    let linked : (k : ℕ) → k < n → chase (next k) ≡ next ((k + 1) % n) =
      λ k hk. link_at n 0 n next position unset k h (omega arith) (omega arith) (omega arith) in
    let start = position 0 in
    let start_inside = h.position_bounded 0 some_data in
    let walk : (k : ℕ) → follow n k chase 0 ≡ some (next ((start + k) % n)) = λ k.
      rw (h.there 0 some_data) at
        (follow_lem k start n next position chase h linked start_inside) in
    let round : next ((start + n) % n) ≡ 0 =
      ap next (add-mod_right start n ∙ mod-eq_of_lt start_inside) ∙ h.there 0 some_data in
    (
      walk n ∙ ap some round,
      λ j hj.
          let place = position j in
          let k = (place + n - start) % n in
          let place_inside = h.position_bounded j hj in
          let back : start + (place + n - start) ≡ place + n = omega arith in
          let at : (start + k) % n ≡ place =
            add-mod-mod start (place + n - start) n
            ∙ ap (λ m. m % n) back
            ∙ add-mod_right place n
            ∙ mod-eq_of_lt place_inside in
          (
            k,
            mod-lt (place + n - start) (omega arith),
            walk k ∙ ap some (ap next at ∙ h.there j hj),
          ),
    )
