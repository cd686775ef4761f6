-- ===== src/Interc/Topology/Laws.antt =====
-- `is_cross_socket` decides whether some pair of nodes is more than twice as far apart as some
-- other pair.
use kumf.Base.{
  ℕ, suc, ◌*◌, ◌^◌, ◌<◌, ◌≤◌, ◌≡◌, refl, ◌↔◌, ◌⊎◌, inl, inr, leb, Bool, true, false, List, [], ◌∷◌,
  ◌++◌, length, All, All-append, some, arith, map, ltb,
}
use kumf.Base.Int.{ℤ}
use kumf.Interc.Topology.{
  Numa, see, see_from, see_pairs, is_cross_socket, int_max, compare_ends, row_width, cell_width,
  rows_fit, reports,
}

abbrev pub In : ℕ → List ℕ → Type 0
In d [] = ⊥
In d (x ∷ xs) = (d ≡ x) ⊎ In d xs

-- The distance of every pair of nodes, the earlier one first.
unfoldable pub distances : Numa → List ℤ → List ℕ
distances numa [] = []
distances numa (n ∷ ns) = map (numa.distance n) ns ++ distances numa ns

unfoldable see_all : List ℕ → ℕ × ℕ → ℕ × ℕ
see_all [] seen = seen
see_all (d ∷ ds) seen = see_all ds (see d seen)

see_all-append :
    (xs ys : List ℕ) (seen : ℕ × ℕ) → see_all (xs ++ ys) seen ≡ see_all ys (see_all xs seen)
unfolding see_all
see_all-append [] ys seen = refl
see_all-append (x ∷ xs) ys seen = see_all-append xs ys (see x seen)

see_from-all :
    (numa : Numa) (n : ℤ) (ms : List ℤ) (seen : ℕ × ℕ)
    → see_from numa n ms seen ≡ see_all (map (numa.distance n) ms) seen
unfolding see_from see_all
see_from-all numa n [] seen = refl
see_from-all numa n (m ∷ ms) seen = see_from-all numa n ms (see (numa.distance n m) seen)

see_pairs-all :
    (numa : Numa) (ns : List ℤ) (seen : ℕ × ℕ)
    → see_pairs numa ns seen ≡ see_all (distances numa ns) seen
unfolding see_pairs see_all distances
see_pairs-all numa [] seen = refl
see_pairs-all numa (n ∷ ns) seen =
    rw
      (
        see_from-all numa n ns seen,
        see_all-append (map (numa.distance n) ns) (distances numa ns) seen,
      )
      (see_pairs-all numa ns _)

-- The loops end with the least and the greatest distance.
record Extremes (ds : List ℕ) (low high : ℕ) (r : ℕ × ℕ) : Type 0 where
  low_le : r.0 ≤ low
  high_le : high ≤ r.1
  low_in : (r.0 ≡ low) ⊎ In r.0 ds
  high_in : (r.1 ≡ high) ⊎ In r.1 ds
  bounds : All (λ d. (r.0 ≤ d) × (d ≤ r.1)) ds

see_all-Extremes :
    (ds : List ℕ) (low high : ℕ)
    → All (λ d. 0 < d) ds
    → Extremes ds low high (see_all ds (low, high))
unfolding see_all see
see_all-Extremes [] low high h = ground arith
see_all-Extremes (d ∷ ds) low high h =
    let rest = see_all-Extremes ds (see d (low, high)).0 (see d (low, high)).1 h.1 in
    record {
      low_le = ground (arith, rest.low_le);
      high_le = ground (arith, rest.high_le);
      low_in = ground (arith, rest.low_in);
      high_in = ground (arith, rest.high_in);
      bounds = ((ground (arith, rest.low_le), ground (arith, rest.high_le)), rest.bounds);
    }

between_ends :
    (d low high : ℕ) (ds : List ℕ)
    → All (λ x. (low ≤ x) × (x ≤ high)) ds
    → In d ds
    → (low ≤ d) × (d ≤ high)
between_ends d low high [] b i = absurd i
between_ends d low high (x ∷ ds) b (inl e) = omega arith
between_ends d low high (x ∷ ds) b (inr i) = between_ends d low high ds b.1 i

abbrev Known : List ℕ → Type 0
Known = All (λ d. (0 < d) × (d < 2 ^ 30))

Known-pos : (ds : List ℕ) → Known ds → All (λ d. 0 < d) ds
Known-pos [] h = tt
Known-pos (d ∷ ds) h = (h.0.0, Known-pos ds h.1)

SomePair : List ℕ → Type 0
SomePair ds = (near far : ℕ) × In near ds × In far ds × (near * 2 < far)

far_apart_iff :
    (d : ℕ) (ds : List ℕ)
    → Known (d ∷ ds)
    → (compare_ends (see_all (d ∷ ds) (int_max, 0)) ≡ some true) ↔ SomePair (d ∷ ds)
unfolding SomePair compare_ends
far_apart_iff d ds known =
    let r = see_all (d ∷ ds) (int_max, 0) in
    let ext = see_all-Extremes (d ∷ ds) int_max 0 (Known-pos (d ∷ ds) known) in
    let small : ltb int_max (r.0 * 2) ≡ false = ground (arith, ext.bounds.0.0, known.0) in
    (
      λ crosses.
          let wide : r.0 * 2 < r.1 = ground (arith, small) in
          (
            r.0,
            r.1,
            elim ext.low_in [ inl e ↦ absurd (omega arith) | inr i ↦ i ],
            elim ext.high_in [ inl e ↦ absurd (omega arith) | inr i ↦ i ],
            wide,
          ),
      λ pair.
          let low = between_ends pair.0 r.0 r.1 (d ∷ ds) ext.bounds pair.2 in
          let high = between_ends pair.1 r.0 r.1 (d ∷ ds) ext.bounds pair.3 in
          ground (arith, small),
    )

two_or_more : (k : ℕ) → leb (suc (suc k)) 1 ≡ false
two_or_more k = ground arith

-- Where every distance between two configured nodes is known and below 2 ^ 30, is_cross_socket
-- answers yes if and only if some pair of nodes is more than twice as far apart as another.
pub is_cross_socket_iff :
    (numa : Numa) (nodes : List ℤ)
    → All (λ d. (0 < d) × (d < 2 ^ 30)) (distances numa nodes)
    → (is_cross_socket numa nodes ≡ some true) ↔ (
        (near far : ℕ) × In near (distances numa nodes)
        × In far (distances numa nodes)
        × (near * 2 < far))
unfolding is_cross_socket distances SomePair
is_cross_socket_iff numa [] known = (λ e. cc, λ pair. absurd pair.2)
is_cross_socket_iff numa (n ∷ []) known = (λ e. cc, λ pair. absurd pair.2)
is_cross_socket_iff numa (n ∷ m ∷ ns) known =
    rw (two_or_more (length ns), see_pairs-all numa (n ∷ m ∷ ns) (int_max, 0))
      (far_apart_iff (numa.distance n m) (map (numa.distance n) ns ++ distances numa (m ∷ ns))
        known)

compare_ends-defined :
    (d : ℕ) (ds : List ℕ)
    → Known (d ∷ ds)
    → (b : Bool) × (compare_ends (see_all (d ∷ ds) (int_max, 0)) ≡ some b)
unfolding compare_ends
compare_ends-defined d ds known =
    let r = see_all (d ∷ ds) (int_max, 0) in
    let ext = see_all-Extremes (d ∷ ds) int_max 0 (Known-pos (d ∷ ds) known) in
    let small : ltb int_max (r.0 * 2) ≡ false = ground (arith, ext.bounds.0.0, known.0) in
    (ltb (r.0 * 2) r.1, rw small refl)

-- There is an answer where the distances are known.
pub is_cross_socket-defined :
    (numa : Numa) (nodes : List ℤ)
    → All (λ d. (0 < d) × (d < 2 ^ 30)) (distances numa nodes)
    → (b : Bool) × (is_cross_socket numa nodes ≡ some b)
unfolding is_cross_socket distances
is_cross_socket-defined numa [] known = (false, refl)
is_cross_socket-defined numa (n ∷ []) known = (false, refl)
is_cross_socket-defined numa (n ∷ m ∷ ns) known =
    rw (two_or_more (length ns), see_pairs-all numa (n ∷ m ∷ ns) (int_max, 0))
      (compare_ends-defined (numa.distance n m)
        (map (numa.distance n) ns ++ distances numa (m ∷ ns)) known)

module _ (numa : Numa) (IsNode : ℤ → Type 0)
    (near : (n m : ℤ)
      → IsNode n
      → IsNode m
      → (0 < numa.distance n m) × (numa.distance n m < 10000)) where
  known_from :
      (n : ℤ) (ms : List ℤ)
      → IsNode n
      → All IsNode ms
      → All (λ d. (0 < d) × (d < 2 ^ 30)) (map (numa.distance n) ms)
  known_from n [] h hs = tt
  known_from n (m ∷ ms) h hs =
      let (low, high) = near n m h hs.0 in ((omega arith, omega arith), known_from n ms h hs.1)

  pub distances-known :
      (ns : List ℤ) → All IsNode ns → All (λ d. (0 < d) × (d < 2 ^ 30)) (distances numa ns)
  unfolding distances
  distances-known [] h = tt
  distances-known (n ∷ ns) h =
      All-append (λ d. (0 < d) × (d < 2 ^ 30)) (map (numa.distance n) ns) (distances numa ns)
        (known_from n ns h.0 h.1) (distances-known ns h.1)

  row_width_bound :
      (n : ℤ) (ms : List ℤ) → IsNode n → All IsNode ms → row_width numa n ms ≤ 4 * length ms
  unfolding row_width cell_width
  row_width_bound n [] h hs = omega arith
  row_width_bound n (m ∷ ms) h hs = ground (arith, near n m h hs.0, row_width_bound n ms h hs.1)

  rows_fit_few :
      (nodes ns : List ℤ)
      → length nodes < 64
      → All IsNode nodes
      → All IsNode ns
      → rows_fit numa nodes ns ≡ true
  unfolding rows_fit
  rows_fit_few nodes [] few hs h = refl
  rows_fit_few nodes (n ∷ ns) few hs h =
      ground (arith, row_width_bound n nodes h.0 hs, rows_fit_few nodes ns few hs h.1)

  pub reports_few :
      (nodes : List ℤ) → length nodes < 64 → All IsNode nodes → reports numa nodes ≡ true
  unfolding reports
  reports_few nodes few h =
      let (b, e) = is_cross_socket-defined numa nodes (distances-known nodes h) in
      let fits = rows_fit_few nodes nodes few h h in ground arith
