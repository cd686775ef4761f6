-- ===== src/Interc/Match/First.antt =====
-- src/lib/interc/ldlib.c: the comments on `match_size`, `match_addr` and `resolve_node` as a
-- relation: the rule that decides is the first that the allocation is within.
use kumf.Base.{
  ℕ, ◌<◌, ◌≤◌, ◌⊎◌, ◌≡◌, true, false, Bool, Bool-cases, List, [], ◌∷◌, arith, inl, inr, sym, subst,
  leb, ltb, ◌==◌, ◌&&◌,
}
use kumf.Base.Int.{ℤ, negsuc, nonneg}
use kumf.Interc.Types.{AddrRule, SizeRule, Rules, Tls}
use kumf.Interc.Match.{
  Cpu, addr_matches, match_addr, size_matches, match_size, resolve_node, resolve_node_relative,
}

-- The bounds of a size rule, of which 0 is none; the upper one is not included.
abbrev pub WithinSize : ℕ → SizeRule → Type 0
WithinSize sz r = ((r.min_size ≡ 0) ⊎ (r.min_size ≤ sz)) × ((r.max_size ≡ 0) ⊎ (sz < r.max_size))

abbrev pub WithinAddr : ℕ → AddrRule → Type 0
WithinAddr addr r = (r.start ≤ addr) × (addr < r.end)

-- The node of the first rule that holds, or -1.
pub data Picks {R : Type 0} (Within : R → Type 0) (node_of : R → ℤ) : List R → ℤ → Type 0 where
  none_holds : Picks Within node_of [] (negsuc 0)
  first_holds : {r : R} {rs : List R} → Within r → Picks Within node_of (r ∷ rs) (node_of r)
  passed :
      {r : R} {rs : List R} {k : ℤ}
      → ¬ Within r
      → Picks Within node_of rs k
      → Picks Within node_of (r ∷ rs) k

-- The node for an allocation: size rules come before address rules, and a negative node is as none.
pub data Routed (rules : Rules) (caller sz : ℕ) : ℤ → Type 0 where
  inactive : rules.layer2_active ≡ false → Routed rules caller sz (negsuc 0)
  by_size :
      {k : ℤ}
      → rules.layer2_active ≡ true
      → Picks (WithinSize sz) (λ r. r.node) rules.size_rules k
      → nonneg k ≡ true
      → Routed rules caller sz k
  by_addr :
      {j k : ℤ}
      → rules.layer2_active ≡ true
      → Picks (WithinSize sz) (λ r. r.node) rules.size_rules j
      → nonneg j ≡ false
      → Picks (WithinAddr caller) (λ r. r.node) rules.addr_rules k
      → nonneg k ≡ true
      → Routed rules caller sz k
  unrouted :
      {j k : ℤ}
      → rules.layer2_active ≡ true
      → Picks (WithinSize sz) (λ r. r.node) rules.size_rules j
      → nonneg j ≡ false
      → Picks (WithinAddr caller) (λ r. r.node) rules.addr_rules k
      → nonneg k ≡ false
      → Routed rules caller sz (negsuc 0)

size_matches-WithinSize : (sz : ℕ) (r : SizeRule) → size_matches sz r ≡ true → WithinSize sz r
unfolding size_matches
size_matches-WithinSize sz r h = elim (Bool-cases (r.min_size == 0)) [
  | inl free ↦ elim (Bool-cases (r.max_size == 0)) [
    | inl free' ↦ (inl (ground arith), inl (ground arith))
    | inr bound' ↦ (inl (ground arith), inr (ground arith))
  ]
  | inr bound ↦ elim (Bool-cases (r.max_size == 0)) [
    | inl free' ↦ (inr (ground arith), inl (ground arith))
    | inr bound' ↦ (inr (ground arith), inr (ground arith))
  ]
]

WithinSize-size_matches : (sz : ℕ) (r : SizeRule) → WithinSize sz r → size_matches sz r ≡ true
unfolding size_matches
WithinSize-size_matches sz r (inl low, inl high) = ground arith
WithinSize-size_matches sz r (inl low, inr high) = ground arith
WithinSize-size_matches sz r (inr low, inl high) = ground arith
WithinSize-size_matches sz r (inr low, inr high) = ground arith

match_size-Picks :
    (sz : ℕ) (rs : List SizeRule) → Picks (WithinSize sz) (λ r. r.node) rs (match_size sz rs)
unfolding match_size
match_size-Picks sz [] = none_holds
match_size-Picks sz (r ∷ rs) = elim (Bool-cases (size_matches sz r)) [
  | inl hit ↦ rw hit (first_holds (size_matches-WithinSize sz r hit))
  | inr missed ↦
      rw missed (
        passed (λ w. absurd (cc (missed, WithinSize-size_matches sz r w))) (match_size-Picks sz rs))
]

match_addr-Picks :
    (addr : ℕ) (rs : List AddrRule) → Picks (WithinAddr addr) (λ r. r.node) rs (match_addr addr rs)
unfolding match_addr addr_matches
match_addr-Picks addr [] = none_holds
match_addr-Picks addr (r ∷ rs) = elim (Bool-cases (leb r.start addr && ltb addr r.end)) [
  | inl hit ↦ rw hit (first_holds (ground arith, ground arith))
  | inr missed ↦
      rw missed (passed (λ w. absurd (ground (arith, w.0, w.1))) (match_addr-Picks addr rs))
]

relative_nonneg :
    (cpu : Cpu) (tls : Tls) (k : ℤ) → nonneg k ≡ true → resolve_node_relative cpu tls k ≡ k
unfolding resolve_node_relative
relative_nonneg cpu tls k h = ground arith

module _ (cpu : Cpu) (rules : Rules) (caller sz : ℕ) (tls : Tls) (used : Bool) where
  abbrev answer : ℤ
  answer = (resolve_node cpu rules caller sz tls used).0

  answer_inactive : rules.layer2_active ≡ false → answer ≡ negsuc 0
  unfolding resolve_node
  answer_inactive off = ground arith

  answer_by_size :
      rules.layer2_active ≡ true
      → nonneg (match_size sz rules.size_rules) ≡ true
      → answer ≡ match_size sz rules.size_rules
  unfolding resolve_node
  answer_by_size on sized =
      ground (arith, relative_nonneg cpu tls (match_size sz rules.size_rules) sized)

  answer_by_addr :
      rules.layer2_active ≡ true
      → nonneg (match_size sz rules.size_rules) ≡ false
      → nonneg (match_addr caller rules.addr_rules) ≡ true
      → answer ≡ match_addr caller rules.addr_rules
  unfolding resolve_node
  answer_by_addr on unsized at =
      ground (arith, relative_nonneg cpu tls (match_addr caller rules.addr_rules) at)

  answer_unrouted :
      rules.layer2_active ≡ true
      → nonneg (match_size sz rules.size_rules) ≡ false
      → nonneg (match_addr caller rules.addr_rules) ≡ false
      → answer ≡ negsuc 0
  unfolding resolve_node
  answer_unrouted on unsized nowhere = ground arith

  -- resolve_node answers -1 where no rules are in force, else the node of the first size rule
  -- whose bounds the size is within, else that of the first address rule whose range the caller
  -- is within, where it is not negative, and -1 otherwise; the lower bounds are included and the
  -- upper ones are not, and a size bound of 0 is none.
  pub resolve_node-Routed : Routed rules caller sz (resolve_node cpu rules caller sz tls used).0
  resolve_node-Routed =
      let sizes = match_size-Picks sz rules.size_rules in
      let addrs = match_addr-Picks caller rules.addr_rules in
      elim (Bool-cases rules.layer2_active) [
        | inr off ↦ subst (Routed rules caller sz) (sym (answer_inactive off)) (inactive off)
        | inl on ↦ elim (Bool-cases (nonneg (match_size sz rules.size_rules))) [
          | inl sized ↦
              subst (Routed rules caller sz) (sym (answer_by_size on sized))
                (by_size on sizes sized)
          | inr unsized ↦ elim (Bool-cases (nonneg (match_addr caller rules.addr_rules))) [
            | inl at ↦
                subst (Routed rules caller sz) (sym (answer_by_addr on unsized at))
                  (by_addr on sizes unsized addrs at)
            | inr nowhere ↦
                subst (Routed rules caller sz) (sym (answer_unrouted on unsized nowhere))
                  (unrouted on sizes unsized addrs nowhere)
          ]
        ]
      ]
