-- ===== src/Interc/Alloc/Configured.antt =====
-- An allocation under the rules of a configuration file.
use kumf.Base.{
  ℕ, ◌≤◌, ◌<◌, ◌≡◌, refl, ◌∙◌, ◌≢◌, true, false, List, [], ◌∷◌, ◌++◌, map, some, length, All, arith,
  ap, ltb, length-append,
}
use kumf.Base.Int.{nonneg}
use kumf.CText.Lines.{lines_text}
use kumf.Interc.Config.{rule_node, load_rules, no_rules}
use kumf.Interc.Config.RoundTrip.{Entry, for_addrs, IsEntry}
use kumf.Interc.Config.Printed.{
  body, addr_rules_of, size_rules_of, addr_rules_of-append, load_rules_printed,
}
use kumf.Interc.Match.{match_size, addr_matches}
use kumf.Interc.Match.Laws.{match_addr-append, routed_to}
use kumf.Interc.Types.{passive, route_threshold, max_addr_rules, AddrRule, Rules}
use kumf.Interc.Alloc.{State, Env, malloc}
use kumf.Interc.Alloc.Branches.{malloc_routed}

abbrev pub addr_rule : ℕ → ℕ → List ℕ → AddrRule
addr_rule start end w = record { start = start; end = end; node = rule_node w }

-- What a file names for a caller: the entry that stands first of those for addresses round it.
pub record Names (before after : List Entry) (start end : ℕ) (w : List ℕ) (caller : ℕ)
    : Type 0 where
  pub entries : All IsEntry (before ++ for_addrs start end w ∷ after)
  pub few : length (addr_rules_of (before ++ for_addrs start end w ∷ after)) ≤ max_addr_rules
  pub no_sizes : size_rules_of (before ++ for_addrs start end w ∷ after) ≡ []
  pub earlier : All (λ r. addr_matches caller r ≡ false) (addr_rules_of before)
  pub contains : addr_matches caller (addr_rule start end w) ≡ true
  pub at_node : nonneg (rule_node w) ≡ true

some_entry : (before after : List Entry) (e : Entry) → ltb 0 (length (before ++ e ∷ after)) ≡ true
some_entry before after e = ground (arith, length-append before (e ∷ after))

-- With address rules alone, the first that contains the caller names the node.
routed_by_addr :
    (rs : Rules) (before after : List AddrRule) (r : AddrRule) (caller sz : ℕ)
    → rs.layer2_active ≡ true
    → rs.size_rules ≡ []
    → rs.addr_rules ≡ before ++ r ∷ after
    → All (λ q. addr_matches caller q ≡ false) before
    → addr_matches caller r ≡ true
    → nonneg r.node ≡ true
    → routed_to rs caller sz ≡ r.node
unfolding routed_to match_size
routed_by_addr rs before after r caller sz active no_sizes addrs earlier contains at_node =
    let first = match_addr-append caller before after r earlier contains in
    rw (active, no_sizes, addrs, first) (rw at_node refl)

module _ {W : Type 0} (env : Env W) where
  open env use {libc, conf}

  -- Where the rules in force are those that load_rules reads from a file of printed address
  -- rules, the bounds below 2 ^ 64 and each node a word of 1 to 31 bytes, a malloc of more than
  -- the threshold, in every mode but the passive one, from a caller within the range of a rule
  -- whose node is not negative, and of none before it, returns the block that libnuma gives on
  -- that rule's node, if it gives one.
  pub configured_malloc :
      (before after : List Entry) (start end : ℕ) (w : List ℕ) (caller sz : ℕ) (s : State W)
      → Names before after start end w caller
      → conf.text ≡ some (lines_text (map body (before ++ for_addrs start end w ∷ after)))
      → s.rules ≡ load_rules conf no_rules
      → s.mode ≢ passive
      → route_threshold < sz
      → (libc.numa_alloc_onnode sz (rule_node w) s.world).0 ≢ 0
      → (malloc env caller sz s).0 ≡ (libc.numa_alloc_onnode sz (rule_node w) s.world).0
  configured_malloc before after start end w caller sz s names text loaded on large got =
      let es = before ++ for_addrs start end w ∷ after in
      let rules =
        loaded
        ∙ load_rules_printed conf es text names.entries names.few
            (rw names.no_sizes (omega arith)) in
      let active : s.rules.layer2_active ≡ true =
        ap (λ r. r.layer2_active) rules ∙ some_entry before after (for_addrs start end w) in
      malloc_routed env caller sz s (rule_node w) on (ap (λ r. r.rules_loaded) rules) active large
        (routed_by_addr s.rules (addr_rules_of before) (addr_rules_of after) (addr_rule start end w)
          caller sz active (ap (λ r. r.size_rules) rules ∙ names.no_sizes)
          (ap (λ r. r.addr_rules) rules
            ∙ addr_rules_of-append before (for_addrs start end w ∷ after))
          names.earlier names.contains names.at_node)
        names.at_node got
