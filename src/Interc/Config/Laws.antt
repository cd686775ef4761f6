-- ===== src/Interc/Config/Laws.antt =====
-- What `load_rules` makes of a configuration file.
use kumf.Base.{
  ℕ, ◌≤◌, ◌≡◌, refl, List, [], ◌∷◌, ◌++◌, Option, none, some, length, arith, length-append, drop,
  Option-cases, inl, inr,
}
use kumf.CText.{codes, strip, text_eq_upto, read_lines, c_string}
use kumf.Interc.Types.{NameRule, SizeRule, Rules, max_addr_rules, max_name_rules}
use kumf.Interc.Config.{
  scan_addr_rule, scan_bound, scan_range, scan_name_rule, add_size_rule, add_name_rule, load_other,
  load_line, load_lines, load_rules, ConfFile, at_least, at_most,
}

-- The static arrays are not overrun.
pub record IsBounded (rs : Rules) : Type 0 where
  pub addrs : length rs.addr_rules ≤ max_addr_rules
  pub sizes : length rs.size_rules ≤ max_name_rules
  pub names : length rs.name_rules ≤ max_name_rules

add_size_rule-IsBounded :
    (rs : Rules) (r : Option SizeRule) → IsBounded rs → IsBounded (add_size_rule rs r)
unfolding add_size_rule
add_size_rule-IsBounded rs none b = b
add_size_rule-IsBounded rs (some r) b = ground (arith, length-append rs.size_rules (r ∷ []))

add_name_rule-IsBounded :
    (rs : Rules) (r : Option NameRule) → IsBounded rs → IsBounded (add_name_rule rs r)
unfolding add_name_rule
add_name_rule-IsBounded rs none b = b
add_name_rule-IsBounded rs (some r) b = ground (arith, length-append rs.name_rules (r ∷ []))

load_other-IsBounded :
    (stale line : List ℕ) (rs : Rules) → IsBounded rs → IsBounded (load_other stale line rs)
unfolding load_other
load_other-IsBounded stale line rs b = ground (
  arith,
  add_size_rule-IsBounded rs (at_least (scan_bound stale)) b,
  add_size_rule-IsBounded rs (at_most (scan_bound stale)) b,
  add_size_rule-IsBounded rs (scan_range (drop 11 line)) b,
  add_name_rule-IsBounded rs (scan_name_rule line) b,
)

load_line-IsBounded :
    (stale line : List ℕ) (rs : Rules) → IsBounded rs → IsBounded (load_line stale line rs)
unfolding load_line
load_line-IsBounded stale line rs b = elim (Option-cases (scan_addr_rule line)) [
  | inl e ↦ rw (e, load_line) (ground (arith, load_other-IsBounded stale line rs b))
  | inr (r, e) ↦
      rw (e, load_line)
        (ground (arith, load_other-IsBounded stale line rs b, length-append rs.addr_rules (r ∷ [])))
]

load_lines-IsBounded :
    (stale : List ℕ → List ℕ) (lines : List (List ℕ)) (rs : Rules)
    → IsBounded rs
    → IsBounded (load_lines stale lines rs)
unfolding load_lines
load_lines-IsBounded stale [] rs b = b
load_lines-IsBounded stale (line ∷ lines) rs b =
    load_lines-IsBounded stale lines _ (load_line-IsBounded (stale line) (c_string line) rs b)

-- Whatever the configuration file holds, load_rules keeps the number of rules of each kind within
-- its static array.
pub load_rules-IsBounded :
    (conf : ConfFile) (rs : Rules) → IsBounded rs → IsBounded (load_rules conf rs)
unfolding load_rules
load_rules-IsBounded conf rs b = elim (Option-cases conf.text) [
  | inl e ↦ rw (e, load_rules) (ground arith)
  | inr (text, e) ↦
      rw (e, load_rules)
        (ground (arith, load_lines-IsBounded conf.stale (read_lines 511 (length text) text) rs b))
]

-- Once load_rules was called, a second call changes nothing, whatever the file holds by then.
pub load_rules_once :
    (conf later : ConfFile) (rs : Rules)
    → load_rules later (load_rules conf rs) ≡ load_rules conf rs
unfolding load_rules
load_rules_once conf later rs = ground arith

add_name_rule_sizes :
    (rs : Rules) (r : Option NameRule) → (add_name_rule rs r).size_rules ≡ rs.size_rules
unfolding add_name_rule
add_name_rule_sizes rs none = refl
add_name_rule_sizes rs (some r) = ground arith

-- A line that begins with size_gt: or size_lt: and goes on adds no size rule.
pub load_line_size_bound :
    (stale : List ℕ) (c : ℕ) (s : List ℕ) (rs : Rules)
    → ((load_line stale (codes "size_gt:" ++ c ∷ s) rs).size_rules ≡ rs.size_rules)
      × ((load_line stale (codes "size_lt:" ++ c ∷ s) rs).size_rules ≡ rs.size_rules)
unfolding load_line load_other scan_addr_rule text_eq_upto strip
load_line_size_bound stale c s rs = (add_name_rule_sizes rs _, add_name_rule_sizes rs _)
