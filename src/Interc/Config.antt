-- ===== src/Interc/Config.antt =====
-- src/lib/interc/ldlib.c: `load_rules`, from the text of the configuration file.
pub mod Laws
pub mod RoundTrip
pub mod Printed
use kumf.Base.{
  ℕ, zero, suc, ◌+◌, ltb, leb, ◌==◌, if◌then◌else◌, Bool, true, false, ◌&&◌, ◌||◌, List, [], ◌∷◌,
  ◌++◌, Option, none, some, length, drop,
}
use kumf.Base.Int.{ℤ, pos, negsuc}
use kumf.CText.{
  codes, strip, scan_unsigned, scan_node, scan_word, atoi, text_eq, text_eq_upto, read_lines,
  c_string, ◌>>=◌,
}
use kumf.Interc.Types.{AddrRule, NameRule, SizeRule, Rules, max_addr_rules, max_name_rules}

-- `(strcmp(node_str, "local") == 0) ? -2 : atoi(node_str)`
unfoldable pub rule_node : List ℕ → ℤ
rule_node w = if text_eq w (codes "local") then negsuc 1 else atoi w

-- `sscanf(line, "0x%lx-0x%lx = %31s", …) == 3`
unfoldable pub scan_addr_rule : List ℕ → Option AddrRule
unfolding rule_node
scan_addr_rule line = do
  s ← strip (codes "0x") line
  (start, s) ← scan_unsigned 16 s
  s ← strip (codes "-0x") s
  (end, s) ← scan_unsigned 16 s
  w ← scan_node s
  some (record { start = start; end = end; node = rule_node w })

-- `sscanf(line + 9, "%zu = %31s", …) == 2`: the bound and the node
unfoldable pub scan_bound : List ℕ → Option (ℕ × ℤ)
unfolding rule_node
scan_bound s = do (bound, s) ← scan_unsigned 10 s; w ← scan_node s; some (bound, rule_node w)

-- `sscanf(line + 11, "%zu-%zu = %31s", …) == 3`
unfoldable pub scan_range : List ℕ → Option SizeRule
unfolding rule_node
scan_range s = do
  (low, s) ← scan_unsigned 10 s
  s ← strip (codes "-") s
  (high, s) ← scan_unsigned 10 s
  w ← scan_node s
  some (record { min_size = low; max_size = high; node = rule_node w })

-- `sscanf(line, "%255s = %31s", …) == 2`
unfoldable pub scan_name_rule : List ℕ → Option NameRule
unfolding rule_node
scan_name_rule line = do
  (pat, s) ← scan_word 255 line
  w ← scan_node s
  some (record { pattern_text = pat; node = rule_node w })

-- An array that is full takes no more.
unfoldable pub add_size_rule : Rules → Option SizeRule → Rules
add_size_rule rs none = rs
add_size_rule rs (some r) =
    if ltb (length rs.size_rules) max_name_rules
    then record rs { size_rules = rs.size_rules ++ r ∷ [] }
    else rs

unfoldable pub add_name_rule : Rules → Option NameRule → Rules
add_name_rule rs none = rs
add_name_rule rs (some r) =
    if ltb (length rs.name_rules) max_name_rules
    then record rs { name_rules = rs.name_rules ++ r ∷ [] }
    else rs

abbrev pub at_least : Option (ℕ × ℤ) → Option SizeRule
at_least none = none
at_least (some (n, node)) = some (record { min_size = n; max_size = 0; node = node })

abbrev pub at_most : Option (ℕ × ℤ) → Option SizeRule
at_most none = none
at_most (some (n, node)) = some (record { min_size = 0; max_size = n; node = node })

-- `line[0] == '#' || line[0] == '\n'`
abbrev pub is_skipped : List ℕ → Bool
is_skipped [] = false
is_skipped (c ∷ s) = c == 35 || c == 10

-- The branches for a line that is no address rule, or that finds their array full. `stale` is what
-- the line buffer holds behind the terminating 0, where `line + 9` begins in the first two.
unfoldable pub load_other : List ℕ → List ℕ → Rules → Rules
load_other stale line rs =
    if text_eq_upto 9 line (codes "size_gt:")
    then add_size_rule rs (at_least (scan_bound stale))
    else if text_eq_upto 9 line (codes "size_lt:")
    then add_size_rule rs (at_most (scan_bound stale))
    else if text_eq_upto 11 line (codes "size_range:")
    then add_size_rule rs (scan_range (drop 11 line))
    else add_name_rule rs (scan_name_rule line)

-- One round of the loop.
unfoldable pub load_line : List ℕ → List ℕ → Rules → Rules
load_line stale line rs = if is_skipped line then rs else elim (scan_addr_rule line) [
  | none ↦ load_other stale line rs
  | some r ↦
      if ltb (length rs.addr_rules) max_addr_rules
      then record rs { addr_rules = rs.addr_rules ++ r ∷ [] }
      else load_other stale line rs
]

-- The loop, over the lines and what the buffer holds behind each. The functions on text stop at the
-- first 0 of a line.
unfoldable pub load_lines : (List ℕ → List ℕ) → List (List ℕ) → Rules → Rules
load_lines stale [] rs = rs
load_lines stale (line ∷ lines) rs =
    load_lines stale lines (load_line (stale line) (c_string line) rs)

abbrev pub has_rules : Rules → Bool
has_rules rs = ltb 0 (length rs.addr_rules + length rs.size_rules + length rs.name_rules)

-- The configuration file as `fopen` and `fgets` give it: `none` if it cannot be opened.
pub record ConfFile : Type 0 where
  pub text : Option (List ℕ)
  pub stale : List ℕ → List ℕ

-- `fgets` reads 511 bytes at most, and a byte at least, so the length of the text is fuel enough.
unfoldable pub load_rules : ConfFile → Rules → Rules
load_rules conf rs = if rs.rules_loaded then rs else elim conf.text [
  | none ↦ record rs { rules_loaded = true; layer2_active = false }
  | some text ↦
      let loaded = load_lines conf.stale (read_lines 511 (length text) text) rs in
      record loaded { rules_loaded = true; layer2_active = has_rules loaded }
]

-- The static variables before the first call.
abbrev pub no_rules : Rules
no_rules = record {
  addr_rules = [];
  name_rules = [];
  size_rules = [];
  rules_loaded = false;
  layer2_active = false;
}
