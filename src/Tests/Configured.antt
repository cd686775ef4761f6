-- ===== src/Tests/Configured.antt =====
-- An allocation under the rules of a configuration file, on the small machine.
use kumf.Base.{ℕ, ◌≡◌, refl, true, false, ◌||◌, ◌==◌, List, [], ◌∷◌, map, some, arith}
use kumf.Base.Int.{nonneg, signed32}
use kumf.CText.{
  codes, is_space, text_eq, atoi, read_sign, skip_space, read_digits, is_digit, digit_value,
}
use kumf.CText.Lines.{lines_text}
use kumf.Interc.Alloc.Configured.{Names}
use kumf.Interc.Config.{ConfFile, load_rules, no_rules, rule_node}
use kumf.Interc.Config.RoundTrip.{Entry, for_addrs, IsNode}
use kumf.Interc.Config.Printed.{body, addr_rules_of, size_rules_of, load_rules_printed}
use kumf.Interc.Match.{addr_matches}

-- A file of two lines, `0x10-0x20 = 1` and `0x1000-0x2000 = 0`.
abbrev pub first_line : Entry
first_line = for_addrs 16 32 (codes "1")

abbrev named_lines : List Entry
named_lines = first_line ∷ for_addrs 4096 8192 (codes "0") ∷ []

digits_solid : (c : ℕ) → (c == 48) || (c == 49) ≡ true → is_space c ≡ false
unfolding is_space
digits_solid c h = ground arith

one-IsNode : IsNode (codes "1")
one-IsNode = record {
  solid = (digits_solid 49 refl, tt);
  no_zero = (refl, tt);
  some_byte = omega arith;
  short = omega arith;
}

zero-IsNode : IsNode (codes "0")
zero-IsNode = record {
  solid = (digits_solid 48 refl, tt);
  no_zero = (refl, tt);
  some_byte = omega arith;
  short = omega arith;
}

at_zero : nonneg (rule_node (codes "0")) ≡ true
unfolding rule_node text_eq atoi read_sign skip_space is_space read_digits is_digit digit_value
    signed32
at_zero = refl

pub lines-Names : Names (first_line ∷ []) [] 4096 8192 (codes "0") 5000
unfolding addr_matches
lines-Names = record {
  entries = ((omega arith, omega arith, one-IsNode), ((omega arith, omega arith, zero-IsNode), tt));
  few = omega arith;
  no_sizes = refl;
  earlier = (refl, tt);
  contains = refl;
  at_node = at_zero;
}

abbrev pub line_file : ConfFile
line_file = record { text = some (lines_text (map body named_lines)); stale = λ line. [] }

load_rules_printed_example : load_rules line_file no_rules ≡ record {
  addr_rules = addr_rules_of named_lines;
  name_rules = [];
  size_rules = size_rules_of named_lines;
  rules_loaded = true;
  layer2_active = true;
}
load_rules_printed_example =
    load_rules_printed line_file named_lines refl lines-Names.entries (omega arith) (omega arith)
