-- ===== src/Interc/Config/Printed.antt =====
-- A configuration file of printed rules, as `load_rules` reads it.
use kumf.Base.{
  ℕ, ◌+◌, ◌<◌, ◌≤◌, ◌≡◌, refl, ap, ◌∙◌, ltb, ◌==◌, ◌&&◌, not, Bool, true, List, [], ◌∷◌, ◌++◌, map,
  some, length, All, All-append, arith, length-append,
}
use mathlib.Core.List.{append_assoc, append-nil}
use kumf.CText.{codes, strip, is_space, text_eq_upto, c_string, is_digit, digit_value}
use kumf.CText.Lines.{
  Lacks, c_string-Lacks, lines_text, ended, FitsLine, read_lines-text, length-lines_text,
}
use kumf.CText.Numeral.{
  IsSolid, IsDigits, IsDigits-IsSolid, numeral, numeral-IsDigits, length-numeral,
}
use kumf.Interc.Types.{AddrRule, SizeRule, Rules, max_addr_rules, max_name_rules}
use kumf.Interc.Config.{
  rule_node, scan_addr_rule, add_size_rule, load_other, load_line, load_lines, load_rules, ConfFile,
  no_rules, has_rules,
}
use kumf.Interc.Config.RoundTrip.{
  Entry, for_addrs, for_sizes, hex, dec, print_entry, IsEntry, scan_addr_rule-print,
  scan_range-print,
}

-- a line without its end
abbrev pub body : Entry → List ℕ
body e = print_entry e []

print_entry-append : (e : Entry) (tail : List ℕ) → body e ++ tail ≡ print_entry e tail
print_entry-append (for_addrs start end w) tail = simp (append_assoc, append-nil) refl
print_entry-append (for_sizes low high w) tail = simp (append_assoc, append-nil) refl

-- Neither the end of a line nor of a text.
abbrev is_plain : ℕ → Bool
is_plain c = not (c == 10) && not (c == 0)

abbrev IsPlain : List ℕ → Type 0
IsPlain = All (λ c. is_plain c ≡ true)

word-IsPlain : (w : List ℕ) → IsSolid w → Lacks 0 w → IsPlain w
unfolding is_space
word-IsPlain [] h z = tt
word-IsPlain (c ∷ w) h z = (ground (arith, h.0, z.0), word-IsPlain w h.1 z.1)

IsDigits-Lacks : (base : ℕ) (ds : List ℕ) → base ≤ 16 → IsDigits base ds → Lacks 0 ds
unfolding is_digit digit_value
IsDigits-Lacks base [] high h = tt
IsDigits-Lacks base (d ∷ ds) high h = (ground (arith, h.0), IsDigits-Lacks base ds high h.1)

numeral-IsPlain : (base fuel n : ℕ) → 0 < base → base ≤ 16 → IsPlain (numeral base fuel n [])
numeral-IsPlain base fuel n low high =
    let ds = numeral-IsDigits base low high fuel n [] tt in
    word-IsPlain _ (IsDigits-IsSolid base _ high ds) (IsDigits-Lacks base _ high ds)

join : (u v : List ℕ) → IsPlain u → IsPlain v → IsPlain (u ++ v)
join u v = All-append (λ c. is_plain c ≡ true) u v

abbrev all_plain : List ℕ → Bool
all_plain [] = true
all_plain (c ∷ s) = is_plain c && all_plain s

literal-IsPlain : (w : List ℕ) → all_plain w ≡ true → IsPlain w
literal-IsPlain [] h = tt
literal-IsPlain (c ∷ w) h = (ground arith, literal-IsPlain w (ground arith))

join_literal : (u v : List ℕ) → all_plain u ≡ true → IsPlain v → IsPlain (u ++ v)
join_literal u v h = join u v (literal-IsPlain u h)

body-IsPlain : (e : Entry) → IsEntry e → IsPlain (body e)
body-IsPlain (for_addrs start end w) (_, _, node) = join_literal (codes "0x") _ refl (
    join (hex start) _ (numeral-IsPlain 16 16 start (omega arith) (omega arith)) (
      join_literal (codes "-0x") _ refl (
        join (hex end) _ (numeral-IsPlain 16 16 end (omega arith) (omega arith)) (
          join_literal (codes " = ") _ refl
            (join w [] (word-IsPlain w node.solid node.no_zero) tt)))))
body-IsPlain (for_sizes low high w) (_, _, node) = join_literal (codes "size_range:") _ refl (
    join (dec low) _ (numeral-IsPlain 10 20 low (omega arith) (omega arith)) (
      join_literal (codes "-") _ refl (
        join (dec high) _ (numeral-IsPlain 10 20 high (omega arith) (omega arith)) (
          join_literal (codes " = ") _ refl
            (join w [] (word-IsPlain w node.solid node.no_zero) tt)))))

plain-Lacks : (s : List ℕ) → IsPlain s → Lacks 10 s
plain-Lacks [] h = tt
plain-Lacks (c ∷ s) h = (ground (arith, h.0), plain-Lacks s h.1)

ended-Lacks : (s : List ℕ) → IsPlain s → Lacks 0 (ended s)
ended-Lacks [] h = (refl, tt)
ended-Lacks (c ∷ s) h = (ground (arith, h.0), ended-Lacks s h.1)

body-short : (e : Entry) → IsEntry e → length (body e) < 511
body-short (for_addrs start end w) (_, _, node) = omega (
  arith,
  node.short,
  length-append (hex start) (codes "-0x" ++ (hex end ++ (codes " = " ++ (w ++ [])))),
  length-append (hex end) (codes " = " ++ (w ++ [])),
  length-append w [],
  length-numeral 16 (omega arith) (omega arith) 16 start [],
  length-numeral 16 (omega arith) (omega arith) 16 end [],
)
body-short (for_sizes low high w) (_, _, node) = omega (
  arith,
  node.short,
  length-append (dec low) (codes "-" ++ (dec high ++ (codes " = " ++ (w ++ [])))),
  length-append (dec high) (codes " = " ++ (w ++ [])),
  length-append w [],
  length-numeral 10 (omega arith) (omega arith) 20 low [],
  length-numeral 10 (omega arith) (omega arith) 20 high [],
)

-- The rules that the entries stand for, in their order.
abbrev pub addr_rules_of : List Entry → List AddrRule
addr_rules_of [] = []
addr_rules_of (for_addrs start end w ∷ es) =
    record { start = start; end = end; node = rule_node w } ∷ addr_rules_of es
addr_rules_of (for_sizes low high w ∷ es) = addr_rules_of es

abbrev pub size_rules_of : List Entry → List SizeRule
size_rules_of [] = []
size_rules_of (for_addrs start end w ∷ es) = size_rules_of es
size_rules_of (for_sizes low high w ∷ es) =
    record { min_size = low; max_size = high; node = rule_node w } ∷ size_rules_of es

abbrev with_rules : List AddrRule → List SizeRule → Rules → Rules
with_rules addrs sizes rs = record rs {
  addr_rules = rs.addr_rules ++ addrs;
  size_rules = rs.size_rules ++ sizes;
}

load_line_addrs :
    (stale : List ℕ) (start end : ℕ) (w : List ℕ) (rs : Rules)
    → IsEntry (for_addrs start end w)
    → length rs.addr_rules < max_addr_rules
    → load_line stale (print_entry (for_addrs start end w) (10 ∷ [])) rs ≡ record rs {
      addr_rules = rs.addr_rules ++ record { start = start; end = end; node = rule_node w } ∷ [];
    }
unfolding load_line
load_line_addrs stale start end w rs (fits, fits', node) room =
    rw (scan_addr_rule-print start end w fits fits' node) (ground arith)

load_line_sizes :
    (stale : List ℕ) (low high : ℕ) (w : List ℕ) (rs : Rules)
    → IsEntry (for_sizes low high w)
    → length rs.size_rules < max_name_rules
    → load_line stale (print_entry (for_sizes low high w) (10 ∷ [])) rs ≡ record rs {
      size_rules =
          rs.size_rules ++ record { min_size = low; max_size = high; node = rule_node w } ∷ [];
    }
unfolding load_line load_other scan_addr_rule strip text_eq_upto add_size_rule
load_line_sizes stale low high w rs (fits, fits', node) room =
    ap (add_size_rule rs) (scan_range-print low high w fits fits' node) ∙ ground arith

line_of : (e : Entry) → IsEntry e → c_string (ended (body e)) ≡ print_entry e (10 ∷ [])
line_of e h =
    c_string-Lacks (ended (body e)) (ended-Lacks (body e) (body-IsPlain e h))
    ∙ print_entry-append e (10 ∷ [])

load_entries :
    (stale : List ℕ → List ℕ) (es : List Entry) (rs : Rules)
    → All IsEntry es
    → length rs.addr_rules + length (addr_rules_of es) ≤ max_addr_rules
    → length rs.size_rules + length (size_rules_of es) ≤ max_name_rules
    → load_lines stale (map ended (map body es)) rs
      ≡ with_rules (addr_rules_of es) (size_rules_of es) rs
unfolding load_lines
load_entries stale [] rs h addrs sizes =
    rw (append-nil rs.addr_rules, append-nil rs.size_rules) refl
load_entries stale (for_addrs start end w ∷ es) rs (h, hs) addrs sizes =
    let r : AddrRule = record { start = start; end = end; node = rule_node w } in
    let line = line_of (for_addrs start end w) h in
    let step =
      load_line_addrs (stale (ended (body (for_addrs start end w)))) start end w rs h
        (omega arith) in
    let rs' = record rs { addr_rules = rs.addr_rules ++ r ∷ [] } in
    let rest =
      load_entries stale es rs' hs (omega (arith, length-append rs.addr_rules (r ∷ []))) sizes in
    ap (load_lines stale (map ended (map body es)))
      (ap (λ t. load_line (stale (ended (body (for_addrs start end w)))) t rs) line ∙ step)
    ∙ rest
    ∙ rw (append_assoc rs.addr_rules (r ∷ []) (addr_rules_of es)) refl
load_entries stale (for_sizes low high w ∷ es) rs (h, hs) addrs sizes =
    let r : SizeRule = record { min_size = low; max_size = high; node = rule_node w } in
    let line = line_of (for_sizes low high w) h in
    let step =
      load_line_sizes (stale (ended (body (for_sizes low high w)))) low high w rs h (omega arith) in
    let rs' = record rs { size_rules = rs.size_rules ++ r ∷ [] } in
    let rest =
      load_entries stale es rs' hs addrs (omega (arith, length-append rs.size_rules (r ∷ []))) in
    ap (load_lines stale (map ended (map body es)))
      (ap (λ t. load_line (stale (ended (body (for_sizes low high w)))) t rs) line ∙ step)
    ∙ rest
    ∙ rw (append_assoc rs.size_rules (r ∷ []) (size_rules_of es)) refl

entries_fit : (es : List Entry) → All IsEntry es → All (FitsLine 511) (map body es)
entries_fit [] h = tt
entries_fit (e ∷ es) (h, hs) =
    ((plain-Lacks _ (body-IsPlain e h), body-short e h), entries_fit es hs)

pub addr_rules_of-append :
    (es fs : List Entry) → addr_rules_of (es ++ fs) ≡ addr_rules_of es ++ addr_rules_of fs
addr_rules_of-append [] fs = refl
addr_rules_of-append (for_addrs start end w ∷ es) fs =
    ap (λ rs. record { start = start; end = end; node = rule_node w } ∷ rs)
      (addr_rules_of-append es fs)
addr_rules_of-append (for_sizes low high w ∷ es) fs = addr_rules_of-append es fs

entry_count : (es : List Entry) → length (addr_rules_of es) + length (size_rules_of es) ≡ length es
entry_count [] = refl
entry_count (for_addrs start end w ∷ es) = omega (arith, entry_count es)
entry_count (for_sizes low high w ∷ es) = omega (arith, entry_count es)

abbrev settled : Rules → Rules
settled rs = record rs { rules_loaded = true; layer2_active = has_rules rs }

-- A file of printed rules, for ranges of addresses and of sizes in any order, with bounds below 2
-- ^ 64, nodes of 1 to 31 bytes, none of them white space or zero, and no more rules of a kind
-- than its array takes, is read back by load_rules as just these rules, in their order, and they
-- are in force if there is one.
pub load_rules_printed :
    (conf : ConfFile) (es : List Entry)
    → conf.text ≡ some (lines_text (map body es))
    → All IsEntry es
    → length (addr_rules_of es) ≤ max_addr_rules
    → length (size_rules_of es) ≤ max_name_rules
    → load_rules conf no_rules ≡ record {
      addr_rules = addr_rules_of es;
      name_rules = [];
      size_rules = size_rules_of es;
      rules_loaded = true;
      layer2_active = ltb 0 (length es);
    }
unfolding load_rules
load_rules_printed conf es text h addrs sizes =
    let bs = map body es in
    let lines =
      read_lines-text 511 (length (lines_text bs)) bs (entries_fit es h) (length-lines_text bs) in
    let loaded = load_entries conf.stale es no_rules h (omega arith) (omega arith) in
    let count : length (addr_rules_of es) + length (size_rules_of es) + 0 ≡ length es =
      omega (arith, entry_count es) in
    rw text
      (ap settled (ap (λ ls. load_lines conf.stale ls no_rules) lines ∙ loaded) ∙ rw count refl)
