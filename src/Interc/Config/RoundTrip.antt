-- ===== src/Interc/Config/RoundTrip.antt =====
-- Rules written as lines of a configuration file, and what `load_rules` reads of them.
use kumf.Base.{
  ℕ, ◌<◌, ◌≤◌, ◌≡◌, refl, ◌==◌, ◌||◌, drop, false, List, [], ◌∷◌, ◌++◌, some, length, arith,
}
use kumf.CText.{codes, strip, is_digit, digit_value, scan_unsigned, scan_node, ulong_mod}
use kumf.CText.Lines.{Lacks, scan_node-word}
use kumf.CText.Numeral.{IsSolid, numeral, scan_unsigned-numeral}
use kumf.Interc.Config.{rule_node, scan_addr_rule, scan_range}

-- A rule for a range of addresses or of sizes, with the word for its node.
pub data Entry : Type 0 where
  for_addrs for_sizes : ℕ → ℕ → List ℕ → Entry

abbrev pub hex : ℕ → List ℕ
hex n = numeral 16 16 n []

abbrev pub dec : ℕ → List ℕ
dec n = numeral 10 20 n []

-- a rule's line up to the given tail
abbrev pub print_entry : Entry → List ℕ → List ℕ
print_entry (for_addrs start end w) tail =
    codes "0x" ++ (hex start ++ (codes "-0x" ++ (hex end ++ (codes " = " ++ (w ++ tail)))))
print_entry (for_sizes low high w) tail =
    codes "size_range:" ++ (dec low ++ (codes "-" ++ (dec high ++ (codes " = " ++ (w ++ tail)))))

-- The bounds fit 64 bits, and the node is a word that the buffer for it takes.
pub record IsNode (w : List ℕ) : Type 0 where
  pub solid : IsSolid w
  pub no_zero : Lacks 0 w
  pub some_byte : 0 < length w
  pub short : length w ≤ 31

abbrev pub IsEntry : Entry → Type 0
IsEntry (for_addrs start end w) = (start < ulong_mod) × (end < ulong_mod) × IsNode w
IsEntry (for_sizes low high w) = (low < ulong_mod) × (high < ulong_mod) × IsNode w

scan_addr_rule_found :
    (line a b c d w : List ℕ) (start end : ℕ)
    → strip (codes "0x") line ≡ some a
    → scan_unsigned 16 a ≡ some (start, b)
    → strip (codes "-0x") b ≡ some c
    → scan_unsigned 16 c ≡ some (end, d)
    → scan_node d ≡ some w
    → scan_addr_rule line ≡ some (record { start = start; end = end; node = rule_node w })
unfolding scan_addr_rule
scan_addr_rule_found line a b c d w start end e f g h i = rw (e, f, g, h, i) refl

scan_range_found :
    (line b c d w : List ℕ) (low high : ℕ)
    → scan_unsigned 10 line ≡ some (low, b)
    → strip (codes "-") b ≡ some c
    → scan_unsigned 10 c ≡ some (high, d)
    → scan_node d ≡ some w
    → scan_range line ≡ some (record { min_size = low; max_size = high; node = rule_node w })
unfolding scan_range
scan_range_found line b c d w low high f g h i = rw (f, g, h, i) refl

-- a number before a byte that ends it
scan_hex :
    (n c : ℕ) (s : List ℕ)
    → n < ulong_mod
    → is_digit 16 c ≡ false
    → (c == 120 || c == 88) ≡ false
    → scan_unsigned 16 (hex n ++ c ∷ s) ≡ some (n, c ∷ s)
scan_hex n c s small =
    scan_unsigned-numeral 16 15 n c s (omega arith) (omega arith) (omega arith) small

scan_dec :
    (n c : ℕ) (s : List ℕ)
    → n < ulong_mod
    → is_digit 10 c ≡ false
    → (c == 120 || c == 88) ≡ false
    → scan_unsigned 10 (dec n ++ c ∷ s) ≡ some (n, c ∷ s)
scan_dec n c s small =
    scan_unsigned-numeral 10 19 n c s (omega arith) (omega arith) (omega arith) small

pub scan_addr_rule-print :
    (start end : ℕ) (w : List ℕ)
    → start < ulong_mod
    → end < ulong_mod
    → IsNode w
    → scan_addr_rule (print_entry (for_addrs start end w) (10 ∷ []))
      ≡ some (record { start = start; end = end; node = rule_node w })
unfolding strip is_digit digit_value
scan_addr_rule-print start end w fits fits' node =
    scan_addr_rule_found _ _ _ _ _ w start end refl
      (scan_hex start 45 (codes "0x" ++ (hex end ++ (codes " = " ++ (w ++ 10 ∷ [])))) fits refl
        refl)
      refl (scan_hex end 32 (codes "= " ++ (w ++ 10 ∷ [])) fits' refl refl)
      (scan_node-word w [] node.solid node.some_byte node.short)

pub scan_range-print :
    (low high : ℕ) (w : List ℕ)
    → low < ulong_mod
    → high < ulong_mod
    → IsNode w
    → scan_range (drop 11 (print_entry (for_sizes low high w) (10 ∷ [])))
      ≡ some (record { min_size = low; max_size = high; node = rule_node w })
unfolding strip is_digit digit_value
scan_range-print low high w fits fits' node =
    scan_range_found _ _ _ _ w low high
      (scan_dec low 45 (dec high ++ (codes " = " ++ (w ++ 10 ∷ []))) fits refl refl) refl
      (scan_dec high 32 (codes "= " ++ (w ++ 10 ∷ [])) fits' refl refl)
      (scan_node-word w [] node.solid node.some_byte node.short)
