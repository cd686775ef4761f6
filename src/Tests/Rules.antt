-- ===== src/Tests/Rules.antt =====
-- The configuration, the rules and the daemon's reply at concrete inputs.
use kumf.Base.{
  ℕ, ◌≡◌, refl, true, false, List, [], ◌∷◌, none, some, arith, replicate, All, ◌==◌, zero, suc,
}
use kumf.Base.Int.{pos, negsuc, signed32}
use kumf.CText.{
  codes, read_lines, fgets, strip, scan_unsigned, scan_node, scan_word, take_word, skip_space,
  read_sign, read_digits, to_ulong, strip_hex_prefix, is_space, is_digit, digit_value, atoi,
  text_eq, text_eq_upto, split_at, c_string,
}
use kumf.Interc.Config.{
  ConfFile, load_rules, load_line, load_lines, load_other, no_rules, scan_addr_rule, scan_range,
  scan_name_rule, rule_node, add_size_rule, add_name_rule,
}
use kumf.Interc.Config.Laws.{IsBounded, load_rules-IsBounded, load_rules_once}
use kumf.Interc.Daemon.{applies, Environ, apply_reply}
use kumf.Interc.Daemon.Laws.{apply_reply_config}
use kumf.Interc.Match.{resolve_node}
use kumf.Interc.Match.First.{Routed, resolve_node-Routed}
use kumf.Interc.Match.Laws.{local_rules_ignored, local_node}
use kumf.Interc.Types.{Rules}
use kumf.Tests.World.{rules, cpu, no_counts, no_file}

resolve_node-Routed_example :
    Routed rules 5000 6000 (resolve_node cpu rules 5000 6000 no_counts false).0
resolve_node-Routed_example = resolve_node-Routed cpu rules 5000 6000 no_counts false

-- One rule, `size_range:0-0 = local`.
abbrev local_rules : Rules
local_rules = record rules {
  addr_rules = [];
  size_rules = record { min_size = 0; max_size = 0; node = local_node } ∷ [];
}

local_rules_ignored_example :
    ((resolve_node cpu local_rules 5000 6000 no_counts false).0 ≡ negsuc 0)
    × ((resolve_node cpu local_rules 5000 6000 no_counts false).2 ≡ false)
local_rules_ignored_example =
    local_rules_ignored cpu local_rules 5000 6000 no_counts false (refl, tt) tt

abbrev conf : ConfFile
conf = record {
  text = some (codes "# nodes\n0x1000-0x2000 = 1\nsize_range:8192-0 = 0\nmain = local\n");
  stale = λ line. [];
}

abbrev loaded_rules : Rules
loaded_rules = record {
  addr_rules = record { start = 4096; end = 8192; node = pos 1 } ∷ [];
  name_rules = record { pattern_text = codes "main"; node = negsuc 1 } ∷ [];
  size_rules = record { min_size = 8192; max_size = 0; node = pos 0 } ∷ [];
  rules_loaded = true;
  layer2_active = true;
}

load_rules_conf : load_rules conf no_rules ≡ loaded_rules
unfolding load_rules load_lines load_line load_other scan_addr_rule scan_range scan_name_rule
    rule_node add_size_rule add_name_rule read_lines fgets strip scan_unsigned scan_node scan_word
    take_word skip_space read_sign read_digits to_ulong strip_hex_prefix is_space is_digit
    digit_value atoi text_eq text_eq_upto signed32 split_at c_string
load_rules_conf = refl

load_rules-IsBounded_example : IsBounded (load_rules conf no_rules)
load_rules-IsBounded_example =
    load_rules-IsBounded conf no_rules
      (record { addrs = omega arith; sizes = omega arith; names = omega arith })

load_rules_once_example : load_rules no_file (load_rules conf no_rules) ≡ load_rules conf no_rules
load_rules_once_example = load_rules_once conf no_file no_rules

abbrev unset : Environ
unset = record { kumf_nodes = none; kumf_conf = none; kumf_affinity = none; kumf_policy = none }

apply_reply_config_example :
    apply_reply (codes "CONFIG:0,1:/etc/a.conf") unset
    ≡ applies
        (record unset { kumf_nodes = some (codes "0,1"); kumf_conf = some (codes "/etc/a.conf") })
apply_reply_config_example =
    apply_reply_config (codes "0,1") (codes "/etc/a.conf") unset (refl, (refl, (refl, tt)))
      (refl, (refl, (refl, tt)))
      (refl, (refl, (refl, (refl, (refl, (refl, (refl, (refl, (refl, (refl, (refl, tt)))))))))))
      (λ e. cc) (omega arith) (λ e. cc)

-- 64 bytes
abbrev long_list : List ℕ
long_list = replicate 64 b'1'

ones : (c n : ℕ) → (b'1' == c) ≡ false → All (λ x. (x == c) ≡ false) (replicate n b'1')
ones c zero h = tt
ones c (suc n) h = (h, ones c n h)
