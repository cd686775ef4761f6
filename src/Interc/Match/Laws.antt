-- ===== src/Interc/Match/Laws.antt =====
-- What `resolve_node` answers: the first rule that matches, by size before by address, and no rule
-- with a negative node.
use kumf.Base.{ℕ, ◌+◌, ◌≡◌, refl, if◌then◌else◌, Bool, true, false, List, [], ◌∷◌, ◌++◌, arith, All}
use kumf.Base.Int.{ℤ, negsuc, nonneg}
use kumf.Interc.Types.{AddrRule, SizeRule, Rules, Tls}
use kumf.Interc.Match.{
  Cpu, addr_matches, match_addr, size_matches, match_size, resolve_node, resolve_node_relative,
}

-- The first matching size rule decides, whatever stands behind it.
pub match_size-append :
    (sz : ℕ) (before after : List SizeRule) (r : SizeRule)
    → All (λ q. size_matches sz q ≡ false) before
    → size_matches sz r ≡ true
    → match_size sz (before ++ r ∷ after) ≡ r.node
unfolding match_size
match_size-append sz [] after r none_before hit = ground arith
match_size-append sz (q ∷ before) after r none_before hit =
    rw none_before.0 (match_size-append sz before after r none_before.1 hit)

pub match_addr-append :
    (addr : ℕ) (before after : List AddrRule) (r : AddrRule)
    → All (λ q. addr_matches addr q ≡ false) before
    → addr_matches addr r ≡ true
    → match_addr addr (before ++ r ∷ after) ≡ r.node
unfolding match_addr
match_addr-append addr [] after r none_before hit = ground arith
match_addr-append addr (q ∷ before) after r none_before hit =
    rw none_before.0 (match_addr-append addr before after r none_before.1 hit)

-- The node that the rules name for an allocation, negative if they name none.
unfoldable pub routed_to : Rules → ℕ → ℕ → ℤ
routed_to rules caller sz =
    if rules.layer2_active
    then if nonneg (match_size sz rules.size_rules)
      then match_size sz rules.size_rules
      else if nonneg (match_addr caller rules.addr_rules)
      then match_addr caller rules.addr_rules
      else negsuc 0
    else negsuc 0

pub resolve_node-routed_to :
    (cpu : Cpu) (rules : Rules) (caller sz : ℕ) (tls : Tls) (used : Bool)
    → (resolve_node cpu rules caller sz tls used).0 ≡ routed_to rules caller sz
unfolding resolve_node resolve_node_relative routed_to
resolve_node-routed_to cpu rules caller sz tls used = ground arith

-- The flag is set by a routed allocation, and kept by any other.
pub resolve_node_used :
    (cpu : Cpu) (rules : Rules) (caller sz : ℕ) (tls : Tls) (used : Bool)
    → (resolve_node cpu rules caller sz tls used).2
      ≡ (if nonneg (resolve_node cpu rules caller sz tls used).0 then true else used)
unfolding resolve_node resolve_node_relative
resolve_node_used cpu rules caller sz tls used = ground arith

-- With rules in force each call of resolve_node adds one to the sum of the thread's two counters,
-- and sets the routing flag if and only if it returns a node, keeping it otherwise.
pub resolve_node_counts :
    (cpu : Cpu) (rules : Rules) (caller sz : ℕ) (tls : Tls) (used : Bool)
    → rules.layer2_active ≡ true
    → let r = resolve_node cpu rules caller sz tls used in
      (r.1.stat_local + r.1.stat_config ≡ tls.stat_local + tls.stat_config + 1)
      × (r.2 ≡ (if nonneg r.0 then true else used))
unfolding resolve_node resolve_node_relative
resolve_node_counts cpu rules caller sz tls used h = ground arith

-- What the word `local` stands for in a rule.
abbrev pub local_node : ℤ
local_node = negsuc 1

match_size_local :
    (sz : ℕ) (rs : List SizeRule)
    → All (λ r. r.node ≡ local_node) rs
    → nonneg (match_size sz rs) ≡ false
unfolding match_size
match_size_local sz [] all_local = refl
match_size_local sz (r ∷ rs) all_local = ground (arith, match_size_local sz rs all_local.1)

match_addr_local :
    (addr : ℕ) (rs : List AddrRule)
    → All (λ r. r.node ≡ local_node) rs
    → nonneg (match_addr addr rs) ≡ false
unfolding match_addr
match_addr_local addr [] all_local = refl
match_addr_local addr (r ∷ rs) all_local = ground (arith, match_addr_local addr rs all_local.1)

-- Where all size and address rules name the node local, resolve_node returns -1 and leaves the
-- routing flag, whatever the home node of the thread is.
pub local_rules_ignored :
    (cpu : Cpu) (rules : Rules) (caller sz : ℕ) (tls : Tls) (used : Bool)
    → All (λ r. r.node ≡ local_node) rules.size_rules
    → All (λ r. r.node ≡ local_node) rules.addr_rules
    → ((resolve_node cpu rules caller sz tls used).0 ≡ negsuc 0)
      × ((resolve_node cpu rules caller sz tls used).2 ≡ used)
unfolding resolve_node
local_rules_ignored cpu rules caller sz tls used hs ha =
    ground
      (arith, match_size_local sz rules.size_rules hs, match_addr_local caller rules.addr_rules ha)
