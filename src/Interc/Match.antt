-- ===== src/Interc/Match.antt =====
-- src/lib/interc/ldlib.c: which node an allocation is routed to.
pub mod Laws
pub mod First
use kumf.Base.{ℕ, ◌+◌, ltb, leb, ◌==◌, if◌then◌else◌, Bool, true, false, ◌&&◌, ◌||◌, List, [], ◌∷◌}
use kumf.Base.Int.{ℤ, pos, negsuc, nonneg}
use kumf.Interc.Types.{AddrRule, SizeRule, Rules, Tls}

-- `sched_getcpu()` in the calling thread, and libnuma's `numa_node_of_cpu`
pub record Cpu : Type 0 where
  pub sched_getcpu : ℤ
  pub numa_node_of_cpu : ℤ → ℤ

unfoldable pub addr_matches : ℕ → AddrRule → Bool
addr_matches addr r = leb r.start addr && ltb addr r.end

unfoldable pub match_addr : ℕ → List AddrRule → ℤ
match_addr addr [] = negsuc 0
match_addr addr (r ∷ rs) = if addr_matches addr r then r.node else match_addr addr rs

-- A bound of 0 is no bound.
unfoldable pub size_matches : ℕ → SizeRule → Bool
size_matches sz r =
    let min_ok = r.min_size == 0 || leb r.min_size sz in
    let max_ok = r.max_size == 0 || ltb sz r.max_size in min_ok && max_ok

unfoldable pub match_size : ℕ → List SizeRule → ℤ
match_size sz [] = negsuc 0
match_size sz (r ∷ rs) = if size_matches sz r then r.node else match_size sz rs

abbrev pub is_local : ℤ → Bool
is_local (pos n) = false
is_local (negsuc n) = n == 1

unfoldable pub resolve_node_relative : Cpu → Tls → ℤ → ℤ
resolve_node_relative cpu tls node =
    if is_local node
    then if nonneg tls.home_node
      then tls.home_node
      else if nonneg cpu.sched_getcpu
      then cpu.numa_node_of_cpu cpu.sched_getcpu
      else tls.home_node
    else node

-- The node, the thread's counters and `routing_ever_used` after the call.
unfoldable pub resolve_node : Cpu → Rules → ℕ → ℕ → Tls → Bool → ℤ × Tls × Bool
resolve_node cpu rules caller sz tls used =
    let by_size = match_size sz rules.size_rules in
    let by_addr = match_addr caller rules.addr_rules in
    let routed = record tls { stat_config = tls.stat_config + 1 } in
    if rules.layer2_active
    then if nonneg by_size
      then (resolve_node_relative cpu tls by_size, routed, true)
      else if nonneg by_addr
      then (resolve_node_relative cpu tls by_addr, routed, true)
      else (negsuc 0, record tls { stat_local = tls.stat_local + 1 }, used)
    else (negsuc 0, tls, used)
