-- ===== src/Interc/Types.antt =====
-- src/lib/interc/ldlib.c: its constants, enumerations, rules and static variables. An array with
-- its count is the list of the entries filled so far; an `int` that can be negative is a `ℤ`.
use kumf.Base.{ℕ, ◌^◌, List, Bool}
use kumf.Base.Int.{ℤ}

abbrev pub max_addr_rules : ℕ
max_addr_rules = 8192

abbrev pub max_name_rules : ℕ
max_name_rules = 256

abbrev pub route_threshold : ℕ
route_threshold = 4096

abbrev pub max_numa_nodes : ℕ
max_numa_nodes = 128

-- `sizeof(size_t)` is 8
abbrev pub size_mod : ℕ
size_mod = 2 ^ 64

pub data Mode : Type 0 where
  batch per_thread routing passive : Mode

pub data Mpolicy : Type 0 where
  preferred bind interleave : Mpolicy

pub data Spread : Type 0 where
  round_robin compact : Spread

-- A node in a rule is the home node's placeholder -2 (`local`) or what `atoi` read.
pub record AddrRule : Type 0 where
  pub start : ℕ
  pub end : ℕ
  pub node : ℤ

pub record NameRule : Type 0 where
  pub pattern_text : List ℕ
  pub node : ℤ

pub record SizeRule : Type 0 where
  pub min_size : ℕ
  pub max_size : ℕ
  pub node : ℤ

-- what `load_rules` fills
pub record Rules : Type 0 where
  pub addr_rules : List AddrRule
  pub name_rules : List NameRule
  pub size_rules : List SizeRule
  pub rules_loaded : Bool
  pub layer2_active : Bool

-- `struct addr_entry`, with the address of the block that holds it; `next` is the chain's tail
pub record AddrEntry : Type 0 where
  pub block : ℕ
  pub addr : ℕ
  pub size : ℕ

-- the thread-local variables of the calling thread
pub record Tls : Type 0 where
  pub home_node : ℤ
  pub stat_local : ℕ
  pub stat_config : ℕ
