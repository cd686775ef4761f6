-- ===== src/Interc/Connection.antt =====
-- src/lib/interc/ldlib.c: `connect_daemon` and `disconnect_daemon`, which tell the daemon of the
-- process, and the counters that `kumf_fini` sums up.
pub mod Lifetime
use kumf.Base.{
  ℕ, zero, suc, ◌+◌, ltb, if◌then◌else◌, Bool, true, false, ◌&&◌, List, [], ◌∷◌, ◌++◌, Option, none,
  some, take,
}
use kumf.CText.{codes}
use kumf.Interc.Daemon.{decimal}

-- `KUMF_SOCK_PATH`
abbrev pub sock_path : List ℕ
sock_path = codes "/tmp/kumf_daemon.sock"

-- The environment: the value of `KUMF_DAEMON`, whether that file is there, and the descriptor that
-- `socket` answers.
pub record ConnectIo : Type 0 where
  pub kumf_daemon : Option (List ℕ)
  pub file : Bool
  pub socket : Option ℕ
  pub pid : ℕ

-- `daemon_sock`, and what has been done: the descriptors opened and closed, and the datagrams sent,
-- each with its address.
pub record Connection : Type 0 where
  pub daemon_sock : Option ℕ
  pub opened : List ℕ
  pub closed : List ℕ
  pub sent : List (List ℕ × List ℕ)

abbrev pub unconnected : Connection
unconnected = record { daemon_sock = none; opened = []; closed = []; sent = [] }

-- `addr.sun_path` holds 107 bytes and a 0.
abbrev pub sun_path : List ℕ → List ℕ
sun_path path = take 107 path

unfoldable pub reg_message : ℕ → ℕ → List ℕ
unfolding decimal
reg_message pid nodes = codes "REG:" ++ decimal 10 pid (codes ":" ++ decimal 10 nodes [])

unfoldable pub dereg_message : ℕ → List ℕ
unfolding decimal
dereg_message pid = codes "DEREG:" ++ decimal 10 pid []

abbrev pub register : ConnectIo → List ℕ → ℕ → Option ℕ → Connection → Connection
register io path nodes none c = record c { daemon_sock = none }
register io path nodes (some fd) c = record c {
  daemon_sock = some fd;
  opened = c.opened ++ fd ∷ [];
  sent = c.sent ++ (sun_path path, reg_message io.pid nodes) ∷ [];
}

-- `connect_daemon`, with `num_affinity_nodes`
abbrev pub connect_to : ConnectIo → Option (List ℕ) → ℕ → Connection → Connection
connect_to io none nodes c = c
connect_to io (some path) nodes c = if io.file then register io path nodes io.socket c else c

unfoldable pub connect_daemon : ConnectIo → ℕ → Connection → Connection
connect_daemon io nodes c = connect_to io io.kumf_daemon nodes c

-- `kumf_init` from its test for the passive mode on, where it returns without a connection.
unfoldable pub announce : Bool → ConnectIo → ℕ → Connection → Connection
announce passive io nodes c = if passive then c else connect_daemon io nodes c

abbrev pub disconnect_from : ℕ → Option ℕ → Connection → Connection
disconnect_from pid none c = c
disconnect_from pid (some fd) c = record c {
  daemon_sock = none;
  closed = c.closed ++ fd ∷ [];
  sent = c.sent ++ (sun_path sock_path, dereg_message pid) ∷ [];
}

unfoldable pub disconnect_daemon : ℕ → Connection → Connection
disconnect_daemon pid c = disconnect_from pid c.daemon_sock c

-- `kumf_fini`, with the counters of the thread that runs it: what it logs, which needs KUMF_DEBUG
-- and a count. The totals are 0 until then.
unfoldable pub kumf_fini : Bool → ℕ → ℕ → ℕ → Connection → Connection × Option (ℕ × ℕ)
kumf_fini debug pid tl_stat_local tl_stat_config c = (
  disconnect_daemon pid c,
  if ltb 0 (tl_stat_local + tl_stat_config)
      then if debug then some (tl_stat_local, tl_stat_config) else none
      else none,
)
