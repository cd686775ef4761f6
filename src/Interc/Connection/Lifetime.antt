-- ===== src/Interc/Connection/Lifetime.antt =====
-- What the daemon hears of a process from its start to its end.
use kumf.Base.{ℕ, if◌then◌else◌, List, [], ◌∷◌, Option, none, some}
use kumf.Interc.Connection.{
  sock_path, ConnectIo, Connection, unconnected, sun_path, reg_message, dereg_message,
}

abbrev pub with_path : List ℕ → Option ℕ → Option (ℕ × List ℕ)
with_path path none = none
with_path path (some fd) = some (fd, path)

-- The descriptor and the path of a process that registers, for the value of `KUMF_DAEMON`.
abbrev pub registers : ConnectIo → Option (List ℕ) → Option (ℕ × List ℕ)
registers io none = none
registers io (some path) = if io.file then with_path path io.socket else none

-- What is done for such a process, and for any other.
abbrev pub lifetime : ConnectIo → ℕ → Option (ℕ × List ℕ) → Connection
lifetime io nodes none = unconnected
lifetime io nodes (some (fd, path)) = record {
  daemon_sock = none;
  opened = fd ∷ [];
  closed = fd ∷ [];
  sent =
      (sun_path path, reg_message io.pid nodes) ∷ (sun_path sock_path, dereg_message io.pid) ∷ [];
}
