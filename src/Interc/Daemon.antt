-- ===== src/Interc/Daemon.antt =====
-- src/lib/interc/ldlib.c: `query_daemon_for_config`, which asks the daemon whether this executable
-- is registered. The system calls are the fields of `DaemonIo`.
pub mod Laws
use kumf.Base.{
  ℕ, zero, suc, ◌+◌, ◌/◌, ◌%◌, ltb, leb, ◌==◌, if◌then◌else◌, Bool, true, false, ◌&&◌, ◌||◌, List,
  [], ◌∷◌, ◌++◌, Option, none, some, length, take, drop,
}
use kumf.CText.{codes, text_eq, text_eq_upto, split_at, c_string}

-- The environment variables that the library reads.
pub record Environ : Type 0 where
  pub kumf_nodes : Option (List ℕ)
  pub kumf_conf : Option (List ℕ)
  pub kumf_affinity : Option (List ℕ)
  pub kumf_policy : Option (List ℕ)

-- `daemon` answers the datagram that is sent to it, or not within 50 ms; an empty answer stands for
-- a failing `recvfrom` too.
pub record DaemonIo : Type 0 where
  pub socket_file : Bool
  pub socket_opens : Bool
  pub exe_path : Option (List ℕ)
  pub pid : ℕ
  pub binds : Bool
  pub daemon : List ℕ → Option (List ℕ)

-- Decimal digits of a number below 10 ^ fuel, before `tail`.
unfoldable pub decimal : ℕ → ℕ → List ℕ → List ℕ
decimal zero n tail = tail
decimal (suc fuel) n tail =
    let more = decimal fuel (n / 10) ((n % 10 + 48) ∷ tail) in
    if ltb n 10 then (n + 48) ∷ tail else more

-- `snprintf(msg, 512, "LOOKUP:%d:%s", getpid(), exe_path)`; a process number has 10 digits at most.
-- `readlink` cuts the path at 255 bytes.
unfoldable pub lookup_message : ℕ → List ℕ → List ℕ
unfolding decimal
lookup_message pid exe = take 511 (codes "LOOKUP:" ++ decimal 10 pid (codes ":" ++ take 255 exe))

abbrev pub is_empty : List ℕ → Bool
is_empty [] = true
is_empty (c ∷ s) = false

-- `setenv` of what stands before the colon, if it fits its buffer, and of what stands behind it.
unfoldable pub set_nodes : List ℕ → Environ → Environ
set_nodes nodes e =
    if ltb 0 (length nodes) && ltb (length nodes) 64
    then record e { kumf_nodes = some nodes }
    else e

unfoldable pub set_conf : List ℕ → Environ → Environ
set_conf path e = if is_empty path then e else record e { kumf_conf = some path }

-- What the query ends with: it reads bytes of its buffer that nothing was written to, the passive
-- mode, or the environment with the daemon's settings.
pub data Answer : Type 0 where
  undefined stays_passive : Answer
  applies : Environ → Answer

-- A reply that ends before the bytes that the parser looks at: `strncmp` comes to its end without a
-- difference, or the parser starts behind its terminating 0.
abbrev pub is_cut : List ℕ → Bool
is_cut reply = ltb (length reply) 7 || text_eq reply (codes "NOCONFI")

-- The text from the eighth byte on.
unfoldable pub after_tag : List ℕ → List ℕ
after_tag reply = c_string (drop 7 reply)

abbrev pub with_path : List ℕ → Environ → Option (List ℕ) → Answer
with_path nodes e none = stays_passive
with_path nodes e (some path) = applies (set_conf path (set_nodes nodes e))

unfoldable pub apply_reply : List ℕ → Environ → Answer
apply_reply reply e =
    let (nodes, rest) = split_at b':' (after_tag reply) in
    if is_empty reply
    then stays_passive
    else if is_cut reply
    then undefined
    else if text_eq_upto 8 reply (codes "NOCONFIG")
    then stays_passive
    else with_path nodes e rest

unfoldable pub query_daemon_for_config : DaemonIo → Environ → Answer
query_daemon_for_config io e =
    if io.socket_file && io.socket_opens
    then elim io.exe_path [
      | none ↦ stays_passive
      | some exe ↦
          if io.binds
          then elim (io.daemon (lookup_message io.pid exe)) [
            | none ↦ stays_passive
            | some reply ↦ apply_reply (take 1023 reply) e
          ]
          else stays_passive
    ]
    else stays_passive
