-- ===== src/Interc/Daemon/Laws.antt =====
-- The daemon's reply `CONFIG:<nodes>:<path>` read back.
use kumf.Base.{
  ℕ, ◌<◌, ◌≤◌, ◌≡◌, refl, ap, ◌∙◌, ◌==◌, false, List, [], ◌∷◌, ◌++◌, some, length, All, All-append,
  arith, ◌≢◌,
}
use kumf.CText.Lines.{c_string-Lacks}
use kumf.CText.{codes, text_eq, text_eq_upto, split_at}
use kumf.Interc.Daemon.{Environ, applies, is_cut, set_nodes, set_conf, after_tag, apply_reply}

-- a text without the byte `c`
abbrev pub Lacks : ℕ → List ℕ → Type 0
Lacks c = All (λ x. (x == c) ≡ false)

split_at-append : (c : ℕ) (w s : List ℕ) → Lacks c w → split_at c (w ++ c ∷ s) ≡ (w, some s)
unfolding split_at
split_at-append c [] s h = ground arith
split_at-append c (x ∷ w) s h = ground (arith, split_at-append c w s h.1)

-- What the daemon sends for a registered executable.
abbrev pub config_reply : List ℕ → List ℕ → List ℕ
config_reply nodes path = codes "CONFIG:" ++ (nodes ++ b':' ∷ path)

after_tag-config :
    (nodes path : List ℕ)
    → Lacks 0 nodes
    → Lacks 0 path
    → after_tag (config_reply nodes path) ≡ nodes ++ b':' ∷ path
unfolding after_tag
after_tag-config nodes path hn hp =
    c_string-Lacks (nodes ++ b':' ∷ path)
      (All-append (λ x. (x == 0) ≡ false) nodes (b':' ∷ path) hn (refl, hp))

config_reply_whole : (nodes path : List ℕ) → is_cut (config_reply nodes path) ≡ false
unfolding text_eq
config_reply_whole nodes path = ground arith

reply-config :
    (nodes path : List ℕ) (e : Environ)
    → Lacks b':' nodes
    → Lacks 0 nodes
    → Lacks 0 path
    → apply_reply (config_reply nodes path) e ≡ applies (set_conf path (set_nodes nodes e))
unfolding apply_reply text_eq_upto
reply-config nodes path e colon hn hp =
    let tail = after_tag-config nodes path hn hp in
    let parts = split_at-append b':' nodes path colon in
    rw (config_reply_whole nodes path, tail, parts) refl

conf_set :
    (path : List ℕ) (e : Environ) → path ≢ [] → set_conf path e ≡ record e { kumf_conf = some path }
unfolding set_conf
conf_set [] e h = absurd (h refl)
conf_set (c ∷ path) e h = refl

nodes_set :
    (nodes : List ℕ) (e : Environ)
    → nodes ≢ []
    → length nodes < 64
    → set_nodes nodes e ≡ record e { kumf_nodes = some nodes }
unfolding set_nodes
nodes_set [] e h short = absurd (h refl)
nodes_set (c ∷ nodes) e h short = ground arith

-- A reply made of CONFIG:, a node list of 1 to 63 bytes without colons, a colon and a path that
-- is not empty, both without zeros, sets KUMF_NODES to the list and KUMF_CONF to the path.
pub apply_reply_config :
    (nodes path : List ℕ) (e : Environ)
    → Lacks b':' nodes
    → Lacks 0 nodes
    → Lacks 0 path
    → nodes ≢ []
    → length nodes < 64
    → path ≢ []
    → apply_reply (config_reply nodes path) e
      ≡ applies (record e { kumf_nodes = some nodes; kumf_conf = some path })
apply_reply_config nodes path e colon hn hp some_nodes short some_path = rw (
  reply-config nodes path e colon hn hp,
  nodes_set nodes e some_nodes short,
  conf_set path _ some_path,
)

-- With a node list of 64 bytes or more such a reply sets KUMF_CONF and leaves KUMF_NODES as it
-- was.
pub apply_reply_long :
    (nodes path : List ℕ) (e : Environ)
    → Lacks b':' nodes
    → Lacks 0 nodes
    → Lacks 0 path
    → 64 ≤ length nodes
    → path ≢ []
    → apply_reply (config_reply nodes path) e ≡ applies (record e { kumf_conf = some path })
unfolding set_nodes
apply_reply_long nodes path e colon hn hp long some_path =
    reply-config nodes path e colon hn hp
    ∙ ap applies (ap (set_conf path) (ground arith) ∙ conf_set path e some_path)
