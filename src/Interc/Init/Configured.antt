-- ===== src/Interc/Init/Configured.antt =====
-- An allocation after the constructor, under the rules of the file that it read.
use kumf.CText.{◌>>=◌}
use kumf.Base.{
  Bool, ◌&&◌, not, ℕ, ◌<◌, ◌≡◌, ◌≢◌, refl, subst, length, ◌==◌, ◌∷◌, ◌++◌, map, List, Option, none,
  some, inl, inr, Option-cases, if_cases,
}
use kumf.Base.Int.{ℤ}
use kumf.Interc.Alloc.{malloc}
use kumf.Interc.Alloc.Configured.{Names, configured_malloc}
use kumf.CText.Lines.{lines_text}
use kumf.Interc.Bind.{Kernel, bind_thread_to_node}
use kumf.Interc.Config.{ConfFile, load_rules, no_rules, rule_node}
use kumf.Interc.Config.Printed.{body}
use kumf.Interc.Config.RoundTrip.{Entry, for_addrs}
use kumf.Interc.Daemon.{applies, Environ, DaemonIo}
use kumf.Interc.Match.{Cpu}
use kumf.Interc.Segs.{Libc}
use kumf.Interc.Topology.{Numa, cache_node_cpu_counts, reports}
use kumf.Interc.Types.{Mode, passive, batch, per_thread, routing, Rules, route_threshold}
use kumf.Interc.Init.{
  Library, settle, settle_batch, settle_mode, set_mode, init_affinity, configured_nodes, is_off,
  parse_affinity, parse_policy, parse_spread, first_node, settings, conf_path, loaded, kumf_init,
}

-- The rules that a constructor leaves, where it ends.
abbrev RulesAre : {W : Type 0} → Rules → Option (Library W) → Type 0
RulesAre rules none = Unit
RulesAre rules (some lib) = lib.alloc.rules ≡ rules

module _ {W : Type 0} (kernel : Kernel W) (numa : Numa) where
  settle-RulesAre : (lib : Library W) → RulesAre lib.alloc.rules (settle kernel numa lib)
  unfolding settle
  settle-RulesAre lib =
      let aff = cache_node_cpu_counts numa lib.affinity in
      elim (Option-cases
        (bind_thread_to_node kernel numa aff (first_node aff.nodes) lib.alloc.world)) [
          | inl e ↦ rw (e, settle) tt
          | inr (r, e) ↦ rw (e, settle) refl
        ]

  settle_mode-RulesAre :
      (mode : Mode) (lib : Library W)
      → RulesAre lib.alloc.rules (settle_mode kernel numa (set_mode mode lib))
  unfolding settle_mode settle_batch
  settle_mode-RulesAre batch lib = refl
  settle_mode-RulesAre per_thread lib = settle-RulesAre (set_mode per_thread lib)
  settle_mode-RulesAre routing lib = settle-RulesAre (set_mode routing lib)
  settle_mode-RulesAre passive lib = refl

  chosen_mode-RulesAre :
      (mode : Option Mode) (lib : Library W)
      → RulesAre lib.alloc.rules (do m ← mode; settle_mode kernel numa (set_mode m lib))
  chosen_mode-RulesAre none lib = tt
  chosen_mode-RulesAre (some m) lib = settle_mode-RulesAre m lib

  init_affinity-RulesAre :
      (debug : Bool) (e : Environ) (lib : Library W)
      → RulesAre lib.alloc.rules (init_affinity kernel numa debug e lib)
  unfolding init_affinity
  init_affinity-RulesAre debug e lib =
      let nodes = configured_nodes numa e lib.affinity.nodes in
      let chosen = record lib {
        affinity = record lib.affinity {
          nodes = nodes;
          mem_policy = parse_policy e lib.affinity.mem_policy;
          spread = parse_spread e lib.affinity.spread;
        };
      } in
      if_cases (RulesAre lib.alloc.rules) numa.available
        (λ present.
          if_cases (RulesAre lib.alloc.rules)
            (length (configured_nodes numa e lib.affinity.nodes) == 0) (λ none_left. refl)
            (λ some_left.
              if_cases (RulesAre lib.alloc.rules) (is_off (parse_affinity e)) (λ h. refl)
                (λ on.
                  if_cases (RulesAre lib.alloc.rules) (debug && not (reports numa nodes)) (λ h. tt)
                    (λ h. chosen_mode-RulesAre _ chosen))))
        (λ absent. refl)

  kumf_init_rules :
      (files : List ℕ → ConfFile) (io : DaemonIo) (debug : Bool) (e e' : Environ) (beside : ℤ → ℕ)
      (w : W) (lib : Library W)
      → settings io e ≡ applies e'
      → kumf_init kernel numa files io debug e (loaded beside w) ≡ some lib
      → lib.alloc.rules ≡ load_rules (files (conf_path e')) no_rules
  unfolding kumf_init loaded
  kumf_init_rules files io debug e e' beside w lib set ended =
      let rules = load_rules (files (conf_path e')) no_rules in
      let kept : RulesAre rules (kumf_init kernel numa files io debug e (loaded beside w)) =
        rw (set, kumf_init) (init_affinity-RulesAre debug e' _) in
      subst (RulesAre rules) ended kept

  -- Where the constructor ends and leaves a mode other than the passive one, and the file that it
  -- reads, at the path of its own or the daemon's settings, holds printed address rules, the
  -- bounds below 2 ^ 64 and each node a word of 1 to 31 bytes, none of them white space or zero:
  -- a first malloc of more than the threshold, from a caller within the range of a rule whose
  -- node is not negative and of none before it, returns the block that libnuma gives on that
  -- rule's node, if it gives one.
  pub started_malloc :
      (libc : Libc W) (cpu : Cpu) (files : List ℕ → ConfFile) (io : DaemonIo) (debug : Bool)
      (e e' : Environ) (beside : ℤ → ℕ) (w : W) (lib : Library W) (before after : List Entry)
      (start end : ℕ) (word : List ℕ) (caller sz : ℕ)
      → settings io e ≡ applies e'
      → kumf_init kernel numa files io debug e (loaded beside w) ≡ some lib
      → lib.alloc.mode ≢ passive
      → (files (conf_path e')).text
        ≡ some (lines_text (map body (before ++ for_addrs start end word ∷ after)))
      → Names before after start end word caller
      → route_threshold < sz
      → (libc.numa_alloc_onnode sz (rule_node word) lib.alloc.world).0 ≢ 0
      → (malloc
          (record { libc = libc; conf = files (conf_path e'); cpu = cpu })
          caller
          sz
          lib.alloc).0
        ≡ (libc.numa_alloc_onnode sz (rule_node word) lib.alloc.world).0
  started_malloc libc cpu files io debug e e' beside w lib before after start end word caller sz set
        ended on text names large got =
      configured_malloc (record { libc = libc; conf = files (conf_path e'); cpu = cpu }) before
        after start end word caller sz lib.alloc names text
        (kumf_init_rules files io debug e e' beside w lib set ended) on large got
