-- ===== src/Interc/Init/Ready.antt =====
-- The constructor ends, and a library that binds threads has what that needs.
use kumf.Base.{ℕ, ◌≡◌, refl, ◌≢◌, ◌⊎◌, ◌==◌, true, List, [], Option, some, length, if_cases, Bool}
use kumf.Base.Int.{ℤ}
use kumf.Interc.Bind.{Kernel}
use kumf.Interc.Config.{ConfFile, load_rules, no_rules}
use kumf.Interc.Daemon.{applies, Environ, DaemonIo}
use kumf.Interc.Threads.{passes_through}
use kumf.Interc.Topology.{Numa}
use kumf.CText.{◌>>=◌}
use kumf.Interc.Types.{batch}
use kumf.Interc.Init.{
  Library, configured_nodes, parse_affinity, is_off, first_node, init_affinity, settings, kumf_init,
  loaded, conf_path,
}

-- What `pthread_create` and the routing by home node rely on.
pub record IsReady {W : Type 0} (lib : Library W) : Type 0 where
  pub some_node : lib.affinity.nodes ≢ []
  pub counted : lib.affinity.node_cpu_counts_loaded ≡ true
  pub home : lib.alloc.tls.home_node ≡ first_node lib.affinity.nodes

-- Ready, unless threads are created as they are.
abbrev pub Settled : {W : Type 0} → Library W → Type 0
Settled lib = (passes_through lib.alloc.mode ≡ true) ⊎ IsReady lib

-- The call ends, and what it leaves is settled.
abbrev pub Settles : {W : Type 0} → Option (Library W) → Type 0
Settles {W} r = (lib : Library W) × (r ≡ some lib) × Settled lib

module _ {W : Type 0} (kernel : Kernel W) (numa : Numa) where
  -- With KUMF_AFFINITY set to off or 0 the constructor binds nothing, and leaves the batch mode
  -- with the rules of the configuration file loaded.
  pub off_keeps_rules :
      (files : List ℕ → ConfFile) (io : DaemonIo) (debug : Bool) (e e' : Environ) (beside : ℤ → ℕ)
      (w : W)
      → settings io e ≡ applies e'
      → is_off (parse_affinity e') ≡ true
      → (lib : Library W) × (kumf_init kernel numa files io debug e (loaded beside w) ≡ some lib)
        × (lib.alloc.mode ≡ batch)
        × (lib.alloc.rules ≡ load_rules (files (conf_path e')) no_rules)
        × (lib.alloc.world ≡ w)
  unfolding kumf_init init_affinity loaded
  off_keeps_rules files io debug e e' beside w set disabled =
      rw (set, kumf_init)
        (if_cases KeepsRules numa.available
          (λ present.
            if_cases KeepsRules (length (configured_nodes numa e' []) == 0)
              (λ none_left. (_, refl, refl, refl, refl))
              (λ some_left.
                if_cases KeepsRules (is_off (parse_affinity e')) (λ h. (_, refl, refl, refl, refl))
                  (λ on. cc)))
          (λ absent. (_, refl, refl, refl, refl)))
    where
      KeepsRules : Option (Library W) → Type 0
      KeepsRules r =
          (lib : Library W) × (r ≡ some lib)
          × (lib.alloc.mode ≡ batch)
          × (lib.alloc.rules ≡ load_rules (files (conf_path e')) no_rules)
          × (lib.alloc.world ≡ w)
