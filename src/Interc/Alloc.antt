-- ===== src/Interc/Alloc.antt =====
-- src/lib/interc/ldlib.c: the intercepted `malloc`, `calloc`, `realloc` and `free`. C++'s `operator
-- new` and `operator delete` call the first and the last. A caller is its return address.
pub mod Branches
pub mod Configured
use kumf.Base.{
  ℕ, ◌*◌, ◌%◌, ltb, ◌==◌, if◌then◌else◌, Bool, true, false, ◌&&◌, List, [], ◌∷◌, Option, none, some,
}
use kumf.Base.Int.{ℤ, nonneg}
use kumf.Interc.Config.{ConfFile, load_rules}
use kumf.Interc.Match.{Cpu, resolve_node}
use kumf.Interc.Segs.{Libc, Segs, record_seg, check_and_remove_seg}
use kumf.Interc.Types.{
  Mode, batch, per_thread, routing, passive, Rules, Tls, route_threshold, size_mod,
}

-- The static variables that these functions read or write, and the state of what lies outside.
pub record State (W : Type 0) : Type 0 where
  pub mode : Mode
  pub rules : Rules
  pub segs : Segs
  pub routing_ever_used : Bool
  pub tls : Tls
  pub world : W

abbrev pub is_passive : Mode → Bool
is_passive passive = true
is_passive batch = false
is_passive per_thread = false
is_passive routing = false

-- What the functions find around them: the allocators, the configuration file, the processor.
pub record Env (W : Type 0) : Type 0 where
  pub libc : Libc W
  pub conf : ConfFile
  pub cpu : Cpu

module _ {W : Type 0} (env : Env W) where
  open env use {libc, conf, cpu}

  -- A block on the node, recorded in the table.
  unfoldable pub place : ℕ → ℤ → State W → Option ℕ × State W
  unfolding record_seg
  place sz node s =
      let (addr, w) = libc.numa_alloc_onnode sz node s.world in
      if addr == 0
      then (none, record s { world = w })
      else (let (t, w') = record_seg libc addr sz s.segs w in
          (some addr, record s { segs = t; world = w' }))

  -- The common part of `malloc` and `calloc`: the routed block, if the rules name a node and
  -- libnuma gives a block there. The rules are read, the counters and the table kept.
  unfoldable pub route : ℕ → ℕ → State W → Option ℕ × State W
  route caller sz s =
      let rules = load_rules conf s.rules in
      let (node, tls, used) = resolve_node cpu rules caller sz s.tls s.routing_ever_used in
      let s' = record s { rules = rules; tls = tls; routing_ever_used = used } in
      if nonneg node then place sz node s' else (none, s')

  -- `if (layer2_active && sz > ROUTE_THRESHOLD)`
  abbrev pub is_routable : ℕ → State W → Bool
  is_routable sz s = s.rules.layer2_active && ltb route_threshold sz

  abbrev pub run_libc : (W → ℕ × W) → State W → ℕ × State W
  run_libc call s = let (p, w) = call s.world in (p, record s { world = w })

  abbrev pub or_else : Option ℕ × State W → (W → ℕ × W) → ℕ × State W
  or_else (some addr, s) call = (addr, s)
  or_else (none, s) call = run_libc call s

  unfoldable pub malloc : ℕ → ℕ → State W → ℕ × State W
  malloc caller sz s =
      if is_passive s.mode
      then run_libc (libc.malloc sz) s
      else if is_routable sz s
      then or_else (route caller sz s) (libc.malloc sz)
      else run_libc (libc.malloc sz) s

  unfoldable pub calloc : ℕ → ℕ → ℕ → State W → ℕ × State W
  calloc caller nmemb size s =
      if is_passive s.mode
      then run_libc (libc.calloc nmemb size) s
      else (let total = (nmemb * size) % size_mod in
          if is_routable total s
          then or_else (route caller total s) (libc.calloc nmemb size)
          else run_libc (libc.calloc nmemb size) s)

  -- The tail of `realloc` for a block that the table knew: the new block, the copy, the release.
  -- `malloc` is called from here, so its caller is the address `self` in this library.
  unfoldable pub move_block : ℕ → ℕ → ℕ → ℕ → State W → ℕ × State W
  move_block self ptr old_sz size s =
      let (new_addr, s') = malloc self size s in
      if new_addr == 0
      then (new_addr, s')
      else (let w = libc.memcpy new_addr ptr (if ltb old_sz size then old_sz else size) s'.world in
          (new_addr, record s' { world = libc.numa_free ptr old_sz w }))

  unfoldable pub realloc : ℕ → ℕ → ℕ → State W → ℕ × State W
  realloc self ptr size s =
      if is_passive s.mode
      then if ptr == 0 then run_libc (libc.malloc size) s else run_libc (libc.realloc ptr size) s
      else if ptr == 0
      then malloc self size s
      else (let (old_sz, t, w) = check_and_remove_seg libc ptr s.segs s.world in
          let s' = record s { segs = t; world = w } in
          if ltb 0 old_sz
          then move_block self ptr old_sz size s'
          else run_libc (libc.realloc ptr size) s')

  abbrev pub release : ℕ → State W → State W
  release p s = record s { world = libc.free p s.world }

  unfoldable pub free : ℕ → State W → State W
  free p s =
      if p == 0
      then s
      else if is_passive s.mode
      then release p s
      else if s.routing_ever_used
      then (let (sz, t, w) = check_and_remove_seg libc p s.segs s.world in
          let s' = record s { segs = t; world = w } in
          if ltb 0 sz then record s' { world = libc.numa_free p sz w } else release p s')
      else release p s
