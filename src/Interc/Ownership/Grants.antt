-- ===== src/Interc/Ownership/Grants.antt =====
-- The intercepted allocation functions keep the invariant, and what they return is a new block of
-- the program's.
use kumf.Base.{
  ℕ, ◌<◌, ◌*◌, ◌%◌, ◌≡◌, refl, ◌∙◌, ◌≢◌, inl, inr, ◌==◌, if◌then◌else◌, true, false, not, ◌&&◌,
  ◌||◌, Option, none, some, arith, Bool-cases,
}
use kumf.Base.Int.{ℤ, nonneg}
use kumf.Base.Store.{update}
use kumf.HashTable
use kumf.Interc.Alloc.{
  State, Env, is_passive, is_routable, run_libc, or_else, place, route, malloc, calloc,
}
use kumf.Interc.Config.{load_rules}
use kumf.Interc.Match.{resolve_node}
use kumf.Interc.Match.Laws.{resolve_node_used}
use kumf.Interc.Segs.{record_seg, entry_size, entry_addr, addr_hash_fn}
use kumf.Interc.Types.{size_mod}
use kumf.Interc.Ownership.{
  Block, unmapped, heap, numa, Allocates, LibcLaws, Owner, client, entry_for, segment, stray,
  is_client, stray_size, Owned,
}
use kumf.Interc.Ownership.Steps.{Owned-world, Owned-used, Owned-give, Owned-push}

abbrev pub OwnedState : {W : Type 0} → (W → ℕ → Block) → State W → (ℕ → Owner) → Type 0
OwnedState live s own = Owned live s.mode s.segs s.routing_ever_used s.world own

-- The pointer `r` is null or a new block of the program's, and no other block changes hands.
pub record Grants (own own' : ℕ → Owner) (r : ℕ) : Type 0 where
  pub fresh : (not (r == 0) && is_client (own r)) ≡ false
  pub clients : (a : ℕ) → is_client (own' a) ≡ (is_client (own a) || (not (r == 0) && r == a))
  pub strays : (a : ℕ) → stray_size (own' a) ≡ stray_size (own a)

pub Grants-trans :
    {own own₁ own₂ : ℕ → Owner} (r : ℕ) → Grants own own₁ 0 → Grants own₁ own₂ r → Grants own own₂ r
Grants-trans r g h = record {
  fresh = ground (arith, g.clients r, h.fresh);
  clients = λ a. ground (arith, g.clients a, h.clients a);
  strays = λ a. h.strays a ∙ g.strays a;
}

Grants-refl : (own : ℕ → Owner) → Grants own own 0
Grants-refl own = record { fresh = refl; clients = λ a. ground arith; strays = λ a. refl }

abbrev pub Granted : {W : Type 0} → (W → ℕ → Block) → (ℕ → Owner) → ℕ × State W → Type 0
Granted live own r = (own' : ℕ → Owner) × OwnedState live r.1 own' × Grants own own' r.0

abbrev pub pointer : Option ℕ → ℕ
pointer none = 0
pointer (some a) = a

module _ {W : Type 0} (env : Env W) (live : W → ℕ → Block) (laws : LibcLaws live env.libc) where
  open env use {libc, conf, cpu}

  -- a call of the C library's allocator
  pub run_libc-Granted :
      (call : W → ℕ × W) (s : State W) (own : ℕ → Owner)
      → Allocates live heap s.world (call s.world)
      → OwnedState live s own
      → Granted live own (run_libc env call s)
  run_libc-Granted call s own (inl (z, same)) inv =
      (own, Owned-world same inv, rw z (Grants-refl own))
  run_libc-Granted call s own (inr (nz, new, given)) inv = (
    update own (call s.world).0 client,
    Owned-give (call s.world).0 client refl new given inv,
    record {
      fresh = ground (arith, inv.agrees (call s.world).0);
      clients = λ a. ground arith;
      strays = λ a. ground (arith, inv.agrees (call s.world).0);
    },
  )

  module _ (entries_fit : (w : W) → (libc.malloc entry_size w).0 ≢ 0) where
    place_refused :
        (sz : ℕ) (node : ℤ) (s : State W)
        → (libc.numa_alloc_onnode sz node s.world).0 ≡ 0
        → place env sz node s
          ≡ (none, record s { world = (libc.numa_alloc_onnode sz node s.world).1 })
    unfolding place
    place_refused sz node s z = ground arith

    place_given :
        (sz : ℕ) (node : ℤ) (s : State W)
        → let r = libc.numa_alloc_onnode sz node s.world in
          let e = libc.malloc entry_size r.1 in
          r.0 ≢ 0
          → place env sz node s ≡ (
            some r.0,
            record s {
              segs =
                  HashTable.push entry_addr addr_hash_fn
                    (record { block = e.0; addr = r.0; size = sz })
                    s.segs;
              world = e.1;
            },
          )
    unfolding place record_seg
    place_given sz node s nz =
        ground (arith, entries_fit (libc.numa_alloc_onnode sz node s.world).1)

    -- a block of libnuma's and the block for its entry, once both are there
    fresh_segment :
        (sz : ℕ) (s : State W) (own : ℕ → Owner) (r : ℕ × W)
        → 0 < sz
        → s.routing_ever_used ≡ true
        → is_passive s.mode ≡ false
        → OwnedState live s own
        → r.0 ≢ 0
        → live s.world r.0 ≡ unmapped
        → ((a : ℕ) → live r.1 a ≡ (if r.0 == a then numa sz else live s.world a))
        → Allocates live heap r.1 (libc.malloc entry_size r.1)
        → Granted live own (
          r.0,
          record s {
            segs =
                HashTable.push entry_addr addr_hash_fn
                  (record { block = (libc.malloc entry_size r.1).0; addr = r.0; size = sz })
                  s.segs;
            world = (libc.malloc entry_size r.1).1;
          },
        )
    fresh_segment sz s own r size seen on inv nz new given (inl (z, same)) =
        absurd (entries_fit r.1 z)
    fresh_segment sz s own r size seen on inv nz new given (inr (ez, enew, egiven)) =
        let e = (libc.malloc entry_size r.1).0 in
        let inv₁ = Owned-give r.0 (stray sz) refl new given inv in
        let inv₂ = Owned-give e (entry_for r.0) refl enew egiven inv₁ in
        let apart : r.0 ≢ e = ground (arith, given e) in
        (
          update (update (update own r.0 (stray sz)) e (entry_for r.0)) r.0 (segment sz),
          Owned-push (record { block = e; addr = r.0; size = sz }) (ground arith) (ground arith)
              size seen on inv₂,
          record {
            fresh = ground (arith, inv.agrees r.0);
            clients = λ a. ground (arith, inv₁.agrees e);
            strays = λ a. ground (arith, inv.agrees r.0, inv₁.agrees e);
          },
        )

    place-Granted :
        (sz : ℕ) (node : ℤ) (s : State W) (own : ℕ → Owner)
        → 0 < sz
        → s.routing_ever_used ≡ true
        → is_passive s.mode ≡ false
        → OwnedState live s own
        → Granted live own (pointer (place env sz node s).0, (place env sz node s).1)
    place-Granted sz node s own size seen on inv = elim (laws.numa_gives sz node s.world) [
      | inl (z, same) ↦ rw (place_refused sz node s z) (own, Owned-world same inv, Grants-refl own)
      | inr (nz, new, given) ↦ rw (place_given sz node s nz) (
          fresh_segment sz s own _ size seen on inv nz new given
            (laws.malloc_gives entry_size (libc.numa_alloc_onnode sz node s.world).1))
    ]

    route-Granted :
        (caller sz : ℕ) (s : State W) (own : ℕ → Owner)
        → 0 < sz
        → is_passive s.mode ≡ false
        → OwnedState live s own
        → Granted live own (pointer (route env caller sz s).0, (route env caller sz s).1)
    unfolding route
    route-Granted caller sz s own size on inv =
        let rules = load_rules conf s.rules in
        let r = resolve_node cpu rules caller sz s.tls s.routing_ever_used in
        let used : r.2 ≡ (if nonneg r.0 then true else s.routing_ever_used) =
          resolve_node_used cpu rules caller sz s.tls s.routing_ever_used in
        let inv' = Owned-used {used' = r.2} (λ h. ground arith) inv in
        elim (Bool-cases (nonneg r.0)) [
          | inl yes_node ↦ rw yes_node (
              place-Granted sz r.0 (record s { rules = rules; tls = r.1; routing_ever_used = r.2 })
                own size (ground arith) on inv')
          | inr no_node ↦ rw no_node (own, inv', Grants-refl own)
        ]

    -- What the C library gives where the routed attempt gave no block.
    or_else-Granted :
        (call : W → ℕ × W) (r : Option ℕ × State W) (own : ℕ → Owner)
        → ((w : W) → Allocates live heap w (call w))
        → Granted live own (pointer r.0, r.1)
        → Granted live own (or_else env r call)
    or_else-Granted call (some a, s) own gives g = g
    or_else-Granted call (none, s) own gives (own₁, inv, g) =
        let (own₂, inv', g') = run_libc-Granted call s own₁ (gives s.world) inv in
        (own₂, inv', Grants-trans (call s.world).0 g g')

    -- Where the allocators behave as documented and an entry's block is never refused, the
    -- intercepted malloc keeps the ownership invariant between the table of segments and the live
    -- blocks, and its result is null or a block that is new to the program; no other block
    -- changes hands, whether the rules route it or not.
    pub malloc-Granted :
        (caller sz : ℕ) (s : State W) (own : ℕ → Owner)
        → OwnedState live s own
        → Granted live own (malloc env caller sz s)
    unfolding malloc
    malloc-Granted caller sz s own inv =
        let plain = run_libc-Granted (libc.malloc sz) s own (laws.malloc_gives sz s.world) inv in
        elim (Bool-cases (is_passive s.mode)) [
          | inl off ↦ rw off plain
          | inr on ↦ elim (Bool-cases (is_routable env sz s)) [
            | inl large ↦
                rw (on, large)
                  (or_else-Granted (libc.malloc sz) _ own (laws.malloc_gives sz)
                    (route-Granted caller sz s own (ground arith) on inv))
            | inr small ↦ rw (on, small) plain
          ]
        ]

    -- Where the allocators behave as documented and an entry's block is never refused, the
    -- intercepted calloc keeps the ownership invariant, and its result is null or a block that is
    -- new to the program, also where the product of its arguments wraps.
    pub calloc-Granted :
        (caller nmemb size : ℕ) (s : State W) (own : ℕ → Owner)
        → OwnedState live s own
        → Granted live own (calloc env caller nmemb size s)
    unfolding calloc
    calloc-Granted caller nmemb size s own inv =
        let total = (nmemb * size) % size_mod in
        let plain =
          run_libc-Granted (libc.calloc nmemb size) s own (laws.calloc_gives nmemb size s.world)
            inv in
        elim (Bool-cases (is_passive s.mode)) [
          | inl off ↦ rw off plain
          | inr on ↦ elim (Bool-cases (is_routable env total s)) [
            | inl large ↦
                rw (on, large)
                  (or_else-Granted (libc.calloc nmemb size) _ own (laws.calloc_gives nmemb size)
                    (route-Granted caller total s own (ground arith) on inv))
            | inr small ↦ rw (on, small) plain
          ]
        ]
