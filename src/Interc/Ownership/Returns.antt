-- ===== src/Interc/Ownership/Returns.antt =====
-- The intercepted `free` and `realloc`: a block goes back to the allocator that gave it.
use kumf.Base.{
  ℕ, ◌≡◌, refl, ◌∙◌, ◌≢◌, ◌⊎◌, inl, inr, ◌==◌, true, false, not, ◌&&◌, ◌||◌, none, some, arith,
  Option-cases, ap,
}
use kumf.Base.Store.{update}
use kumf.HashTable
use kumf.Interc.Alloc.{State, Env, run_libc, release, free}
use kumf.Interc.Segs.{check_and_remove_seg, lookup, entry_addr, addr_hash_fn}
use kumf.Interc.Types.{AddrEntry}
use kumf.Interc.Ownership.{
  Block, LibcLaws, Owner, nobody, client, entry_for, segment, stray, block_of, is_client,
  stray_size, Owned,
}
use kumf.Interc.Ownership.Steps.{Owned-take, Owned-remove, Owned-move}
use kumf.Interc.Ownership.Grants.{OwnedState}

-- Nothing stands at `p` any more, and no other block of the program's changes hands.
pub record Revokes (own own' : ℕ → Owner) (p : ℕ) : Type 0 where
  pub gone : own' p ≡ nobody
  pub clients : (a : ℕ) → is_client (own' a) ≡ (is_client (own a) && not (p == a))
  pub strays : (a : ℕ) → stray_size (own' a) ≡ stray_size (own a)

-- The block at `p` became the one at `r`, which is the same or a new one.
pub record Moves (own own' : ℕ → Owner) (p r : ℕ) : Type 0 where
  pub fresh : (not (p == r) && is_client (own r)) ≡ false
  pub clients : (a : ℕ) → is_client (own' a) ≡ (is_client (own a) && not (p == a) || r == a)
  pub strays : (a : ℕ) → stray_size (own' a) ≡ stray_size (own a)

pub stray_of_size : (o : Owner) (n : ℕ) → stray_size o ≡ some n → o ≡ stray n
stray_of_size nobody n h = cc
stray_of_size client n h = cc
stray_of_size (entry_for a) n h = cc
stray_of_size (segment m) n h = cc
stray_of_size (stray m) n h = cc

pub Owner-cases :
    (o : Owner)
    → is_client o ≡ true
    → stray_size o ≡ none
    → (o ≡ client) ⊎ ((n : ℕ) × (o ≡ segment n))
Owner-cases nobody h k = cc
Owner-cases client h k = inl refl
Owner-cases (entry_for a) h k = cc
Owner-cases (segment n) h k = inr (n, refl)
Owner-cases (stray n) h k = cc

module _ {W : Type 0} (env : Env W) (live : W → ℕ → Block) (laws : LibcLaws live env.libc) where
  open env use {libc}

  module _ (s : State W) (own : ℕ → Owner) (inv : OwnedState live s own) (p : ℕ) where
    -- the table knows nothing of a block of the C library's
    pub client_unknown : own p ≡ client → lookup p s.segs ≡ none
    client_unknown c = ground (arith, inv.tracked p)

    pub segment_known :
        (n : ℕ) → own p ≡ segment n → (e : AddrEntry) × (lookup p s.segs ≡ some e) × (e.size ≡ n)
    segment_known n h = elim (Option-cases (lookup p s.segs)) [
      | inl e ↦ absurd (ground (arith, inv.tracked p))
      | inr (e, h') ↦ (e, h', ground (arith, inv.tracked p))
    ]

    release-Revokes :
        own p ≡ client
        → (own' : ℕ → Owner) × OwnedState live (release env p s) own' × Revokes own own' p
    release-Revokes c = (
      update own p nobody,
      Owned-take p (ground arith) (ground arith)
          (laws.free_takes p s.world (inv.agrees p ∙ ap block_of c)) inv,
      record { gone = ground arith; clients = λ a. ground arith; strays = λ a. ground arith },
    )

    free_client : p ≢ 0 → own p ≡ client → free env p s ≡ release env p s
    unfolding free check_and_remove_seg
    free_client nz c = ground (arith, client_unknown c)

    free_segment :
        (n : ℕ) (e : AddrEntry)
        → p ≢ 0
        → own p ≡ segment n
        → lookup p s.segs ≡ some e
        → free env p s ≡ record s {
          segs = HashTable.remove entry_addr addr_hash_fn p s.segs;
          world = libc.numa_free p e.size (libc.free e.block s.world);
        }
    unfolding free check_and_remove_seg
    free_segment n e nz h found = ground (arith, inv.watched p n h, inv.sized p n h, inv.tracked p)

    pub removed :
        (e : AddrEntry)
        → lookup p s.segs ≡ some e
        → Owned live s.mode
            (HashTable.remove entry_addr addr_hash_fn p s.segs)
            s.routing_ever_used
            (libc.free e.block s.world)
            (update (update own e.block nobody) p (stray e.size))
    removed e found =
        Owned-remove p e found
          (laws.free_takes e.block s.world (inv.agrees e.block ∙ ap block_of (inv.nodes p e found)))
          inv

    -- Where the allocators behave as documented, the intercepted free of a block, not null, that
    -- the program holds and that is no stray gives the block to the allocator it came from, keeps
    -- the ownership invariant, and takes that block and no other from the program: nothing lives
    -- at its address any more.
    pub free-Revokes :
        p ≢ 0
        → is_client (own p) ≡ true
        → stray_size (own p) ≡ none
        → (own' : ℕ → Owner) × OwnedState live (free env p s) own' × Revokes own own' p
    free-Revokes nz held known = elim (Owner-cases (own p) held known) [
      | inl c ↦ rw (free_client nz c) (release-Revokes c)
      | inr (n, h) ↦
          let (e, found, size) = segment_known n h in
          let inv₁ = removed e found in
          rw (free_segment n e nz h found) (
            update (update (update own e.block nobody) p (stray e.size)) p nobody,
            Owned-take p (ground arith) (ground arith)
                (laws.numa_takes p e.size _ (inv₁.agrees p ∙ ground arith)) inv₁,
            record {
              gone = ground arith;
              clients = λ a. ground (arith, inv.nodes p e found);
              strays = λ a. ground (arith, inv.nodes p e found);
            },
          )
    ]

    -- the C library's `realloc`, of a block of its own
    pub libc_realloc-Moves :
        (size : ℕ)
        → own p ≡ client
        → (libc.realloc p size s.world).0 ≢ 0
        → let r = run_libc env (libc.realloc p size) s in
          (own' : ℕ → Owner) × OwnedState live r.1 own' × Moves own own' p r.0
    libc_realloc-Moves size c nz =
        elim (laws.realloc_moves p size s.world (inv.agrees p ∙ ap block_of c)) [
          | inl (z, _) ↦ absurd (nz z)
          | inr (inl (z, _)) ↦ absurd (nz z)
          | inr (inr (_, new, moved)) ↦
              let r = (libc.realloc p size s.world).0 in
              (
                update (update own p nobody) r client,
                Owned-move p r c new moved inv,
                record {
                  fresh = ground (arith, inv.agrees r);
                  clients = λ a. ground arith;
                  strays = λ a. ground (arith, inv.agrees r);
                },
              )
        ]
