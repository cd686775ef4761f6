-- ===== src/Interc/Ownership/Realloc.antt =====
-- The intercepted `realloc`, which moves a routed block by `malloc`, a copy and a release.
use kumf.Base.{ℕ, ◌≡◌, sym, ◌∙◌, ◌≢◌, inl, inr, ltb, if◌then◌else◌, true, none, some, arith, ap}
use kumf.Base.Store.{update}
use kumf.HashTable
use native.Mathlib.Decide.{ℕ_discrete}
use kumf.Interc.Alloc.{State, Env, run_libc, release, malloc, free, realloc, move_block}
use kumf.Interc.Segs.{check_and_remove_seg, entry_size, lookup, entry_addr, addr_hash_fn}
use kumf.Interc.Types.{AddrEntry}
use kumf.Interc.Ownership.{
  Block, numa, LibcLaws, Owner, nobody, client, segment, stray, block_of, is_client, stray_size,
}
use kumf.Interc.Ownership.Steps.{Owned-world, Owned-take}
use kumf.Interc.Ownership.Grants.{OwnedState, malloc-Granted}
use kumf.Interc.Ownership.Returns.{
  Moves, Owner-cases, stray_of_size, client_unknown, segment_known, removed, libc_realloc-Moves,
}

module _ {W : Type 0} (env : Env W) (live : W → ℕ → Block) (laws : LibcLaws live env.libc) where
  open env use {libc}

  module _ (s : State W) (own : ℕ → Owner) (inv : OwnedState live s own) (p : ℕ) where
    realloc_client :
        (self size : ℕ)
        → p ≢ 0
        → own p ≡ client
        → realloc env self p size s ≡ run_libc env (libc.realloc p size) s
    unfolding realloc check_and_remove_seg
    realloc_client self size nz c = ground (arith, client_unknown env live laws s own inv p c)

    -- the state once the entry for the block is out of the table
    abbrev unrecorded : AddrEntry → State W
    unrecorded e = record s {
      segs = HashTable.remove entry_addr addr_hash_fn p s.segs;
      world = libc.free e.block s.world;
    }

    -- a block that the table does not know goes to the C library
    stray_free : (n : ℕ) → p ≢ 0 → own p ≡ stray n → free env p s ≡ release env p s
    unfolding free check_and_remove_seg
    stray_free n nz h = ground (arith, inv.tracked p)

    realloc_segment :
        (self size n : ℕ) (e : AddrEntry)
        → p ≢ 0
        → own p ≡ segment n
        → lookup p s.segs ≡ some e
        → realloc env self p size s ≡ move_block env self p e.size size (unrecorded e)
    unfolding realloc check_and_remove_seg
    realloc_segment self size n e nz h found =
        ground (arith, inv.watched p n h, inv.sized p n h, inv.tracked p)

  move_block_null :
      (self p old size : ℕ) (s : State W)
      → (malloc env self size s).0 ≡ 0
      → move_block env self p old size s ≡ malloc env self size s
  unfolding move_block
  move_block_null self p old size s z = ground arith

  -- the copy, then the release of the old block
  abbrev finished : ℕ → ℕ → ℕ → ℕ × State W → State W
  finished p old size r = record (r.1) {
    world = libc.numa_free p old (libc.memcpy r.0 p (if ltb old size then old else size) r.1.world);
  }

  move_block_some :
      (self p old size : ℕ) (s : State W)
      → (malloc env self size s).0 ≢ 0
      → move_block env self p old size s
        ≡ ((malloc env self size s).0, finished p old size (malloc env self size s))
  unfolding move_block
  move_block_some self p old size s nz = ground arith

  -- The old block, a stray by now, goes back to libnuma once the new one is filled.
  finished-Owned :
      (p old size : ℕ) (r : ℕ × State W) (own : ℕ → Owner)
      → own p ≡ stray old
      → OwnedState live r.1 own
      → OwnedState live (finished p old size r) (update own p nobody)
  finished-Owned p old size r own lost inv =
      let n = if ltb old size then old else size in
      let inv₁ = Owned-world (laws.memcpy_keeps r.0 p n r.1.world) inv in
      Owned-take p (ground arith) (ground arith)
        (laws.numa_takes p old _ (inv₁.agrees p ∙ ap block_of lost)) inv₁

  module _ (entries_fit : (w : W) → (libc.malloc entry_size w).0 ≢ 0) (s : State W)
      (own : ℕ → Owner) (inv : OwnedState live s own) (p : ℕ) where
    segment-Moves :
        (self size n : ℕ)
        → p ≢ 0
        → own p ≡ segment n
        → (realloc env self p size s).0 ≢ 0
        → let r = realloc env self p size s in
          (own' : ℕ → Owner) × OwnedState live r.1 own' × Moves own own' p r.0
    segment-Moves self size n nz h ok =
        let (e, found, _) = segment_known env live laws s own inv p n h in
        let step = realloc_segment s own inv p self size n e nz h found in
        let s₁ = unrecorded s own inv p e in
        let inv₁ = removed env live laws s own inv p e found in
        let (own₂, inv₂, g) = malloc-Granted env live laws entries_fit self size s₁ _ inv₁ in
        let r = malloc env self size s₁ in
        let some_block : r.0 ≢ 0 = λ z. ok (rw (step, move_block_null self p e.size size s₁ z) z) in
        let lost : own₂ p ≡ stray e.size =
          stray_of_size (own₂ p) e.size (g.strays p ∙ ground arith) in
        rw (step, move_block_some self p e.size size s₁ some_block)
          (
            update own₂ p nobody,
            finished-Owned p e.size size r own₂ lost inv₂,
            record {
              fresh = ground (arith, g.fresh, inv.nodes p e found);
              clients = λ a. ground (arith, g.clients a, g.fresh, inv.nodes p e found);
              strays = λ a. ground (arith, g.strays a, inv.nodes p e found);
            },
          )

    -- Where the allocators behave as documented and an entry's block is never refused, a realloc
    -- of a block, not null, that the program holds and that is no stray, with a result that is
    -- not null, keeps the ownership invariant: the program holds the new block in place of the
    -- old one, and every other block as before.
    pub realloc-Moves :
        (self size : ℕ)
        → p ≢ 0
        → is_client (own p) ≡ true
        → stray_size (own p) ≡ none
        → (realloc env self p size s).0 ≢ 0
        → let r = realloc env self p size s in
          (own' : ℕ → Owner) × OwnedState live r.1 own' × Moves own own' p r.0
    realloc-Moves self size nz held known ok = elim (Owner-cases (own p) held known) [
      | inl c ↦
          let step = realloc_client s own inv p self size nz c in
          rw step (libc_realloc-Moves env live laws s own inv p size c (rw step at ok))
      | inr (n, h) ↦ segment-Moves self size n nz h ok
    ]

    -- Where the allocators behave as documented and an entry's block is never refused, a realloc
    -- of a routed block that returns null leaves the block live, as libnuma's, and out of the
    -- table: a free of it afterwards hands it to the C library's free.
    pub realloc_failure_misfrees :
        (self size n : ℕ)
        → p ≢ 0
        → own p ≡ segment n
        → (realloc env self p size s).0 ≡ 0
        → let s' = (realloc env self p size s).1 in
          (live s'.world p ≡ numa n) × (free env p s' ≡ release env p s')
    realloc_failure_misfrees self size n nz h failed =
        let (e, found, fits) = segment_known env live laws s own inv p n h in
        let step = realloc_segment s own inv p self size n e nz h found in
        let s₁ = unrecorded s own inv p e in
        let inv₁ = removed env live laws s own inv p e found in
        let (own₂, inv₂, g) = malloc-Granted env live laws entries_fit self size s₁ _ inv₁ in
        let r = malloc env self size s₁ in
        let lost : own₂ p ≡ stray e.size =
          stray_of_size (own₂ p) e.size (g.strays p ∙ ground arith) in
        elim (ℕ_discrete r.0 0) [
          | yes z ↦
              rw (step, move_block_null self p e.size size s₁ z)
                (
                  inv₂.agrees p ∙ ap block_of lost ∙ ap numa fits,
                  stray_free (malloc env self size s₁).1 own₂ inv₂ p e.size nz lost,
                )
          | no some_block ↦ absurd (
              some_block (
                ap (λ x. x.0) (sym (move_block_some self p e.size size s₁ some_block))
                ∙ (rw step at failed)))
        ]
