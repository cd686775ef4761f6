-- ===== src/Interc/Ownership/Balance.antt =====
-- What holds of every sequence of calls: the table, the live blocks and what the program holds
-- agree.
use kumf.Base.{
  ℕ, ◌≡◌, refl, sym, ◌∙◌, ◌≢◌, inl, inr, if◌then◌else◌, Bool, true, false, Option, none, some,
  arith, Bool-cases,
}
use kumf.HashTable
use kumf.Interc.Alloc.{is_passive, State, Env, malloc, realloc, free}
use kumf.Interc.Segs.{entry_size, lookup, addr_hash_fn}
use kumf.Interc.Types.{AddrEntry}
use kumf.Interc.Ownership.{
  Block, unmapped, heap, numa, LibcLaws, Owner, nobody, client, entry_for, segment, stray, block_of,
  is_client, stray_size, segment_size, entry_size_of,
}
use kumf.Interc.Ownership.Grants.{
  OwnedState, Granted, run_libc-Granted, malloc-Granted, calloc-Granted,
}
use kumf.Interc.Ownership.Returns.{free-Revokes}
use kumf.Interc.Ownership.Realloc.{realloc-Moves}
use kumf.Interc.Ownership.Traces.{
  Run, granted, Step, mallocs, callocs, reallocs_null, reallocs, frees_null, frees, switches, Reach,
  start, later, IsFresh, Holds, numa_size, is_mapped, Accounted,
}

segment_size_numa : (o : Owner) → stray_size o ≡ none → segment_size o ≡ numa_size (block_of o)
segment_size_numa nobody h = refl
segment_size_numa client h = refl
segment_size_numa (entry_for a) h = refl
segment_size_numa (segment n) h = refl
segment_size_numa (stray n) h = cc

client_mapped : (o : Owner) → is_client o ≡ true → is_mapped (block_of o) ≡ true
client_mapped nobody h = h
client_mapped client h = h
client_mapped (entry_for a) h = refl
client_mapped (segment n) h = h
client_mapped (stray n) h = h

numa_client : (o : Owner) (n : ℕ) → block_of o ≡ numa n → is_client o ≡ true
numa_client nobody n h = cc
numa_client client n h = refl
numa_client (entry_for a) n h = cc
numa_client (segment m) n h = refl
numa_client (stray m) n h = refl

unheld_size :
    (b : Block) (held : Bool)
    → ((n : ℕ) → b ≡ numa n → held ≡ true)
    → held ≡ false
    → numa_size b ≡ none
unheld_size unmapped held h f = refl
unheld_size heap held h f = refl
unheld_size (numa n) held h f = absurd (ground (arith, h n refl))

entry_size_of-none : (e : Option AddrEntry) → entry_size_of e ≡ none → e ≡ none
entry_size_of-none none h = refl
entry_size_of-none (some e) h = cc

Holds-Accounted :
    {W : Type 0} (live : W → ℕ → Block) (s : Run W) (own : ℕ → Owner)
    → Holds live s own
    → Accounted live s
Holds-Accounted live s own h = record {
  recorded =
      λ a. rw (h.owned.agrees a) (h.owned.tracked a ∙ segment_size_numa (own a) (h.no_stray a));
  mapped = λ a held. rw (h.owned.agrees a) (client_mapped (own a) (h.holds a ∙ held));
  reachable =
      λ a n placed. sym (h.holds a) ∙ numa_client (own a) n (sym (h.owned.agrees a) ∙ placed);
}

module _ {W : Type 0} (env : Env W) (live : W → ℕ → Block) (laws : LibcLaws live env.libc)
    (entries_fit : (w : W) → (env.libc.malloc entry_size w).0 ≢ 0) where
  abbrev first_owner : (ℕ → Bool) → ℕ → Owner
  first_owner held a = if held a then client else nobody

  fresh-Holds : (s : Run W) → IsFresh live s → Holds live s (first_owner s.held)
  unfolding HashTable.lookup HashTable.find
  fresh-Holds s f = record {
    owned = record {
      agrees = λ a. ground (arith, f.blocks a);
      tracked = λ a. ground (arith, f.no_segs (addr_hash_fn a));
      table = λ i. rw (f.no_segs i) tt;
      nodes = λ a e h. ground (arith, f.no_segs (addr_hash_fn a));
      sized = λ a n h. ground arith;
      watched = λ a n h. ground arith;
    };
    holds = λ a. ground arith;
    no_stray = λ a. ground arith;
  }

  granted-Holds :
      (s : Run W) (own : ℕ → Owner) (r : ℕ × State W)
      → Holds live s own
      → Granted live own r
      → (own' : ℕ → Owner) × Holds live (granted r s.held) own'
  granted-Holds s own r h (own', inv, g) = (
    own',
    record {
      owned = inv;
      holds = λ a. ground (arith, g.clients a, h.holds a);
      no_stray = λ a. ground (arith, g.strays a, h.no_stray a);
    },
  )

  realloc_null :
      (self size : ℕ) (s : State W) (own : ℕ → Owner)
      → OwnedState live s own
      → Granted live own (realloc env self 0 size s)
  unfolding realloc
  realloc_null self size s own inv = elim (Bool-cases (is_passive s.mode)) [
    | inl off ↦ rw off (
        run_libc-Granted env live laws (env.libc.malloc size) s own (laws.malloc_gives size s.world)
          inv)
    | inr on ↦ rw on (malloc-Granted env live laws entries_fit self size s own inv)
  ]

  free_null : (s : State W) → free env 0 s ≡ s
  unfolding free
  free_null s = refl

  Step-Holds :
      (s t : Run W)
      → Step env s t
      → (own : ℕ → Owner) → Holds live s own
      → (own' : ℕ → Owner) × Holds live t own'
  Step-Holds s _ (mallocs caller sz) own h =
      granted-Holds s own _ h
        (malloc-Granted env live laws entries_fit caller sz s.state own h.owned)
  Step-Holds s _ (callocs caller nmemb size) own h =
      granted-Holds s own _ h
        (calloc-Granted env live laws entries_fit caller nmemb size s.state own h.owned)
  Step-Holds s _ (reallocs_null self size) own h =
      granted-Holds s own _ h (realloc_null self size s.state own h.owned)
  Step-Holds s _ (reallocs self p size nz held ok) own h =
      let (own', inv, m) =
        realloc-Moves env live laws entries_fit s.state own h.owned p self size nz
          (h.holds p ∙ held) (h.no_stray p) ok in
      (
        own',
        record {
          owned = inv;
          holds = λ a. ground (arith, m.clients a, h.holds a);
          no_stray = λ a. ground (arith, m.strays a, h.no_stray a);
        },
      )
  Step-Holds s _ frees_null own h = rw (free_null s.state) (own, h)
  Step-Holds s _ (frees p nz held) own h =
      let (own', inv, m) =
        free-Revokes env live laws s.state own h.owned p nz (h.holds p ∙ held) (h.no_stray p) in
      (
        own',
        record {
          owned = inv;
          holds = λ a. ground (arith, m.clients a, h.holds a);
          no_stray = λ a. ground (arith, m.strays a, h.no_stray a);
        },
      )
  Step-Holds s _ (switches tls) own h =
      (own, record { owned = h.owned; holds = h.holds; no_stray = h.no_stray })

  pub Reach-Holds :
      (s t : Run W) → IsFresh live s → Reach env s t → (own : ℕ → Owner) × Holds live t own
  Reach-Holds s _ f start = (first_owner s.held, fresh-Holds s f)
  Reach-Holds s _ f (later {t} {u} r st) =
      let (own, h) = Reach-Holds s t f r in Step-Holds t u st own h

  -- Where the allocators behave as documented, an entry's block is never refused, the table is
  -- empty at first and the program holds just the live blocks, all the C library's: after any
  -- sequence of calls of malloc, calloc, realloc and free, each one step, from any threads, that
  -- pass to free and realloc only null or what the program holds, and with no realloc of a block
  -- that returned null, the table records just libnuma's live blocks, each with its size, all
  -- that the program holds is live, and it holds each block of libnuma's.
  pub Reach-Accounted : (s t : Run W) → IsFresh live s → Reach env s t → Accounted live t
  Reach-Accounted s t f r = let (own, h) = Reach-Holds s t f r in Holds-Accounted live t own h

  -- Where the allocators behave as documented, an entry's block is never refused, the table is
  -- empty at first and the program holds just the live blocks, all the C library's: after any
  -- sequence of calls of malloc, calloc, realloc and free, each one step, from any threads, that
  -- pass to free and realloc only null or what the program holds, and with no realloc of a block
  -- that returned null, once the program holds nothing, no block of libnuma's is live and no
  -- look-up in the table finds an entry.
  pub returned_all_leaves_none :
      (s t : Run W)
      → IsFresh live s
      → Reach env s t
      → ((a : ℕ) → t.held a ≡ false)
      → (a : ℕ) → (lookup a t.state.segs ≡ none) × (numa_size (live t.state.world a) ≡ none)
  returned_all_leaves_none s t f r none_held a =
      let acc = Reach-Accounted s t f r in
      let size = unheld_size (live t.state.world a) (t.held a) (acc.reachable a) (none_held a) in
      (entry_size_of-none (lookup a t.state.segs) (acc.recorded a ∙ size), size)

  -- Where the allocators behave as documented, an entry's block is never refused, the table is
  -- empty at first and the program holds just the live blocks, all the C library's: after any
  -- sequence of calls of malloc, calloc, realloc and free, each one step, from any threads, that
  -- pass to free and realloc only null or what the program holds, and with no realloc of a block
  -- that returned null, a further malloc that does not return null returns a block that the
  -- program did not hold, and it is live.
  pub malloc_always_new :
      (s t : Run W) (caller sz : ℕ)
      → IsFresh live s
      → Reach env s t
      → (malloc env caller sz t.state).0 ≢ 0
      → let r = malloc env caller sz t.state in
        (t.held r.0 ≡ false) × (is_mapped (live r.1.world r.0) ≡ true)
  malloc_always_new s t caller sz f r nz =
      let (own, h) = Reach-Holds s t f r in
      let m = malloc env caller sz t.state in
      let (_, _, g) = malloc-Granted env live laws entries_fit caller sz t.state own h.owned in
      let acc = Reach-Accounted s _ f (later r (mallocs caller sz)) in
      let unheld : t.held m.0 ≡ false = ground (arith, g.fresh, h.holds m.0) in
      (unheld, acc.mapped m.0 (ground (arith)))
