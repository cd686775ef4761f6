-- ===== src/Interc/Ownership/Steps.antt =====
-- The invariant under each of the steps that the allocator's functions are made of.
use kumf.Base.{ℕ, ◌<◌, ◌≡◌, ◌∙◌, ◌⊎◌, ◌==◌, if◌then◌else◌, Bool, true, false, none, some, arith}
use kumf.Base.Store.{update}
use kumf.HashTable
use kumf.HashTable.Laws.{lookup-push, lookup-remove, push-IsTable, remove-IsTable}
use kumf.Interc.Alloc.{is_passive}
use kumf.Interc.Segs.{Segs, lookup, entry_addr, addr_hash_fn}
use kumf.Interc.Types.{Mode, AddrEntry}
use kumf.Interc.Ownership.{
  Block, unmapped, heap, Releases, Owner, nobody, client, entry_for, segment, stray, block_of,
  segment_size, is_client, Owned,
}

module _ {W : Type 0} {live : W → ℕ → Block} {mode : Mode} {t : Segs} {used : Bool} {w : W}
    {own : ℕ → Owner} where
  -- A change of the outside state that no block shows.
  pub Owned-world :
      {w' : W}
      → ((a : ℕ) → live w' a ≡ live w a)
      → Owned live mode t used w own
      → Owned live mode t used w' own
  Owned-world same o = record {
    agrees = λ a. same a ∙ o.agrees a;
    tracked = o.tracked;
    table = o.table;
    nodes = o.nodes;
    sized = o.sized;
    watched = o.watched;
  }

  -- The flag may be set, and not cleared.
  pub Owned-used :
      {used' : Bool}
      → (used ≡ true → used' ≡ true)
      → Owned live mode t used w own
      → Owned live mode t used' w own
  Owned-used up o = record {
    agrees = o.agrees;
    tracked = o.tracked;
    table = o.table;
    nodes = o.nodes;
    sized = o.sized;
    watched = λ a n h. (up (o.watched a n h).0, (o.watched a n h).1);
  }

  -- A new block for an owner that is no segment.
  pub Owned-give :
      {w' : W} (p : ℕ) (o : Owner)
      → segment_size o ≡ none
      → live w p ≡ unmapped
      → ((a : ℕ) → live w' a ≡ (if p == a then block_of o else live w a))
      → Owned live mode t used w own
      → Owned live mode t used w' (update own p o)
  Owned-give p o plain fresh new inv = record {
    agrees = λ a. ground (arith, new a, inv.agrees a);
    tracked = λ a. ground (arith, inv.tracked a, inv.agrees a);
    table = inv.table;
    nodes = λ a e h. ground (arith, inv.nodes a e h, inv.agrees p);
    sized = λ a n h. ground (arith, inv.sized a n);
    watched = λ a n h. ground (arith, inv.watched a n);
  }

  -- The release of a block whose owner is no segment.
  pub Owned-take :
      {w' : W} (p : ℕ)
      → segment_size (own p) ≡ none
      → is_client (own p) ≡ true
      → Releases live p w w'
      → Owned live mode t used w own
      → Owned live mode t used w' (update own p nobody)
  Owned-take p plain held gone inv = record {
    agrees = λ a. ground (arith, gone a, inv.agrees a);
    tracked = λ a. ground (arith, inv.tracked a);
    table = inv.table;
    nodes = λ a e h. ground (arith, inv.nodes a e h);
    sized = λ a n h. ground (arith, inv.sized a n);
    watched = λ a n h. ground (arith, inv.watched a n);
  }

  -- The table entry `e`, at a block of its own, for a stray block.
  pub Owned-push :
      (e : AddrEntry)
      → own e.addr ≡ stray e.size
      → own e.block ≡ entry_for e.addr
      → 0 < e.size
      → used ≡ true
      → is_passive mode ≡ false
      → Owned live mode t used w own
      → Owned live mode
          (HashTable.push entry_addr addr_hash_fn e t)
          used
          w
          (update own e.addr (segment e.size))
  Owned-push e lost held room seen on inv = record {
    agrees = λ a. ground (arith, inv.agrees a);
    tracked = λ a. rw (lookup-push entry_addr addr_hash_fn e a t) (ground (arith, inv.tracked a));
    table = push-IsTable entry_addr addr_hash_fn e t (ground (arith, inv.tracked e.addr)) inv.table;
    nodes = λ a x h. ground (arith, inv.nodes a x, lookup-push entry_addr addr_hash_fn e a t);
    sized = λ a n h. ground (arith, inv.sized a n);
    watched = λ a n h. ground (arith, inv.watched a n);
  }

  -- An entry is taken out: its segment is a stray, its own block nobody's once it is freed.
  pub Owned-remove :
      {w' : W} (p : ℕ) (e : AddrEntry)
      → lookup p t ≡ some e
      → Releases live e.block w w'
      → Owned live mode t used w own
      → Owned live mode
          (HashTable.remove entry_addr addr_hash_fn p t)
          used
          w'
          (update (update own e.block nobody) p (stray e.size))
  Owned-remove p e found gone inv = record {
    agrees = λ a. ground (arith, gone a, inv.agrees a, inv.tracked p, inv.nodes p e found);
    tracked = λ a.
        rw (lookup-remove entry_addr addr_hash_fn p a t inv.table)
          (ground (arith, inv.tracked a, inv.nodes p e found));
    table = remove-IsTable entry_addr addr_hash_fn p t inv.table;
    nodes = λ a x h. ground (
      arith,
      inv.nodes a x,
      inv.nodes p e found,
      inv.tracked p,
      lookup-remove entry_addr addr_hash_fn p a t inv.table,
    );
    sized = λ a n h. ground (arith, inv.sized a n);
    watched = λ a n h. ground (arith, inv.watched a n);
  }

  -- A block of the program's at `p` became one at `r`.
  pub Owned-move :
      {w' : W} (p r : ℕ)
      → own p ≡ client
      → (r ≡ p) ⊎ (live w r ≡ unmapped)
      → ((a : ℕ) → live w' a ≡ (if r == a then heap else if p == a then unmapped else live w a))
      → Owned live mode t used w own
      → Owned live mode t used w' (update (update own p nobody) r client)
  Owned-move p r c new moved inv = record {
    agrees = λ a. ground (arith, moved a, inv.agrees a);
    tracked = λ a. ground (arith, inv.tracked a, inv.agrees r);
    table = inv.table;
    nodes = λ a e h. ground (arith, inv.nodes a e h, inv.agrees r);
    sized = λ a n h. ground (arith, inv.sized a n);
    watched = λ a n h. ground (arith, inv.watched a n);
  }
