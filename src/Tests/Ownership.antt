-- ===== src/Tests/Ownership.antt =====
-- The intercepted allocation functions on the small machine.
use kumf.Base.{
  ℕ, ◌≡◌, refl, ◌≢◌, ◌==◌, if◌then◌else◌, true, false, [], ◌∷◌, none, some, arith, if_cases,
}
use kumf.Base.Int.{pos, nonneg}
use kumf.HashTable
use kumf.HashTable.Laws.{IsDistinct}
use kumf.Interc.Alloc.{State, malloc, realloc, free, release, move_block, route, place}
use kumf.Interc.Config.{load_rules}
use kumf.Interc.Match.{
  resolve_node, resolve_node_relative, match_size, size_matches, match_addr, addr_matches,
}
use kumf.Interc.Match.Laws.{routed_to}
use kumf.Interc.Ownership.{heap, numa, Owner, nobody, client, entry_for, segment}
use kumf.Interc.Ownership.Grants.{OwnedState}
use kumf.Interc.Ownership.Returns.{Revokes, Moves, free-Revokes}
use kumf.Interc.Ownership.Realloc.{realloc-Moves, realloc_failure_misfrees}
use kumf.Interc.Ownership.Traces.{
  Run, Reach, later, mallocs, frees, granted, lose, IsFresh, Accounted, is_mapped, numa_size,
}
use kumf.Interc.Ownership.Balance.{Reach-Accounted, returned_all_leaves_none, malloc_always_new}
use kumf.Interc.Segs.{record_seg, check_and_remove_seg, Segs, lookup, entry_addr, addr_hash_fn}
use kumf.Interc.Types.{AddrEntry}
use kumf.Tests.World.{Memory, live, laws, entries_fit, env, start}

abbrev nobodys : ℕ → Owner
nobodys a = nobody

start-Owned : OwnedState live start nobodys
unfolding HashTable.lookup HashTable.find
start-Owned = record {
  agrees = λ a. refl;
  tracked = λ a. refl;
  table = λ i. tt;
  nodes = λ a e h. cc;
  sized = λ a n h. cc;
  watched = λ a n h. cc;
}

-- A routed block of 5000 bytes at 8192, with its entry at 64, and a block of the C library's at 128.
abbrev block_entry : AddrEntry
block_entry = record { block = 64; addr = 8192; size = 5000 }

abbrev one_segment : Segs
one_segment h = if h == 2 then block_entry ∷ [] else []

abbrev busy : State Memory
busy = record start {
  segs = one_segment;
  routing_ever_used = true;
  world = (8192, numa 5000) ∷ (64, heap) ∷ (128, heap) ∷ [];
}

abbrev owners : ℕ → Owner
owners a =
    if a == 8192
    then segment 5000
    else if a == 64
    then entry_for 8192
    else if a == 128
    then client
    else nobody

lookup_one : (a : ℕ) → lookup a one_segment ≡ (if 8192 == a then some block_entry else none)
unfolding HashTable.lookup HashTable.find addr_hash_fn
lookup_one a = ground arith

one_segment-IsTable : (i : ℕ) → IsDistinct entry_addr (one_segment i)
unfolding HashTable.find
one_segment-IsTable i = if_cases (IsDistinct entry_addr) (i == 2) (λ h. (refl, tt)) (λ h. tt)

busy-Owned : OwnedState live busy owners
busy-Owned = record {
  agrees = λ a. ground arith;
  tracked = λ a. ground (arith, lookup_one a);
  table = one_segment-IsTable;
  nodes = λ a e h. ground (arith, lookup_one a);
  sized = λ a n h. ground arith;
  watched = λ a n h. (refl, refl);
}

moved : (realloc env 1 8192 9000 busy).0 ≢ 0
unfolding realloc check_and_remove_seg HashTable.lookup HashTable.find addr_hash_fn HashTable.remove
    move_block malloc route load_rules resolve_node resolve_node_relative match_size size_matches
    place record_seg
moved = omega arith

failed : (realloc env 1 8192 2000000 busy).0 ≡ 0
unfolding realloc check_and_remove_seg HashTable.lookup HashTable.find addr_hash_fn HashTable.remove
    move_block malloc route load_rules resolve_node resolve_node_relative match_size size_matches
    place record_seg
failed = refl

to_node_one : routed_to start.rules 0 9000 ≡ pos 1
unfolding routed_to match_size size_matches
to_node_one = refl

to_node_one_too : routed_to start.rules 0 8192 ≡ pos 1
unfolding routed_to match_size size_matches
to_node_one_too = refl

to_none : nonneg (routed_to start.rules 0 5000) ≡ false
unfolding routed_to match_size size_matches match_addr addr_matches
to_none = refl

free-Revokes_example :
    (own' : ℕ → Owner) × OwnedState live (free env 8192 busy) own' × Revokes owners own' 8192
free-Revokes_example =
    free-Revokes env live laws busy owners busy-Owned 8192 (omega arith) refl refl

realloc-Moves_example :
    let r = realloc env 1 8192 9000 busy in
    (own' : ℕ → Owner) × OwnedState live r.1 own' × Moves owners own' 8192 r.0
realloc-Moves_example =
    realloc-Moves env live laws entries_fit busy owners busy-Owned 8192 1 9000 (omega arith) refl
      refl moved

realloc_failure_misfrees_example :
    let s' = (realloc env 1 8192 2000000 busy).1 in
    (live s'.world 8192 ≡ numa 5000) × (free env 8192 s' ≡ release env 8192 s')
realloc_failure_misfrees_example =
    realloc_failure_misfrees env live laws entries_fit busy owners busy-Owned 8192 1 2000000 5000
      (omega arith) refl failed

-- A program that begins with nothing, is given a routed block of 8000 bytes, and returns it.
abbrev begun : Run Memory
begun = record { state = start; held = λ a. false }

begun-IsFresh : IsFresh live begun
begun-IsFresh = record { no_segs = λ h. refl; blocks = λ a. refl }

abbrev holding : Run Memory
holding = granted (malloc env 0 8000 start) begun.held

held_block : holding.held 4096 ≡ true
unfolding malloc route load_rules resolve_node resolve_node_relative match_size size_matches place
    record_seg
held_block = refl

abbrev returned : Run Memory
returned = record { state = free env 4096 holding.state; held = lose 4096 holding.held }

to_holding : Reach env begun holding
to_holding = later Reach.start (mallocs 0 8000)

to_returned : Reach env begun returned
to_returned = later to_holding (frees 4096 (omega arith) held_block)

none_held : (a : ℕ) → returned.held a ≡ false
unfolding malloc route load_rules resolve_node resolve_node_relative match_size size_matches place
    record_seg
none_held a = ground arith

second_block : (malloc env 0 9000 holding.state).0 ≢ 0
unfolding malloc route load_rules resolve_node resolve_node_relative match_size size_matches place
    record_seg
second_block = omega arith

Reach-Accounted_example : Accounted live returned
Reach-Accounted_example =
    Reach-Accounted env live laws entries_fit begun returned begun-IsFresh to_returned

returned_all_leaves_none_example :
    (lookup 4096 returned.state.segs ≡ none) × (numa_size (live returned.state.world 4096) ≡ none)
returned_all_leaves_none_example =
    returned_all_leaves_none env live laws entries_fit begun returned begun-IsFresh to_returned
      none_held 4096

malloc_always_new_example :
    let r = malloc env 0 9000 holding.state in
    (holding.held r.0 ≡ false) × (is_mapped (live r.1.world r.0) ≡ true)
malloc_always_new_example =
    malloc_always_new env live laws entries_fit begun holding 0 9000 begun-IsFresh to_holding
      second_block
