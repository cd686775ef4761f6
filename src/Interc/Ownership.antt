-- ===== src/Interc/Ownership.antt =====
-- Who owns a block of memory while the library of src/lib/interc/ldlib.c is at work: the behaviour
-- that its code relies on in the allocators beneath it, and the invariant between the table of
-- segments and the blocks that are live.
pub mod Steps
pub mod Grants
pub mod Returns
pub mod Realloc
pub mod Traces
pub mod Balance
use kumf.Base.{ℕ, ◌<◌, ◌≡◌, ◌≢◌, ◌⊎◌, ◌==◌, if◌then◌else◌, Bool, true, false, Option, none, some}
use kumf.Base.Int.{ℤ}
use kumf.HashTable.Laws.{IsTable}
use kumf.Interc.Alloc.{is_passive}
use kumf.Interc.Segs.{Libc, Segs, lookup, entry_addr, addr_hash_fn}
use kumf.Interc.Types.{Mode, AddrEntry}

-- What stands at an address: nothing, a block of the C library, or one of libnuma with its size.
pub data Block : Type 0 where
  unmapped heap : Block
  numa : ℕ → Block

module _ {W : Type 0} (live : W → ℕ → Block) where
  -- A call that gives a new block of kind `b`, at an address where none was, or returns null.
  abbrev pub Allocates : Block → W → ℕ × W → Type 0
  Allocates b w r =
      ((r.0 ≡ 0) × ((a : ℕ) → live r.1 a ≡ live w a))
      ⊎ ((r.0 ≢ 0)
          × (live w r.0 ≡ unmapped)
          × ((a : ℕ) → live r.1 a ≡ (if r.0 == a then b else live w a)))

  -- A call that takes a block away.
  abbrev pub Releases : ℕ → W → W → Type 0
  Releases p w w' = (a : ℕ) → live w' a ≡ (if p == a then unmapped else live w a)

  -- `realloc` fails and keeps the block, or frees it (size 0), or moves it, perhaps nowhere.
  abbrev pub Reallocates : ℕ → W → ℕ × W → Type 0
  Reallocates p w r =
      ((r.0 ≡ 0) × ((a : ℕ) → live r.1 a ≡ live w a))
      ⊎ ((r.0 ≡ 0) × Releases p w r.1)
      ⊎ ((r.0 ≢ 0)
          × ((r.0 ≡ p) ⊎ (live w r.0 ≡ unmapped))
          × ((a : ℕ)
              → live r.1 a ≡ (if r.0 == a then heap else if p == a then unmapped else live w a)))

  -- The documented behaviour of the allocators. Each release is promised only for a block that its
  -- own allocator gave.
  pub record LibcLaws (libc : Libc W) : Type 0 where
    pub malloc_gives : (n : ℕ) (w : W) → Allocates heap w (libc.malloc n w)
    pub calloc_gives : (k n : ℕ) (w : W) → Allocates heap w (libc.calloc k n w)
    pub numa_gives :
        (n : ℕ) (node : ℤ) (w : W) → Allocates (numa n) w (libc.numa_alloc_onnode n node w)
    pub free_takes : (p : ℕ) (w : W) → live w p ≡ heap → Releases p w (libc.free p w)
    pub numa_takes : (p n : ℕ) (w : W) → live w p ≡ numa n → Releases p w (libc.numa_free p n w)
    pub realloc_moves : (p n : ℕ) (w : W) → live w p ≡ heap → Reallocates p w (libc.realloc p n w)
    pub memcpy_keeps : (d p n : ℕ) (w : W) (a : ℕ) → live (libc.memcpy d p n w) a ≡ live w a

-- What the owner of an address knows: the program holds a block of the C library (`client`), a
-- routed one that the table records (`segment`), or a routed one that it does not (`stray`); a
-- `entry_for` is the entry for the segment at the given address.
pub data Owner : Type 0 where
  nobody client : Owner
  entry_for : ℕ → Owner
  segment : ℕ → Owner
  stray : ℕ → Owner

abbrev pub block_of : Owner → Block
block_of nobody = unmapped
block_of client = heap
block_of (entry_for a) = heap
block_of (segment n) = numa n
block_of (stray n) = numa n

abbrev pub segment_size : Owner → Option ℕ
segment_size nobody = none
segment_size client = none
segment_size (entry_for a) = none
segment_size (segment n) = some n
segment_size (stray n) = none

-- whether the program may pass the address to `free`
abbrev pub is_client : Owner → Bool
is_client nobody = false
is_client client = true
is_client (entry_for a) = false
is_client (segment n) = true
is_client (stray n) = true

abbrev pub stray_size : Owner → Option ℕ
stray_size nobody = none
stray_size client = none
stray_size (entry_for a) = none
stray_size (segment n) = none
stray_size (stray n) = some n

abbrev pub entry_size_of : Option AddrEntry → Option ℕ
entry_size_of none = none
entry_size_of (some e) = some e.size

-- The table records the segments that are live, each with its size and with an entry of its own,
-- and once there is one `free` looks into the table.
pub record Owned {W : Type 0} (live : W → ℕ → Block) (mode : Mode) (t : Segs) (used : Bool) (w : W)
    (own : ℕ → Owner) : Type 0 where
  pub agrees : (a : ℕ) → live w a ≡ block_of (own a)
  pub tracked : (a : ℕ) → entry_size_of (lookup a t) ≡ segment_size (own a)
  pub table : IsTable entry_addr addr_hash_fn t
  pub nodes : (a : ℕ) (e : AddrEntry) → lookup a t ≡ some e → own e.block ≡ entry_for a
  pub sized : (a n : ℕ) → own a ≡ segment n → 0 < n
  pub watched : (a n : ℕ) → own a ≡ segment n → (used ≡ true) × (is_passive mode ≡ false)
