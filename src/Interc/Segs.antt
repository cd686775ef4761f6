-- ===== src/Interc/Segs.antt =====
-- src/lib/interc/ldlib.c: `addr_hash`, `record_seg` and `check_and_remove_seg`, over the C library's
-- allocator.
use kumf.Base.{ℕ, ◌/◌, ◌%◌, ◌^◌, ◌==◌, if◌then◌else◌, List, Option, none, some}
use kumf.Base.Int.{ℤ}
use kumf.HashTable
use kumf.Interc.Types.{AddrEntry}

-- The next definitions of the C library's allocator, of libnuma's and of two system calls. A call
-- returns its result and the state `W` of what lies outside; the null pointer is 0.
pub record Libc (W : Type 0) : Type 0 where
  pub malloc : ℕ → W → ℕ × W
  pub calloc : ℕ → ℕ → W → ℕ × W
  pub realloc : ℕ → ℕ → W → ℕ × W
  pub free : ℕ → W → W
  pub memcpy : ℕ → ℕ → ℕ → W → W
  pub numa_alloc_onnode : ℕ → ℤ → W → ℕ × W
  pub numa_free : ℕ → ℕ → W → W

abbrev pub Segs : Type 0
Segs = ℕ → List AddrEntry

-- `(addr >> 12) & ADDR_HASH_MASK`
unfoldable pub addr_hash_fn : ℕ → ℕ
addr_hash_fn addr = (addr / 2 ^ 12) % 2 ^ 16

abbrev pub entry_addr : AddrEntry → ℕ
entry_addr e = e.addr

-- `sizeof(struct addr_entry)`
abbrev pub entry_size : ℕ
entry_size = 24

abbrev pub lookup : ℕ → Segs → Option AddrEntry
lookup = HashTable.lookup entry_addr addr_hash_fn

module _ {W : Type 0} (libc : Libc W) where
  -- If the block for the entry is refused the allocation is not recorded.
  unfoldable pub record_seg : ℕ → ℕ → Segs → W → Segs × W
  record_seg addr size t w =
      let (e, w') = libc.malloc entry_size w in
      if e == 0 then (t, w') else (
        HashTable.push entry_addr addr_hash_fn (record { block = e; addr = addr; size = size }) t,
        w',
      )

  -- The size of the entry that is unlinked and freed, 0 if there is none.
  unfoldable pub check_and_remove_seg : ℕ → Segs → W → ℕ × Segs × W
  check_and_remove_seg addr t w = elim (lookup addr t) [
    | none ↦ (0, t, w)
    | some e ↦ (e.size, HashTable.remove entry_addr addr_hash_fn addr t, libc.free e.block w)
  ]
