-- ===== src/Mlock/Table.antt =====
-- src/lib/mlock/ldlib.c: its static variables, `try_mlock`, `record_alloc` and `remove_alloc`. The
-- functions are modelled in one thread.
use kumf.Base.{
  ℕ, ◌+◌, ◌-◌, ◌/◌, ◌%◌, ◌^◌, ltb, leb, ◌==◌, if◌then◌else◌, Bool, true, false, ◌&&◌, ◌||◌, List,
  [], ◌∷◌, Option, none, some,
}
use kumf.HashTable
use kumf.Mlock.Pages.{page_floor, lock_size}

-- The C library's allocator and the two system calls; `mlock` says whether it returned 0.
pub record Libc (W : Type 0) : Type 0 where
  pub malloc : ℕ → W → ℕ × W
  pub calloc : ℕ → ℕ → W → ℕ × W
  pub realloc : ℕ → ℕ → W → ℕ × W
  pub free : ℕ → W → W
  pub mlock : ℕ → ℕ → W → Bool × W
  pub munlock : ℕ → ℕ → W → W

-- `struct alloc_entry`, with the address of the block that holds it; `next` is the chain's tail
pub record AllocEntry : Type 0 where
  pub block : ℕ
  pub addr : ℕ
  pub size : ℕ
  pub access_count : ℕ
  pub locked : Bool

-- `overflowed` says that `alloc_count`, an `int`, was counted past its range, which is undefined: what
-- follows then says nothing of the code.
pub record State (W : Type 0) : Type 0 where
  pub hot_pages : List ℕ
  pub hot_pages_loaded : Bool
  pub total_locked_bytes : ℕ
  pub mlock_budget : ℕ
  pub pages_locked : ℕ
  pub pages_skipped : ℕ
  pub alloc_count : ℕ
  pub overflowed : Bool
  pub alloc_table : ℕ → List AllocEntry
  pub world : W

abbrev pub route_threshold : ℕ
route_threshold = 4096

abbrev pub mlock_first_n : ℕ
mlock_first_n = 20

-- `INT_MAX`
abbrev pub int_max : ℕ
int_max = 2147483647

-- `sizeof(struct alloc_entry)`
abbrev pub entry_size : ℕ
entry_size = 32

-- `(addr >> 12) & ALLOC_HASH_MASK`
unfoldable pub alloc_hash : ℕ → ℕ
alloc_hash addr = (addr / 2 ^ 12) % 2 ^ 14

abbrev pub entry_addr : AllocEntry → ℕ
entry_addr e = e.addr

abbrev pub lookup : ℕ → (ℕ → List AllocEntry) → Option AllocEntry
lookup = HashTable.lookup entry_addr alloc_hash

abbrev pub is_empty : List ℕ → Bool
is_empty [] = true
is_empty (p ∷ ps) = false

abbrev pub new_entry : ℕ → ℕ → ℕ → Bool → AllocEntry
new_entry block ptr size locked = record {
  block = block;
  addr = ptr;
  size = size;
  access_count = 0;
  locked = locked;
}

abbrev pub push_entry : {W : Type 0} → AllocEntry → State W → State W
push_entry e s = record s { alloc_table = HashTable.push entry_addr alloc_hash e s.alloc_table }

module _ {W : Type 0} (libc : Libc W) where
  open libc use {malloc, free, mlock, munlock}

  -- The part behind the count of large allocations: the budget and the call.
  unfoldable pub lock_within : ℕ → ℕ → State W → State W
  lock_within ptr size s =
      let n = lock_size ptr size in
      let total = (s.total_locked_bytes + n) % 2 ^ 64 in
      let (done, w) = mlock (page_floor ptr) n s.world in
      if ltb 0 s.mlock_budget && ltb s.mlock_budget total
      then record s { pages_skipped = s.pages_skipped + 1 }
      else if done
      then record s { total_locked_bytes = total; pages_locked = s.pages_locked + 1; world = w }
      else record s { world = w }

  unfoldable pub try_mlock : ℕ → ℕ → State W → State W
  try_mlock ptr size s =
      let s' = record s {
        alloc_count = s.alloc_count + 1;
        overflowed = s.overflowed || leb int_max s.alloc_count;
      } in
      if ptr == 0 || size == 0
      then s
      else if ltb mlock_first_n (s.alloc_count + 1)
      then record s' { pages_skipped = s.pages_skipped + 1 }
      else lock_within ptr size s'

  -- The new entry is pushed unlocked, and marked once `try_mlock` has returned.
  unfoldable pub record_alloc : ℕ → ℕ → State W → State W
  record_alloc ptr size s =
      let (block, w) = malloc entry_size s.world in
      let s' = record s { world = w } in
      if ptr == 0 || leb size route_threshold
      then s
      else if block == 0
      then s'
      else if is_empty s.hot_pages
      then push_entry (new_entry block ptr size false) s'
      else record (try_mlock ptr size (push_entry (new_entry block ptr size false) s')) {
        alloc_table = (push_entry (new_entry block ptr size true) s').alloc_table;
      }

  -- What is done for the entry before it is unlinked.
  unfoldable pub unlock_entry : AllocEntry → State W → State W
  unlock_entry e s =
      let n = lock_size e.addr e.size in
      if e.locked && ltb 0 e.size
      then record s {
        total_locked_bytes = if leb n s.total_locked_bytes then s.total_locked_bytes - n else 0;
        world = munlock (page_floor e.addr) n s.world;
      }
      else s

  unfoldable pub unlink_entry : ℕ → AllocEntry → State W → State W
  unlink_entry ptr e s = record s {
    alloc_table = HashTable.remove entry_addr alloc_hash ptr s.alloc_table;
    world = free e.block s.world;
  }

  unfoldable pub remove_alloc : ℕ → State W → State W
  remove_alloc ptr s = if ptr == 0 then s else elim (lookup ptr s.alloc_table) [
    | none ↦ s
    | some e ↦ unlink_entry ptr e (unlock_entry e s)
  ]
