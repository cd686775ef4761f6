-- ===== src/Mlock/Accounts.antt =====
-- What recording an allocation and removing it again leave of the count of locked bytes.
use kumf.Base.{ℕ, ◌+◌, ◌-◌, ◌^◌, ◌<◌, ◌≤◌, ◌≡◌, ◌≢◌, leb, if◌then◌else◌, true, false, arith}
use kumf.HashTable
use kumf.HashTable.Laws.{lookup-push}
use kumf.Mlock.Pages.{page_floor, lock_size}
use kumf.Mlock.Table.{
  Libc, State, entry_addr, alloc_hash, entry_size, new_entry, push_entry, is_empty, lock_within,
  try_mlock, record_alloc, remove_alloc, unlock_entry, unlink_entry, mlock_first_n, route_threshold,
  int_max,
}

module _ {W : Type 0} (libc : Libc W) where
  -- the state at the time of the attempt, the entry pushed
  abbrev pushed : ℕ → ℕ → State W → State W
  pushed ptr size s =
      let r = libc.malloc entry_size s.world in
      push_entry (new_entry r.0 ptr size false) (record s { world = r.1 })

  abbrev marked : ℕ → ℕ → State W → State W
  marked ptr size s =
      let r = libc.malloc entry_size s.world in
      record (try_mlock libc ptr size (pushed ptr size s)) {
        alloc_table =
            HashTable.push entry_addr alloc_hash (new_entry r.0 ptr size true) s.alloc_table;
      }

  record_alloc-marked :
      (ptr size : ℕ) (s : State W)
      → ptr ≢ 0
      → route_threshold < size
      → is_empty s.hot_pages ≡ false
      → (libc.malloc entry_size s.world).0 ≢ 0
      → record_alloc libc ptr size s ≡ marked ptr size s
  unfolding record_alloc
  record_alloc-marked ptr size s nz large hot given = ground arith

  remove_alloc-marked :
      (ptr size : ℕ) (s : State W)
      → ptr ≢ 0
      → 0 < size
      → let total = (try_mlock libc ptr size (pushed ptr size s)).total_locked_bytes in
        (remove_alloc libc ptr (marked ptr size s)).total_locked_bytes
        ≡ (if leb (lock_size ptr size) total then total - lock_size ptr size else 0)
  unfolding remove_alloc unlock_entry unlink_entry
  remove_alloc-marked ptr size s nz large = ground (
    arith,
    lookup-push entry_addr alloc_hash (new_entry (libc.malloc entry_size s.world).0 ptr size true)
        ptr s.alloc_table,
  )

  locked_total :
      (ptr size : ℕ) (s : State W)
      → ptr ≢ 0
      → 0 < size
      → s.alloc_count < mlock_first_n
      → s.total_locked_bytes + lock_size ptr size ≤ s.mlock_budget
      → s.mlock_budget < 2 ^ 64
      → (libc.mlock (page_floor ptr) (lock_size ptr size) (pushed ptr size s).world).0 ≡ true
      → (try_mlock libc ptr size (pushed ptr size s)).total_locked_bytes
        ≡ s.total_locked_bytes + lock_size ptr size
  unfolding try_mlock lock_within
  locked_total ptr size s nz large early room small done = ground arith

  skipped_total :
      (ptr size : ℕ) (s : State W)
      → mlock_first_n ≤ s.alloc_count
      → (try_mlock libc ptr size (pushed ptr size s)).total_locked_bytes ≡ s.total_locked_bytes
  unfolding try_mlock
  skipped_total ptr size s late = ground arith

  -- Where a new allocation above the threshold gets its entry, is among the first 20, fits the
  -- budget and mlock succeeds, recording and then removing it leaves the count of locked bytes as
  -- it was.
  pub remove_alloc-record_alloc :
      (ptr size : ℕ) (s : State W)
      → ptr ≢ 0
      → route_threshold < size
      → is_empty s.hot_pages ≡ false
      → (libc.malloc entry_size s.world).0 ≢ 0
      → s.alloc_count < mlock_first_n
      → s.total_locked_bytes + lock_size ptr size ≤ s.mlock_budget
      → s.mlock_budget < 2 ^ 64
      → (libc.mlock (page_floor ptr) (lock_size ptr size) (libc.malloc entry_size s.world).1).0
        ≡ true
      → (remove_alloc libc ptr (record_alloc libc ptr size s)).total_locked_bytes
        ≡ s.total_locked_bytes
  remove_alloc-record_alloc ptr size s nz large hot given early room small done =
      rw (record_alloc-marked ptr size s nz large hot given) (
        ground (
          arith,
          remove_alloc-marked ptr size s nz (omega arith),
          locked_total ptr size s nz (omega arith) early room small done,
        ))

  -- From the 21st attempt on, as long as the counter of attempts does not overflow, recording an
  -- allocation above the threshold that gets its entry, with a list of hot pages, locks nothing,
  -- and removing it afterwards takes the bytes of its pages off the count of locked bytes all the
  -- same.
  pub skipped_release_undercounts :
      (ptr size : ℕ) (s : State W)
      → ptr ≢ 0
      → route_threshold < size
      → is_empty s.hot_pages ≡ false
      → (libc.malloc entry_size s.world).0 ≢ 0
      → mlock_first_n ≤ s.alloc_count
      → s.alloc_count < int_max
      → s.overflowed ≡ false
      → let recorded = record_alloc libc ptr size s in
        (recorded.overflowed ≡ false)
        × (recorded.pages_locked ≡ s.pages_locked)
        × ((remove_alloc libc ptr recorded).total_locked_bytes
            ≡ s.total_locked_bytes - lock_size ptr size)
  unfolding try_mlock
  skipped_release_undercounts ptr size s nz large hot given late few sane =
      rw (record_alloc-marked ptr size s nz large hot given) (
        ground arith,
        ground arith,
        ground
            (arith, remove_alloc-marked ptr size s nz (omega arith), skipped_total ptr size s late),
      )
