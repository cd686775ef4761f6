-- ===== src/Mlock/Pages.antt =====
-- src/lib/mlock/ldlib.c: the range of pages that `try_mlock` locks and `remove_alloc` unlocks.
use kumf.Base.{ℕ, ◌+◌, ◌-◌, ◌*◌, ◌/◌, ◌%◌, ◌^◌, ◌<◌, ◌≤◌, ◌≡◌, arith}

-- `x & ~0xFFFUL`
unfoldable pub page_floor : ℕ → ℕ
page_floor x = x / 2 ^ 12 * 2 ^ 12

-- `(addr + size + 4095) & ~0xFFFUL`, in 64 bits
unfoldable pub page_end : ℕ → ℕ → ℕ
unfolding page_floor
page_end addr size = page_floor ((addr + size + 4095) % 2 ^ 64)

-- `page_end - page_start`, in 64 bits
unfoldable pub lock_size : ℕ → ℕ → ℕ
unfolding page_floor page_end
lock_size addr size = (page_end addr size + 2 ^ 64 - page_floor addr) % 2 ^ 64

-- Where the end of the allocation is 4095 bytes or more below 2 ^ 64, the locked range is whole
-- pages, holds every byte of the allocation and is less than two pages longer than it.
pub lock_range_covers :
    (addr size : ℕ)
    → addr + size + 4095 < 2 ^ 64
    → (page_floor addr % 2 ^ 12 ≡ 0)
      × (lock_size addr size % 2 ^ 12 ≡ 0)
      × (page_floor addr ≤ addr)
      × (addr + size ≤ page_floor addr + lock_size addr size)
      × (lock_size addr size < size + 2 * 2 ^ 12)
unfolding page_floor page_end lock_size
lock_range_covers addr size h = (omega arith, omega arith, omega arith, omega arith, omega arith)
