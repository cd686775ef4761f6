-- ===== src/Mlock.antt =====
-- src/lib/mlock/ldlib.c: the preloaded library that locks the pages of the first large allocations.
pub mod Pages
pub mod HotPages
pub mod Table
pub mod Hooks
pub mod Budget
pub mod Accounts
