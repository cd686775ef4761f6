-- ===== src/Interc.antt =====
-- src/lib/interc/ldlib.c: the preloaded library that binds threads to NUMA nodes and routes large
-- allocations to them.
pub mod Types
pub mod Segs
pub mod Match
pub mod Config
pub mod Alloc
pub mod Ownership
pub mod Topology
pub mod Spread
pub mod Bind
pub mod Threads
pub mod Daemon
pub mod Connection
pub mod Init
