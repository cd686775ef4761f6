-- ===== src/Workloads.antt =====
-- workloads/: the programs whose allocations the libraries route and measure.
pub mod Chase
pub mod Stride
pub mod Doubles
pub mod Stream
pub mod Tiered
pub mod MiniMd
