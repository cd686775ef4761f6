-- ===== src/Tests.antt =====
-- Runs of the models at concrete inputs, with a small machine in place of the C library, libnuma
-- and the kernel.
pub mod World
mod Ownership
mod Configured
mod Rules
mod Mlock
mod Threads
mod Prof
mod Spe
mod Workloads
