-- ===== src/Spe.antt =====
-- src/tools/spe_self_profile.c and src/tools/spe_preload.c: a process that samples itself by way of
-- the kernel's performance events, and writes the samples to a file.
pub mod Ring
pub mod Poll
pub mod Events
pub mod Session
pub mod Config
pub mod Wrapper
pub mod Thread
