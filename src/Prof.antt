-- ===== src/Prof.antt =====
-- src/lib/prof/ldlib.c: the preloaded profiler that logs the allocations of each thread.
pub mod Log
pub mod Hooks
pub mod Indices
pub mod Slots
pub mod Dump
pub mod Text
pub mod Threads
pub mod Records
pub mod Start
