-- ===== src/Host.antt =====
-- HostInfo and HostHeuristics (collector/lib/HostInfo.h, HostInfo.cpp, HostHeuristics.cpp): what the
-- collector finds out about the host it runs on, and whether it can run there.
pub mod Version
pub mod Info
pub mod Heuristics
mod Examples
