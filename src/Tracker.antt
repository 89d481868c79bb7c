-- ===== src/Tracker.antt =====
-- ConnectionTracker (collector/lib/ConnTracker.h and ConnTracker.cpp). The operations on the maps and
-- the network lists run under one mutex, and so each is one step from a state to the next;
-- SetExternalIPsConfig and CloseConnectionsOnExternalIPsConfigChange take no lock, and are steps of the
-- notifier's thread. The process-wide counters and the log are left out.
pub mod State
pub mod Normalize
pub mod Update
pub mod Fetch
pub mod Close
pub mod Config
mod Examples
