-- ===== src/Procfs.antt =====
-- ConnScraper and ProcessScraper (collector/lib/ProcfsScraper.h, ProcfsScraper.cpp): what the collector
-- reads from a `/proc`-like directory. A directory entry is a record of what its files and links hold,
-- or `none` where opening or reading them fails.
pub mod Fields
pub mod Hex
pub mod ConnLine
pub mod ConnFile
pub mod Links
pub mod Process
pub mod Sockets
pub mod Scan
mod Examples
mod TextExamples
