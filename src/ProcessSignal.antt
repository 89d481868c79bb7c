-- ===== src/ProcessSignal.antt =====
-- ProcessSignalFormatter and ProcessSignalHandler (collector/lib/ProcessSignalFormatter.h,
-- ProcessSignalFormatter.cpp, ProcessSignalHandler.cpp): the messages on the processes of containers.
-- What the sinsp library says of events and threads is a record. Strings are lists of character codes.
pub mod Sanitized
pub mod Lineage
pub mod Formatter
pub mod Handler
mod Examples
