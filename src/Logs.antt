-- ===== src/Logs.antt =====
-- The logs: bounded queues of entries and the reading of log files.
mod FileTests
pub mod Ring
pub mod LogBuffer
pub mod FileLogger
pub mod Tail
pub mod Entries
pub mod Parsing
pub mod Listing
pub mod Operations
pub mod Levels
pub mod Events
mod LevelTests
