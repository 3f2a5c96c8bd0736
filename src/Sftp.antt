-- ===== src/Sftp.antt =====
-- The SFTP session handler (sftp/src/ops).
pub mod Resolve
pub mod Session
pub mod Render
pub mod Files
pub mod Stats
pub mod Entries
pub mod Logic
pub mod Policy
pub mod EntryPolicy
pub mod FilePolicy
pub mod StatPolicy
pub mod Handler
pub mod Mediation
pub mod Tests
pub mod Refusal
pub mod Escape
pub mod Numbering
pub mod Handles
pub mod Auth
pub mod Extended
pub mod HostKey
