-- ===== src/Ftp.antt =====
-- The FTP server's storage backend (ftp/src/storage.rs).
mod Tests
pub mod Monad
pub mod Storage
pub mod Rules
pub mod Policy
pub mod Confinement
pub mod Auth
