-- ===== src/Server.antt =====
-- The shared server helpers (common/src/server).
mod Tests
pub mod LoginTracker
pub mod SpeedLimiter
pub mod Quota
