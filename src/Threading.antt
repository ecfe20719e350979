-- ===== src/Threading.antt =====
-- stage/threading: timers and their scheduler.
pub mod Timers
