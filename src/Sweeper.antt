-- ===== src/Sweeper.antt =====
-- Cleanup and recovery, ironqueue/src/sweeper.rs.
pub mod Purge
pub mod Recover
pub mod Deletion
pub mod Survival
pub mod Leadership
