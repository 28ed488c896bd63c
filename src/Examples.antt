-- ===== src/Examples.antt =====
-- Concrete tables and runs on them.
pub mod Data
pub mod Histories
pub mod Operations
pub mod Requests
pub mod Crontabs
pub mod Schedules
pub mod Batches
pub mod Settlements
pub mod Waits
pub mod Sweeps
