-- ===== src/Database.antt =====
-- The tables and statements of ironqueue/src/database.rs.
pub mod Statement
pub mod Row
pub mod Requeue
pub mod Finish
pub mod Abort
pub mod Dequeue
pub mod Lease
pub mod Enqueue
pub mod Attempt
pub mod Recovery
pub mod Refusals
pub mod Tries
pub mod Throttle
pub mod Claims
pub mod Limits
pub mod Publishing
pub mod Once
pub mod Intake
pub mod Batch
