-- ===== src/Worker.antt =====
-- What a worker does with the attempts it runs, of ironqueue/src/worker.rs.
pub mod Attempt
pub mod Finalize
pub mod Stopped
pub mod Withdrawn
pub mod Yields
pub mod Settlement
