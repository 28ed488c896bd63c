-- ===== src/Job.antt =====
-- The job model of ironqueue/src/job.rs: durations, retention, backoff, configuration, statuses,
-- stored errors, JSON documents and requests.
pub mod Duration
pub mod Retention
pub mod Backoff
pub mod Status
pub mod Json
pub mod Config
pub mod Stored
pub mod Bounds
pub mod Truncation
