-- ===== src/Waiting.antt =====
-- Waiting on a job: `JobHandle::wait_value` and what it rests on in ironqueue/src/job.rs.
pub mod Resolve
pub mod Poll
pub mod Answers
pub mod Told
pub mod Finished
pub mod Seen
