-- ===== src/Job/Status.antt =====
-- The lifecycle states of a job, `JobStatus` of ironqueue/src/job.rs.
use ironqueue.Common.{Bool, true, false, Text, codes}

pub data JobStatus : Type 0 where
  queued running aborting complete failed aborted : JobStatus

pub as_str : JobStatus → Text
as_str queued = codes "queued"
as_str running = codes "running"
as_str aborting = codes "aborting"
as_str complete = codes "complete"
as_str failed = codes "failed"
as_str aborted = codes "aborted"

unfoldable pub is_terminal : JobStatus → Bool
is_terminal complete = true
is_terminal failed = true
is_terminal aborted = true
is_terminal _ = false
