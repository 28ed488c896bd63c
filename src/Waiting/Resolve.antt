-- ===== src/Waiting/Resolve.antt =====
-- The answer of a wait from a stored outcome or from a completion event: `resolve`, `resolve_deleted`
-- and `job_outcome` of ironqueue/src/job.rs and ironqueue/src/database.rs.
use ironqueue.Common.{ℕ, Option, none, some, ◌++◌, select, Text, codes, text_eq}
use ironqueue.Job.Status.{JobStatus, as_str}
use ironqueue.Job.Json.{Value, null}
use ironqueue.Job.Stored.{JobErrorKind, JobError, new_error, from_stored}
use ironqueue.Database.Row.{JobRow, Store, Handle}
use ironqueue.Database.Lease.{find_row}

-- How a wait ends.
pub data WaitEnd : Type 0 where
  answered : Value → WaitEnd
  job_failed : JobError → WaitEnd
  result_expired job_not_found pool_closed read_failed no_durable_row : WaitEnd
  odd_event : JobStatus → WaitEnd

pub record JobOutcome : Type 0 where
  pub status : JobStatus
  pub result : Option Value
  pub error : Option Text

abbrev pub outcome_of : Option JobRow → Option JobOutcome
outcome_of none = none
outcome_of (some r) = some (record { status = r.status; result = r.result; error = r.error })

unfoldable pub job_outcome : Handle → ℕ → Store → Option JobOutcome
job_outcome h id s = outcome_of (find_row id (select (λ r. text_eq r.queue h.name) s.jobs))

unfoldable pub or_null : Option Value → Value
or_null none = null
or_null (some v) = v

unfoldable pub aborted_reason : Option Text → Text
aborted_reason none = codes "aborted"
aborted_reason (some e) = e

-- The stored error, or the name of the status.
unfoldable pub stored_error : JobStatus → Option Text → JobError
stored_error st none = new_error JobErrorKind.failed (codes "job " ++ as_str st)
stored_error st (some e) = from_stored e

unfoldable pub resolve_as : JobStatus → JobOutcome → WaitEnd
unfolding or_null aborted_reason stored_error
resolve_as JobStatus.complete o = answered (or_null o.result)
resolve_as JobStatus.aborted o =
    job_failed (new_error JobErrorKind.aborted (aborted_reason o.error))
resolve_as st o = job_failed (stored_error st o.error)

unfoldable pub resolve : JobOutcome → WaitEnd
unfolding resolve_as
resolve o = resolve_as o.status o

unfoldable pub resolve_deleted : JobStatus → WaitEnd
resolve_deleted JobStatus.complete = result_expired
resolve_deleted JobStatus.failed =
    job_failed (new_error JobErrorKind.failed (codes "job failed and was deleted"))
resolve_deleted JobStatus.aborted =
    job_failed (new_error JobErrorKind.aborted (codes "job was aborted and deleted"))
resolve_deleted JobStatus.aborting =
    job_failed (new_error JobErrorKind.aborted (codes "job was aborted and deleted"))
resolve_deleted st = odd_event st
