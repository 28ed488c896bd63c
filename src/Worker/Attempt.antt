-- ===== src/Worker/Attempt.antt =====
-- How an attempt ends, `classify_attempt_join` and the types around it in ironqueue/src/worker.rs.
use ironqueue.Common.{
  job_result, ℕ, ◌+◌, Option, none, some, List, ◌++◌, Text, codes, Failure, Result, err, ok,
}
use ironqueue.Job.Json.{Value, validate_json_document}
use ironqueue.Job.Stored.{panic, decode, JobError, new_error}
use ironqueue.Database.Row.{QueueStats}

pub data WorkerAbortReason : Type 0 where
  user : Text → WorkerAbortReason
  swept_away row_missing row_superseded : WorkerAbortReason

pub data WorkerAttemptResult : Type 0 where
  success : Value → WorkerAttemptResult
  errored : JobError → WorkerAttemptResult
  cancelled unhandled : WorkerAttemptResult

pub data WorkerProcessResult : Type 0 where
  completed requeued_job bounced unconfirmed : WorkerProcessResult
  retried retried_elsewhere failed_with aborted_with : JobError → WorkerProcessResult

-- How the handler's task ended: with a value, an error, a panic and its message, or a cancellation.
pub data HandlerEnd : Type 0 where
  returned : Value → HandlerEnd
  raised : JobError → HandlerEnd
  panicked : Option Text → HandlerEnd
  stopped : HandlerEnd

unfoldable pub panic_message : Option Text → Text
panic_message none = codes "handler panicked"
panic_message (some message) = message

unfoldable pub handler_errored : JobError → WorkerAttemptResult
handler_errored e = errored (new_error e.kind e.message)

-- `describe` spells out the message of a refusal.
encodable : (Failure → Text) → Value → Result (Unit {0}) → WorkerAttemptResult
encodable describe value (ok passed) = success value
encodable describe value (err e) =
    errored (new_error decode (codes "result encode: " ++ describe e))

unfoldable pub classify_attempt_join :
    (Value → List ℕ) → (Failure → Text) → HandlerEnd → WorkerAttemptResult → WorkerAttemptResult
unfolding encodable handler_errored panic_message
classify_attempt_join chunks describe (returned value) on_stop =
    encodable describe value (validate_json_document chunks job_result value)
classify_attempt_join chunks describe (raised e) on_stop = handler_errored e
classify_attempt_join chunks describe (panicked message) on_stop =
    errored (new_error panic (panic_message message))
classify_attempt_join chunks describe stopped on_stop = on_stop

-- `WorkerProcessResult`'s effect on the counters of the handle.
unfoldable pub count_result : WorkerProcessResult → QueueStats → QueueStats
count_result completed stats = record stats { complete = stats.complete + 1 }
count_result (retried e) stats = record stats { retried = stats.retried + 1 }
count_result requeued_job stats = record stats { retried = stats.retried + 1 }
count_result (failed_with e) stats = record stats { failed = stats.failed + 1 }
count_result (aborted_with e) stats = record stats { aborted = stats.aborted + 1 }
count_result _ stats = stats
