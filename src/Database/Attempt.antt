-- ===== src/Database/Attempt.antt =====
-- What a worker or consumer does with its attempt: `finish`, `retry`, `retry_swept`,
-- `requeue_shutdown` and `requeue_unhandled` of ironqueue/src/database.rs.
use ironqueue.Common.{
  ℕ, ◌+◌, Bool, true, false, Option, none, some, List, if◌then◌else◌, Text, text_eq, contains_nul,
  job_result, nul_in_error, foreign_queue, config, Result, ok, err, ◌>>◌, refuse,
}
use ironqueue.Job.Duration.{duration_to_ms}
use ironqueue.Job.Backoff.{retry_delay_for, has_attempts_remaining}
use ironqueue.Job.Status.{JobStatus}
use ironqueue.Job.Json.{Value, validate_json_document}
use ironqueue.Job.Stored.{truncate_stored_error}
use ironqueue.Database.Row.{JobRow, Store, Handle, guard_of}
use ironqueue.Database.Requeue.{RequeueGuards, requeue_guarded, record_retry}
use ironqueue.Database.Finish.{finish_with_guards}

validate_result : (Value → List ℕ) → Option Value → Result (Unit {0})
validate_result chunks none = ok tt
validate_result chunks (some v) = validate_json_document chunks job_result v

validate_error : Option Text → Result (Unit {0})
validate_error none = ok tt
validate_error (some e) = refuse (contains_nul e) nul_in_error

pub validate_finalization : (Value → List ℕ) → Option Value → Option Text → Result (Unit {0})
unfolding validate_result validate_error
validate_finalization chunks result error = do validate_result chunks result; validate_error error

pub ensure_owns : Handle → JobRow → Result (Unit {0})
ensure_owns h r = if text_eq r.queue h.name then ok tt else err (config foreign_queue)

abbrev pub truncated : Option Text → Option Text
truncated none = none
truncated (some e) = some (truncate_stored_error e)

unfoldable pub next_retry_delay_ms : (ℕ → ℕ) → JobRow → ℕ
next_retry_delay_ms jitter r =
    duration_to_ms (retry_delay_for jitter r.retry_delay_ms r.backoff r.attempts)

abbrev pub retry_guards : RequeueGuards
retry_guards = record {
  allow_running = true;
  allow_swept_abort = true;
  refund_attempt = false;
  close_intake = false;
}

abbrev pub swept_guards : RequeueGuards
swept_guards = record {
  allow_running = false;
  allow_swept_abort = true;
  refund_attempt = false;
  close_intake = false;
}

abbrev pub shutdown_guards : RequeueGuards
shutdown_guards = record {
  allow_running = true;
  allow_swept_abort = true;
  refund_attempt = true;
  close_intake = true;
}

abbrev pub refund_guards : RequeueGuards
refund_guards = record {
  allow_running = true;
  allow_swept_abort = true;
  refund_attempt = true;
  close_intake = false;
}

-- Counts a retry where the requeue happened.
unfoldable pub counted : Store × Bool → Store × Bool
unfolding record_retry
counted (s, did) = (record_retry did s, did)

module _ (chunks : Value → List ℕ) (h : Handle) (now : ℕ) where
  unfoldable pub finish :
      JobRow → JobStatus → Option Value → Option Text → Store → Result (Store × Bool)
  unfolding ensure_owns validate_finalization finish_with_guards guard_of
  finish r status result error s = do
    ensure_owns h r
    validate_finalization chunks result error
    finish_with_guards h now (guard_of r) status result (truncated error) s

  unfoldable pub retry : (ℕ → ℕ) → JobRow → Text → Store → Result (Store × Bool)
  unfolding ensure_owns validate_finalization requeue_guarded next_retry_delay_ms counted guard_of
  retry jitter r error s = do
    ensure_owns h r
    validate_finalization chunks none (some error)
    ok (
        if has_attempts_remaining r.attempts r.max_attempts
        then counted (
            requeue_guarded h now (guard_of r) (some (truncate_stored_error error))
              (next_retry_delay_ms jitter r) retry_guards s)
        else (s, false))

  unfoldable pub retry_swept : (ℕ → ℕ) → JobRow → Option Text → Store → Result (Store × Bool)
  unfolding ensure_owns validate_finalization requeue_guarded next_retry_delay_ms counted guard_of
  retry_swept jitter r error s = do
    ensure_owns h r
    validate_finalization chunks none error
    ok (
        counted (
          requeue_guarded h now (guard_of r) (truncated error) (next_retry_delay_ms jitter r)
            swept_guards s))

  unfoldable pub requeue_shutdown : JobRow → Text → Store → Result (Store × Bool)
  unfolding ensure_owns validate_finalization requeue_guarded counted guard_of
  requeue_shutdown r error s = do
    ensure_owns h r
    validate_finalization chunks none (some error)
    ok (
        counted (
          requeue_guarded h now (guard_of r) (some (truncate_stored_error error)) 0 shutdown_guards
            s))

-- `UNHANDLED_REQUEUE_DELAY` and `UNHANDLED_REQUEUE_JITTER`, in nanoseconds.
abbrev unhandled_delay : ℕ
unhandled_delay = 10000000000

abbrev unhandled_jitter : ℕ
unhandled_jitter = 5000000000

-- `error` is the message that names the job.
unfoldable pub requeue_unhandled :
    Handle → ℕ → (ℕ → ℕ) → JobRow → Text → Store → Result (Store × Bool)
unfolding ensure_owns requeue_guarded guard_of
requeue_unhandled h now jitter r error s = do
  ensure_owns h r
  ok (
      requeue_guarded h now (guard_of r) (some error)
        (duration_to_ms (unhandled_delay + jitter unhandled_jitter)) refund_guards s)
