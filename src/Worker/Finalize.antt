-- ===== src/Worker/Finalize.antt =====
-- The settlement of an attempt: `finalize`, `try_finalize` and its fallbacks in ironqueue/src/worker.rs.
use ironqueue.Common.{
  ℕ, Bool, true, false, ◌&&◌, ◌||◌, Option, none, some, List, [], ◌∷◌, ltb, if◌then◌else◌, select,
  Text, codes, text_eq, Result, err, ok, ◌>>=◌,
}
use ironqueue.Job.Backoff.{has_attempts_remaining}
use ironqueue.Job.Status.{JobStatus}
use ironqueue.Job.Stored.{JobErrorKind, JobError, new_error, display, kind_is_retryable}
use ironqueue.Job.Json.{Value}
use ironqueue.Database.Row.{JobRow, Store, Handle, is_queued, is_running, is_aborted}
use ironqueue.Database.Abort.{is_none}
use ironqueue.Database.Attempt.{finish, retry, retry_swept, requeue_shutdown, requeue_unhandled}
use ironqueue.Database.Lease.{find_row}
use ironqueue.Worker.Attempt.{
  row_missing, row_superseded, WorkerAbortReason, user, swept_away, WorkerAttemptResult, success,
  errored, cancelled, unhandled, WorkerProcessResult, completed, requeued_job, bounced, unconfirmed,
  retried, retried_elsewhere, failed_with, aborted_with,
}

-- One round of the settlement: what others commit before and between its statements, the times of the
-- statements, and the abort reason and the shutdown token as the round reads them.
pub record Round : Type 0 where
  pub prior : Store → Store
  pub reason : Option WorkerAbortReason
  pub shutting_down : Bool
  pub first : ℕ
  pub second : ℕ
  pub third : ℕ
  pub between : Store → Store
  pub later : Store → Store

abbrev pub Settled : Type 0
Settled = Result (Store × WorkerProcessResult)

-- A result by whether the transition happened.
abbrev pub either : WorkerProcessResult → WorkerProcessResult → Store × Bool → Settled
either did refused (t, true) = ok (t, did)
either did refused (t, false) = ok (t, refused)

-- A result where the transition happened, and what follows where it was refused.
abbrev pub or_else : WorkerProcessResult → (Store → Settled) → Store × Bool → Settled
or_else did refused (t, true) = ok (t, did)
or_else did refused (t, false) = refused t

abbrev pub abort_requested_error : JobError
abort_requested_error = new_error JobErrorKind.aborted (codes "abort requested during attempt")

abbrev pub or_aborted : Option Text → Text
or_aborted none = codes "aborted"
or_aborted (some e) = e

abbrev pub is_abort_kind : JobErrorKind → Bool
is_abort_kind JobErrorKind.aborted = true
is_abort_kind _ = false

module _ (chunks : Value → List ℕ) (h : Handle) (jitter : ℕ → ℕ) (r : JobRow) where
  unfoldable pub finish_aborted_fallback : ℕ → Store → Settled
  finish_aborted_fallback now s =
      finish chunks h now r JobStatus.aborted none none s
      >>= either (aborted_with abort_requested_error) unconfirmed

  unfoldable pub finish_with_swept_fallback :
      Round → JobStatus → Option Value → Option Text → WorkerProcessResult → Store → Settled
  unfolding finish_aborted_fallback
  finish_with_swept_fallback n status result error did s =
      finish chunks h n.first r status result error s
      >>= or_else did (λ t. finish_aborted_fallback n.second (n.between t))

  unfoldable pub moved_on : JobRow → Bool
  moved_on current =
      ltb r.attempts current.attempts || (is_queued current.status || is_running current.status)

  -- The refusal of a retry, by the row as it is now.
  unfoldable pub refusal_of : Round → JobError → Store → Option JobRow → Settled
  unfolding moved_on finish_aborted_fallback
  refusal_of n error s none = ok (s, unconfirmed)
  refusal_of n error s (some current) =
      if moved_on current
      then ok (s, retried_elsewhere error)
      else if is_aborted current.status
      then ok (s, aborted_with (new_error JobErrorKind.aborted (or_aborted current.error)))
      else finish_aborted_fallback n.third (n.later s)

  unfoldable pub swept_retry_refusal_result : Round → JobError → Store → Settled
  unfolding refusal_of
  swept_retry_refusal_result n error t =
      let s = n.between t in
      refusal_of n error s (find_row r.id (select (λ x. text_eq x.queue h.name) s.jobs))

  unfoldable pub retry_swept_or_refuse : Round → JobError → Option Text → Store → Settled
  unfolding swept_retry_refusal_result
  retry_swept_or_refuse n error stored_error s =
      retry_swept chunks h n.first jitter r stored_error s
      >>= or_else (retried error) (swept_retry_refusal_result n error)

  unfoldable pub shut_down : Round → Text → Store → Settled
  shut_down n error s =
      requeue_shutdown chunks h n.first r error s >>= either requeued_job unconfirmed

  unfoldable pub settle_error : Round → JobError → Bool → Store → Settled
  unfolding shut_down swept_retry_refusal_result finish_with_swept_fallback
  settle_error n e shutdown_caused s =
      if shutdown_caused
      then shut_down n (display e) s
      else if has_attempts_remaining r.attempts r.max_attempts && kind_is_retryable e.kind
      then (retry chunks h n.first jitter r (display e) s
          >>= or_else (retried e) (swept_retry_refusal_result n e))
      else finish_with_swept_fallback n JobStatus.failed none (some (display e)) (failed_with e) s

  unfoldable pub finish_aborted_as : Round → Text → Store → Settled
  finish_aborted_as n reason s =
      finish chunks h n.first r JobStatus.aborted none (some reason) s
      >>= either (aborted_with (new_error JobErrorKind.aborted reason)) unconfirmed

  unfoldable pub settle_cancelled : Round → Option WorkerAbortReason → Store → Settled
  unfolding shut_down finish_aborted_as retry_swept_or_refuse
  settle_cancelled n none s = shut_down n (codes "cancelled") s
  settle_cancelled n (some swept_away) s =
      if has_attempts_remaining r.attempts r.max_attempts
      then retry_swept_or_refuse n (new_error JobErrorKind.timeout (codes "swept")) none s
      else finish_aborted_as n (codes "swept") s
  settle_cancelled n (some (user reason)) s = finish_aborted_as n reason s
  settle_cancelled n (some row_missing) s =
      finish_aborted_as n (codes "job row was deleted while the attempt was running") s
  settle_cancelled n (some row_superseded) s = ok (s, unconfirmed)

  -- `bounce` is the message that names a job without a handler.
  unfoldable pub try_finalize :
      Text → Round → WorkerAttemptResult → Option WorkerAbortReason → Bool → Store → Settled
  unfolding settle_error settle_cancelled finish_with_swept_fallback finish_aborted_fallback
  try_finalize bounce n (success value) reason shutting_down s =
      finish_with_swept_fallback n JobStatus.complete (some value) none completed s
  try_finalize bounce n (errored e) reason shutting_down s =
      settle_error n e (is_abort_kind e.kind && (shutting_down && is_none reason)) s
  try_finalize bounce n cancelled reason shutting_down s = settle_cancelled n reason s
  try_finalize bounce n unhandled reason shutting_down s =
      requeue_unhandled h n.first jitter r bounce s
      >>= or_else bounced (λ t. finish_aborted_fallback n.second (n.between t))

-- One round of `finalize`: the settlement is answered, lost before it reached the database, or
-- committed without an answer.
pub data Delivery : Type 0 where
  answered dropped unacknowledged : Delivery

unfoldable pub store_of : Store → Settled → Store
store_of s (err e) = s
store_of s (ok (t, result)) = t

-- The answer of a round, or the rest of the loop after an error.
abbrev pub answer_or : Store × WorkerProcessResult → Settled → Store × WorkerProcessResult
answer_or rest (err e) = rest
answer_or rest (ok (t, result)) = (t, result)

-- The loop of `finalize` on its rounds up to the forced shutdown. An error is retried.
unfoldable pub finalize :
    (Round → Store → Settled) → List (Round × Delivery) → Store → Store × WorkerProcessResult
unfolding store_of
finalize attempt [] s = (s, unconfirmed)
finalize attempt ((n, dropped) ∷ rest) s = finalize attempt rest (n.prior s)
finalize attempt ((n, unacknowledged) ∷ rest) s =
    finalize attempt rest (store_of (n.prior s) (attempt n (n.prior s)))
finalize attempt ((n, answered) ∷ rest) s =
    answer_or (finalize attempt rest (n.prior s)) (attempt n (n.prior s))
