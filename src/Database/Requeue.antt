-- ===== src/Database/Requeue.antt =====
-- Giving an attempt back: REQUEUE_GUARDED_SQL of ironqueue/src/database.rs and its callers.
use ironqueue.Common.{
  ℕ, ◌+◌, min, Bool, true, false, ◌&&◌, ◌||◌, Option, none, some, List, [], ◌∷◌, ltb, leb, ◌==◌,
  if◌then◌else◌, same_id, any, Text, text_eq,
}
use ironqueue.Job.Status.{queued}
use ironqueue.Database.Statement.{Fate, keep, write, apply, written}
use ironqueue.Database.Row.{
  JobRow, WorkerRow, Notice, enqueue, Store, Handle, AttemptGuard, is_running, is_aborting,
  is_swept_marked, owns, after_ms, coalesce, attempts_ceiling,
}

-- `DatabaseRequeueGuards`.
pub record RequeueGuards : Type 0 where
  pub allow_running : Bool
  pub allow_swept_abort : Bool
  pub refund_attempt : Bool
  pub close_intake : Bool

-- The columns of the update.
unfoldable pub requeued : ℕ → ℕ → Option Text → Bool → JobRow → JobRow
requeued now delay_ms error refund r = record r {
  status = queued;
  max_attempts = if refund then min (r.max_attempts + 1) attempts_ceiling else r.max_attempts;
  scheduled_at = if delay_ms == 0 then r.scheduled_at else after_ms now delay_ms;
  error = coalesce error r.error;
  completed_at = none;
  started_at = none;
  worker_id = none;
  touched_at = some now;
  expires_at = none;
  result = none;
}

-- The WHERE clause of the update.
may_requeue : Text → AttemptGuard → RequeueGuards → JobRow → Bool
unfolding owns
may_requeue queue g guards r =
    owns queue g r
    && (((guards.allow_running && is_running r.status)
          || (guards.allow_swept_abort
              && (is_aborting r.status && is_swept_marked r.error r.result)))
        && (if guards.refund_attempt
            then ltb r.attempts attempts_ceiling
            else ltb r.attempts r.max_attempts))

unfoldable pub requeue_fate :
    Text → ℕ → AttemptGuard → Option Text → ℕ → RequeueGuards → JobRow → Fate JobRow
unfolding may_requeue requeued
requeue_fate queue now g error delay_ms guards r =
    if may_requeue queue g guards r
    then write (requeued now delay_ms error guards.refund_attempt r)
    else keep

-- `UPDATE ironqueue.workers SET accepting = false, heartbeat_at = now()`.
close_intake_fate : Text → ℕ → Option ℕ → WorkerRow → Fate WorkerRow
close_intake_fate queue now worker_id w =
    if same_id (some w.id) worker_id && text_eq w.queue queue
    then write (record w { accepting = false; heartbeat_at = now })
    else keep

unfoldable pub is_due : ℕ → JobRow → Bool
is_due now r = leb r.scheduled_at now

unfoldable pub wake : Bool → List Notice → List Notice
wake true notices = enqueue ∷ notices
wake false notices = notices

unfoldable pub is_nonempty {ℓ} : {A : Type ℓ} → List A → Bool
is_nonempty [] = false
is_nonempty (x ∷ xs) = true

unfoldable pub requeue_guarded :
    Handle → ℕ → AttemptGuard → Option Text → ℕ → RequeueGuards → Store → Store × Bool
unfolding requeue_fate close_intake_fate is_due wake is_nonempty
requeue_guarded h now g error delay_ms guards s =
    let fate = requeue_fate h.name now g error delay_ms guards in
    let rows = written fate s.jobs in
    (
      record s {
        jobs = apply fate s.jobs;
        workers =
            if guards.close_intake
            then apply (close_intake_fate h.name now g.worker_id) s.workers
            else s.workers;
        notices = wake (any (is_due now) rows) s.notices;
      },
      is_nonempty rows,
    )

unfoldable pub record_retry : Bool → Store → Store
record_retry did s =
    if did then record s { stats = record (s.stats) { retried = s.stats.retried + 1 } } else s
