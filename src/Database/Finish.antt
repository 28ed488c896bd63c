-- ===== src/Database/Finish.antt =====
-- Moving an attempt to a terminal state: `finish_rows_sql` of ironqueue/src/database.rs and the
-- statements built on it.
use ironqueue.Common.{
  ℕ, ◌+◌, Bool, false, ◌&&◌, ◌||◌, Option, none, some, List, [], ◌∷◌, ◌++◌, ◌==◌, if◌then◌else◌,
  Text, not_terminal, config, Result, ok, err,
}
use ironqueue.Job.Status.{JobStatus, complete, failed, aborted, is_terminal}
use ironqueue.Job.Json.{Value}
use ironqueue.Database.Statement.{Fate, keep, remove, write, apply, written, removed}
use ironqueue.Database.Row.{
  JobRow, Notice, done, QueueStats, Store, Handle, AttemptGuard, is_running, is_aborting,
  is_complete, is_aborted, is_swept_marked, owns, expiry, coalesce,
}
use ironqueue.Database.Requeue.{is_nonempty}

-- `ttl_ms = 0`.
abbrev is_zero : Option ℕ → Bool
is_zero none = false
is_zero (some n) = n == 0

-- `finish_rows_sql`: a candidate whose retention is 0 is deleted, any other is updated.
unfoldable pub finish_fate :
    (JobRow → Bool) → (JobRow → Option ℕ) → (JobRow → JobRow) → JobRow → Fate JobRow
finish_fate candidate ttl set r =
    if candidate r then (if is_zero (ttl r) then remove else write (set r)) else keep

-- The completion notices of the finished rows, for those that somebody awaits.
unfoldable pub announce : JobStatus → List JobRow → List Notice → List Notice
announce status [] notices = notices
announce status (r ∷ rs) notices =
    let rest = announce status rs notices in if r.awaited then done r.id status ∷ rest else rest

-- `status = 'aborted', result = NULL, ..`: the set list of the two guardless aborts.
unfoldable pub abort_set : ℕ → JobRow → JobRow
abort_set now r = record r {
  status = aborted;
  result = none;
  completed_at = some now;
  touched_at = some now;
  expires_at = expiry now r.failed_ttl_ms;
}

-- The candidate of `finish_with_guards`.
may_finish : Text → AttemptGuard → JobStatus → JobRow → Bool
unfolding owns
may_finish queue g status r =
    owns queue g r
    && (is_running r.status
        || (is_aborting r.status && (is_aborted status || is_swept_marked r.error r.result)))

-- The retention clock of the outcome.
outcome_ttl : JobStatus → JobRow → Option ℕ
outcome_ttl status r = if is_complete status then r.result_ttl_ms else r.failed_ttl_ms

finished : ℕ → JobStatus → Option Value → Option Text → JobRow → JobRow
unfolding outcome_ttl
finished now status result error r = record r {
  status = status;
  result = result;
  error = if is_complete status then error else coalesce error r.error;
  completed_at = some now;
  touched_at = some now;
  expires_at = expiry now (outcome_ttl status r);
}

unfoldable pub finish_attempt_fate :
    Text → ℕ → AttemptGuard → JobStatus → Option Value → Option Text → JobRow → Fate JobRow
unfolding finish_fate may_finish outcome_ttl finished
finish_attempt_fate queue now g status result error =
    finish_fate (may_finish queue g status) (outcome_ttl status) (finished now status result error)

count_finish : JobStatus → QueueStats → QueueStats
count_finish complete stats = record stats { complete = stats.complete + 1 }
count_finish failed stats = record stats { failed = stats.failed + 1 }
count_finish _ stats = record stats { aborted = stats.aborted + 1 }

-- `finish_with_guards`.
unfoldable pub finish_with_guards :
    Handle
    → ℕ
    → AttemptGuard
    → JobStatus
    → Option Value
    → Option Text
    → Store
    → Result (Store × Bool)
unfolding finish_attempt_fate announce count_finish is_nonempty
finish_with_guards h now g status result error s =
    let fate = finish_attempt_fate h.name now g status result error in
    let rows = removed fate s.jobs ++ written fate s.jobs in
    if is_terminal status
    then ok (
      record s {
        jobs = apply fate s.jobs;
        notices = announce status rows s.notices;
        stats = if is_nonempty rows then count_finish status s.stats else s.stats;
      },
      is_nonempty rows,
    )
    else err (config not_terminal)

-- The candidate of `abort_unsettled_claim`.
unfoldable pub is_unsettled : Text → AttemptGuard → JobRow → Bool
unfolding owns
is_unsettled queue g r = owns queue g r && (is_running r.status || is_aborting r.status)

-- An operator's reason stays; the sweeper's marker gives way to `reason`.
settled_claim : ℕ → Text → JobRow → JobRow
unfolding abort_set
settled_claim now reason r = record (abort_set now r) {
  error = if is_running r.status || is_swept_marked r.error r.result then some reason else r.error;
}

unfoldable pub abort_unsettled_fate : Text → ℕ → AttemptGuard → Text → JobRow → Fate JobRow
unfolding finish_fate is_unsettled settled_claim
abort_unsettled_fate queue now g reason =
    finish_fate (is_unsettled queue g) (λ r. r.failed_ttl_ms) (settled_claim now reason)

-- `abort_unsettled_claim`.
unfoldable pub abort_unsettled_claim : Handle → ℕ → AttemptGuard → Text → Store → Store × Bool
unfolding abort_unsettled_fate announce is_nonempty
abort_unsettled_claim h now g reason s =
    let fate = abort_unsettled_fate h.name now g reason in
    let rows = removed fate s.jobs ++ written fate s.jobs in
    (
      record s { jobs = apply fate s.jobs; notices = announce aborted rows s.notices },
      is_nonempty rows,
    )
