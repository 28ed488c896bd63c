-- ===== src/Sweeper/Recover.antt =====
-- Recovery of stuck attempts: `ironqueue.job_is_stuck`, `recover_stuck_jobs` of
-- ironqueue/src/sweeper.rs, and the two batches of ironqueue/src/database.rs that it calls.
use ironqueue.Common.{
  ℕ, ◌+◌, Bool, true, false, not, ◌&&◌, ◌||◌, Option, none, some, List, [], ◌∷◌, ◌++◌, map, ltb,
  leb, ◌==◌, if◌then◌else◌, same_id, length, take, select, any, Text, text_eq,
}
use ironqueue.Job.Backoff.{has_attempts_remaining}
use ironqueue.Job.Status.{aborting, aborted}
use ironqueue.Job.Json.{str}
use ironqueue.Database.Statement.{Fate, keep, write, apply, written, removed}
use ironqueue.Database.Row.{
  JobRow, WorkerRow, Store, Handle, AttemptGuard, guard_of, is_running, is_aborting, swept,
  swept_result, is_swept_marked, owns, after_ms, coalesce,
}
use ironqueue.Database.Requeue.{requeued, is_due, wake}
use ironqueue.Database.Finish.{finish_fate, announce, abort_set}
use ironqueue.Database.Abort.{is_none}
use ironqueue.Database.Dequeue.{has_id, job_ids}

-- The lease row of a worker in this queue.
unfoldable pub lease_of : Text → Option ℕ → List WorkerRow → Option WorkerRow
lease_of queue worker_id [] = none
lease_of queue worker_id (w ∷ ws) =
    let rest = lease_of queue worker_id ws in
    if same_id (some w.id) worker_id && text_eq w.queue queue then some w else rest

timed_out : Option ℕ → Option ℕ → ℕ → ℕ → Bool
timed_out (some timeout_ms) (some started) grace_ms now =
    ltb (after_ms started (timeout_ms + grace_ms)) now
timed_out _ _ grace_ms now = false

-- `column + grace < now()`, where NULL is no answer.
quiet : Option ℕ → ℕ → ℕ → Bool
quiet none grace_ms now = false
quiet (some touched) grace_ms now = ltb (after_ms touched grace_ms) now

-- `COALESCE(lease_expires_at, '-infinity') + grace <= now()`.
lapsed : Option WorkerRow → ℕ → ℕ → Bool
lapsed none grace_ms now = true
lapsed (some w) grace_ms now = leb (after_ms w.expires_at grace_ms) now

unfoldable pub job_is_stuck : ℕ → ℕ → Option WorkerRow → JobRow → Bool
unfolding timed_out quiet lapsed
job_is_stuck grace_ms now lease r =
    timed_out r.timeout_ms r.started_at grace_ms now
    || (quiet (coalesce r.touched_at r.started_at) grace_ms now && lapsed lease grace_ms now)

-- Whether a lease row shows a live owner.
unfoldable pub is_live_lease : ℕ → Option WorkerRow → Bool
is_live_lease now none = false
is_live_lease now (some w) = ltb now w.expires_at

marked : JobRow → Bool
marked r = is_swept_marked r.error r.result

-- The scan of `recover_stuck_jobs`.
is_recoverable : Handle → ℕ → List WorkerRow → JobRow → Bool
unfolding marked
is_recoverable h now workers r =
    let lease = lease_of r.queue r.worker_id workers in
    text_eq r.queue h.name
    && ((is_running r.status || is_aborting r.status)
        && ((job_is_stuck h.sweep_grace_ms now lease r || marked r)
            && (is_running r.status
                || (not (is_live_lease now lease)
                    || (is_none r.dedupe_key && not (marked r && ltb r.attempts r.max_attempts))))))

-- `DatabaseStuckJob`: the row as the scan saw it, and whether its owner left no lease row.
pub record StuckJob : Type 0 where
  pub row : JobRow
  pub owner_gone : Bool

-- Phase one: an attempt that is still running as the scan saw it is asked to abort.
unfoldable pub mark_fate : Handle → ℕ → List WorkerRow → List JobRow → JobRow → Fate JobRow
unfolding owns guard_of
mark_fate h now workers [] r = keep
mark_fate h now workers (seen ∷ rest) r =
    let others = mark_fate h now workers rest r in
    if owns h.name (guard_of seen) r
      && (is_running r.status
          && job_is_stuck h.sweep_grace_ms now (lease_of r.queue r.worker_id workers) r)
    then write (record r {
      status = aborting;
      error = some swept;
      result = some (str swept_result);
      touched_at = some now;
    })
    else others

-- The window in which the owner may end an attempt itself is over.
window_over : ℕ → ℕ → Option WorkerRow → JobRow → Bool
window_over grace_ms now none r = true
window_over grace_ms now (some w) r = elim r.touched_at [
  | none ↦ false
  | some touched ↦ leb (after_ms touched grace_ms) now
]

unfoldable pub may_retry_abandoned : Handle → ℕ → List WorkerRow → AttemptGuard → JobRow → Bool
unfolding owns marked window_over
may_retry_abandoned h now workers g r =
    let lease = lease_of r.queue r.worker_id workers in
    owns h.name g r
    && ((is_aborting r.status && marked r)
        && (ltb r.attempts r.max_attempts
            && (not (is_live_lease now lease) && window_over h.sweep_grace_ms now lease r)))

-- `retry_swept_abandoned_batch`, over guards and the delays drawn for them.
unfoldable pub retry_abandoned_fate :
    Handle → ℕ → List WorkerRow → List (AttemptGuard × ℕ) → JobRow → Fate JobRow
unfolding may_retry_abandoned requeued
retry_abandoned_fate h now workers [] r = keep
retry_abandoned_fate h now workers ((g, delay_ms) ∷ rest) r =
    let others = retry_abandoned_fate h now workers rest r in
    if may_retry_abandoned h now workers g r
    then write (requeued now delay_ms none false r)
    else others

unfoldable pub may_abort_abandoned : Handle → ℕ → List WorkerRow → AttemptGuard → JobRow → Bool
unfolding owns marked window_over
may_abort_abandoned h now workers g r =
    let lease = lease_of r.queue r.worker_id workers in
    owns h.name g r
    && ((is_running r.status || is_aborting r.status)
        && ((job_is_stuck h.sweep_grace_ms now lease r || marked r)
            && ((is_none r.dedupe_key || not (is_live_lease now lease))
                && window_over h.sweep_grace_ms now lease r)))

any_guard : (AttemptGuard → Bool) → List AttemptGuard → Bool
unfolding any
any_guard p gs = any p gs

-- `abort_stuck_abandoned_batch`.
unfoldable pub abort_abandoned_fate :
    Handle → ℕ → List WorkerRow → List AttemptGuard → JobRow → Fate JobRow
unfolding finish_fate may_abort_abandoned abort_set any_guard
abort_abandoned_fate h now workers gs =
    finish_fate (λ r. any_guard (λ g. may_abort_abandoned h now workers g r) gs)
      (λ r. r.failed_ttl_ms) (abort_set now)

-- The statement of phase one.
unfoldable pub mark_stuck : Handle → ℕ → List JobRow → Store → Store
unfolding mark_fate
mark_stuck h now seen s = record s { jobs = apply (mark_fate h now s.workers seen) s.jobs }

-- The two batches of phase two. The first wakes a worker where a requeued row is due.
unfoldable pub retry_swept_abandoned_batch : Handle → ℕ → List (AttemptGuard × ℕ) → Store → Store
unfolding retry_abandoned_fate is_due wake any
retry_swept_abandoned_batch h now requests s =
    let fate = retry_abandoned_fate h now s.workers requests in
    let rows = written fate s.jobs in
    record s {
      jobs = apply fate s.jobs;
      notices = wake (any (is_due now) rows) s.notices;
      stats = record (s.stats) { retried = s.stats.retried + length rows };
    }

unfoldable pub abort_stuck_abandoned_batch : Handle → ℕ → List AttemptGuard → Store → Store
unfolding abort_abandoned_fate announce
abort_stuck_abandoned_batch h now guards s =
    let fate = abort_abandoned_fate h now s.workers guards in
    let rows = removed fate s.jobs ++ written fate s.jobs in
    record s {
      jobs = apply fate s.jobs;
      notices = announce aborted rows s.notices;
      stats = record (s.stats) { aborted = s.stats.aborted + length rows };
    }

-- `ORDER BY touched_at, id`: a row never touched comes last.
touched_first : JobRow → JobRow → Bool
touched_first r s = elim r.touched_at [
  | none ↦ elim s.touched_at [ none ↦ ltb r.id s.id | some b ↦ false ]
  | some a ↦ elim s.touched_at [ none ↦ true | some b ↦ ltb a b || (a == b && ltb r.id s.id) ]
]

insert_touched : JobRow → List JobRow → List JobRow
unfolding touched_first
insert_touched r [] = r ∷ []
insert_touched r (s ∷ ss) =
    let rest = insert_touched r ss in if touched_first s r then s ∷ rest else r ∷ s ∷ ss

sort_touched : List JobRow → List JobRow
unfolding insert_touched
sort_touched [] = []
sort_touched (r ∷ rs) = insert_touched r (sort_touched rs)

no_lease : Option WorkerRow → Bool
no_lease none = true
no_lease (some w) = false

-- The scan, one batch of stuck rows.
scan_stuck : Handle → ℕ → Store → List StuckJob
unfolding is_recoverable sort_touched no_lease lease_of select
scan_stuck h now s =
    map (λ r. record { row = r; owner_gone = no_lease (lease_of r.queue r.worker_id s.workers) })
      (take h.sweep_batch_size (sort_touched (select (is_recoverable h now s.workers) s.jobs)))

seen_running : StuckJob → Bool
seen_running j = is_running (j.row.status)

-- Phase two takes the rows found aborting, and of those just marked the ones without an owner.
is_abandoned : List JobRow → StuckJob → Bool
unfolding has_id
is_abandoned now_marked j =
    is_aborting (j.row.status)
    || (is_running (j.row.status) && (j.owner_gone && has_id (job_ids now_marked) (j.row.id)))

-- Only the sweeper's own recovery request is retried, and only with attempts left.
is_retried : StuckJob → Bool
unfolding marked
is_retried j =
    (is_running (j.row.status) || marked j.row)
    && has_attempts_remaining (j.row.attempts) (j.row.max_attempts)

-- `recover_stuck_jobs`: the scan and the three statements, at their times, with the delay drawn for
-- each row. Returns how many rows the scan examined.
unfoldable pub recover_stuck_jobs : Handle → (JobRow → ℕ) → ℕ → ℕ → ℕ → ℕ → Store → Store × ℕ
unfolding scan_stuck mark_stuck retry_swept_abandoned_batch abort_stuck_abandoned_batch is_abandoned
    is_retried seen_running select guard_of
recover_stuck_jobs h delay_ms scanned marked_at retried_at aborted_at s =
    let stuck = scan_stuck h scanned s in
    let seen = map (λ j. j.row) (select seen_running stuck) in
    let now_marked = written (mark_fate h marked_at s.workers seen) s.jobs in
    let s₁ = mark_stuck h marked_at seen s in
    let abandoned = select (is_abandoned now_marked) stuck in
    let requests = map (λ j. (guard_of j.row, delay_ms j.row)) (select is_retried abandoned) in
    let rest = map (λ j. guard_of j.row) (select (λ j. not (is_retried j)) abandoned) in
    let s₂ = retry_swept_abandoned_batch h retried_at requests s₁ in
    (abort_stuck_abandoned_batch h aborted_at rest s₂, length stuck)
