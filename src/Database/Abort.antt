-- ===== src/Database/Abort.antt =====
-- Aborting, waiting for and retrying a job from outside: `abort`, `mark_awaited`,
-- `retry_job_occurrence` and `purge_queued_jobs` of ironqueue/src/database.rs.
use ironqueue.Common.{
  ℕ, ◌+◌, Bool, true, false, not, ◌&&◌, ◌||◌, Option, none, some, List, [], ◌∷◌, ◌++◌, ltb, ◌==◌,
  if◌then◌else◌, select, any, Text, text_eq, same_key,
}
use ironqueue.Job.Status.{queued, aborting, aborted, is_terminal}
use ironqueue.Database.Statement.{Fate, keep, write, apply, written}
use ironqueue.Database.Row.{
  Kind, job, cron, JobRow, enqueue, Store, Handle, is_queued, is_running, is_aborting, is_aborted,
  is_live, is_swept_marked, after_ms, attempts_ceiling,
}
use ironqueue.Database.Requeue.{is_nonempty}
use ironqueue.Database.Finish.{announce}

-- The WHERE clause of `abort`: a live row, but of the aborting ones only the sweeper's.
may_abort : Text → ℕ → JobRow → Bool
may_abort queue id r =
    r.id == id
    && (text_eq r.queue queue
        && (is_queued r.status
            || (is_running r.status || (is_aborting r.status && is_swept_marked r.error r.result))))

unfoldable pub abort_requested : ℕ → Text → JobRow → JobRow
abort_requested now reason r = record r {
  status = if is_queued r.status then aborted else aborting;
  error = some reason;
  touched_at = some now;
  result = none;
  completed_at = if is_queued r.status then some now else r.completed_at;
  expires_at =
      if is_queued r.status
      then elim r.failed_ttl_ms [ none ↦ r.expires_at | some ttl ↦ some (after_ms now ttl) ]
      else r.expires_at;
}

unfoldable pub abort_fate : Text → ℕ → ℕ → Text → JobRow → Fate JobRow
unfolding may_abort abort_requested
abort_fate queue now id reason r =
    if may_abort queue id r then write (abort_requested now reason r) else keep

unfoldable pub only_aborted : List JobRow → List JobRow
only_aborted = select (λ r. is_aborted r.status)

-- The statement of `abort`, for a reason that the column can hold.
unfoldable pub abort_row : Handle → ℕ → ℕ → Text → Store → Store × Bool
unfolding abort_fate only_aborted announce is_nonempty
abort_row h now id reason s =
    let fate = abort_fate h.name now id reason in
    let rows = written fate s.jobs in
    let gone = only_aborted rows in
    (
      record s {
        jobs = apply fate s.jobs;
        notices = announce aborted gone s.notices;
        stats =
            if is_nonempty gone
            then record (s.stats) { aborted = s.stats.aborted + 1 }
            else s.stats;
      },
      is_nonempty rows,
    )

-- `mark_awaited`.
unfoldable pub await_fate : Text → ℕ → JobRow → Fate JobRow
await_fate queue id r =
    if r.id == id && (text_eq r.queue queue && not r.awaited)
    then write (record r { awaited = true })
    else keep

unfoldable pub mark_awaited : Handle → ℕ → Store → Store
unfolding await_fate
mark_awaited h id s = record s { jobs = apply (await_fate h.name id) s.jobs }

abbrev pub is_none {ℓ} : {A : Type ℓ} → Option A → Bool
is_none none = true
is_none (some a) = false

-- The row that `retry_job_occurrence` may retry: terminal, not retried before, below the ceiling.
may_retry : Text → ℕ → JobRow → Bool
may_retry queue id r =
    r.id == id
    && (text_eq r.queue queue
        && (is_terminal r.status && (is_none r.retried_at && ltb r.attempts attempts_ceiling)))

unfoldable pub retry_fate : Text → ℕ → ℕ → JobRow → Fate JobRow
unfolding may_retry
retry_fate queue now id r =
    if may_retry queue id r then write (record r { retried_at = some now }) else keep

-- A cron occurrence's key stays with the schedule.
unfoldable pub retried_key : Kind → Option Text → Option Text
retried_key cron key = none
retried_key job key = key

-- The fresh occurrence, with one more attempt than its source has spent.
unfoldable pub fresh_occurrence : ℕ → ℕ → Text → JobRow → JobRow
unfolding retried_key
fresh_occurrence clock new_id reason r = record r {
  id = new_id;
  dedupe_key = retried_key r.kind r.dedupe_key;
  status = queued;
  max_attempts = r.attempts + 1;
  scheduled_at = clock;
  enqueued_at = clock;
  started_at = none;
  touched_at = none;
  completed_at = none;
  expires_at = none;
  result = none;
  error = some reason;
  worker_id = none;
  retried_at = none;
  awaited = false;
}

-- The conflict target of every insert: the unique index on the live rows of a key.
unfoldable pub holds_key : Text → Option Text → JobRow → Bool
holds_key queue key r = text_eq r.queue queue && (is_live r.status && same_key r.dedupe_key key)

unfoldable pub retry_source : Handle → ℕ → ℕ → ℕ → ℕ → Text → Store → List JobRow → Store × Option ℕ
unfolding fresh_occurrence holds_key retry_fate
retry_source h now clock id new_id reason s [] = (s, none)
retry_source h now clock id new_id reason s (r ∷ rs) =
    if any (holds_key h.name (retried_key r.kind r.dedupe_key)) s.jobs then (s, none) else (
      record s {
        jobs =
            apply (retry_fate h.name now id) s.jobs ++ fresh_occurrence clock new_id reason r ∷ [];
        notices = enqueue ∷ s.notices;
        stats = record (s.stats) { retried = s.stats.retried + 1 };
      },
      some new_id,
    )

-- The transaction of `retry_job_occurrence`, for a reason that the column can hold: it commits with
-- the fresh row, and rolls back where none was inserted. `clock` is `clock_timestamp()` and `new_id`
-- the generated id.
unfoldable pub retry_occurrence : Handle → ℕ → ℕ → ℕ → ℕ → Text → Store → Store × Option ℕ
unfolding retry_source retry_fate
retry_occurrence h now clock id new_id reason s =
    retry_source h now clock id new_id reason s (written (retry_fate h.name now id) s.jobs)
