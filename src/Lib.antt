-- ===== src/Lib.antt =====
-- A model of ironqueue, a job queue on PostgreSQL tables, and what holds of it.
--
-- The program keeps jobs in `ironqueue.jobs` and worker leases in `ironqueue.workers`. Publishers insert
-- queued rows, workers and consumers claim them under a lease, settle or give back their attempts, and a
-- sweeper deletes what expired and recovers what is stuck. All of them write the tables by guarded SQL
-- statements, and several processes do so at once.
--
--   * Common: numbers, lists, UTF-8 texts, the errors of the crate (ironqueue/src/lib.rs) as values.
--   * Job (ironqueue/src/job.rs): durations, retention, backoff, status, JSON checks, the validation of
--     requests, stored errors. Job.Bounds, Job.Truncation and Job.Json.Strings are about them.
--   * Database (ironqueue/src/database.rs): Statement is what one SQL statement does to a table, Row the
--     rows, guards and constants. Requeue is REQUEUE_GUARDED_SQL and `requeue_guarded`, Finish is
--     `finish_rows_sql`, `finish_with_guards` and `abort_unsettled_claim`, Abort is `abort`,
--     `mark_awaited` and `retry_job_occurrence`, Dequeue is DEQUEUE_CLAIM_SQL and `dequeue_inner`, Lease
--     is `write_worker_info`, `stop_worker_intake` and `aborting_of`, Enqueue is `enqueue_validated_in`
--     with `insert_job` and the wakeup throttle, Batch the batch enqueue, Attempt is what a worker does with its attempt, Recovery
--     is `requeue_unacknowledged_claims` and `resolve_dropped_attempt`. Claims, Limits, Intake, Tries,
--     Publishing, Once, Refusals and Throttle are about them.
--   * Sweeper (ironqueue/src/sweeper.rs): Purge is the deletions, Recover is `recover_stuck_jobs` with
--     the two batches of database.rs and `ironqueue.job_is_stuck`, Leadership is `sweep_operations` with
--     `ensure_leadership` and `release`. Deletion and Survival are about the first two.
--   * Cron (ironqueue/src/job.rs, database.rs, sweeper.rs): Search is `CronSchedule::next_after` and
--     `previous_at_or_before`, Entry is `JobCronEntry` and its options, Tables the two cron tables,
--     Reconcile is `reconcile_cron`, `remove_cron_schedule` and `due_crons`, Schedule and Pass are
--     `schedule_cron` with `skip_catch_up`, Purge is `purge_cron_occurrences`. Crontab says what the
--     search relies on of the `cronexpr` crate, Steps what a history of the cron tables is. Next,
--     Bisection, Previous, Plan, Concluding, Claims, Spent, Once, Progress, Revisions, Agreement and Window
--     are about them.
--   * Worker (ironqueue/src/worker.rs): Attempt is how an attempt ends, `classify_attempt_join` and the
--     types around it, Finalize is `finalize`, `try_finalize` and their fallbacks, on the operations of
--     Database.Attempt. Withdrawn, Yields and Settlement are about them.
--   * Waiting (ironqueue/src/job.rs): Resolve is `job_outcome`, `resolve` and `resolve_deleted`, Poll is
--     `wait_inner` and `wait_value_inner`, on the reads and completion events of each round. Answers, Told,
--     Finished and Seen are about them.
--   * History: the committed statements on the jobs and workers as calls, with the publication of a cron
--     occurrence by `schedule_cron`. A batch enqueue is no call of its own: Database.Batch.Sequence is
--     about the publishes of its items in turn. Moves is the lifecycle of a row and what may delete it,
--     Checks the CHECK constraints of ironqueue/migrations/0001_migration.sql, Calls the calls and what a
--     sequence of them does, Evolution how a call acts on the jobs table. The other modules show what holds
--     of every sequence.
--   * Examples: concrete tables, and the theorems at them.
--
-- A table is a list of rows, a statement maps each row to its fate, and `RETURNING` is the list of rows
-- written or removed. A call is one committed transaction and takes its time of statement as an
-- argument; a process that dies is a sequence of calls that ends. A function that can refuse returns a
-- `Result`. Instants are microseconds from the earliest instant, durations nanoseconds, columns in _ms
-- milliseconds, a text its UTF-8 bytes. Retry arithmetic is on natural numbers with the source's caps
-- (`i64::MAX` milliseconds, 63 doublings, 2147483646 attempts). The two loops of the
-- cron search run on fuel, 135 rounds forward, for 134 steps of three years in a cycle of 400, and 35
-- backward, for the halvings of a cycle in seconds; all other loops are structural,
-- the rounds of `finalize`, up to the forced shutdown, on the list of them.
--
-- Parameters stand for code outside the repository: the random factor of the jitter, the buffers that
-- serde_json writes, the parser and the lookups of cronexpr, `jsonb` equality, the range of instants of jiff and PostgreSQL, generated ids, the rows that other
-- transactions hold locked, and what writers without a lock commit between two statements.
--
-- Not modelled: the intake, abort and shutdown tasks of the worker, the notification listener, the intervals and timeouts of a wait,
-- the drain of a sweep backlog, the dashboard, the macros, connections and migrations.
mod Common
pub mod Job
pub mod Database
pub mod Sweeper
pub mod Cron
pub mod Worker
pub mod Waiting
pub mod History
pub mod Examples
