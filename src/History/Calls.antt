-- ===== src/History/Calls.antt =====
-- The committed statements of the processes that share the tables, as calls, and what a sequence of
-- calls does. A batch enqueue is no call of its own: Database.Batch.Sequence is about the publishes of
-- its items in turn. Of the cron tables, which no call keeps, only the jobs that they publish are here. A process that stops between two statements is a sequence that ends there, and the
-- statements of several processes interleave in one sequence.
use ironqueue.Common.{ℕ, Bool, true, Option, none, some, List, [], ◌∷◌, Text, Result, ok, err}
use ironqueue.Job.Status.{JobStatus}
use ironqueue.Job.Json.{Value}
use ironqueue.Job.Config.{JobRequest, Calendar}
use ironqueue.Job.Stored.{truncate_stored_error}
use ironqueue.Database.Row.{JobRow, Store, Handle, AttemptGuard}
use ironqueue.Database.Requeue.{RequeueGuards, requeue_guarded}
use ironqueue.Database.Finish.{finish_with_guards, abort_unsettled_claim}
use ironqueue.Database.Abort.{abort_row, mark_awaited, retry_occurrence}
use ironqueue.Database.Dequeue.{dequeue}
use ironqueue.Database.Lease.{LeaseIntake, write_worker_info, stop_worker_intake}
use ironqueue.Database.Enqueue.{live_dedupe_holder, enqueue_raw}
use ironqueue.Cron.Search.{Crontab}
use ironqueue.Cron.Entry.{CronOptions, JobCronEntry, with_options}
use ironqueue.Cron.Schedule.{CronScheduleResult, cron_row, publish_unheld}
use ironqueue.Sweeper.Purge.{purge_expired_jobs, purge_worker_leases, purge_queued_jobs}
use ironqueue.Sweeper.Recover.{mark_stuck, retry_swept_abandoned_batch, abort_stuck_abandoned_batch}

pub data Call : Type 0 where
  publishes : ℕ → ℕ → Bool → Bool → JobRequest → Option ℕ → Call
  publishes_occurrence :
      (Text → Option Crontab) → ℕ → Text → JobRequest → CronOptions → ℕ → ℕ → ℕ → Call
  dequeues : ℕ → (ℕ → Bool) → ℕ → ℕ → Call
  finishes : ℕ → AttemptGuard → JobStatus → Option Value → Option Text → Call
  requeues : ℕ → AttemptGuard → Option Text → ℕ → RequeueGuards → Call
  settles : ℕ → AttemptGuard → Text → Call
  aborts : ℕ → ℕ → Text → Call
  awaits : ℕ → Call
  retries_job : ℕ → ℕ → ℕ → ℕ → Text → Call
  purges_expired : ℕ → (ℕ → Bool) → Call
  purges_queued : (ℕ → Bool) → Option Text → ℕ → Call
  marks_stuck : ℕ → List JobRow → Call
  retries_abandoned : ℕ → List (AttemptGuard × ℕ) → Call
  aborts_abandoned : ℕ → List AttemptGuard → Call
  heartbeats : ℕ → ℕ → Value → Option Value → ℕ → LeaseIntake → Call
  stops_intake : ℕ → ℕ → Call
  purges_leases : ℕ → (ℕ → Bool) → Call

-- The id that a call gives the row it adds.
abbrev pub generated : Call → Option ℕ
generated (publishes now id notify awaited request delay) = some id
generated (publishes_occurrence parse made expr template options clock id at) = some id
generated (retries_job now clock id new_id reason) = some new_id
generated _ = none

-- A call that fails leaves the tables as they were.
abbrev pub state_after {ℓ} : {A : Type ℓ} → Store → Result (Store × A) → Store
state_after s (ok (t, a)) = t
state_after s (err e) = s

abbrev pub store_after : Store → Result Store → Store
store_after s (ok t) = t
store_after s (err e) = s

abbrev pub unchanged_by : Store → Store
unchanged_by s = s

abbrev pub bounded : Option Text → Option Text
bounded none = none
bounded (some e) = some (truncate_stored_error e)

-- The publication of one occurrence by `schedule_cron`, for an entry that the crate made.
unfoldable pub publish_occurrence :
    Handle → ℕ → ℕ → ℕ → Store → Result JobCronEntry → Result (Store × CronScheduleResult)
publish_occurrence h clock id at s (err e) = err e
publish_occurrence h clock id at s (ok entry) =
    publish_unheld h entry at (cron_row h clock id entry at) unchanged_by unchanged_by s
      (live_dedupe_holder h.name (some entry.dedupe_key) s.jobs)

module _ (calendar : Calendar) (chunks : Value → List ℕ) where
  -- The texts pass through `truncate_stored_error`, as on every path of the crate.
  unfoldable pub perform : Handle → Call → Store → Store
  unfolding publish_occurrence
  perform h (publishes now id notify awaited request delay) s = state_after s (
      enqueue_raw calendar chunks h now id notify awaited request delay unchanged_by unchanged_by s)
  perform h (publishes_occurrence parse made expr template options clock id at) s = state_after s (
      publish_occurrence h clock id at s
        (with_options calendar chunks parse made expr template options))
  perform h (dequeues now locked limit worker_id) s =
      state_after s (dequeue h now locked limit worker_id true s)
  perform h (finishes now g status result error) s =
      state_after s (finish_with_guards h now g status result (bounded error) s)
  perform h (requeues now g error delay_ms guards) s =
      (requeue_guarded h now g (bounded error) delay_ms guards s).0
  perform h (settles now g reason) s =
      (abort_unsettled_claim h now g (truncate_stored_error reason) s).0
  perform h (aborts now id reason) s = (abort_row h now id (truncate_stored_error reason) s).0
  perform h (awaits id) s = mark_awaited h id s
  perform h (retries_job now clock id new_id reason) s =
      (retry_occurrence h now clock id new_id (truncate_stored_error reason) s).0
  perform h (purges_expired now locked) s = (purge_expired_jobs h now locked s).0
  perform h (purges_queued locked name limit) s =
      state_after s (purge_queued_jobs h locked name limit s)
  perform h (marks_stuck now seen) s = mark_stuck h now seen s
  perform h (retries_abandoned now requests) s = retry_swept_abandoned_batch h now requests s
  perform h (aborts_abandoned now guards) s = abort_stuck_abandoned_batch h now guards s
  perform h (heartbeats now worker_id stats metadata ttl intake) s =
      store_after s (write_worker_info chunks h now worker_id stats metadata ttl intake s)
  perform h (stops_intake now worker_id) s = stop_worker_intake h now worker_id s
  perform h (purges_leases now locked) s = (purge_worker_leases h now locked s).0

  unfoldable pub run : List (Handle × Call) → Store → Store
  unfolding perform
  run [] s = s
  run ((h, c) ∷ cs) s = run cs (perform h c s)
