-- ===== src/History/Performs.antt =====
-- Each call is an evolution of the jobs table.
use ironqueue.Common.{
  ℕ, ◌≤◌, ◌≡◌, refl, inl, inr, Bool, true, Option, none, some, List, arith, ◌==◌, Bool-cases, Text,
  Result, err, ok,
}
use ironqueue.Job.Status.{JobStatus, is_terminal}
use ironqueue.Job.Json.{Value}
use ironqueue.Job.Config.{Calendar}
use ironqueue.Job.Stored.{max_stored_error_bytes}
use ironqueue.Database.Row.{Store, Handle, AttemptGuard}
use ironqueue.Database.Requeue.{requeue_guarded}
use ironqueue.Database.Finish.{finish_attempt_fate, finish_with_guards, abort_unsettled_claim}
use ironqueue.Job.Truncation.{truncate_stored_error-short}
use ironqueue.Database.Abort.{abort_row, mark_awaited}
use ironqueue.Database.Dequeue.{dequeue}
use ironqueue.Database.Lease.{LeaseIntake, write_worker_info, stop_worker_intake}
use ironqueue.Sweeper.Purge.{purge_expired_jobs, purge_worker_leases, purge_queued_jobs}
use ironqueue.Sweeper.Recover.{mark_stuck, retry_swept_abandoned_batch, abort_stuck_abandoned_batch}
use ironqueue.History.Lawful.{
  requeue-Lawful, finish_attempt-Lawful, abort_unsettled-Lawful, abort-Lawful, await-Lawful,
  claim-Lawful, purge-Lawful, purge_queued-Lawful, mark-Lawful, retry_abandoned-Lawful,
  abort_abandoned-Lawful,
}
use ironqueue.History.Removals.{
  spared, requeue-Removable, finish_attempt-Removable, abort_unsettled-Removable, abort-Removable,
  await-Removable, claim-Removable, purge-spared, purge_queued-Removable, mark-Removable,
  retry_abandoned-Removable, abort_abandoned-Removable,
}
use ironqueue.History.Checks.{
  error_bytes, requeue-Checked, finish_attempt-Checked, abort_unsettled-Checked, abort-Checked,
  await-Checked, claim-Checked, purge-Checked, purge_queued-Checked, mark-Checked,
  retry_abandoned-Checked, abort_abandoned-Checked,
}
use ironqueue.History.Calls.{
  Call, publishes, publishes_occurrence, dequeues, finishes, requeues, settles, aborts, awaits,
  retries_job, purges_expired, purges_queued, marks_stuck, retries_abandoned, aborts_abandoned,
  heartbeats, stops_intake, purges_leases, generated, state_after, store_after, bounded, perform,
}
use ironqueue.History.Evolution.{Evolution, rewrites, rests}
use ironqueue.History.Additions.{retry_occurrence-Evolution, enqueue-Evolution}
use ironqueue.History.Occurrences.{publish_occurrence-Evolution}

bounded-short : (e : Option Text) → error_bytes (bounded e) ≤ max_stored_error_bytes
bounded-short none = omega arith
bounded-short (some e) = truncate_stored_error-short e

finish-Evolution :
    (h : Handle) (now : ℕ) (g : AttemptGuard) (st : JobStatus) (v : Option Value) (e : Option Text)
    (s : Store)
    → error_bytes e ≤ max_stored_error_bytes
    → Evolution none s.jobs (state_after s (finish_with_guards h now g st v e s)).jobs
unfolding finish_with_guards
finish-Evolution h now g st v e s short = elim (Bool-cases (is_terminal st)) [
  | inl t ↦ rw t (
      rewrites (finish_attempt_fate h.name now g st v e) s.jobs
        (finish_attempt-Lawful h.name now g st v e t)
        (finish_attempt-Checked h.name now g st v e t short)
        (λ d. spared _ (finish_attempt-Removable h.name now g st v e) s.jobs))
  | inr t ↦ rw t (rests s.jobs)
]

dequeue-Evolution :
    (h : Handle) (now : ℕ) (locked : ℕ → Bool) (limit w : ℕ) (s : Store)
    → Evolution none s.jobs (state_after s (dequeue h now locked limit w true s)).jobs
unfolding dequeue
dequeue-Evolution h now locked limit w s = elim (Bool-cases (limit == 0)) [
  | inl z ↦ rw z (rests s.jobs)
  | inr z ↦ rw z (
      rewrites _ s.jobs (claim-Lawful h now w _ _) (claim-Checked h now w _ _)
        (λ d. spared _ (claim-Removable h now w _ _) s.jobs))
]

purge_queued-Evolution :
    (h : Handle) (locked : ℕ → Bool) (name : Option Text) (limit : ℕ) (s : Store)
    → Evolution none s.jobs (state_after s (purge_queued_jobs h locked name limit s)).jobs
unfolding purge_queued_jobs
purge_queued-Evolution h locked name limit s = elim (Bool-cases (limit == 0)) [
  | inl z ↦ rw z (rests s.jobs)
  | inr z ↦ rw z (
      rewrites _ s.jobs (purge_queued-Lawful _) (purge_queued-Checked _)
        (λ d. spared _ (purge_queued-Removable _) s.jobs))
]

heartbeat-Evolution :
    (s : Store) (r : Result Store)
    → ((t : Store) → r ≡ ok t → t.jobs ≡ s.jobs)
    → Evolution none s.jobs (store_after s r).jobs
heartbeat-Evolution s (ok t) same = rw (same t refl) (rests s.jobs)
heartbeat-Evolution s (err e) same = rests s.jobs

write_worker_info_jobs :
    (chunks : Value → List ℕ) (h : Handle) (now w : ℕ) (stats : Value) (m : Option Value) (ttl : ℕ)
    (intake : LeaseIntake) (s t : Store)
    → write_worker_info chunks h now w stats m ttl intake s ≡ ok t
    → t.jobs ≡ s.jobs
unfolding write_worker_info
write_worker_info_jobs chunks h now w stats m ttl intake s t e = ground arith

-- Every call acts on the jobs table as the lifecycle allows: each row is kept, removed or moved along it
-- under the same id, queue and key, with the owner that the move prescribes; on a table without duplicate
-- ids a row is removed only if it is queued, or ended with an expiry, or is active with a retention of
-- zero for one of its outcomes; the CHECK constraints carry over; and at most one row is added, under the
-- call's own id, queued, and only where no live row of its queue has its key.
pub perform-Evolution :
    (calendar : Calendar) (chunks : Value → List ℕ) (h : Handle) (c : Call) (s : Store)
    → Evolution (generated c) s.jobs (perform calendar chunks h c s).jobs
unfolding perform requeue_guarded abort_unsettled_claim abort_row mark_awaited purge_expired_jobs
    mark_stuck retry_swept_abandoned_batch abort_stuck_abandoned_batch stop_worker_intake
    purge_worker_leases
perform-Evolution calendar chunks h (publishes now id notify awaited q d) s =
    enqueue-Evolution calendar chunks h now id notify awaited q d s
perform-Evolution calendar chunks h
      (publishes_occurrence parse made expr template options clock id at) s =
    publish_occurrence-Evolution calendar chunks parse made expr template options h clock id at s
perform-Evolution calendar chunks h (dequeues now locked limit w) s =
    dequeue-Evolution h now locked limit w s
perform-Evolution calendar chunks h (finishes now g st v e) s =
    finish-Evolution h now g st v (bounded e) s (bounded-short e)
perform-Evolution calendar chunks h (requeues now g e d gs) s =
    rewrites _ s.jobs (requeue-Lawful h.name now g (bounded e) d gs)
      (requeue-Checked h.name now g (bounded e) d gs (bounded-short e))
      (λ u. spared _ (requeue-Removable h.name now g (bounded e) d gs) s.jobs)
perform-Evolution calendar chunks h (settles now g reason) s =
    rewrites _ s.jobs (abort_unsettled-Lawful h.name now g _)
      (abort_unsettled-Checked h.name now g _ (truncate_stored_error-short reason))
      (λ u. spared _ (abort_unsettled-Removable h.name now g _) s.jobs)
perform-Evolution calendar chunks h (aborts now id reason) s =
    rewrites _ s.jobs (abort-Lawful h.name now id _)
      (abort-Checked h.name now id _ (truncate_stored_error-short reason))
      (λ u. spared _ (abort-Removable h.name now id _) s.jobs)
perform-Evolution calendar chunks h (awaits id) s =
    rewrites _ s.jobs (await-Lawful h.name id) (await-Checked h.name id)
      (λ u. spared _ (await-Removable h.name id) s.jobs)
perform-Evolution calendar chunks h (retries_job now clock id new_id reason) s =
    retry_occurrence-Evolution h now clock id new_id _ s (truncate_stored_error-short reason)
perform-Evolution calendar chunks h (purges_expired now locked) s =
    rewrites _ s.jobs (purge-Lawful _) (purge-Checked _) (purge-spared h now locked s.jobs)
perform-Evolution calendar chunks h (purges_queued locked name limit) s =
    purge_queued-Evolution h locked name limit s
perform-Evolution calendar chunks h (marks_stuck now seen) s =
    rewrites _ s.jobs (mark-Lawful h now s.workers seen) (mark-Checked h now s.workers seen)
      (λ u. spared _ (mark-Removable h now s.workers seen) s.jobs)
perform-Evolution calendar chunks h (retries_abandoned now requests) s =
    rewrites _ s.jobs (retry_abandoned-Lawful h now s.workers requests)
      (retry_abandoned-Checked h now s.workers requests)
      (λ u. spared _ (retry_abandoned-Removable h now s.workers requests) s.jobs)
perform-Evolution calendar chunks h (aborts_abandoned now guards) s =
    rewrites _ s.jobs (abort_abandoned-Lawful h now s.workers guards)
      (abort_abandoned-Checked h now s.workers guards)
      (λ u. spared _ (abort_abandoned-Removable h now s.workers guards) s.jobs)
perform-Evolution calendar chunks h (heartbeats now w stats m ttl intake) s =
    heartbeat-Evolution s _ (write_worker_info_jobs chunks h now w stats m ttl intake s)
perform-Evolution calendar chunks h (stops_intake now w) s = rests s.jobs
perform-Evolution calendar chunks h (purges_leases now locked) s = rests s.jobs
