-- ===== src/Examples/Operations.antt =====
-- The theorems on single operations at concrete rows.
use mathlib.Core.List.{Memᴰ}
use mathlib.Core.List.{Memᴰ}
use ironqueue.Common.{
  ◌≤◌, ◌≡◌, refl, true, none, some, List, [], ◌∷◌, arith, ◌==◌, length, any, All, codes, text_eq,
  is_text, same_key, ok,
}
use ironqueue.Job.Duration.{validate_duration, duration_to_ms}
use ironqueue.Job.Status.{is_terminal}
use ironqueue.Job.Json.{
  null, json_contains_nul, json_exceeds_depth, json_exceeds_bytes, validate_json_document,
}
use ironqueue.Database.Statement.{settle, apply, written}
use ironqueue.Database.Row.{JobRow, Store, is_swept_marked}
use ironqueue.Database.Requeue.{is_nonempty}
use ironqueue.Database.Abort.{retry_occurrence}
use ironqueue.Database.Dequeue.{claimed, dequeue}
use ironqueue.Database.Lease.{
  open_intake, reopens, upsert_lease, write_worker_info, stop_worker_intake,
}
use ironqueue.Sweeper.Purge.{is_expired, purge_expired_jobs}
use ironqueue.Sweeper.Recover.{job_is_stuck, recover_stuck_jobs}
use ironqueue.Database.Limits.{dequeue-limit}
use ironqueue.Database.Claims.{Claimed, Ordered, dequeue-batch}
use ironqueue.Database.Intake.{stop_worker_intake-closes}
use ironqueue.Database.Once.{retry_occurrence-once}
use ironqueue.Database.Throttle.{granted, Spaced, granted-Spaced}
use ironqueue.Sweeper.Deletion.{Retained, purge_expired_jobs-keeps}
use ironqueue.Sweeper.Survival.{Healthy, recover_stuck_jobs-spares}
use ironqueue.History.Calls.{state_after, store_after}
use ironqueue.Examples.Data.{
  handle, queued_job, running_job, store, chunks, unlocked, store-Distinct,
}

purge_expired_jobs-keeps_example :
    Memᴰ running_job (purge_expired_jobs handle 2000 unlocked store).0.jobs
    × ((purge_expired_jobs handle 2000 unlocked store).1 ≤ handle.sweep_batch_size)
unfolding is_expired text_eq is_terminal
purge_expired_jobs-keeps_example =
    purge_expired_jobs-keeps handle 2000 unlocked store running_job store-Distinct (Memᴰ.head refl)
      (Retained.runs refl)

healthy : Healthy handle store.workers 2000 running_job
unfolding job_is_stuck is_swept_marked is_text
healthy = (refl, refl, refl)

recover_stuck_jobs-spares_example :
    Memᴰ running_job (recover_stuck_jobs handle (λ r. 0) 2000 2000 2000 2000 store).0.jobs
recover_stuck_jobs-spares_example =
    recover_stuck_jobs-spares handle (λ r. 0) 2000 2000 2000 2000 store running_job (Memᴰ.head refl)
      healthy healthy healthy

abbrev claimed_store : Store
claimed_store = state_after store (dequeue handle 1000 unlocked 5 3 true store)

abbrev claimed_batch : List JobRow
claimed_batch = claimed 1000 3 queued_job ∷ []

was_claimed : dequeue handle 1000 unlocked 5 3 true store ≡ ok (claimed_store, claimed_batch)
unfolding dequeue written text_eq
was_claimed = refl

dequeue-batch_example : All (Claimed handle 1000 3) claimed_batch × Ordered claimed_batch
dequeue-batch_example =
    dequeue-batch handle 1000 unlocked 5 3 true store claimed_store claimed_batch was_claimed

dequeue-limit_example : length claimed_batch ≤ 5
dequeue-limit_example =
    dequeue-limit handle 1000 unlocked 5 3 true store claimed_store claimed_batch store-Distinct
      was_claimed

abbrev no_jobs : List JobRow
no_jobs = []

abbrev stopped_store : Store
stopped_store = stop_worker_intake handle 900 3 store

abbrev renewed_store : Store
renewed_store =
    store_after stopped_store
      (write_worker_info chunks handle 950 3 null none 1000000000 open_intake stopped_store)

was_renewed :
    write_worker_info chunks handle 950 3 null none 1000000000 open_intake
      (stop_worker_intake handle 900 3 store)
    ≡ ok renewed_store
unfolding write_worker_info validate_duration validate_json_document json_exceeds_depth
    json_contains_nul json_exceeds_bytes upsert_lease duration_to_ms stop_worker_intake any apply
    written settle text_eq is_nonempty reopens
was_renewed = refl

nothing_claimed : dequeue handle 1000 unlocked 5 3 true renewed_store ≡ ok (renewed_store, no_jobs)
unfolding dequeue write_worker_info written validate_duration validate_json_document
    json_exceeds_depth json_contains_nul json_exceeds_bytes stop_worker_intake apply text_eq
nothing_claimed = refl

worker_known : any (λ x. x.id == 3) store.workers ≡ true
unfolding any
worker_known = refl

stop_worker_intake-closes_example : (no_jobs ≡ []) × (renewed_store.jobs ≡ renewed_store.jobs)
unfolding reopens
stop_worker_intake-closes_example =
    stop_worker_intake-closes chunks handle 900 950 1000 3 null none 1000000000 open_intake unlocked
      5 store renewed_store renewed_store no_jobs worker_known refl was_renewed nothing_claimed

abbrev retried_store : Store
retried_store = (retry_occurrence handle 800 801 9 20 (codes "again") store).0

was_retried : retry_occurrence handle 800 801 9 20 (codes "again") store ≡ (retried_store, some 20)
unfolding retry_occurrence written text_eq is_terminal any same_key
was_retried = refl

retry_occurrence-once_example :
    retry_occurrence handle 900 901 9 21 (codes "again") retried_store ≡ (retried_store, none)
retry_occurrence-once_example =
    retry_occurrence-once handle 800 900 801 901 9 20 21 (codes "again") (codes "again") store
      retried_store (λ e. ground arith) was_retried

granted-Spaced_example : Spaced 100 none (granted 100 (5 ∷ 50 ∷ 105 ∷ 300 ∷ []) none)
granted-Spaced_example = granted-Spaced 100 (5 ∷ 50 ∷ 105 ∷ 300 ∷ []) none (omega arith)
