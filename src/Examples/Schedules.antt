-- ===== src/Examples/Schedules.antt =====
-- The theorems on schedules at concrete tables.
use ironqueue.Common.{
  ℕ, ◌≤◌, ◌<◌, ◌≡◌, refl, ◌≢◌, true, false, some, [], ◌∷◌, arith, same_id, any, text_eq, same_key,
  contains_nul, ok,
}
use ironqueue.Job.Duration.{validate_nonzero_duration, duration_to_ms}
use ironqueue.Job.Retention.{as_result_ttl_ms}
use ironqueue.Job.Json.{
  json_contains_nul, json_exceeds_depth, json_exceeds_bytes, validate_json_document,
}
use ironqueue.Job.Config.{validate_config, validate_request}
use ironqueue.Database.Statement.{settle, apply}
use ironqueue.Database.Abort.{holds_key}
use ironqueue.Database.Enqueue.{new_row, live_dedupe_holder}
use ironqueue.Cron.Search.{
  from_second, found, out_of_fuel, search_from, next_after, previous_at_or_before,
}
use ironqueue.Cron.Crontab.{Next, Previous}
use ironqueue.Cron.Next.{next_after-first}
use ironqueue.Cron.Entry.{
  kind_of, grace_ms_of, parse_cron, check_revision, with_options, next_occurrence,
  publication_deadline, job_for,
}
use ironqueue.Cron.Tables.{CronSchedule, CronStore, is_schedule, find_schedule, is_own, is_claim}
use ironqueue.Cron.Schedule.{
  published, open_at, skip_catch_up, choose, still_open, next_cursor, plan, cron_row,
  insert_or_held, publish_unheld, claim_of, advance_fate, committed,
}
use ironqueue.Cron.Pass.{
  boundary, is_lockable, missed_lock, is_claimed, claims_after, outcome, conclude, planned,
  locked_pass, settled_by, observed, revised, schedule_cron,
}
use ironqueue.Cron.Reconcile.{active, reconcile_cron, is_due_schedule}
use ironqueue.Cron.Concluding.{settles}
use ironqueue.Cron.Progress.{schedule_cron-progress}
use ironqueue.Cron.Steps.{passes, purges, Unique, publications}
use ironqueue.Cron.Once.{publications-Unique}
use ironqueue.Cron.Revisions.{Revises, reconcile_cron-Revises}
use ironqueue.Cron.Agreement.{agrees, reconcile_cron-agrees}
use ironqueue.Cron.Window.{publication_deadline-window}
use ironqueue.Cron.Bisection.{previous_at_or_before-ends}
use ironqueue.Cron.Previous.{previous_at_or_before-Previous}
use ironqueue.Examples.Data.{handle, calendar, chunks}
use ironqueue.Examples.Crontabs.{
  span, every_minute, on_the_minute, every_minute-IsCrontab, never, template, parse, cron_options,
  report_key, report_expr, report, same_attempts, schedule, cron_store, timely,
}

next_after-first_example :
    (n : ℕ) × (next_after span every_minute 1000 ≡ found n) × Next on_the_minute 1000 n
next_after-first_example =
    next_after-first span every_minute on_the_minute every_minute-IsCrontab 1000 1080 (omega arith)
      refl (omega arith) (omega arith) (omega arith)

previous_at_or_before-ends_example : previous_at_or_before span never 20000000000 ≢ out_of_fuel
previous_at_or_before-ends_example = previous_at_or_before-ends span never 20000000000

previous_at_or_before-Previous_example :
    (n : ℕ) × (previous_at_or_before span every_minute 1050 ≡ found n)
    × Previous on_the_minute 1050 n
previous_at_or_before-Previous_example =
    previous_at_or_before-Previous span every_minute on_the_minute every_minute-IsCrontab 1050 960
      refl (omega arith) (omega arith) (omega arith)

abbrev after_pass : CronStore
after_pass =
    (schedule_cron span same_attempts handle report (timely 40) (λ s. s) (λ s. s) (λ s. s)
      (cron_store 2)).0

was_published :
    schedule_cron span same_attempts handle report
      (timely 40)
      (λ s. s)
      (λ s. s)
      (λ s. s)
      (cron_store 2)
    ≡ (after_pass, ok (published 40 120000000))
unfolding schedule_cron check_revision find_schedule is_schedule text_eq is_own kind_of same_id
    grace_ms_of plan choose skip_catch_up next_occurrence next_after search_from from_second
    publication_deadline committed any same_key boundary claims_after conclude is_claimed
    is_lockable locked_pass missed_lock observed outcome planned revised settled_by advance_fate
    claim_of cron_row job_for insert_or_held next_cursor open_at publish_unheld still_open is_claim
    holds_key live_dedupe_holder apply settle reconcile_cron new_row
was_published = refl

publications-Unique_example : Unique (
    publications span same_attempts
      (λ a b. false)
      handle
      report
      (passes (timely 40) (λ s. s) (λ s. s)
        ∷ purges 130000001 (λ o. false)
        ∷ passes (timely 41) (λ s. s) (λ s. s)
        ∷ [])
      (cron_store 2))
publications-Unique_example =
    publications-Unique span same_attempts (λ a b. false) handle report on_the_minute
      every_minute-IsCrontab
      (passes (timely 40) (λ s. s) (λ s. s)
        ∷ purges 130000001 (λ o. false)
        ∷ passes (timely 41) (λ s. s) (λ s. s)
        ∷ [])
      (cron_store 2) 0 (omega arith, (omega arith, (omega arith, tt)))

schedule_cron-progress_example :
    is_due_schedule handle (some 130000001) 130000000 after_pass report_key ≡ false
unfolding boundary settles find_schedule schedule_cron check_revision is_schedule text_eq is_own
    kind_of same_id grace_ms_of plan choose skip_catch_up next_occurrence next_after
    publication_deadline committed any publish_unheld live_dedupe_holder same_key cron_row new_row
    job_for apply
schedule_cron-progress_example =
    schedule_cron-progress span same_attempts handle report on_the_minute (timely 40) (λ s. s)
      (λ s. s) (λ s. s) (cron_store 2) after_pass (published 40 120000000)
      (record (schedule 2) { next_run_at = 180000000 }) every_minute-IsCrontab (omega arith)
      was_published refl refl

reconcile_cron-Revises_example :
    (c' : CronSchedule) × (find_schedule handle.name report_key
        (reconcile_cron span same_attempts handle report 130000000 (cron_store 1)).0.schedules
      ≡ some c')
    × Revises (schedule 1) c'
unfolding find_schedule is_schedule text_eq
reconcile_cron-Revises_example =
    reconcile_cron-Revises handle.name report_key span same_attempts handle report 130000000
      (cron_store 1) (schedule 1) refl

abbrev after_reconcile : CronStore
after_reconcile = (reconcile_cron span same_attempts handle report 130000000 (cron_store 1)).0

was_reconciled :
    reconcile_cron span same_attempts handle report 130000000 (cron_store 1)
    ≡ (after_reconcile, ok active)
unfolding reconcile_cron check_revision next_occurrence next_after find_schedule any is_schedule
    text_eq apply is_own kind_of same_id grace_ms_of
was_reconciled = refl

abbrev after_both : CronStore
after_both =
    (schedule_cron span same_attempts handle report (timely 40) (λ s. s) (λ s. s) (λ s. s)
      after_reconcile).0

reconcile_cron-agrees_example : agrees (published 40 120000000) ≡ true
unfolding schedule_cron check_revision find_schedule is_schedule text_eq is_own kind_of same_id
    grace_ms_of plan choose skip_catch_up next_occurrence next_after search_from from_second
    publication_deadline committed any same_key boundary claims_after conclude is_claimed
    is_lockable locked_pass missed_lock observed outcome planned revised settled_by advance_fate
    claim_of cron_row job_for insert_or_held next_cursor open_at publish_unheld still_open is_claim
    holds_key live_dedupe_holder apply settle reconcile_cron agrees new_row
reconcile_cron-agrees_example =
    reconcile_cron-agrees span same_attempts handle report 130000000 (timely 40) (λ s. s) (λ s. s)
      (λ s. s) (cron_store 1) after_reconcile after_both (published 40 120000000) was_reconciled
      refl

publication_deadline-window_example :
    (120000000 < publication_deadline span report 120000000 180000000)
    × (publication_deadline span report 120000000 180000000 ≤ 180000000)
unfolding with_options parse_cron check_revision validate_request contains_nul
    validate_json_document json_exceeds_depth json_contains_nul json_exceeds_bytes validate_config
    validate_nonzero_duration duration_to_ms as_result_ttl_ms
publication_deadline-window_example =
    publication_deadline-window span calendar chunks parse 1000 report_expr template cron_options
      report 120000000 180000000 refl (omega arith)
