-- ===== src/History/Occurrences.antt =====
-- The publication of a cron occurrence adds at most its row.
use ironqueue.Common.{ℕ, ◌≡◌, refl, ap, Option, none, some, List, arith, Text, Result, err, ok}
use ironqueue.Job.Status.{queued}
use ironqueue.Job.Json.{Value}
use ironqueue.Job.Config.{validate_config, JobRequest, Calendar, validate_request}
use ironqueue.Job.Bounds.{
  valid-attempts, valid-timeout, valid-retention, valid-failed_retention, valid-retry_delay,
}
use ironqueue.Database.Row.{JobRow, Store, Handle}
use ironqueue.Database.Enqueue.{new_row, live_dedupe_holder}
use ironqueue.Cron.Search.{Crontab}
use ironqueue.Cron.Entry.{CronOptions, JobCronEntry, job_for, keyed, entry_of, with_options}
use ironqueue.Cron.Schedule.{cron_row, publish_unheld, insert_or_held}
use ironqueue.History.Checks.{Checks}
use ironqueue.History.Calls.{state_after, unchanged_by, publish_occurrence}
use ironqueue.History.Evolution.{Evolution, rests, inserts}
use ironqueue.History.Additions.{no_holder-any}

cron_row-Checks :
    (h : Handle) (clock id : ℕ) (e : JobCronEntry) (at : ℕ)
    → validate_config e.template.config ≡ ok tt
    → Checks (cron_row h clock id e at)
unfolding cron_row job_for new_row
cron_row-Checks h clock id e at v = record {
  max_positive = (valid-attempts e.template.config v).0;
  max_capped = (valid-attempts e.template.config v).1;
  attempts_capped = omega arith;
  queued_spare = λ q. (valid-attempts e.template.config v).0;
  running_started = λ q. cc;
  aborting_started = λ q. cc;
  error_short = omega arith;
  delay_range = valid-retry_delay e.template.config v;
  timeout_range = valid-timeout e.template.config v;
  result_ttl_range = valid-retention e.template.config v;
  failed_ttl_range = valid-failed_retention e.template.config v;
}

unheld-Evolution :
    (h : Handle) (e : JobCronEntry) (at : ℕ) (row : JobRow) (s : Store) (found : Option JobRow)
    → live_dedupe_holder h.name row.dedupe_key s.jobs ≡ found
    → row.queue ≡ h.name
    → row.status ≡ queued
    → Checks row
    → Evolution
        (some row.id)
        s.jobs
        (state_after s (publish_unheld h e at row unchanged_by unchanged_by s found)).jobs
unfolding publish_unheld
unheld-Evolution h e at row s (some holder) q n st c = rests s.jobs
unheld-Evolution h e at row s none q n st c =
    rw (q, insert_or_held)
      (inserts s.jobs row (st, rw n (no_holder-any h.name row.dedupe_key s.jobs q)) (λ _. c))

with_options-config :
    (calendar : Calendar) (chunks : Value → List ℕ) (parse : Text → Option Crontab) (made : ℕ)
    (expr : Text) (template : JobRequest) (options : CronOptions) (e : JobCronEntry)
    → with_options calendar chunks parse made expr template options ≡ ok e
    → (validate_config e.template.config ≡ ok tt) × (e.template.dedupe_key ≡ some e.dedupe_key)
unfolding with_options validate_request keyed entry_of
with_options-config calendar chunks parse made expr template options e h = ground arith

pub publish_occurrence-Evolution :
    (calendar : Calendar) (chunks : Value → List ℕ) (parse : Text → Option Crontab) (made : ℕ)
    (expr : Text) (template : JobRequest) (options : CronOptions) (h : Handle) (clock id at : ℕ)
    (s : Store)
    → Evolution
        (some id)
        s.jobs
        (state_after s (
          publish_occurrence h clock id at s
            (with_options calendar chunks parse made expr template options))).jobs
unfolding publish_occurrence cron_row new_row job_for
publish_occurrence-Evolution calendar chunks parse made expr template options h clock id at s =
    go (with_options calendar chunks parse made expr template options) refl
  where
    go :
        (m : Result JobCronEntry)
        → with_options calendar chunks parse made expr template options ≡ m
        → Evolution (some id) s.jobs (state_after s (publish_occurrence h clock id at s m)).jobs
    go (err e) p = rests s.jobs
    go (ok e) p =
        let v = with_options-config calendar chunks parse made expr template options e p in
        unheld-Evolution h e at (cron_row h clock id e at) s
          (live_dedupe_holder h.name (some e.dedupe_key) s.jobs)
          (ap (λ k. live_dedupe_holder h.name k s.jobs) v.1) (unfold cron_row in refl)
          (unfold cron_row in refl) (cron_row-Checks h clock id e at v.0)
