-- ===== src/Cron/Schedule.antt =====
-- One scheduling pass over one schedule, `schedule_cron` of ironqueue/src/database.rs: what it decides
-- under the row's lock, and what it publishes.
use ironqueue.Common.{
  ℕ, ◌+◌, max, Bool, true, false, ◌&&◌, Option, none, some, List, [], ◌∷◌, ◌++◌, ltb, if◌then◌else◌,
  Text, dedupe_race, Result, err, ok, ◌>>=◌,
}
use ironqueue.Database.Statement.{Fate, keep, write, apply}
use ironqueue.Database.Row.{cron, JobRow, enqueue, Store, Handle}
use ironqueue.Database.Enqueue.{new_row, live_dedupe_holder, publish}
use ironqueue.Cron.Search.{Span}
use ironqueue.Cron.Entry.{
  CronMisfirePolicy, skip, fire_once, JobCronEntry, next_occurrence, previous_occurrence,
  publication_deadline, job_for,
}
use ironqueue.Cron.Tables.{CronSchedule, CronOccurrence, CronStore, is_schedule}

pub data CronScheduleResult : Type 0 where
  not_due contended : CronScheduleResult
  superseded conflicting : ℕ → CronScheduleResult
  published : ℕ → ℕ → CronScheduleResult
  already_published skipped_stale : ℕ → CronScheduleResult
  skipped_held : ℕ → JobRow → CronScheduleResult

-- The occurrence, its successor, and whether to publish it.
pub record Candidate : Type 0 where
  pub occurrence : ℕ
  pub successor : ℕ
  pub publishes_it : Bool

abbrev pub candidate : ℕ → ℕ → Bool → Candidate
candidate occurrence successor publish = record {
  occurrence = occurrence;
  successor = successor;
  publishes_it = publish;
}

module _ (span : Span) (job_entry : JobCronEntry) where
  unfoldable pub open_at : ℕ → ℕ → ℕ → Bool
  open_at current occurrence successor =
      ltb current (publication_deadline span job_entry occurrence successor)

  -- The most recent occurrence, if it is newer than the cursor and still open.
  unfoldable pub recent_or : ℕ → ℕ → ℕ → ℕ → ℕ → Candidate
  unfolding open_at
  recent_or stored successor current recent recent_successor =
      if open_at current recent recent_successor
      then candidate recent recent_successor true
      else candidate stored successor false

  unfoldable pub newer_or : ℕ → ℕ → ℕ → ℕ → Result Candidate
  unfolding recent_or
  newer_or stored successor current recent = do
    recent_successor ← next_occurrence span job_entry recent
    ok (recent_or stored successor current recent recent_successor)

  -- After a miss of the cursor's own deadline.
  unfoldable pub fall_back : ℕ → ℕ → ℕ → Result Candidate
  unfolding newer_or
  fall_back stored successor current = do
    recent ← previous_occurrence span job_entry current
    if ltb stored recent
        then newer_or stored successor current recent
        else ok (candidate stored successor false)

  unfoldable pub skip_catch_up : ℕ → ℕ → Result Candidate
  unfolding open_at fall_back
  skip_catch_up stored current = do
    successor ← next_occurrence span job_entry stored
    if open_at current stored successor
        then ok (candidate stored successor true)
        else fall_back stored successor current

  unfoldable pub fire_recent : ℕ → Result Candidate
  fire_recent scheduling_time = do
    occurrence ← previous_occurrence span job_entry scheduling_time
    successor ← next_occurrence span job_entry occurrence
    ok (candidate occurrence successor true)

  unfoldable pub choose : CronMisfirePolicy → ℕ → ℕ → Result Candidate
  unfolding fire_recent
  choose (skip grace) stored scheduling_time = skip_catch_up stored scheduling_time
  choose fire_once stored scheduling_time = fire_recent scheduling_time

  -- The clock after the lock wait has the last word.
  unfoldable pub still_open : ℕ → Candidate → Candidate
  unfolding open_at
  still_open current c = record c {
    publishes_it = c.publishes_it && open_at current c.occurrence c.successor;
  }

  unfoldable pub next_cursor : ℕ → Candidate → Result ℕ
  next_cursor scheduling_time c =
      if c.publishes_it then ok c.successor else next_occurrence span job_entry scheduling_time

  -- The plan of a pass: the candidate and the next cursor.
  unfoldable pub plan : ℕ → ℕ → ℕ → Result (Candidate × ℕ)
  unfolding still_open next_cursor
  plan stored scheduling_time current = do
    c ← choose job_entry.options.misfire stored scheduling_time
    next_run_at ← next_cursor scheduling_time (still_open current c)
    ok (still_open current c, next_run_at)

-- The VALUES of the insert; `clock` is `clock_timestamp()`.
unfoldable pub cron_row : Handle → ℕ → ℕ → JobCronEntry → ℕ → JobRow
cron_row h clock id job_entry occurrence =
    let job = job_for job_entry occurrence in
    record (new_row h clock id false job none) {
      kind = cron;
      cron_expr = some job_entry.expr;
      scheduled_at = occurrence;
    }

unfoldable pub report_held : Text → ℕ → Store → Option JobRow → Result (Store × CronScheduleResult)
report_held key occurrence s none = err (dedupe_race key)
report_held key occurrence s (some holder) = ok (s, skipped_held occurrence holder)

unfoldable pub insert_or_held :
    Text
    → JobCronEntry
    → ℕ
    → JobRow
    → (Store → Store)
    → Store
    → Option JobRow
    → Result (Store × CronScheduleResult)
unfolding report_held
insert_or_held queue job_entry occurrence row later s none = ok (
  record s { jobs = s.jobs ++ row ∷ []; notices = enqueue ∷ s.notices },
  published row.id occurrence,
)
insert_or_held queue job_entry occurrence row later s (some blocker) =
    report_held job_entry.dedupe_key occurrence (later s)
      (live_dedupe_holder queue (some job_entry.dedupe_key) (later s).jobs)

-- `between` and `later` are what writers that do not take the key's lock commit to the jobs before
-- the insert and before the second read.
unfoldable pub publish_unheld :
    Handle
    → JobCronEntry
    → ℕ
    → JobRow
    → (Store → Store)
    → (Store → Store)
    → Store
    → Option JobRow
    → Result (Store × CronScheduleResult)
unfolding insert_or_held
publish_unheld h job_entry occurrence row between later s (some holder) =
    ok (s, skipped_held occurrence holder)
publish_unheld h job_entry occurrence row between later s none =
    insert_or_held h.name job_entry occurrence row later (between s)
      (live_dedupe_holder h.name row.dedupe_key (between s).jobs)

-- The claim row of an occurrence.
unfoldable pub claim_of : Handle → JobCronEntry → Candidate → ℕ → CronOccurrence
claim_of h job_entry c current = record {
  queue = h.name;
  dedupe_key = job_entry.dedupe_key;
  scheduled_at = c.occurrence;
  expires_at = max c.successor (current + 1000000);
}

unfoldable pub advance_fate : Text → Text → ℕ → CronSchedule → Fate CronSchedule
advance_fate queue key next_run_at c =
    if is_schedule queue key c then write (record c { next_run_at = next_run_at }) else keep

-- Commits the pass: the claim, what was published, and the cursor.
unfoldable pub committed :
    Handle
    → JobCronEntry
    → ℕ
    → List CronOccurrence
    → CronStore
    → Result (Store × CronScheduleResult)
    → CronStore × Result CronScheduleResult
unfolding advance_fate
committed h job_entry next_run_at claims s (err e) = (s, err e)
committed h job_entry next_run_at claims s (ok (store, result)) = (
  record {
    store = store;
    schedules = apply (advance_fate h.name job_entry.dedupe_key next_run_at) s.schedules;
    occurrences = claims;
  },
  ok result,
)
