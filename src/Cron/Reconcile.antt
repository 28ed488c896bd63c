-- ===== src/Cron/Reconcile.antt =====
-- `reconcile_cron`, `remove_cron_schedule` and `due_crons` of ironqueue/src/database.rs.
use ironqueue.Common.{
  ℕ, Bool, true, ◌&&◌, Option, none, some, List, [], ◌∷◌, ◌++◌, ltb, leb, if◌then◌else◌, select,
  any, Text, text_eq, cron_conflict, config, row_not_found, Result, err, ok, ◌>>◌,
}
use ironqueue.Database.Statement.{Fate, keep, remove, write, apply}
use ironqueue.Database.Row.{Handle}
use ironqueue.Cron.Search.{Span}
use ironqueue.Cron.Entry.{
  kind_of, grace_ms_of, Definition, JobCronEntry, check_revision, next_occurrence,
}
use ironqueue.Cron.Tables.{CronSchedule, CronStore, is_schedule, find_schedule, is_own}

pub data Authority : Type 0 where
  active : Authority
  inactive : ℕ → Authority

-- The VALUES of the insert.
unfoldable pub schedule_row : Handle → JobCronEntry → ℕ → CronSchedule
schedule_row h job_entry next_run_at = record {
  queue = h.name;
  dedupe_key = job_entry.dedupe_key;
  name = job_entry.template.name;
  expression = job_entry.expr;
  definition = job_entry.definition;
  revision = job_entry.options.revision;
  misfire_policy = kind_of job_entry.options.misfire;
  grace_ms = grace_ms_of job_entry.options.misfire;
  next_run_at = next_run_at;
}

-- DO UPDATE: the cursor is kept where the expression is the same.
unfoldable pub replaced : CronSchedule → CronSchedule → CronSchedule
replaced old excluded =
    if text_eq old.expression excluded.expression
    then record excluded { next_run_at = old.next_run_at }
    else excluded

unfoldable pub reconcile_fate : CronSchedule → CronSchedule → Fate CronSchedule
unfolding replaced
reconcile_fate excluded c =
    if is_schedule excluded.queue excluded.dedupe_key c && ltb c.revision excluded.revision
    then write (replaced c excluded)
    else keep

unfoldable pub upsert_schedule : CronSchedule → List CronSchedule → List CronSchedule
unfolding reconcile_fate
upsert_schedule row cs =
    if any (is_schedule row.queue row.dedupe_key) cs
    then apply (reconcile_fate row) cs
    else cs ++ row ∷ []

unfoldable pub judge_authority :
    (Definition → Definition → Bool) → JobCronEntry → Option CronSchedule → Result Authority
judge_authority same job_entry none = err row_not_found
judge_authority same job_entry (some c) =
    if ltb job_entry.options.revision c.revision
    then ok (inactive c.revision)
    else if is_own same job_entry c
    then ok active
    else err (config (cron_conflict job_entry.dedupe_key))

-- The committed upsert and the answer that is read from it.
unfoldable pub reconciled :
    (Definition → Definition → Bool)
    → Handle
    → JobCronEntry
    → ℕ
    → CronStore
    → CronStore × Result Authority
unfolding schedule_row upsert_schedule judge_authority
reconciled same h job_entry next_run_at s =
    let schedules = upsert_schedule (schedule_row h job_entry next_run_at) s.schedules in
    (
      record s { schedules = schedules },
      judge_authority same job_entry (find_schedule h.name job_entry.dedupe_key schedules),
    )

unfoldable pub reconcile_from :
    (Definition → Definition → Bool)
    → Handle
    → JobCronEntry
    → CronStore
    → Result ℕ
    → CronStore × Result Authority
unfolding reconciled
reconcile_from same h job_entry s (err e) = (s, err e)
reconcile_from same h job_entry s (ok next_run_at) = reconciled same h job_entry next_run_at s

unfoldable pub reconcile_cron :
    Span
    → (Definition → Definition → Bool)
    → Handle
    → JobCronEntry
    → ℕ
    → CronStore
    → CronStore × Result Authority
unfolding reconcile_from
reconcile_cron span same h job_entry now s =
    reconcile_from same h job_entry s
      (check_revision job_entry.options >> next_occurrence span job_entry now)

unfoldable pub remove_schedule_fate : Text → Text → CronSchedule → Fate CronSchedule
remove_schedule_fate queue key c = if is_schedule queue key c then remove else keep

unfoldable pub remove_cron_schedule : Handle → Text → CronStore → CronStore × Bool
unfolding remove_schedule_fate
remove_cron_schedule h key s = (
  record s { schedules = apply (remove_schedule_fate h.name key) s.schedules },
  any (is_schedule h.name key) s.schedules,
)

abbrev or_now : Option ℕ → ℕ → ℕ
or_now none now = now
or_now (some through) now = through

-- A key without a row has something to do.
unfoldable pub is_due_schedule : Handle → Option ℕ → ℕ → CronStore → Text → Bool
is_due_schedule h through now s key = elim (find_schedule h.name key s.schedules) [
  | none ↦ true
  | some c ↦ leb c.next_run_at (or_now through now)
]

unfoldable pub due_crons : Handle → List Text → Option ℕ → ℕ → CronStore → List Text
unfolding is_due_schedule
due_crons h keys through now s = select (is_due_schedule h through now s) keys
