-- ===== src/Cron/Pass.antt =====
-- The transaction of `schedule_cron` of ironqueue/src/database.rs: its reads, its row lock and its
-- outcome.
use ironqueue.Common.{
  ℕ, Bool, not, ◌&&◌, Option, none, some, List, [], ◌∷◌, ◌++◌, ltb, leb, ◌==◌, if◌then◌else◌, any,
  cron_not_reconciled, config, Result, err, ok,
}
use ironqueue.Database.Row.{Store, Handle}
use ironqueue.Database.Dequeue.{before}
use ironqueue.Database.Enqueue.{live_dedupe_holder}
use ironqueue.Cron.Search.{Span}
use ironqueue.Cron.Entry.{Definition, JobCronEntry, check_revision}
use ironqueue.Cron.Tables.{
  CronSchedule, CronOccurrence, CronStore, is_schedule, find_schedule, is_own, is_claim,
}
use ironqueue.Cron.Schedule.{
  CronScheduleResult, not_due, contended, superseded, conflicting, already_published, skipped_stale,
  Candidate, plan, cron_row, publish_unheld, claim_of, committed,
}

-- What a pass is given: the boundary of a burst, `now()` and `clock_timestamp()` as they are read in
-- turn, the generated id, and whether another transaction holds the schedule's row.
pub record Pass : Type 0 where
  pub through : Option ℕ
  pub now : ℕ
  pub current : ℕ
  pub clock : ℕ
  pub id : ℕ
  pub locked : Bool

unfoldable pub boundary : Option ℕ → ℕ → ℕ
boundary none now = now
boundary (some through) now = through

-- What the FOR UPDATE query asks of the row.
unfoldable pub is_lockable :
    (Definition → Definition → Bool) → Handle → JobCronEntry → ℕ → CronSchedule → Bool
is_lockable same h job_entry limit c =
    is_schedule h.name job_entry.dedupe_key c
    && (c.revision == job_entry.options.revision
        && (same c.definition job_entry.definition && leb c.next_run_at limit))

first_due :
    (Definition → Definition → Bool) → Handle → JobCronEntry → ℕ → List CronSchedule → Option ℕ
unfolding is_lockable
first_due same h job_entry limit [] = none
first_due same h job_entry limit (c ∷ cs) =
    let rest = first_due same h job_entry limit cs in
    if is_lockable same h job_entry limit c then some c.next_run_at else rest

-- FOR UPDATE waits for the row; FOR UPDATE SKIP LOCKED passes over it.
lock_due :
    (Definition → Definition → Bool)
    → Handle
    → JobCronEntry
    → Pass
    → Option ℕ
    → List CronSchedule
    → Option ℕ
unfolding first_due
lock_due same h job_entry p none cs = if p.locked then none else first_due same h job_entry p.now cs
lock_due same h job_entry p (some through) cs = first_due same h job_entry through cs

unfoldable pub missed_lock : Option ℕ → CronScheduleResult
missed_lock none = contended
missed_lock (some through) = not_due

-- `claimed`, negated: another pass has claimed the occurrence.
unfoldable pub is_claimed : Handle → JobCronEntry → Candidate → CronStore → Bool
is_claimed h job_entry c s = any (is_claim h.name job_entry.dedupe_key c.occurrence) s.occurrences

-- The claims after INSERT .. ON CONFLICT DO NOTHING.
unfoldable pub claims_after :
    Handle → JobCronEntry → Pass → Candidate → CronStore → List CronOccurrence
unfolding is_claimed
claims_after h job_entry p c s =
    if is_claimed h job_entry c s
    then s.occurrences
    else s.occurrences ++ claim_of h job_entry c p.current ∷ []

-- `result`.
unfoldable pub outcome :
    Handle
    → JobCronEntry
    → Pass
    → (Store → Store)
    → (Store → Store)
    → Candidate
    → CronStore
    → Result (Store × CronScheduleResult)
unfolding is_claimed
outcome h job_entry p between later c s =
    if is_claimed h job_entry c s
    then ok (s.store, already_published c.occurrence)
    else if not c.publishes_it
    then ok (s.store, skipped_stale c.occurrence)
    else publish_unheld h job_entry c.occurrence (cron_row h p.clock p.id job_entry c.occurrence)
        between later s.store (live_dedupe_holder h.name (some job_entry.dedupe_key) s.store.jobs)

-- The claim, the publication and the cursor of a planned candidate.
unfoldable pub conclude :
    Handle
    → JobCronEntry
    → Pass
    → (Store → Store)
    → (Store → Store)
    → Candidate
    → ℕ
    → CronStore
    → CronStore × Result CronScheduleResult
unfolding claims_after outcome
conclude h job_entry p between later c next_run_at s =
    committed h job_entry next_run_at (claims_after h job_entry p c s) s
      (outcome h job_entry p between later c s)

-- The pass under the row's lock.
unfoldable pub planned :
    Handle
    → JobCronEntry
    → Pass
    → (Store → Store)
    → (Store → Store)
    → CronStore
    → Result (Candidate × ℕ)
    → CronStore × Result CronScheduleResult
unfolding conclude
planned h job_entry p between later s (err e) = (s, err e)
planned h job_entry p between later s (ok (c, next_run_at)) =
    conclude h job_entry p between later c next_run_at s

unfoldable pub locked_pass :
    Span
    → Handle
    → JobCronEntry
    → Pass
    → (Store → Store)
    → (Store → Store)
    → CronStore
    → Option ℕ
    → CronStore × Result CronScheduleResult
unfolding planned boundary missed_lock
locked_pass span h job_entry p between later s none = (s, ok (missed_lock p.through))
locked_pass span h job_entry p between later s (some due) =
    planned h job_entry p between later s
      (plan span job_entry due (boundary p.through p.current) p.current)

module _ (span : Span) (same : Definition → Definition → Bool) (h : Handle)
    (job_entry : JobCronEntry) where
  -- The answer of the first read, where it settles the pass.
  unfoldable pub settled_by : Pass → Option CronSchedule → Option (Result CronScheduleResult)
  unfolding boundary
  settled_by p none = some (err (config (cron_not_reconciled job_entry.dedupe_key)))
  settled_by p (some c) =
      if ltb job_entry.options.revision c.revision
      then some (ok (superseded c.revision))
      else if not (is_own same job_entry c)
      then some (ok (conflicting c.revision))
      else if ltb (boundary p.through p.now) c.next_run_at
      then some (ok not_due)
      else none

  unfoldable pub observed :
      Pass
      → (CronStore → CronStore)
      → (Store → Store)
      → (Store → Store)
      → CronStore
      → Option (Result CronScheduleResult)
      → CronStore × Result CronScheduleResult
  unfolding locked_pass lock_due
  observed p before between later s (some answer) = (s, answer)
  observed p before between later s none =
      locked_pass span h job_entry p between later (before s)
        (lock_due same h job_entry p p.through (before s).schedules)

  unfoldable pub revised :
      Pass
      → (CronStore → CronStore)
      → (Store → Store)
      → (Store → Store)
      → CronStore
      → Result (Unit {0})
      → CronStore × Result CronScheduleResult
  unfolding observed settled_by
  revised p before between later s (err e) = (s, err e)
  revised p before between later s (ok passed) =
      observed p before between later s
        (settled_by p (find_schedule h.name job_entry.dedupe_key s.schedules))

  -- `before` is what others commit to the tables before the row is locked.
  unfoldable pub schedule_cron :
      Pass
      → (CronStore → CronStore)
      → (Store → Store)
      → (Store → Store)
      → CronStore
      → CronStore × Result CronScheduleResult
  unfolding revised
  schedule_cron p before between later s =
      revised p before between later s (check_revision job_entry.options)
