-- ===== src/Cron/Steps.antt =====
-- Histories of committed transactions on the cron tables of one schedule.
-- One committed transaction on the cron tables. `edits` stands for the calls that leave the claims
-- alone: those on the jobs, and `reconcile_cron` and `remove_cron_schedule`.
use ironqueue.Common.{ℕ, ◌≤◌, ◌≢◌, Bool, Option, none, some, List, [], ◌∷◌, All, Text, Result, ok}
use ironqueue.Database.Row.{Store, Handle}
use ironqueue.Cron.Search.{Span}
use ironqueue.Cron.Entry.{Definition, JobCronEntry}
use ironqueue.Cron.Tables.{CronSchedule, CronOccurrence, CronStore}
use ironqueue.Cron.Schedule.{CronScheduleResult, published}
use ironqueue.Cron.Pass.{Pass, schedule_cron}
use ironqueue.Cron.Purge.{purge_cron_occurrences}

pub data CronStep : Type 0 where
  passes : Pass → (Store → Store) → (Store → Store) → CronStep
  purges : ℕ → (CronOccurrence → Bool) → CronStep
  edits : (Store → Store) → (List CronSchedule → List CronSchedule) → CronStep

abbrev pub time_of : ℕ → CronStep → ℕ
time_of clock (passes p between later) = p.current
time_of clock (purges now locked) = now
time_of clock (edits jobs schedules) = clock

-- The database's clock does not go back from step to step.
abbrev pub Timed : ℕ → List CronStep → Type 0
Timed clock [] = Unit {0}
Timed clock (step ∷ steps) = (clock ≤ time_of clock step) × Timed (time_of clock step) steps

abbrev pub occurrence_of : Result CronScheduleResult → Option ℕ
occurrence_of (ok (published id at)) = some at
occurrence_of _ = none

abbrev pub noted : Option ℕ → List ℕ → List ℕ
noted none rest = rest
noted (some at) rest = at ∷ rest

abbrev pub Unique : List ℕ → Type 0
Unique [] = Unit {0}
Unique (x ∷ xs) = All (λ y. y ≢ x) xs × Unique xs

module _ (span : Span) (same : Definition → Definition → Bool) (collates : Text → Text → Bool)
    (h : Handle) (job_entry : JobCronEntry) where
  unfoldable pub step_of : CronStep → CronStore → CronStore × Option ℕ
  step_of (passes p between later) s =
      let r = schedule_cron span same h job_entry p (λ u. u) between later s in
      (r.0, occurrence_of r.1)
  step_of (purges now locked) s = ((purge_cron_occurrences collates h now locked s).0, none)
  step_of (edits jobs schedules) s =
      (record s { store = jobs s.store; schedules = schedules s.schedules }, none)

  -- The occurrences that a history publishes, in order.
  unfoldable pub publications : List CronStep → CronStore → List ℕ
  unfolding step_of
  publications [] s = []
  publications (step ∷ steps) s = let r = step_of step s in noted r.1 (publications steps r.0)
