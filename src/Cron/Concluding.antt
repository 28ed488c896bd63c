-- ===== src/Cron/Concluding.antt =====
-- A pass that settles its schedule has planned and concluded under the row's lock.
use ironqueue.Common.{ℕ, ◌≡◌, refl, Bool, true, false, Option, none, some, arith, Result, err, ok}
use ironqueue.Database.Row.{Store, Handle}
use ironqueue.Database.Dequeue.{before}
use ironqueue.Cron.Search.{Span}
use ironqueue.Cron.Entry.{Definition, JobCronEntry}
use ironqueue.Cron.Tables.{CronSchedule, CronStore}
use ironqueue.Cron.Schedule.{
  CronScheduleResult, published, already_published, skipped_stale, skipped_held, Candidate, plan,
}
use ironqueue.Cron.Pass.{
  Pass, boundary, missed_lock, conclude, planned, locked_pass, settled_by, observed, revised,
  schedule_cron,
}

-- The pass did its work: it published, or found a reason to skip the occurrence for good.
unfoldable pub settles : CronScheduleResult → Bool
settles (published id at) = true
settles (already_published at) = true
settles (skipped_stale at) = true
settles (skipped_held at holder) = true
settles _ = false

module _ (span : Span) (h : Handle) (job_entry : JobCronEntry) (p : Pass)
    (between later : Store → Store) where
  -- The plan that a settled pass from `s` to `t` concluded.
  pub record Concluded (s t : CronStore) (r : CronScheduleResult) : Type 0 where
    pub due : ℕ
    pub chosen : Candidate
    pub next_run_at : ℕ
    pub planned_so :
        plan span job_entry due (boundary p.through p.current) p.current ≡ ok (chosen, next_run_at)
    pub concluded : conclude h job_entry p between later chosen next_run_at s ≡ (t, ok r)

  planned-Concluded :
      (s t : CronStore) (r : CronScheduleResult) (due : ℕ) (m : Result (Candidate × ℕ))
      → plan span job_entry due (boundary p.through p.current) p.current ≡ m
      → planned h job_entry p between later s m ≡ (t, ok r)
      → Concluded s t r
  unfolding planned
  planned-Concluded s t r due (err x) e q = ground arith
  planned-Concluded s t r due (ok (c, n)) e q = record {
    due = due;
    chosen = c;
    next_run_at = n;
    planned_so = e;
    concluded = q;
  }

  locked_pass-Concluded :
      (s t : CronStore) (r : CronScheduleResult) (due : Option ℕ)
      → locked_pass span h job_entry p between later s due ≡ (t, ok r)
      → settles r ≡ true
      → Concluded s t r
  unfolding locked_pass settles missed_lock
  locked_pass-Concluded s t r none e w = ground arith
  locked_pass-Concluded s t r (some due) e w = planned-Concluded s t r due _ refl e

module _ (span : Span) (same : Definition → Definition → Bool) (h : Handle)
    (job_entry : JobCronEntry) (p : Pass) where
  settled_by-idle :
      (c : Option CronSchedule) (r : CronScheduleResult)
      → settled_by span same h job_entry p c ≡ some (ok r)
      → settles r ≡ false
  unfolding settled_by settles
  settled_by-idle none r e = ground arith
  settled_by-idle (some c) r e = ground arith

  observed-Concluded :
      (before : CronStore → CronStore) (between later : Store → Store) (s t : CronStore)
      (r : CronScheduleResult) (c : Option CronSchedule) (a : Option (Result CronScheduleResult))
      → settled_by span same h job_entry p c ≡ a
      → observed span same h job_entry p before between later s a ≡ (t, ok r)
      → settles r ≡ true
      → Concluded span h job_entry p between later (before s) t r
  unfolding observed
  observed-Concluded before between later s t r c (some (ok x)) q e w =
      ground (arith, settled_by-idle c x q)
  observed-Concluded before between later s t r c (some (err x)) q e w = ground arith
  observed-Concluded before between later s t r c none q e w =
      locked_pass-Concluded span h job_entry p between later (before s) t r _ e w

  revised-Concluded :
      (before : CronStore → CronStore) (between later : Store → Store) (s t : CronStore)
      (r : CronScheduleResult) (m : Result (Unit {0}))
      → revised span same h job_entry p before between later s m ≡ (t, ok r)
      → settles r ≡ true
      → Concluded span h job_entry p between later (before s) t r
  unfolding revised
  revised-Concluded before between later s t r (err x) e w = ground arith
  revised-Concluded before between later s t r (ok x) e w =
      observed-Concluded before between later s t r _ _ refl e w

  pub schedule_cron-Concluded :
      (before : CronStore → CronStore) (between later : Store → Store) (s t : CronStore)
      (r : CronScheduleResult)
      → schedule_cron span same h job_entry p before between later s ≡ (t, ok r)
      → settles r ≡ true
      → Concluded span h job_entry p between later (before s) t r
  unfolding schedule_cron
  schedule_cron-Concluded before between later s t r e w =
      revised-Concluded before between later s t r _ e w
