-- ===== src/Cron/Progress.antt =====
-- A settled pass moves the cursor past its boundary.
use ironqueue.Common.{
  ℕ, ◌≤◌, ◌<◌, ◌≡◌, sym, ap, subst, inl, inr, Bool, true, false, some, List, [], ◌∷◌, arith,
  Bool-cases, Text, Result, err, ok,
}
use ironqueue.Database.Statement.{settle, apply}
use ironqueue.Database.Row.{Store, Handle}
use ironqueue.Cron.Search.{Span}
use ironqueue.Cron.Crontab.{IsCrontab}
use ironqueue.Cron.Entry.{Definition, JobCronEntry}
use ironqueue.Cron.Tables.{CronSchedule, CronOccurrence, CronStore, is_schedule, find_schedule}
use ironqueue.Cron.Schedule.{CronScheduleResult, Candidate, advance_fate, committed}
use ironqueue.Cron.Pass.{Pass, boundary, claims_after, outcome, conclude, schedule_cron}
use ironqueue.Cron.Reconcile.{is_due_schedule}
use ironqueue.Cron.Concluding.{settles, schedule_cron-Concluded}
use ironqueue.Cron.Plan.{plan-Planned}

find-advanced :
    (queue key : Text) (n : ℕ) (cs : List CronSchedule) (c : CronSchedule)
    → find_schedule queue key (apply (advance_fate queue key n) cs) ≡ some c
    → c.next_run_at ≡ n
unfolding find_schedule apply settle advance_fate is_schedule
find-advanced queue key n [] c e = ground arith
find-advanced queue key n (x ∷ xs) c e = elim (Bool-cases (is_schedule queue key x)) [
  | inl y ↦ ground arith
  | inr y ↦ ground (arith, find-advanced queue key n xs c)
]

committed-advanced :
    (h : Handle) (job_entry : JobCronEntry) (n : ℕ) (claims : List CronOccurrence) (s t : CronStore)
    (m : Result (Store × CronScheduleResult)) (r : CronScheduleResult)
    → committed h job_entry n claims s m ≡ (t, ok r)
    → t.schedules ≡ apply (advance_fate h.name job_entry.dedupe_key n) s.schedules
unfolding committed
committed-advanced h job_entry n claims s t (err x) r e = ground arith
committed-advanced h job_entry n claims s t (ok (x, y)) r e =
    ap (λ (z : CronStore × Result CronScheduleResult). z.0.schedules) (sym e)

conclude-advanced :
    (h : Handle) (job_entry : JobCronEntry) (p : Pass) (between later : Store → Store)
    (c : Candidate) (n : ℕ) (s t : CronStore) (r : CronScheduleResult)
    → conclude h job_entry p between later c n s ≡ (t, ok r)
    → t.schedules ≡ apply (advance_fate h.name job_entry.dedupe_key n) s.schedules
unfolding conclude
conclude-advanced h job_entry p between later c n s t r e =
    committed-advanced h job_entry n (claims_after h job_entry p c s) s t
      (outcome h job_entry p between later c s) r e

not_due_yet :
    (h : Handle) (key : Text) (t : CronStore) (c : CronSchedule) (limit now n : ℕ)
    → find_schedule h.name key t.schedules ≡ some c
    → c.next_run_at ≡ n
    → limit < n
    → is_due_schedule h (some limit) now t key ≡ false
unfolding is_due_schedule
not_due_yet h key t c limit now n f e l = ground arith

-- A pass that settled its schedule, at a boundary not after the clock, takes the key off the set of
-- those that are due at that boundary.
pub schedule_cron-progress :
    (span : Span) (same : Definition → Definition → Bool) (h : Handle) (job_entry : JobCronEntry)
    (fires : ℕ → Bool) (p : Pass) (before : CronStore → CronStore) (between later : Store → Store)
    (s t : CronStore) (r : CronScheduleResult) (c : CronSchedule)
    → IsCrontab job_entry.cron fires
    → boundary p.through p.current ≤ p.current
    → schedule_cron span same h job_entry p before between later s ≡ (t, ok r)
    → settles r ≡ true
    → find_schedule h.name job_entry.dedupe_key t.schedules ≡ some c
    → is_due_schedule h (some (boundary p.through p.current)) p.now t job_entry.dedupe_key ≡ false
schedule_cron-progress span same h job_entry fires p before between later s t r c lawful le e w f =
    let q = schedule_cron-Concluded span same h job_entry p before between later s t r e w in
    let g =
      plan-Planned span job_entry fires lawful q.due (boundary p.through p.current) p.current
        q.chosen q.next_run_at q.planned_so in
    let a =
      conclude-advanced h job_entry p between later q.chosen q.next_run_at (before s) t r
        q.concluded in
    let n =
      find-advanced h.name job_entry.dedupe_key q.next_run_at (before s).schedules c
        (subst (λ cs. find_schedule h.name job_entry.dedupe_key cs ≡ some c) a f) in
    not_due_yet h job_entry.dedupe_key t c (boundary p.through p.current) p.now q.next_run_at f n
      (g.ahead le)
