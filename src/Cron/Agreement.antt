-- ===== src/Cron/Agreement.antt =====
-- A schedule that was reconciled is not reported as superseded or conflicting by the next pass.
use ironqueue.Common.{
  ℕ, ◌≤◌, ◌≡◌, refl, ap, subst, inl, inr, Bool, true, false, Option, none, some, List, arith,
  Bool-cases, Text, Result, err, ok, ◌>>◌, ok-injective,
}
use ironqueue.Database.Row.{JobRow, Store, Handle}
use ironqueue.Database.Dequeue.{before}
use ironqueue.Database.Enqueue.{live_dedupe_holder}
use ironqueue.Cron.Search.{Span}
use ironqueue.Cron.Entry.{Definition, JobCronEntry, check_revision, next_occurrence}
use ironqueue.Cron.Tables.{CronSchedule, CronOccurrence, CronStore, find_schedule, is_own}
use ironqueue.Cron.Schedule.{
  CronScheduleResult, superseded, conflicting, Candidate, cron_row, report_held, insert_or_held,
  publish_unheld, committed,
}
use ironqueue.Cron.Pass.{
  Pass, missed_lock, is_claimed, claims_after, outcome, conclude, planned, locked_pass, settled_by,
  observed, revised, schedule_cron,
}
use ironqueue.Cron.Reconcile.{
  Authority, active, judge_authority, reconciled, reconcile_from, reconcile_cron,
}

unfoldable pub agrees : CronScheduleResult → Bool
agrees (superseded revision) = false
agrees (conflicting revision) = false
agrees _ = true

agrees_as : {u v : Store × CronScheduleResult} → ok u ≡ ok v → agrees u.1 ≡ true → agrees v.1 ≡ true
agrees_as e h = subst (λ (z : Store × CronScheduleResult). agrees z.1 ≡ true) (ok-injective e) h

module _ (h : Handle) (job_entry : JobCronEntry) (between later : Store → Store) where
  report_held-agrees :
      (key : Text) (at : ℕ) (s t : Store) (holder : Option JobRow) (r : CronScheduleResult)
      → report_held key at s holder ≡ ok (t, r)
      → agrees r ≡ true
  unfolding report_held agrees
  report_held-agrees key at s t none r e = ground arith
  report_held-agrees key at s t (some b) r e = agrees_as e refl

  insert_or_held-agrees :
      (queue : Text) (at : ℕ) (row : JobRow) (s t : Store) (holder : Option JobRow)
      (r : CronScheduleResult)
      → insert_or_held queue job_entry at row later s holder ≡ ok (t, r)
      → agrees r ≡ true
  unfolding insert_or_held agrees
  insert_or_held-agrees queue at row s t none r e = agrees_as e refl
  insert_or_held-agrees queue at row s t (some b) r e =
      report_held-agrees job_entry.dedupe_key at (later s) t _ r e

  publish_unheld-agrees :
      (at : ℕ) (row : JobRow) (s t : Store) (holder : Option JobRow) (r : CronScheduleResult)
      → publish_unheld h job_entry at row between later s holder ≡ ok (t, r)
      → agrees r ≡ true
  unfolding publish_unheld agrees
  publish_unheld-agrees at row s t none r e =
      insert_or_held-agrees h.name at row (between s) t _ r e
  publish_unheld-agrees at row s t (some b) r e = agrees_as e refl

  outcome-agrees :
      (p : Pass) (c : Candidate) (s : CronStore) (t : Store) (r : CronScheduleResult)
      → outcome h job_entry p between later c s ≡ ok (t, r)
      → agrees r ≡ true
  unfolding outcome agrees
  outcome-agrees p c s t r e = elim (Bool-cases (is_claimed h job_entry c s)) [
    | inl y ↦ ground arith
    | inr n ↦ elim (Bool-cases c.publishes_it) [
      | inl goes ↦
          publish_unheld-agrees c.occurrence (cron_row h p.clock p.id job_entry c.occurrence)
            s.store t (live_dedupe_holder h.name (some job_entry.dedupe_key) s.store.jobs) r
            (ground arith)
      | inr stale ↦ ground arith
    ]
  ]

  committed-agrees :
      (n : ℕ) (claims : List CronOccurrence) (s t : CronStore)
      (m : Result (Store × CronScheduleResult)) (r : CronScheduleResult)
      → ((u : Store) (x : CronScheduleResult) → m ≡ ok (u, x) → agrees x ≡ true)
      → committed h job_entry n claims s m ≡ (t, ok r)
      → agrees r ≡ true
  unfolding committed
  committed-agrees n claims s t (err x) r k e = ground arith
  committed-agrees n claims s t (ok (u, x)) r k e =
      subst (λ (z : Result CronScheduleResult). z ≡ ok r → agrees r ≡ true) refl
        (λ q. subst (λ y. agrees y ≡ true) (ok-injective q) (k u x refl))
        (ap (λ (z : CronStore × Result CronScheduleResult). z.1) e)

  planned-agrees :
      (p : Pass) (s t : CronStore) (m : Result (Candidate × ℕ)) (r : CronScheduleResult)
      → planned h job_entry p between later s m ≡ (t, ok r)
      → agrees r ≡ true
  unfolding planned conclude
  planned-agrees p s t (err x) r e = ground arith
  planned-agrees p s t (ok (c, n)) r e =
      committed-agrees n (claims_after h job_entry p c s) s t
        (outcome h job_entry p between later c s) r (λ u x q. outcome-agrees p c s u x q) e

  locked_pass-agrees :
      (span : Span) (p : Pass) (s t : CronStore) (due : Option ℕ) (r : CronScheduleResult)
      → locked_pass span h job_entry p between later s due ≡ (t, ok r)
      → agrees r ≡ true
  unfolding locked_pass missed_lock agrees
  locked_pass-agrees span p s t none r e = elim p.through [
    | none ↦ ground arith
    | some x ↦ ground arith
  ]
  locked_pass-agrees span p s t (some due) r e = planned-agrees p s t _ r e

  module _ (span : Span) (same : Definition → Definition → Bool) (p : Pass) where
    own-agrees :
        (c : CronSchedule) (r : CronScheduleResult)
        → is_own same job_entry c ≡ true
        → c.revision ≤ job_entry.options.revision
        → settled_by span same h job_entry p (some c) ≡ some (ok r)
        → agrees r ≡ true
    unfolding settled_by agrees
    own-agrees c r own rev e = ground arith

    observed-agrees :
        (before : CronStore → CronStore) (s t : CronStore) (c : CronSchedule)
        (r : CronScheduleResult) (a : Option (Result CronScheduleResult))
        → is_own same job_entry c ≡ true
        → c.revision ≤ job_entry.options.revision
        → settled_by span same h job_entry p (some c) ≡ a
        → observed span same h job_entry p before between later s a ≡ (t, ok r)
        → agrees r ≡ true
    unfolding observed
    observed-agrees before s t c r (some (err x)) own rev q e = ground arith
    observed-agrees before s t c r (some (ok x)) own rev q e =
        ground (arith, own-agrees c x own rev)
    observed-agrees before s t c r none own rev q e = locked_pass-agrees span p (before s) t _ r e

    schedule_cron-agrees :
        (before : CronStore → CronStore) (s t : CronStore) (c : CronSchedule)
        (r : CronScheduleResult) (m : Result (Unit {0}))
        → find_schedule h.name job_entry.dedupe_key s.schedules ≡ some c
        → is_own same job_entry c ≡ true
        → c.revision ≤ job_entry.options.revision
        → revised span same h job_entry p before between later s m ≡ (t, ok r)
        → agrees r ≡ true
    unfolding revised
    schedule_cron-agrees before s t c r (err x) f own rev e = ground arith
    schedule_cron-agrees before s t c r (ok x) f own rev e =
        observed-agrees before s t c r (settled_by span same h job_entry p (some c)) own rev refl (
          subst
            (λ o.
              observed span same h job_entry p before between later s
                (settled_by span same h job_entry p o)
              ≡ (t, ok r))
            f e)

judged-own :
    (same : Definition → Definition → Bool) (job_entry : JobCronEntry) (o : Option CronSchedule)
    → judge_authority same job_entry o ≡ ok active
    → (c : CronSchedule) × (o ≡ some c)
      × (is_own same job_entry c ≡ true)
      × (c.revision ≤ job_entry.options.revision)
unfolding judge_authority
judged-own same job_entry none e = ground arith
judged-own same job_entry (some c) e = (c, refl, ground arith, ground arith)

reconciled-own :
    (same : Definition → Definition → Bool) (h : Handle) (job_entry : JobCronEntry)
    (s t : CronStore) (m : Result ℕ)
    → reconcile_from same h job_entry s m ≡ (t, ok active)
    → (c : CronSchedule) × (find_schedule h.name job_entry.dedupe_key t.schedules ≡ some c)
      × (is_own same job_entry c ≡ true)
      × (c.revision ≤ job_entry.options.revision)
unfolding reconcile_from reconciled
reconciled-own same h job_entry s t (err x) e = ground arith
reconciled-own same h job_entry s t (ok n) e =
    let table = ap (λ (z : CronStore × Result Authority). z.0.schedules) e in
    subst
      (λ cs.
        (c : CronSchedule) × (find_schedule h.name job_entry.dedupe_key cs ≡ some c)
        × (is_own same job_entry c ≡ true)
        × (c.revision ≤ job_entry.options.revision))
      table (judged-own same job_entry _ (ap (λ (z : CronStore × Result Authority). z.1) e))

-- After a reconciliation that answered `Active`, a pass over the schedule that it left is never
-- answered as superseded or as conflicting.
pub reconcile_cron-agrees :
    (span : Span) (same : Definition → Definition → Bool) (h : Handle) (job_entry : JobCronEntry)
    (now : ℕ) (p : Pass) (before : CronStore → CronStore) (between later : Store → Store)
    (s t u : CronStore) (r : CronScheduleResult)
    → reconcile_cron span same h job_entry now s ≡ (t, ok active)
    → schedule_cron span same h job_entry p before between later t ≡ (u, ok r)
    → agrees r ≡ true
unfolding reconcile_cron schedule_cron
reconcile_cron-agrees span same h job_entry now p before between later s t u r e f =
    let k =
      reconciled-own same h job_entry s t
        (check_revision job_entry.options >> next_occurrence span job_entry now) e in
    schedule_cron-agrees h job_entry between later span same p before t u k.0 r
      (check_revision job_entry.options) k.1 k.2 k.3 f
