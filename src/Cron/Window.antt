-- ===== src/Cron/Window.antt =====
-- The publication window of an occurrence.
use ironqueue.Common.{
  cron_misfire_grace, ℕ, ◌≤◌, ◌<◌, ◌≡◌, sym, ap, subst, Option, none, some, List, arith, Text, ok,
  >>-eq-ok, >>=-eq-ok, ok-injective,
}
use ironqueue.Job.Duration.{validate_nonzero_duration-bound}
use ironqueue.Job.Json.{Value}
use ironqueue.Job.Config.{JobRequest, Calendar, validate_request}
use ironqueue.Cron.Search.{Crontab, Span}
use ironqueue.Cron.Entry.{
  CronMisfirePolicy, skip, fire_once, validate_misfire, CronOptions, JobCronEntry, parse_cron,
  keyed, entry_of, check_revision, with_options, grace_between, publication_deadline,
}

grace-positive :
    (policy : CronMisfirePolicy) (occurrence successor : ℕ)
    → validate_misfire policy ≡ ok tt
    → occurrence < successor
    → 0 < grace_between policy occurrence successor
unfolding validate_misfire
grace-positive (skip (some grace)) occurrence successor v h =
    let d = validate_nonzero_duration-bound cron_misfire_grace grace v in omega (arith, d.0)
grace-positive (skip none) occurrence successor v h = omega arith
grace-positive fire_once occurrence successor v h = omega arith

registered-options :
    (calendar : Calendar) (chunks : Value → List ℕ) (parse : Text → Option Crontab) (now : ℕ)
    (expr : Text) (template : JobRequest) (options : CronOptions) (job_entry : JobCronEntry)
    → with_options calendar chunks parse now expr template options ≡ ok job_entry
    → (validate_misfire options.misfire ≡ ok tt) × (job_entry.options ≡ options)
unfolding with_options entry_of
registered-options calendar chunks parse now expr template options job_entry e =
    let a = >>=-eq-ok (parse_cron parse expr) _ e in
    let b = >>-eq-ok (validate_misfire options.misfire) _ a.2 in
    let c = >>-eq-ok (check_revision options) _ b.1 in
    let d = >>-eq-ok (validate_request calendar chunks now (keyed template)) _ c.1 in
    (b.0, sym (ap (λ (x : JobCronEntry). x.options) (ok-injective d.1)))

-- Every schedule that was registered leaves each of its occurrences a window for its publication,
-- which ends at the latest with the successor.
pub publication_deadline-window :
    (span : Span) (calendar : Calendar) (chunks : Value → List ℕ) (parse : Text → Option Crontab)
    (now : ℕ) (expr : Text) (template : JobRequest) (options : CronOptions)
    (job_entry : JobCronEntry) (occurrence successor : ℕ)
    → with_options calendar chunks parse now expr template options ≡ ok job_entry
    → occurrence < successor
    → (occurrence < publication_deadline span job_entry occurrence successor)
      × (publication_deadline span job_entry occurrence successor ≤ successor)
unfolding publication_deadline
publication_deadline-window span calendar chunks parse now expr template options job_entry
      occurrence successor e h =
    let r = registered-options calendar chunks parse now expr template options job_entry e in
    let v = subst (λ (o : CronOptions). validate_misfire o.misfire ≡ ok tt) (sym r.1) r.0 in
    let g = grace-positive job_entry.options.misfire occurrence successor v h in
    (ground arith, ground arith)
