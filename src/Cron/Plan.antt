-- ===== src/Cron/Plan.antt =====
-- What a plan promises: a published candidate is still open, and the cursor passes the boundary.
use ironqueue.Common.{
  ℕ, ◌/◌, ◌≤◌, ◌<◌, ◌≡◌, refl, subst, inl, inr, Bool, true, arith, Bool-cases, Issue, cron_no_next,
  ok, >>=-eq-ok, ok-injective,
}
use ironqueue.Cron.Search.{Span, Search, found, nothing, out_of_fuel, next_after}
use ironqueue.Cron.Crontab.{IsCrontab}
use ironqueue.Cron.Next.{next_after-Next}
use ironqueue.Cron.Entry.{
  CronMisfirePolicy, skip, fire_once, JobCronEntry, found_or, next_occurrence, previous_occurrence,
  publication_deadline,
}
use ironqueue.Cron.Schedule.{
  Candidate, open_at, recent_or, newer_or, fall_back, skip_catch_up, fire_recent, choose,
  still_open, next_cursor, plan,
}

module _ (span : Span) (job_entry : JobCronEntry) (fires : ℕ → Bool)
    (lawful : IsCrontab job_entry.cron fires) where
  found_or-later :
      (e : Issue) (s : Search) (now n : ℕ)
      → found_or e s ≡ ok n
      → ((m : ℕ) → s ≡ found m → now / 1000000 < m)
      → now < n
  found_or-later e (found m) now n h later = let a = later m refl in ground arith
  found_or-later e nothing now n h later = ground arith
  found_or-later e out_of_fuel now n h later = ground arith

  next_occurrence-later : (now n : ℕ) → next_occurrence span job_entry now ≡ ok n → now < n
  unfolding next_occurrence
  next_occurrence-later now n h =
      found_or-later cron_no_next (next_after span job_entry.cron (now / 1000000)) now n h
        (λ m r. (next_after-Next span job_entry.cron fires lawful (now / 1000000) m r).0.0)

  deadline-le :
      (occurrence successor : ℕ)
      → publication_deadline span job_entry occurrence successor ≤ successor
  unfolding publication_deadline
  deadline-le occurrence successor = omega arith

  -- The candidate's successor is the next occurrence after it.
  unfoldable pub Succeeds : Candidate → Type 0
  Succeeds c = next_occurrence span job_entry c.occurrence ≡ ok c.successor

  recent_or-Succeeds :
      (stored successor current recent recent_successor : ℕ)
      → next_occurrence span job_entry stored ≡ ok successor
      → next_occurrence span job_entry recent ≡ ok recent_successor
      → Succeeds (recent_or span job_entry stored successor current recent recent_successor)
  unfolding recent_or Succeeds
  recent_or-Succeeds stored successor current recent recent_successor h k = ground arith

  newer_or-Succeeds :
      (stored successor current recent : ℕ) (c : Candidate)
      → next_occurrence span job_entry stored ≡ ok successor
      → newer_or span job_entry stored successor current recent ≡ ok c
      → Succeeds c
  unfolding newer_or
  newer_or-Succeeds stored successor current recent c h e =
      let r = >>=-eq-ok (next_occurrence span job_entry recent) _ e in
      subst Succeeds (ok-injective r.2)
        (recent_or-Succeeds stored successor current recent r.0 h r.1)

  fall_back-Succeeds :
      (stored successor current : ℕ) (c : Candidate)
      → next_occurrence span job_entry stored ≡ ok successor
      → fall_back span job_entry stored successor current ≡ ok c
      → Succeeds c
  unfolding fall_back Succeeds
  fall_back-Succeeds stored successor current c h e =
      let r = >>=-eq-ok (previous_occurrence span job_entry current) _ e in
      ground (arith, newer_or-Succeeds stored successor current r.0 c h)

  skip_catch_up-Succeeds :
      (stored current : ℕ) (c : Candidate)
      → skip_catch_up span job_entry stored current ≡ ok c
      → Succeeds c
  unfolding skip_catch_up Succeeds
  skip_catch_up-Succeeds stored current c e =
      let r = >>=-eq-ok (next_occurrence span job_entry stored) _ e in
      ground (arith, fall_back-Succeeds stored r.0 current c r.1)

  fire_recent-Succeeds :
      (scheduling_time : ℕ) (c : Candidate)
      → fire_recent span job_entry scheduling_time ≡ ok c
      → Succeeds c
  unfolding fire_recent Succeeds
  fire_recent-Succeeds scheduling_time c e =
      let r = >>=-eq-ok (previous_occurrence span job_entry scheduling_time) _ e in
      let n = >>=-eq-ok (next_occurrence span job_entry r.0) _ r.2 in
      subst Succeeds (ok-injective n.2) n.1

  choose-Succeeds :
      (policy : CronMisfirePolicy) (stored scheduling_time : ℕ) (c : Candidate)
      → choose span job_entry policy stored scheduling_time ≡ ok c
      → Succeeds c
  unfolding choose
  choose-Succeeds (skip grace) stored scheduling_time c e =
      skip_catch_up-Succeeds stored scheduling_time c e
  choose-Succeeds fire_once stored scheduling_time c e = fire_recent-Succeeds scheduling_time c e

  -- What a plan fixes.
  pub record Planned (scheduling_time current : ℕ) (c : Candidate) (next_run_at : ℕ) : Type 0 where
    pub succeeds : Succeeds c
    pub ahead : scheduling_time ≤ current → scheduling_time < next_run_at
    pub still :
        c.publishes_it ≡ true
        → current < publication_deadline span job_entry c.occurrence c.successor

  next_cursor-ahead :
      (scheduling_time current : ℕ) (c : Candidate) (next_run_at : ℕ)
      → scheduling_time ≤ current
      → next_cursor span job_entry scheduling_time (still_open span job_entry current c)
        ≡ ok next_run_at
      → scheduling_time < next_run_at
  unfolding next_cursor still_open open_at
  next_cursor-ahead scheduling_time current c next_run_at le e =
      elim (Bool-cases (still_open span job_entry current c).publishes_it) [
        | inl yes' ↦ ground (arith, deadline-le c.occurrence c.successor)
        | inr no' ↦ next_occurrence-later scheduling_time next_run_at (ground arith)
      ]

  still_open-Succeeds :
      (current : ℕ) (c : Candidate) → Succeeds c → Succeeds (still_open span job_entry current c)
  unfolding still_open Succeeds
  still_open-Succeeds current c h = h

  still_open-open :
      (current : ℕ) (c : Candidate)
      → (still_open span job_entry current c).publishes_it ≡ true
      → current < publication_deadline span job_entry c.occurrence c.successor
  unfolding still_open open_at
  still_open-open current c h = ground arith

  pub plan-Planned :
      (stored scheduling_time current : ℕ) (c : Candidate) (next_run_at : ℕ)
      → plan span job_entry stored scheduling_time current ≡ ok (c, next_run_at)
      → Planned scheduling_time current c next_run_at
  unfolding plan
  plan-Planned stored scheduling_time current c next_run_at e =
      let r =
        >>=-eq-ok (choose span job_entry job_entry.options.misfire stored scheduling_time) _ e in
      let n =
        >>=-eq-ok
          (next_cursor span job_entry scheduling_time (still_open span job_entry current r.0)) _
          r.2 in
      subst (λ (x : Candidate × ℕ). Planned scheduling_time current x.0 x.1) (ok-injective n.2)
        (record {
          succeeds =
              still_open-Succeeds current r.0
                (choose-Succeeds job_entry.options.misfire stored scheduling_time r.0 r.1);
          ahead = λ le. next_cursor-ahead scheduling_time current r.0 n.0 le n.1;
          still = still_open-open current r.0;
        })
