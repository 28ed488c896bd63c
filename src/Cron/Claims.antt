-- ===== src/Cron/Claims.antt =====
-- What a pass does to the claims.
use ironqueue.Common.{
  ℕ, ◌≡◌, refl, sym, ap, ◌∙◌, ◌≢◌, ◌⊎◌, inl, inr, Bool, true, false, Option, none, some, List, [],
  ◌∷◌, ◌++◌, arith, Text, Result, err, ok,
}
use ironqueue.Database.Row.{JobRow, Store, Handle}
use ironqueue.Database.Enqueue.{live_dedupe_holder}
use ironqueue.Cron.Search.{Span}
use ironqueue.Cron.Entry.{Definition, JobCronEntry}
use ironqueue.Cron.Tables.{CronOccurrence, CronStore}
use ironqueue.Cron.Schedule.{
  CronScheduleResult, published, Candidate, cron_row, report_held, insert_or_held, publish_unheld,
  claim_of, committed,
}
use ironqueue.Cron.Pass.{
  Pass, is_claimed, claims_after, outcome, conclude, planned, locked_pass, observed, revised,
  schedule_cron,
}

same_claims :
    {x y : CronStore × Result CronScheduleResult} → x ≡ y → x.0.occurrences ≡ y.0.occurrences
same_claims e = ap (λ (z : CronStore × Result CronScheduleResult). z.0.occurrences) e

module _ (h : Handle) (job_entry : JobCronEntry) (p : Pass) where
  -- A pass leaves the claims as they are, or inserts the claim of one occurrence.
  unfoldable pub Claims : CronStore → CronStore → Type 0
  Claims s t =
      (t.occurrences ≡ s.occurrences)
      ⊎ ((c : Candidate) × (t.occurrences ≡ claims_after h job_entry p c s))

  committed-Claims :
      (c : Candidate) (n : ℕ) (s t : CronStore) (m : Result (Store × CronScheduleResult))
      (r : Result CronScheduleResult)
      → committed h job_entry n (claims_after h job_entry p c s) s m ≡ (t, r)
      → Claims s t
  unfolding committed Claims
  committed-Claims c n s t (err x) r e = inl (sym (same_claims e))
  committed-Claims c n s t (ok (x, y)) r e = inr (c, sym (same_claims e))

  module _ (span : Span) (between later : Store → Store) where
    planned-Claims :
        (s t : CronStore) (m : Result (Candidate × ℕ)) (r : Result CronScheduleResult)
        → planned h job_entry p between later s m ≡ (t, r)
        → Claims s t
    unfolding planned conclude Claims
    planned-Claims s t (err x) r e = inl (sym (same_claims e))
    planned-Claims s t (ok (c, n)) r e =
        committed-Claims c n s t (outcome h job_entry p between later c s) r e

    locked_pass-Claims :
        (s t : CronStore) (due : Option ℕ) (r : Result CronScheduleResult)
        → locked_pass span h job_entry p between later s due ≡ (t, r)
        → Claims s t
    unfolding locked_pass Claims
    locked_pass-Claims s t none r e = inl (sym (same_claims e))
    locked_pass-Claims s t (some due) r e = planned-Claims s t _ r e

    module _ (same : Definition → Definition → Bool) where
      observed-Claims :
          (s t : CronStore) (a : Option (Result CronScheduleResult)) (r : Result CronScheduleResult)
          → observed span same h job_entry p (λ u. u) between later s a ≡ (t, r)
          → Claims s t
      unfolding observed Claims
      observed-Claims s t (some x) r e = inl (sym (same_claims e))
      observed-Claims s t none r e = locked_pass-Claims s t _ r e

      revised-Claims :
          (s t : CronStore) (m : Result (Unit {0})) (r : Result CronScheduleResult)
          → revised span same h job_entry p (λ u. u) between later s m ≡ (t, r)
          → Claims s t
      unfolding revised Claims
      revised-Claims s t (err x) r e = inl (sym (same_claims e))
      revised-Claims s t (ok x) r e = observed-Claims s t _ r e

      pub schedule_cron-Claims :
          (s t : CronStore) (r : Result CronScheduleResult)
          → schedule_cron span same h job_entry p (λ u. u) between later s ≡ (t, r)
          → Claims s t
      unfolding schedule_cron
      schedule_cron-Claims s t r e = revised-Claims s t _ r e

committed-ok :
    (h : Handle) (job_entry : JobCronEntry) (n : ℕ) (claims : List CronOccurrence) (s t : CronStore)
    (m : Result (Store × CronScheduleResult)) (r : CronScheduleResult)
    → committed h job_entry n claims s m ≡ (t, ok r)
    → (u : Store) × (m ≡ ok (u, r)) × (t.occurrences ≡ claims)
unfolding committed
committed-ok h job_entry n claims s t (err x) r e = ground arith
committed-ok h job_entry n claims s t (ok (u, x)) r e = (u, ground arith, sym (same_claims e))

pub fresh_claims :
    (h : Handle) (job_entry : JobCronEntry) (p : Pass) (c : Candidate) (s : CronStore)
    → is_claimed h job_entry c s ≡ false
    → claims_after h job_entry p c s ≡ s.occurrences ++ claim_of h job_entry c p.current ∷ []
unfolding claims_after
fresh_claims h job_entry p c s e = rw e refl

-- A publication is of the chosen occurrence, which nobody had claimed and which now is claimed.
module _ (h : Handle) (job_entry : JobCronEntry) (p : Pass) (between later : Store → Store) where
  report_held-at :
      (key : Text) (occurrence id at : ℕ) (s t : Store) (holder : Option JobRow)
      → report_held key occurrence s holder ≢ ok (t, published id at)
  unfolding report_held
  report_held-at key occurrence id at s t none e = ground arith
  report_held-at key occurrence id at s t (some r) e = ground arith

  insert_or_held-at :
      (queue : Text) (occurrence id at : ℕ) (row : JobRow) (s t : Store) (holder : Option JobRow)
      → insert_or_held queue job_entry occurrence row later s holder ≡ ok (t, published id at)
      → at ≡ occurrence
  unfolding insert_or_held
  insert_or_held-at queue occurrence id at row s t none e = ground arith
  insert_or_held-at queue occurrence id at row s t (some b) e =
      absurd (report_held-at job_entry.dedupe_key occurrence id at (later s) t _ e)

  publish_unheld-at :
      (occurrence id at : ℕ) (row : JobRow) (s t : Store) (holder : Option JobRow)
      → publish_unheld h job_entry occurrence row between later s holder ≡ ok (t, published id at)
      → at ≡ occurrence
  unfolding publish_unheld
  publish_unheld-at occurrence id at row s t none e =
      insert_or_held-at h.name occurrence id at row (between s) t _ e
  publish_unheld-at occurrence id at row s t (some r) e = ground arith

  outcome-published :
      (c : Candidate) (id at : ℕ) (s : CronStore) (t : Store)
      → outcome h job_entry p between later c s ≡ ok (t, published id at)
      → (is_claimed h job_entry c s ≡ false) × (c.publishes_it ≡ true) × (at ≡ c.occurrence)
  unfolding outcome
  outcome-published c id at s t e = (
    ground arith,
    ground arith,
    ground (
      arith,
      publish_unheld-at c.occurrence id at (cron_row h p.clock p.id job_entry c.occurrence) s.store
          t (live_dedupe_holder h.name (some job_entry.dedupe_key) s.store.jobs),
    ),
  )

  pub conclude-published :
      (c : Candidate) (n id at : ℕ) (s t : CronStore)
      → conclude h job_entry p between later c n s ≡ (t, ok (published id at))
      → (is_claimed h job_entry c s ≡ false)
        × (c.publishes_it ≡ true)
        × (at ≡ c.occurrence)
        × (t.occurrences ≡ s.occurrences ++ claim_of h job_entry c p.current ∷ [])
  unfolding conclude claims_after
  conclude-published c n id at s t e =
      let k =
        committed-ok h job_entry n (claims_after h job_entry p c s) s t
          (outcome h job_entry p between later c s) (published id at) e in
      let o = outcome-published c id at s k.0 k.1 in
      (o.0, o.1, o.2, k.2 ∙ fresh_claims h job_entry p c s o.0)
