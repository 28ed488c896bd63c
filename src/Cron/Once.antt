-- ===== src/Cron/Once.antt =====
-- No occurrence of a schedule is published twice, whatever the passes, purges and edits of the schedules
-- in between.
use ironqueue.Common.{
  ℕ, ◌≤◌, ◌<◌, ◌≡◌, refl, sym, subst, ◌∙◌, ◌≢◌, inl, inr, Bool, false, List, [], ◌∷◌, ◌++◌, arith,
  any, All, Text, Result, ok, ok-injective,
}
use ironqueue.Database.Row.{Store, Handle}
use ironqueue.Database.Dequeue.{claimed}
use ironqueue.Cron.Search.{Span}
use ironqueue.Cron.Crontab.{IsCrontab}
use ironqueue.Cron.Entry.{Definition, JobCronEntry, next_occurrence, publication_deadline}
use ironqueue.Cron.Tables.{CronStore, is_claim}
use ironqueue.Cron.Schedule.{CronScheduleResult, published, Candidate, claim_of}
use ironqueue.Cron.Pass.{Pass, boundary, is_claimed, schedule_cron}
use ironqueue.Cron.Plan.{Succeeds, plan-Planned}
use ironqueue.Cron.Claims.{Claims, schedule_cron-Claims, conclude-published}
use ironqueue.Cron.Concluding.{settles, schedule_cron-Concluded}
use ironqueue.Cron.Spent.{
  Spent, both_ways, purge_cron_occurrences-Spent, later-Spent, Spent-claim, claims_after-Spent,
}
use ironqueue.Cron.Steps.{
  CronStep, passes, purges, edits, time_of, Timed, occurrence_of, noted, Unique, step_of,
  publications,
}

next_at :
    (span : Span) (job_entry : JobCronEntry) (fires : ℕ → Bool)
    (lawful : IsCrontab job_entry.cron fires) (c : Candidate) (at : ℕ)
    → at ≡ c.occurrence
    → Succeeds span job_entry fires lawful c
    → next_occurrence span job_entry at ≡ ok c.successor
unfolding Succeeds
next_at span job_entry fires lawful c at e h = rw e h

before_successor :
    (span : Span) (job_entry : JobCronEntry) (current : ℕ) (c : Candidate)
    → current < publication_deadline span job_entry c.occurrence c.successor
    → current < c.successor
unfolding publication_deadline
before_successor span job_entry current c h = omega arith

module _ (span : Span) (same : Definition → Definition → Bool) (collates : Text → Text → Bool)
    (h : Handle) (job_entry : JobCronEntry) where
  module _ (fires : ℕ → Bool) (lawful : IsCrontab job_entry.cron fires) where
    -- What an occurrence that is published leaves behind.
    pass-publishes :
        (p : Pass) (between later : Store → Store) (s t : CronStore) (id at : ℕ)
        → schedule_cron span same h job_entry p (λ u. u) between later s ≡ (t, ok (published id at))
        → (c : Candidate) × (c.occurrence ≡ at)
          × (is_claimed h job_entry c s ≡ false)
          × (next_occurrence span job_entry at ≡ ok c.successor)
          × (p.current < c.successor)
          × (t.occurrences ≡ s.occurrences ++ claim_of h job_entry c p.current ∷ [])
    unfolding settles
    pass-publishes p between later s t id at e =
        let q =
          schedule_cron-Concluded span same h job_entry p (λ u. u) between later s t
            (published id at) e refl in
        let g =
          plan-Planned span job_entry fires lawful q.due (boundary p.through p.current) p.current
            q.chosen q.next_run_at q.planned_so in
        let k =
          conclude-published h job_entry p between later q.chosen q.next_run_at id at s t
            q.concluded in
        (
          q.chosen,
          sym k.2,
          k.0,
          next_at span job_entry fires lawful q.chosen at k.2 g.succeeds,
          before_successor span job_entry p.current q.chosen (g.still k.1),
          k.3,
        )

    -- A pass keeps an occurrence out of reach.
    pass-Spent :
        (p : Pass) (between later : Store → Store) (s t : CronStore) (r : Result CronScheduleResult)
        (clock at successor : ℕ)
        → schedule_cron span same h job_entry p (λ u. u) between later s ≡ (t, r)
        → clock ≤ p.current
        → Spent h.name job_entry.dedupe_key at successor clock s.occurrences
        → Spent h.name job_entry.dedupe_key at successor p.current t.occurrences
    unfolding Claims
    pass-Spent p between later s t r clock at successor e le spent =
        elim (schedule_cron-Claims h job_entry p span between later same s t r e) [
          | inl kept ↦ rw kept (
              later-Spent h.name job_entry.dedupe_key at successor clock p.current s.occurrences le
                spent)
          | inr (c, added) ↦
              rw added (claims_after-Spent h job_entry p c s at successor clock le spent)
        ]

    -- An occurrence out of reach is not published.
    Spent-withholds :
        (p : Pass) (between later : Store → Store) (s t : CronStore) (id clock at successor : ℕ)
        → schedule_cron span same h job_entry p (λ u. u) between later s ≡ (t, ok (published id at))
        → clock ≤ p.current
        → next_occurrence span job_entry at ≡ ok successor
        → Spent h.name job_entry.dedupe_key at successor clock s.occurrences
        → ⊥
    unfolding Spent is_claimed
    Spent-withholds p between later s t id clock at successor e le n spent =
        let q = pass-publishes p between later s t id at e in
        elim spent [
          | inl (claimed, all) ↦ both_ways claimed (
              subst (λ o. any (is_claim h.name job_entry.dedupe_key o) s.occurrences ≡ false) q.1
                q.2)
          | inr due ↦ let k = ok-injective (sym n ∙ q.3) in absurd (omega (arith, q.4))
        ]

    step-Spent :
        (step : CronStep) (s : CronStore) (clock at successor : ℕ)
        → clock ≤ time_of clock step
        → Spent h.name job_entry.dedupe_key at successor clock s.occurrences
        → Spent h.name job_entry.dedupe_key at successor
            (time_of clock step)
            (step_of span same collates h job_entry step s).0.occurrences
    unfolding step_of
    step-Spent (passes p between later) s clock at successor le spent =
        pass-Spent p between later s _ _ clock at successor refl le spent
    step-Spent (purges now locked) s clock at successor le spent =
        purge_cron_occurrences-Spent h.name job_entry.dedupe_key at successor collates h clock now
          locked s le spent
    step-Spent (edits jobs schedules) s clock at successor le spent = spent

    pass-differs :
        (p : Pass) (between later : Store → Store) (s t : CronStore) (r : Result CronScheduleResult)
        (clock at successor : ℕ) (rest : List ℕ)
        → schedule_cron span same h job_entry p (λ u. u) between later s ≡ (t, r)
        → clock ≤ p.current
        → next_occurrence span job_entry at ≡ ok successor
        → Spent h.name job_entry.dedupe_key at successor clock s.occurrences
        → All (λ y. y ≢ at) rest
        → All (λ y. y ≢ at) (noted (occurrence_of r) rest)
    pass-differs p between later s t (ok (published id at')) clock at successor rest e le n spent
          h' =
        (
          λ q.
              Spent-withholds p between later s t id clock at successor
                (subst
                  (λ x.
                    schedule_cron span same h job_entry p (λ u. u) between later s
                    ≡ (t, ok (published id x)))
                  q e)
                le n spent,
          h',
        )
    pass-differs p between later s t _ clock at successor rest e le n spent h' = h'

    step-differs :
        (step : CronStep) (s : CronStore) (clock at successor : ℕ) (rest : List ℕ)
        → clock ≤ time_of clock step
        → next_occurrence span job_entry at ≡ ok successor
        → Spent h.name job_entry.dedupe_key at successor clock s.occurrences
        → All (λ y. y ≢ at) rest
        → All (λ y. y ≢ at) (noted (step_of span same collates h job_entry step s).1 rest)
    unfolding step_of
    step-differs (passes p between later) s clock at successor rest le n spent h' =
        pass-differs p between later s _ _ clock at successor rest refl le n spent h'
    step-differs (purges now locked) s clock at successor rest le n spent h' = h'
    step-differs (edits jobs schedules) s clock at successor rest le n spent h' = h'

    publications-withheld :
        (steps : List CronStep) (s : CronStore) (clock at successor : ℕ)
        → Timed clock steps
        → next_occurrence span job_entry at ≡ ok successor
        → Spent h.name job_entry.dedupe_key at successor clock s.occurrences
        → All (λ y. y ≢ at) (publications span same collates h job_entry steps s)
    unfolding publications
    publications-withheld [] s clock at successor timed n spent = tt
    publications-withheld (step ∷ steps) s clock at successor timed n spent =
        step-differs step s clock at successor
          (publications span same collates h job_entry steps
            (step_of span same collates h job_entry step s).0)
          timed.0 n spent
          (publications-withheld steps (step_of span same collates h job_entry step s).0
            (time_of clock step) at successor timed.1 n
            (step-Spent step s clock at successor timed.0 spent))

    pass-Unique :
        (p : Pass) (between later : Store → Store) (s t : CronStore) (r : Result CronScheduleResult)
        (steps : List CronStep)
        → schedule_cron span same h job_entry p (λ u. u) between later s ≡ (t, r)
        → Timed p.current steps
        → Unique (publications span same collates h job_entry steps t)
        → Unique (noted (occurrence_of r) (publications span same collates h job_entry steps t))
    pass-Unique p between later s t (ok (published id at)) steps e timed u =
        let q = pass-publishes p between later s t id at e in
        let spent : Spent h.name job_entry.dedupe_key at q.0.successor p.current t.occurrences =
          subst (λ os. Spent h.name job_entry.dedupe_key at q.0.successor p.current os) (sym q.5)
            (subst
              (λ o.
                Spent h.name job_entry.dedupe_key o q.0.successor p.current
                  (s.occurrences ++ claim_of h job_entry q.0 p.current ∷ []))
              q.1 (Spent-claim h job_entry p q.0 s q.2)) in
        (publications-withheld steps t p.current at q.0.successor timed q.3 spent, u)
    pass-Unique p between later s t _ steps e timed u = u

    -- A history of passes, purges of claims and other edits, over which the clock does not go back,
    -- publishes no occurrence of the schedule twice.
    pub publications-Unique :
        (steps : List CronStep) (s : CronStore) (clock : ℕ)
        → Timed clock steps
        → Unique (publications span same collates h job_entry steps s)
    unfolding publications step_of
    publications-Unique [] s clock timed = tt
    publications-Unique (passes p between later ∷ steps) s clock timed =
        pass-Unique p between later s _ _ steps refl timed.1
          (publications-Unique steps _ p.current timed.1)
    publications-Unique (purges now locked ∷ steps) s clock timed =
        publications-Unique steps _ now timed.1
    publications-Unique (edits jobs schedules ∷ steps) s clock timed =
        publications-Unique steps _ clock timed.1
