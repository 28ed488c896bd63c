-- ===== src/Cron/Revisions.antt =====
-- What a reconciliation does to the stored schedules.
use ironqueue.Common.{
  ℕ, ◌≤◌, ◌<◌, ◌≡◌, refl, ap, subst, ◌⊎◌, inl, inr, Bool, true, ◌&&◌, some, List, [], ◌∷◌, ◌++◌,
  arith, ltb, Bool-cases, any, Text, text_eq→eq, text_eq_refl, Result, err, ok, ◌>>◌,
}
use ironqueue.Database.Statement.{keep, write, settle, apply}
use ironqueue.Database.Row.{Handle}
use ironqueue.Cron.Search.{Span}
use ironqueue.Cron.Entry.{Definition, JobCronEntry, check_revision, next_occurrence}
use ironqueue.Cron.Tables.{CronSchedule, CronStore, is_schedule, find_schedule}
use ironqueue.Cron.Reconcile.{
  schedule_row, replaced, reconcile_fate, upsert_schedule, reconciled, reconcile_from,
  reconcile_cron,
}

-- How a stored schedule may change: to a higher revision, and with its cursor unless the expression
-- is another one.
abbrev pub Revises : CronSchedule → CronSchedule → Type 0
Revises c c' =
    (c.revision ≤ c'.revision)
    × (c.revision ≡ c'.revision → c' ≡ c)
    × (c'.expression ≡ c.expression → c'.next_run_at ≡ c.next_run_at)

module _ (queue key : Text) where
  Revises-refl : (c : CronSchedule) → Revises c c
  Revises-refl c = (omega arith, λ e. refl, λ e. refl)

  replaced-Revises : (row c : CronSchedule) → c.revision < row.revision → Revises c (replaced c row)
  unfolding replaced
  replaced-Revises row c h =
      (ground arith, λ e. absurd (ground arith), λ e. ground (arith, text_eq_refl c.expression))

  find-append :
      (cs : List CronSchedule) (row c : CronSchedule)
      → find_schedule queue key cs ≡ some c
      → find_schedule queue key (cs ++ row ∷ []) ≡ some c
  unfolding find_schedule
  find-append [] row c e = ground arith
  find-append (x ∷ xs) row c e = ground (arith, find-append xs row c)

  fate-cases :
      (row x : CronSchedule)
      → (reconcile_fate row x ≡ keep)
        ⊎ ((reconcile_fate row x ≡ write (replaced x row))
            × (is_schedule row.queue row.dedupe_key x ≡ true)
            × (x.revision < row.revision))
  unfolding reconcile_fate
  fate-cases row x =
      elim (Bool-cases (is_schedule row.queue row.dedupe_key x && ltb x.revision row.revision)) [
        | inl y ↦ inr (ground arith, ground arith, ground arith)
        | inr n ↦ inl (ground arith)
      ]

  replaced-schedule :
      (row x : CronSchedule)
      → is_schedule row.queue row.dedupe_key x ≡ true
      → is_schedule queue key (replaced x row) ≡ is_schedule queue key x
  unfolding is_schedule replaced
  replaced-schedule row x e =
      let q = text_eq→eq x.queue row.queue (ground arith) in
      let k = text_eq→eq x.dedupe_key row.dedupe_key (ground arith) in ground arith

  find-replaced :
      (row : CronSchedule) (cs : List CronSchedule) (c : CronSchedule)
      → find_schedule queue key cs ≡ some c
      → (c' : CronSchedule) × (find_schedule queue key (apply (reconcile_fate row) cs) ≡ some c')
        × Revises c c'
  unfolding find_schedule apply settle
  find-replaced row [] c e = ground arith
  find-replaced row (x ∷ xs) c e = elim (Bool-cases (is_schedule queue key x)) [
    | inl y ↦
        let same : x ≡ c = ground arith in
        elim (fate-cases row x) [
          | inl k ↦ (c, rw (k, y) (ap some same), Revises-refl c)
          | inr (w, own, low) ↦ (
            replaced x row,
            rw (w, replaced-schedule row x own, y) refl,
            subst (λ u. Revises u (replaced x row)) same (replaced-Revises row x low),
          )
        ]
    | inr n ↦
        let rest = find-replaced row xs c (ground arith) in
        elim (fate-cases row x) [
          | inl k ↦ (rest.0, rw (k, n) rest.1, rest.2)
          | inr (w, own, low) ↦ (rest.0, rw (w, replaced-schedule row x own, n) rest.1, rest.2)
        ]
  ]

  upsert-Revises :
      (row : CronSchedule) (cs : List CronSchedule) (c : CronSchedule)
      → find_schedule queue key cs ≡ some c
      → (c' : CronSchedule) × (find_schedule queue key (upsert_schedule row cs) ≡ some c')
        × Revises c c'
  unfolding upsert_schedule
  upsert-Revises row cs c e = elim (Bool-cases (any (is_schedule row.queue row.dedupe_key) cs)) [
    | inl y ↦ rw y (find-replaced row cs c e)
    | inr n ↦ rw n (c, find-append cs row c e, Revises-refl c)
  ]

  reconcile_from-Revises :
      (same : Definition → Definition → Bool) (h : Handle) (job_entry : JobCronEntry)
      (s : CronStore) (c : CronSchedule) (m : Result ℕ)
      → find_schedule queue key s.schedules ≡ some c
      → (c' : CronSchedule) × (find_schedule queue key
            (reconcile_from same h job_entry s m).0.schedules
          ≡ some c')
        × Revises c c'
  unfolding reconcile_from reconciled
  reconcile_from-Revises same h job_entry s c (err x) e = (c, e, Revises-refl c)
  reconcile_from-Revises same h job_entry s c (ok n) e =
      upsert-Revises (schedule_row h job_entry n) s.schedules c e

  -- A reconciliation, of whatever entry and whatever it answers, leaves every stored schedule in
  -- place: at its revision and then unchanged, or at a higher one, and with its cursor unless the
  -- expression is another one.
  pub reconcile_cron-Revises :
      (span : Span) (same : Definition → Definition → Bool) (h : Handle) (job_entry : JobCronEntry)
      (now : ℕ) (s : CronStore) (c : CronSchedule)
      → find_schedule queue key s.schedules ≡ some c
      → (c' : CronSchedule) × (find_schedule queue key
            (reconcile_cron span same h job_entry now s).0.schedules
          ≡ some c')
        × Revises c c'
  unfolding reconcile_cron
  reconcile_cron-Revises span same h job_entry now s c e =
      reconcile_from-Revises same h job_entry s c
        (check_revision job_entry.options >> next_occurrence span job_entry now) e
