-- ===== src/Database/Batch/Sequence.antt =====
-- A batch without interference does what the single enqueues of its jobs do, one after another.
use mathlib.Core.Option
use ironqueue.Common.{
  ℕ, ◌≡◌, refl, sym, ap, subst, ◌∙◌, inl, inr, Bool, true, none, some, List, [], ◌∷◌, map, arith,
  ◌==◌, Option-cases, length, any, Text, text_eq, text_eq_refl, Result, err, ok, >>-eq-ok,
  >>=-eq-ok, ok-injective,
}
use ironqueue.Job.Json.{Value}
use ironqueue.Job.Config.{Calendar}
use ironqueue.Database.Row.{JobRow, Store, Handle}
use ironqueue.Database.Enqueue.{
  EnqueueResult, inserted, live_dedupe_holder, deduplicated_by, insert_job,
}
use ironqueue.Database.Batch.{
  BatchItem, BatchJob, validate_batch, BatchKeyHolder, holder_result, holder_of_row, holder_of_job,
  Holders, put, batch_keys, live_dedupe_holders, Admitted, admit_row, admit_result, admit,
  insert_all, insert_jobs, resolve_batch, enqueue_batch_validated, with_ids, enqueue_batch_in,
}
use ironqueue.Database.Limits.{length-map}
use ironqueue.Database.Batch.Holders.{
  enqueue_each, reported, held_id, row_id, holder_keyless, then-ok, keys-tail, else-ok,
  resolve_batch-whole, row_of, single-insert, single-held, Agree, Agree-keyless, Agree-put,
}

module _ (h : Handle) (now : ℕ) (notify : Bool) where
  -- Every key of the jobs is one of `keys`.
  Keyed : List Text → List BatchJob → Type 0
  Keyed keys [] = Unit {0}
  Keyed keys (j ∷ js) =
      ((key : Text) → j.item.request.dedupe_key ≡ some key → any (text_eq key) keys ≡ true)
      × Keyed keys js

  -- What the single enqueues of the jobs do to the table `s`, if the batch admits `a`.
  record Same (js : List BatchJob) (s : Store) (a : Admitted) : Type 0 where
    after : Store
    results : List EnqueueResult
    each : enqueue_each h now notify js s ≡ ok (after, results)
    table : (insert_all h now a.rows s.jobs).0 ≡ after.jobs
    landed : (insert_all h now a.rows s.jobs).1 ≡ map (λ j. j.id) a.rows
    answers : map reported results ≡ map reported a.results

  Same-row :
      (j : BatchJob) (js : List BatchJob) (s : Store) (a : Admitted)
      → live_dedupe_holder h.name j.item.request.dedupe_key s.jobs ≡ none
      → Same js (insert_job now (row_of h now notify j) notify s) a
      → Same (j ∷ js) s (record { rows = j ∷ a.rows; results = inserted j.id ∷ a.results })
  unfolding enqueue_each insert_all insert_job row_of
  Same-row j js s a free w = record {
    after = w.after;
    results = inserted j.id ∷ w.results;
    each = rw (single-insert h now notify j s free, w.each) refl;
    table = rw (insert_all, free) w.table;
    landed = rw (insert_all, free) (ap (λ ids. j.id ∷ ids) w.landed);
    answers = ap (λ rs. (true, j.id) ∷ rs) w.answers;
  }

  Same-result :
      (j : BatchJob) (js : List BatchJob) (s : Store) (a : Admitted) (r : JobRow)
      (b : BatchKeyHolder)
      → live_dedupe_holder h.name j.item.request.dedupe_key s.jobs ≡ some r
      → r.id ≡ b.id
      → Same js s a
      → Same (j ∷ js) s (record { rows = a.rows; results = holder_result b ∷ a.results })
  unfolding enqueue_each holder_result deduplicated_by
  Same-result j js s a r b held id w = record {
    after = w.after;
    results = deduplicated_by r ∷ w.results;
    each = rw (single-held h now notify j s r held, w.each) refl;
    table = w.table;
    landed = w.landed;
    answers = rw (id, w.answers) refl;
  }

  admit_row-ok :
      (j : BatchJob) (m : Result Admitted) (a : Admitted)
      → admit_row j m ≡ ok a
      → (b : Admitted) × (m ≡ ok b)
        × (record { rows = j ∷ b.rows; results = inserted j.id ∷ b.results } ≡ a)
  unfolding admit_row
  admit_row-ok j (err x) a e = ground arith
  admit_row-ok j (ok b) a e = (b, refl, ok-injective e)

  admit_result-ok :
      (r : EnqueueResult) (m : Result Admitted) (a : Admitted)
      → admit_result r m ≡ ok a
      → (b : Admitted) × (m ≡ ok b) × (record { rows = b.rows; results = r ∷ b.results } ≡ a)
  unfolding admit_result
  admit_result-ok r (err x) a e = ground arith
  admit_result-ok r (ok b) a e = (b, refl, ok-injective e)

  -- A job's holder in the map, if there is one, is the row that holds its key.
  unheld :
      (keys : List Text) (holders : Holders) (rows : List JobRow) (key : Text)
      → Agree h now notify keys holders rows
      → any (text_eq key) keys ≡ true
      → holders key ≡ none
      → live_dedupe_holder h.name (some key) rows ≡ none
  unfolding Agree
  unheld keys holders rows key a m e =
      let k = a key m in
      elim (Option-cases (live_dedupe_holder h.name (some key) rows)) [
        | inl none' ↦ none'
        | inr (r, f) ↦ absurd (ground arith)
      ]

  held_by :
      (keys : List Text) (holders : Holders) (rows : List JobRow) (key : Text) (b : BatchKeyHolder)
      → Agree h now notify keys holders rows
      → any (text_eq key) keys ≡ true
      → holders key ≡ some b
      → (r : JobRow) × (live_dedupe_holder h.name (some key) rows ≡ some r) × (r.id ≡ b.id)
  unfolding Agree
  held_by keys holders rows key b a m e =
      let k = a key m in
      elim (Option-cases (live_dedupe_holder h.name (some key) rows)) [
        | inl none' ↦ absurd (ground arith)
        | inr (r, f) ↦ (r, f, ground arith)
      ]

  admit-Same :
      (keys : List Text) (js : List BatchJob) (holders : Holders) (s : Store) (a : Admitted)
      → Keyed keys js
      → Agree h now notify keys holders s.jobs
      → admit holders js ≡ ok a
      → Same js s a
  unfolding admit enqueue_each insert_all Keyed insert_job
  admit-Same keys [] holders s a k g e =
      subst (Same [] s) (ok-injective e) (record {
        after = s;
        results = [];
        each = refl;
        table = refl;
        landed = refl;
        answers = refl;
      })
  admit-Same keys (j ∷ js) holders s a k g e = elim (Option-cases j.item.request.dedupe_key) [
    | inl keyless ↦
        let free : live_dedupe_holder h.name j.item.request.dedupe_key s.jobs ≡ none =
          rw keyless (holder_keyless h.name s.jobs) in
        let r = admit_row-ok j (admit holders js) a (rw keyless at e) in
        subst (Same (j ∷ js) s) r.2 (
          Same-row j js s r.0 free (
            admit-Same keys js holders (insert_job now (row_of h now notify j) notify s) r.0 k.1
              (Agree-keyless h now notify keys holders s.jobs j keyless g) r.1))
    | inr (key, keyed) ↦
        let mine = k.0 key keyed in
        elim (Option-cases (holders key)) [
          | inl none' ↦
              let free = unheld keys holders s.jobs key g mine none' in
              let r =
                admit_row-ok j (admit (put key (holder_of_job j) holders) js) a
                  (rw (keyed, none') at e) in
              subst (Same (j ∷ js) s) r.2 (
                Same-row j js s r.0 (rw keyed free) (
                  admit-Same keys js (put key (holder_of_job j) holders)
                    (insert_job now (row_of h now notify j) notify s) r.0 k.1
                    (Agree-put h now notify keys holders s.jobs j key keyed free g) r.1))
          | inr (b, some') ↦
              let held = held_by keys holders s.jobs key b g mine some' in
              let r =
                admit_result-ok (holder_result b) (admit holders js) a
                  (then-ok (text_eq b.name j.item.request.name) _ _ (rw (keyed, some') at e)) in
              subst (Same (j ∷ js) s) r.2 (
                Same-result j js s r.0 held.0 b (rw keyed held.1) held.2
                  (admit-Same keys js holders s r.0 k.1 g r.1))
        ]
  ]

  Keyed-keys :
      (keys : List Text) (js : List BatchJob)
      → ((key : Text) → any (text_eq key) (batch_keys js) ≡ true → any (text_eq key) keys ≡ true)
      → Keyed keys js
  unfolding Keyed batch_keys any
  Keyed-keys keys [] sub = tt
  Keyed-keys keys (j ∷ js) sub = (
    λ key e. sub key (rw (e, batch_keys, text_eq_refl key) refl),
    Keyed-keys keys js (λ key m. sub key (keys-tail j js key m)),
  )

  Agree-first :
      (keys : List Text) (rows : List JobRow)
      → Agree h now notify keys (live_dedupe_holders h.name keys rows) rows
  unfolding Agree live_dedupe_holders holder_of_row
  Agree-first keys rows key m =
      rw m
        (elim (live_dedupe_holder h.name (some key) rows)
          as (λ o. held_id (Option.map holder_of_row o) ≡ row_id o) [ none ↦ refl | some r ↦ refl ])

  batch-Same :
      (batch : List BatchJob) (s t : Store) (results : List EnqueueResult)
      → enqueue_batch_validated h now notify (λ u. u) (λ u. u) batch s ≡ ok (t, results)
      → (u : Store) × (answers : List EnqueueResult) × (enqueue_each h now notify batch s
          ≡ ok (u, answers))
        × (t.jobs ≡ u.jobs)
        × (map reported answers ≡ map reported results)
  unfolding enqueue_batch_validated resolve_batch insert_jobs live_dedupe_holders admit
  batch-Same batch s t results e =
      let keys = batch_keys batch in
      let r = >>=-eq-ok (admit (live_dedupe_holders h.name keys s.jobs) batch) _ e in
      let w =
        admit-Same keys batch (live_dedupe_holders h.name keys s.jobs) s r.0
          (Keyed-keys keys batch (λ key m. m)) (Agree-first keys s.jobs) r.1 in
      let whole : length (insert_all h now r.0.rows s.jobs).1 ≡ length r.0.rows =
        ap length w.landed ∙ length-map (λ (j : BatchJob). j.id) r.0.rows in
      let d =
        resolve_batch-whole h batch r.0 (insert_jobs h now notify r.0.rows s).0 t
          (insert_jobs h now notify r.0.rows s).1 results (λ u. u) r.2 whole in
      (w.after, w.results, w.each, d.0 ∙ w.table, w.answers ∙ ap (map reported) (sym d.1))

-- A batch that is accepted, without writers that do not take its keys' locks, leaves the jobs that
-- the single enqueues of its items leave, one after another under the same ids, and reports of each
-- item the same id and whether it was inserted.
pub enqueue_batch_in-sequence :
    (calendar : Calendar) (chunks : Value → List ℕ) (h : Handle) (now : ℕ) (ids : List ℕ)
    (notify : Bool) (batch : List BatchItem) (s t : Store) (results : List EnqueueResult)
    → enqueue_batch_in calendar chunks h now ids notify (λ u. u) (λ u. u) batch s ≡ ok (t, results)
    → (u : Store) × (answers : List EnqueueResult) × (enqueue_each h now notify
          (with_ids ids batch)
          s
        ≡ ok (u, answers))
      × (t.jobs ≡ u.jobs)
      × (map reported answers ≡ map reported results)
unfolding enqueue_batch_in with_ids enqueue_each enqueue_batch_validated admit
enqueue_batch_in-sequence calendar chunks h now ids notify [] s t results e =
    let all = ok-injective (>>-eq-ok (validate_batch calendar chunks now []) _ e).1 in
    (
      s,
      [],
      refl,
      ap (λ (z : Store × List EnqueueResult). z.0.jobs) (sym all),
      ap (λ (z : Store × List EnqueueResult). map reported z.1) all,
    )
enqueue_batch_in-sequence calendar chunks h now ids notify (i ∷ is) s t results e =
    batch-Same h now notify (with_ids ids (i ∷ is)) s t results (
      else-ok (length (i ∷ is) == 0) (s, []) _ (ground arith)
        (>>-eq-ok (validate_batch calendar chunks now (i ∷ is)) _ e).1)
