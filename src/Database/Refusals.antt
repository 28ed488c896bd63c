-- ===== src/Database/Refusals.antt =====
-- What a write changes that reports false.
use ironqueue.Common.{
  ℕ, ◌≡◌, refl, sym, ap, ◌∙◌, ◌≢◌, inl, inr, true, false, Option, List, [], ◌∷◌, ◌++◌, arith,
  Bool-cases, select, any, Text, ok,
}
use ironqueue.Job.Status.{JobStatus, is_terminal}
use ironqueue.Job.Json.{Value}
use ironqueue.Database.Statement.{
  Fate, keep, remove, write, settle, apply, written_by, written, removed_by, removed,
}
use ironqueue.Database.Row.{JobRow, Store, Handle, AttemptGuard}
use ironqueue.Database.Requeue.{
  RequeueGuards, requeue_fate, is_due, wake, is_nonempty, requeue_guarded,
}
use ironqueue.Database.Finish.{announce, finish_attempt_fate, finish_with_guards}
use ironqueue.Database.Abort.{abort_fate, only_aborted, abort_row}

pub nonempty-append {ℓ} :
    {A : Type ℓ} (xs ys : List A) → is_nonempty ys ≡ true → is_nonempty (xs ++ ys) ≡ true
unfolding is_nonempty
nonempty-append [] ys h = h
nonempty-append (x ∷ xs) ys h = refl

module _ {ℓ} {A : Type ℓ} (fate : A → Fate A) where
  apply-nothing :
      (rs : List A)
      → is_nonempty (removed fate rs ++ written fate rs) ≡ false
      → (apply fate rs ≡ rs) × (removed fate rs ≡ []) × (written fate rs ≡ [])
  unfolding apply removed written settle removed_by written_by is_nonempty
  apply-nothing [] h = (refl, refl, refl)
  apply-nothing (r ∷ rs) h = go (fate r) h (apply-nothing rs)
    where
      go :
          (f : Fate A)
          → is_nonempty (removed_by f r (removed fate rs) ++ written_by f (written fate rs)) ≡ false
          → (is_nonempty (removed fate rs ++ written fate rs) ≡ false
              → (apply fate rs ≡ rs) × (removed fate rs ≡ []) × (written fate rs ≡ []))
          → (settle f r (apply fate rs) ≡ r ∷ rs)
            × (removed_by f r (removed fate rs) ≡ [])
            × (written_by f (written fate rs) ≡ [])
      go keep e rest = (ap (λ x. r ∷ x) (rest e).0, (rest e).1, (rest e).2)
      go remove e rest = ground arith
      go (write r') e rest =
          absurd (ground (arith, nonempty-append (removed fate rs) (r' ∷ written fate rs) refl))

module _ {ℓ} {A : Type ℓ} (fate : A → Fate A) (kept : (r : A) → fate r ≢ remove) where
  apply-unwritten :
      (rs : List A)
      → is_nonempty (written fate rs) ≡ false
      → (apply fate rs ≡ rs) × (written fate rs ≡ [])
  unfolding apply written settle written_by is_nonempty
  apply-unwritten [] h = (refl, refl)
  apply-unwritten (r ∷ rs) h = go (fate r) refl h (apply-unwritten rs)
    where
      go :
          (f : Fate A)
          → fate r ≡ f
          → is_nonempty (written_by f (written fate rs)) ≡ false
          → (is_nonempty (written fate rs) ≡ false → (apply fate rs ≡ rs) × (written fate rs ≡ []))
          → (settle f r (apply fate rs) ≡ r ∷ rs) × (written_by f (written fate rs) ≡ [])
      go keep q e rest = (ap (λ x. r ∷ x) (rest e).0, (rest e).1)
      go remove q e rest = absurd (kept r q)
      go (write r') q e rest = ground arith

requeue-kept :
    (q : Text) (now : ℕ) (g : AttemptGuard) (e : Option Text) (d : ℕ) (gs : RequeueGuards)
    (r : JobRow)
    → requeue_fate q now g e d gs r ≢ remove
unfolding requeue_fate
requeue-kept q now g e d gs r h = ground arith

abort-kept :
    (q : Text) (now id : ℕ) (reason : Text) (r : JobRow) → abort_fate q now id reason r ≢ remove
unfolding abort_fate
abort-kept q now id reason r h = ground arith

-- A finish that reports false has changed nothing: no row, no notice, no counter.
finish_with_guards-false :
    (h : Handle) (now : ℕ) (g : AttemptGuard) (st : JobStatus) (v : Option Value) (e : Option Text)
    (s t : Store)
    → finish_with_guards h now g st v e s ≡ ok (t, false)
    → t ≡ s
unfolding finish_with_guards announce
finish_with_guards-false h now g st v e s t w = elim (Bool-cases (is_terminal st)) [
  | inl q ↦
      (let n = apply-nothing (finish_attempt_fate h.name now g st v e) s.jobs (ground arith) in
        ground (arith, n.0, n.1, n.2))
  | inr q ↦ ground arith
]

-- A requeue that reports false has changed no job and sent no wakeup.
requeue_guarded-false :
    (h : Handle) (now : ℕ) (g : AttemptGuard) (e : Option Text) (d : ℕ) (gs : RequeueGuards)
    (s t : Store)
    → requeue_guarded h now g e d gs s ≡ (t, false)
    → (t.jobs ≡ s.jobs) × (t.notices ≡ s.notices) × (t.stats ≡ s.stats)
unfolding requeue_guarded wake any is_due
requeue_guarded-false h now g e d gs s t w =
    let n =
      apply-unwritten (requeue_fate h.name now g e d gs) (requeue-kept h.name now g e d gs) s.jobs
        (ap (λ p. p.1) w) in
    (
      sym (ap (λ p. p.0.jobs) w) ∙ n.0,
      sym (ap (λ p. p.0.notices) w) ∙ ap (λ rows. wake (any (is_due now) rows) s.notices) n.1,
      sym (ap (λ p. p.0.stats) w),
    )

-- An abort that reports false has changed nothing.
abort_row-false :
    (h : Handle) (now id : ℕ) (reason : Text) (s t : Store)
    → abort_row h now id reason s ≡ (t, false)
    → t ≡ s
unfolding abort_row announce only_aborted is_nonempty select
abort_row-false h now id reason s t w =
    let n =
      apply-unwritten (abort_fate h.name now id reason) (abort-kept h.name now id reason) s.jobs
        (ap (λ p. p.1) w) in
    sym (ap (λ p. p.0) w) ∙ rw (n.0, n.1) refl
