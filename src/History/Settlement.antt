-- ===== src/History/Settlement.antt =====
-- What the fallback for a dropped attempt leaves behind.
use ironqueue.Common.{
  ℕ, ◌≡◌, ◌≢◌, refl, subst, inl, inr, true, false, Option, some, List, [], ◌∷◌, arith, ◌==◌,
  same_id, same_id_refl, Bool-cases, All, Text, text_eq, text_eq_refl,
}
use ironqueue.Job.Status.{running, aborting}
use ironqueue.Database.Statement.{Fate, keep, remove, write, settle, apply}
use ironqueue.Database.Row.{JobRow, Store, Handle, AttemptGuard, owns}
use ironqueue.Database.Requeue.{requeue_guarded}
use ironqueue.Database.Finish.{is_unsettled, abort_unsettled_fate, abort_unsettled_claim}
use ironqueue.Database.Recovery.{dropped_error, resolve_dropped_attempt}
use ironqueue.Database.Attempt.{retry_guards}
use ironqueue.Database.Limits.{Distinct}
use ironqueue.History.Fence.{Fenced, elsewhere, later, idle}
use ironqueue.History.Fencing.{requeued-Fenced}

-- The row does not match the guard as unsettled.
abbrev pub Inactive : Handle → AttemptGuard → JobRow → Type 0
Inactive h g r = is_unsettled h.name g r ≡ false

-- A row of another job, queue, attempt or owner, or one that neither runs nor waits for its abort.
pub data Settled (h : Handle) (g : AttemptGuard) (r : JobRow) : Type 0 where
  other_job : r.id ≢ g.id → Settled h g r
  other_queue : r.queue ≢ h.name → Settled h g r
  other_attempt : r.attempts ≢ g.attempts → Settled h g r
  other_owner : r.worker_id ≢ g.worker_id → Settled h g r
  ended : r.status ≢ running → r.status ≢ aborting → Settled h g r

differs : (a b : Option ℕ) → same_id a b ≡ false → a ≢ b
differs a b n e = absurd (ground (arith, subst (λ x. same_id a x ≡ true) e (same_id_refl a)))

text_differs : (a b : Text) → text_eq a b ≡ false → a ≢ b
text_differs a b n e = absurd (ground (arith, subst (λ x. text_eq a x ≡ true) e (text_eq_refl a)))

Inactive-Settled : (h : Handle) (g : AttemptGuard) (r : JobRow) → Inactive h g r → Settled h g r
unfolding is_unsettled owns
Inactive-Settled h g r n = elim (Bool-cases (r.id == g.id)) [
  | inr a ↦ other_job (ground arith)
  | inl a ↦ elim (Bool-cases (text_eq r.queue h.name)) [
    | inr b ↦ other_queue (text_differs r.queue h.name b)
    | inl b ↦ elim (Bool-cases (r.attempts == g.attempts)) [
      | inr c ↦ other_attempt (ground arith)
      | inl c ↦ elim (Bool-cases (same_id r.worker_id g.worker_id)) [
        | inr d ↦ other_owner (differs r.worker_id g.worker_id d)
        | inl d ↦ ended (λ e. ground arith) (λ e. ground arith)
      ]
    ]
  ]
]

pub Inactive-All :
    (h : Handle) (g : AttemptGuard) (rs : List JobRow)
    → All (Inactive h g) rs
    → All (Settled h g) rs
Inactive-All h g [] n = tt
Inactive-All h g (r ∷ rs) n = (Inactive-Settled h g r n.0, Inactive-All h g rs n.1)

Fenced-Inactive :
    (h : Handle) (g : AttemptGuard) (r : JobRow) → Fenced g.id g.attempts r → Inactive h g r
unfolding is_unsettled
Fenced-Inactive h g r (elsewhere o) = ground arith
Fenced-Inactive h g r (later l) = ground arith
Fenced-Inactive h g r (idle a b) = ground arith

pub Fenced-All :
    (h : Handle) (g : AttemptGuard) (rs : List JobRow)
    → All (Fenced g.id g.attempts) rs
    → All (Inactive h g) rs
Fenced-All h g [] f = tt
Fenced-All h g (r ∷ rs) f = (Fenced-Inactive h g r f.0, Fenced-All h g rs f.1)

module _ (h : Handle) (now : ℕ) (g : AttemptGuard) (reason : Text) where
  abort_written-Inactive :
      (r r' : JobRow) → abort_unsettled_fate h.name now g reason r ≡ write r' → Inactive h g r'
  unfolding abort_unsettled_fate is_unsettled
  abort_written-Inactive r r' e = ground arith

  abort_kept-Inactive :
      (r : JobRow) → abort_unsettled_fate h.name now g reason r ≡ keep → Inactive h g r
  unfolding abort_unsettled_fate
  abort_kept-Inactive r e = ground arith

  pub aborted-All :
      (rs : List JobRow) → All (Inactive h g) (apply (abort_unsettled_fate h.name now g reason) rs)
  unfolding apply settle
  aborted-All [] = tt
  aborted-All (r ∷ rs) = go (abort_unsettled_fate h.name now g reason r) refl (aborted-All rs)
    where
      go :
          (f : Fate JobRow)
          → abort_unsettled_fate h.name now g reason r ≡ f
          → All (Inactive h g) (apply (abort_unsettled_fate h.name now g reason) rs)
          → All (Inactive h g) (settle f r (apply (abort_unsettled_fate h.name now g reason) rs))
      go keep e rest = (abort_kept-Inactive r e, rest)
      go remove e rest = rest
      go (write r') e rest = (abort_written-Inactive r r' e, rest)

resolve_dropped_attempt-Inactive :
    (h : Handle) (now : ℕ) (g : AttemptGuard) (retry_delay_ms : ℕ) (s : Store)
    → Distinct s.jobs
    → All (Inactive h g) (resolve_dropped_attempt h now g retry_delay_ms s).0.jobs
unfolding resolve_dropped_attempt abort_unsettled_claim requeue_guarded
resolve_dropped_attempt-Inactive h now g retry_delay_ms s d =
    let tried = requeue_guarded h now g (some dropped_error) retry_delay_ms retry_guards s in
    let rest = aborted-All h now g dropped_error (tried.0.jobs) in
    elim (Bool-cases (tried.1)) [
      | inl p ↦ rw p (
          Fenced-All h g _
            (requeued-Fenced h now g (some dropped_error) retry_delay_ms retry_guards s d p))
      | inr p ↦ elim (Bool-cases ((abort_unsettled_claim h now g dropped_error (tried.0)).1)) [
        | inl q ↦ rw (p, q) rest
        | inr q ↦ rw (p, q) rest
      ]
    ]

-- The fallback always ends a dropped attempt: on a table without duplicate ids, whichever of its
-- outcomes it reports, every row is of another job, queue, attempt or owner than the guard's, or is
-- neither running nor aborting, afterwards.
pub resolve_dropped_attempt-settles :
    (h : Handle) (now : ℕ) (g : AttemptGuard) (retry_delay_ms : ℕ) (s : Store)
    → Distinct s.jobs
    → All (Settled h g) (resolve_dropped_attempt h now g retry_delay_ms s).0.jobs
resolve_dropped_attempt-settles h now g retry_delay_ms s d =
    Inactive-All h g (resolve_dropped_attempt h now g retry_delay_ms s).0.jobs
      (resolve_dropped_attempt-Inactive h now g retry_delay_ms s d)
