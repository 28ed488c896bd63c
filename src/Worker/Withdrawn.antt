-- ===== src/Worker/Withdrawn.antt =====
-- The settlement of an attempt does not override a user's abort.
use ironqueue.Common.{
  ℕ, ◌≡◌, inl, refl, sym, ap, subst, ◌∙◌, Bool, true, false, Option, none, some, List, [], ◌∷◌,
  arith, if◌then◌else◌, All, Text, Result, ok, ◌>>◌, ◌>>=◌, >>-eq-ok, >>=-eq-ok, ok-injective,
}
use ironqueue.Job.Backoff.{has_attempts_remaining}
use ironqueue.Job.Status.{JobStatus, is_terminal}
use ironqueue.Job.Json.{Value}
use ironqueue.Job.Config.{Calendar}
use ironqueue.Job.Stored.{truncate_stored_error}
use ironqueue.Database.Row.{JobRow, Store, Handle, guard_of, is_aborted}
use ironqueue.Database.Requeue.{RequeueGuards, requeue_guarded, record_retry}
use ironqueue.Database.Finish.{finish_with_guards}
use ironqueue.Database.Attempt.{
  validate_finalization, ensure_owns, truncated, next_retry_delay_ms, retry_guards, swept_guards,
  shutdown_guards, refund_guards, counted, finish, retry, retry_swept, requeue_shutdown,
  requeue_unhandled,
}
use ironqueue.History.Calls.{finishes, state_after, bounded, perform, run}
use ironqueue.History.Induction.{run-All}
use ironqueue.History.Refusal.{finish-refused_when, requeue-refused_when}
use ironqueue.History.Withdrawal.{Withdrawn, elsewhere, requeue-keeps, finish-keeps}
use ironqueue.Worker.Stopped.{Stopped, Stopped-Moves}
use ironqueue.Worker.Attempt.{WorkerProcessResult, unconfirmed, aborted_with}
use ironqueue.Worker.Finalize.{Settled, either, or_else}

-- The results that a settlement may report of a job that a user withdrew.
unfoldable pub yields : WorkerProcessResult → Bool
yields unconfirmed = true
yields (aborted_with e) = true
yields _ = false

-- A transition that was refused, and left the jobs alone.
unfoldable pub Refused : Store → Result (Store × Bool) → Type 0
Refused s m = (t : Store) (did : Bool) → m ≡ ok (t, did) → (did ≡ false) × (t.jobs ≡ s.jobs)

module _ (t : Store) (x : WorkerProcessResult) where
  either-refused :
      (a b : WorkerProcessResult) (u : Store) (did : Bool)
      → did ≡ false
      → either a b (u, did) ≡ ok (t, x)
      → (u ≡ t) × (b ≡ x)
  either-refused a b u true n e = ground arith
  either-refused a b u false n e = (
    ap (λ (z : Store × WorkerProcessResult). z.0) (ok-injective e),
    ap (λ (z : Store × WorkerProcessResult). z.1) (ok-injective e),
  )

  or_else-refused :
      (a : WorkerProcessResult) (k : Store → Settled) (u : Store) (did : Bool)
      → did ≡ false
      → or_else a k (u, did) ≡ ok (t, x)
      → k u ≡ ok (t, x)
  or_else-refused a k u true n e = ground arith
  or_else-refused a k u false n e = e

  -- A refused transition, as it is reported.
  pub Refused-either :
      (s : Store) (m : Result (Store × Bool)) (a b : WorkerProcessResult)
      → Refused s m
      → (m >>= either a b) ≡ ok (t, x)
      → (t.jobs ≡ s.jobs) × (b ≡ x)
  unfolding Refused
  Refused-either s m a b declined e =
      let k = >>=-eq-ok m (either a b) e in
      let n = declined k.0.0 k.0.1 k.1 in
      let q = either-refused a b k.0.0 k.0.1 n.0 k.2 in
      (ap (λ (u : Store). u.jobs) (sym q.0) ∙ n.1, q.1)

  pub Refused-or_else :
      (s : Store) (m : Result (Store × Bool)) (a : WorkerProcessResult) (next : Store → Settled)
      → Refused s m
      → (m >>= or_else a next) ≡ ok (t, x)
      → (u : Store) × (u.jobs ≡ s.jobs) × (next u ≡ ok (t, x))
  unfolding Refused
  Refused-or_else s m a next declined e =
      let k = >>=-eq-ok m (or_else a next) e in
      let n = declined k.0.0 k.0.1 k.1 in (k.0.0, n.1, or_else-refused a next k.0.0 k.0.1 n.0 k.2)

same_bound : (e : Option Text) → truncated e ≡ bounded e
same_bound none = refl
same_bound (some e) = refl

no_calendar : Calendar
no_calendar = record { floor = 0; latest = 0 }

module _ (chunks : Value → List ℕ) (h : Handle) (r : JobRow) where
  pub finish-Withdrawn :
      (now : ℕ) (st : JobStatus) (v : Option Value) (e : Option Text) (s : Store)
      → is_terminal st ≡ true
      → is_aborted st ≡ false
      → All (Withdrawn r.id) s.jobs
      → Refused s (finish chunks h now r st v e s)
  unfolding Refused finish guard_of
  finish-Withdrawn now st v e s term other w t did q =
      let a = >>-eq-ok (ensure_owns h r) _ q in
      let b = >>-eq-ok (validate_finalization chunks v e) _ a.1 in
      let f =
        finish-refused_when (Withdrawn r.id) h now (guard_of r) st v (truncated e) s term
          (λ x. finish-keeps h.name now (guard_of r) st v (truncated e) x other) w in
      let p = ok-injective (sym f ∙ b.1) in
      (sym (ap (λ (z : Store × Bool). z.1) p), sym (ap (λ (z : Store × Bool). z.0.jobs) p))

  pub finish-keeps_stopped :
      (now : ℕ) (st : JobStatus) (v : Option Value) (e : Option Text) (s t : Store) (did : Bool)
      → All (Stopped r.id r.attempts) s.jobs
      → finish chunks h now r st v e s ≡ ok (t, did)
      → All (Stopped r.id r.attempts) t.jobs
  unfolding finish run perform
  finish-keeps_stopped now st v e s t did w q =
      let a = >>-eq-ok (ensure_owns h r) _ q in
      let b = >>-eq-ok (validate_finalization chunks v e) _ a.1 in
      let k =
        run-All no_calendar chunks (Stopped r.id r.attempts) r.id (Stopped-Moves r.id r.attempts)
          (λ x o. (elsewhere o, inl o)) ((h, finishes now (guard_of r) st v e) ∷ []) s
          ((λ z. absurd (ground arith)), tt) w in
      subst (λ (u : Store). All (Stopped r.id r.attempts) u.jobs)
        (ap (state_after s) (
          subst (λ x. finish_with_guards h now (guard_of r) st v x s ≡ ok (t, did)) (same_bound e)
            b.1))
        k

  requeue-Withdrawn :
      (now : ℕ) (e : Option Text) (delay_ms : ℕ) (gs : RequeueGuards) (s : Store)
      → All (Withdrawn r.id) s.jobs
      → ((requeue_guarded h now (guard_of r) e delay_ms gs s).1 ≡ false)
        × ((requeue_guarded h now (guard_of r) e delay_ms gs s).0.jobs ≡ s.jobs)
  unfolding guard_of
  requeue-Withdrawn now e delay_ms gs s w =
      requeue-refused_when (Withdrawn r.id) h now (guard_of r) e delay_ms gs s
        (requeue-keeps h.name now (guard_of r) e delay_ms gs) w

  counted-Withdrawn :
      (p : Store × Bool) (s : Store) → p.1 ≡ false → p.0.jobs ≡ s.jobs → Refused s (ok (counted p))
  unfolding Refused counted record_retry
  counted-Withdrawn (u, true) s n j t d q = ground arith
  counted-Withdrawn (u, false) s n j t d q =
      let e = ok-injective q in
      (sym (ap (λ (z : Store × Bool). z.1) e), ap (λ (z : Store × Bool). z.0.jobs) (sym e) ∙ j)

  owned-Refused :
      (m : Result (Store × Bool)) (s : Store) → Refused s m → Refused s (ensure_owns h r >> m)
  unfolding Refused
  owned-Refused m s declined t did q = declined t did (>>-eq-ok (ensure_owns h r) _ q).1

  checked-Refused :
      (v : Option Value) (e : Option Text) (m : Result (Store × Bool)) (s : Store)
      → Refused s m
      → Refused s (validate_finalization chunks v e >> m)
  unfolding Refused
  checked-Refused v e m s declined t did q =
      declined t did (>>-eq-ok (validate_finalization chunks v e) _ q).1

  plain-Refused :
      (p : Store × Bool) (s : Store) → p.1 ≡ false → p.0.jobs ≡ s.jobs → Refused s (ok p)
  unfolding Refused
  plain-Refused p s n j t d q =
      let e = ok-injective q in
      (ap (λ (z : Store × Bool). z.1) (sym e) ∙ n, ap (λ (z : Store × Bool). z.0.jobs) (sym e) ∙ j)

  branch-Refused :
      (c : Bool) (p : Store × Bool) (s : Store)
      → Refused s (ok p)
      → Refused s (ok (if c then p else (s, false)))
  branch-Refused true p s declined = declined
  branch-Refused false p s declined = plain-Refused (s, false) s refl refl

  pub requeue_shutdown-Refused :
      (now : ℕ) (error : Text) (s : Store)
      → All (Withdrawn r.id) s.jobs
      → Refused s (requeue_shutdown chunks h now r error s)
  unfolding requeue_shutdown
  requeue_shutdown-Refused now error s w =
      let n = requeue-Withdrawn now (some (truncate_stored_error error)) 0 shutdown_guards s w in
      owned-Refused _ s (checked-Refused none (some error) _ s (counted-Withdrawn _ s n.0 n.1))

  pub retry_swept-Refused :
      (jitter : ℕ → ℕ) (now : ℕ) (error : Option Text) (s : Store)
      → All (Withdrawn r.id) s.jobs
      → Refused s (retry_swept chunks h now jitter r error s)
  unfolding retry_swept
  retry_swept-Refused jitter now error s w =
      let n =
        requeue-Withdrawn now (truncated error) (next_retry_delay_ms jitter r) swept_guards s w in
      owned-Refused _ s (checked-Refused none error _ s (counted-Withdrawn _ s n.0 n.1))

  pub requeue_unhandled-Refused :
      (jitter : ℕ → ℕ) (now : ℕ) (error : Text) (s : Store)
      → All (Withdrawn r.id) s.jobs
      → Refused s (requeue_unhandled h now jitter r error s)
  unfolding requeue_unhandled
  requeue_unhandled-Refused jitter now error s w =
      let n = requeue-Withdrawn now (some error) _ refund_guards s w in
      owned-Refused _ s (plain-Refused _ s n.0 n.1)

  pub retry-Refused :
      (jitter : ℕ → ℕ) (now : ℕ) (error : Text) (s : Store)
      → All (Withdrawn r.id) s.jobs
      → Refused s (retry chunks h now jitter r error s)
  unfolding retry
  retry-Refused jitter now error s w =
      let n =
        requeue-Withdrawn now (some (truncate_stored_error error)) (next_retry_delay_ms jitter r)
          retry_guards s w in
      owned-Refused _ s (
        checked-Refused none (some error) _ s (
          branch-Refused (has_attempts_remaining r.attempts r.max_attempts) _ s
            (counted-Withdrawn _ s n.0 n.1)))
