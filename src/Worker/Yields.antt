-- ===== src/Worker/Yields.antt =====
-- Whatever the end of an attempt, its settlement yields to a user's abort.
use ironqueue.Common.{
  text_eq, arith, ℕ, ◌≡◌, refl, sym, subst, inl, inr, Bool, true, false, ◌&&◌, Option, none, some,
  List, Bool-cases, All, Text, codes, Result, ok, ◌>>=◌, >>=-eq-ok, ok-injective,
}
use ironqueue.Job.Backoff.{has_attempts_remaining}
use ironqueue.Job.Status.{JobStatus, is_terminal}
use ironqueue.Job.Json.{Value}
use ironqueue.Job.Stored.{JobErrorKind, kind_is_retryable, JobError, display, new_error}
use ironqueue.Database.Row.{JobRow, Store, Handle, is_aborted}
use ironqueue.Database.Attempt.{finish}
use ironqueue.History.Withdrawal.{elsewhere, gone, asked}
use ironqueue.Worker.Stopped.{Stopped, only-Withdrawn, find_row-All}
use ironqueue.Worker.Attempt.{
  requeued_job, WorkerAbortReason, user, swept_away, row_missing, row_superseded,
  WorkerAttemptResult, success, errored, cancelled, unhandled, WorkerProcessResult, completed,
  bounced, unconfirmed, retried, failed_with, aborted_with,
}
use ironqueue.Worker.Finalize.{
  Round, either, abort_requested_error, finish_aborted_fallback, finish_with_swept_fallback,
  moved_on, refusal_of, swept_retry_refusal_result, retry_swept_or_refuse, shut_down, settle_error,
  finish_aborted_as, settle_cancelled, try_finalize,
}
use ironqueue.Worker.Withdrawn.{
  yields, Refused, Refused-either, Refused-or_else, finish-Withdrawn, finish-keeps_stopped,
  requeue_shutdown-Refused, retry_swept-Refused, requeue_unhandled-Refused, retry-Refused,
}

module _ (chunks : Value → List ℕ) (h : Handle) (jitter : ℕ → ℕ) (r : JobRow) (n : Round)
    (t : Store) (x : WorkerProcessResult) where
  -- The job stays withdrawn, and the result is an abort or nothing confirmed.
  unfoldable pub Yielded : Type 0
  Yielded = All (Stopped r.id r.attempts) t.jobs × (yields x ≡ true)

  moved_jobs :
      (u s : Store)
      → u.jobs ≡ s.jobs
      → All (Stopped r.id r.attempts) s.jobs
      → All (Stopped r.id r.attempts) u.jobs
  moved_jobs u s e w = subst (All (Stopped r.id r.attempts)) (sym e) w

  -- A result that is reported without a write.
  told :
      (z : Store × WorkerProcessResult)
      → All (Stopped r.id r.attempts) z.0.jobs
      → yields z.1 ≡ true
      → ok z ≡ ok (t, x)
      → Yielded
  unfolding Yielded
  told z w y e =
      subst
        (λ (z : Store × WorkerProcessResult).
          All (Stopped r.id r.attempts) z.0.jobs × (yields z.1 ≡ true))
        (ok-injective e) (w, y)

  either-Yielded :
      (s : Store) (m : Result (Store × Bool)) (a b : WorkerProcessResult)
      → Refused s m
      → All (Stopped r.id r.attempts) s.jobs
      → yields b ≡ true
      → (m >>= either a b) ≡ ok (t, x)
      → Yielded
  unfolding Yielded
  either-Yielded s m a b declined w y e =
      let k = Refused-either t x s m a b declined e in
      (moved_jobs t s k.0 w, subst (λ z. yields z ≡ true) k.1 y)

  answer-Yielded :
      (a b : WorkerProcessResult) (p : Store × Bool)
      → All (Stopped r.id r.attempts) p.0.jobs
      → yields a ≡ true
      → yields b ≡ true
      → either a b p ≡ ok (t, x)
      → Yielded
  unfolding Yielded
  answer-Yielded a b (u, true) w ya yb e =
      subst
        (λ (z : Store × WorkerProcessResult).
          All (Stopped r.id r.attempts) z.0.jobs × (yields z.1 ≡ true))
        (ok-injective e) (w, ya)
  answer-Yielded a b (u, false) w ya yb e =
      subst
        (λ (z : Store × WorkerProcessResult).
          All (Stopped r.id r.attempts) z.0.jobs × (yields z.1 ≡ true))
        (ok-injective e) (w, yb)

  finish_aborted-Yielded :
      (now : ℕ) (error : Option Text) (e' : JobError) (s : Store)
      → All (Stopped r.id r.attempts) s.jobs
      → (finish chunks h now r JobStatus.aborted none error s
          >>= either (aborted_with e') unconfirmed)
        ≡ ok (t, x)
      → Yielded
  unfolding yields
  finish_aborted-Yielded now error e' s w e =
      let k =
        >>=-eq-ok (finish chunks h now r JobStatus.aborted none error s)
          (either (aborted_with e') unconfirmed) e in
      answer-Yielded (aborted_with e') unconfirmed k.0
        (finish-keeps_stopped chunks h r now JobStatus.aborted none error s k.0.0 k.0.1 w k.1) refl
        refl k.2

  fallback-Yielded :
      (now : ℕ) (s : Store)
      → All (Stopped r.id r.attempts) s.jobs
      → finish_aborted_fallback chunks h jitter r now s ≡ ok (t, x)
      → Yielded
  unfolding finish_aborted_fallback
  fallback-Yielded now s w e = finish_aborted-Yielded now none abort_requested_error s w e

  module _
      (between_keeps : (s : Store)
        → All (Stopped r.id r.attempts) s.jobs
        → All (Stopped r.id r.attempts) (n.between s).jobs)
      (later_keeps : (s : Store)
        → All (Stopped r.id r.attempts) s.jobs
        → All (Stopped r.id r.attempts) (n.later s).jobs) where
    swept_fallback-Yielded :
        (st : JobStatus) (v : Option Value) (error : Option Text) (a : WorkerProcessResult)
        (s : Store)
        → is_terminal st ≡ true
        → is_aborted st ≡ false
        → All (Stopped r.id r.attempts) s.jobs
        → finish_with_swept_fallback chunks h jitter r n st v error a s ≡ ok (t, x)
        → Yielded
    unfolding finish_with_swept_fallback
    swept_fallback-Yielded st v error a s term other w e =
        let k =
          Refused-or_else t x s _ a _
            (finish-Withdrawn chunks h r n.first st v error s term other
              (only-Withdrawn r.id r.attempts s.jobs w))
            e in
        fallback-Yielded n.second (n.between k.0) (between_keeps k.0 (moved_jobs k.0 s k.1 w)) k.2

    moved_on-not :
        (c : JobRow)
        → Stopped r.id r.attempts c
        → c.id ≡ r.id
        → moved_on chunks h jitter r c ≡ false
    unfolding moved_on
    moved_on-not c (elsewhere o, k) e = absurd (o e)
    moved_on-not c (gone a, inl o) e = absurd (o e)
    moved_on-not c (gone a, inr le) e = ground arith
    moved_on-not c (asked a b, inl o) e = absurd (o e)
    moved_on-not c (asked a b, inr le) e = ground arith

    refusal_of-Yielded :
        (error : JobError) (s : Store) (current : Option JobRow)
        → ((c : JobRow) → current ≡ some c → moved_on chunks h jitter r c ≡ false)
        → All (Stopped r.id r.attempts) s.jobs
        → refusal_of chunks h jitter r n error s current ≡ ok (t, x)
        → Yielded
    unfolding refusal_of yields Yielded
    refusal_of-Yielded error s none still w e = told (s, unconfirmed) w refl e
    refusal_of-Yielded error s (some c) still w e =
        let m = still c refl in
        elim (Bool-cases (is_aborted c.status)) [
          | inl ended ↦ told (s, aborted_with _) w refl (rw (m, ended) at e)
          | inr live ↦ fallback-Yielded n.third (n.later s) (later_keeps s w) (rw (m, live) at e)
        ]

    refusal-Yielded :
        (error : JobError) (s : Store)
        → All (Stopped r.id r.attempts) s.jobs
        → swept_retry_refusal_result chunks h jitter r n error s ≡ ok (t, x)
        → Yielded
    unfolding swept_retry_refusal_result
    refusal-Yielded error s w e =
        refusal_of-Yielded error (n.between s) _
          (λ c q.
            let found =
              find_row-All (Stopped r.id r.attempts) (λ y. text_eq y.queue h.name) r.id
                (n.between s).jobs c (between_keeps s w) q in
            moved_on-not c found.0 found.1)
          (between_keeps s w) e

    retry_swept-Yielded :
        (error : JobError) (s : Store)
        → All (Stopped r.id r.attempts) s.jobs
        → retry_swept_or_refuse chunks h jitter r n error none s ≡ ok (t, x)
        → Yielded
    unfolding retry_swept_or_refuse
    retry_swept-Yielded error s w e =
        let k =
          Refused-or_else t x s _ (retried error) _
            (retry_swept-Refused chunks h r jitter n.first none s
              (only-Withdrawn r.id r.attempts s.jobs w))
            e in
        refusal-Yielded error k.0 (moved_jobs k.0 s k.1 w) k.2

    shut_down-Yielded :
        (error : Text) (s : Store)
        → All (Stopped r.id r.attempts) s.jobs
        → shut_down chunks h jitter r n error s ≡ ok (t, x)
        → Yielded
    unfolding shut_down yields
    shut_down-Yielded error s w e =
        either-Yielded s _ requeued_job unconfirmed
          (requeue_shutdown-Refused chunks h r n.first error s
            (only-Withdrawn r.id r.attempts s.jobs w))
          w refl e

    settle_error-Yielded :
        (error : JobError) (caused : Bool) (s : Store)
        → All (Stopped r.id r.attempts) s.jobs
        → settle_error chunks h jitter r n error caused s ≡ ok (t, x)
        → Yielded
    unfolding settle_error is_terminal
    settle_error-Yielded error true s w e = shut_down-Yielded (display error) s w e
    settle_error-Yielded error false s w e =
        elim (Bool-cases
          (has_attempts_remaining r.attempts r.max_attempts && kind_is_retryable error.kind)) [
            | inl y ↦
                let k =
                  Refused-or_else t x s _ (retried error) _
                    (retry-Refused chunks h r jitter n.first (display error) s
                      (only-Withdrawn r.id r.attempts s.jobs w))
                    (rw y at e) in
                refusal-Yielded error k.0 (moved_jobs k.0 s k.1 w) k.2
            | inr m ↦
                swept_fallback-Yielded JobStatus.failed none (some (display error))
                  (failed_with error) s refl refl w (rw m at e)
          ]

    settle_cancelled-Yielded :
        (reason : Option WorkerAbortReason) (s : Store)
        → All (Stopped r.id r.attempts) s.jobs
        → settle_cancelled chunks h jitter r n reason s ≡ ok (t, x)
        → Yielded
    unfolding settle_cancelled finish_aborted_as yields Yielded
    settle_cancelled-Yielded none s w e = shut_down-Yielded (codes "cancelled") s w e
    settle_cancelled-Yielded (some swept_away) s w e =
        elim (Bool-cases (has_attempts_remaining r.attempts r.max_attempts)) [
          | inl y ↦
              retry_swept-Yielded (new_error JobErrorKind.timeout (codes "swept")) s w (rw y at e)
          | inr m ↦ finish_aborted-Yielded n.first (some (codes "swept")) _ s w (rw m at e)
        ]
    settle_cancelled-Yielded (some (user reason)) s w e =
        finish_aborted-Yielded n.first (some reason) _ s w e
    settle_cancelled-Yielded (some row_missing) s w e = finish_aborted-Yielded n.first _ _ s w e
    settle_cancelled-Yielded (some row_superseded) s w e =
        subst
          (λ (z : Store × WorkerProcessResult).
            All (Stopped r.id r.attempts) z.0.jobs × (yields z.1 ≡ true))
          (ok-injective e) (w, refl)

    pub settled-Yielded :
        (bounce : Text) (end : WorkerAttemptResult) (reason : Option WorkerAbortReason)
        (shutting_down : Bool) (s : Store)
        → All (Stopped r.id r.attempts) s.jobs
        → try_finalize chunks h jitter r bounce n end reason shutting_down s ≡ ok (t, x)
        → Yielded
    unfolding try_finalize is_terminal
    settled-Yielded bounce (success value) reason shutting_down s w e =
        swept_fallback-Yielded JobStatus.complete (some value) none completed s refl refl w e
    settled-Yielded bounce (errored error) reason shutting_down s w e =
        settle_error-Yielded error _ s w e
    settled-Yielded bounce cancelled reason shutting_down s w e =
        settle_cancelled-Yielded reason s w e
    settled-Yielded bounce unhandled reason shutting_down s w e =
        let k =
          Refused-or_else t x s _ bounced _
            (requeue_unhandled-Refused chunks h r jitter n.first bounce s
              (only-Withdrawn r.id r.attempts s.jobs w))
            e in
        fallback-Yielded n.second (n.between k.0) (between_keeps k.0 (moved_jobs k.0 s k.1 w)) k.2
