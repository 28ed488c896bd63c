-- ===== src/History/Lawful.antt =====
-- Each row statement obeys the lifecycle.
use ironqueue.Common.{
  ℕ, ◌≡◌, ◌⊎◌, inl, inr, Bool, true, ◌&&◌, Option, List, [], ◌∷◌, arith, Bool-cases, any, Text,
}
use ironqueue.Job.Status.{JobStatus, running, aborting, is_terminal}
use ironqueue.Job.Json.{Value}
use ironqueue.Database.Row.{JobRow, WorkerRow, Handle, AttemptGuard, guard_of, is_running, owns}
use ironqueue.Database.Requeue.{RequeueGuards, requeue_fate}
use ironqueue.Database.Finish.{finish_attempt_fate, abort_unsettled_fate}
use ironqueue.Database.Abort.{abort_fate, await_fate, retry_fate}
use ironqueue.Database.Dequeue.{claim_fate}
use ironqueue.Sweeper.Purge.{purge_fate, purge_queued_fate}
use ironqueue.Sweeper.Recover.{
  lease_of, job_is_stuck, mark_fate, may_retry_abandoned, retry_abandoned_fate, may_abort_abandoned,
  abort_abandoned_fate,
}
use ironqueue.History.Moves.{
  annotate, claim, give_back, withdraw, cancel, mark, finish, acknowledge, Lawful,
}

pub requeue-Lawful :
    (q : Text) (now : ℕ) (g : AttemptGuard) (e : Option Text) (d : ℕ) (gs : RequeueGuards)
    → Lawful (requeue_fate q now g e d gs)
unfolding requeue_fate
requeue-Lawful q now g e d gs r r' h =
    (ground arith, give_back (ground arith) (ground arith) (ground arith) (ground arith))

pub finish_attempt-Lawful :
    (q : Text) (now : ℕ) (g : AttemptGuard) (st : JobStatus) (v : Option Value) (e : Option Text)
    → is_terminal st ≡ true
    → Lawful (finish_attempt_fate q now g st v e)
unfolding finish_attempt_fate
finish_attempt-Lawful q now g st v e t r r' h = (ground arith, grind (arith, finish, acknowledge))

pub abort_unsettled-Lawful :
    (q : Text) (now : ℕ) (g : AttemptGuard) (reason : Text)
    → Lawful (abort_unsettled_fate q now g reason)
unfolding abort_unsettled_fate is_terminal
abort_unsettled-Lawful q now g reason r r' h = (ground arith, grind (arith, finish, acknowledge))

pub abort-Lawful : (q : Text) (now id : ℕ) (reason : Text) → Lawful (abort_fate q now id reason)
unfolding abort_fate
abort-Lawful q now id reason r r' h = (ground arith, grind (arith, withdraw, cancel))

pub await-Lawful : (q : Text) (id : ℕ) → Lawful (await_fate q id)
unfolding await_fate
await-Lawful q id r r' h = (
  ground arith,
  annotate (ground arith) (ground arith) (ground arith) (ground arith) (ground arith),
)

pub retry-Lawful : (q : Text) (now id : ℕ) → Lawful (retry_fate q now id)
unfolding retry_fate
retry-Lawful q now id r r' h = (
  ground arith,
  annotate (ground arith) (ground arith) (ground arith) (ground arith) (ground arith),
)

pub claim-Lawful :
    (h : Handle) (now w : ℕ) (admitted : Bool) (ids : List ℕ)
    → Lawful (claim_fate h now w admitted ids)
unfolding claim_fate
claim-Lawful h now w admitted ids r r' e =
    (ground arith, claim w (ground arith) (ground arith) (ground arith) (ground arith))

pub purge-Lawful : (ids : List ℕ) → Lawful (purge_fate ids)
unfolding purge_fate
purge-Lawful ids r r' h = ground arith

pub purge_queued-Lawful : (ids : List ℕ) → Lawful (purge_queued_fate ids)
unfolding purge_queued_fate
purge_queued-Lawful ids r r' h = ground arith

pub mark-Lawful :
    (h : Handle) (now : ℕ) (ws : List WorkerRow) (seen : List JobRow)
    → Lawful (mark_fate h now ws seen)
unfolding mark_fate
mark-Lawful h now ws [] r r' e = ground arith
mark-Lawful h now ws (s ∷ ss) r r' e =
    elim (Bool-cases (
      owns h.name (guard_of s) r
      && (is_running r.status
          && job_is_stuck h.sweep_grace_ms now (lease_of r.queue r.worker_id ws) r))) [
            | inl p ↦
                (ground arith, mark (ground arith) (ground arith) (ground arith) (ground arith))
            | inr p ↦ mark-Lawful h now ws ss r r' (ground arith)
          ]

pub retry_abandoned-Lawful :
    (h : Handle) (now : ℕ) (ws : List WorkerRow) (gs : List (AttemptGuard × ℕ))
    → Lawful (retry_abandoned_fate h now ws gs)
unfolding retry_abandoned_fate
retry_abandoned-Lawful h now ws [] r r' e = ground arith
retry_abandoned-Lawful h now ws ((g, d) ∷ gs) r r' e =
    elim (Bool-cases (may_retry_abandoned h now ws g r)) [
      | inl p ↦
          (ground arith, give_back (ground arith) (ground arith) (ground arith) (ground arith))
      | inr p ↦ retry_abandoned-Lawful h now ws gs r r' (ground arith)
    ]

pub may_abort_abandoned-active :
    (h : Handle) (now : ℕ) (ws : List WorkerRow) (gs : List AttemptGuard) (r : JobRow)
    → any (λ g. may_abort_abandoned h now ws g r) gs ≡ true
    → (r.status ≡ running) ⊎ (r.status ≡ aborting)
unfolding any may_abort_abandoned
may_abort_abandoned-active h now ws [] r e = ground arith
may_abort_abandoned-active h now ws (g ∷ gs) r e =
    ground (arith, may_abort_abandoned-active h now ws gs r)

pub abort_abandoned-Lawful :
    (h : Handle) (now : ℕ) (ws : List WorkerRow) (gs : List AttemptGuard)
    → Lawful (abort_abandoned_fate h now ws gs)
unfolding abort_abandoned_fate is_terminal
abort_abandoned-Lawful h now ws gs r r' e =
    (ground arith, grind (arith, finish, acknowledge, may_abort_abandoned-active h now ws gs r))
