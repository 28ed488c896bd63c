-- ===== src/History/Removals.antt =====
-- What each row statement may delete.
use mathlib.Core.List.{Memᴰ}
use ironqueue.Common.{
  ℕ, ◌≡◌, refl, ◌≢◌, ◌⊎◌, inl, inr, Bool, true, false, not, ◌&&◌, Option, List, [], ◌∷◌, map, arith,
  Bool-cases, Option-cases, select, All, Text,
}
use ironqueue.Job.Status.{JobStatus, is_terminal}
use ironqueue.Job.Json.{Value}
use ironqueue.Database.Statement.{Fate, keep, remove, write}
use ironqueue.Database.Row.{JobRow, WorkerRow, Handle, AttemptGuard, guard_of, is_running, owns}
use ironqueue.Database.Requeue.{RequeueGuards, requeue_fate}
use ironqueue.Database.Finish.{finish_attempt_fate, abort_unsettled_fate}
use ironqueue.Database.Abort.{abort_fate, await_fate, retry_fate}
use ironqueue.Database.Dequeue.{has_id, claim_fate}
use ironqueue.Database.Limits.{Distinct}
use ironqueue.Sweeper.Purge.{first_ids, is_expired, or_zero, purge_fate, purge_queued_fate}
use ironqueue.Sweeper.Recover.{
  lease_of, job_is_stuck, mark_fate, may_retry_abandoned, retry_abandoned_fate,
  abort_abandoned_fate,
}
use ironqueue.Sweeper.Deletion.{first_ids-avoid, keys_avoid}
use ironqueue.History.Moves.{Removable, waiting, retired, unretained, Spares}
use ironqueue.History.Lawful.{may_abort_abandoned-active}

fate-cases : (f : Fate JobRow) → (f ≢ remove) ⊎ (f ≡ remove)
fate-cases keep = inl (λ e. ground arith)
fate-cases remove = inr refl
fate-cases (write r) = inl (λ e. ground arith)

-- A statement all of whose deletions are allowed.
pub spared :
    (fate : JobRow → Fate JobRow)
    → ((r : JobRow) → fate r ≡ remove → Removable r)
    → (rs : List JobRow) → All (Spares fate) rs
spared fate k [] = tt
spared fate k (r ∷ rs) =
    (elim (fate-cases (fate r)) [ inl n ↦ inl n | inr e ↦ inr (k r e) ], spared fate k rs)

pub requeue-Removable :
    (q : Text) (now : ℕ) (g : AttemptGuard) (e : Option Text) (d : ℕ) (gs : RequeueGuards)
    (r : JobRow)
    → requeue_fate q now g e d gs r ≡ remove
    → Removable r
unfolding requeue_fate
requeue-Removable q now g e d gs r h = ground arith

pub finish_attempt-Removable :
    (q : Text) (now : ℕ) (g : AttemptGuard) (st : JobStatus) (v : Option Value) (e : Option Text)
    (r : JobRow)
    → finish_attempt_fate q now g st v e r ≡ remove
    → Removable r
unfolding finish_attempt_fate
finish_attempt-Removable q now g st v e r h = unretained (ground arith) (ground arith)

pub abort_unsettled-Removable :
    (q : Text) (now : ℕ) (g : AttemptGuard) (reason : Text) (r : JobRow)
    → abort_unsettled_fate q now g reason r ≡ remove
    → Removable r
unfolding abort_unsettled_fate
abort_unsettled-Removable q now g reason r h = unretained (ground arith) (ground arith)

pub abort-Removable :
    (q : Text) (now id : ℕ) (reason : Text) (r : JobRow)
    → abort_fate q now id reason r ≡ remove
    → Removable r
unfolding abort_fate
abort-Removable q now id reason r h = ground arith

pub await-Removable : (q : Text) (id : ℕ) (r : JobRow) → await_fate q id r ≡ remove → Removable r
unfolding await_fate
await-Removable q id r h = ground arith

pub retry-Removable :
    (q : Text) (now id : ℕ) (r : JobRow) → retry_fate q now id r ≡ remove → Removable r
unfolding retry_fate
retry-Removable q now id r h = ground arith

pub claim-Removable :
    (h : Handle) (now w : ℕ) (admitted : Bool) (ids : List ℕ) (r : JobRow)
    → claim_fate h now w admitted ids r ≡ remove
    → Removable r
unfolding claim_fate
claim-Removable h now w admitted ids r e = ground arith

pub purge_queued-Removable :
    (ids : List ℕ) (r : JobRow) → purge_queued_fate ids r ≡ remove → Removable r
unfolding purge_queued_fate
purge_queued-Removable ids r e = waiting (ground arith)

pub mark-Removable :
    (h : Handle) (now : ℕ) (ws : List WorkerRow) (seen : List JobRow) (r : JobRow)
    → mark_fate h now ws seen r ≡ remove
    → Removable r
unfolding mark_fate
mark-Removable h now ws [] r e = ground arith
mark-Removable h now ws (s ∷ ss) r e =
    elim (Bool-cases (
      owns h.name (guard_of s) r
      && (is_running r.status
          && job_is_stuck h.sweep_grace_ms now (lease_of r.queue r.worker_id ws) r))) [
            | inl p ↦ ground arith
            | inr p ↦ mark-Removable h now ws ss r (ground arith)
          ]

pub retry_abandoned-Removable :
    (h : Handle) (now : ℕ) (ws : List WorkerRow) (gs : List (AttemptGuard × ℕ)) (r : JobRow)
    → retry_abandoned_fate h now ws gs r ≡ remove
    → Removable r
unfolding retry_abandoned_fate
retry_abandoned-Removable h now ws [] r e = ground arith
retry_abandoned-Removable h now ws ((g, d) ∷ gs) r e =
    elim (Bool-cases (may_retry_abandoned h now ws g r)) [
      | inl p ↦ ground arith
      | inr p ↦ retry_abandoned-Removable h now ws gs r (ground arith)
    ]

pub abort_abandoned-Removable :
    (h : Handle) (now : ℕ) (ws : List WorkerRow) (gs : List AttemptGuard) (r : JobRow)
    → abort_abandoned_fate h now ws gs r ≡ remove
    → Removable r
unfolding abort_abandoned_fate
abort_abandoned-Removable h now ws gs r e =
    unretained (may_abort_abandoned-active h now ws gs r (ground arith)) (ground arith)

expired-Removable : (q : Text) (now : ℕ) (r : JobRow) → is_expired q now r ≡ true → Removable r
unfolding is_expired is_terminal
expired-Removable q now r e = elim (Option-cases r.expires_at) [
  | inl n ↦ ground arith
  | inr (at, s) ↦ retired at (ground arith) s
]

kept : (ids : List ℕ) (r : JobRow) → has_id ids r.id ≡ false → purge_fate ids r ≢ remove
unfolding purge_fate
kept ids r n e = ground arith

-- The expired jobs that a pass deletes, on a table without duplicate ids.
pub purge-spared :
    (h : Handle) (now : ℕ) (locked : ℕ → Bool) (rows : List JobRow)
    → Distinct rows
    → All
        (Spares (
          purge_fate (
            first_ids h.sweep_batch_size (
              map
                (λ x. (or_zero x.expires_at, x.id))
                (select (λ x. is_expired h.name now x && not (locked x.id)) rows)))))
        rows
purge-spared h now locked rows d = members rows (λ r m. m)
  where
    one :
        (r : JobRow)
        → Memᴰ r rows
        → Spares
            (purge_fate (
              first_ids h.sweep_batch_size (
                map
                  (λ x. (or_zero x.expires_at, x.id))
                  (select (λ x. is_expired h.name now x && not (locked x.id)) rows))))
            r
    one r m = elim (Bool-cases (is_expired h.name now r)) [
      | inl e ↦ inr (expired-Removable h.name now r e)
      | inr n ↦ inl (λ gone.
          kept _ r
            (first_ids-avoid r.id h.sweep_batch_size _ (
              keys_avoid (λ x. is_expired h.name now x && not (locked x.id))
                (λ x. or_zero x.expires_at) r rows d m (rw n refl)))
            gone)
    ]

    members :
        (rs : List JobRow)
        → ((r : JobRow) → Memᴰ r rs → Memᴰ r rows)
        → All
            (Spares (
              purge_fate (
                first_ids h.sweep_batch_size (
                  map
                    (λ x. (or_zero x.expires_at, x.id))
                    (select (λ x. is_expired h.name now x && not (locked x.id)) rows)))))
            rs
    members [] k = tt
    members (r ∷ rs) k = (one r (k r (Memᴰ.head refl)), members rs (λ x m. k x (Memᴰ.tail m)))
