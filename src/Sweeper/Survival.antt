-- ===== src/Sweeper/Survival.antt =====
-- What a recovery pass leaves alone.
use ironqueue.Common.{ℕ, ◌≤◌, ◌≡◌, refl, ◌⊎◌, inl, true, false, List, [], ◌∷◌, arith, any}
use ironqueue.Database.Statement.{keep}
use ironqueue.Database.Row.{
  JobRow, WorkerRow, Store, Handle, AttemptGuard, is_running, is_swept_marked,
}
use ironqueue.Sweeper.Recover.{
  lease_of, job_is_stuck, is_live_lease, mark_fate, may_retry_abandoned, retry_abandoned_fate,
  may_abort_abandoned, abort_abandoned_fate, mark_stuck, retry_swept_abandoned_batch,
  abort_stuck_abandoned_batch, recover_stuck_jobs,
}
use ironqueue.Sweeper.Deletion.{keep-Memᴰ}
use mathlib.Core.List.{Memᴰ}

-- A running attempt that is not stuck, by its lease and its own clock, and carries no marker.
abbrev pub Healthy : Handle → List WorkerRow → ℕ → JobRow → Type 0
Healthy h ws now r =
    (job_is_stuck h.sweep_grace_ms now (lease_of r.queue r.worker_id ws) r ≡ false)
    × (is_running r.status ≡ true)
    × (is_swept_marked r.error r.result ≡ false)

mark-keeps :
    (h : Handle) (now : ℕ) (ws : List WorkerRow) (seen : List JobRow) (r : JobRow)
    → Healthy h ws now r
    → mark_fate h now ws seen r ≡ keep
unfolding mark_fate
mark-keeps h now ws [] r p = refl
mark-keeps h now ws (s ∷ ss) r p = ground (arith, mark-keeps h now ws ss r p, p.0)

may_retry-not :
    (h : Handle) (now : ℕ) (ws : List WorkerRow) (g : AttemptGuard) (r : JobRow)
    → (is_swept_marked r.error r.result ≡ false)
      ⊎ (r.max_attempts ≤ r.attempts)
      ⊎ (is_live_lease now (lease_of r.queue r.worker_id ws) ≡ true)
    → may_retry_abandoned h now ws g r ≡ false
unfolding may_retry_abandoned
may_retry-not h now ws g r p = ground arith

-- Phase two retries an attempt only if the sweeper marked it, a try is left and no lease of its owner
-- is live.
retry_abandoned-keeps :
    (h : Handle) (now : ℕ) (ws : List WorkerRow) (gs : List (AttemptGuard × ℕ)) (r : JobRow)
    → (is_swept_marked r.error r.result ≡ false)
      ⊎ (r.max_attempts ≤ r.attempts)
      ⊎ (is_live_lease now (lease_of r.queue r.worker_id ws) ≡ true)
    → retry_abandoned_fate h now ws gs r ≡ keep
unfolding retry_abandoned_fate
retry_abandoned-keeps h now ws [] r p = refl
retry_abandoned-keeps h now ws ((g, d) ∷ gs) r p =
    ground (arith, may_retry-not h now ws g r p, retry_abandoned-keeps h now ws gs r p)

may_abort-not :
    (h : Handle) (now : ℕ) (ws : List WorkerRow) (gs : List AttemptGuard) (r : JobRow)
    → Healthy h ws now r
    → any (λ g. may_abort_abandoned h now ws g r) gs ≡ false
unfolding may_abort_abandoned any
may_abort-not h now ws [] r p = refl
may_abort-not h now ws (g ∷ gs) r p = ground (arith, may_abort-not h now ws gs r p, p.0, p.2)

abort_abandoned-keeps :
    (h : Handle) (now : ℕ) (ws : List WorkerRow) (gs : List AttemptGuard) (r : JobRow)
    → Healthy h ws now r
    → abort_abandoned_fate h now ws gs r ≡ keep
unfolding abort_abandoned_fate
abort_abandoned-keeps h now ws gs r p = ground (arith, may_abort-not h now ws gs r p)

-- A healthy attempt survives a recovery pass: a running row that carries no marker and is not stuck at
-- the times of the pass's three statements is there, unchanged, after the pass.
pub recover_stuck_jobs-spares :
    (h : Handle) (delay_ms : JobRow → ℕ) (scanned marked_at retried_at aborted_at : ℕ) (s : Store)
    (r : JobRow)
    → Memᴰ r s.jobs
    → Healthy h s.workers marked_at r
    → Healthy h s.workers retried_at r
    → Healthy h s.workers aborted_at r
    → Memᴰ r (recover_stuck_jobs h delay_ms scanned marked_at retried_at aborted_at s).0.jobs
unfolding recover_stuck_jobs mark_stuck retry_swept_abandoned_batch abort_stuck_abandoned_batch
recover_stuck_jobs-spares h delay_ms scanned marked_at retried_at aborted_at s r m a b c =
    keep-Memᴰ _ r _ (abort_abandoned-keeps h aborted_at s.workers _ r c) (
      keep-Memᴰ _ r _ (retry_abandoned-keeps h retried_at s.workers _ r (inl b.2))
        (keep-Memᴰ _ r _ (mark-keeps h marked_at s.workers _ r a) m))
