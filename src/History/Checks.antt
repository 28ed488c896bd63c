-- ===== src/History/Checks.antt =====
-- The CHECK constraints of `ironqueue.jobs` (ironqueue/migrations/0001_migration.sql), except those on
-- the clock's range and on the texts of `queue` and `name`, which no statement rewrites.
use ironqueue.Common.{
  ℕ, ◌≤◌, ◌<◌, ◌≡◌, Bool, true, false, Option, none, some, List, [], ◌∷◌, arith, length, Text,
}
use ironqueue.Job.Duration.{max_duration_ms, Within}
use ironqueue.Job.Status.{JobStatus, queued, running, aborting, is_terminal}
use ironqueue.Job.Json.{Value}
use ironqueue.Job.Stored.{max_stored_error_bytes}
use ironqueue.Database.Statement.{Fate, write}
use ironqueue.Database.Row.{JobRow, WorkerRow, Handle, AttemptGuard, attempts_ceiling}
use ironqueue.Database.Requeue.{RequeueGuards, requeue_fate}
use ironqueue.Database.Finish.{finish_attempt_fate, abort_unsettled_fate}
use ironqueue.Database.Abort.{abort_fate, await_fate, is_none, retry_fate, fresh_occurrence}
use ironqueue.Database.Dequeue.{claim_fate}
use ironqueue.Sweeper.Purge.{purge_fate, purge_queued_fate}
use ironqueue.Sweeper.Recover.{mark_fate, retry_abandoned_fate, abort_abandoned_fate}

abbrev pub error_bytes : Option Text → ℕ
error_bytes none = 0
error_bytes (some e) = length e

pub record Checks (r : JobRow) : Type 0 where
  pub max_positive : 1 ≤ r.max_attempts
  pub max_capped : r.max_attempts ≤ attempts_ceiling
  pub attempts_capped : r.attempts ≤ r.max_attempts
  pub queued_spare : r.status ≡ queued → r.attempts < r.max_attempts
  pub running_started : r.status ≡ running → is_none (r.started_at) ≡ false
  pub aborting_started : r.status ≡ aborting → is_none (r.started_at) ≡ false
  pub error_short : error_bytes (r.error) ≤ max_stored_error_bytes
  pub delay_range : r.retry_delay_ms ≤ max_duration_ms
  pub timeout_range : Within 1 max_duration_ms (r.timeout_ms)
  pub result_ttl_range : Within 0 max_duration_ms (r.result_ttl_ms)
  pub failed_ttl_range : Within 0 max_duration_ms (r.failed_ttl_ms)

-- A statement that violates no check: of a row that satisfies them it makes one that does.
abbrev pub Checked : (JobRow → Fate JobRow) → Type 0
Checked fate = (r r' : JobRow) → Checks r → fate r ≡ write r' → Checks r'

pub requeue-Checked :
    (q : Text) (now : ℕ) (g : AttemptGuard) (e : Option Text) (d : ℕ) (gs : RequeueGuards)
    → error_bytes e ≤ max_stored_error_bytes
    → Checked (requeue_fate q now g e d gs)
unfolding requeue_fate
requeue-Checked q now g e d gs short r r' c h = ground arith

pub finish_attempt-Checked :
    (q : Text) (now : ℕ) (g : AttemptGuard) (st : JobStatus) (v : Option Value) (e : Option Text)
    → is_terminal st ≡ true
    → error_bytes e ≤ max_stored_error_bytes
    → Checked (finish_attempt_fate q now g st v e)
unfolding finish_attempt_fate is_terminal
finish_attempt-Checked q now g st v e t short r r' c h = ground arith

pub abort_unsettled-Checked :
    (q : Text) (now : ℕ) (g : AttemptGuard) (reason : Text)
    → length reason ≤ max_stored_error_bytes
    → Checked (abort_unsettled_fate q now g reason)
unfolding abort_unsettled_fate
abort_unsettled-Checked q now g reason short r r' c h = ground arith

pub abort-Checked :
    (q : Text) (now id : ℕ) (reason : Text)
    → length reason ≤ max_stored_error_bytes
    → Checked (abort_fate q now id reason)
unfolding abort_fate
abort-Checked q now id reason short r r' c h = ground arith

pub await-Checked : (q : Text) (id : ℕ) → Checked (await_fate q id)
unfolding await_fate
await-Checked q id r r' c h = ground arith

pub retry-Checked : (q : Text) (now id : ℕ) → Checked (retry_fate q now id)
unfolding retry_fate
retry-Checked q now id r r' c h = ground arith

pub claim-Checked :
    (h : Handle) (now w : ℕ) (admitted : Bool) (ids : List ℕ)
    → Checked (claim_fate h now w admitted ids)
unfolding claim_fate
claim-Checked h now w admitted ids r r' c e = ground arith

pub purge-Checked : (ids : List ℕ) → Checked (purge_fate ids)
unfolding purge_fate
purge-Checked ids r r' c h = ground arith

pub purge_queued-Checked : (ids : List ℕ) → Checked (purge_queued_fate ids)
unfolding purge_queued_fate
purge_queued-Checked ids r r' c h = ground arith

pub mark-Checked :
    (h : Handle) (now : ℕ) (ws : List WorkerRow) (seen : List JobRow)
    → Checked (mark_fate h now ws seen)
unfolding mark_fate
mark-Checked h now ws [] r r' c e = ground arith
mark-Checked h now ws (s ∷ ss) r r' c e = ground (arith, mark-Checked h now ws ss r r' c)

pub retry_abandoned-Checked :
    (h : Handle) (now : ℕ) (ws : List WorkerRow) (gs : List (AttemptGuard × ℕ))
    → Checked (retry_abandoned_fate h now ws gs)
unfolding retry_abandoned_fate
retry_abandoned-Checked h now ws [] r r' c e = ground arith
retry_abandoned-Checked h now ws ((g, d) ∷ gs) r r' c e =
    ground (arith, retry_abandoned-Checked h now ws gs r r' c)

pub abort_abandoned-Checked :
    (h : Handle) (now : ℕ) (ws : List WorkerRow) (gs : List AttemptGuard)
    → Checked (abort_abandoned_fate h now ws gs)
unfolding abort_abandoned_fate
abort_abandoned-Checked h now ws gs r r' c e = ground arith

-- A fresh occurrence of a retried row.
pub fresh-Checks :
    (clock new_id : ℕ) (reason : Text) (r : JobRow)
    → r.attempts < attempts_ceiling
    → length reason ≤ max_stored_error_bytes
    → Checks r
    → Checks (fresh_occurrence clock new_id reason r)
unfolding fresh_occurrence
fresh-Checks clock new_id reason r cap short c = ground arith
