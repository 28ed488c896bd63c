-- ===== src/Database/Row.antt =====
-- The rows of `ironqueue.jobs` and `ironqueue.workers`, and the queue handle's own state. Instants
-- are microseconds and the columns ending in _ms are milliseconds.
use ironqueue.Common.{
  ℕ, ◌+◌, ◌*◌, Bool, true, false, ◌&&◌, ◌||◌, Option, none, some, List, ◌==◌, same_id, ℤ, Text,
  codes, text_eq, is_text,
}
use ironqueue.Job.Status.{JobStatus, queued, running, aborting, complete, aborted}
use ironqueue.Job.Backoff.{JobRetryBackoff}
use ironqueue.Job.Json.{Value, is_string}

pub data Kind : Type 0 where
  job cron : Kind

pub record JobRow : Type 0 where
  pub id : ℕ
  pub dedupe_key : Option Text
  pub queue : Text
  pub name : Text
  pub payload : Value
  pub status : JobStatus
  pub priority : ℤ
  pub attempts : ℕ
  pub max_attempts : ℕ
  pub timeout_ms : Option ℕ
  pub retry_delay_ms : ℕ
  pub backoff : JobRetryBackoff
  pub result_ttl_ms : Option ℕ
  pub failed_ttl_ms : Option ℕ
  pub scheduled_at : ℕ
  pub enqueued_at : ℕ
  pub started_at : Option ℕ
  pub touched_at : Option ℕ
  pub completed_at : Option ℕ
  pub expires_at : Option ℕ
  pub result : Option Value
  pub error : Option Text
  pub meta : Value
  pub worker_id : Option ℕ
  pub kind : Kind
  pub cron_expr : Option Text
  pub retried_at : Option ℕ
  pub awaited : Bool

pub record WorkerRow : Type 0 where
  pub id : ℕ
  pub queue : Text
  pub stats : Value
  pub metadata : Option Value
  pub heartbeat_at : ℕ
  pub expires_at : ℕ
  pub accepting : Bool

-- What `pg_notify` sends: a wakeup on the queue's channel, or a finished job on its done channel.
pub data Notice : Type 0 where
  enqueue : Notice
  done : ℕ → JobStatus → Notice

-- `QueueCounters` of ironqueue/src/queue.rs.
pub record QueueStats : Type 0 where
  pub complete : ℕ
  pub failed : ℕ
  pub retried : ℕ
  pub aborted : ℕ

-- The tables, the notifications sent so far (latest first) and the counters of the handle.
pub record Store : Type 0 where
  pub jobs : List JobRow
  pub workers : List WorkerRow
  pub notices : List Notice
  pub stats : QueueStats

-- The constants of a queue handle, `Database` of ironqueue/src/database.rs.
pub record Handle : Type 0 where
  pub name : Text
  pub lowest : ℤ
  pub highest : ℤ
  pub sweep_grace_ms : ℕ
  pub sweep_batch_size : ℕ

-- `AttemptGuard`: what a write checks an attempt by.
pub record AttemptGuard : Type 0 where
  pub id : ℕ
  pub attempts : ℕ
  pub worker_id : Option ℕ

unfoldable pub guard_of : JobRow → AttemptGuard
guard_of row = record { id = row.id; attempts = row.attempts; worker_id = row.worker_id }

abbrev pub is_queued : JobStatus → Bool
is_queued queued = true
is_queued _ = false

abbrev pub is_running : JobStatus → Bool
is_running running = true
is_running _ = false

abbrev pub is_aborting : JobStatus → Bool
is_aborting aborting = true
is_aborting _ = false

abbrev pub is_complete : JobStatus → Bool
is_complete complete = true
is_complete _ = false

abbrev pub is_aborted : JobStatus → Bool
is_aborted aborted = true
is_aborted _ = false

-- `status IN ('queued', 'running', 'aborting')`.
abbrev pub is_live : JobStatus → Bool
is_live s = is_queued s || (is_running s || is_aborting s)

abbrev pub swept : Text
swept = codes "swept"

abbrev pub swept_result : Text
swept_result = codes "ironqueue:swept"

-- The sweeper's marker pair, `is_swept_marked` of ironqueue/src/sweeper.rs.
unfoldable pub is_swept_marked : Option Text → Option Value → Bool
is_swept_marked error result = is_text error swept && is_string result swept_result

-- `id = .. AND queue = .. AND attempts = .. AND worker_id IS NOT DISTINCT FROM ..`.
unfoldable pub owns : Text → AttemptGuard → JobRow → Bool
owns queue g r =
    r.id == g.id
    && (text_eq r.queue queue && (r.attempts == g.attempts && same_id r.worker_id g.worker_id))

-- `now() + ms * interval '1 millisecond'`.
abbrev pub after_ms : ℕ → ℕ → ℕ
after_ms now ms = now + ms * 1000

abbrev pub expiry : ℕ → Option ℕ → Option ℕ
expiry now none = none
expiry now (some ttl) = some (after_ms now ttl)

abbrev pub coalesce {ℓ} : {A : Type ℓ} → Option A → Option A → Option A
coalesce none b = b
coalesce (some a) b = some a

-- The bound of `jobs_attempts_range_check`, `i32::MAX - 1`.
abbrev pub attempts_ceiling : ℕ
attempts_ceiling = 2147483646
