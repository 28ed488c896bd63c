-- ===== src/Job/Config.antt =====
-- `JobConfig`, `JobRequest` and their validation, ironqueue/src/job.rs. An instant is a number of
-- microseconds from the earliest `Timestamp`; `Calendar` says where PostgreSQL's range begins and
-- where `Timestamp`'s ends on that scale.
use ironqueue.Common.{
  ℕ, ◌+◌, ◌*◌, Bool, ◌&&◌, Option, none, some, List, ltb, leb, ◌==◌, length, ℤ, pos, Text,
  contains_nul, job_timeout, job_retention, job_failed_retention, job_retry_delay,
  job_backoff_maximum, job_delay, job_payload, job_meta, no_attempts, too_many_attempts,
  backoff_without_delay, empty_name, long_name, nul_in_name, nul_in_key, long_key,
  schedule_too_early, schedule_too_late, Result, ok, ◌>>◌, refuse,
}
use ironqueue.Job.Duration.{max_duration_ms, validate_duration, validate_nonzero_duration}
use ironqueue.Job.Retention.{JobRetention, for}
use ironqueue.Job.Backoff.{JobRetryBackoff, flat, exponential}
use ironqueue.Job.Json.{Value, obj, end, validate_json_document}

pub record JobConfig : Type 0 where
  pub max_attempts : ℕ
  pub timeout : Option ℕ
  pub retention : JobRetention
  pub failed_retention : JobRetention
  pub retry_delay : ℕ
  pub backoff : JobRetryBackoff
  pub priority : ℤ

-- `i32::MAX`.
abbrev max_i32 : ℕ
max_i32 = 2147483647

validate_timeout : Option ℕ → Result (Unit {0})
validate_timeout none = ok tt
validate_timeout (some timeout) = validate_nonzero_duration job_timeout timeout

validate_retention : JobRetention → Result (Unit {0})
validate_retention (for ttl) = validate_duration job_retention ttl
validate_retention _ = ok tt

validate_failed_retention : JobRetention → Result (Unit {0})
validate_failed_retention (for ttl) = validate_duration job_failed_retention ttl
validate_failed_retention _ = ok tt

validate_backoff : JobRetryBackoff → ℕ → Result (Unit {0})
validate_backoff flat retry_delay = ok tt
validate_backoff (exponential none) retry_delay = refuse (retry_delay == 0) backoff_without_delay
validate_backoff (exponential (some cap)) retry_delay =
    validate_nonzero_duration job_backoff_maximum cap
    >> refuse (retry_delay == 0) backoff_without_delay

unfoldable pub validate_config : JobConfig → Result (Unit {0})
unfolding validate_timeout validate_retention validate_failed_retention validate_backoff
validate_config c = do
  refuse (c.max_attempts == 0) no_attempts
  refuse (leb max_i32 c.max_attempts) too_many_attempts
  validate_timeout c.timeout
  validate_retention c.retention
  validate_failed_retention c.failed_retention
  validate_duration job_retry_delay c.retry_delay
  validate_backoff c.backoff c.retry_delay

-- 1 attempt, 10 s timeout, 10 min result retention, 7 days failure retention.
pub default_config : JobConfig
default_config = record {
  max_attempts = 1;
  timeout = some 10000000000;
  retention = for 600000000000;
  failed_retention = for 604800000000000;
  retry_delay = 0;
  backoff = flat;
  priority = pos 0;
}

pub record JobRequest : Type 0 where
  pub name : Text
  pub payload : Value
  pub config : JobConfig
  pub dedupe_key : Option Text
  pub scheduled_at : Option ℕ
  pub meta : Value

pub new_request : Text → Value → JobRequest
unfolding default_config
new_request name payload = record {
  name = name;
  payload = payload;
  config = default_config;
  dedupe_key = none;
  scheduled_at = none;
  meta = obj end;
}

abbrev max_indexed_key_bytes : ℕ
max_indexed_key_bytes = 255

validate_dedupe_key : Text → Result (Unit {0})
validate_dedupe_key key = do
  refuse (contains_nul key) nul_in_key
  refuse (ltb max_indexed_key_bytes (length key)) long_key

validate_optional_key : Option Text → Result (Unit {0})
unfolding validate_dedupe_key
validate_optional_key none = ok tt
validate_optional_key (some key) = validate_dedupe_key key

pub record Calendar : Type 0 where
  pub floor : ℕ
  pub latest : ℕ

abbrev micros : ℕ → ℕ
micros ms = ms * 1000

-- The horizon is not checked where `now` plus the window is no `Timestamp`.
past_horizon : Calendar → ℕ → ℕ → Bool
past_horizon calendar now at =
    let horizon = now + micros max_duration_ms in leb horizon calendar.latest && ltb horizon at

validate_schedule : Calendar → ℕ → Option ℕ → Result (Unit {0})
unfolding past_horizon
validate_schedule calendar now none = ok tt
validate_schedule calendar now (some at) = do
  refuse (ltb at calendar.floor) schedule_too_early
  refuse (past_horizon calendar now at) schedule_too_late

validate_delay : Option ℕ → Result (Unit {0})
validate_delay none = ok tt
validate_delay (some delay) = validate_duration job_delay delay

module _ (calendar : Calendar) (chunks : Value → List ℕ) where
  unfoldable pub validate_request : ℕ → JobRequest → Result (Unit {0})
  unfolding validate_optional_key validate_schedule
  validate_request now job = do
    refuse (length job.name == 0) empty_name
    refuse (ltb 255 (length job.name)) long_name
    refuse (contains_nul job.name) nul_in_name
    validate_optional_key job.dedupe_key
    validate_json_document chunks job_payload job.payload
    validate_json_document chunks job_meta job.meta
    validate_schedule calendar now job.scheduled_at
    validate_config job.config

  -- `validate_enqueue` of ironqueue/src/database.rs.
  unfoldable pub validate_enqueue : ℕ → JobRequest → Option ℕ → Result (Unit {0})
  unfolding validate_delay
  validate_enqueue now job delay = do validate_request now job; validate_delay delay
