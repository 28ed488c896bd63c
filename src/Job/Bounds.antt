-- ===== src/Job/Bounds.antt =====
-- What validation says about the columns that a request fills.
use ironqueue.Common.{ℕ, ◌≤◌, ◌<◌, ◌≡◌, refl, Option, none, some, arith, ok}
use mathlib.Core.Option
use ironqueue.Job.Duration.{
  max_duration_ms, validate_duration, validate_nonzero_duration, Within, duration_to_ms,
}
use ironqueue.Job.Retention.{JobRetention, for, forever, delete_immediately, as_result_ttl_ms}
use ironqueue.Job.Backoff.{exponential}
use ironqueue.Job.Config.{JobConfig, validate_config}

module _ (config : JobConfig) (valid : validate_config config ≡ ok tt) where
  pub valid-attempts : (1 ≤ config.max_attempts) × (config.max_attempts ≤ 2147483646)
  unfolding validate_config
  valid-attempts = (ground arith, ground arith)

  pub valid-timeout : Within 1 max_duration_ms (Option.map duration_to_ms (config.timeout))
  unfolding validate_config validate_nonzero_duration duration_to_ms
  valid-timeout = go (config.timeout) refl
    where
      go :
          (t : Option ℕ)
          → config.timeout ≡ t
          → Within 1 max_duration_ms (Option.map duration_to_ms t)
      go none e = tt
      go (some t) e = (ground arith, ground arith)

  pub valid-retention : Within 0 max_duration_ms (as_result_ttl_ms (config.retention))
  unfolding validate_config validate_duration as_result_ttl_ms duration_to_ms
  valid-retention = go (config.retention) refl
    where
      go : (t : JobRetention) → config.retention ≡ t → Within 0 max_duration_ms (as_result_ttl_ms t)
      go (for d) e = (ground arith, ground arith)
      go forever e = tt
      go delete_immediately e = omega arith

  pub valid-failed_retention : Within 0 max_duration_ms (as_result_ttl_ms (config.failed_retention))
  unfolding validate_config validate_duration as_result_ttl_ms duration_to_ms
  valid-failed_retention = go (config.failed_retention) refl
    where
      go :
          (t : JobRetention)
          → config.failed_retention ≡ t
          → Within 0 max_duration_ms (as_result_ttl_ms t)
      go (for d) e = (ground arith, ground arith)
      go forever e = tt
      go delete_immediately e = omega arith

  pub valid-retry_delay : duration_to_ms (config.retry_delay) ≤ max_duration_ms
  unfolding validate_config validate_duration duration_to_ms
  valid-retry_delay = ground arith

  -- Exponential backoff always has a base delay to grow.
  pub valid-backoff : (cap : Option ℕ) → config.backoff ≡ exponential cap → 0 < config.retry_delay
  unfolding validate_config
  valid-backoff none e = ground arith
  valid-backoff (some c) e = ground arith
