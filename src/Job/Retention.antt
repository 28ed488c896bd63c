-- ===== src/Job/Retention.antt =====
-- Retention of a finished row, `JobRetention` of ironqueue/src/job.rs, and its column encoding.
use ironqueue.Common.{ℕ, ◌≤◌, max, ◌≡◌, refl, true, false, Option, none, some, arith, ◌==◌}
use ironqueue.Job.Duration.{
  max_i64, unwrap_or, duration_to_ms, from_millis, duration_to_ms-from_millis,
}

pub data JobRetention : Type 0 where
  for : ℕ → JobRetention
  forever delete_immediately : JobRetention

-- NULL keeps the row forever and 0 deletes it at once.
unfoldable pub as_result_ttl_ms : JobRetention → Option ℕ
as_result_ttl_ms (for d) = some (max (duration_to_ms d) 1)
as_result_ttl_ms forever = none
as_result_ttl_ms delete_immediately = some 0

unfoldable pub from_result_ttl_ms : Option ℕ → JobRetention
from_result_ttl_ms none = forever
from_result_ttl_ms (some ms) = elim (ms == 0) [
  | true ↦ delete_immediately
  | false ↦ for (from_millis ms)
]

-- A value of the column of at most `i64::MAX` survives decoding and encoding.
pub as_result_ttl_ms-from :
    (ttl : Option ℕ) → unwrap_or ttl 0 ≤ max_i64 → as_result_ttl_ms (from_result_ttl_ms ttl) ≡ ttl
unfolding as_result_ttl_ms from_result_ttl_ms
as_result_ttl_ms-from none h = refl
as_result_ttl_ms-from (some ms) h = ground (arith, duration_to_ms-from_millis ms)
