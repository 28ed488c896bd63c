-- ===== src/Job/Duration.antt =====
-- Durations of ironqueue/src/job.rs, in nanoseconds, and their conversion to milliseconds.
use ironqueue.Common.{
  ℕ, ◌+◌, ◌*◌, ◌/◌, ◌≤◌, ◌≡◌, Option, none, some, arith, ltb, leb, ◌==◌, if◌then◌else◌, Field,
  too_long, must_be_positive, config, Result, ok, err,
}

abbrev nanos_per_ms : ℕ
nanos_per_ms = 1000000

abbrev pub max_duration_ms : ℕ
max_duration_ms = 3153600000000

abbrev pub max_duration : ℕ
max_duration = 3153600000000000000

-- `i64::MAX`.
abbrev pub max_i64 : ℕ
max_i64 = 9223372036854775807

unfoldable pub validate_duration : Field → ℕ → Result (Unit {0})
validate_duration field duration =
    if ltb max_duration duration then err (config (too_long field)) else ok tt

unfoldable pub validate_nonzero_duration : Field → ℕ → Result (Unit {0})
unfolding validate_duration
validate_nonzero_duration field duration =
    if duration == 0
    then err (config (must_be_positive field))
    else validate_duration field duration

-- `column IS NULL OR column BETWEEN low AND high`.
abbrev pub Within : ℕ → ℕ → Option ℕ → Type 0
Within low high none = Unit {0}
Within low high (some n) = (low ≤ n) × (n ≤ high)

-- Rounds up; `none` where the milliseconds exceed an `i64`.
duration_to_ms_checked : ℕ → Option ℕ
duration_to_ms_checked duration =
    let ms = (duration + 999999) / nanos_per_ms in if leb ms max_i64 then some ms else none

abbrev pub unwrap_or : Option ℕ → ℕ → ℕ
unwrap_or none d = d
unwrap_or (some n) d = n

unfoldable pub duration_to_ms : ℕ → ℕ
unfolding duration_to_ms_checked
duration_to_ms duration = unwrap_or (duration_to_ms_checked duration) max_i64

unfoldable pub from_millis : ℕ → ℕ
from_millis ms = ms * nanos_per_ms

-- A column of milliseconds survives being read as a duration and written back.
pub duration_to_ms-from_millis : (ms : ℕ) → ms ≤ max_i64 → duration_to_ms (from_millis ms) ≡ ms
unfolding duration_to_ms from_millis
duration_to_ms-from_millis ms h = ground arith

-- A validated duration fits the window that the schema's checks allow.
pub validate_duration-bound :
    (field : Field) (d : ℕ) → validate_duration field d ≡ ok tt → duration_to_ms d ≤ max_duration_ms
unfolding validate_duration duration_to_ms
validate_duration-bound field d h = ground arith

-- A validated positive duration is at least a millisecond and fits the window of the checks.
pub validate_nonzero_duration-bound :
    (field : Field) (d : ℕ)
    → validate_nonzero_duration field d ≡ ok tt
    → (1 ≤ duration_to_ms d) × (duration_to_ms d ≤ max_duration_ms)
unfolding validate_nonzero_duration duration_to_ms
validate_nonzero_duration-bound field d h = (ground arith, ground arith)
