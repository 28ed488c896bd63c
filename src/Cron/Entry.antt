-- ===== src/Cron/Entry.antt =====
-- A registered schedule: `CronMisfirePolicy`, `CronOptions`, `parse_cron` and `JobCronEntry` of
-- ironqueue/src/job.rs. Instants are in microseconds from the origin of `Span`.
use mathlib.Core.Option
use ironqueue.Common.{
  ℕ, suc, ◌+◌, ◌-◌, ◌*◌, ◌/◌, min, max, Bool, true, false, not, ◌||◌, Option, none, some, List, [],
  ◌∷◌, ◌++◌, ltb, ◌==◌, if◌then◌else◌, ℤ, Text, codes, cron_misfire_grace, Issue, cron_fields,
  cron_syntax, cron_revision, cron_no_next, cron_no_previous, config, Result, err, ok, ◌>>◌, ◌>>=◌,
  refuse,
}
use ironqueue.Job.Duration.{max_i64, validate_nonzero_duration, duration_to_ms}
use ironqueue.Job.Retention.{as_result_ttl_ms}
use ironqueue.Job.Backoff.{JobRetryBackoff}
use ironqueue.Job.Json.{Value}
use ironqueue.Job.Config.{JobRequest, Calendar, validate_request}
use ironqueue.Cron.Search.{
  Crontab, Span, Search, found, nothing, out_of_fuel, next_after, previous_at_or_before,
}

pub data CronMisfirePolicy : Type 0 where
  skip : Option ℕ → CronMisfirePolicy
  fire_once : CronMisfirePolicy

unfoldable pub validate_misfire : CronMisfirePolicy → Result (Unit {0})
validate_misfire (skip (some grace)) = validate_nonzero_duration cron_misfire_grace grace
validate_misfire _ = ok tt

unfoldable pub kind_of : CronMisfirePolicy → Text
kind_of (skip grace) = codes "skip"
kind_of fire_once = codes "fire_once"

unfoldable pub grace_ms_of : CronMisfirePolicy → Option ℕ
grace_ms_of (skip grace) = Option.map duration_to_ms grace
grace_ms_of fire_once = none

pub record CronOptions : Type 0 where
  pub revision : ℕ
  pub misfire : CronMisfirePolicy

-- The members of the `definition` object.
pub record Definition : Type 0 where
  pub payload : Value
  pub max_attempts : ℕ
  pub timeout_ms : Option ℕ
  pub result_ttl_ms : Option ℕ
  pub failed_ttl_ms : Option ℕ
  pub retry_delay_ms : ℕ
  pub backoff : JobRetryBackoff
  pub priority : ℤ
  pub meta : Value

pub record JobCronEntry : Type 0 where
  pub cron : Crontab
  pub expr : Text
  pub dedupe_key : Text
  pub template : JobRequest
  pub options : CronOptions
  pub definition : Definition

-- `char::is_ascii_whitespace`: tab, line feed, form feed, carriage return and space.
is_ascii_whitespace : ℕ → Bool
is_ascii_whitespace c = c == 9 || (c == 10 || (c == 12 || (c == 13 || c == 32)))

-- `split_ascii_whitespace().count()`; the flag says whether the last byte belonged to a field.
count_fields : Bool → Text → ℕ
unfolding is_ascii_whitespace
count_fields within [] = 0
count_fields within (c ∷ cs) =
    let skipped = count_fields false cs in
    let taken = count_fields true cs in
    if is_ascii_whitespace c then skipped else if within then taken else suc taken

crontab_of : Option Crontab → Result Crontab
crontab_of none = err (config cron_syntax)
crontab_of (some cron) = ok cron

-- `parse` is the parser of the `cronexpr` crate.
unfoldable pub parse_cron : (Text → Option Crontab) → Text → Result Crontab
unfolding count_fields crontab_of
parse_cron parse expr = do
  refuse (not (count_fields false expr == 5)) cron_fields
  crontab_of (parse expr)

default_key : JobRequest → Text
default_key template = codes "cron:" ++ template.name

key_or : Text → Option Text → Text
key_or default none = default
key_or default (some key) = key

definition_of : JobRequest → Definition
definition_of template = record {
  payload = template.payload;
  max_attempts = template.config.max_attempts;
  timeout_ms = Option.map duration_to_ms template.config.timeout;
  result_ttl_ms = as_result_ttl_ms template.config.retention;
  failed_ttl_ms = as_result_ttl_ms template.config.failed_retention;
  retry_delay_ms = duration_to_ms template.config.retry_delay;
  backoff = template.config.backoff;
  priority = template.config.priority;
  meta = template.meta;
}

-- The template under its own key.
unfoldable pub keyed : JobRequest → JobRequest
unfolding default_key key_or
keyed template = record template {
  dedupe_key = some (key_or (default_key template) template.dedupe_key);
}

unfoldable pub entry_of : Text → JobRequest → CronOptions → Crontab → JobCronEntry
unfolding keyed default_key key_or definition_of
entry_of expr template options cron = record {
  cron = cron;
  expr = expr;
  dedupe_key = key_or (default_key template) template.dedupe_key;
  template = keyed template;
  options = options;
  definition = definition_of (keyed template);
}

-- `i64::try_from(revision)`.
unfoldable pub check_revision : CronOptions → Result (Unit {0})
check_revision options = refuse (ltb max_i64 options.revision) cron_revision

-- `JobCronEntry::with_options`.
unfoldable pub with_options :
    Calendar
    → (Value → List ℕ)
    → (Text → Option Crontab)
    → ℕ
    → Text
    → JobRequest
    → CronOptions
    → Result JobCronEntry
unfolding entry_of validate_misfire
with_options calendar chunks parse now expr template options = do
  cron ← parse_cron parse expr
  validate_misfire options.misfire
  check_revision options
  validate_request calendar chunks now (keyed template)
  ok (entry_of expr template options cron)

abbrev second : ℕ
second = 1000000

-- A search that runs out of fuel would be no answer; none does.
abbrev pub found_or : Issue → Search → Result ℕ
found_or e (found n) = ok (n * second)
found_or e nothing = err (config e)
found_or e out_of_fuel = err (config e)

-- `round_cron_timestamp` goes down to the second.
abbrev round_cron_timestamp : ℕ → ℕ
round_cron_timestamp t = t / second

-- `checked_add`, then `unwrap_or(successor)`.
abbrev add_or : Span → ℕ → ℕ → ℕ → ℕ
add_or span at grace successor =
    if ltb (span.last * second + 999999) (at + grace) then successor else at + grace

abbrev pub grace_between : CronMisfirePolicy → ℕ → ℕ → ℕ
grace_between (skip (some grace)) occurrence successor = duration_to_ms grace * 1000
grace_between (skip none) occurrence successor = max ((successor - occurrence) / 5) second
grace_between fire_once occurrence successor = successor - occurrence

module _ (span : Span) (job_entry : JobCronEntry) where
  unfoldable pub next_occurrence : ℕ → Result ℕ
  next_occurrence now =
      found_or cron_no_next (next_after span job_entry.cron (round_cron_timestamp now))

  unfoldable pub previous_occurrence : ℕ → Result ℕ
  previous_occurrence now =
      found_or cron_no_previous
        (previous_at_or_before span job_entry.cron (round_cron_timestamp now))

  unfoldable pub publication_deadline : ℕ → ℕ → ℕ
  publication_deadline occurrence successor =
      let grace = grace_between job_entry.options.misfire occurrence successor in
      min successor (add_or span occurrence grace successor)

unfoldable pub job_for : JobCronEntry → ℕ → JobRequest
job_for job_entry at = record job_entry.template { scheduled_at = some at }
