-- ===== src/Examples/Crontabs.antt =====
-- A schedule that fires every minute, one that never fires, and tables of a registered schedule.
use ironqueue.Common.{
  ℕ, ◌+◌, ◌*◌, ◌/◌, ◌%◌, refl, Bool, false, Option, none, some, [], ◌∷◌, arith, ◌==◌, pos, Text,
  codes,
}
use ironqueue.Job.Retention.{forever}
use ironqueue.Job.Backoff.{flat}
use ironqueue.Job.Json.{null}
use ironqueue.Job.Config.{JobRequest}
use ironqueue.Cron.Search.{Crontab, Span}
use ironqueue.Cron.Crontab.{IsCrontab}
use ironqueue.Cron.Entry.{skip, CronOptions, Definition, JobCronEntry}
use ironqueue.Cron.Tables.{CronSchedule, CronStore}
use ironqueue.Cron.Pass.{Pass}
use ironqueue.Examples.Data.{handle, store}

-- The seconds of `Timestamp::MIN` and `Timestamp::MAX` from the beginning of the former's minute.
abbrev pub span : Span
span = record { first = 59; last = 631107230460 }

abbrev pub every_minute : Crontab
every_minute = record {
  find_next = λ t. some ((t / 60 + 1) * 60);
  matches = λ t. some (t % 60 == 0);
}

abbrev pub on_the_minute : ℕ → Bool
on_the_minute t = t % 60 == 0

pub every_minute-IsCrontab : IsCrontab every_minute on_the_minute
every_minute-IsCrontab = record {
  next_fires = λ t n e. (ground arith, ground arith);
  next_first = λ t n m e low high. ground arith;
  next_window = λ t m e low high. ground arith;
  matching = λ t. refl;
  minutely = λ t e. ground arith;
}

abbrev pub never : Crontab
never = record { find_next = λ t. none; matches = λ t. some false }

abbrev pub template : JobRequest
template = record {
  name = codes "report";
  payload = null;
  config = record {
    max_attempts = 3;
    timeout = some 10000000000;
    retention = forever;
    failed_retention = forever;
    retry_delay = 0;
    backoff = flat;
    priority = pos 0;
  };
  dedupe_key = none;
  scheduled_at = none;
  meta = null;
}

abbrev pub parse : Text → Option Crontab
parse expr = some every_minute

abbrev pub cron_options : CronOptions
cron_options = record { revision = 2; misfire = skip none }

abbrev pub report_key : Text
report_key = codes "cron:report"

abbrev pub report_expr : Text
report_expr = codes "* * * * *"

abbrev report_definition : Definition
report_definition = record {
  payload = null;
  max_attempts = 3;
  timeout_ms = some 10000;
  result_ttl_ms = none;
  failed_ttl_ms = none;
  retry_delay_ms = 0;
  backoff = flat;
  priority = pos 0;
  meta = null;
}

abbrev pub report : JobCronEntry
report = record {
  cron = every_minute;
  expr = report_expr;
  dedupe_key = report_key;
  template = record template { dedupe_key = some report_key };
  options = cron_options;
  definition = report_definition;
}

-- `jsonb` equality, for definitions that differ in their number of attempts at most.
abbrev pub same_attempts : Definition → Definition → Bool
same_attempts a b = a.max_attempts == b.max_attempts

abbrev pub schedule : ℕ → CronSchedule
schedule revision = record {
  queue = handle.name;
  dedupe_key = report_key;
  name = codes "report";
  expression = report_expr;
  definition = report_definition;
  revision = revision;
  misfire_policy = codes "skip";
  grace_ms = none;
  next_run_at = 120000000;
}

-- The tables with the schedule at a revision, due at the second minute.
abbrev pub cron_store : ℕ → CronStore
cron_store revision = record { store = store; schedules = schedule revision ∷ []; occurrences = [] }

-- A pass ten seconds after that.
abbrev pub timely : ℕ → Pass
timely id = record {
  through = none;
  now = 130000000;
  current = 130000001;
  clock = 130000002;
  id = id;
  locked = false;
}
