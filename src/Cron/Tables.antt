-- ===== src/Cron/Tables.antt =====
-- The tables `ironqueue.cron_schedules` and `ironqueue.cron_occurrences`, and their keys.
use ironqueue.Common.{
  ℕ, Bool, ◌&&◌, Option, none, some, List, [], ◌∷◌, ◌==◌, if◌then◌else◌, same_id, Text, text_eq,
}
use ironqueue.Database.Row.{Store}
use ironqueue.Cron.Entry.{kind_of, grace_ms_of, Definition, JobCronEntry}

pub record CronSchedule : Type 0 where
  pub queue : Text
  pub dedupe_key : Text
  pub name : Text
  pub expression : Text
  pub definition : Definition
  pub revision : ℕ
  pub misfire_policy : Text
  pub grace_ms : Option ℕ
  pub next_run_at : ℕ

pub record CronOccurrence : Type 0 where
  pub queue : Text
  pub dedupe_key : Text
  pub scheduled_at : ℕ
  pub expires_at : ℕ

pub record CronStore : Type 0 where
  pub store : Store
  pub schedules : List CronSchedule
  pub occurrences : List CronOccurrence

-- `WHERE queue = $1 AND dedupe_key = $2`.
unfoldable pub is_schedule : Text → Text → CronSchedule → Bool
is_schedule queue key c = text_eq c.queue queue && text_eq c.dedupe_key key

unfoldable pub find_schedule : Text → Text → List CronSchedule → Option CronSchedule
find_schedule queue key [] = none
find_schedule queue key (c ∷ cs) =
    let rest = find_schedule queue key cs in if is_schedule queue key c then some c else rest

-- The stored row is the entry's own, at its own revision. `same` is `jsonb` equality.
unfoldable pub is_own : (Definition → Definition → Bool) → JobCronEntry → CronSchedule → Bool
is_own same job_entry c =
    c.revision == job_entry.options.revision
    && (text_eq c.name job_entry.template.name
        && (text_eq c.expression job_entry.expr
            && (same c.definition job_entry.definition
                && (text_eq c.misfire_policy (kind_of job_entry.options.misfire)
                    && same_id c.grace_ms (grace_ms_of job_entry.options.misfire)))))

-- The primary key of a claim.
unfoldable pub is_claim : Text → Text → ℕ → CronOccurrence → Bool
is_claim queue key at o =
    text_eq o.queue queue && (text_eq o.dedupe_key key && o.scheduled_at == at)
