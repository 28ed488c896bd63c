-- ===== src/Examples/Data.antt =====
-- A queue with one running, one queued and one finished job, and one worker.
use ironqueue.Common.{
  ℕ, refl, Bool, true, false, none, some, List, [], ◌∷◌, arith, All, pos, negsuc, Text, codes,
}
use ironqueue.Job.Backoff.{flat}
use ironqueue.Job.Status.{queued, running, complete}
use ironqueue.Job.Json.{Value, null}
use ironqueue.Job.Config.{Calendar}
use ironqueue.Database.Row.{job, JobRow, WorkerRow, QueueStats, Store, Handle, AttemptGuard}
use ironqueue.Database.Limits.{Distinct}
use ironqueue.History.Checks.{Checks}
use ironqueue.History.Calls.{Call, dequeues, aborts, purges_expired}

abbrev queue_name : Text
queue_name = codes "emails"

abbrev pub handle : Handle
handle = record {
  name = queue_name;
  lowest = negsuc 9;
  highest = pos 100;
  sweep_grace_ms = 5000;
  sweep_batch_size = 2;
}

-- A queued job with one attempt spent out of three.
abbrev pub queued_job : JobRow
queued_job = record {
  id = 8;
  dedupe_key = some (codes "daily");
  queue = queue_name;
  name = codes "send";
  payload = null;
  status = queued;
  priority = pos 5;
  attempts = 1;
  max_attempts = 3;
  timeout_ms = some 10000;
  retry_delay_ms = 0;
  backoff = flat;
  result_ttl_ms = some 600000;
  failed_ttl_ms = none;
  scheduled_at = 500;
  enqueued_at = 500;
  started_at = none;
  touched_at = none;
  completed_at = none;
  expires_at = none;
  result = none;
  error = none;
  meta = null;
  worker_id = none;
  kind = job;
  cron_expr = none;
  retried_at = none;
  awaited = false;
}

abbrev pub running_job : JobRow
running_job = record queued_job {
  id = 7;
  dedupe_key = none;
  status = running;
  started_at = some 600;
  touched_at = some 600;
  worker_id = some 3;
  awaited = true;
}

abbrev pub finished_job : JobRow
finished_job = record queued_job {
  id = 9;
  dedupe_key = none;
  status = complete;
  started_at = some 600;
  touched_at = some 700;
  completed_at = some 700;
  expires_at = some 900;
  worker_id = some 3;
}

abbrev pub worker : WorkerRow
worker = record {
  id = 3;
  queue = queue_name;
  stats = null;
  metadata = none;
  heartbeat_at = 600;
  expires_at = 60000000;
  accepting = true;
}

abbrev no_stats : QueueStats
no_stats = record { complete = 0; failed = 0; retried = 0; aborted = 0 }

abbrev pub store : Store
store = record {
  jobs = running_job ∷ queued_job ∷ finished_job ∷ [];
  workers = worker ∷ [];
  notices = [];
  stats = no_stats;
}

abbrev pub guard : AttemptGuard
guard = record { id = 7; attempts = 1; worker_id = some 3 }

abbrev pub calendar : Calendar
calendar = record { floor = 0; latest = 1000000000000000000 }

-- A serializer that hands over four bytes at once.
abbrev pub chunks : Value → List ℕ
chunks v = 4 ∷ []

abbrev pub unlocked : ℕ → Bool
unlocked id = false

abbrev pub history : List (Handle × Call)
history =
    (handle, dequeues 1000 unlocked 5 3)
    ∷ (handle, purges_expired 2000 unlocked)
    ∷ (handle, aborts 3000 7 (codes "stop"))
    ∷ []

pub store-Distinct : Distinct (store.jobs)
store-Distinct = ((ground arith, (ground arith, tt)), ((ground arith, tt), (tt, tt)))

queued_job-Checks : Checks queued_job
queued_job-Checks = record {
  max_positive = omega arith;
  max_capped = omega arith;
  attempts_capped = omega arith;
  queued_spare = λ e. omega arith;
  running_started = λ e. ground arith;
  aborting_started = λ e. ground arith;
  error_short = omega arith;
  delay_range = omega arith;
  timeout_range = ground arith;
  result_ttl_range = ground arith;
  failed_ttl_range = ground arith;
}

running_job-Checks : Checks running_job
running_job-Checks = record {
  max_positive = omega arith;
  max_capped = omega arith;
  attempts_capped = omega arith;
  queued_spare = λ e. omega arith;
  running_started = λ e. refl;
  aborting_started = λ e. refl;
  error_short = omega arith;
  delay_range = omega arith;
  timeout_range = ground arith;
  result_ttl_range = ground arith;
  failed_ttl_range = ground arith;
}

finished_job-Checks : Checks finished_job
finished_job-Checks = record {
  max_positive = omega arith;
  max_capped = omega arith;
  attempts_capped = omega arith;
  queued_spare = λ e. omega arith;
  running_started = λ e. refl;
  aborting_started = λ e. refl;
  error_short = omega arith;
  delay_range = omega arith;
  timeout_range = ground arith;
  result_ttl_range = ground arith;
  failed_ttl_range = ground arith;
}

pub store-Checks : All Checks (store.jobs)
store-Checks = (running_job-Checks, (queued_job-Checks, (finished_job-Checks, tt)))
