-- ===== src/Database/Enqueue.antt =====
-- Publishing jobs: `insert_job`, `live_dedupe_holder`, `enqueue_validated_in`, the batch enqueue and
-- the wakeup throttle of ironqueue/src/database.rs. The advisory locks make each publish one step.
use mathlib.Core.Option
use ironqueue.Common.{
  ℕ, ◌-◌, Bool, true, false, ◌&&◌, Option, none, some, List, [], ◌∷◌, ◌++◌, ltb, if◌then◌else◌,
  Text, dedupe_race, Result, ok, err, ◌>>◌,
}
use ironqueue.Job.Duration.{duration_to_ms}
use ironqueue.Job.Retention.{JobRetention, as_result_ttl_ms, from_result_ttl_ms}
use ironqueue.Job.Status.{queued}
use ironqueue.Job.Json.{Value}
use ironqueue.Job.Config.{JobRequest, Calendar, validate_enqueue}
use ironqueue.Database.Row.{job, JobRow, Store, Handle, after_ms}
use ironqueue.Database.Requeue.{is_due, wake}
use ironqueue.Database.Abort.{holds_key}
use mathlib.Core.Option

pub data EnqueueResult : Type 0 where
  inserted : ℕ → EnqueueResult
  deduplicated : ℕ → Text → JobRetention → JobRetention → EnqueueResult

-- COALESCE($11, statement_timestamp() + delay, statement_timestamp()).
schedule_for : ℕ → Option ℕ → Option ℕ → ℕ
schedule_for now (some at) delay = at
schedule_for now none (some delay) = after_ms now (duration_to_ms delay)
schedule_for now none none = now

-- The VALUES of the insert.
unfoldable pub new_row : Handle → ℕ → ℕ → Bool → JobRequest → Option ℕ → JobRow
unfolding schedule_for
new_row h now id awaited request delay = record {
  id = id;
  dedupe_key = request.dedupe_key;
  queue = h.name;
  name = request.name;
  payload = request.payload;
  status = queued;
  priority = request.config.priority;
  attempts = 0;
  max_attempts = request.config.max_attempts;
  timeout_ms = Option.map duration_to_ms request.config.timeout;
  retry_delay_ms = duration_to_ms request.config.retry_delay;
  backoff = request.config.backoff;
  result_ttl_ms = as_result_ttl_ms request.config.retention;
  failed_ttl_ms = as_result_ttl_ms request.config.failed_retention;
  scheduled_at = schedule_for now request.scheduled_at delay;
  enqueued_at = now;
  started_at = none;
  touched_at = none;
  completed_at = none;
  expires_at = none;
  result = none;
  error = none;
  meta = request.meta;
  worker_id = none;
  kind = job;
  cron_expr = none;
  retried_at = none;
  awaited = awaited;
}

-- `live_dedupe_holder`.
unfoldable pub live_dedupe_holder : Text → Option Text → List JobRow → Option JobRow
unfolding holds_key
live_dedupe_holder queue key [] = none
live_dedupe_holder queue key (r ∷ rs) =
    let rest = live_dedupe_holder queue key rs in if holds_key queue key r then some r else rest

unfoldable pub deduplicated_by : JobRow → EnqueueResult
deduplicated_by r =
    deduplicated r.id r.name (from_result_ttl_ms r.result_ttl_ms)
      (from_result_ttl_ms r.failed_ttl_ms)

-- The insert where nothing conflicts with it.
unfoldable pub insert_job : ℕ → JobRow → Bool → Store → Store
unfolding is_due wake
insert_job now row notify s = record s {
  jobs = s.jobs ++ row ∷ [];
  notices = wake (notify && is_due now row) s.notices;
}

abbrev key_text : Option Text → Text
key_text none = []
key_text (some key) = key

-- After DO NOTHING: the holder that blocked the insert, unless it is gone again.
unfoldable pub report_race : Option Text → Option JobRow → Store → Result (Store × EnqueueResult)
unfolding deduplicated_by
report_race key none s = err (dedupe_race (key_text key))
report_race key (some holder) s = ok (s, deduplicated_by holder)

unfoldable pub insert_or_report :
    Text
    → ℕ
    → JobRow
    → Bool
    → (Store → Store)
    → Store
    → Option JobRow
    → Result (Store × EnqueueResult)
unfolding report_race insert_job live_dedupe_holder
insert_or_report queue now row notify later s none =
    ok (insert_job now row notify s, inserted row.id)
insert_or_report queue now row notify later s (some blocker) =
    report_race row.dedupe_key (live_dedupe_holder queue row.dedupe_key (later s).jobs) (later s)

unfoldable pub publish :
    Text
    → ℕ
    → JobRow
    → Bool
    → (Store → Store)
    → (Store → Store)
    → Store
    → Option JobRow
    → Result (Store × EnqueueResult)
unfolding insert_or_report deduplicated_by
publish queue now row notify between later s (some holder) = ok (s, deduplicated_by holder)
publish queue now row notify between later s none =
    insert_or_report queue now row notify later (between s)
      (live_dedupe_holder queue row.dedupe_key (between s).jobs)

-- `enqueue_validated_in`, which holds the key's lock. `between` and `later` are what writers that do
-- not take the lock commit before the insert and before the second read; `id` is the generated id
-- and `notify` the answer of `authorize_wakeup`.
unfoldable pub enqueue_validated :
    Handle
    → ℕ
    → ℕ
    → Bool
    → Bool
    → JobRequest
    → Option ℕ
    → (Store → Store)
    → (Store → Store)
    → Store
    → Result (Store × EnqueueResult)
unfolding new_row publish
enqueue_validated h now id notify awaited request delay between later s =
    publish h.name now (new_row h now id awaited request delay) notify between later s
      (live_dedupe_holder h.name request.dedupe_key s.jobs)

-- `enqueue_raw_delayed_in_result`.
unfoldable pub enqueue_raw :
    Calendar
    → (Value → List ℕ)
    → Handle
    → ℕ
    → ℕ
    → Bool
    → Bool
    → JobRequest
    → Option ℕ
    → (Store → Store)
    → (Store → Store)
    → Store
    → Result (Store × EnqueueResult)
unfolding enqueue_validated
enqueue_raw calendar chunks h now id notify awaited request delay between later s = do
  validate_enqueue calendar chunks now request delay
  enqueue_validated h now id notify awaited request delay between later s

-- `take_throttle_slot`: the time of the last notification, and whether this one goes out.
unfoldable pub take_throttle_slot : ℕ → ℕ → Option ℕ → Option ℕ × Bool
take_throttle_slot window_ms now_ms none = (some now_ms, true)
take_throttle_slot window_ms now_ms (some last) =
    if ltb (now_ms - last) window_ms then (some last, false) else (some now_ms, true)

-- `authorize_wakeup`.
unfoldable pub authorize_wakeup : Option ℕ → Bool → ℕ → Option ℕ → Option ℕ × Bool
unfolding take_throttle_slot
authorize_wakeup none due now_ms last = (last, true)
authorize_wakeup (some window_ms) false now_ms last = (last, false)
authorize_wakeup (some window_ms) true now_ms last = take_throttle_slot window_ms now_ms last
