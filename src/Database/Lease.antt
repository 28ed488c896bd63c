-- ===== src/Database/Lease.antt =====
-- Worker leases: `LeaseIntake`, `write_worker_info`, `stop_worker_intake` and `aborting_of` of
-- ironqueue/src/database.rs.
use ironqueue.Common.{
  ℕ, Bool, true, false, not, ◌&&◌, ◌||◌, Option, none, some, List, [], ◌∷◌, ◌++◌, ◌==◌,
  if◌then◌else◌, same_id, select, any, Text, text_eq, worker_stats, worker_metadata, lease_ttl,
  worker_of_other_queue, config, Result, ok, err, ◌>>=◌, ◌>>◌,
}
use ironqueue.Job.Duration.{validate_duration, duration_to_ms}
use ironqueue.Job.Status.{JobStatus, aborting, aborted}
use ironqueue.Job.Json.{Value, validate_json_document}
use ironqueue.Database.Statement.{Fate, keep, write, apply, written}
use ironqueue.Database.Row.{JobRow, WorkerRow, Store, Handle, is_swept_marked, after_ms}
use ironqueue.Database.Requeue.{is_nonempty}

pub data LeaseIntake : Type 0 where
  reopen open_intake closed : LeaseIntake

unfoldable pub reopens : LeaseIntake → Bool
reopens reopen = true
reopens _ = false

accepts_when_created : LeaseIntake → Bool
accepts_when_created closed = false
accepts_when_created _ = true

renewed : ℕ → Value → Option Value → ℕ → LeaseIntake → WorkerRow → WorkerRow
unfolding reopens
renewed now stats metadata ttl_ms intake w = record w {
  stats = stats;
  metadata = metadata;
  heartbeat_at = now;
  expires_at = after_ms now ttl_ms;
  accepting = if reopens intake then true else w.accepting;
}

unfoldable pub renew_fate :
    Text → ℕ → ℕ → Value → Option Value → ℕ → LeaseIntake → WorkerRow → Fate WorkerRow
unfolding renewed
renew_fate queue now worker_id stats metadata ttl_ms intake w =
    if w.id == worker_id && text_eq w.queue queue
    then write (renewed now stats metadata ttl_ms intake w)
    else keep

abbrev new_lease : Text → ℕ → ℕ → Value → Option Value → ℕ → LeaseIntake → WorkerRow
new_lease queue now worker_id stats metadata ttl_ms intake = record {
  id = worker_id;
  queue = queue;
  stats = stats;
  metadata = metadata;
  heartbeat_at = now;
  expires_at = after_ms now ttl_ms;
  accepting = accepts_when_created intake;
}

pub validate_metadata : (Value → List ℕ) → Option Value → Result (Unit {0})
validate_metadata chunks none = ok tt
validate_metadata chunks (some m) = validate_json_document chunks worker_metadata m

-- The upsert: a row of this id in another queue refuses it, and nothing is written.
unfoldable pub upsert_lease :
    Handle
    → ℕ
    → ℕ
    → Value
    → Option Value
    → ℕ
    → LeaseIntake
    → List WorkerRow
    → Result (List WorkerRow)
unfolding renew_fate accepts_when_created is_nonempty any
upsert_lease h now worker_id stats metadata ttl_ms intake workers =
    let fate = renew_fate h.name now worker_id stats metadata ttl_ms intake in
    if any (λ w. w.id == worker_id) workers
    then (if is_nonempty (written fate workers)
        then ok (apply fate workers)
        else err (config worker_of_other_queue))
    else ok (workers ++ new_lease h.name now worker_id stats metadata ttl_ms intake ∷ [])

unfoldable pub write_worker_info :
    (Value → List ℕ)
    → Handle
    → ℕ
    → ℕ
    → Value
    → Option Value
    → ℕ
    → LeaseIntake
    → Store
    → Result Store
unfolding upsert_lease validate_metadata
write_worker_info chunks h now worker_id stats metadata ttl intake s = do
  validate_duration lease_ttl ttl
  validate_json_document chunks worker_stats stats
  validate_metadata chunks metadata
  workers ← upsert_lease h now worker_id stats metadata (duration_to_ms ttl) intake s.workers
  ok (record s { workers = workers })

unfoldable pub stop_intake_fate : Text → ℕ → ℕ → WorkerRow → Fate WorkerRow
stop_intake_fate queue now worker_id w =
    if w.id == worker_id && text_eq w.queue queue
    then write (record w { accepting = false; heartbeat_at = now })
    else keep

unfoldable pub stop_worker_intake : Handle → ℕ → ℕ → Store → Store
unfolding stop_intake_fate
stop_worker_intake h now worker_id s = record s {
  workers = apply (stop_intake_fate h.name now worker_id) s.workers;
}

-- What `aborting_of` answers for one claim. The reason comes with whether the sweeper marked it.
pub data Verdict : Type 0 where
  undisturbed missing superseded : Verdict
  aborting_for : Option Text → Bool → Verdict

-- `HashMap::get` over the rows read, whose ids are distinct.
unfoldable pub find_row : ℕ → List JobRow → Option JobRow
find_row id [] = none
find_row id (r ∷ rs) = let rest = find_row id rs in if r.id == id then some r else rest

abbrev pub is_abort_state : JobStatus → Bool
is_abort_state aborting = true
is_abort_state aborted = true
is_abort_state _ = false

unfoldable pub judge : ℕ → ℕ → Option JobRow → Verdict
judge attempts worker_id none = missing
judge attempts worker_id (some r) =
    if not (r.attempts == attempts) || not (same_id r.worker_id (some worker_id))
    then superseded
    else if is_abort_state r.status
    then aborting_for r.error (is_swept_marked r.error r.result)
    else undisturbed

-- The answer of `aborting_of` for the claim `(id, attempts)` of a worker.
unfoldable pub aborting_of : Handle → ℕ → ℕ → ℕ → List JobRow → Verdict
unfolding judge select
aborting_of h id attempts worker_id jobs =
    judge attempts worker_id (find_row id (select (λ r. text_eq r.queue h.name) jobs))
