-- ===== src/Database/Dequeue.antt =====
-- Claiming ready rows: DEQUEUE_CLAIM_SQL, `dequeue_inner` and the probe beside it,
-- ironqueue/src/database.rs. `locked` says which rows another transaction holds (SKIP LOCKED).
use ironqueue.Common.{
  ℕ, zero, suc, ◌+◌, Bool, true, not, ◌&&◌, ◌||◌, Option, none, some, List, [], ◌∷◌, map, ltb, leb,
  ◌==◌, if◌then◌else◌, take, select, any, leb_ℤ, ltb_ℤ, Text, text_eq, bad_limit, config,
  lost_connection, Result, ok, err,
}
use ironqueue.Job.Status.{running}
use ironqueue.Database.Statement.{Fate, keep, write, apply, written}
use ironqueue.Database.Row.{JobRow, WorkerRow, Store, Handle, is_queued}

-- `ORDER BY priority, scheduled_at, id`, as the test whether one row comes before another.
unfoldable pub before : JobRow → JobRow → Bool
before r s =
    ltb_ℤ r.priority s.priority
    || (leb_ℤ r.priority s.priority
        && (ltb r.scheduled_at s.scheduled_at
            || (r.scheduled_at == s.scheduled_at && ltb r.id s.id)))

unfoldable pub insert_row : JobRow → List JobRow → List JobRow
unfolding before
insert_row r [] = r ∷ []
insert_row r (s ∷ ss) = let rest = insert_row r ss in if before s r then s ∷ rest else r ∷ s ∷ ss

unfoldable pub sort_rows : List JobRow → List JobRow
unfolding insert_row
sort_rows [] = []
sort_rows (r ∷ rs) = insert_row r (sort_rows rs)

-- A row that a claim may take.
unfoldable pub is_ready : Handle → ℕ → JobRow → Bool
is_ready h now r =
    text_eq r.queue h.name
    && (is_queued r.status
        && (leb r.scheduled_at now && (leb_ℤ h.lowest r.priority && leb_ℤ r.priority h.highest)))

unfoldable pub has_id : List ℕ → ℕ → Bool
has_id ids id = any (λ i. i == id) ids

abbrev pub job_ids : List JobRow → List ℕ
job_ids = map (λ r. r.id)

unfoldable pub candidates : Handle → ℕ → (ℕ → Bool) → ℕ → List JobRow → List ℕ
unfolding sort_rows is_ready select
candidates h now locked limit jobs =
    job_ids (take limit (sort_rows (select (λ r. is_ready h now r && not (locked r.id)) jobs)))

-- Whether the worker holds a live lease that accepts work.
unfoldable pub accepts : Text → ℕ → ℕ → WorkerRow → Bool
accepts queue now worker_id w =
    w.id == worker_id && (text_eq w.queue queue && (w.accepting && ltb now w.expires_at))

unfoldable pub claimed : ℕ → ℕ → JobRow → JobRow
claimed now worker_id r = record r {
  status = running;
  attempts = r.attempts + 1;
  started_at = some now;
  touched_at = some now;
  worker_id = some worker_id;
}

unfoldable pub claim_fate : Handle → ℕ → ℕ → Bool → List ℕ → JobRow → Fate JobRow
unfolding is_ready has_id claimed
claim_fate h now worker_id admitted ids r =
    if has_id ids r.id && (is_ready h now r && admitted)
    then write (claimed now worker_id r)
    else keep

-- The batch and the store after the claim committed.
unfoldable pub dequeue :
    Handle → ℕ → (ℕ → Bool) → ℕ → ℕ → Bool → Store → Result (Store × List JobRow)
unfolding claim_fate candidates accepts sort_rows any
dequeue h now locked limit worker_id require_open_intake s =
    let ids = candidates h now locked limit s.jobs in
    let admitted = not require_open_intake || any (accepts h.name now worker_id) s.workers in
    let fate = claim_fate h now worker_id admitted ids in
    if limit == 0
    then err (config bad_limit)
    else ok (record s { jobs = apply fate s.jobs }, sort_rows (written fate s.jobs))

pub record Probe : Type 0 where
  pub intake_open : Bool
  pub work_available : Bool

-- The probe's own statement.
unfoldable pub probe : Handle → ℕ → ℕ → Store → Probe
unfolding accepts is_ready any
probe h now worker_id s = record {
  intake_open = any (accepts h.name now worker_id) s.workers;
  work_available = any (is_ready h now) s.jobs;
}

-- `resolve_post_commit_probe`: a failed probe is an error only where nothing was claimed.
unfoldable pub resolve_post_commit_probe : ℕ → Option Probe → Result Probe
resolve_post_commit_probe jobs_claimed (some p) = ok p
resolve_post_commit_probe zero none = err lost_connection
resolve_post_commit_probe (suc n) none = ok (record { intake_open = true; work_available = true })
