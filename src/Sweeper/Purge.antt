-- ===== src/Sweeper/Purge.antt =====
-- The deletions of a sweep pass, `purge_expired_jobs` and `purge_worker_leases` of
-- ironqueue/src/sweeper.rs, and `purge_queued_jobs` of ironqueue/src/database.rs. `locked` says which
-- rows another transaction holds.
use ironqueue.Common.{
  ℕ, ◌*◌, Bool, true, false, not, ◌&&◌, ◌||◌, Option, none, some, List, [], ◌∷◌, map, ltb, leb,
  ◌==◌, if◌then◌else◌, length, take, select, Text, text_eq, bad_limit, config, Result, ok, err,
}
use ironqueue.Job.Status.{is_terminal}
use ironqueue.Database.Statement.{Fate, keep, remove, apply, removed}
use ironqueue.Database.Row.{JobRow, WorkerRow, Store, Handle, is_queued, after_ms}
use ironqueue.Database.Dequeue.{has_id}

-- `ORDER BY <key>, id`, for rows seen as their key and id.
unfoldable pub earlier : ℕ × ℕ → ℕ × ℕ → Bool
earlier (a, i) (b, j) = ltb a b || (a == b && ltb i j)

unfoldable pub insert_key : ℕ × ℕ → List (ℕ × ℕ) → List (ℕ × ℕ)
unfolding earlier
insert_key k [] = k ∷ []
insert_key k (l ∷ ls) = let rest = insert_key k ls in if earlier l k then l ∷ rest else k ∷ l ∷ ls

unfoldable pub sort_keys : List (ℕ × ℕ) → List (ℕ × ℕ)
unfolding insert_key
sort_keys [] = []
sort_keys (k ∷ ks) = insert_key k (sort_keys ks)

-- The ids of the first `limit` keys.
unfoldable pub first_ids : ℕ → List (ℕ × ℕ) → List ℕ
unfolding sort_keys
first_ids limit keys = map (λ k. k.1) (take limit (sort_keys keys))

unfoldable pub is_expired : Text → ℕ → JobRow → Bool
is_expired queue now r =
    text_eq r.queue queue
    && (is_terminal r.status && elim r.expires_at [ none ↦ false | some at ↦ leb at now ])

abbrev pub or_zero : Option ℕ → ℕ
or_zero none = 0
or_zero (some n) = n

-- Deletes the rows of the ids.
unfoldable pub purge_fate : List ℕ → JobRow → Fate JobRow
unfolding has_id
purge_fate ids r = if has_id ids r.id then remove else keep

unfoldable pub purge_expired_jobs : Handle → ℕ → (ℕ → Bool) → Store → Store × ℕ
unfolding purge_fate first_ids is_expired select
purge_expired_jobs h now locked s =
    let doomed = select (λ r. is_expired h.name now r && not (locked r.id)) s.jobs in
    let ids = first_ids h.sweep_batch_size (map (λ r. (or_zero r.expires_at, r.id)) doomed) in
    (record s { jobs = apply (purge_fate ids) s.jobs }, length (removed (purge_fate ids) s.jobs))

-- `expires_at <= now() - 2 * grace`.
is_long_gone : Text → ℕ → ℕ → WorkerRow → Bool
is_long_gone queue now grace_ms w =
    text_eq w.queue queue && leb (after_ms w.expires_at (2 * grace_ms)) now

purge_lease_fate : List ℕ → WorkerRow → Fate WorkerRow
unfolding has_id
purge_lease_fate ids w = if has_id ids w.id then remove else keep

unfoldable pub purge_worker_leases : Handle → ℕ → (ℕ → Bool) → Store → Store × ℕ
unfolding purge_lease_fate first_ids is_long_gone select
purge_worker_leases h now locked s =
    let gone =
      select (λ w. is_long_gone h.name now h.sweep_grace_ms w && not (locked w.id)) s.workers in
    let ids = first_ids h.sweep_batch_size (map (λ w. (w.expires_at, w.id)) gone) in
    (
      record s { workers = apply (purge_lease_fate ids) s.workers },
      length (removed (purge_lease_fate ids) s.workers),
    )

has_name : Option Text → JobRow → Bool
has_name none r = true
has_name (some name) r = text_eq r.name name

is_purgeable : Text → Option Text → JobRow → Bool
unfolding has_name
is_purgeable queue name r = text_eq r.queue queue && (is_queued r.status && has_name name r)

unfoldable pub purge_queued_fate : List ℕ → JobRow → Fate JobRow
unfolding has_id
purge_queued_fate ids r = if has_id ids r.id && is_queued r.status then remove else keep

unfoldable pub purge_queued_jobs :
    Handle → (ℕ → Bool) → Option Text → ℕ → Store → Result (Store × ℕ)
unfolding purge_queued_fate first_ids is_purgeable select
purge_queued_jobs h locked name limit s =
    let doomed = select (λ r. is_purgeable h.name name r && not (locked r.id)) s.jobs in
    let ids = first_ids limit (map (λ r. (r.scheduled_at, r.id)) doomed) in
    let fate = purge_queued_fate ids in
    if limit == 0
    then err (config bad_limit)
    else ok (record s { jobs = apply fate s.jobs }, length (removed fate s.jobs))
