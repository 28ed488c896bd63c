-- ===== src/Database/Batch.antt =====
-- The batch enqueue of ironqueue/src/database.rs: `validate_batch`, `enqueue_batch_in_result`,
-- `enqueue_batch_validated_in`, `live_dedupe_holders`, `insert_jobs` and `BatchKeyHolder`. The keys'
-- advisory locks make the reads and the insert one step against other enqueues.
pub mod Holders
pub mod Sequence
use mathlib.Core.Option
use ironqueue.Common.{
  ℕ, ◌+◌, Bool, false, not, ◌&&◌, Option, none, some, List, [], ◌∷◌, ◌++◌, map, ltb, ◌==◌,
  if◌then◌else◌, length, any, Text, text_eq, too_many_jobs, too_many_batch_bytes, dropped_keyless,
  short_batch, key_of_other_job, config, dedupe_race, Result, err, ok, ◌>>◌, ◌>>=◌, refuse,
}
use ironqueue.Job.Retention.{JobRetention, from_result_ttl_ms}
use ironqueue.Job.Json.{Value, json_byte_len}
use ironqueue.Job.Config.{JobRequest, Calendar, validate_enqueue}
use ironqueue.Database.Row.{JobRow, Store, Handle}
use ironqueue.Database.Requeue.{is_due, wake}
use ironqueue.Database.Dequeue.{has_id}
use ironqueue.Database.Abort.{is_none}
use ironqueue.Database.Enqueue.{EnqueueResult, inserted, deduplicated, new_row, live_dedupe_holder}

pub record BatchItem : Type 0 where
  pub request : JobRequest
  pub delay : Option ℕ

-- An item with the id generated for it.
pub record BatchJob : Type 0 where
  pub id : ℕ
  pub item : BatchItem

abbrev max_enqueue_batch_jobs : ℕ
max_enqueue_batch_jobs = 1000

abbrev max_enqueue_batch_bytes : ℕ
max_enqueue_batch_bytes = 268435456

module _ (calendar : Calendar) (chunks : Value → List ℕ) where
  -- The loop of `validate_batch` on the bytes so far.
  validate_items : ℕ → ℕ → List BatchItem → Result (Unit {0})
  validate_items now bytes [] = ok tt
  validate_items now bytes (item ∷ rest) =
      let total =
        bytes
        + json_byte_len chunks item.request.payload
        + json_byte_len chunks item.request.meta in
      validate_enqueue calendar chunks now item.request item.delay
      >> refuse (ltb max_enqueue_batch_bytes total) too_many_batch_bytes
      >> validate_items now total rest

  unfoldable pub validate_batch : ℕ → List BatchItem → Result (Unit {0})
  unfolding validate_items
  validate_batch now batch = do
    refuse (ltb max_enqueue_batch_jobs (length batch)) too_many_jobs
    validate_items now 0 batch

pub record BatchKeyHolder : Type 0 where
  pub id : ℕ
  pub name : Text
  pub retention : JobRetention
  pub failed_retention : JobRetention

unfoldable pub holder_result : BatchKeyHolder → EnqueueResult
holder_result b = deduplicated b.id b.name b.retention b.failed_retention

-- `BatchKeyHolder::from` a live row.
unfoldable pub holder_of_row : JobRow → BatchKeyHolder
holder_of_row r = record {
  id = r.id;
  name = r.name;
  retention = from_result_ttl_ms r.result_ttl_ms;
  failed_retention = from_result_ttl_ms r.failed_ttl_ms;
}

-- The holder that the first job of the batch under a key becomes.
unfoldable pub holder_of_job : BatchJob → BatchKeyHolder
holder_of_job j = record {
  id = j.id;
  name = j.item.request.name;
  retention = j.item.request.config.retention;
  failed_retention = j.item.request.config.failed_retention;
}

-- The map from keys to holders.
abbrev pub Holders : Type 0
Holders = Text → Option BatchKeyHolder

unfoldable pub put : Text → BatchKeyHolder → Holders → Holders
put key holder holders k = if text_eq k key then some holder else holders k

unfoldable pub batch_keys : List BatchJob → List Text
batch_keys [] = []
batch_keys (j ∷ js) = elim j.item.request.dedupe_key [
  | none ↦ batch_keys js
  | some key ↦ key ∷ batch_keys js
]

-- `live_dedupe_holders`, as the map that the caller fills from it.
unfoldable pub live_dedupe_holders : Text → List Text → List JobRow → Holders
live_dedupe_holders queue keys rows key =
    if any (text_eq key) keys
    then Option.map holder_of_row (live_dedupe_holder queue (some key) rows)
    else none

pub record Admitted : Type 0 where
  pub rows : List BatchJob
  pub results : List EnqueueResult

unfoldable pub admit_row : BatchJob → Result Admitted → Result Admitted
admit_row j (err e) = err e
admit_row j (ok a) = ok (record { rows = j ∷ a.rows; results = inserted j.id ∷ a.results })

unfoldable pub admit_result : EnqueueResult → Result Admitted → Result Admitted
admit_result r (err e) = err e
admit_result r (ok a) = ok (record { rows = a.rows; results = r ∷ a.results })

-- The loop that sorts the batch into rows to insert and results.
unfoldable pub admit : Holders → List BatchJob → Result Admitted
unfolding admit_row admit_result holder_result
admit holders [] = ok (record { rows = []; results = [] })
admit holders (j ∷ js) = elim j.item.request.dedupe_key [
  | none ↦ admit_row j (admit holders js)
  | some key ↦ elim (holders key) [
    | some holder ↦
        if text_eq holder.name j.item.request.name
        then admit_result (holder_result holder) (admit holders js)
        else err (config (key_of_other_job key))
    | none ↦ admit_row j (admit (put key (holder_of_job j) holders) js)
  ]
]

-- INSERT .. ON CONFLICT DO NOTHING, row by row: the table and the ids that landed.
unfoldable pub insert_all : Handle → ℕ → List BatchJob → List JobRow → List JobRow × List ℕ
insert_all h now [] rows = (rows, [])
insert_all h now (j ∷ js) rows = elim (live_dedupe_holder h.name j.item.request.dedupe_key rows) [
  | some blocker ↦ insert_all h now js rows
  | none ↦
      let rest =
        insert_all h now js (rows ++ new_row h now j.id false j.item.request j.item.delay ∷ []) in
      (rest.0, j.id ∷ rest.1)
]

-- Whether a row that landed is due.
any_due : ℕ → List ℕ → List JobRow → Bool
any_due now ids rows = any (λ r. has_id ids r.id && is_due now r) rows

unfoldable pub insert_jobs : Handle → ℕ → Bool → List BatchJob → Store → Store × List ℕ
unfolding any_due
insert_jobs h now notify js s =
    let landed = insert_all h now js s.jobs in
    (
      record s {
        jobs = landed.0;
        notices = wake (notify && any_due now landed.1 landed.0) s.notices;
      },
      landed.1,
    )

-- What a row that DO NOTHING swallowed is replaced by.
unfoldable pub replacement_of : Text → BatchJob → Option JobRow → Result BatchKeyHolder
replacement_of key j none = err (dedupe_race key)
replacement_of key j (some holder) =
    if text_eq holder.name j.item.request.name
    then ok (holder_of_row holder)
    else err (config (key_of_other_job key))

unfoldable pub replace_swallowed :
    Text → List ℕ → List JobRow → BatchJob → Option Text → Holders → Result Holders
replace_swallowed queue landed rows j none replaced = err (config dropped_keyless)
replace_swallowed queue landed rows j (some key) replaced = do
  holder ← replacement_of key j (live_dedupe_holder queue (some key) rows)
  ok (put key holder replaced)

unfoldable pub replacements : Text → List ℕ → List JobRow → List BatchJob → Holders → Result Holders
unfolding replace_swallowed
replacements queue landed rows [] replaced = ok replaced
replacements queue landed rows (j ∷ js) replaced =
    if has_id landed j.id
    then replacements queue landed rows js replaced
    else replace_swallowed queue landed rows j j.item.request.dedupe_key replaced
      >>= replacements queue landed rows js

patch : Holders → Option Text → EnqueueResult → EnqueueResult
patch replaced none r = r
patch replaced (some key) r = elim (replaced key) [ none ↦ r | some holder ↦ holder_result holder ]

unfoldable pub patch_all : Holders → List BatchJob → List EnqueueResult → List EnqueueResult
unfolding patch
patch_all replaced [] rs = rs
patch_all replaced (j ∷ js) [] = []
patch_all replaced (j ∷ js) (r ∷ rs) =
    patch replaced j.item.request.dedupe_key r ∷ patch_all replaced js rs

-- After the insert: done, or the swallowed rows' holders are read again.
unfoldable pub resolve_batch :
    Handle
    → List BatchJob
    → Admitted
    → Store
    → List ℕ
    → (Store → Store)
    → Result (Store × List EnqueueResult)
resolve_batch h batch a s landed later =
    if length landed == length a.rows then ok (s, a.results) else do
      replaced ← replacements h.name landed (later s).jobs a.rows (λ key. none)
      ok (later s, patch_all replaced batch a.results)

-- `enqueue_batch_validated_in`. `between` and `later` are what writers that do not take the keys'
-- locks commit before the insert and before the second read.
unfoldable pub enqueue_batch_validated :
    Handle
    → ℕ
    → Bool
    → (Store → Store)
    → (Store → Store)
    → List BatchJob
    → Store
    → Result (Store × List EnqueueResult)
unfolding batch_keys resolve_batch
enqueue_batch_validated h now notify between later batch s = do
  a ← admit (live_dedupe_holders h.name (batch_keys batch) s.jobs) batch
  let landed = insert_jobs h now notify a.rows (between s)
  resolve_batch h batch a landed.0 landed.1 later

-- The ids are generated in the order of the batch.
unfoldable pub with_ids : List ℕ → List BatchItem → List BatchJob
with_ids ids [] = []
with_ids [] (i ∷ is) = []
with_ids (n ∷ ns) (i ∷ is) = record { id = n; item = i } ∷ with_ids ns is

is_keyed : BatchItem → Bool
is_keyed item = not (is_none item.request.dedupe_key)

-- The keyless rows of `enqueue_batch_result`, inserted without a transaction of their own.
keyless_batch : Handle → ℕ → Bool → List BatchJob → Store → Result (Store × List EnqueueResult)
keyless_batch h now notify jobs s =
    let landed = insert_jobs h now notify jobs s in
    if length landed.1 == length jobs
    then ok (landed.0, map (λ j. inserted j.id) jobs)
    else err (config short_batch)

module _ (calendar : Calendar) (chunks : Value → List ℕ) where
  -- `enqueue_batch_in_result`, in the caller's transaction.
  unfoldable pub enqueue_batch_in :
      Handle
      → ℕ
      → List ℕ
      → Bool
      → (Store → Store)
      → (Store → Store)
      → List BatchItem
      → Store
      → Result (Store × List EnqueueResult)
  enqueue_batch_in h now ids notify between later batch s = do
    validate_batch calendar chunks now batch
    if length batch == 0
        then ok (s, [])
        else enqueue_batch_validated h now notify between later (with_ids ids batch) s

  -- `enqueue_batch_result`, in a transaction of its own.
  unfoldable pub enqueue_batch :
      Handle
      → ℕ
      → List ℕ
      → Bool
      → (Store → Store)
      → (Store → Store)
      → List BatchItem
      → Store
      → Result (Store × List EnqueueResult)
  unfolding is_keyed keyless_batch
  enqueue_batch h now ids notify between later batch s = do
    validate_batch calendar chunks now batch
    if length batch == 0
        then ok (s, [])
        else if any is_keyed batch
        then enqueue_batch_validated h now notify between later (with_ids ids batch) s
        else keyless_batch h now notify (with_ids ids batch) s
