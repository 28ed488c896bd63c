-- ===== src/History/Additions.antt =====
-- The calls that add a row: a publish and a manual retry.
use ironqueue.Common.{
  ℕ, ◌≤◌, ◌<◌, ◌≡◌, refl, inl, inr, Bool, false, Option, none, some, List, [], ◌∷◌, arith,
  Bool-cases, length, any, All, Text, text_eq→eq, Result, err, ok, ◌>>◌,
}
use ironqueue.Job.Status.{queued}
use ironqueue.Job.Json.{Value}
use ironqueue.Job.Config.{validate_config, JobRequest, Calendar, validate_request, validate_enqueue}
use ironqueue.Job.Stored.{max_stored_error_bytes}
use ironqueue.Database.Statement.{write, written, written-All}
use ironqueue.Database.Row.{JobRow, Store, Handle, attempts_ceiling}
use ironqueue.Job.Bounds.{
  valid-attempts, valid-timeout, valid-retention, valid-failed_retention, valid-retry_delay,
}
use ironqueue.Database.Abort.{
  retry_fate, retried_key, fresh_occurrence, holds_key, retry_source, retry_occurrence,
}
use ironqueue.Database.Enqueue.{
  new_row, live_dedupe_holder, insert_or_report, publish, enqueue_validated, enqueue_raw,
}
use ironqueue.History.Lawful.{retry-Lawful}
use ironqueue.History.Removals.{spared, retry-Removable}
use ironqueue.History.Checks.{Checks, retry-Checked, fresh-Checks}
use ironqueue.History.Calls.{state_after, unchanged_by}
use ironqueue.History.Evolution.{Evolution, rests, inserts}

validate_enqueue-config :
    (calendar : Calendar) (chunks : Value → List ℕ) (now : ℕ) (q : JobRequest) (d : Option ℕ)
    → validate_enqueue calendar chunks now q d ≡ ok tt
    → validate_config q.config ≡ ok tt
unfolding validate_enqueue validate_request
validate_enqueue-config calendar chunks now q d h = ground arith

new_row-Checks :
    (h : Handle) (now id : ℕ) (awaited : Bool) (q : JobRequest) (d : Option ℕ)
    → validate_config q.config ≡ ok tt
    → Checks (new_row h now id awaited q d)
unfolding new_row
new_row-Checks h now id awaited q d v = record {
  max_positive = (valid-attempts q.config v).0;
  max_capped = (valid-attempts q.config v).1;
  attempts_capped = omega arith;
  queued_spare = λ e. (valid-attempts q.config v).0;
  running_started = λ e. cc;
  aborting_started = λ e. cc;
  error_short = omega arith;
  delay_range = valid-retry_delay q.config v;
  timeout_range = valid-timeout q.config v;
  result_ttl_range = valid-retention q.config v;
  failed_ttl_range = valid-failed_retention q.config v;
}

pub no_holder-any :
    (q : Text) (k : Option Text) (rows : List JobRow)
    → live_dedupe_holder q k rows ≡ none
    → any (holds_key q k) rows ≡ false
unfolding live_dedupe_holder any
no_holder-any q k [] h = refl
no_holder-any q k (r ∷ rs) h = ground (arith, no_holder-any q k rs)

publish-Evolution :
    (h : Handle) (now : ℕ) (row : JobRow) (notify : Bool) (s : Store) (found : Option JobRow)
    → live_dedupe_holder h.name row.dedupe_key s.jobs ≡ found
    → row.queue ≡ h.name
    → row.status ≡ queued
    → Checks row
    → Evolution
        (some row.id)
        s.jobs
        (state_after s (publish h.name now row notify unchanged_by unchanged_by s found)).jobs
unfolding publish
publish-Evolution h now row notify s (some holder) e q st c = rests s.jobs
publish-Evolution h now row notify s none e q st c =
    rw (e, insert_or_report)
      (inserts s.jobs row (st, rw q (no_holder-any h.name row.dedupe_key s.jobs e)) (λ _. c))

abbrev Retryable : Handle → JobRow → Type 0
Retryable h r = (Checks r) × (r.attempts < attempts_ceiling) × (r.queue ≡ h.name)

retry_source-Retryable :
    (h : Handle) (now id : ℕ) (r r' : JobRow)
    → Checks r
    → retry_fate h.name now id r ≡ write r'
    → Retryable h r'
unfolding retry_fate
retry_source-Retryable h now id r r' c e =
    (retry-Checked h.name now id r r' c e, ground arith, ground (arith, text_eq→eq r.queue h.name))

retry_source_queue :
    (h : Handle) (now id : ℕ) (r r' : JobRow)
    → retry_fate h.name now id r ≡ write r'
    → r'.queue ≡ h.name
unfolding retry_fate
retry_source_queue h now id r r' e = ground (arith, text_eq→eq r.queue h.name)

retry-Evolution :
    (h : Handle) (now clock id new_id : ℕ) (reason : Text) (s : Store) (found : List JobRow)
    → length reason ≤ max_stored_error_bytes
    → All (λ r. r.queue ≡ h.name) found
    → (All Checks s.jobs → All (Retryable h) found)
    → Evolution (some new_id) s.jobs (retry_source h now clock id new_id reason s found).0.jobs
unfolding retry_source
retry-Evolution h now clock id new_id reason s [] short q c = rests s.jobs
retry-Evolution h now clock id new_id reason s (r ∷ rs) short q c =
    elim (Bool-cases (any (holds_key h.name (retried_key r.kind r.dedupe_key)) s.jobs)) [
      | inl held ↦ rw held (rests s.jobs)
      | inr free ↦ rw free (record {
        fate = retry_fate h.name now id;
        lawful = retry-Lawful h.name now id;
        checked = retry-Checked h.name now id;
        spares = λ d. spared (retry_fate h.name now id) (retry-Removable h.name now id) s.jobs;
        added = some (fresh_occurrence clock new_id reason r);
        named = (unfold fresh_occurrence in refl, tt);
        fresh = ((unfold fresh_occurrence in refl, unfold fresh_occurrence in rw (q.0) free), tt);
        sound = λ a. (fresh-Checks clock new_id reason r (c a).0.1 short (c a).0.0, tt);
        is = refl;
      })
    ]

pub retry_occurrence-Evolution :
    (h : Handle) (now clock id new_id : ℕ) (reason : Text) (s : Store)
    → length reason ≤ max_stored_error_bytes
    → Evolution (some new_id) s.jobs (retry_occurrence h now clock id new_id reason s).0.jobs
unfolding retry_occurrence
retry_occurrence-Evolution h now clock id new_id reason s short =
    retry-Evolution h now clock id new_id reason s (written (retry_fate h.name now id) s.jobs) short
      (written-All (λ r. Unit {0}) _ (retry_fate h.name now id)
        (λ r r' _ e. retry_source_queue h now id r r' e) s.jobs (All_trivial s.jobs))
      (written-All Checks _ (retry_fate h.name now id) (retry_source-Retryable h now id) s.jobs)
  where
    All_trivial : (rs : List JobRow) → All (λ r. Unit {0}) rs
    All_trivial [] = tt
    All_trivial (r ∷ rs) = (tt, All_trivial rs)

pub enqueue-Evolution :
    (calendar : Calendar) (chunks : Value → List ℕ) (h : Handle) (now id : ℕ)
    (notify awaited : Bool) (q : JobRequest) (d : Option ℕ) (s : Store)
    → Evolution
        (some id)
        s.jobs
        (state_after s (
          enqueue_raw calendar chunks h now id notify awaited q d unchanged_by unchanged_by s)).jobs
unfolding enqueue_raw
enqueue-Evolution calendar chunks h now id notify awaited q d s =
    go (validate_enqueue calendar chunks now q d) refl
  where
    go :
        (v : Result (Unit {0}))
        → validate_enqueue calendar chunks now q d ≡ v
        → Evolution
            (some id)
            s.jobs
            (state_after s
              (v >> enqueue_validated h now id notify awaited q d unchanged_by unchanged_by s)).jobs
    go (err e) p = rests s.jobs
    go (ok u) p =
        publish-Evolution h now (new_row h now id awaited q d) notify s
          (live_dedupe_holder h.name q.dedupe_key s.jobs) (unfold new_row in refl)
          (unfold new_row in refl) (unfold new_row in refl)
          (new_row-Checks h now id awaited q d (validate_enqueue-config calendar chunks now q d p))
