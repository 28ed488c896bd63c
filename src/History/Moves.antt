-- ===== src/History/Moves.antt =====
-- The lifecycle of a row, as the doc comment of `JobStatus` draws it: the one relation that every
-- statement on a row obeys.
use ironqueue.Common.{ℕ, suc, ◌≡◌, ◌≢◌, ◌⊎◌, true, none, some}
use ironqueue.Job.Status.{queued, running, aborting, complete, failed, aborted, is_terminal}
use ironqueue.Database.Statement.{Fate, remove, write}
use ironqueue.Database.Row.{JobRow, is_swept_marked}

-- The row still names the same job.
pub record SameJob (r r' : JobRow) : Type 0 where
  pub same_id : r'.id ≡ r.id
  pub same_queue : r'.queue ≡ r.queue
  pub same_dedupe_key : r'.dedupe_key ≡ r.dedupe_key

pub data Moves (r r' : JobRow) : Type 0 where
  -- A side column is written; nothing that guards an attempt changes.
  annotate :
      r'.status ≡ r.status
      → r'.attempts ≡ r.attempts
      → r'.result ≡ r.result
      → r'.error ≡ r.error
      → r'.worker_id ≡ r.worker_id
      → Moves r r'
  claim :
      (owner : ℕ)
      → r.status ≡ queued
      → r'.status ≡ running
      → r'.attempts ≡ suc r.attempts
      → r'.worker_id ≡ some owner
      → Moves r r'
  -- A running or swept attempt goes back to the queue and loses its owner.
  give_back :
      (r.status ≡ running) ⊎ ((r.status ≡ aborting) × (is_swept_marked r.error r.result ≡ true))
      → r'.status ≡ queued
      → r'.attempts ≡ r.attempts
      → r'.worker_id ≡ none
      → Moves r r'
  withdraw :
      r.status ≡ queued
      → r'.status ≡ aborted
      → r'.attempts ≡ r.attempts
      → r'.worker_id ≡ r.worker_id
      → Moves r r'
  -- A user asks a running or swept attempt to abort, which leaves no marker.
  cancel :
      (r.status ≡ running) ⊎ ((r.status ≡ aborting) × (is_swept_marked r.error r.result ≡ true))
      → r'.status ≡ aborting
      → r'.attempts ≡ r.attempts
      → r'.worker_id ≡ r.worker_id
      → r'.result ≡ none
      → Moves r r'
  -- The sweeper asks a running attempt to abort.
  mark :
      r.status ≡ running
      → r'.status ≡ aborting
      → r'.attempts ≡ r.attempts
      → r'.worker_id ≡ r.worker_id
      → Moves r r'
  finish :
      (r.status ≡ running) ⊎ ((r.status ≡ aborting) × (is_swept_marked r.error r.result ≡ true))
      → is_terminal (r'.status) ≡ true
      → r'.attempts ≡ r.attempts
      → r'.worker_id ≡ r.worker_id
      → Moves r r'
  acknowledge :
      r.status ≡ aborting
      → r'.status ≡ aborted
      → r'.attempts ≡ r.attempts
      → r'.worker_id ≡ r.worker_id
      → Moves r r'

-- Why a statement may delete a row: it ended and its retention is over, it still waits, or it ends now
-- and its outcome is kept for no time.
pub data Removable (r : JobRow) : Type 0 where
  waiting : r.status ≡ queued → Removable r
  retired :
      (at : ℕ)
      → (r.status ≡ complete) ⊎ (r.status ≡ failed) ⊎ (r.status ≡ aborted)
      → r.expires_at ≡ some at
      → Removable r
  unretained :
      (r.status ≡ running) ⊎ (r.status ≡ aborting)
      → (r.result_ttl_ms ≡ some 0) ⊎ (r.failed_ttl_ms ≡ some 0)
      → Removable r

-- The statement does not delete the row, or may.
abbrev pub Spares : (JobRow → Fate JobRow) → JobRow → Type 0
Spares fate r = (fate r ≢ remove) ⊎ Removable r

abbrev pub Lawful : (JobRow → Fate JobRow) → Type 0
Lawful fate = (r r' : JobRow) → fate r ≡ write r' → SameJob r r' × Moves r r'
