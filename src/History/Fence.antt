-- ===== src/History/Fence.antt =====
-- An attempt that was ended: what no later statement under its guard can undo.
use ironqueue.Common.{ℕ, ◌<◌, ◌≡◌, sym, ◌∙◌, ◌≢◌, Bool, false, ◌||◌, arith}
use ironqueue.Job.Status.{JobStatus}
use ironqueue.Database.Row.{JobRow, is_running, is_aborting}
use ironqueue.History.Moves.{SameJob, Moves}

abbrev pub is_active : JobStatus → Bool
is_active st = is_running st || is_aborting st

-- A row under another id, or one that this attempt no longer runs on.
pub data Fenced (id n : ℕ) (r : JobRow) : Type 0 where
  elsewhere : r.id ≢ id → Fenced id n r
  later : n < r.attempts → Fenced id n r
  idle : r.attempts ≡ n → is_active r.status ≡ false → Fenced id n r

pub Fenced-Moves :
    (id n : ℕ) (r r' : JobRow) → Fenced id n r → SameJob r r' → Moves r r' → Fenced id n r'
Fenced-Moves id n r r' (elsewhere o) j m = elsewhere (λ same. o (sym (j.same_id) ∙ same))
Fenced-Moves id n r r' (later l) j m = later (grind arith)
Fenced-Moves id n r r' (idle a b) j m = grind (arith, later, idle)
