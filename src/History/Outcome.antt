-- ===== src/History/Outcome.antt =====
-- The outcome of a job over whole histories.
use ironqueue.Common.{ℕ, ◌≡◌, sym, ap, ◌∙◌, ◌≢◌, true, Option, List, arith, All, Text}
use ironqueue.Job.Status.{JobStatus, is_terminal}
use ironqueue.Job.Json.{Value}
use ironqueue.Job.Config.{Calendar}
use ironqueue.Database.Row.{JobRow, Store, Handle}
use ironqueue.History.Moves.{SameJob, Moves}
use ironqueue.History.Calls.{Call, run}
use ironqueue.History.Induction.{NeverAdds, run-All}

-- A row under another id, or one with this outcome.
pub data Keeps (id n : ℕ) (st : JobStatus) (v : Option Value) (e : Option Text) (r : JobRow)
    : Type 0 where
  elsewhere : r.id ≢ id → Keeps id n st v e r
  here : r.status ≡ st → r.attempts ≡ n → r.result ≡ v → r.error ≡ e → Keeps id n st v e r

terminal-Moves :
    (r r' : JobRow)
    → is_terminal r.status ≡ true
    → Moves r r'
    → (r'.status ≡ r.status)
      × (r'.attempts ≡ r.attempts)
      × (r'.result ≡ r.result)
      × (r'.error ≡ r.error)
unfolding is_terminal
terminal-Moves r r' t m = grind arith

Keeps-Moves :
    (id n : ℕ) (st : JobStatus) (v : Option Value) (e : Option Text) (r r' : JobRow)
    → is_terminal st ≡ true
    → Keeps id n st v e r
    → SameJob r r'
    → Moves r r'
    → Keeps id n st v e r'
Keeps-Moves id n st v e r r' t (elsewhere o) j m = elsewhere (λ same. o (sym (j.same_id) ∙ same))
Keeps-Moves id n st v e r r' t (here a b c d) j m =
    let q = terminal-Moves r r' (ap is_terminal a ∙ t) m in
    here (q.0 ∙ a) (q.1 ∙ b) (q.2 ∙ c) (q.3 ∙ d)

-- A terminal job keeps its status, its attempts, its result and its error through every history
-- whose calls do not add its id again.
pub run-Keeps :
    (calendar : Calendar) (chunks : Value → List ℕ) (cs : List (Handle × Call)) (s : Store)
    (id n : ℕ) (st : JobStatus) (v : Option Value) (e : Option Text)
    → is_terminal st ≡ true
    → NeverAdds id cs
    → All (Keeps id n st v e) s.jobs
    → All (Keeps id n st v e) (run calendar chunks cs s).jobs
run-Keeps calendar chunks cs s id n st v e t =
    run-All calendar chunks (Keeps id n st v e) id
      (λ r r' k j m. Keeps-Moves id n st v e r r' t k j m) (λ r o. elsewhere o) cs s
