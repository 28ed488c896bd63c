-- ===== src/History/Induction.antt =====
-- Induction over the calls of a history.
use ironqueue.Common.{
  ℕ, ◌≡◌, sym, ap, subst, ◌∙◌, ◌≢◌, Option, none, some, List, [], ◌∷◌, All, All-append,
}
use ironqueue.Job.Json.{Value}
use ironqueue.Job.Config.{Calendar}
use ironqueue.Database.Statement.{apply, apply-All}
use ironqueue.Database.Row.{JobRow, Store, Handle}
use ironqueue.Database.Dequeue.{before}
use ironqueue.History.Moves.{SameJob, Moves}
use ironqueue.History.Calls.{Call, generated, perform, run}
use ironqueue.History.Evolution.{optional, Evolution}
use ironqueue.History.Performs.{perform-Evolution}

-- What the moves of a row preserve, and a new row has, every row of the evolved table has.
Evolution-All {κ} :
    (P : JobRow → Type κ) (g : Option ℕ) (before after : List JobRow)
    → Evolution g before after
    → ((r r' : JobRow) → P r → SameJob r r' → Moves r r' → P r')
    → ((r : JobRow) → some r.id ≡ g → P r)
    → All P before
    → All P after
Evolution-All P g before after e moved new h = subst (All P) (sym e.is) (
    All-append P (apply e.fate before) (optional e.added)
      (apply-All P e.fate (λ r r' p w. moved r r' p (e.lawful r r' w).0 (e.lawful r r' w).1) before
        h)
      (optional-All e.added e.named))
  where
    optional-All : (a : Option JobRow) → All (λ r. some r.id ≡ g) (optional a) → All P (optional a)
    optional-All none n = tt
    optional-All (some r) n = (new r n.0, tt)

-- No call of the history gives a new row this id.
abbrev pub NeverAdds : ℕ → List (Handle × Call) → Type 0
NeverAdds id cs = All (λ hc. generated hc.1 ≢ some id) cs

module _ (calendar : Calendar) (chunks : Value → List ℕ) where
  -- What the moves of a row preserve holds of every row under an id that no call adds again.
  pub run-All {κ} :
      (P : JobRow → Type κ) (id : ℕ)
      → ((r r' : JobRow) → P r → SameJob r r' → Moves r r' → P r')
      → ((r : JobRow) → r.id ≢ id → P r)
      → (cs : List (Handle × Call)) (s : Store) → NeverAdds id cs
      → All P s.jobs
      → All P (run calendar chunks cs s).jobs
  unfolding run
  run-All P id moved other [] s n h = h
  run-All P id moved other ((d, c) ∷ cs) s n h =
      run-All P id moved other cs (perform calendar chunks d c s) n.1 (
        Evolution-All P (generated c) s.jobs (perform calendar chunks d c s).jobs
          (perform-Evolution calendar chunks d c s) moved
          (λ r e. other r (λ same. n.0 (sym e ∙ ap some same))) h)
