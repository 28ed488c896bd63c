-- ===== src/History/Integrity.antt =====
-- The CHECK constraints of the jobs table over whole histories.
use ironqueue.Common.{ℕ, sym, subst, Option, List, [], ◌∷◌, All, All-append}
use ironqueue.Job.Json.{Value}
use ironqueue.Job.Config.{Calendar}
use ironqueue.Database.Statement.{apply, apply-All}
use ironqueue.Database.Row.{JobRow, Store, Handle}
use ironqueue.Database.Dequeue.{before}
use ironqueue.History.Checks.{Checks}
use ironqueue.History.Calls.{Call, generated, perform, run}
use ironqueue.History.Evolution.{optional, Evolution}
use ironqueue.History.Performs.{perform-Evolution}

Evolution-Checks :
    (g : Option ℕ) (before after : List JobRow)
    → Evolution g before after
    → All Checks before
    → All Checks after
Evolution-Checks g before after e h = subst (All Checks) (sym e.is) (
    All-append Checks (apply e.fate before) (optional e.added)
      (apply-All Checks e.fate e.checked before h) (e.sound h))

-- From a table whose rows satisfy the constraints of `Checks` every history of calls leads to one whose
-- rows do: attempts within `max_attempts` and that within 1 and 2147483646, a try left on a queued row,
-- a start on a running or aborting row, errors and durations in their ranges.
pub run-Checks :
    (calendar : Calendar) (chunks : Value → List ℕ) (cs : List (Handle × Call)) (s : Store)
    → All Checks s.jobs
    → All Checks (run calendar chunks cs s).jobs
unfolding run
run-Checks calendar chunks [] s h = h
run-Checks calendar chunks ((d, c) ∷ cs) s h =
    run-Checks calendar chunks cs (perform calendar chunks d c s) (
      Evolution-Checks (generated c) s.jobs (perform calendar chunks d c s).jobs
        (perform-Evolution calendar chunks d c s) h)
