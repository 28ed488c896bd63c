-- ===== src/History/Verdicts.antt =====
-- How a worker hears of an abort: `aborting_of` after the statements that ask for one.
use ironqueue.Common.{
  ℕ, ◌≡◌, refl, ◌≢◌, true, false, ◌&&◌, some, List, [], ◌∷◌, arith, ◌==◌, same_id_refl, select,
  Text, text_eq,
}
use ironqueue.Job.Status.{running}
use ironqueue.Job.Json.{is_string}
use ironqueue.Database.Statement.{Fate, keep, remove, write, settle, apply}
use ironqueue.Database.Row.{JobRow, Store, Handle, is_swept_marked}
use ironqueue.Database.Abort.{abort_requested, abort_fate, abort_row}
use ironqueue.Database.Lease.{aborting_for, find_row, judge, aborting_of}
use ironqueue.History.Moves.{SameJob}
use ironqueue.History.Lawful.{abort-Lawful}

find_row-apply :
    (q : Text) (id : ℕ) (fate : JobRow → Fate JobRow) (r r' : JobRow)
    → fate r ≡ write r'
    → ((x x' : JobRow) → fate x ≡ write x' → SameJob x x')
    → ((x : JobRow) → fate x ≢ remove)
    → (rs : List JobRow) → find_row id (select (λ x. text_eq x.queue q) rs) ≡ some r
    → find_row id (select (λ x. text_eq x.queue q) (apply fate rs)) ≡ some r'
unfolding find_row select apply settle
find_row-apply q id fate r r' w same kept [] e = ground arith
find_row-apply q id fate r r' w same kept (x ∷ xs) e =
    go (fate x) refl (find_row-apply q id fate r r' w same kept xs)
  where
    go :
        (f : Fate JobRow)
        → fate x ≡ f
        → (find_row id (select (λ x. text_eq x.queue q) xs) ≡ some r
            → find_row id (select (λ x. text_eq x.queue q) (apply fate xs)) ≡ some r')
        → find_row id (select (λ x. text_eq x.queue q) (settle f x (apply fate xs))) ≡ some r'
    go keep k rest = ground (arith, rest)
    go remove k rest = absurd (kept x k)
    go (write x') k rest = ground (arith, rest, same x x' k)

abort-SameJob :
    (q : Text) (now id : ℕ) (reason : Text) (r r' : JobRow)
    → abort_fate q now id reason r ≡ write r'
    → SameJob r r'
abort-SameJob q now id reason r r' e = (abort-Lawful q now id reason r r' e).0

abort-removes :
    (q : Text) (now id : ℕ) (reason : Text) (r : JobRow) → abort_fate q now id reason r ≢ remove
unfolding abort_fate
abort-removes q now id reason r e = ground arith

-- The row that the claim names is the row of its queue and id.
find_row-is :
    (q : Text) (id : ℕ) (rs : List JobRow) (r : JobRow)
    → find_row id (select (λ x. text_eq x.queue q) rs) ≡ some r
    → (r.id == id) && text_eq r.queue q ≡ true
unfolding find_row select
find_row-is q id [] r e = ground arith
find_row-is q id (x ∷ xs) r e = ground (arith, find_row-is q id xs r)

asks :
    (q : Text) (now id : ℕ) (reason : Text) (r : JobRow)
    → (r.id == id) && text_eq r.queue q ≡ true
    → r.status ≡ running
    → abort_fate q now id reason r ≡ write (abort_requested now reason r)
unfolding abort_fate
asks q now id reason r h st = ground arith

judged :
    (now : ℕ) (reason : Text) (r : JobRow) (worker_id : ℕ)
    → r.status ≡ running
    → r.worker_id ≡ some worker_id
    → judge r.attempts worker_id (some (abort_requested now reason r))
      ≡ aborting_for (some reason) false
unfolding judge abort_requested is_swept_marked is_string
judged now reason r worker_id st w = ground (arith, same_id_refl (some worker_id))

-- A worker hears of a user's abort as such: after `abort` on a running claim, `aborting_of` answers the
-- worker that owns the claim with the reason, and not with the sweeper's marker.
pub abort-heard :
    (h : Handle) (now id : ℕ) (reason : Text) (s : Store) (r : JobRow) (worker_id : ℕ)
    → find_row id (select (λ x. text_eq x.queue h.name) s.jobs) ≡ some r
    → r.status ≡ running
    → r.worker_id ≡ some worker_id
    → aborting_of h id r.attempts worker_id (abort_row h now id reason s).0.jobs
      ≡ aborting_for (some reason) false
unfolding aborting_of abort_row
abort-heard h now id reason s r worker_id e st w =
    let f =
      find_row-apply h.name id (abort_fate h.name now id reason) r (abort_requested now reason r)
        (asks h.name now id reason r (find_row-is h.name id s.jobs r e) st)
        (abort-SameJob h.name now id reason) (abort-removes h.name now id reason) s.jobs e in
    rw f (judged now reason r worker_id st w)
