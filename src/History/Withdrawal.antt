-- ===== src/History/Withdrawal.antt =====
-- A user's abort is final: no path of the crate requeues the job afterwards.
use ironqueue.Common.{
  ℕ, ◌≡◌, sym, ap, subst, ◌∙◌, ◌≢◌, true, false, Option, List, arith, All, Text, ok,
}
use ironqueue.Job.Status.{JobStatus, aborting, aborted, is_terminal}
use ironqueue.Job.Json.{Value, is_string}
use ironqueue.Job.Config.{Calendar}
use ironqueue.Database.Statement.{keep, write, removed}
use ironqueue.Database.Row.{JobRow, Store, Handle, AttemptGuard, is_aborted, is_swept_marked}
use ironqueue.Database.Requeue.{RequeueGuards, requeue_fate, requeue_guarded}
use ironqueue.Database.Finish.{finish_attempt_fate, finish_with_guards}
use ironqueue.Database.Abort.{abort_fate, abort_row}
use ironqueue.History.Moves.{SameJob, Moves}
use ironqueue.History.Calls.{Call, run}
use ironqueue.Database.Refusals.{nonempty-append}
use ironqueue.History.Induction.{NeverAdds, run-All}
use ironqueue.History.Target.{apply-target}
use ironqueue.History.Refusal.{finish-refused_when, requeue-refused_when}
use ironqueue.Database.Limits.{Distinct}

-- A row under another id, one that is aborted, or one that is aborting without the sweeper's marker.
pub data Withdrawn (id : ℕ) (r : JobRow) : Type 0 where
  elsewhere : r.id ≢ id → Withdrawn id r
  gone : r.status ≡ aborted → Withdrawn id r
  asked : r.status ≡ aborting → is_swept_marked r.error r.result ≡ false → Withdrawn id r

pub Withdrawn-Moves :
    (id : ℕ) (r r' : JobRow) → Withdrawn id r → SameJob r r' → Moves r r' → Withdrawn id r'
unfolding is_terminal
Withdrawn-Moves id r r' (elsewhere o) j m = elsewhere (λ same. o (sym (j.same_id) ∙ same))
Withdrawn-Moves id r r' (gone a) j m = grind (arith, gone)
Withdrawn-Moves id r r' (asked a b) j m = grind (arith, gone, asked)

abort-Withdrawn :
    (q : Text) (now id : ℕ) (reason : Text) (r r' : JobRow)
    → abort_fate q now id reason r ≡ write r'
    → Withdrawn id r'
unfolding abort_fate is_swept_marked is_string
abort-Withdrawn q now id reason r r' h = grind (arith, gone, asked)

abort_targets :
    (q : Text) (now id : ℕ) (reason : Text) (r : JobRow)
    → r.id ≢ id
    → abort_fate q now id reason r ≡ keep
unfolding abort_fate
abort_targets q now id reason r o = ground arith

pub aborted-Withdrawn :
    (h : Handle) (now id : ℕ) (reason : Text) (s : Store)
    → Distinct s.jobs
    → (abort_row h now id reason s).1 ≡ true
    → All (Withdrawn id) (abort_row h now id reason s).0.jobs
unfolding abort_row
aborted-Withdrawn h now id reason s d w =
    apply-target (Withdrawn id) id (abort_fate h.name now id reason) (λ r o. elsewhere o)
      (abort_targets h.name now id reason) (abort-Withdrawn h.name now id reason) s.jobs d
      (nonempty-append (removed (abort_fate h.name now id reason) s.jobs) _ w)

pub requeue-keeps :
    (q : Text) (now : ℕ) (g : AttemptGuard) (e : Option Text) (d : ℕ) (gs : RequeueGuards)
    (r : JobRow)
    → Withdrawn g.id r
    → requeue_fate q now g e d gs r ≡ keep
unfolding requeue_fate
requeue-keeps q now g e d gs r (elsewhere o) = ground arith
requeue-keeps q now g e d gs r (gone a) = ground arith
requeue-keeps q now g e d gs r (asked a b) = ground arith

pub finish-keeps :
    (q : Text) (now : ℕ) (g : AttemptGuard) (st : JobStatus) (v : Option Value) (e : Option Text)
    (r : JobRow)
    → is_aborted st ≡ false
    → Withdrawn g.id r
    → finish_attempt_fate q now g st v e r ≡ keep
unfolding finish_attempt_fate
finish-keeps q now g st v e r n (elsewhere o) = ground arith
finish-keeps q now g st v e r n (gone a) = ground arith
finish-keeps q now g st v e r n (asked a b) = ground arith

-- A user's abort is final. Once `abort` succeeded for a job, on a table without duplicate ids, then
-- after every history of calls that do not add its id again each row of the job is aborted, or
-- aborting without the sweeper's marker; a requeue under any guard and any options reports false and
-- leaves the jobs as they are, and so does a finish as complete or failed.
pub abort-final :
    (calendar : Calendar) (chunks : Value → List ℕ) (cs : List (Handle × Call)) (h h' : Handle)
    (now now' id : ℕ) (reason : Text) (g : AttemptGuard) (e : Option Text) (d : ℕ)
    (gs : RequeueGuards) (st : JobStatus) (v : Option Value) (s t : Store)
    → Distinct s.jobs
    → abort_row h now id reason s ≡ (t, true)
    → NeverAdds id cs
    → g.id ≡ id
    → is_terminal st ≡ true
    → is_aborted st ≡ false
    → All (Withdrawn id) (run calendar chunks cs t).jobs
      × ((requeue_guarded h' now' g e d gs (run calendar chunks cs t)).1 ≡ false)
      × ((requeue_guarded h' now' g e d gs (run calendar chunks cs t)).0.jobs
          ≡ (run calendar chunks cs t).jobs)
      × (finish_with_guards h' now' g st v e (run calendar chunks cs t)
          ≡ ok (run calendar chunks cs t, false))
abort-final calendar chunks cs h h' now now' id reason g e d gs st v s t dist w n same term st_no =
    let u = run calendar chunks cs t in
    let f =
      run-All calendar chunks (Withdrawn id) id (Withdrawn-Moves id) (λ r o. elsewhere o) cs t n
        (subst (λ x. All (Withdrawn id) x.jobs) (ap (λ p. p.0) w)
          (aborted-Withdrawn h now id reason s dist (ap (λ p. p.1) w))) in
    let m = subst (λ i. All (Withdrawn i) u.jobs) (sym same) f in
    let r =
      requeue-refused_when (Withdrawn g.id) h' now' g e d gs u (requeue-keeps h'.name now' g e d gs)
        m in
    (
      f,
      r.0,
      r.1,
      finish-refused_when (Withdrawn g.id) h' now' g st v e u term
          (λ r. finish-keeps h'.name now' g st v e r st_no) m,
    )
