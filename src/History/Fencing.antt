-- ===== src/History/Fencing.antt =====
-- Fencing: once an attempt was finished or given back, no other write under its guard succeeds.
use ironqueue.Common.{
  ℕ, ◌≡◌, sym, ap, subst, true, false, Option, List, ◌++◌, arith, same_id, All, Text, ok,
}
use ironqueue.Job.Status.{JobStatus, is_terminal}
use ironqueue.Job.Json.{Value}
use ironqueue.Job.Config.{Calendar}
use ironqueue.Database.Statement.{keep, write, apply, written, removed}
use ironqueue.Database.Row.{JobRow, Store, Handle, AttemptGuard}
use ironqueue.Database.Requeue.{RequeueGuards, requeue_fate, is_nonempty, requeue_guarded}
use ironqueue.Database.Finish.{finish_attempt_fate, finish_with_guards}
use ironqueue.History.Calls.{Call, run}
use ironqueue.Database.Refusals.{nonempty-append}
use ironqueue.History.Induction.{NeverAdds, run-All}
use ironqueue.History.Target.{apply-target}
use ironqueue.History.Refusal.{finish-refused_when, requeue-refused_when}
use ironqueue.Database.Limits.{Distinct}
use ironqueue.History.Fence.{Fenced, elsewhere, later, idle, Fenced-Moves}

finish-keeps :
    (q : Text) (now : ℕ) (g : AttemptGuard) (st : JobStatus) (v : Option Value) (e : Option Text)
    (r : JobRow)
    → Fenced g.id g.attempts r
    → finish_attempt_fate q now g st v e r ≡ keep
unfolding finish_attempt_fate
finish-keeps q now g st v e r (elsewhere o) = ground arith
finish-keeps q now g st v e r (later o) = ground arith
finish-keeps q now g st v e r (idle a b) = ground arith

requeue-keeps :
    (q : Text) (now : ℕ) (g : AttemptGuard) (e : Option Text) (d : ℕ) (gs : RequeueGuards)
    (r : JobRow)
    → Fenced g.id g.attempts r
    → requeue_fate q now g e d gs r ≡ keep
unfolding requeue_fate
requeue-keeps q now g e d gs r (elsewhere o) = ground arith
requeue-keeps q now g e d gs r (later o) = ground arith
requeue-keeps q now g e d gs r (idle a b) = ground arith

finish-Fenced :
    (q : Text) (now : ℕ) (g : AttemptGuard) (st : JobStatus) (v : Option Value) (e : Option Text)
    (r r' : JobRow)
    → is_terminal st ≡ true
    → finish_attempt_fate q now g st v e r ≡ write r'
    → Fenced g.id g.attempts r'
unfolding finish_attempt_fate is_terminal
finish-Fenced q now g st v e r r' t w = idle (ground arith) (ground arith)

requeue-Fenced :
    (q : Text) (now : ℕ) (g : AttemptGuard) (e : Option Text) (d : ℕ) (gs : RequeueGuards)
    (r r' : JobRow)
    → requeue_fate q now g e d gs r ≡ write r'
    → Fenced g.id g.attempts r'
unfolding requeue_fate
requeue-Fenced q now g e d gs r r' w = idle (ground arith) (ground arith)

finish-ok :
    (h : Handle) (now : ℕ) (g : AttemptGuard) (st : JobStatus) (v : Option Value) (e : Option Text)
    (s t : Store)
    → finish_with_guards h now g st v e s ≡ ok (t, true)
    → (is_terminal st ≡ true)
      × (t.jobs ≡ apply (finish_attempt_fate h.name now g st v e) s.jobs)
      × (is_nonempty (
            removed (finish_attempt_fate h.name now g st v e) s.jobs
            ++ written (finish_attempt_fate h.name now g st v e) s.jobs)
          ≡ true)
unfolding finish_with_guards
finish-ok h now g st v e s t w = ground arith

finished-Fenced :
    (h : Handle) (now : ℕ) (g : AttemptGuard) (st : JobStatus) (v : Option Value) (e : Option Text)
    (s t : Store)
    → Distinct s.jobs
    → finish_with_guards h now g st v e s ≡ ok (t, true)
    → All (Fenced g.id g.attempts) t.jobs
finished-Fenced h now g st v e s t d w =
    let k = finish-ok h now g st v e s t w in
    subst (All (Fenced g.id g.attempts)) (sym k.1) (
      apply-target (Fenced g.id g.attempts) g.id (finish_attempt_fate h.name now g st v e)
        (λ r o. elsewhere o) (λ r o. finish-keeps h.name now g st v e r (elsewhere o))
        (λ r r'. finish-Fenced h.name now g st v e r r' k.0) s.jobs d k.2)

pub requeued-Fenced :
    (h : Handle) (now : ℕ) (g : AttemptGuard) (e : Option Text) (dl : ℕ) (gs : RequeueGuards)
    (s : Store)
    → Distinct s.jobs
    → (requeue_guarded h now g e dl gs s).1 ≡ true
    → All (Fenced g.id g.attempts) (requeue_guarded h now g e dl gs s).0.jobs
unfolding requeue_guarded
requeued-Fenced h now g e dl gs s d w =
    apply-target (Fenced g.id g.attempts) g.id (requeue_fate h.name now g e dl gs)
      (λ r o. elsewhere o) (λ r o. requeue-keeps h.name now g e dl gs r (elsewhere o))
      (requeue-Fenced h.name now g e dl gs) s.jobs d
      (nonempty-append (removed (requeue_fate h.name now g e dl gs) s.jobs) _ w)

module _ (calendar : Calendar) (chunks : Value → List ℕ) (cs : List (Handle × Call)) where
  run-Fenced :
      (id n : ℕ) (s : Store)
      → NeverAdds id cs
      → All (Fenced id n) s.jobs
      → All (Fenced id n) (run calendar chunks cs s).jobs
  run-Fenced id n s =
      run-All calendar chunks (Fenced id n) id (Fenced-Moves id n) (λ r o. elsewhere o) cs s

-- An attempt has one outcome. Once `finish_with_guards` succeeded for an attempt, on a table without
-- duplicate ids, then after every history of calls that do not add its id again a second finish
-- under the same id and attempt number reports false and changes nothing, and a requeue under them
-- reports false and leaves the jobs as they are.
pub finish-fences :
    (calendar : Calendar) (chunks : Value → List ℕ) (cs : List (Handle × Call)) (h h' : Handle)
    (now now' : ℕ) (g g' : AttemptGuard) (st st' : JobStatus) (v v' : Option Value)
    (e e' : Option Text) (d : ℕ) (gs : RequeueGuards) (s t : Store)
    → Distinct s.jobs
    → finish_with_guards h now g st v e s ≡ ok (t, true)
    → NeverAdds g.id cs
    → g'.id ≡ g.id
    → g'.attempts ≡ g.attempts
    → is_terminal st' ≡ true
    → (finish_with_guards h' now' g' st' v' e' (run calendar chunks cs t)
        ≡ ok (run calendar chunks cs t, false))
      × ((requeue_guarded h' now' g' e' d gs (run calendar chunks cs t)).1 ≡ false)
      × ((requeue_guarded h' now' g' e' d gs (run calendar chunks cs t)).0.jobs
          ≡ (run calendar chunks cs t).jobs)
finish-fences calendar chunks cs h h' now now' g g' st st' v v' e e' d gs s t dist w n same_id
      same_n t' =
    let u = run calendar chunks cs t in
    let f =
      subst (λ i. All (Fenced i g'.attempts) u.jobs) (sym same_id)
        (subst (λ k. All (Fenced g.id k) u.jobs) (sym same_n)
          (run-Fenced calendar chunks cs g.id g.attempts t n
            (finished-Fenced h now g st v e s t dist w))) in
    let r =
      requeue-refused_when (Fenced g'.id g'.attempts) h' now' g' e' d gs u
        (requeue-keeps h'.name now' g' e' d gs) f in
    (
      finish-refused_when (Fenced g'.id g'.attempts) h' now' g' st' v' e' u t'
          (finish-keeps h'.name now' g' st' v' e') f,
      r.0,
      r.1,
    )

-- An attempt that was given back is over. Once `requeue_guarded` succeeded for an attempt, on a table
-- without duplicate ids, then after every history of calls that do not add its id again a finish
-- under the same id and attempt number reports false and changes nothing, and a second requeue under
-- them reports false and leaves the jobs as they are, also while a later attempt of the job runs.
pub requeue-fences :
    (calendar : Calendar) (chunks : Value → List ℕ) (cs : List (Handle × Call)) (h h' : Handle)
    (now now' : ℕ) (g g' : AttemptGuard) (e e' : Option Text) (d d' : ℕ) (gs gs' : RequeueGuards)
    (st' : JobStatus) (v' : Option Value) (s t : Store)
    → Distinct s.jobs
    → requeue_guarded h now g e d gs s ≡ (t, true)
    → NeverAdds g.id cs
    → g'.id ≡ g.id
    → g'.attempts ≡ g.attempts
    → is_terminal st' ≡ true
    → (finish_with_guards h' now' g' st' v' e' (run calendar chunks cs t)
        ≡ ok (run calendar chunks cs t, false))
      × ((requeue_guarded h' now' g' e' d' gs' (run calendar chunks cs t)).1 ≡ false)
      × ((requeue_guarded h' now' g' e' d' gs' (run calendar chunks cs t)).0.jobs
          ≡ (run calendar chunks cs t).jobs)
requeue-fences calendar chunks cs h h' now now' g g' e e' d d' gs gs' st' v' s t dist w n same_id
      same_n t' =
    let u = run calendar chunks cs t in
    let f =
      subst (λ i. All (Fenced i g'.attempts) u.jobs) (sym same_id)
        (subst (λ k. All (Fenced g.id k) u.jobs) (sym same_n)
          (run-Fenced calendar chunks cs g.id g.attempts t n (
            subst (λ x. All (Fenced g.id g.attempts) x.jobs) (ap (λ p. p.0) w)
              (requeued-Fenced h now g e d gs s dist (ap (λ p. p.1) w))))) in
    let r =
      requeue-refused_when (Fenced g'.id g'.attempts) h' now' g' e' d' gs' u
        (requeue-keeps h'.name now' g' e' d' gs') f in
    (
      finish-refused_when (Fenced g'.id g'.attempts) h' now' g' st' v' e' u t'
          (finish-keeps h'.name now' g' st' v' e') f,
      r.0,
      r.1,
    )
