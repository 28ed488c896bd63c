-- ===== src/Examples/Histories.antt =====
-- The theorems on histories at concrete calls.
use ironqueue.Common.{
  ◌≡◌, refl, true, false, none, some, [], ◌∷◌, arith, same_id, select, any, All, codes, text_eq,
  same_key, ok,
}
use ironqueue.Job.Status.{complete, failed, is_terminal}
use ironqueue.Job.Json.{null}
use ironqueue.Database.Statement.{written, removed}
use ironqueue.Database.Row.{Store, is_swept_marked}
use ironqueue.Database.Requeue.{requeue_guarded}
use ironqueue.Database.Finish.{finish_with_guards}
use ironqueue.Database.Abort.{abort_row, holds_key}
use ironqueue.Database.Lease.{aborting_for, find_row, aborting_of}
use ironqueue.Database.Attempt.{retry_guards, shutdown_guards}
use ironqueue.Database.Recovery.{requeue_unacknowledged_claims, resolve_dropped_attempt}
use ironqueue.History.Checks.{Checks}
use ironqueue.History.Calls.{aborts, state_after, perform, run}
use ironqueue.History.Evolution.{Evolution}
use ironqueue.History.Performs.{perform-Evolution}
use ironqueue.History.Induction.{NeverAdds}
use ironqueue.History.Integrity.{run-Checks}
use ironqueue.History.Outcome.{Keeps, run-Keeps}
use ironqueue.History.Fencing.{finish-fences, requeue-fences}
use ironqueue.History.Withdrawal.{Withdrawn, abort-final}
use ironqueue.History.Dedupe.{OneHolder, run-OneHolder}
use ironqueue.History.Settlement.{Settled, resolve_dropped_attempt-settles}
use ironqueue.History.Verdicts.{abort-heard}
use ironqueue.History.Unacknowledged.{requeue_unacknowledged_claims-settles}
use ironqueue.Examples.Data.{
  handle, running_job, store, guard, calendar, chunks, history, store-Distinct, store-Checks,
}

run-Checks_example : All Checks (run calendar chunks history store).jobs
run-Checks_example = run-Checks calendar chunks history store store-Checks

store-OneHolder : OneHolder (store.jobs)
unfolding any holds_key text_eq same_key
store-OneHolder = (refl, (refl, (refl, tt)))

run-OneHolder_example : OneHolder (run calendar chunks history store).jobs
run-OneHolder_example = run-OneHolder calendar chunks history store store-OneHolder

NeverAdds-running : NeverAdds 7 history
NeverAdds-running = ((λ e. ground arith), ((λ e. ground arith), ((λ e. ground arith), tt)))

NeverAdds-done : NeverAdds 9 history
NeverAdds-done = ((λ e. ground arith), ((λ e. ground arith), ((λ e. ground arith), tt)))

run-Keeps_example : All (Keeps 9 1 complete none none) (run calendar chunks history store).jobs
unfolding is_terminal
run-Keeps_example =
    run-Keeps calendar chunks history store 9 1 complete none none refl NeverAdds-done (
      Keeps.elsewhere (ground arith),
      (Keeps.elsewhere (ground arith), (Keeps.here refl refl refl refl, tt)),
    )

abbrev finished_store : Store
unfolding finish_with_guards is_terminal same_id text_eq
finished_store =
    state_after store (finish_with_guards handle 900 guard complete (some null) none store)

was_finished :
    finish_with_guards handle 900 guard complete (some null) none store ≡ ok (finished_store, true)
unfolding finish_with_guards is_terminal same_id text_eq removed written
was_finished = refl

finish-fences_example :
    (finish_with_guards handle 5000 guard failed none none
        (run calendar chunks history finished_store)
      ≡ ok (run calendar chunks history finished_store, false))
    × ((requeue_guarded handle 5000 guard none 0 retry_guards
          (run calendar chunks history finished_store)).1
        ≡ false)
    × ((requeue_guarded handle 5000 guard none 0 retry_guards
          (run calendar chunks history finished_store)).0.jobs
        ≡ (run calendar chunks history finished_store).jobs)
unfolding is_terminal
finish-fences_example =
    finish-fences calendar chunks history handle handle 900 5000 guard guard complete failed
      (some null) none none none 0 retry_guards store finished_store store-Distinct was_finished
      NeverAdds-running refl refl refl

abbrev requeued_store : Store
unfolding requeue_guarded any same_id text_eq is_swept_marked
requeued_store = (requeue_guarded handle 900 guard none 0 retry_guards store).0

was_requeued : requeue_guarded handle 900 guard none 0 retry_guards store ≡ (requeued_store, true)
unfolding requeue_guarded any same_id text_eq is_swept_marked written
was_requeued = refl

requeue-fences_example :
    (finish_with_guards handle 5000 guard complete none none
        (run calendar chunks history requeued_store)
      ≡ ok (run calendar chunks history requeued_store, false))
    × ((requeue_guarded handle 5000 guard none 0 retry_guards
          (run calendar chunks history requeued_store)).1
        ≡ false)
    × ((requeue_guarded handle 5000 guard none 0 retry_guards
          (run calendar chunks history requeued_store)).0.jobs
        ≡ (run calendar chunks history requeued_store).jobs)
unfolding is_terminal
requeue-fences_example =
    requeue-fences calendar chunks history handle handle 900 5000 guard guard none none 0 0
      retry_guards retry_guards complete none store requeued_store store-Distinct was_requeued
      NeverAdds-running refl refl refl

abbrev aborted_store : Store
unfolding abort_row select text_eq is_swept_marked
aborted_store = (abort_row handle 900 7 (codes "stop") store).0

was_aborted : abort_row handle 900 7 (codes "stop") store ≡ (aborted_store, true)
unfolding abort_row select text_eq is_swept_marked written
was_aborted = refl

abort-final_example :
    All (Withdrawn 7) (run calendar chunks history aborted_store).jobs
    × ((requeue_guarded handle 5000 guard none 0 shutdown_guards
          (run calendar chunks history aborted_store)).1
        ≡ false)
    × ((requeue_guarded handle 5000 guard none 0 shutdown_guards
          (run calendar chunks history aborted_store)).0.jobs
        ≡ (run calendar chunks history aborted_store).jobs)
    × (finish_with_guards handle 5000 guard complete none none
          (run calendar chunks history aborted_store)
        ≡ ok (run calendar chunks history aborted_store, false))
unfolding is_terminal
abort-final_example =
    abort-final calendar chunks history handle handle 900 5000 7 (codes "stop") guard none 0
      shutdown_guards complete none store aborted_store store-Distinct was_aborted NeverAdds-running
      refl refl refl

resolve_dropped_attempt-settles_example :
    All (Settled handle guard) (resolve_dropped_attempt handle 900 guard 0 store).0.jobs
resolve_dropped_attempt-settles_example =
    resolve_dropped_attempt-settles handle 900 guard 0 store store-Distinct

abort-heard_example :
    aborting_of handle 7 1 3 (abort_row handle 900 7 (codes "stop") store).0.jobs
    ≡ aborting_for (some (codes "stop")) false
unfolding find_row select text_eq
abort-heard_example = abort-heard handle 900 7 (codes "stop") store running_job 3 refl refl refl

perform-Evolution_example :
    Evolution none store.jobs
      (perform calendar chunks handle (aborts 900 7 (codes "stop")) store).jobs
perform-Evolution_example =
    perform-Evolution calendar chunks handle (aborts 900 7 (codes "stop")) store

requeue_unacknowledged_claims-settles_example :
    All
      (λ g.
        All (Settled handle g) (requeue_unacknowledged_claims handle 900 (guard ∷ []) store).0.jobs)
      (guard ∷ [])
requeue_unacknowledged_claims-settles_example =
    requeue_unacknowledged_claims-settles handle 900 (guard ∷ []) store store-Distinct
