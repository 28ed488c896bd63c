-- ===== src/Examples/Waits.antt =====
-- Waits on a finished job.
use ironqueue.Common.{
  ◌≡◌, ◌≢◌, refl, true, false, none, some, List, [], ◌∷◌, arith, any, select, All, text_eq,
}
use ironqueue.Job.Status.{complete, running, is_terminal}
use ironqueue.Job.Json.{null}
use ironqueue.Database.Lease.{find_row}
use ironqueue.History.Calls.{run}
use ironqueue.History.Outcome.{Keeps}
use ironqueue.Waiting.Resolve.{answered, job_not_found, JobOutcome, job_outcome, resolve}
use ironqueue.Waiting.Poll.{lost, found, Poll, poll_once, poll_loop, first_state, wait_inner}
use ironqueue.Waiting.Answers.{conclusive, has_ended, wait_inner-ends}
use ironqueue.Waiting.Finished.{
  Tells, Settles, settles_nothing, Observed, ObservedPoll, wait_inner-told,
}
use ironqueue.Waiting.Seen.{poll_loop-alive}
use ironqueue.Examples.Data.{handle, store, calendar, chunks}

abbrev done : JobOutcome
done = record { status = complete; result = none; error = none }

abbrev alive : JobOutcome
alive = record { status = running; result = none; error = none }

-- A lost poll, a poll that sees the job run and an event whose read is lost, and a poll of the table.
abbrev polls : List Poll
polls =
    record { read = lost; events = [] }
    ∷ record { read = found (some alive); events = (complete, lost) ∷ [] }
    ∷ record { read = found (job_outcome handle 9 store); events = [] }
    ∷ []

wait_answers : wait_inner false lost polls ≡ some (answered null)
unfolding wait_inner poll_loop poll_once job_outcome find_row select text_eq is_terminal resolve
wait_answers = refl

polls-Observed : All (ObservedPoll calendar chunks handle store 9 1 done) polls
unfolding run is_terminal settles_nothing
polls-Observed = (
  (Observed.unfinished refl, tt),
  (
    (Observed.unfinished refl, ((refl, Observed.unfinished refl), tt)),
    ((Observed.since [] tt refl, tt), tt),
  ),
)

store-Settles : All (Settles 9 1 done) (store.jobs)
store-Settles = (
  Keeps.elsewhere (ground arith),
  (Keeps.elsewhere (ground arith), (Keeps.here refl refl refl refl, tt)),
)

wait_inner-told_example : Tells done (answered null)
unfolding is_terminal
wait_inner-told_example =
    wait_inner-told calendar chunks handle store 9 1 done refl store-Settles false lost polls
      (answered null) polls-Observed wait_answers

wait_inner-ends_example : has_ended (wait_inner false lost polls) ≡ true
unfolding any conclusive job_outcome find_row select text_eq is_terminal
wait_inner-ends_example = wait_inner-ends false lost polls refl

poll_loop-alive_example :
    poll_loop
      (record { read = found (some alive); events = (complete, lost) ∷ [] } ∷ polls)
      first_state
    ≢ some job_not_found
unfolding is_terminal
poll_loop-alive_example = poll_loop-alive alive ((complete, lost) ∷ []) polls first_state refl
