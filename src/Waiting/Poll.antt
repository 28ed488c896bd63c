-- ===== src/Waiting/Poll.antt =====
-- The polling loop of a wait: `wait_inner` and `wait_value_inner` of ironqueue/src/job.rs.
use ironqueue.Common.{Bool, true, false, Option, none, some, List, [], ◌∷◌, if◌then◌else◌}
use ironqueue.Job.Retention.{JobRetention, delete_immediately}
use ironqueue.Job.Status.{JobStatus, is_terminal}
use ironqueue.Waiting.Resolve.{
  WaitEnd, job_not_found, result_expired, pool_closed, read_failed, no_durable_row, JobOutcome,
  resolve, resolve_deleted,
}

-- A call of the database: it meets a closed pool, fails, or answers.
pub data Read : Type 0 where
  closed lost : Read
  found : Option JobOutcome → Read

-- One round of the loop: what its poll reads, and the completion events that arrive before its
-- deadline, each with what the read after it finds. A listener that is gone sends no more events.
pub record Poll : Type 0 where
  pub read : Read
  pub events : List (JobStatus × Read)

pub record WaitState : Type 0 where
  pub seen_alive : Bool
  pub pending_terminal_event : Option JobStatus

pub data Turn : Type 0 where
  ends : WaitEnd → Turn
  goes_on : WaitState → Turn

unfoldable pub vanished : Bool → WaitEnd
vanished true = result_expired
vanished false = job_not_found

unfoldable pub pending_or_vanished : Bool → Option JobStatus → WaitEnd
unfolding vanished
pending_or_vanished seen_alive none = vanished seen_alive
pending_or_vanished seen_alive (some event) = resolve_deleted event

-- The deadline of a round.
unfoldable pub elapsed : Bool → WaitState → Turn
unfolding pending_or_vanished
elapsed true w = ends (pending_or_vanished w.seen_alive w.pending_terminal_event)
elapsed false w = goes_on w

unfoldable pub await_events : Bool → List (JobStatus × Read) → WaitState → Turn
unfolding elapsed
await_events missing [] w = elapsed missing w
await_events missing ((event, found (some o)) ∷ rest) w =
    let next = await_events missing rest w in
    if is_terminal o.status then ends (resolve o) else next
await_events missing ((event, found none) ∷ rest) w = ends (resolve_deleted event)
await_events missing ((event, closed) ∷ rest) w =
    await_events missing rest (record w { pending_terminal_event = some event })
await_events missing ((event, lost) ∷ rest) w =
    await_events missing rest (record w { pending_terminal_event = some event })

-- A poll that found no row: the event kept from a failed read, or one more interval.
unfoldable pub without_row : List (JobStatus × Read) → WaitState → Option JobStatus → Turn
unfolding await_events
without_row events w none = await_events true events w
without_row events w (some event) = ends (resolve_deleted event)

unfoldable pub poll_once : Read → List (JobStatus × Read) → WaitState → Turn
unfolding await_events without_row
poll_once closed events w = ends pool_closed
poll_once lost events w = goes_on w
poll_once (found (some o)) events w =
    if is_terminal o.status
    then ends (resolve o)
    else await_events false events (record { seen_alive = true; pending_terminal_event = none })
poll_once (found none) events w = without_row events w w.pending_terminal_event

abbrev pub after_turn : (WaitState → Option WaitEnd) → Turn → Option WaitEnd
after_turn next (ends e) = some e
after_turn next (goes_on w) = next w

-- The rounds of a wait: nothing as long as it goes on.
unfoldable pub poll_loop : List Poll → WaitState → Option WaitEnd
poll_loop [] w = none
poll_loop (p ∷ ps) w = after_turn (poll_loop ps) (poll_once p.read p.events w)

abbrev pub first_state : WaitState
first_state = record { seen_alive = false; pending_terminal_event = none }

-- `registration` is the answer to `mark_awaited`.
unfoldable pub wait_inner : Bool → Read → List Poll → Option WaitEnd
wait_inner false closed polls = some pool_closed
wait_inner _ registration polls = poll_loop polls first_state

unfoldable pub deletes_immediately : JobRetention → JobRetention → Bool
deletes_immediately delete_immediately failed = true
deletes_immediately _ delete_immediately = true
deletes_immediately _ _ = false

-- The single read of a job without a durable row.
unfoldable pub read_once : Read → WaitEnd
read_once closed = pool_closed
read_once lost = read_failed
read_once (found none) = no_durable_row
read_once (found (some o)) = if is_terminal o.status then resolve o else no_durable_row

unfoldable pub wait_value_inner :
    JobRetention → JobRetention → Bool → Read → Read → List Poll → Option WaitEnd
unfolding deletes_immediately read_once wait_inner
wait_value_inner result failed awaited first registration polls =
    if deletes_immediately result failed
    then some (read_once first)
    else wait_inner awaited registration polls
