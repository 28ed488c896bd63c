-- ===== src/Waiting/Seen.antt =====
-- A wait that saw its job alive never calls it missing.
use ironqueue.Common.{
  ◌≡◌, refl, ◌≢◌, inl, inr, Bool, true, false, Option, none, some, List, [], ◌∷◌, arith, Bool-cases,
}
use ironqueue.Job.Status.{JobStatus, is_terminal}
use ironqueue.Waiting.Resolve.{
  WaitEnd, job_not_found, JobOutcome, resolve_as, resolve, resolve_deleted,
}
use ironqueue.Waiting.Poll.{
  Read, closed, lost, found, Poll, WaitState, Turn, ends, goes_on, vanished, pending_or_vanished,
  elapsed, await_events, without_row, poll_once, after_turn, poll_loop,
}

is_missing : WaitEnd → Bool
is_missing job_not_found = true
is_missing _ = false

-- A turn that does not end with a missing job, or keeps that the job was seen.
StillSeen : Turn → Type 0
unfolding is_missing
StillSeen (ends e) = is_missing e ≡ false
StillSeen (goes_on w) = w.seen_alive ≡ true

present_as : (st : JobStatus) (o : JobOutcome) → is_missing (resolve_as st o) ≡ false
unfolding resolve_as is_missing
present_as st o = ground arith

resolve-present : (o : JobOutcome) → is_missing (resolve o) ≡ false
unfolding resolve
resolve-present o = present_as o.status o

deleted-present : (st : JobStatus) → is_missing (resolve_deleted st) ≡ false
unfolding resolve_deleted is_missing
deleted-present st = ground arith

vanished-present :
    (seen : Bool) (event : Option JobStatus)
    → seen ≡ true
    → is_missing (pending_or_vanished seen event) ≡ false
unfolding pending_or_vanished vanished is_missing
vanished-present seen none e = rw e refl
vanished-present seen (some event) e = deleted-present event

elapsed-seen :
    (missing : Bool) (w : WaitState) → w.seen_alive ≡ true → StillSeen (elapsed missing w)
unfolding elapsed StillSeen
elapsed-seen true w e = vanished-present w.seen_alive w.pending_terminal_event e
elapsed-seen false w e = e

await_events-seen :
    (missing : Bool) (events : List (JobStatus × Read)) (w : WaitState)
    → w.seen_alive ≡ true
    → StillSeen (await_events missing events w)
unfolding await_events StillSeen
await_events-seen missing [] w e = elapsed-seen missing w e
await_events-seen missing ((event, found (some o)) ∷ rest) w e =
    elim (Bool-cases (is_terminal o.status)) [
      | inl y ↦ rw y (resolve-present o)
      | inr n ↦ rw n (await_events-seen missing rest w e)
    ]
await_events-seen missing ((event, found none) ∷ rest) w e = deleted-present event
await_events-seen missing ((event, closed) ∷ rest) w e =
    await_events-seen missing rest (record w { pending_terminal_event = some event }) e
await_events-seen missing ((event, lost) ∷ rest) w e =
    await_events-seen missing rest (record w { pending_terminal_event = some event }) e

without_row-seen :
    (events : List (JobStatus × Read)) (w : WaitState) (event : Option JobStatus)
    → w.seen_alive ≡ true
    → StillSeen (without_row events w event)
unfolding without_row StillSeen
without_row-seen events w none e = await_events-seen true events w e
without_row-seen events w (some event) e = deleted-present event

poll_once-seen :
    (x : Read) (events : List (JobStatus × Read)) (w : WaitState)
    → w.seen_alive ≡ true
    → StillSeen (poll_once x events w)
unfolding poll_once StillSeen is_missing
poll_once-seen closed events w e = refl
poll_once-seen lost events w e = e
poll_once-seen (found none) events w e = without_row-seen events w w.pending_terminal_event e
poll_once-seen (found (some o)) events w e = elim (Bool-cases (is_terminal o.status)) [
  | inl y ↦ rw y (resolve-present o)
  | inr n ↦ rw n (
      await_events-seen false events (record { seen_alive = true; pending_terminal_event = none })
        refl)
]

after_turn-seen :
    (next : WaitState → Option WaitEnd) (turn : Turn)
    → StillSeen turn
    → ((w : WaitState) → w.seen_alive ≡ true → next w ≢ some job_not_found)
    → after_turn next turn ≢ some job_not_found
unfolding StillSeen is_missing
after_turn-seen next (ends e) q k h = ground arith
after_turn-seen next (goes_on w) q k h = k w q h

poll_loop-seen :
    (polls : List Poll) (w : WaitState)
    → w.seen_alive ≡ true
    → poll_loop polls w ≢ some job_not_found
unfolding poll_loop
poll_loop-seen [] w e h = ground arith
poll_loop-seen (p ∷ ps) w e h =
    after_turn-seen (poll_loop ps) (poll_once p.read p.events w)
      (poll_once-seen p.read p.events w e) (poll_loop-seen ps) h

-- A wait, in whatever state, whose next poll reads a row that is not terminal never ends with a missing
-- job, whatever it reads and hears after.
pub poll_loop-alive :
    (o : JobOutcome) (events : List (JobStatus × Read)) (polls : List Poll) (w : WaitState)
    → is_terminal o.status ≡ false
    → poll_loop (record { read = found (some o); events = events } ∷ polls) w ≢ some job_not_found
unfolding poll_loop poll_once
poll_loop-alive o events polls w n h =
    after_turn-seen (poll_loop polls) (poll_once (found (some o)) events w)
      (rw n (
        await_events-seen false events (record { seen_alive = true; pending_terminal_event = none })
          refl))
      (poll_loop-seen polls) h
