-- ===== src/Waiting/Told.antt =====
-- What a wait can answer once its job has finished.
use ironqueue.Common.{
  ◌≡◌, refl, ap, subst, ◌⊎◌, inl, inr, Bool, true, false, Option, none, some, List, [], ◌∷◌, arith,
  Bool-cases, All,
}
use ironqueue.Job.Status.{JobStatus, is_terminal}
use ironqueue.Waiting.Resolve.{
  WaitEnd, result_expired, job_not_found, pool_closed, JobOutcome, resolve, resolve_deleted,
}
use ironqueue.Waiting.Poll.{
  Read, closed, lost, found, Poll, WaitState, Turn, ends, goes_on, vanished, pending_or_vanished,
  elapsed, await_events, without_row, poll_once, after_turn, poll_loop, first_state, wait_inner,
}

-- An answer that the outcome `o`, or its deletion, explains.
pub data Explained (o : JobOutcome) (e : WaitEnd) : Type 0 where
  as_stored : e ≡ resolve o → Explained o e
  as_deleted : e ≡ resolve_deleted o.status → Explained o e
  purged : e ≡ result_expired → Explained o e
  unknown : e ≡ job_not_found → Explained o e
  torn_down : e ≡ pool_closed → Explained o e

-- A read that finds no other terminal row than one with the outcome `o`.
abbrev pub Faithful : JobOutcome → Read → Type 0
Faithful o (found (some x)) = (is_terminal x.status ≡ false) ⊎ (x ≡ o)
Faithful o _ = Unit

abbrev Known : JobOutcome → Option JobStatus → Type 0
Known o none = Unit
Known o (some st) = st ≡ o.status

abbrev TurnExplained : JobOutcome → Turn → Type 0
TurnExplained o (ends e) = Explained o e
TurnExplained o (goes_on w) = Known o w.pending_terminal_event

abbrev pub FaithfulEvent : JobOutcome → JobStatus × Read → Type 0
FaithfulEvent o e = (e.0 ≡ o.status) × Faithful o e.1

abbrev pub FaithfulPoll : JobOutcome → Poll → Type 0
FaithfulPoll o p = Faithful o p.read × All (FaithfulEvent o) p.events

module _ (o : JobOutcome) where
  resolve-Explained :
      (x : JobOutcome)
      → is_terminal x.status ≡ true
      → Faithful o (found (some x))
      → Explained o (resolve x)
  resolve-Explained x t (inl f) = ground arith
  resolve-Explained x t (inr e) = Explained.as_stored (ap resolve e)

  deleted-Explained : (st : JobStatus) → st ≡ o.status → Explained o (resolve_deleted st)
  deleted-Explained st e = Explained.as_deleted (ap resolve_deleted e)

  vanished-Explained :
      (seen : Bool) (event : Option JobStatus)
      → Known o event
      → Explained o (pending_or_vanished seen event)
  unfolding pending_or_vanished vanished
  vanished-Explained true none k = Explained.purged refl
  vanished-Explained false none k = Explained.unknown refl
  vanished-Explained seen (some event) k = deleted-Explained event k

  elapsed-Explained :
      (missing : Bool) (w : WaitState)
      → Known o w.pending_terminal_event
      → TurnExplained o (elapsed missing w)
  unfolding elapsed
  elapsed-Explained true w k = vanished-Explained w.seen_alive w.pending_terminal_event k
  elapsed-Explained false w k = k

  await_events-Explained :
      (missing : Bool) (events : List (JobStatus × Read)) (w : WaitState)
      → All (FaithfulEvent o) events
      → Known o w.pending_terminal_event
      → TurnExplained o (await_events missing events w)
  unfolding await_events
  await_events-Explained missing [] w f k = elapsed-Explained missing w k
  await_events-Explained missing ((event, found (some x)) ∷ rest) w f k =
      elim (Bool-cases (is_terminal x.status)) [
        | inl y ↦ rw y (resolve-Explained x y f.0.1)
        | inr n ↦ rw n (await_events-Explained missing rest w f.1 k)
      ]
  await_events-Explained missing ((event, found none) ∷ rest) w f k = deleted-Explained event f.0.0
  await_events-Explained missing ((event, closed) ∷ rest) w f k =
      await_events-Explained missing rest (record w { pending_terminal_event = some event }) f.1
        f.0.0
  await_events-Explained missing ((event, lost) ∷ rest) w f k =
      await_events-Explained missing rest (record w { pending_terminal_event = some event }) f.1
        f.0.0

  without_row-Explained :
      (events : List (JobStatus × Read)) (w : WaitState) (event : Option JobStatus)
      → All (FaithfulEvent o) events
      → Known o w.pending_terminal_event
      → Known o event
      → TurnExplained o (without_row events w event)
  unfolding without_row
  without_row-Explained events w none f k q = await_events-Explained true events w f k
  without_row-Explained events w (some event) f k q = deleted-Explained event q

  poll_once-Explained :
      (x : Read) (events : List (JobStatus × Read)) (w : WaitState)
      → Faithful o x
      → All (FaithfulEvent o) events
      → Known o w.pending_terminal_event
      → TurnExplained o (poll_once x events w)
  unfolding poll_once
  poll_once-Explained closed events w q f k = Explained.torn_down refl
  poll_once-Explained lost events w q f k = k
  poll_once-Explained (found none) events w q f k =
      without_row-Explained events w w.pending_terminal_event f k k
  poll_once-Explained (found (some x)) events w q f k = elim (Bool-cases (is_terminal x.status)) [
    | inl y ↦ rw y (resolve-Explained x y q)
    | inr n ↦ rw n (
        await_events-Explained false events
          (record { seen_alive = true; pending_terminal_event = none }) f tt)
  ]

  after_turn-Explained :
      (next : WaitState → Option WaitEnd) (turn : Turn) (e : WaitEnd)
      → TurnExplained o turn
      → ((w : WaitState) → Known o w.pending_terminal_event → next w ≡ some e → Explained o e)
      → after_turn next turn ≡ some e
      → Explained o e
  after_turn-Explained next (ends x) e q k h = subst (Explained o) (ground arith) q
  after_turn-Explained next (goes_on w) e q k h = k w q h

  poll_loop-Explained :
      (polls : List Poll) (w : WaitState) (e : WaitEnd)
      → All (FaithfulPoll o) polls
      → Known o w.pending_terminal_event
      → poll_loop polls w ≡ some e
      → Explained o e
  unfolding poll_loop
  poll_loop-Explained [] w e f k h = ground arith
  poll_loop-Explained (p ∷ ps) w e f k h =
      after_turn-Explained (poll_loop ps) (poll_once p.read p.events w) e
        (poll_once-Explained p.read p.events w f.0.0 f.0.1 k)
        (λ u q. poll_loop-Explained ps u e f.1 q) h

  pub wait_inner-Explained :
      (awaited : Bool) (registration : Read) (polls : List Poll) (e : WaitEnd)
      → All (FaithfulPoll o) polls
      → wait_inner awaited registration polls ≡ some e
      → Explained o e
  unfolding wait_inner
  wait_inner-Explained false closed polls e f h = Explained.torn_down (ground arith)
  wait_inner-Explained false lost polls e f h = poll_loop-Explained polls first_state e f tt h
  wait_inner-Explained false (found x) polls e f h = poll_loop-Explained polls first_state e f tt h
  wait_inner-Explained true registration polls e f h =
      poll_loop-Explained polls first_state e f tt h
