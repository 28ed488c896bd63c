-- ===== src/Waiting/Answers.antt =====
-- A wait ends with the first poll that learns something.
use ironqueue.Common.{
  ◌≡◌, refl, inl, inr, Bool, true, false, Option, none, some, List, [], ◌∷◌, arith, Bool-cases, any,
}
use ironqueue.Job.Status.{JobStatus, is_terminal}
use ironqueue.Waiting.Resolve.{WaitEnd}
use ironqueue.Waiting.Poll.{
  Read, closed, lost, found, Poll, WaitState, Turn, ends, goes_on, elapsed, await_events,
  without_row, poll_once, after_turn, poll_loop, first_state, wait_inner,
}

-- A read that settles the wait: of a terminal row, of no row, or of a closed pool.
unfoldable pub conclusive : Read → Bool
conclusive closed = true
conclusive lost = false
conclusive (found none) = true
conclusive (found (some o)) = is_terminal o.status

unfoldable pub has_ended : Option WaitEnd → Bool
has_ended none = false
has_ended (some e) = true

is_last : Turn → Bool
is_last (ends e) = true
is_last (goes_on w) = false

await_events-ends :
    (events : List (JobStatus × Read)) (w : WaitState) → is_last (await_events true events w) ≡ true
unfolding await_events is_last elapsed
await_events-ends [] w = refl
await_events-ends ((event, found (some o)) ∷ rest) w = elim (Bool-cases (is_terminal o.status)) [
  | inl y ↦ rw y
  | inr n ↦ ground (arith, await_events-ends rest w)
]
await_events-ends ((event, found none) ∷ rest) w = refl
await_events-ends ((event, closed) ∷ rest) w =
    await_events-ends rest (record w { pending_terminal_event = some event })
await_events-ends ((event, lost) ∷ rest) w =
    await_events-ends rest (record w { pending_terminal_event = some event })

without_row-ends :
    (events : List (JobStatus × Read)) (w : WaitState) (event : Option JobStatus)
    → is_last (without_row events w event) ≡ true
unfolding without_row is_last
without_row-ends events w none = await_events-ends events w
without_row-ends events w (some event) = refl

poll_once-ends :
    (x : Read) (events : List (JobStatus × Read)) (w : WaitState)
    → conclusive x ≡ true
    → is_last (poll_once x events w) ≡ true
unfolding poll_once conclusive is_last
poll_once-ends closed events w c = refl
poll_once-ends lost events w c = ground arith
poll_once-ends (found none) events w c = without_row-ends events w w.pending_terminal_event
poll_once-ends (found (some o)) events w c = rw c

-- A turn of the loop, and the rest of it.
after_turn-ends :
    (next : WaitState → Option WaitEnd) (turn : Turn)
    → (is_last turn ≡ false → (w : WaitState) → has_ended (next w) ≡ true)
    → has_ended (after_turn next turn) ≡ true
unfolding has_ended is_last
after_turn-ends next (ends e) k = refl
after_turn-ends next (goes_on w) k = k refl w

poll_loop-ends :
    (polls : List Poll) (w : WaitState)
    → any (λ p. conclusive p.read) polls ≡ true
    → has_ended (poll_loop polls w) ≡ true
unfolding poll_loop any
poll_loop-ends [] w c = ground arith
poll_loop-ends (p ∷ ps) w c =
    after_turn-ends (poll_loop ps) (poll_once p.read p.events w) (λ last next_state.
      poll_loop-ends ps next_state (elim (Bool-cases (conclusive p.read)) [
        | inl y ↦ ground (arith, poll_once-ends p.read p.events w y)
        | inr n ↦ ground arith
      ]))

-- A wait has ended once one of its polls read a terminal row, no row or a closed pool, whatever the
-- registration, the other polls and the completion events were.
pub wait_inner-ends :
    (awaited : Bool) (registration : Read) (polls : List Poll)
    → any (λ p. conclusive p.read) polls ≡ true
    → has_ended (wait_inner awaited registration polls) ≡ true
unfolding wait_inner has_ended
wait_inner-ends false closed polls c = refl
wait_inner-ends false lost polls c = poll_loop-ends polls first_state c
wait_inner-ends false (found x) polls c = poll_loop-ends polls first_state c
wait_inner-ends true registration polls c = poll_loop-ends polls first_state c
