-- ===== src/Examples/Settlements.antt =====
-- The settlement of an attempt at concrete rounds.
use ironqueue.Common.{
  inl, inr, arith, ◌≡◌, refl, true, false, some, List, [], ◌∷◌, select, All, codes, text_eq,
}
use ironqueue.Job.Json.{null}
use ironqueue.Database.Row.{Store, is_swept_marked}
use ironqueue.Database.Statement.{written}
use ironqueue.Database.Abort.{abort_row}
use ironqueue.Worker.Stopped.{Stopped}
use ironqueue.Worker.Attempt.{user, success}
use ironqueue.Worker.Finalize.{Round, Delivery, answered, dropped, unacknowledged, finalize}
use ironqueue.Worker.Withdrawn.{yields}
use ironqueue.Worker.Settlement.{attempt, finalize-yields}
use ironqueue.Examples.Data.{handle, running_job, store, store-Distinct, chunks}

abbrev stop_store : Store
unfolding abort_row select text_eq is_swept_marked
stop_store = (abort_row handle 900 7 (codes "stop") store).0

was_stopped : abort_row handle 900 7 (codes "stop") store ≡ (stop_store, true)
unfolding abort_row select text_eq is_swept_marked written
was_stopped = refl

abbrev round : Round
round = record {
  prior = λ s. s;
  reason = some (user (codes "stop"));
  shutting_down = false;
  first = 1000;
  second = 1100;
  third = 1200;
  between = λ s. s;
  later = λ s. s;
}

abbrev rounds : List (Round × Delivery)
rounds = (round, dropped) ∷ (round, unacknowledged) ∷ (round, answered) ∷ []

finalize-yields_example :
    All
      (Stopped 7 1)
      (finalize
        (attempt chunks handle (λ d. d) running_job (codes "no handler") (success null))
        rounds
        stop_store).0.jobs
    × (yields
          (finalize
            (attempt chunks handle (λ d. d) running_job (codes "no handler") (success null))
            rounds
            stop_store).1
        ≡ true)
finalize-yields_example =
    finalize-yields chunks handle (λ d. d) running_job (codes "no handler") (success null) rounds
      900 (codes "stop") store stop_store store-Distinct
      (inr (omega arith), (inl (ground arith), (inl (ground arith), tt))) was_stopped
      (
        ((λ s w. w), (λ s w. w), (λ s w. w)),
        (((λ s w. w), (λ s w. w), (λ s w. w)), (((λ s w. w), (λ s w. w), (λ s w. w)), tt)),
      )
