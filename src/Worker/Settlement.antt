-- ===== src/Worker/Settlement.antt =====
-- The loop that settles an attempt yields to a user's abort.
use ironqueue.Common.{ℕ, ◌≡◌, refl, ap, subst, true, List, [], ◌∷◌, All, Text, err, ok}
use ironqueue.Job.Json.{Value}
use ironqueue.Database.Row.{JobRow, Store, Handle}
use ironqueue.Database.Abort.{abort_row}
use ironqueue.Database.Limits.{Distinct}
use ironqueue.Worker.Stopped.{Within, Stopped, aborted-Stopped}
use ironqueue.Worker.Attempt.{WorkerAttemptResult, WorkerProcessResult}
use ironqueue.Worker.Finalize.{
  Round, Settled, try_finalize, Delivery, answered, dropped, unacknowledged, store_of, answer_or,
  finalize,
}
use ironqueue.Worker.Withdrawn.{yields}
use ironqueue.Worker.Yields.{Yielded, settled-Yielded}

-- What others commit during a round leaves the job withdrawn and begins no
-- later attempt.
abbrev pub Keeps : JobRow → Round → Type 0
Keeps r n =
    ((s : Store)
      → All (Stopped r.id r.attempts) s.jobs
      → All (Stopped r.id r.attempts) (n.prior s).jobs)
    × ((s : Store)
        → All (Stopped r.id r.attempts) s.jobs
        → All (Stopped r.id r.attempts) (n.between s).jobs)
    × ((s : Store)
        → All (Stopped r.id r.attempts) s.jobs
        → All (Stopped r.id r.attempts) (n.later s).jobs)

module _ (chunks : Value → List ℕ) (h : Handle) (jitter : ℕ → ℕ) (r : JobRow) (bounce : Text)
    (end : WorkerAttemptResult) where
  unfoldable pub attempt : Round → Store → Settled
  attempt n s = try_finalize chunks h jitter r bounce n end n.reason n.shutting_down s

  attempt-Yielded :
      (n : Round) (s t : Store) (x : WorkerProcessResult)
      → Keeps r n
      → All (Stopped r.id r.attempts) s.jobs
      → attempt n s ≡ ok (t, x)
      → All (Stopped r.id r.attempts) t.jobs × (yields x ≡ true)
  unfolding attempt Yielded
  attempt-Yielded n s t x k w e =
      settled-Yielded chunks h jitter r n t x k.1 k.2 bounce end n.reason n.shutting_down s w e

  stored :
      (s : Store) (m : Settled)
      → All (Stopped r.id r.attempts) s.jobs
      → ((t : Store) (x : WorkerProcessResult)
          → m ≡ ok (t, x)
          → All (Stopped r.id r.attempts) t.jobs × (yields x ≡ true))
      → All (Stopped r.id r.attempts) (store_of s m).jobs
  unfolding store_of
  stored s (err e) w k = w
  stored s (ok (t, x)) w k = (k t x refl).0

  answer_or-Stopped :
      (s : Store) (m : Settled) (rest : Store × WorkerProcessResult)
      → All (Stopped r.id r.attempts) rest.0.jobs × (yields rest.1 ≡ true)
      → ((t : Store) (x : WorkerProcessResult)
          → m ≡ ok (t, x)
          → All (Stopped r.id r.attempts) t.jobs × (yields x ≡ true))
      → All (Stopped r.id r.attempts) (answer_or rest m).0.jobs
        × (yields (answer_or rest m).1 ≡ true)
  answer_or-Stopped s (err e) rest w k = w
  answer_or-Stopped s (ok (t, x)) rest w k = k t x refl

  finalize-Stopped :
      (rounds : List (Round × Delivery)) (s : Store)
      → All (λ p. Keeps r p.0) rounds
      → All (Stopped r.id r.attempts) s.jobs
      → All (Stopped r.id r.attempts) (finalize attempt rounds s).0.jobs
        × (yields (finalize attempt rounds s).1 ≡ true)
  unfolding finalize yields
  finalize-Stopped [] s k w = (w, refl)
  finalize-Stopped ((n, dropped) ∷ rest) s k w = finalize-Stopped rest (n.prior s) k.1 (k.0.0 s w)
  finalize-Stopped ((n, unacknowledged) ∷ rest) s k w =
      let u = n.prior s in
      finalize-Stopped rest (store_of u (attempt n u)) k.1
        (stored u (attempt n u) (k.0.0 s w) (λ t x e. attempt-Yielded n u t x k.0 (k.0.0 s w) e))
  finalize-Stopped ((n, answered) ∷ rest) s k w =
      let u = n.prior s in
      answer_or-Stopped u (attempt n u) (finalize attempt rest u)
        (finalize-Stopped rest u k.1 (k.0.0 s w))
        (λ t x e. attempt-Yielded n u t x k.0 (k.0.0 s w) e)

  -- Once a user's abort of the job succeeded, on a table without duplicate ids in which no later attempt
  -- of the job than the settled one has begun, the settlement of the attempt, however the attempt ended,
  -- in whatever rounds, lost or unacknowledged ones too, and with whatever others commit meanwhile that
  -- leaves the job withdrawn and begins no later attempt, leaves it so, and reports an abort or nothing
  -- confirmed.
  pub finalize-yields :
      (rounds : List (Round × Delivery)) (now : ℕ) (user_reason : Text) (s u : Store)
      → Distinct s.jobs
      → All (Within r.id r.attempts) s.jobs
      → abort_row h now r.id user_reason s ≡ (u, true)
      → All (λ p. Keeps r p.0) rounds
      → All (Stopped r.id r.attempts) (finalize attempt rounds u).0.jobs
        × (yields (finalize attempt rounds u).1 ≡ true)
  finalize-yields rounds now user_reason s u d b e k = finalize-Stopped rounds u k (
      subst (λ x. All (Stopped r.id r.attempts) x.jobs) (ap (λ p. p.0) e)
        (aborted-Stopped h now r.id r.attempts user_reason s d b (ap (λ p. p.1) e)))
