-- ===== src/Waiting/Finished.antt =====
-- A wait on a job that finishes in a history of calls.
use ironqueue.Common.{
  refl, Text, codes, Option, ℕ, ◌≡◌, sym, subst, inl, inr, Bool, true, not, none, some, List, [],
  ◌∷◌, arith, ◌==◌, Bool-cases, All, select, text_eq,
}
use ironqueue.Job.Status.{JobStatus, queued, running, aborting, complete, is_terminal}
use ironqueue.Job.Json.{Value, null}
use ironqueue.Job.Stored.{JobErrorKind, JobError, new_error, from_stored}
use ironqueue.Job.Config.{Calendar}
use ironqueue.Database.Row.{JobRow, Store, Handle}
use ironqueue.Database.Lease.{find_row}
use ironqueue.History.Calls.{Call, run}
use ironqueue.History.Induction.{NeverAdds}
use ironqueue.History.Outcome.{Keeps, run-Keeps}
use ironqueue.Waiting.Resolve.{
  WaitEnd, answered, job_failed, result_expired, job_not_found, pool_closed, JobOutcome, outcome_of,
  job_outcome, or_null, aborted_reason, stored_error, resolve_as, resolve, resolve_deleted,
}
use ironqueue.Waiting.Poll.{Read, closed, lost, found, Poll, wait_inner}
use ironqueue.Waiting.Told.{
  Explained, as_stored, as_deleted, purged, unknown, torn_down, Faithful, FaithfulEvent,
  FaithfulPoll, wait_inner-Explained,
}

module _ (id n : ℕ) (o : JobOutcome) where
  -- The rows under the id have the outcome.
  abbrev pub Settles : JobRow → Type 0
  Settles = Keeps id n o.status o.result o.error

  settled_row : (r : JobRow) → r.id ≡ id → Settles r → Faithful o (found (outcome_of (some r)))
  settled_row r e (Keeps.elsewhere other) = absurd (other e)
  settled_row r e (Keeps.here a b c d) = inr (cc (a, c, d))

  found_row : (rs : List JobRow) → All Settles rs → Faithful o (found (outcome_of (find_row id rs)))
  unfolding find_row
  found_row [] h = tt
  found_row (r ∷ rs) h = elim (Bool-cases (r.id == id)) [
    | inl y ↦ rw y (settled_row r (ground arith) h.0)
    | inr m ↦ rw m (found_row rs h.1)
  ]

  selected_rows :
      (f : JobRow → Bool) (rs : List JobRow) → All Settles rs → All Settles (select f rs)
  unfolding select
  selected_rows f [] h = tt
  selected_rows f (r ∷ rs) h = elim (Bool-cases (f r)) [
    | inl y ↦ rw (y, select) (h.0, selected_rows f rs h.1)
    | inr m ↦ rw (m, select) (selected_rows f rs h.1)
  ]

  Settles-Faithful :
      (h : Handle) (s : Store) → All Settles s.jobs → Faithful o (found (job_outcome h id s))
  unfolding job_outcome
  Settles-Faithful h s k =
      found_row (select (λ r. text_eq r.queue h.name) s.jobs)
        (selected_rows (λ r. text_eq r.queue h.name) s.jobs k)

-- What a wait may say of a job that ended with the outcome `o`: its result, its error, an abort, that
-- the result expired, that the job is missing, or that the pool is closed.
pub data Tells (o : JobOutcome) (e : WaitEnd) : Type 0 where
  result : (v : Value) → o.status ≡ complete → o.result ≡ some v → e ≡ answered v → Tells o e
  no_result : o.status ≡ complete → o.result ≡ none → e ≡ answered null → Tells o e
  stored_failure :
      (t : Text)
      → o.status ≡ JobStatus.failed
      → o.error ≡ some t
      → e ≡ job_failed (from_stored t)
      → Tells o e
  bare_failure :
      (x : JobError)
      → o.status ≡ JobStatus.failed
      → o.error ≡ none
      → x.kind ≡ JobErrorKind.failed
      → e ≡ job_failed x
      → Tells o e
  deleted_failure :
      o.status ≡ JobStatus.failed
      → e ≡ job_failed (new_error JobErrorKind.failed (codes "job failed and was deleted"))
      → Tells o e
  stored_abort :
      (t : Text)
      → o.status ≡ JobStatus.aborted
      → o.error ≡ some t
      → e ≡ job_failed (new_error JobErrorKind.aborted t)
      → Tells o e
  bare_abort :
      o.status ≡ JobStatus.aborted
      → o.error ≡ none
      → e ≡ job_failed (new_error JobErrorKind.aborted (codes "aborted"))
      → Tells o e
  deleted_abort :
      o.status ≡ JobStatus.aborted
      → e ≡ job_failed (new_error JobErrorKind.aborted (codes "job was aborted and deleted"))
      → Tells o e
  expired : e ≡ result_expired → Tells o e
  missing : e ≡ job_not_found → Tells o e
  closed_pool : e ≡ pool_closed → Tells o e

module _ (o : JobOutcome) (e : WaitEnd) where
  complete-Tells :
      (v : Option Value) → o.status ≡ complete → o.result ≡ v → e ≡ answered (or_null v) → Tells o e
  unfolding or_null
  complete-Tells none s q k = Tells.no_result s q k
  complete-Tells (some v) s q k = Tells.result v s q k

  failed-Tells :
      (t : Option Text)
      → o.status ≡ JobStatus.failed
      → o.error ≡ t
      → e ≡ job_failed (stored_error JobStatus.failed t)
      → Tells o e
  unfolding stored_error new_error
  failed-Tells none s q k = Tells.bare_failure _ s q refl k
  failed-Tells (some t) s q k = Tells.stored_failure t s q k

  aborted-Tells :
      (t : Option Text)
      → o.status ≡ JobStatus.aborted
      → o.error ≡ t
      → e ≡ job_failed (new_error JobErrorKind.aborted (aborted_reason t))
      → Tells o e
  unfolding aborted_reason
  aborted-Tells none s q k = Tells.bare_abort s q k
  aborted-Tells (some t) s q k = Tells.stored_abort t s q k

  resolved-Tells :
      (st : JobStatus) → o.status ≡ st → is_terminal st ≡ true → e ≡ resolve_as st o → Tells o e
  unfolding resolve_as is_terminal new_error
  resolved-Tells complete s t k = complete-Tells o.result s refl k
  resolved-Tells JobStatus.failed s t k = failed-Tells o.error s refl k
  resolved-Tells JobStatus.aborted s t k = aborted-Tells o.error s refl k
  resolved-Tells queued s t k = ground arith
  resolved-Tells running s t k = ground arith
  resolved-Tells aborting s t k = ground arith

  deleted-Tells :
      (st : JobStatus) → o.status ≡ st → is_terminal st ≡ true → e ≡ resolve_deleted st → Tells o e
  unfolding resolve_deleted is_terminal new_error
  deleted-Tells complete s t k = Tells.expired k
  deleted-Tells JobStatus.failed s t k = Tells.deleted_failure s k
  deleted-Tells JobStatus.aborted s t k = Tells.deleted_abort s k
  deleted-Tells queued s t k = ground arith
  deleted-Tells running s t k = ground arith
  deleted-Tells aborting s t k = ground arith

  Explained-Tells : is_terminal o.status ≡ true → Explained o e → Tells o e
  unfolding resolve
  Explained-Tells t (as_stored k) = resolved-Tells o.status refl t k
  Explained-Tells t (as_deleted k) = deleted-Tells o.status refl t k
  Explained-Tells t (purged k) = Tells.expired k
  Explained-Tells t (unknown k) = Tells.missing k
  Explained-Tells t (torn_down k) = Tells.closed_pool k

unfoldable pub settles_nothing : Read → Bool
settles_nothing (found (some o)) = not (is_terminal o.status)
settles_nothing _ = true

-- A read that settles nothing, or one of the table that a history leads to from `u`.
pub data Observed (calendar : Calendar) (chunks : Value → List ℕ) (h : Handle) (u : Store) (id : ℕ)
    (x : Read) : Type 0 where
  unfinished : settles_nothing x ≡ true → Observed calendar chunks h u id x
  since :
      (cs : List (Handle × Call))
      → NeverAdds id cs
      → x ≡ found (job_outcome h id (run calendar chunks cs u))
      → Observed calendar chunks h u id x

module _ (calendar : Calendar) (chunks : Value → List ℕ) (h : Handle) (u : Store) (id n : ℕ)
    (o : JobOutcome) where
  abbrev pub ObservedEvent : JobStatus × Read → Type 0
  ObservedEvent e = (e.0 ≡ o.status) × Observed calendar chunks h u id e.1

  abbrev pub ObservedPoll : Poll → Type 0
  ObservedPoll p = Observed calendar chunks h u id p.read × All ObservedEvent p.events

  module _ (ended : is_terminal o.status ≡ true) (settled : All (Settles id n o) u.jobs) where
    unsettled : (x : Read) → settles_nothing x ≡ true → Faithful o x
    unfolding settles_nothing
    unsettled closed e = tt
    unsettled lost e = tt
    unsettled (found none) e = tt
    unsettled (found (some x)) e = inl (ground arith)

    Observed-Faithful : (x : Read) → Observed calendar chunks h u id x → Faithful o x
    Observed-Faithful x (unfinished e) = unsettled x e
    Observed-Faithful x (since cs never e) = subst (Faithful o) (sym e) (
        Settles-Faithful id n o h (run calendar chunks cs u)
          (run-Keeps calendar chunks cs u id n o.status o.result o.error ended never settled))

    events-Faithful :
        (events : List (JobStatus × Read)) → All ObservedEvent events → All (FaithfulEvent o) events
    events-Faithful [] k = tt
    events-Faithful (e ∷ es) k = ((k.0.0, Observed-Faithful e.1 k.0.1), events-Faithful es k.1)

    polls-Faithful : (polls : List Poll) → All ObservedPoll polls → All (FaithfulPoll o) polls
    polls-Faithful [] k = tt
    polls-Faithful (p ∷ ps) k =
        ((Observed-Faithful p.read k.0.0, events-Faithful p.events k.0.1), polls-Faithful ps k.1)

    -- Where the rows under an id have a terminal outcome and no later call adds the id again: a wait
    -- whose every read failed, found no row, found one that is not terminal, or read the table after
    -- some history from there, and whose completion events all carry the outcome's status, ends, if it
    -- ends, with the job's own result, with its error, as aborted where it was aborted, as expired, as
    -- a missing job or at a closed pool.
    pub wait_inner-told :
        (awaited : Bool) (registration : Read) (polls : List Poll) (e : WaitEnd)
        → All ObservedPoll polls
        → wait_inner awaited registration polls ≡ some e
        → Tells o e
    wait_inner-told awaited registration polls e k w =
        Explained-Tells o e ended
          (wait_inner-Explained o awaited registration polls e (polls-Faithful polls k) w)
