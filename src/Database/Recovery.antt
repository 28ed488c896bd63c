-- ===== src/Database/Recovery.antt =====
-- Claims whose owner never settled them: `requeue_unacknowledged_claims` and
-- `resolve_dropped_attempt` of ironqueue/src/database.rs. Each pass is one transaction.
use ironqueue.Common.{ℕ, ◌+◌, true, some, List, [], ◌∷◌, if◌then◌else◌, Text, codes}
use ironqueue.Database.Row.{Store, Handle, AttemptGuard}
use ironqueue.Database.Requeue.{requeue_guarded, record_retry}
use ironqueue.Database.Finish.{abort_unsettled_claim}
use ironqueue.Database.Attempt.{retry_guards, refund_guards}

abbrev pub unacknowledged_error : Text
unacknowledged_error = codes "dequeue commit was not acknowledged"

abbrev pub dropped_error : Text
dropped_error = codes "attempt dropped without settlement"

abbrev count_aborts : ℕ → Store → Store
count_aborts n s = record s { stats = record (s.stats) { aborted = s.stats.aborted + n } }

-- One claim of a pass: given back with a refund, or else aborted. The counts are those of the rows
-- requeued and aborted so far.
unfoldable pub resolve_claim : Handle → ℕ → AttemptGuard → Store × ℕ × ℕ → Store × ℕ × ℕ
unfolding requeue_guarded abort_unsettled_claim
resolve_claim h now g (s, back, gone) =
    let (s', did) = requeue_guarded h now g (some unacknowledged_error) 0 refund_guards s in
    let (s'', stopped) = abort_unsettled_claim h now g unacknowledged_error s' in
    if did
    then (s', back + 1, gone)
    else if stopped
    then (s'', back, gone + 1)
    else (s'', back, gone)

unfoldable pub resolve_claims : Handle → ℕ → List AttemptGuard → Store × ℕ × ℕ → Store × ℕ × ℕ
unfolding resolve_claim
resolve_claims h now [] acc = acc
resolve_claims h now (g ∷ gs) acc = resolve_claims h now gs (resolve_claim h now g acc)

-- The pass, and how many claims were given back.
unfoldable pub requeue_unacknowledged_claims : Handle → ℕ → List AttemptGuard → Store → Store × ℕ
unfolding resolve_claims
requeue_unacknowledged_claims h now claims s =
    let (s', back, gone) = resolve_claims h now claims (s, 0, 0) in (count_aborts gone s', back)

pub data Resolution : Type 0 where
  requeued_attempt aborted_attempt unchanged : Resolution

-- `resolve_dropped_attempt`, with the counters of its caller.
unfoldable pub resolve_dropped_attempt : Handle → ℕ → AttemptGuard → ℕ → Store → Store × Resolution
unfolding requeue_guarded abort_unsettled_claim record_retry
resolve_dropped_attempt h now g retry_delay_ms s =
    let (s', did) = requeue_guarded h now g (some dropped_error) retry_delay_ms retry_guards s in
    let (s'', stopped) = abort_unsettled_claim h now g dropped_error s' in
    if did
    then (record_retry true s', requeued_attempt)
    else if stopped
    then (count_aborts 1 s'', aborted_attempt)
    else (s'', unchanged)
