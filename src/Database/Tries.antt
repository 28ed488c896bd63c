-- ===== src/Database/Tries.antt =====
-- What a claim and giving it back do to the tries of a job.
use ironqueue.Common.{ℕ, ◌+◌, ◌-◌, ◌≤◌, ◌<◌, ◌≡◌, Bool, true, false, Option, List, arith, Text}
use ironqueue.Database.Statement.{write}
use ironqueue.Database.Row.{JobRow, Handle, AttemptGuard, attempts_ceiling}
use ironqueue.Database.Requeue.{RequeueGuards, requeue_fate}
use ironqueue.Database.Dequeue.{claim_fate}

-- The tries that a row has left.
abbrev pub tries_left : JobRow → ℕ
tries_left r = r.max_attempts - r.attempts

-- A claim that is given back with a refund (a shutdown, a consumer that found no handler, a commit that
-- nobody acknowledged) leaves the job the tries it had, for a `max_attempts` below the ceiling.
claim-refund :
    (h : Handle) (now later w : ℕ) (admitted : Bool) (ids : List ℕ) (g : AttemptGuard)
    (e : Option Text) (d : ℕ) (gs : RequeueGuards) (r claim back : JobRow)
    → gs.refund_attempt ≡ true
    → r.max_attempts < attempts_ceiling
    → claim_fate h now w admitted ids r ≡ write claim
    → requeue_fate h.name later g e d gs claim ≡ write back
    → tries_left back ≡ tries_left r
unfolding claim_fate requeue_fate
claim-refund h now later w admitted ids g e d gs r claim back f c k q = ground arith

-- A claim that is given back without a refund (a retry) costs exactly one try, and is only given back
-- while a try is left: before the claim there were at least two.
claim-retry :
    (h : Handle) (now later w : ℕ) (admitted : Bool) (ids : List ℕ) (g : AttemptGuard)
    (e : Option Text) (d : ℕ) (gs : RequeueGuards) (r claim back : JobRow)
    → gs.refund_attempt ≡ false
    → claim_fate h now w admitted ids r ≡ write claim
    → requeue_fate h.name later g e d gs claim ≡ write back
    → (tries_left back + 1 ≡ tries_left r) × (1 ≤ tries_left back)
unfolding claim_fate requeue_fate
claim-retry h now later w admitted ids g e d gs r claim back f k q = ground arith
