-- ===== src/History/Unacknowledged.antt =====
-- What a pass over unacknowledged claims leaves behind.
use ironqueue.Common.{
  ℕ, ◌≡◌, refl, sym, subst, ◌∙◌, ◌≢◌, inl, inr, Option, some, List, [], ◌∷◌, arith, Bool-cases, All,
  Text,
}
use ironqueue.Database.Statement.{Fate, keep, remove, write, settle, apply, apply-All}
use ironqueue.Database.Row.{JobRow, Store, Handle, AttemptGuard}
use ironqueue.Database.Requeue.{RequeueGuards, requeue_fate, requeue_guarded}
use ironqueue.Database.Finish.{is_unsettled, abort_unsettled_fate, abort_unsettled_claim}
use ironqueue.History.Lawful.{requeue-Lawful, abort_unsettled-Lawful}
use ironqueue.Database.Recovery.{
  unacknowledged_error, resolve_claim, resolve_claims, requeue_unacknowledged_claims,
}
use ironqueue.Database.Attempt.{refund_guards}
use ironqueue.Database.Limits.{Distinct}
use ironqueue.History.Fencing.{requeued-Fenced}
use ironqueue.History.Settlement.{Inactive, Settled, Inactive-All, Fenced-All, aborted-All}

-- A statement that keeps ids keeps them distinct.
ids-apart :
    (fate : JobRow → Fate JobRow) (id : ℕ)
    → ((r r' : JobRow) → fate r ≡ write r' → r'.id ≡ r.id)
    → (rs : List JobRow) → All (λ x. x.id ≢ id) rs
    → All (λ x. x.id ≢ id) (apply fate rs)
ids-apart fate id same rs h =
    apply-All (λ x. x.id ≢ id) fate (λ r r' n w e. n (sym (same r r' w) ∙ e)) rs h

Distinct-apply :
    (fate : JobRow → Fate JobRow)
    → ((r r' : JobRow) → fate r ≡ write r' → r'.id ≡ r.id)
    → (rs : List JobRow) → Distinct rs
    → Distinct (apply fate rs)
unfolding apply settle
Distinct-apply fate same [] d = tt
Distinct-apply fate same (r ∷ rs) d = go (fate r) refl (Distinct-apply fate same rs d.1)
  where
    go :
        (f : Fate JobRow)
        → fate r ≡ f
        → Distinct (apply fate rs)
        → Distinct (settle f r (apply fate rs))
    go keep e rest = (ids-apart fate r.id same rs d.0, rest)
    go remove e rest = rest
    go (write r') e rest = (
      subst (λ i. All (λ x. x.id ≢ i) (apply fate rs)) (sym (same r r' e))
          (ids-apart fate r.id same rs d.0),
      rest,
    )

module _ (h : Handle) (now : ℕ) (g : AttemptGuard) where
  requeue-Inactive :
      (g' : AttemptGuard) (e : Option Text) (d : ℕ) (gs : RequeueGuards) (r r' : JobRow)
      → Inactive h g' r
      → requeue_fate h.name now g e d gs r ≡ write r'
      → Inactive h g' r'
  unfolding requeue_fate is_unsettled
  requeue-Inactive g' e d gs r r' k w = ground arith

  abort-Inactive :
      (g' : AttemptGuard) (reason : Text) (r r' : JobRow)
      → Inactive h g' r
      → abort_unsettled_fate h.name now g reason r ≡ write r'
      → Inactive h g' r'
  unfolding abort_unsettled_fate is_unsettled
  abort-Inactive g' reason r r' k w = ground arith

  -- The claim is settled, what was settled stays so, and ids stay distinct.
  resolve_claim-settles :
      (s : Store) (back gone : ℕ)
      → Distinct s.jobs
      → All (Inactive h g) (resolve_claim h now g (s, back, gone)).0.jobs
        × Distinct (resolve_claim h now g (s, back, gone)).0.jobs
  unfolding resolve_claim abort_unsettled_claim requeue_guarded
  resolve_claim-settles s back gone d =
      let tried = requeue_guarded h now g (some unacknowledged_error) 0 refund_guards s in
      let given =
        Distinct-apply (requeue_fate h.name now g (some unacknowledged_error) 0 refund_guards)
          (λ r r' w.
            ((requeue-Lawful h.name now g (some unacknowledged_error) 0 refund_guards r r' w).0
            ).same_id)
          s.jobs d in
      let rest = aborted-All h now g unacknowledged_error (tried.0.jobs) in
      let ended =
        Distinct-apply (abort_unsettled_fate h.name now g unacknowledged_error)
          (λ r r' w. ((abort_unsettled-Lawful h.name now g unacknowledged_error r r' w).0).same_id)
          (tried.0.jobs) given in
      elim (Bool-cases (tried.1)) [
        | inl p ↦ rw p (
          Fenced-All h g _
              (requeued-Fenced h now g (some unacknowledged_error) 0 refund_guards s d p),
          given,
        )
        | inr p ↦
            elim (Bool-cases ((abort_unsettled_claim h now g unacknowledged_error (tried.0)).1)) [
              | inl q ↦ rw (p, q) (rest, ended)
              | inr q ↦ rw (p, q) (rest, ended)
            ]
      ]

  resolve_claim-keeps :
      (g' : AttemptGuard) (s : Store) (back gone : ℕ)
      → All (Inactive h g') s.jobs
      → All (Inactive h g') (resolve_claim h now g (s, back, gone)).0.jobs
  unfolding resolve_claim abort_unsettled_claim requeue_guarded
  resolve_claim-keeps g' s back gone k =
      let tried = requeue_guarded h now g (some unacknowledged_error) 0 refund_guards s in
      let given =
        apply-All (Inactive h g')
          (requeue_fate h.name now g (some unacknowledged_error) 0 refund_guards)
          (requeue-Inactive g' (some unacknowledged_error) 0 refund_guards) s.jobs k in
      let ended =
        apply-All (Inactive h g') (abort_unsettled_fate h.name now g unacknowledged_error)
          (abort-Inactive g' unacknowledged_error) (tried.0.jobs) given in
      elim (Bool-cases (tried.1)) [
        | inl p ↦ rw p given
        | inr p ↦
            elim (Bool-cases ((abort_unsettled_claim h now g unacknowledged_error (tried.0)).1)) [
              | inl q ↦ rw (p, q) ended
              | inr q ↦ rw (p, q) ended
            ]
      ]

resolve_claims-keeps :
    (h : Handle) (now : ℕ) (g' : AttemptGuard) (gs : List AttemptGuard) (s : Store) (back gone : ℕ)
    → All (Inactive h g') s.jobs
    → All (Inactive h g') (resolve_claims h now gs (s, back, gone)).0.jobs
unfolding resolve_claims
resolve_claims-keeps h now g' [] s back gone k = k
resolve_claims-keeps h now g' (g ∷ gs) s back gone k =
    let next = resolve_claim h now g (s, back, gone) in
    resolve_claims-keeps h now g' gs (next.0) (next.1) (next.2)
      (resolve_claim-keeps h now g g' s back gone k)

resolve_claims-settles :
    (h : Handle) (now : ℕ) (gs : List AttemptGuard) (s : Store) (back gone : ℕ)
    → Distinct s.jobs
    → All (λ g. All (Inactive h g) (resolve_claims h now gs (s, back, gone)).0.jobs) gs
unfolding resolve_claims
resolve_claims-settles h now [] s back gone d = tt
resolve_claims-settles h now (g ∷ gs) s back gone d =
    let next = resolve_claim h now g (s, back, gone) in
    let done_one = resolve_claim-settles h now g s back gone d in
    (
      resolve_claims-keeps h now g gs (next.0) (next.1) (next.2) done_one.0,
      resolve_claims-settles h now gs (next.0) (next.1) (next.2) done_one.1,
    )

all_settled :
    (h : Handle) (rs : List JobRow) (gs : List AttemptGuard)
    → All (λ g. All (Inactive h g) rs) gs
    → All (λ g. All (Settled h g) rs) gs
all_settled h rs [] k = tt
all_settled h rs (g ∷ gs) k = (Inactive-All h g rs k.0, all_settled h rs gs k.1)

-- A pass over claims whose commit nobody acknowledged ends them all: on a table without duplicate ids,
-- for each claim every row is of another job, queue, attempt or owner, or is neither running nor
-- aborting, afterwards.
pub requeue_unacknowledged_claims-settles :
    (h : Handle) (now : ℕ) (claims : List AttemptGuard) (s : Store)
    → Distinct s.jobs
    → All (λ g. All (Settled h g) (requeue_unacknowledged_claims h now claims s).0.jobs) claims
unfolding requeue_unacknowledged_claims
requeue_unacknowledged_claims-settles h now claims s d =
    all_settled h (resolve_claims h now claims (s, 0, 0)).0.jobs claims
      (resolve_claims-settles h now claims s 0 0 d)
