-- ===== src/Worker/Stopped.antt =====
-- Rows that a user withdrew before another attempt began.
use ironqueue.Common.{
  ℕ, ◌≤◌, ◌≡◌, sym, subst, ◌∙◌, ◌≢◌, ◌⊎◌, inl, inr, Bool, true, some, List, [], ◌∷◌, arith, ◌==◌,
  Bool-cases, All, select, Text,
}
use ironqueue.Database.Statement.{write, apply, apply-All}
use ironqueue.Database.Row.{JobRow, Store, Handle}
use ironqueue.Database.Abort.{abort_fate, abort_row}
use ironqueue.Database.Lease.{find_row}
use ironqueue.Database.Limits.{Distinct}
use ironqueue.History.Moves.{SameJob, Moves}
use ironqueue.History.Withdrawal.{
  Withdrawn, elsewhere, gone, asked, Withdrawn-Moves, aborted-Withdrawn,
}

-- A row of another job, or one with at most `n` attempts.
abbrev pub Within : ℕ → ℕ → JobRow → Type 0
Within id n r = (r.id ≢ id) ⊎ (r.attempts ≤ n)

abbrev pub Stopped : ℕ → ℕ → JobRow → Type 0
Stopped id n r = Withdrawn id r × Within id n r

pub only-Withdrawn : (id n : ℕ) (rs : List JobRow) → All (Stopped id n) rs → All (Withdrawn id) rs
only-Withdrawn id n [] k = tt
only-Withdrawn id n (r ∷ rs) k = (k.0.0, only-Withdrawn id n rs k.1)

both :
    (id n : ℕ) (rs : List JobRow)
    → All (Withdrawn id) rs
    → All (Within id n) rs
    → All (Stopped id n) rs
both id n [] a b = tt
both id n (r ∷ rs) a b = ((a.0, b.0), both id n rs a.1 b.1)

Within-Moves :
    (id n : ℕ) (r r' : JobRow)
    → Withdrawn id r
    → Within id n r
    → SameJob r r'
    → Moves r r'
    → Within id n r'
Within-Moves id n r r' w (inl o) j m = inl (λ same. o (sym (j.same_id) ∙ same))
Within-Moves id n r r' (elsewhere o) (inr le) j m = inl (λ same. o (sym (j.same_id) ∙ same))
Within-Moves id n r r' (gone a) (inr le) j m = grind arith
Within-Moves id n r r' (asked a b) (inr le) j m = grind arith

pub Stopped-Moves :
    (id n : ℕ) (r r' : JobRow) → Stopped id n r → SameJob r r' → Moves r r' → Stopped id n r'
Stopped-Moves id n r r' k j m =
    (Withdrawn-Moves id r r' k.0 j m, Within-Moves id n r r' k.0 k.1 j m)

module _ (P : JobRow → Type 0) where
  selected-All : (f : JobRow → Bool) (rs : List JobRow) → All P rs → All P (select f rs)
  unfolding select
  selected-All f [] k = tt
  selected-All f (r ∷ rs) k = elim (Bool-cases (f r)) [
    | inl y ↦ rw (y, select) (k.0, selected-All f rs k.1)
    | inr m ↦ rw (m, select) (selected-All f rs k.1)
  ]

  -- What a lookup finds of rows that all have a property.
  pub found-All :
      (id : ℕ) (rs : List JobRow) (c : JobRow)
      → All P rs
      → find_row id rs ≡ some c
      → P c × (c.id ≡ id)
  unfolding find_row
  found-All id [] c k e = ground arith
  found-All id (r ∷ rs) c k e = elim (Bool-cases (r.id == id)) [
    | inl same ↦
        let q : r ≡ c = ground arith in subst (λ x. P x × (x.id ≡ id)) q (k.0, ground arith)
    | inr other ↦ found-All id rs c k.1 (ground arith)
  ]

  pub find_row-All :
      (f : JobRow → Bool) (id : ℕ) (rs : List JobRow) (c : JobRow)
      → All P rs
      → find_row id (select f rs) ≡ some c
      → P c × (c.id ≡ id)
  find_row-All f id rs c k e = found-All id (select f rs) c (selected-All f rs k) e

abort-Within :
    (q : Text) (now id n : ℕ) (user_id : ℕ) (reason : Text) (r r' : JobRow)
    → Within id n r
    → abort_fate q now user_id reason r ≡ write r'
    → Within id n r'
unfolding abort_fate
abort-Within q now id n user_id reason r r' (inl o) w = inl (ground arith)
abort-Within q now id n user_id reason r r' (inr le) w = inr (ground arith)

pub aborted-Stopped :
    (h : Handle) (now id n : ℕ) (reason : Text) (s : Store)
    → Distinct s.jobs
    → All (Within id n) s.jobs
    → (abort_row h now id reason s).1 ≡ true
    → All (Stopped id n) (abort_row h now id reason s).0.jobs
unfolding abort_row
aborted-Stopped h now id n reason s d k w =
    both id n (apply (abort_fate h.name now id reason) s.jobs)
      (aborted-Withdrawn h now id reason s d w)
      (apply-All (Within id n) (abort_fate h.name now id reason)
        (abort-Within h.name now id n id reason) s.jobs k)
