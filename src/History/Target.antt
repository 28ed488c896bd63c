-- ===== src/History/Target.antt =====
-- A statement on one row of a table without duplicate ids.
-- A statement that touches the rows of one id only, and makes `P` true of the row it writes.
use ironqueue.Common.{
  ℕ, ◌≡◌, refl, sym, subst, ◌∙◌, ◌≢◌, inl, inr, true, false, List, [], ◌∷◌, ◌++◌, arith, ◌==◌,
  Bool-cases, All,
}
use ironqueue.Database.Statement.{
  Fate, keep, remove, write, settle, apply, written_by, written, removed_by, removed,
}
use ironqueue.Database.Row.{JobRow}
use ironqueue.Database.Requeue.{is_nonempty}
use ironqueue.Database.Limits.{Distinct}

module _ {κ} (P : JobRow → Type κ) (id : ℕ) (fate : JobRow → Fate JobRow)
    (other : (r : JobRow) → r.id ≢ id → P r) (targets : (r : JobRow) → r.id ≢ id → fate r ≡ keep)
    (makes : (r r' : JobRow) → fate r ≡ write r' → P r') where
  untouched :
      (rs : List JobRow)
      → All (λ r. r.id ≢ id) rs
      → (apply fate rs ≡ rs) × (removed fate rs ≡ []) × (written fate rs ≡ [])
  unfolding apply removed written
  untouched [] h = (refl, refl, refl)
  untouched (r ∷ rs) h = rw (targets r h.0) (ground (arith, untouched rs h.1))

  elsewhere-All : (rs : List JobRow) → All (λ r. r.id ≢ id) rs → All P rs
  elsewhere-All [] h = tt
  elsewhere-All (r ∷ rs) h = (other r h.0, elsewhere-All rs h.1)

  rest-All : (rs : List JobRow) → All (λ r. r.id ≢ id) rs → All P (apply fate rs)
  rest-All rs h = subst (All P) (sym (untouched rs h).0) (elsewhere-All rs h)

  same_ids : (m : ℕ) (rs : List JobRow) → m ≡ id → All (λ x. x.id ≢ m) rs → All (λ x. x.id ≢ id) rs
  same_ids m rs e = subst (λ k. All (λ x. x.id ≢ k) rs) e

  found_nothing :
      (rs : List JobRow)
      → All (λ r. r.id ≢ id) rs
      → is_nonempty (removed fate rs ++ written fate rs) ≡ false
  unfolding is_nonempty
  found_nothing rs h = rw ((untouched rs h).1, (untouched rs h).2) refl

  at_head : (f : Fate JobRow) (r : JobRow) → fate r ≡ f → f ≢ keep → r.id ≡ id
  at_head f r e k = elim (Bool-cases (r.id == id)) [
    | inl p ↦ ground arith
    | inr p ↦ absurd (k (sym e ∙ targets r (ground arith)))
  ]

  target_cons :
      (f : Fate JobRow) (r : JobRow) (rs : List JobRow)
      → fate r ≡ f
      → All (λ x. x.id ≢ r.id) rs
      → (is_nonempty (removed fate rs ++ written fate rs) ≡ true → All P (apply fate rs))
      → is_nonempty (removed_by f r (removed fate rs) ++ written_by f (written fate rs)) ≡ true
      → All P (settle f r (apply fate rs))
  unfolding settle removed_by written_by
  target_cons keep r rs e d rest h = elim (Bool-cases (r.id == id)) [
    | inl p ↦ absurd (ground (arith, found_nothing rs (same_ids r.id rs (ground arith) d)))
    | inr p ↦ (other r (ground arith), rest h)
  ]
  target_cons remove r rs e d rest h =
      rest-All rs (same_ids r.id rs (at_head remove r e (λ k. cc)) d)
  target_cons (write r') r rs e d rest h =
      (makes r r' e, rest-All rs (same_ids r.id rs (at_head (write r') r e (λ k. cc)) d))

  -- A statement that found its row has made `P` true of the whole table.
  pub apply-target :
      (rs : List JobRow)
      → Distinct rs
      → is_nonempty (removed fate rs ++ written fate rs) ≡ true
      → All P (apply fate rs)
  unfolding apply removed written
  apply-target [] d h = tt
  apply-target (r ∷ rs) d h = target_cons (fate r) r rs refl d.0 (apply-target rs d.1) h

-- A statement that keeps every row.
module _ {ℓ κ} {A : Type ℓ} (P : A → Type κ) (fate : A → Fate A)
    (keeps : (r : A) → P r → fate r ≡ keep) where
  pub keeps-All :
      (rs : List A)
      → All P rs
      → (apply fate rs ≡ rs) × (removed fate rs ≡ []) × (written fate rs ≡ [])
  unfolding apply removed written
  keeps-All [] h = (refl, refl, refl)
  keeps-All (r ∷ rs) h = rw (keeps r h.0) (ground (arith, keeps-All rs h.1))
