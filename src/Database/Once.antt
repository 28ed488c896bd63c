-- ===== src/Database/Once.antt =====
-- A manual retry of a job that was retried.
use ironqueue.Common.{
  ℕ, ◌≡◌, refl, sym, ap, subst, ◌≢◌, none, some, List, [], ◌∷◌, ◌++◌, arith, Text,
}
use ironqueue.Database.Statement.{Fate, keep, remove, write, settle, apply, written_by, written}
use ironqueue.Database.Row.{JobRow, Store, Handle}
use ironqueue.Database.Abort.{retry_fate, fresh_occurrence, retry_source, retry_occurrence}
use ironqueue.Database.Dequeue.{before}

retry-idempotent :
    (q : Text) (now now' id : ℕ) (r : JobRow)
    → ((r' : JobRow) → retry_fate q now id r ≡ write r' → retry_fate q now' id r' ≡ keep)
unfolding retry_fate
retry-idempotent q now now' id r r' e = ground arith

retry-kept :
    (q : Text) (now now' id : ℕ) (r : JobRow)
    → retry_fate q now id r ≡ keep
    → retry_fate q now' id r ≡ keep
unfolding retry_fate
retry-kept q now now' id r e = ground arith

retry-removes : (q : Text) (now id : ℕ) (r : JobRow) → retry_fate q now id r ≢ remove
unfolding retry_fate
retry-removes q now id r e = ground arith

retried_all :
    (q : Text) (now now' id : ℕ) (rs : List JobRow)
    → written (retry_fate q now' id) (apply (retry_fate q now id) rs) ≡ []
unfolding apply settle written written_by
retried_all q now now' id [] = refl
retried_all q now now' id (r ∷ rs) = go (retry_fate q now id r) refl (retried_all q now now' id rs)
  where
    go :
        (f : Fate JobRow)
        → retry_fate q now id r ≡ f
        → written (retry_fate q now' id) (apply (retry_fate q now id) rs) ≡ []
        → written (retry_fate q now' id) (settle f r (apply (retry_fate q now id) rs)) ≡ []
    go keep e h = rw (retry-kept q now now' id r e) h
    go remove e h = h
    go (write r') e h = rw (retry-idempotent q now now' id r r' e) h

written-append {ℓ} :
    {A : Type ℓ} (fate : A → Fate A) (xs ys : List A)
    → written fate (xs ++ ys) ≡ written fate xs ++ written fate ys
unfolding written written_by
written-append fate [] ys = refl
written-append {A = A} fate (x ∷ xs) ys = go (fate x) (written-append fate xs ys)
  where
    go :
        (f : Fate A)
        → written fate (xs ++ ys) ≡ written fate xs ++ written fate ys
        → written_by f (written fate (xs ++ ys)) ≡ written_by f (written fate xs) ++ written fate ys
    go keep h = h
    go remove h = h
    go (write r) h = ap (λ rs. r ∷ rs) h

fresh-kept :
    (q : Text) (now id clock new_id : ℕ) (reason : Text) (r : JobRow)
    → new_id ≢ id
    → retry_fate q now id (fresh_occurrence clock new_id reason r) ≡ keep
unfolding retry_fate fresh_occurrence
fresh-kept q now id clock new_id reason r n = ground arith

retried_none :
    (q : Text) (now now' clock id new_id : ℕ) (reason : Text) (r : JobRow)
    (before after : List JobRow)
    → new_id ≢ id
    → after ≡ apply (retry_fate q now id) before ++ fresh_occurrence clock new_id reason r ∷ []
    → written (retry_fate q now' id) after ≡ []
unfolding written written_by
retried_none q now now' clock id new_id reason r before after n e =
    rw
      (
        e,
        written-append (retry_fate q now' id) (apply (retry_fate q now id) before)
            (fresh_occurrence clock new_id reason r ∷ []),
        retried_all q now now' id before,
        fresh-kept q now' id clock new_id reason r n,
      )
      refl

retried_source :
    (h : Handle) (now clock id new_id : ℕ) (reason : Text) (s t : Store) (found : List JobRow)
    → retry_source h now clock id new_id reason s found ≡ (t, some new_id)
    → (r : JobRow) × (t.jobs
        ≡ apply (retry_fate h.name now id) s.jobs ++ fresh_occurrence clock new_id reason r ∷ [])
unfolding retry_source
retried_source h now clock id new_id reason s t [] e = ground arith
retried_source h now clock id new_id reason s t (r ∷ rs) e = (r, ground arith)

-- A job that was retried is not retried again: once `retry_job_occurrence` made a fresh occurrence
-- under another id, a second call for the same job returns none and changes nothing.
pub retry_occurrence-once :
    (h : Handle) (now now' clock clock' id new_id new_id' : ℕ) (reason reason' : Text) (s t : Store)
    → new_id ≢ id
    → retry_occurrence h now clock id new_id reason s ≡ (t, some new_id)
    → retry_occurrence h now' clock' id new_id' reason' t ≡ (t, none)
unfolding retry_occurrence retry_source
retry_occurrence-once h now now' clock clock' id new_id new_id' reason reason' s t n e =
    let f =
      retried_source h now clock id new_id reason s t (written (retry_fate h.name now id) s.jobs)
        e in
    subst (λ rows. retry_source h now' clock' id new_id' reason' t rows ≡ (t, none))
      (sym (retried_none h.name now now' clock id new_id reason f.0 s.jobs t.jobs n f.1)) refl
