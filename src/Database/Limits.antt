-- ===== src/Database/Limits.antt =====
-- How many rows a statement over a list of ids touches.
use ironqueue.Common.{
  ℕ, suc, ◌+◌, ◌≤◌, ◌≡◌, refl, sym, subst, ◌≢◌, inl, inr, Bool, true, not, ◌&&◌, ◌||◌, List, [],
  ◌∷◌, map, arith, ◌==◌, Bool-cases, length, take, length-take, select, any, All, ok,
}
use ironqueue.Database.Statement.{
  Fate, keep, remove, write, written_by, written, removed_by, removed,
}
use ironqueue.Database.Row.{JobRow, Store, Handle}
use ironqueue.Database.Dequeue.{
  insert_row, sort_rows, is_ready, has_id, candidates, claim_fate, dequeue,
}
use ironqueue.Database.Claims.{admission, dequeue-ok}

-- No two rows share an id.

abbrev pub Distinct : List JobRow → Type 0
Distinct [] = Unit
Distinct (r ∷ rs) = All (λ x. x.id ≢ r.id) rs × Distinct rs

select-or {ℓ} :
    {A : Type ℓ} (p q : A → Bool) (xs : List A)
    → length (select (λ x. p x || q x) xs) ≤ length (select p xs) + length (select q xs)
unfolding select
select-or p q [] = omega arith
select-or p q (x ∷ xs) = ground (arith, select-or p q xs)

select_other :
    (i m : ℕ) (rs : List JobRow) → i ≡ m → All (λ r. r.id ≢ m) rs → select (λ r. i == r.id) rs ≡ []
unfolding select
select_other i m [] e h = refl
select_other i m (r ∷ rs) e h = ground (arith, select_other i m rs e h.1, h.0)

select_one : (i : ℕ) (rs : List JobRow) → Distinct rs → length (select (λ r. i == r.id) rs) ≤ 1
unfolding select
select_one i [] d = omega arith
select_one i (r ∷ rs) d = elim (Bool-cases (i == r.id)) [
  | inl p ↦ ground (arith, select_other i r.id rs (ground arith) d.0)
  | inr p ↦ ground (arith, select_one i rs d.1)
]

select_none : (rs : List JobRow) → select (λ r. has_id [] r.id) rs ≡ []
unfolding select has_id any
select_none [] = refl
select_none (r ∷ rs) = select_none rs

-- With distinct ids no more rows match a list of ids than it has entries.
select_ids :
    (ids : List ℕ) (rs : List JobRow)
    → Distinct rs
    → length (select (λ r. has_id ids r.id) rs) ≤ length ids
unfolding has_id any
select_ids [] rs d = rw (select_none rs) (omega arith)
select_ids (i ∷ is) rs d = omega (
  arith,
  select-or (λ r. i == r.id) (λ r. has_id is r.id) rs,
  select_one i rs d,
  select_ids is rs d,
)

matched :
    (fate : JobRow → Fate JobRow) (ids : List ℕ)
    → ((r : JobRow) → fate r ≢ keep → has_id ids r.id ≡ true)
    → (rs : List JobRow)
    → length (removed fate rs) + length (written fate rs)
      ≤ length (select (λ r. has_id ids r.id) rs)
unfolding removed written removed_by written_by select
matched fate ids named [] = omega arith
matched fate ids named (r ∷ rs) = go (fate r) refl (matched fate ids named rs)
  where
    go :
        (f : Fate JobRow)
        → fate r ≡ f
        → length (removed fate rs) + length (written fate rs)
          ≤ length (select (λ r. has_id ids r.id) rs)
        → length (removed_by f r (removed fate rs)) + length (written_by f (written fate rs))
          ≤ length (select (λ r. has_id ids r.id) (r ∷ rs))
    go keep e h = ground arith
    go remove e h = ground (arith, named r (λ k. cc))
    go (write r') e h = ground (arith, named r (λ k. cc))

length-insert_row : (r : JobRow) (rs : List JobRow) → length (insert_row r rs) ≡ suc (length rs)
unfolding insert_row
length-insert_row r [] = refl
length-insert_row r (s ∷ ss) = ground (arith, length-insert_row r ss)

length-sort_rows : (rs : List JobRow) → length (sort_rows rs) ≡ length rs
unfolding sort_rows
length-sort_rows [] = refl
length-sort_rows (r ∷ rs) = omega (arith, length-insert_row r (sort_rows rs), length-sort_rows rs)

pub length-map {ℓ κ} :
    {A : Type ℓ} {B : Type κ} (f : A → B) (xs : List A) → length (map f xs) ≡ length xs
length-map f [] = refl
length-map f (x ∷ xs) = omega (arith, length-map f xs)

candidates-limit :
    (h : Handle) (now : ℕ) (locked : ℕ → Bool) (limit : ℕ) (rs : List JobRow)
    → length (candidates h now locked limit rs) ≤ limit
unfolding candidates
candidates-limit h now locked limit rs =
    let sorted = sort_rows (select (λ r. is_ready h now r && not (locked r.id)) rs) in
    omega (arith, length-map (λ (r : JobRow). r.id) (take limit sorted), length-take limit sorted)

claim-named :
    (h : Handle) (now w : ℕ) (admitted : Bool) (ids : List ℕ) (r : JobRow)
    → claim_fate h now w admitted ids r ≢ keep
    → has_id ids r.id ≡ true
unfolding claim_fate
claim-named h now w admitted ids r n = ground arith

pub length-touched :
    (fate : JobRow → Fate JobRow) (ids : List ℕ)
    → ((r : JobRow) → fate r ≢ keep → has_id ids r.id ≡ true)
    → (rs : List JobRow) → Distinct rs
    → length (removed fate rs) + length (written fate rs) ≤ length ids
length-touched fate ids named rs d = omega (arith, matched fate ids named rs, select_ids ids rs d)

-- A claim takes at most `limit` rows of a table without duplicate ids.
pub dequeue-limit :
    (h : Handle) (now : ℕ) (locked : ℕ → Bool) (limit w : ℕ) (guarded : Bool) (s t : Store)
    (batch : List JobRow)
    → Distinct s.jobs
    → dequeue h now locked limit w guarded s ≡ ok (t, batch)
    → length batch ≤ limit
dequeue-limit h now locked limit w guarded s t batch d e =
    let b = (dequeue-ok h now locked limit w guarded s t batch e).1 in
    let ids = candidates h now locked limit s.jobs in
    let fate = claim_fate h now w (admission h now w guarded s) ids in
    subst (λ x. length x ≤ limit) (sym b)
      (omega (
        arith,
        length-sort_rows (written fate s.jobs),
        candidates-limit h now locked limit s.jobs,
        length-touched fate ids (claim-named h now w (admission h now w guarded s) ids) s.jobs d,
      ))
