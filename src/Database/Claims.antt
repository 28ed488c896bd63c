-- ===== src/Database/Claims.antt =====
-- What a batch that `dequeue_inner` returns holds.
use ironqueue.Common.{
  ℕ, ◌≤◌, ◌<◌, ◌≡◌, refl, sym, ap, subst, ◌∙◌, ◌⊎◌, inl, inr, Bool, true, false, not, ◌||◌, some,
  List, [], ◌∷◌, arith, Bool-cases, any, All, ℤ, pos, negsuc, leb_ℤ, ltb_ℤ, text_eq→eq, ok,
}
use ironqueue.Job.Status.{running}
use ironqueue.Database.Statement.{write, apply, written, written-All}
use ironqueue.Database.Row.{JobRow, Store, Handle}
use ironqueue.Database.Dequeue.{
  before, insert_row, sort_rows, candidates, accepts, claim_fate, dequeue,
}

-- What holds of each row of a batch.
pub record Claimed (h : Handle) (now worker_id : ℕ) (r : JobRow) : Type 0 where
  pub runs : r.status ≡ running
  pub owned : r.worker_id ≡ some worker_id
  pub started : r.started_at ≡ some now
  pub of_queue : r.queue ≡ h.name
  pub due : r.scheduled_at ≤ now
  pub above : leb_ℤ h.lowest r.priority ≡ true
  pub below : leb_ℤ r.priority h.highest ≡ true
  pub tried : 1 ≤ r.attempts

claim-Claimed :
    (h : Handle) (now w : ℕ) (admitted : Bool) (ids : List ℕ) (r r' : JobRow)
    → claim_fate h now w admitted ids r ≡ write r'
    → Claimed h now w r'
unfolding claim_fate
claim-Claimed h now w admitted ids r r' e = record {
  runs = ground arith;
  owned = ground arith;
  started = ground arith;
  of_queue = ground (arith, text_eq→eq r.queue h.name);
  due = ground arith;
  above = ground arith;
  below = ground arith;
  tried = ground arith;
}

insert_row-All {κ} :
    (P : JobRow → Type κ) (r : JobRow) (rs : List JobRow) → P r → All P rs → All P (insert_row r rs)
unfolding insert_row
insert_row-All P r [] p h = (p, tt)
insert_row-All P r (s ∷ ss) p h = elim (Bool-cases (before s r)) [
  | inl b ↦ rw b (h.0, insert_row-All P r ss p h.1)
  | inr b ↦ rw b (p, (h.0, h.1))
]

sort_rows-All {κ} : (P : JobRow → Type κ) (rs : List JobRow) → All P rs → All P (sort_rows rs)
unfolding sort_rows
sort_rows-All P [] h = tt
sort_rows-All P (r ∷ rs) h = insert_row-All P r (sort_rows rs) h.0 (sort_rows-All P rs h.1)

trivial-All : (rs : List JobRow) → All (λ r. Unit {0}) rs
trivial-All [] = tt
trivial-All (r ∷ rs) = (tt, trivial-All rs)

-- No row comes strictly before one that precedes it.
abbrev Sorted : List JobRow → Type 0
Sorted [] = Unit
Sorted (r ∷ rs) = All (λ s. before s r ≡ false) rs × Sorted rs

-- By priority, the lowest number first, then by due time, then by id.
abbrev pub Precedes : JobRow → JobRow → Type 0
Precedes r s =
    (ltb_ℤ r.priority s.priority ≡ true)
    ⊎ ((r.priority ≡ s.priority)
        × ((r.scheduled_at < s.scheduled_at) ⊎ ((r.scheduled_at ≡ s.scheduled_at) × (r.id ≤ s.id))))

abbrev pub Ordered : List JobRow → Type 0
Ordered [] = Unit
Ordered (r ∷ rs) = All (Precedes r) rs × Ordered rs

same_ℤ : (a b : ℤ) → leb_ℤ a b ≡ true → leb_ℤ b a ≡ true → a ≡ b
same_ℤ (pos m) (pos n) h k = ap pos (ground arith)
same_ℤ (pos m) (negsuc n) h k = ground arith
same_ℤ (negsuc m) (pos n) h k = ground arith
same_ℤ (negsuc m) (negsuc n) h k = ap negsuc (ground arith)

Precedes-before : (r s : JobRow) → before s r ≡ false → Precedes r s
unfolding before
Precedes-before r s h = elim (Bool-cases (ltb_ℤ r.priority s.priority)) [
  | inl lower ↦ inl lower
  | inr level ↦
      let e = same_ℤ r.priority s.priority (ground arith) (ground arith) in inr (e, ground arith)
]

All-Precedes :
    (r : JobRow) (rs : List JobRow) → All (λ s. before s r ≡ false) rs → All (Precedes r) rs
All-Precedes r [] h = tt
All-Precedes r (s ∷ ss) h = (Precedes-before r s h.0, All-Precedes r ss h.1)

Sorted-Ordered : (rs : List JobRow) → Sorted rs → Ordered rs
Sorted-Ordered [] h = tt
Sorted-Ordered (r ∷ rs) h = (All-Precedes r rs h.0, Sorted-Ordered rs h.1)

before_asym : (r s : JobRow) → before r s ≡ true → before s r ≡ false
unfolding before
before_asym r s h = ground arith

not_before_trans : (r s t : JobRow) → before s r ≡ false → before t s ≡ false → before t r ≡ false
unfolding before
not_before_trans r s t a b = ground arith

All-not_before :
    (r s : JobRow) (rs : List JobRow)
    → before s r ≡ false
    → All (λ t. before t s ≡ false) rs
    → All (λ t. before t r ≡ false) rs
All-not_before r s [] b h = tt
All-not_before r s (t ∷ ts) b h = (not_before_trans r s t b h.0, All-not_before r s ts b h.1)

insert_row-Sorted : (r : JobRow) (rs : List JobRow) → Sorted rs → Sorted (insert_row r rs)
unfolding insert_row
insert_row-Sorted r [] h = (tt, tt)
insert_row-Sorted r (s ∷ ss) h = elim (Bool-cases (before s r)) [
  | inl b ↦ rw b (
    insert_row-All (λ t. before t s ≡ false) r ss (before_asym s r b) h.0,
    insert_row-Sorted r ss h.1,
  )
  | inr b ↦ rw b ((b, All-not_before r s ss b h.0), (h.0, h.1))
]

sort_rows-Sorted : (rs : List JobRow) → Sorted (sort_rows rs)
unfolding sort_rows
sort_rows-Sorted [] = tt
sort_rows-Sorted (r ∷ rs) = insert_row-Sorted r (sort_rows rs) (sort_rows-Sorted rs)

-- Whether a claim by this worker is admitted.
abbrev pub admission : Handle → ℕ → ℕ → Bool → Store → Bool
admission h now w guarded s = not guarded || any (accepts h.name now w) s.workers

pub dequeue-ok :
    (h : Handle) (now : ℕ) (locked : ℕ → Bool) (limit w : ℕ) (guarded : Bool) (s t : Store)
    (batch : List JobRow)
    → dequeue h now locked limit w guarded s ≡ ok (t, batch)
    → (t.jobs
        ≡ apply
            (claim_fate h now w
              (admission h now w guarded s)
              (candidates h now locked limit s.jobs))
            s.jobs)
      × (batch
          ≡ sort_rows (
              written
                (claim_fate h now w
                  (admission h now w guarded s)
                  (candidates h now locked limit s.jobs))
                s.jobs))
unfolding dequeue
dequeue-ok h now locked limit w guarded s t batch e = ground arith

-- A batch that `dequeue` returns is in claim order (priority, then due time, then id), and each of its
-- rows is a due row of this queue, of a priority in the handle's range, that now runs for this worker.
pub dequeue-batch :
    (h : Handle) (now : ℕ) (locked : ℕ → Bool) (limit w : ℕ) (guarded : Bool) (s t : Store)
    (batch : List JobRow)
    → dequeue h now locked limit w guarded s ≡ ok (t, batch)
    → All (Claimed h now w) batch × Ordered batch
dequeue-batch h now locked limit w guarded s t batch e =
    let b = (dequeue-ok h now locked limit w guarded s t batch e).1 in
    let fate =
      claim_fate h now w (admission h now w guarded s) (candidates h now locked limit s.jobs) in
    subst (λ b. All (Claimed h now w) b × Ordered b) (sym b)
      (
        sort_rows-All (Claimed h now w) (written fate s.jobs) (
            written-All (λ r. Unit {0}) (Claimed h now w) fate
              (λ r r' u.
                claim-Claimed h now w (admission h now w guarded s)
                  (candidates h now locked limit s.jobs) r r')
              s.jobs (trivial-All s.jobs)),
        Sorted-Ordered (sort_rows (written fate s.jobs)) (sort_rows-Sorted (written fate s.jobs)),
      )

unclaimed :
    (h : Handle) (now w : ℕ) (ids : List ℕ) (rs : List JobRow)
    → (apply (claim_fate h now w false ids) rs ≡ rs)
      × (written (claim_fate h now w false ids) rs ≡ [])
unfolding apply written claim_fate
unclaimed h now w ids [] = (refl, refl)
unclaimed h now w ids (r ∷ rs) = ground (arith, unclaimed h now w ids rs)

-- A worker whose lease is missing, expired or closed claims nothing: under the intake guard the batch
-- is empty and the jobs stay as they are.
pub dequeue-closed :
    (h : Handle) (now : ℕ) (locked : ℕ → Bool) (limit w : ℕ) (s t : Store) (batch : List JobRow)
    → any (accepts h.name now w) s.workers ≡ false
    → dequeue h now locked limit w true s ≡ ok (t, batch)
    → (batch ≡ []) × (t.jobs ≡ s.jobs)
unfolding sort_rows
dequeue-closed h now locked limit w s t batch c e =
    let d = dequeue-ok h now locked limit w true s t batch e in
    let ids = candidates h now locked limit s.jobs in
    (
      d.1 ∙ rw (c, (unclaimed h now w ids s.jobs).1) refl,
      d.0 ∙ rw (c, (unclaimed h now w ids s.jobs).0) refl,
    )
