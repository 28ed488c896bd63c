-- ===== src/Database/Batch/Holders.antt =====
-- The single enqueues that a batch stands for, and the holders that its map and the table name.
use ironqueue.Common.{
  ℕ, ◌≡◌, refl, sym, ap, ◌∙◌, inl, inr, Bool, true, false, Option, none, some, List, [], ◌∷◌, ◌++◌,
  arith, ◌==◌, if◌then◌else◌, Bool-cases, Option-cases, length, any, Text, text_eq, text_eq→eq,
  text_eq_refl, text_eq_swap, same_key, Failure, Result, err, ok, ◌>>=◌, ok-injective,
}
use ironqueue.Database.Row.{JobRow, Store, Handle}
use ironqueue.Database.Abort.{holds_key}
use ironqueue.Database.Enqueue.{
  EnqueueResult, inserted, deduplicated, new_row, live_dedupe_holder, deduplicated_by, insert_job,
  insert_or_report, publish, enqueue_validated,
}
use ironqueue.Database.Batch.{
  BatchJob, BatchKeyHolder, holder_of_job, Holders, put, batch_keys, Admitted, resolve_batch,
}

-- The single enqueues of the jobs, in order.
unfoldable pub enqueue_each :
    Handle → ℕ → Bool → List BatchJob → Store → Result (Store × List EnqueueResult)
enqueue_each h now notify [] s = ok (s, [])
enqueue_each h now notify (j ∷ js) s = do
  first ← enqueue_validated h now j.id notify false j.item.request j.item.delay (λ u. u) (λ u. u) s
  rest ← enqueue_each h now notify js first.0
  ok (rest.0, first.1 ∷ rest.1)

-- What an enqueue reports, apart from the retentions of a holder: whether it inserted, and the id.
abbrev pub reported : EnqueueResult → Bool × ℕ
reported (inserted id) = (true, id)
reported (deduplicated id name retention failed_retention) = (false, id)

abbrev pub held_id : Option BatchKeyHolder → Option ℕ
held_id none = none
held_id (some b) = some b.id

abbrev pub row_id : Option JobRow → Option ℕ
row_id none = none
row_id (some r) = some r.id

pub holder_keyless : (q : Text) (rs : List JobRow) → live_dedupe_holder q none rs ≡ none
unfolding live_dedupe_holder holds_key same_key
holder_keyless q [] = refl
holder_keyless q (r ∷ rs) = ground (arith, holder_keyless q rs)

pub holder-append :
    (q : Text) (k : Option Text) (r : JobRow) (rs : List JobRow)
    → live_dedupe_holder q k rs ≡ none
    → holds_key q k r ≡ true
    → live_dedupe_holder q k (rs ++ r ∷ []) ≡ some r
unfolding live_dedupe_holder
holder-append q k r [] n h = ground arith
holder-append q k r (x ∷ xs) n h = ground (arith, holder-append q k r xs)

pub holder-skip :
    (q : Text) (k : Option Text) (r : JobRow) (rs : List JobRow)
    → holds_key q k r ≡ false
    → live_dedupe_holder q k (rs ++ r ∷ []) ≡ live_dedupe_holder q k rs
unfolding live_dedupe_holder
holder-skip q k r [] h = ground arith
holder-skip q k r (x ∷ xs) h = ground (arith, holder-skip q k r xs)

pub text_eq_differs : (s t : Text) → text_eq s t ≡ false → text_eq t s ≡ false
text_eq_differs s t n = elim (Bool-cases (text_eq t s)) [
  | inl y ↦ ground (arith, text_eq_swap t s y)
  | inr m ↦ m
]

pub then-ok :
    (c : Bool) (m : Result Admitted) (e : Failure) {a : Admitted}
    → (if c then m else err e) ≡ ok a
    → m ≡ ok a
then-ok true m e h = h
then-ok false m e h = ground arith

pub keys-tail :
    (j : BatchJob) (js : List BatchJob) (key : Text)
    → any (text_eq key) (batch_keys js) ≡ true
    → any (text_eq key) (batch_keys (j ∷ js)) ≡ true
unfolding batch_keys any
keys-tail j js key m = elim (Option-cases j.item.request.dedupe_key) [
  | inl none' ↦ rw none' m
  | inr (k, some') ↦ rw some' (ground arith)
]

pub else-ok :
    (c : Bool) (x : Store × List EnqueueResult) (m : Result (Store × List EnqueueResult))
    {y : Store × List EnqueueResult}
    → c ≡ false
    → (if c then ok x else m) ≡ ok y
    → m ≡ ok y
else-ok true x m c h = ground arith
else-ok false x m c h = h

pub then-stored :
    (c : Bool) (x : Store × List EnqueueResult) (m : Result (Store × List EnqueueResult))
    {y : Store × List EnqueueResult}
    → c ≡ true
    → (if c then ok x else m) ≡ ok y
    → x ≡ y
then-stored true x m c h = ok-injective h
then-stored false x m c h = ground arith

pub resolve_batch-whole :
    (h : Handle) (batch : List BatchJob) (a : Admitted) (s t : Store) (landed : List ℕ)
    (results : List EnqueueResult) (later : Store → Store)
    → resolve_batch h batch a s landed later ≡ ok (t, results)
    → length landed ≡ length a.rows
    → (t.jobs ≡ s.jobs) × (results ≡ a.results)
unfolding resolve_batch
resolve_batch-whole h batch a s t landed results later e whole =
    let all = then-stored (length landed == length a.rows) (s, a.results) _ (ground arith) e in
    (
      ap (λ (z : Store × List EnqueueResult). z.0.jobs) (sym all),
      ap (λ (z : Store × List EnqueueResult). z.1) (sym all),
    )

module _ (h : Handle) (now : ℕ) (notify : Bool) where
  unfoldable pub row_of : BatchJob → JobRow
  row_of j = new_row h now j.id false j.item.request j.item.delay

  pub single-insert :
      (j : BatchJob) (s : Store)
      → live_dedupe_holder h.name j.item.request.dedupe_key s.jobs ≡ none
      → enqueue_validated h now j.id notify false j.item.request j.item.delay (λ u. u) (λ u. u) s
        ≡ ok (insert_job now (row_of j) notify s, inserted j.id)
  unfolding enqueue_validated publish insert_or_report new_row row_of
  single-insert j s e = rw (e, publish, e) refl

  pub single-held :
      (j : BatchJob) (s : Store) (r : JobRow)
      → live_dedupe_holder h.name j.item.request.dedupe_key s.jobs ≡ some r
      → enqueue_validated h now j.id notify false j.item.request j.item.delay (λ u. u) (λ u. u) s
        ≡ ok (s, deduplicated_by r)
  unfolding enqueue_validated publish
  single-held j s r e = rw e refl

  -- The map and the table name the same holder of each key.
  unfoldable pub Agree : List Text → Holders → List JobRow → Type 0
  Agree keys holders rows =
      (key : Text)
      → any (text_eq key) keys ≡ true
      → held_id (holders key) ≡ row_id (live_dedupe_holder h.name (some key) rows)

  pub row_of-holds :
      (j : BatchJob) (key : Text)
      → holds_key h.name (some key) (row_of j) ≡ same_key j.item.request.dedupe_key (some key)
  unfolding holds_key row_of new_row
  row_of-holds j key = rw (text_eq_refl h.name) refl

  pub Agree-keyless :
      (keys : List Text) (holders : Holders) (rows : List JobRow) (j : BatchJob)
      → j.item.request.dedupe_key ≡ none
      → Agree keys holders rows
      → Agree keys holders (rows ++ row_of j ∷ [])
  unfolding Agree same_key
  Agree-keyless keys holders rows j e a key m =
      a key m
      ∙ ap row_id
          (sym (holder-skip h.name (some key) (row_of j) rows (row_of-holds j key ∙ rw e refl)))

  pub row_of-id : (j : BatchJob) → some j.id ≡ row_id (some (row_of j))
  unfolding row_of new_row
  row_of-id j = refl

  pub Agree-put :
      (keys : List Text) (holders : Holders) (rows : List JobRow) (j : BatchJob) (key : Text)
      → j.item.request.dedupe_key ≡ some key
      → live_dedupe_holder h.name (some key) rows ≡ none
      → Agree keys holders rows
      → Agree keys (put key (holder_of_job j) holders) (rows ++ row_of j ∷ [])
  unfolding Agree same_key put holder_of_job
  Agree-put keys holders rows j key e free a k m = elim (Bool-cases (text_eq k key)) [
    | inl y ↦
        let added =
          holder-append h.name (some key) (row_of j) rows free
            (row_of-holds j key ∙ rw e (text_eq_refl key)) in
        rw (y, text_eq→eq k key y, added) (row_of-id j)
    | inr n ↦
        let skipped =
          holder-skip h.name (some k) (row_of j) rows
            (row_of-holds j k ∙ rw e (text_eq_differs k key n)) in
        rw (n, skipped) (a k m)
  ]
