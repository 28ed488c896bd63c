-- ===== src/Database/Publishing.antt =====
-- Deduplication of a publish, with and without writers that do not take the key's lock.
use ironqueue.Common.{
  ℕ, ◌≡◌, refl, sym, ap, subst, Bool, true, Option, none, some, List, [], ◌∷◌, ◌++◌, arith, Text,
  text_eq_refl, same_key, ok, >>-eq-ok,
}
use ironqueue.Job.Json.{Value}
use ironqueue.Job.Config.{JobRequest, Calendar, validate_enqueue}
use ironqueue.Database.Row.{JobRow, Store, Handle}
use ironqueue.Database.Abort.{holds_key}
use ironqueue.Database.Enqueue.{
  EnqueueResult, new_row, live_dedupe_holder, deduplicated_by, insert_job, report_race,
  insert_or_report, publish, enqueue_validated, enqueue_raw,
}

holder-append :
    (q : Text) (k : Option Text) (r : JobRow) (rs : List JobRow)
    → live_dedupe_holder q k rs ≡ none
    → holds_key q k r ≡ true
    → live_dedupe_holder q k (rs ++ r ∷ []) ≡ some r
unfolding live_dedupe_holder
holder-append q k r [] n h = ground arith
holder-append q k r (x ∷ xs) n h = ground (arith, holder-append q k r xs)

new_row-holds :
    (h : Handle) (now id : ℕ) (awaited : Bool) (q : JobRequest) (d : Option ℕ) (key : Text)
    → q.dedupe_key ≡ some key
    → holds_key h.name (some key) (new_row h now id awaited q d) ≡ true
unfolding holds_key new_row same_key
new_row-holds h now id awaited q d key k = rw (text_eq_refl h.name, k, text_eq_refl key) refl

-- The key is held in the table that a publish of the key returns.
abbrev Held : Text → Text → List JobRow → Type 0
Held queue key rows = (holder : JobRow) × (live_dedupe_holder queue (some key) rows ≡ some holder)

race-Held :
    (queue key : Text) (s t : Store) (outcome : EnqueueResult) (found : Option JobRow)
    → live_dedupe_holder queue (some key) s.jobs ≡ found
    → report_race (some key) found s ≡ ok (t, outcome)
    → Held queue key t.jobs
unfolding report_race
race-Held queue key s t outcome none f e = ground arith
race-Held queue key s t outcome (some r) f e = (r, ground arith)

insert-Held :
    (h : Handle) (now : ℕ) (row : JobRow) (notify : Bool) (later : Store → Store) (key : Text)
    (s t : Store) (outcome : EnqueueResult) (found : Option JobRow)
    → row.dedupe_key ≡ some key
    → holds_key h.name (some key) row ≡ true
    → live_dedupe_holder h.name (some key) s.jobs ≡ found
    → insert_or_report h.name now row notify later s found ≡ ok (t, outcome)
    → Held h.name key t.jobs
unfolding insert_or_report insert_job
insert-Held h now row notify later key s t outcome none k l f e = (
  row,
  subst (λ rows. live_dedupe_holder h.name (some key) rows ≡ some row) (ground arith)
      (holder-append h.name (some key) row s.jobs f l),
)
insert-Held h now row notify later key s t outcome (some b) k l f e =
    race-Held h.name key (later s) t outcome _ refl (
      subst
        (λ x.
          report_race x (live_dedupe_holder h.name x (later s).jobs) (later s) ≡ ok (t, outcome))
        k e)

same_store : (x y : Store × EnqueueResult) → ok x ≡ ok y → x.0 ≡ y.0
same_store x y e = cc

publish-Held :
    (h : Handle) (now : ℕ) (row : JobRow) (notify : Bool) (between later : Store → Store)
    (key : Text) (s t : Store) (outcome : EnqueueResult) (found : Option JobRow)
    → row.dedupe_key ≡ some key
    → holds_key h.name (some key) row ≡ true
    → live_dedupe_holder h.name (some key) s.jobs ≡ found
    → publish h.name now row notify between later s found ≡ ok (t, outcome)
    → Held h.name key t.jobs
unfolding publish
publish-Held h now row notify between later key s t outcome none k l f e =
    insert-Held h now row notify later key (between s) t outcome _ k l
      (ap (λ x. live_dedupe_holder h.name x (between s).jobs) (sym k)) e
publish-Held h now row notify between later key s t outcome (some b) k l f e = (
  b,
  subst (λ (u : Store). live_dedupe_holder h.name (some key) u.jobs ≡ some b)
      (same_store (s, deduplicated_by b) (t, outcome) e) f,
)

enqueue-Held :
    (calendar : Calendar) (chunks : Value → List ℕ) (h : Handle) (now id : ℕ)
    (notify awaited : Bool) (q : JobRequest) (d : Option ℕ) (key : Text)
    (between later : Store → Store) (s t : Store) (outcome : EnqueueResult)
    → q.dedupe_key ≡ some key
    → enqueue_raw calendar chunks h now id notify awaited q d between later s ≡ ok (t, outcome)
    → Held h.name key t.jobs
unfolding enqueue_raw enqueue_validated new_row
enqueue-Held calendar chunks h now id notify awaited q d key between later s t outcome k e =
    publish-Held h now (new_row h now id awaited q d) notify between later key s t outcome _ k
      (new_row-holds h now id awaited q d key k)
      (ap (λ x. live_dedupe_holder h.name x s.jobs) (sym k))
      (>>-eq-ok (validate_enqueue calendar chunks now q d) _ e).1

enqueue-held :
    (calendar : Calendar) (chunks : Value → List ℕ) (h : Handle) (now id : ℕ)
    (notify awaited : Bool) (q : JobRequest) (d : Option ℕ) (key : Text)
    (between later : Store → Store) (s : Store) (holder : JobRow)
    → q.dedupe_key ≡ some key
    → validate_enqueue calendar chunks now q d ≡ ok tt
    → live_dedupe_holder h.name (some key) s.jobs ≡ some holder
    → enqueue_raw calendar chunks h now id notify awaited q d between later s
      ≡ ok (s, deduplicated_by holder)
unfolding enqueue_raw enqueue_validated publish
enqueue-held calendar chunks h now id notify awaited q d key between later s holder k v l =
    rw (v, k, l) refl

-- Once a publish under a key succeeded, whatever other writers did meanwhile, the key is held, and a
-- valid publish under the same key on the table it left reports that holder and changes nothing.
pub enqueue_raw-twice :
    (calendar : Calendar) (chunks : Value → List ℕ) (h : Handle) (now now' id id' : ℕ)
    (notify notify' awaited awaited' : Bool) (q q' : JobRequest) (d d' : Option ℕ) (key : Text)
    (between later between' later' : Store → Store) (s t : Store) (outcome : EnqueueResult)
    → q.dedupe_key ≡ some key
    → q'.dedupe_key ≡ some key
    → enqueue_raw calendar chunks h now id notify awaited q d between later s ≡ ok (t, outcome)
    → validate_enqueue calendar chunks now' q' d' ≡ ok tt
    → (holder : JobRow) × (live_dedupe_holder h.name (some key) t.jobs ≡ some holder)
      × (enqueue_raw calendar chunks h now' id' notify' awaited' q' d' between' later' t
          ≡ ok (t, deduplicated_by holder))
enqueue_raw-twice calendar chunks h now now' id id' notify notify' awaited awaited' q q' d d' key
      between later between' later' s t outcome k k' e v =
    let f =
      enqueue-Held calendar chunks h now id notify awaited q d key between later s t outcome k e in
    (
      f.0,
      f.1,
      enqueue-held calendar chunks h now' id' notify' awaited' q' d' key between' later' t f.0 k' v
          f.1,
    )
