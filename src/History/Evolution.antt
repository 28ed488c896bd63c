-- ===== src/History/Evolution.antt =====
-- Every call changes the jobs table in the same way: a lawful statement settles each row, and at most
-- one new row is added.
use mathlib.Core.List.{append-nil}
use ironqueue.Common.{ℕ, ◌≡◌, refl, false, Option, none, some, List, [], ◌∷◌, ◌++◌, any, All, arith}
use ironqueue.Job.Status.{queued}
use ironqueue.Database.Statement.{Fate, keep, remove, write, apply, apply-keep}
use ironqueue.Database.Row.{JobRow}
use ironqueue.Database.Abort.{holds_key}
use ironqueue.History.Moves.{Lawful, Spares}
use ironqueue.History.Removals.{spared}
use ironqueue.Database.Limits.{Distinct}
use ironqueue.History.Checks.{Checks, Checked}
use mathlib.Core.List.{append-nil}

abbrev pub optional {ℓ} : {A : Type ℓ} → Option A → List A
optional none = []
optional (some a) = a ∷ []

-- A row that an insert may add: queued, and no live row of its queue has its key.
abbrev pub Fresh : List JobRow → JobRow → Type 0
Fresh rows r = (r.status ≡ queued) × (any (holds_key r.queue r.dedupe_key) rows ≡ false)

-- `generated` is the id that the call would give a new row.
pub record Evolution (generated : Option ℕ) (before after : List JobRow) : Type 0 where
  pub fate : JobRow → Fate JobRow
  pub lawful : Lawful fate
  pub checked : Checked fate
  pub spares : Distinct before → All (Spares fate) before
  pub added : Option JobRow
  pub named : All (λ r. some r.id ≡ generated) (optional added)
  pub fresh : All (Fresh before) (optional added)
  pub sound : All Checks before → All Checks (optional added)
  pub is : after ≡ apply fate before ++ optional added

-- A call that only rewrites or removes rows.
pub rewrites :
    {g : Option ℕ} (fate : JobRow → Fate JobRow) (rows : List JobRow)
    → Lawful fate
    → Checked fate
    → (Distinct rows → All (Spares fate) rows)
    → Evolution g rows (apply fate rows)
rewrites fate rows l c v = record {
  fate = fate;
  lawful = l;
  checked = c;
  spares = v;
  added = none;
  named = tt;
  fresh = tt;
  sound = λ h. tt;
  is = rw append-nil;
}

pub rests : {g : Option ℕ} (rows : List JobRow) → Evolution g rows rows
rests rows = record {
  fate = λ r. keep;
  lawful = λ r r' e. absurd (keep≢write e);
  checked = λ r r' c e. absurd (keep≢write e);
  spares = λ d. spared (λ r. keep) (λ r e. absurd (keep≢remove keep refl e)) rows;
  added = none;
  named = tt;
  fresh = tt;
  sound = λ h. tt;
  is = rw (append-nil, apply-keep rows);
}
  where
    keep≢write : {r : JobRow} → keep ≡ write r → ⊥
    keep≢write e = cc

    keep≢remove : (f : Fate JobRow) → f ≡ keep → f ≡ remove → ⊥
    keep≢remove f a b = ground arith

pub inserts :
    (rows : List JobRow) (r : JobRow)
    → Fresh rows r
    → (All Checks rows → Checks r)
    → Evolution (some r.id) rows (rows ++ r ∷ [])
inserts rows r f c = record {
  fate = λ r. keep;
  lawful = λ r r' e. absurd (keep≢write e);
  checked = λ r r' c e. absurd (keep≢write e);
  spares = λ d. spared (λ r. keep) (λ r e. absurd (keep≢remove keep refl e)) rows;
  added = some r;
  named = (refl, tt);
  fresh = (f, tt);
  sound = λ h. (c h, tt);
  is = rw (apply-keep rows);
}
  where
    keep≢write : {r : JobRow} → keep ≡ write r → ⊥
    keep≢write e = cc

    keep≢remove : (f : Fate JobRow) → f ≡ keep → f ≡ remove → ⊥
    keep≢remove f a b = ground arith
