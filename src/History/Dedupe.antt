-- ===== src/History/Dedupe.antt =====
-- The unique index on the live rows of a deduplication key, over whole histories.
use ironqueue.Common.{
  ℕ, ◌≡◌, refl, sym, subst, inl, inr, true, false, ◌&&◌, Option, none, some, List, [], ◌∷◌, ◌++◌,
  arith, Bool-cases, any, any-append, All, Text, text_eq_swap, same_key,
}
use ironqueue.Job.Status.{is_terminal}
use ironqueue.Job.Json.{Value}
use ironqueue.Job.Config.{Calendar}
use ironqueue.Database.Statement.{Fate, keep, remove, write, settle, apply}
use ironqueue.Database.Row.{JobRow, Store, Handle, is_live}
use ironqueue.Database.Abort.{holds_key}
use ironqueue.Database.Dequeue.{before}
use ironqueue.History.Moves.{SameJob, Moves, Lawful}
use ironqueue.History.Calls.{Call, generated, perform, run}
use ironqueue.History.Evolution.{optional, Fresh, Evolution}
use ironqueue.History.Performs.{perform-Evolution}
use mathlib.Core.List.{append-nil}

-- No live row shares its queue and its key with a later live row.
abbrev pub OneHolder : List JobRow → Type 0
OneHolder [] = Unit
OneHolder (r ∷ rs) =
    ((is_live r.status && any (holds_key r.queue r.dedupe_key) rs) ≡ false) × OneHolder rs

live-Moves : (r r' : JobRow) → Moves r r' → is_live r.status ≡ false → is_live r'.status ≡ false
unfolding is_terminal
live-Moves r r' m h = grind arith

holds_key-Moves :
    (q : Text) (k : Option Text) (r r' : JobRow)
    → SameJob r r'
    → Moves r r'
    → holds_key q k r ≡ false
    → holds_key q k r' ≡ false
unfolding holds_key
holds_key-Moves q k r r' j m h = elim (Bool-cases (is_live r.status)) [
  | inl p ↦ rw (j.same_queue, j.same_dedupe_key) (ground arith)
  | inr p ↦ ground (arith, live-Moves r r' m p)
]

-- A statement gives no row a key that no live row held.
holds_key-apply :
    (q : Text) (k : Option Text) (fate : JobRow → Fate JobRow)
    → Lawful fate
    → (rs : List JobRow) → any (holds_key q k) rs ≡ false
    → any (holds_key q k) (apply fate rs) ≡ false
unfolding any apply settle
holds_key-apply q k fate l [] h = refl
holds_key-apply q k fate l (r ∷ rs) h =
    go (fate r) refl (ground arith) (holds_key-apply q k fate l rs (ground arith))
  where
    go :
        (f : Fate JobRow)
        → fate r ≡ f
        → holds_key q k r ≡ false
        → any (holds_key q k) (apply fate rs) ≡ false
        → any (holds_key q k) (settle f r (apply fate rs)) ≡ false
    go keep e h rest = rw (h, rest) refl
    go remove e h rest = rest
    go (write r') e h rest = rw (holds_key-Moves q k r r' (l r r' e).0 (l r r' e).1 h, rest) refl

OneHolder-apply :
    (fate : JobRow → Fate JobRow)
    → Lawful fate
    → (rs : List JobRow) → OneHolder rs
    → OneHolder (apply fate rs)
unfolding apply settle
OneHolder-apply fate l [] h = tt
OneHolder-apply fate l (r ∷ rs) h = go (fate r) refl (OneHolder-apply fate l rs h.1)
  where
    head :
        (r' : JobRow)
        → SameJob r r'
        → Moves r r'
        → (is_live r'.status && any (holds_key r'.queue r'.dedupe_key) (apply fate rs)) ≡ false
    head r' j m = elim (Bool-cases (is_live r.status)) [
      | inl p ↦
          rw (j.same_queue, j.same_dedupe_key)
            (ground (arith, holds_key-apply r.queue r.dedupe_key fate l rs (ground (arith, h.0))))
      | inr p ↦ ground (arith, live-Moves r r' m p)
    ]

    go :
        (f : Fate JobRow)
        → fate r ≡ f
        → OneHolder (apply fate rs)
        → OneHolder (settle f r (apply fate rs))
    go keep e rest = (ground (arith, holds_key-apply r.queue r.dedupe_key fate l rs, h.0), rest)
    go remove e rest = rest
    go (write r') e rest = (head r' (l r r' e).0 (l r r' e).1, rest)

same_key_swap : (s t : Option Text) → same_key s t ≡ true → same_key t s ≡ true
unfolding same_key
same_key_swap none t h = ground arith
same_key_swap (some s) none h = ground arith
same_key_swap (some s) (some t) h = text_eq_swap s t h

holds_key_swap :
    (r x : JobRow)
    → is_live x.status ≡ true
    → holds_key x.queue x.dedupe_key r ≡ true
    → holds_key r.queue r.dedupe_key x ≡ true
unfolding holds_key same_key
holds_key_swap r x live h =
    ground (arith, text_eq_swap r.queue x.queue, same_key_swap r.dedupe_key x.dedupe_key)

OneHolder-append :
    (r : JobRow) (rs : List JobRow)
    → any (holds_key r.queue r.dedupe_key) rs ≡ false
    → OneHolder rs
    → OneHolder (rs ++ r ∷ [])
unfolding any
OneHolder-append r [] f h = (ground arith, tt)
OneHolder-append r (x ∷ xs) f h = (head, OneHolder-append r xs (ground arith) h.1)
  where
    head : (is_live x.status && any (holds_key x.queue x.dedupe_key) (xs ++ r ∷ [])) ≡ false
    head =
        rw (any-append (holds_key x.queue x.dedupe_key) xs (r ∷ []))
          (ground (arith, holds_key_swap r x, h.0))

Evolution-OneHolder :
    (g : Option ℕ) (before after : List JobRow)
    → Evolution g before after
    → OneHolder before
    → OneHolder after
Evolution-OneHolder g before after e h = subst OneHolder (sym e.is) (go e.added e.fresh)
  where
    go :
        (a : Option JobRow)
        → All (Fresh before) (optional a)
        → OneHolder (apply e.fate before ++ optional a)
    go none f = rw append-nil (OneHolder-apply e.fate e.lawful before h)
    go (some r) f =
        OneHolder-append r (apply e.fate before)
          (holds_key-apply r.queue r.dedupe_key e.fate e.lawful before f.0.1)
          (OneHolder-apply e.fate e.lawful before h)

-- From a table on which a deduplication key has at most one live holder in its queue, every history
-- of calls leads to one on which that holds.
pub run-OneHolder :
    (calendar : Calendar) (chunks : Value → List ℕ) (cs : List (Handle × Call)) (s : Store)
    → OneHolder s.jobs
    → OneHolder (run calendar chunks cs s).jobs
unfolding run
run-OneHolder calendar chunks [] s h = h
run-OneHolder calendar chunks ((d, c) ∷ cs) s h =
    run-OneHolder calendar chunks cs (perform calendar chunks d c s) (
      Evolution-OneHolder (generated c) s.jobs (perform calendar chunks d c s).jobs
        (perform-Evolution calendar chunks d c s) h)
