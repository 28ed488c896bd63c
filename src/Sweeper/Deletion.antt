-- ===== src/Sweeper/Deletion.antt =====
-- What the deletion of expired jobs leaves alone, and how many rows it takes.
use mathlib.Core.List.{Memᴰ}
use ironqueue.Common.{
  ℕ, zero, suc, ◌≤◌, ◌<◌, ◌≡◌, refl, sym, ap, subst, ◌∙◌, ◌≢◌, inl, inr, Bool, true, false, not,
  ◌&&◌, List, [], ◌∷◌, map, arith, Bool-cases, length, take, length-take, select, any, All, none,
  some, text_eq, text_eq→eq,
}
use ironqueue.Job.Status.{queued, running, aborting, is_terminal}
use ironqueue.Database.Statement.{Fate, keep, remove, write, settle, apply}
use ironqueue.Database.Row.{JobRow, Store, Handle}
use ironqueue.Database.Dequeue.{has_id}
use ironqueue.Sweeper.Purge.{
  earlier, insert_key, sort_keys, first_ids, is_expired, or_zero, purge_fate, purge_expired_jobs,
}
use ironqueue.Database.Limits.{Distinct, length-map, length-touched}

abbrev Avoids : ℕ → List (ℕ × ℕ) → Type 0
Avoids id ks = All (λ k. k.1 ≢ id) ks

insert_key-Avoids :
    (id : ℕ) (k : ℕ × ℕ) (ks : List (ℕ × ℕ)) → k.1 ≢ id → Avoids id ks → Avoids id (insert_key k ks)
unfolding insert_key
insert_key-Avoids id k [] n h = (n, tt)
insert_key-Avoids id k (l ∷ ls) n h = elim (Bool-cases (earlier l k)) [
  | inl b ↦ rw b (h.0, insert_key-Avoids id k ls n h.1)
  | inr b ↦ rw b (n, (h.0, h.1))
]

sort_keys-Avoids : (id : ℕ) (ks : List (ℕ × ℕ)) → Avoids id ks → Avoids id (sort_keys ks)
unfolding sort_keys
sort_keys-Avoids id [] h = tt
sort_keys-Avoids id (k ∷ ks) h =
    insert_key-Avoids id k (sort_keys ks) h.0 (sort_keys-Avoids id ks h.1)

take-Avoids : (id n : ℕ) (ks : List (ℕ × ℕ)) → Avoids id ks → Avoids id (take n ks)
take-Avoids id zero ks h = tt
take-Avoids id (suc n) [] h = tt
take-Avoids id (suc n) (k ∷ ks) h = (h.0, take-Avoids id n ks h.1)

unnamed : (id : ℕ) (ks : List (ℕ × ℕ)) → Avoids id ks → has_id (map (λ k. k.1) ks) id ≡ false
unfolding has_id any
unnamed id [] h = refl
unnamed id (k ∷ ks) h = ground (arith, h.0, unnamed id ks h.1)

-- The ids that a limited scan takes.
pub first_ids-avoid :
    (id limit : ℕ) (ks : List (ℕ × ℕ)) → Avoids id ks → has_id (first_ids limit ks) id ≡ false
unfolding first_ids
first_ids-avoid id limit ks h =
    unnamed id (take limit (sort_keys ks))
      (take-Avoids id limit (sort_keys ks) (sort_keys-Avoids id ks h))

apart : (x r : JobRow) (xs : List JobRow) → All (λ y. y.id ≢ x.id) xs → Memᴰ r xs → x.id ≢ r.id
apart x r [] h m q = elim m [ ]
apart x r (y ∷ ys) h (Memᴰ.head e) q = h.0 (ap (λ z. z.id) (sym e) ∙ sym q)
apart x r (y ∷ ys) h (Memᴰ.tail m) q = apart x r ys h.1 m q

module _ (p : JobRow → Bool) (key : JobRow → ℕ) where
  keys_elsewhere :
      (id : ℕ) (rs : List JobRow)
      → All (λ x. x.id ≢ id) rs
      → Avoids id (map (λ r. (key r, r.id)) (select p rs))
  unfolding select
  keys_elsewhere id [] h = tt
  keys_elsewhere id (x ∷ xs) h = elim (Bool-cases (p x)) [
    | inl b ↦ rw (b, map) (h.0, keys_elsewhere id xs h.1)
    | inr b ↦ rw (b, map) (keys_elsewhere id xs h.1)
  ]

  -- With distinct ids, the keys of the rows that match avoid the id of a row that does not.
  pub keys_avoid :
      (r : JobRow) (rs : List JobRow)
      → Distinct rs
      → Memᴰ r rs
      → p r ≡ false
      → Avoids r.id (map (λ r. (key r, r.id)) (select p rs))
  unfolding select
  keys_avoid r [] d m n = elim m [ ]
  keys_avoid r (x ∷ xs) d (Memᴰ.head e) n =
      rw (subst (λ y. p y ≡ false) e n, map)
        (keys_elsewhere r.id xs (subst (λ y. All (λ z. z.id ≢ y.id) xs) (sym e) d.0))
  keys_avoid r (x ∷ xs) d (Memᴰ.tail m) n = elim (Bool-cases (p x)) [
    | inl b ↦ rw (b, map) (apart x r xs d.0 m, keys_avoid r xs d.1 m n)
    | inr b ↦ rw (b, map) (keys_avoid r xs d.1 m n)
  ]

-- A row that the statement keeps is there afterwards.
pub keep-Memᴰ :
    (fate : JobRow → Fate JobRow) (r : JobRow) (rs : List JobRow)
    → fate r ≡ keep
    → Memᴰ r rs
    → Memᴰ r (apply fate rs)
unfolding apply settle
keep-Memᴰ fate r [] k m = elim m [ ]
keep-Memᴰ fate r (x ∷ xs) k (Memᴰ.head e) = rw (subst (λ y. fate y ≡ keep) e k) (Memᴰ.head e)
keep-Memᴰ fate r (x ∷ xs) k (Memᴰ.tail m) = go (fate x) (keep-Memᴰ fate r xs k m)
  where
    go : (f : Fate JobRow) → Memᴰ r (apply fate xs) → Memᴰ r (settle f x (apply fate xs))
    go keep h = Memᴰ.tail h
    go remove h = h
    go (write x') h = Memᴰ.tail h

purge-keep : (ids : List ℕ) (r : JobRow) → has_id ids r.id ≡ false → purge_fate ids r ≡ keep
unfolding purge_fate
purge-keep ids r n = ground arith

purge-named : (ids : List ℕ) (r : JobRow) → purge_fate ids r ≢ keep → has_id ids r.id ≡ true
unfolding purge_fate
purge-named ids r n = ground arith

length-first_ids : (limit : ℕ) (ks : List (ℕ × ℕ)) → length (first_ids limit ks) ≤ limit
unfolding first_ids
length-first_ids limit ks = omega (
  arith,
  length-map (λ (k : ℕ × ℕ). k.1) (take limit (sort_keys ks)),
  length-take limit (sort_keys ks),
)

-- A row of another queue, one that still waits, runs or aborts, one without an expiry, or one whose
-- expiry is still to come.
pub data Retained (h : Handle) (now : ℕ) (r : JobRow) : Type 0 where
  foreign : r.queue ≢ h.name → Retained h now r
  waits : r.status ≡ queued → Retained h now r
  runs : r.status ≡ running → Retained h now r
  aborts : r.status ≡ aborting → Retained h now r
  unlimited : r.expires_at ≡ none → Retained h now r
  lasts : (at : ℕ) → r.expires_at ≡ some at → now < at → Retained h now r

Retained-unexpired :
    (h : Handle) (now : ℕ) (r : JobRow) → Retained h now r → is_expired h.name now r ≡ false
unfolding is_expired is_terminal
Retained-unexpired h now r (foreign o) = elim (Bool-cases (text_eq r.queue h.name)) [
  | inl e ↦ absurd (o (text_eq→eq r.queue h.name e))
  | inr e ↦ ground arith
]
Retained-unexpired h now r (waits e) = ground arith
Retained-unexpired h now r (runs e) = ground arith
Retained-unexpired h now r (aborts e) = ground arith
Retained-unexpired h now r (unlimited e) = ground arith
Retained-unexpired h now r (lasts at e l) = ground arith

-- A pass over the expired jobs deletes expired ones only: on a table without duplicate ids, a row that
-- is of another queue, not terminal, without an expiry or not yet expired is still there afterwards,
-- and the pass deletes at most a batch.
pub purge_expired_jobs-keeps :
    (h : Handle) (now : ℕ) (locked : ℕ → Bool) (s : Store) (r : JobRow)
    → Distinct s.jobs
    → Memᴰ r s.jobs
    → Retained h now r
    → Memᴰ r (purge_expired_jobs h now locked s).0.jobs
      × ((purge_expired_jobs h now locked s).1 ≤ h.sweep_batch_size)
unfolding purge_expired_jobs
purge_expired_jobs-keeps h now locked s r d m k =
    let n = Retained-unexpired h now r k in
    let doomed = select (λ x. is_expired h.name now x && not (locked x.id)) s.jobs in
    let ids = first_ids h.sweep_batch_size (map (λ x. (or_zero x.expires_at, x.id)) doomed) in
    (
      keep-Memᴰ (purge_fate ids) r s.jobs
          (purge-keep ids r (
            first_ids-avoid r.id h.sweep_batch_size _ (
              keys_avoid (λ x. is_expired h.name now x && not (locked x.id))
                (λ x. or_zero x.expires_at) r s.jobs d m (rw n refl))))
          m,
      omega (
        arith,
        length-touched (purge_fate ids) ids (purge-named ids) s.jobs d,
        length-first_ids h.sweep_batch_size
            (map (λ (x : JobRow). (or_zero x.expires_at, x.id)) doomed),
      ),
    )
