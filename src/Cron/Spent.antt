-- ===== src/Cron/Spent.antt =====
-- An occurrence that was claimed stays out of reach: its claim stands until its successor is due.
use ironqueue.Common.{
  ℕ, zero, suc, ◌≤◌, ◌≡◌, refl, subst, ◌∙◌, ◌≢◌, ◌⊎◌, inl, inr, Bool, true, false, not, ◌&&◌, List,
  [], ◌∷◌, ◌++◌, arith, leb, Bool-cases, take, select, any, any-append, All, All-append, Text,
  text_eq→eq, text_eq_refl,
}
use ironqueue.Database.Statement.{Fate, keep, remove, write, settle, apply, apply-All}
use ironqueue.Database.Row.{Handle}
use ironqueue.Database.Dequeue.{claimed}
use ironqueue.Cron.Entry.{JobCronEntry}
use ironqueue.Cron.Tables.{CronOccurrence, CronStore, is_claim}
use ironqueue.Cron.Schedule.{Candidate, claim_of}
use ironqueue.Cron.Pass.{Pass, is_claimed, claims_after}
use ironqueue.Cron.Purge.{
  claim_before, insert_claim, sort_claims, is_lapsed_claim, expired_claims, purge_claim_fate,
  purge_cron_occurrences,
}

-- A claim of the occurrence expires no earlier than `successor`.
abbrev pub Lasts : Text → Text → ℕ → ℕ → CronOccurrence → Type 0
Lasts queue key at successor o = is_claim queue key at o ≡ true → successor ≤ o.expires_at

-- Nobody can publish the occurrence any more: it is claimed for long enough, or its successor is due.
unfoldable pub Spent : Text → Text → ℕ → ℕ → ℕ → List CronOccurrence → Type 0
Spent queue key at successor clock os =
    ((any (is_claim queue key at) os ≡ true) × All (Lasts queue key at successor) os)
    ⊎ (successor ≤ clock)

pub both_ways : {b : Bool} → b ≡ true → b ≡ false → ⊥
both_ways e f = grind (arith, e, f)

module _ (P : CronOccurrence → Type 0) where
  select-All :
      (f : CronOccurrence → Bool) (os : List CronOccurrence)
      → All P os
      → All (λ o. P o × (f o ≡ true)) (select f os)
  unfolding select
  select-All f [] h = tt
  select-All f (o ∷ os) h = elim (Bool-cases (f o)) [
    | inl y ↦ rw (y, select) ((h.0, y), select-All f os h.1)
    | inr n ↦ rw (n, select) (select-All f os h.1)
  ]

  insert_claim-All :
      (collates : Text → Text → Bool) (o : CronOccurrence) (os : List CronOccurrence)
      → P o
      → All P os
      → All P (insert_claim collates o os)
  unfolding insert_claim
  insert_claim-All collates o [] x h = (x, tt)
  insert_claim-All collates o (a ∷ rest) x h = elim (Bool-cases (claim_before collates a o)) [
    | inl y ↦ rw y (h.0, insert_claim-All collates o rest x h.1)
    | inr n ↦ rw n (x, h)
  ]

  sort_claims-All :
      (collates : Text → Text → Bool) (os : List CronOccurrence)
      → All P os
      → All P (sort_claims collates os)
  unfolding sort_claims
  sort_claims-All collates [] h = tt
  sort_claims-All collates (o ∷ os) h =
      insert_claim-All collates o (sort_claims collates os) h.0 (sort_claims-All collates os h.1)

  take-All : (n : ℕ) (os : List CronOccurrence) → All P os → All P (take n os)
  take-All zero os h = tt
  take-All (suc n) [] h = tt
  take-All (suc n) (o ∷ os) h = (h.0, take-All n os h.1)

module _ (queue key : Text) (at successor : ℕ) where
  -- What is removed of the occurrence's claims had expired.
  purged :
      (now : ℕ) (doomed os : List CronOccurrence)
      → All (λ o. Lasts queue key at successor o × (leb o.expires_at now ≡ true)) doomed
      → any (is_claim queue key at) doomed ≡ true
      → successor ≤ now
  unfolding any
  purged now [] os h e = ground arith
  purged now (d ∷ ds) os h e = elim (Bool-cases (is_claim queue key at d)) [
    | inl y ↦ let l = h.0.0 y in ground arith
    | inr n ↦ purged now ds os h.1 (ground arith)
  ]

  claim-key :
      (o : CronOccurrence)
      → is_claim queue key at o ≡ true
      → (o.queue ≡ queue) × (o.dedupe_key ≡ key) × (o.scheduled_at ≡ at)
  unfolding is_claim
  claim-key o e = (
    text_eq→eq o.queue queue (ground arith),
    text_eq→eq o.dedupe_key key (ground arith),
    ground arith,
  )

  spared :
      (doomed : List CronOccurrence) (o : CronOccurrence)
      → any (is_claim queue key at) doomed ≡ false
      → is_claim queue key at o ≡ true
      → purge_claim_fate doomed o ≡ keep
  unfolding purge_claim_fate
  spared doomed o e y =
      let k = claim-key o y in
      let same : any (is_claim o.queue o.dedupe_key o.scheduled_at) doomed ≡ false =
        rw (k.0, k.1, k.2) e in
      rw same refl

  any-settle :
      (f : Fate CronOccurrence) (o : CronOccurrence) (rest : List CronOccurrence)
      → any (is_claim queue key at) rest ≡ true
      → any (is_claim queue key at) (settle f o rest) ≡ true
  unfolding any settle
  any-settle keep o rest e = ground arith
  any-settle remove o rest e = e
  any-settle (write o') o rest e = ground arith

  -- A purge that takes no claim of the occurrence leaves one.
  purge_claim-any :
      (doomed os : List CronOccurrence)
      → any (is_claim queue key at) doomed ≡ false
      → any (is_claim queue key at) os ≡ true
      → any (is_claim queue key at) (apply (purge_claim_fate doomed) os) ≡ true
  unfolding any apply settle
  purge_claim-any doomed [] n e = e
  purge_claim-any doomed (o ∷ os) n e = elim (Bool-cases (is_claim queue key at o)) [
    | inl y ↦ rw (spared doomed o n y, y) refl
    | inr other ↦
        any-settle (purge_claim_fate doomed o) o (apply (purge_claim_fate doomed) os)
          (purge_claim-any doomed os n (ground arith))
  ]

  never_writes :
      (doomed : List CronOccurrence) (o o' : CronOccurrence) → purge_claim_fate doomed o ≢ write o'
  unfolding purge_claim_fate
  never_writes doomed o o' e = ground arith

  lapsed-All :
      (queue' : Text) (now : ℕ) (locked : CronOccurrence → Bool) (os : List CronOccurrence)
      → All
          (λ o.
            Lasts queue key at successor o
            × (is_lapsed_claim queue' now o && not (locked o) ≡ true))
          os
      → All (λ o. Lasts queue key at successor o × (leb o.expires_at now ≡ true)) os
  unfolding is_lapsed_claim
  lapsed-All queue' now locked [] h = tt
  lapsed-All queue' now locked (o ∷ os) h =
      ((h.0.0, ground arith), lapsed-All queue' now locked os h.1)

  -- A purge at a time not before the clock keeps the occurrence out of reach.
  pub purge_cron_occurrences-Spent :
      (collates : Text → Text → Bool) (h : Handle) (clock now : ℕ) (locked : CronOccurrence → Bool)
      (s : CronStore)
      → clock ≤ now
      → Spent queue key at successor clock s.occurrences
      → Spent queue key at successor now
          (purge_cron_occurrences collates h now locked s).0.occurrences
  unfolding purge_cron_occurrences Spent expired_claims
  purge_cron_occurrences-Spent collates h clock now locked s le (inr due) = inr (omega arith)
  purge_cron_occurrences-Spent collates h clock now locked s le (inl (some', all)) =
      let doomed = expired_claims collates h now locked s.occurrences in
      elim (Bool-cases (any (is_claim queue key at) doomed)) [
        | inr none' ↦ inl (
          purge_claim-any doomed s.occurrences none' some',
          apply-All (Lasts queue key at successor) (purge_claim_fate doomed)
              (λ o o' l e. absurd (never_writes doomed o o' e)) s.occurrences all,
        )
        | inl gone ↦ inr (
            purged now doomed s.occurrences
              (take-All _ h.sweep_batch_size _ (
                sort_claims-All _ collates _
                  (lapsed-All h.name now locked _ (select-All _ _ s.occurrences all))))
              gone)
      ]

  unclaimed-All :
      (os : List CronOccurrence)
      → any (is_claim queue key at) os ≡ false
      → All (Lasts queue key at successor) os
  unfolding any
  unclaimed-All [] e = tt
  unclaimed-All (o ∷ os) e = (λ y. absurd (ground arith), unclaimed-All os (ground arith))

  pub later-Spent :
      (clock now : ℕ) (os : List CronOccurrence)
      → clock ≤ now
      → Spent queue key at successor clock os
      → Spent queue key at successor now os
  unfolding Spent
  later-Spent clock now os le (inr due) = inr (omega arith)
  later-Spent clock now os le (inl claimed) = inl claimed

module _ (h : Handle) (job_entry : JobCronEntry) (p : Pass) (c : Candidate) (s : CronStore) where
  own_claim :
      is_claim h.name job_entry.dedupe_key c.occurrence (claim_of h job_entry c p.current) ≡ true
  unfolding is_claim claim_of
  own_claim = rw (text_eq_refl h.name, text_eq_refl job_entry.dedupe_key) (ground arith)

  claimed_at :
      (at : ℕ)
      → is_claim h.name job_entry.dedupe_key at (claim_of h job_entry c p.current) ≡ true
      → c.occurrence ≡ at
  unfolding is_claim claim_of
  claimed_at at e = ground arith

  lasting : c.successor ≤ (claim_of h job_entry c p.current).expires_at
  unfolding claim_of
  lasting = omega arith

  -- A fresh claim takes its occurrence out of reach.
  pub Spent-claim :
      is_claimed h job_entry c s ≡ false
      → Spent h.name job_entry.dedupe_key c.occurrence c.successor p.current
          (s.occurrences ++ claim_of h job_entry c p.current ∷ [])
  unfolding Spent is_claimed any
  Spent-claim free = inl (
    any-append (is_claim h.name job_entry.dedupe_key c.occurrence) s.occurrences
          (claim_of h job_entry c p.current ∷ [])
        ∙ rw (own_claim, free) refl,
    All-append (Lasts h.name job_entry.dedupe_key c.occurrence c.successor) s.occurrences
        (claim_of h job_entry c p.current ∷ [])
        (unclaimed-All h.name job_entry.dedupe_key c.occurrence c.successor s.occurrences free)
        ((λ y. lasting), tt),
  )

  append-Spent :
      (at successor clock : ℕ)
      → clock ≤ p.current
      → is_claimed h job_entry c s ≡ false
      → Spent h.name job_entry.dedupe_key at successor clock s.occurrences
      → Spent h.name job_entry.dedupe_key at successor p.current
          (s.occurrences ++ claim_of h job_entry c p.current ∷ [])
  unfolding Spent is_claimed
  append-Spent at successor clock le free (inr due) = inr (omega arith)
  append-Spent at successor clock le free (inl (claimed, all)) = inl (
    any-append (is_claim h.name job_entry.dedupe_key at) s.occurrences
          (claim_of h job_entry c p.current ∷ [])
        ∙ rw claimed refl,
    All-append (Lasts h.name job_entry.dedupe_key at successor) s.occurrences
        (claim_of h job_entry c p.current ∷ []) all
        (
          (λ y. absurd (
              both_ways claimed (
                subst (λ n. any (is_claim h.name job_entry.dedupe_key n) s.occurrences ≡ false)
                  (claimed_at at y) free))),
          tt,
        ),
  )

  -- The insert of a claim keeps every occurrence that is out of reach there.
  pub claims_after-Spent :
      (at successor clock : ℕ)
      → clock ≤ p.current
      → Spent h.name job_entry.dedupe_key at successor clock s.occurrences
      → Spent h.name job_entry.dedupe_key at successor p.current (claims_after h job_entry p c s)
  unfolding claims_after
  claims_after-Spent at successor clock le spent = elim (Bool-cases (is_claimed h job_entry c s)) [
    | inl y ↦ rw y (
        later-Spent h.name job_entry.dedupe_key at successor clock p.current s.occurrences le spent)
    | inr n ↦ rw n (append-Spent at successor clock le n spent)
  ]
