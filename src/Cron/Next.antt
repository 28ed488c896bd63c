-- ===== src/Cron/Next.antt =====
-- The forward search finds the first occurrence, if a cycle holds one.
use native.Mathlib.Decide.{dec_le}
use ironqueue.Common.{
  ℕ, zero, suc, ◌+◌, ◌*◌, ◌≤◌, ◌<◌, min, ◌≡◌, refl, sym, ◌≢◌, ◌⊎◌, inl, inr, Bool, true, false,
  none, some, arith, Option-cases,
}
use ironqueue.Cron.Search.{
  Crontab, Span, from_second, cron_cycle_seconds, cron_search_step_seconds, Search, found, nothing,
  out_of_fuel, searchable, search_from, next_after,
}
use ironqueue.Cron.Crontab.{IsCrontab, Next}

pub Found-cases : (s : Search) → (s ≡ out_of_fuel) ⊎ (s ≡ nothing) ⊎ ((n : ℕ) × (s ≡ found n))
Found-cases (found n) = inr (inr (n, refl))
Found-cases nothing = inr (inl refl)
Found-cases out_of_fuel = inl refl

module _ (span : Span) (cron : Crontab) where
  search_from-ends :
      (limit fuel cursor : ℕ)
      → limit ≤ cursor + fuel * cron_search_step_seconds
      → search_from span cron limit (suc fuel) cursor ≢ out_of_fuel
  unfolding search_from from_second
  search_from-ends limit zero cursor h = ground arith
  search_from-ends limit (suc fuel) cursor h =
      ground (arith, search_from-ends limit fuel (min (cursor + cron_search_step_seconds) limit))

  -- The forward search always ends within its 135 rounds.
  pub next_after-ends : (after : ℕ) → next_after span cron after ≢ out_of_fuel
  unfolding next_after
  next_after-ends after =
      search_from-ends (min (after + cron_cycle_seconds) span.last) 134 after (omega arith)

module _ (span : Span) (cron : Crontab) where
  search_from-hit :
      (limit fuel cursor next n : ℕ)
      → cron.find_next cursor ≡ some next
      → search_from span cron limit (suc fuel) cursor ≡ found n
      → (next ≡ n) × (n ≤ limit)
  unfolding search_from
  search_from-hit limit fuel cursor next n hit e = (ground arith, ground arith)

  search_from-miss :
      (limit fuel cursor n : ℕ)
      → cron.find_next cursor ≡ none
      → search_from span cron limit (suc fuel) cursor ≡ found n
      → (cursor < min (cursor + cron_search_step_seconds) limit)
        × (search_from span cron limit fuel (min (cursor + cron_search_step_seconds) limit)
            ≡ found n)
  unfolding search_from from_second
  search_from-miss limit fuel cursor n miss e = (ground arith, ground arith)

-- No occurrence lies after `after` and up to `cursor`.
abbrev pub Empty : (ℕ → Bool) → ℕ → ℕ → Type 0
Empty fires after cursor = (m : ℕ) → after < m → m ≤ cursor → fires m ≡ false

module _ (span : Span) (cron : Crontab) (fires : ℕ → Bool) (lawful : IsCrontab cron fires) where
  Empty-jump :
      (after cursor jump : ℕ)
      → Empty fires after cursor
      → cron.find_next cursor ≡ none
      → jump ≤ cursor + cron_search_step_seconds
      → Empty fires after jump
  Empty-jump after cursor jump gap e h m low high = elim (dec_le m cursor) [
    | yes near ↦ gap m low near
    | no far ↦ lawful.next_window cursor m e (omega arith) (omega arith)
  ]

  Next-found :
      (after cursor n : ℕ)
      → Empty fires after cursor
      → after ≤ cursor
      → cron.find_next cursor ≡ some n
      → Next fires after n
  Next-found after cursor n gap le e = (
    omega (arith, lawful.next_fires cursor n e),
    (lawful.next_fires cursor n e).1,
    λ m low high. elim (dec_le m cursor) [
      | yes near ↦ gap m low near
      | no far ↦ lawful.next_first cursor n m e (omega arith) high
    ],
  )

  search_from-Next :
      (after limit fuel cursor n : ℕ)
      → Empty fires after cursor
      → after ≤ cursor
      → search_from span cron limit fuel cursor ≡ found n
      → Next fires after n × (n ≤ limit)
  unfolding search_from
  search_from-Next after limit zero cursor n gap le e = ground arith
  search_from-Next after limit (suc fuel) cursor n gap le e =
      elim (Option-cases (cron.find_next cursor)) [
        | inl miss ↦
            let jump = min (cursor + cron_search_step_seconds) limit in
            let go = search_from-miss span cron limit fuel cursor n miss e in
            search_from-Next after limit fuel jump n
              (Empty-jump after cursor jump gap miss (omega arith)) (omega (arith, go.0)) go.1
        | inr (next, hit) ↦
            let here = search_from-hit span cron limit fuel cursor next n hit e in
            (Next-found after cursor n gap le (rw (sym here.0) hit), here.1)
      ]

  search_from-reaches :
      (limit fuel cursor m : ℕ)
      → fires m ≡ true
      → cursor < m
      → m ≤ limit
      → m ≤ searchable span cron
      → limit ≤ span.last
      → span.first ≤ cursor
      → search_from span cron limit fuel cursor ≢ nothing
  unfolding search_from from_second
  search_from-reaches limit zero cursor m f low high near top bottom e = ground arith
  search_from-reaches limit (suc fuel) cursor m f low high near top bottom e =
      let jump = min (cursor + cron_search_step_seconds) limit in
      elim (Option-cases (cron.find_next cursor)) [
        | inl miss ↦ elim (dec_le m (cursor + cron_search_step_seconds)) [
          | yes within ↦ ground (arith, lawful.next_window cursor m miss low (omega arith))
          | no beyond ↦ ground (
            arith,
            search_from-reaches limit fuel jump m f (omega arith) high near top (omega arith),
          )
        ]
        | inr (next, hit) ↦ elim (dec_le next m) [
          | yes first ↦ ground arith
          | no later ↦ ground (arith, lawful.next_first cursor next m hit low (omega arith))
        ]
      ]

  -- What the forward search finds is the first occurrence after `after`, at most a cycle later.
  pub next_after-Next :
      (after n : ℕ)
      → next_after span cron after ≡ found n
      → Next fires after n × (n ≤ after + cron_cycle_seconds)
  unfolding next_after
  next_after-Next after n e =
      let r =
        search_from-Next after (min (after + cron_cycle_seconds) span.last) 135 after n
          (λ m low high. absurd (omega arith)) (omega arith) e in
      (r.0, omega (arith, r.1))

  pub next_after-finds :
      (after m : ℕ)
      → span.first ≤ after
      → fires m ≡ true
      → after < m
      → m ≤ after + cron_cycle_seconds
      → m ≤ searchable span cron
      → (n : ℕ) × (next_after span cron after ≡ found n)
  unfolding next_after
  next_after-finds after m bottom f low high near =
      elim (Found-cases (next_after span cron after)) [
        | inl e ↦ absurd (next_after-ends span cron after e)
        | inr (inl e) ↦ absurd (
            search_from-reaches (min (after + cron_cycle_seconds) span.last) 135 after m f low
              (omega arith) near (omega arith) bottom e)
        | inr (inr r) ↦ r
      ]

  -- Where an occurrence lies in the cycle after `after`, before the last four years that a timestamp
  -- can express, the forward search finds the first one after `after`.
  pub next_after-first :
      (after m : ℕ)
      → span.first ≤ after
      → fires m ≡ true
      → after < m
      → m ≤ after + cron_cycle_seconds
      → m ≤ searchable span cron
      → (n : ℕ) × (next_after span cron after ≡ found n) × Next fires after n
  next_after-first after m bottom f low high near =
      let hit = next_after-finds after m bottom f low high near in
      (hit.0, hit.1, (next_after-Next after hit.0 hit.1).0)
