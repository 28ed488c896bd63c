-- ===== src/Cron/Bisection.antt =====
-- The rounds of the backward search, and that it ends.
use native.Mathlib.Nat.{pow-suc}
use ironqueue.Common.{
  ℕ, zero, suc, ◌+◌, ◌-◌, ◌*◌, ◌/◌, ◌^◌, ◌≤◌, ◌<◌, max, ◌≡◌, refl, ◌≢◌, inl, inr, Bool, true, false,
  Option, none, some, arith,
}
use ironqueue.Cron.Search.{
  Crontab, Span, from_second, cron_cycle_seconds, Search, found, nothing, out_of_fuel, next_after,
  bisect, bisected, or_bisected, previous_at_or_before,
}
use ironqueue.Cron.Next.{Found-cases, next_after-ends}

pub clash : {s : Search} {n : ℕ} → s ≡ nothing → s ≡ found n → ⊥
clash e f = grind (arith, e, f)

pub differ : {b : Bool} → b ≡ false → b ≡ true → ⊥
differ e f = grind (arith, e, f)

pub same_found : {s : Search} {n m : ℕ} → s ≡ found n → s ≡ found m → n ≡ m
same_found e f = grind (arith, e, f)

pub from_second-within :
    (span : Span) (s : ℕ) → span.first ≤ s → s ≤ span.last → from_second span s ≡ some s
unfolding from_second
from_second-within span s low high = ground arith

module _ (span : Span) (cron : Crontab) where
  pub bisect-ends :
      (now fuel low high latest : ℕ)
      → high - low ≤ 2 ^ fuel
      → bisect span cron now (suc fuel) low high latest ≢ out_of_fuel
  unfolding bisect
  bisect-ends now zero low high latest h = ground arith
  bisect-ends now (suc fuel) low high latest h =
      let midpoint = low + (high - low) / 2 in
      elim (Found-cases (next_after span cron midpoint)) [
        | inl e ↦ absurd (next_after-ends span cron midpoint e)
        | inr (inl e) ↦ ground (arith, pow-suc 2 fuel, bisect-ends now fuel low midpoint latest)
        | inr (inr (next, e)) ↦ ground (
          arith,
          pow-suc 2 fuel,
          bisect-ends now fuel low midpoint latest,
          bisect-ends now fuel midpoint high next,
        )
      ]

  pub bisected-ends :
      (now floor : ℕ) (s : Search)
      → s ≢ out_of_fuel
      → now - floor ≤ 2 ^ 34
      → bisected span cron now floor s ≢ out_of_fuel
  bisected-ends now floor (found latest) done near =
      ground (arith, bisect-ends now 34 floor now latest near)
  bisected-ends now floor nothing done near = ground arith
  bisected-ends now floor out_of_fuel done near = λ e. done refl

  pub or_bisected-ends :
      (now minute : ℕ) (matched : Option Bool)
      → or_bisected span cron now minute matched ≢ out_of_fuel
  unfolding from_second
  or_bisected-ends now minute none = ground arith
  or_bisected-ends now minute (some true) = ground arith
  or_bisected-ends now minute (some false) =
      let floor = max (now - cron_cycle_seconds) span.first in
      ground (
        arith,
        bisected-ends now floor (next_after span cron floor) (next_after-ends span cron floor)
            (omega arith),
      )

  -- The backward search always ends: its forward searches do, and 35 halvings cover a cycle.
  pub previous_at_or_before-ends : (now : ℕ) → previous_at_or_before span cron now ≢ out_of_fuel
  unfolding previous_at_or_before from_second
  previous_at_or_before-ends now =
      ground (arith, or_bisected-ends now (now / 60 * 60) (cron.matches (now / 60 * 60)))

-- One round of the bisection, by its outcome.
module _ (span : Span) (cron : Crontab) (now fuel low high latest : ℕ) where
  pub bisect-stop :
      (n : ℕ)
      → high - low ≤ 1
      → bisect span cron now (suc fuel) low high latest ≡ found n
      → latest ≡ n
  unfolding bisect
  bisect-stop n close e = ground arith

  pub bisect-none :
      from_second span (low + (high - low) / 2) ≡ some (low + (high - low) / 2)
      → 1 < high - low
      → next_after span cron (low + (high - low) / 2) ≡ nothing
      → bisect span cron now (suc fuel) low high latest
        ≡ bisect span cron now fuel low (low + (high - low) / 2) latest
  unfolding bisect
  bisect-none within wide r = ground arith

  pub bisect-late :
      (next : ℕ)
      → from_second span (low + (high - low) / 2) ≡ some (low + (high - low) / 2)
      → 1 < high - low
      → next_after span cron (low + (high - low) / 2) ≡ found next
      → now < next
      → bisect span cron now (suc fuel) low high latest
        ≡ bisect span cron now fuel low (low + (high - low) / 2) latest
  unfolding bisect
  bisect-late next within wide r late = ground arith

  pub bisect-early :
      (next : ℕ)
      → from_second span (low + (high - low) / 2) ≡ some (low + (high - low) / 2)
      → 1 < high - low
      → next_after span cron (low + (high - low) / 2) ≡ found next
      → next ≤ now
      → bisect span cron now (suc fuel) low high latest
        ≡ bisect span cron now fuel (low + (high - low) / 2) high next
  unfolding bisect
  bisect-early next within wide r early = ground arith
