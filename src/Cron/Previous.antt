-- ===== src/Cron/Previous.antt =====
-- The backward search finds the last occurrence, if a cycle holds one.
use native.Mathlib.Decide.{dec_le}
use ironqueue.Common.{
  ℕ, zero, suc, ◌+◌, ◌-◌, ◌*◌, ◌/◌, ◌≤◌, ◌<◌, max, ◌≡◌, refl, sym, subst, ◌∙◌, ◌≢◌, inl, inr, Bool,
  true, false, some, arith, Bool-cases,
}
use ironqueue.Cron.Search.{
  Crontab, Span, from_second, cron_cycle_seconds, Search, found, nothing, out_of_fuel, searchable,
  next_after, bisect, bisected, or_bisected, previous_at_or_before,
}
use ironqueue.Cron.Crontab.{IsCrontab, Next, Previous}
use ironqueue.Cron.Next.{Found-cases, next_after-ends, Empty, next_after-Next, next_after-finds}
use ironqueue.Cron.Bisection.{
  clash, differ, same_found, from_second-within, bisected-ends, bisect-stop, bisect-none,
  bisect-late, bisect-early,
}

-- What the backward search keeps: `latest` is an occurrence after `low`, and none lies after `high`.
record Brackets (span : Span) (fires : ℕ → Bool) (now low high latest : ℕ) : Type 0 where
  fired : fires latest ≡ true
  after_low : low < latest
  upto_now : latest ≤ now
  none_later : Empty fires high now
  bottom : span.first ≤ low
  below : low ≤ high
  top : high ≤ now
  in_cycle : now ≤ low + cron_cycle_seconds

module _ (span : Span) (cron : Crontab) (fires : ℕ → Bool) (lawful : IsCrontab cron fires) where
  -- No occurrence up to `now` lies after a probe whose successor is none or later than `now`.
  Empty-probe :
      (now probe : ℕ)
      → span.first ≤ probe
      → now ≤ probe + cron_cycle_seconds
      → now ≤ searchable span cron
      → ((n : ℕ) → next_after span cron probe ≡ found n → now < n)
      → Empty fires probe now
  Empty-probe now probe bottom cycle near later m low high = elim (Bool-cases (fires m)) [
    | inr quiet ↦ quiet
    | inl f ↦
        let r =
          next_after-finds span cron fires lawful probe m bottom f low (omega arith)
            (omega arith) in
        let n = next_after-Next span cron fires lawful probe r.0 r.1 in
        let past = later r.0 r.1 in n.0.2 m low (omega arith)
  ]

  Brackets-up :
      (now low high latest midpoint next : ℕ)
      → Brackets span fires now low high latest
      → low ≤ midpoint
      → midpoint ≤ high
      → Next fires midpoint next
      → next ≤ now
      → Brackets span fires now midpoint high next
  Brackets-up now low high latest midpoint next b up down n le = record {
    fired = n.1;
    after_low = n.0;
    upto_now = le;
    none_later = b.none_later;
    bottom = omega (arith, b.bottom);
    below = down;
    top = b.top;
    in_cycle = omega (arith, b.in_cycle);
  }

  Brackets-down :
      (now low high latest midpoint : ℕ)
      → Brackets span fires now low high latest
      → low ≤ midpoint
      → midpoint ≤ high
      → now ≤ searchable span cron
      → ((n : ℕ) → next_after span cron midpoint ≡ found n → now < n)
      → Brackets span fires now low midpoint latest
  Brackets-down now low high latest midpoint b up down near later = record {
    fired = b.fired;
    after_low = b.after_low;
    upto_now = b.upto_now;
    none_later =
        Empty-probe now midpoint (omega (arith, b.bottom)) (omega (arith, b.in_cycle)) near later;
    bottom = b.bottom;
    below = up;
    top = omega (arith, b.top);
    in_cycle = b.in_cycle;
  }

  Brackets-closed :
      (now low high latest : ℕ)
      → Brackets span fires now low high latest
      → high - low ≤ 1
      → Previous fires now latest
  Brackets-closed now low high latest b close =
      (b.upto_now, b.fired, λ m after upto. b.none_later m (omega (arith, b.after_low)) upto)

  bisect-Previous :
      (now fuel low high latest n : ℕ)
      → Brackets span fires now low high latest
      → now ≤ searchable span cron
      → bisect span cron now fuel low high latest ≡ found n
      → Previous fires now n
  unfolding bisect
  bisect-Previous now zero low high latest n b near e = ground arith
  bisect-Previous now (suc fuel) low high latest n b near e =
      let midpoint = low + (high - low) / 2 in
      let up : low ≤ midpoint = omega arith in
      let down : midpoint ≤ high = omega (arith, b.below) in
      let within =
        from_second-within span midpoint (omega (arith, b.bottom)) (omega (arith, b.top, down)) in
      elim (dec_le (high - low) 1) [
        | yes close ↦
            subst (Previous fires now) (bisect-stop span cron now fuel low high latest n close e)
              (Brackets-closed now low high latest b close)
        | no wide ↦ elim (Found-cases (next_after span cron midpoint)) [
          | inl r ↦ absurd (next_after-ends span cron midpoint r)
          | inr (inl r) ↦
              bisect-Previous now fuel low midpoint latest n
                (Brackets-down now low high latest midpoint b up down near
                  (λ k s. absurd (clash r s)))
                near
                (sym (bisect-none span cron now fuel low high latest within (omega arith) r) ∙ e)
          | inr (inr (next, r)) ↦ elim (dec_le next now) [
            | yes early ↦
                bisect-Previous now fuel midpoint high next n
                  (Brackets-up now low high latest midpoint next b up down
                    (next_after-Next span cron fires lawful midpoint next r).0 early)
                  near
                  (sym (
                      bisect-early span cron now fuel low high latest next within (omega arith) r
                        early)
                    ∙ e)
            | no late ↦
                bisect-Previous now fuel low midpoint latest n
                  (Brackets-down now low high latest midpoint b up down near
                    (λ k s. omega (arith, same_found r s)))
                  near
                  (sym (
                      bisect-late span cron now fuel low high latest next within (omega arith) r
                        (omega arith))
                    ∙ e)
          ]
        ]
      ]

  bisected-Previous :
      (now floor n : ℕ) (s : Search)
      → next_after span cron floor ≡ s
      → span.first ≤ floor
      → floor ≤ now
      → now ≤ floor + cron_cycle_seconds
      → now ≤ searchable span cron
      → bisected span cron now floor s ≡ found n
      → Previous fires now n
  bisected-Previous now floor n (found latest) r bottom low cycle near e =
      elim (dec_le latest now) [
        | yes early ↦
            let first = (next_after-Next span cron fires lawful floor latest r).0 in
            bisect-Previous now 35 floor now latest n
              (record {
                fired = first.1;
                after_low = first.0;
                upto_now = early;
                none_later = λ m high low'. absurd (omega arith);
                bottom = bottom;
                below = low;
                top = omega arith;
                in_cycle = cycle;
              })
              near (ground arith)
        | no late ↦ ground arith
      ]
  bisected-Previous now floor n nothing r bottom low cycle near e = ground arith
  bisected-Previous now floor n out_of_fuel r bottom low cycle near e = ground arith

  bisect-something :
      (now fuel low high latest : ℕ)
      → span.first ≤ low
      → low ≤ high
      → high ≤ span.last
      → bisect span cron now fuel low high latest ≢ nothing
  unfolding bisect
  bisect-something now zero low high latest bottom order top e = ground arith
  bisect-something now (suc fuel) low high latest bottom order top e =
      let midpoint = low + (high - low) / 2 in
      let within = from_second-within span midpoint (omega arith) (omega arith) in
      let down = bisect-something now fuel low midpoint latest bottom (omega arith) (omega arith) in
      elim (dec_le (high - low) 1) [
        | yes close ↦ ground arith
        | no wide ↦ elim (Found-cases (next_after span cron midpoint)) [
          | inl r ↦ absurd (next_after-ends span cron midpoint r)
          | inr (inl r) ↦
              down (sym (bisect-none span cron now fuel low high latest within (omega arith) r) ∙ e)
          | inr (inr (next, r)) ↦ elim (dec_le next now) [
            | yes early ↦
                bisect-something now fuel midpoint high next (omega arith) (omega arith) top (
                  sym (
                    bisect-early span cron now fuel low high latest next within (omega arith) r
                      early)
                  ∙ e)
            | no late ↦ down (
                sym (
                  bisect-late span cron now fuel low high latest next within (omega arith) r
                    (omega arith))
                ∙ e)
          ]
        ]
      ]

  bisected-something :
      (now floor m : ℕ) (s : Search)
      → next_after span cron floor ≡ s
      → span.first ≤ floor
      → fires m ≡ true
      → floor < m
      → m ≤ now
      → now ≤ floor + cron_cycle_seconds
      → now ≤ searchable span cron
      → bisected span cron now floor s ≢ nothing
  bisected-something now floor m (found latest) r bottom f low high cycle near =
      let first = (next_after-Next span cron fires lawful floor latest r).0 in
      elim (dec_le latest m) [
        | yes early ↦
            ground
              (arith, bisect-something now 35 floor now latest bottom (omega arith) (omega arith))
        | no late ↦ absurd (differ (first.2 m low (omega arith)) f)
      ]
  bisected-something now floor m nothing r bottom f low high cycle near =
      let hit =
        next_after-finds span cron fires lawful floor m bottom f low (omega arith) (omega arith) in
      absurd (clash r hit.1)
  bisected-something now floor m out_of_fuel r bottom f low high cycle near =
      absurd (next_after-ends span cron floor r)

  Previous-minute : (now : ℕ) → fires (now / 60 * 60) ≡ true → Previous fires now (now / 60 * 60)
  Previous-minute now f = (
    omega arith,
    f,
    λ m low high. elim (Bool-cases (fires m)) [
      | inr quiet ↦ quiet
      | inl g ↦ absurd (omega (arith, lawful.minutely m g))
    ],
  )

  or_bisected-Previous :
      (now m : ℕ) (matched : Bool)
      → fires (now / 60 * 60) ≡ matched
      → fires m ≡ true
      → max (now - cron_cycle_seconds) span.first < m
      → m ≤ now
      → now ≤ searchable span cron
      → (n : ℕ) × (or_bisected span cron now (now / 60 * 60) (some matched) ≡ found n)
        × Previous fires now n
  unfolding from_second
  or_bisected-Previous now m true at f low high near = (now / 60 * 60, refl, Previous-minute now at)
  or_bisected-Previous now m false at f low high near =
      let floor = max (now - cron_cycle_seconds) span.first in
      let s = next_after span cron floor in
      elim (Found-cases (bisected span cron now floor s)) [
        | inl e ↦
            absurd (
              bisected-ends span cron now floor s (next_after-ends span cron floor) (omega arith) e)
        | inr (inl e) ↦
            absurd
              (bisected-something now floor m s refl (omega arith) f low high (omega arith) near e)
        | inr (inr (n, e)) ↦ (
          n,
          ground arith,
          bisected-Previous now floor n s refl (omega arith) (omega arith) (omega arith) near e,
        )
      ]

  -- Where an occurrence lies in the cycle before `now`, and `now` is not within the last four years of the
  -- timestamps, the backward search finds the last one at or before `now`.
  pub previous_at_or_before-Previous :
      (now m : ℕ)
      → fires m ≡ true
      → max (now - cron_cycle_seconds) span.first < m
      → m ≤ now
      → now ≤ searchable span cron
      → (n : ℕ) × (previous_at_or_before span cron now ≡ found n) × Previous fires now n
  unfolding previous_at_or_before
  previous_at_or_before-Previous now m f low high near =
      let minute = now / 60 * 60 in
      let go = or_bisected-Previous now m (fires minute) refl f low high near in
      let within : from_second span minute ≡ some minute =
        from_second-within span minute (omega (arith, lawful.minutely m f)) (omega arith) in
      (go.0, rw (within, lawful.matching minute, previous_at_or_before) go.1, go.2)
