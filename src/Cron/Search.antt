-- ===== src/Cron/Search.antt =====
-- `CronSchedule::next_after` and `previous_at_or_before` of ironqueue/src/job.rs, in whole seconds from
-- an origin that is the beginning of a minute and not after `Timestamp::MIN`.
use ironqueue.Common.{
  ℕ, zero, suc, ◌+◌, ◌-◌, ◌*◌, ◌/◌, min, max, Bool, true, false, ◌&&◌, Option, none, some, ltb, leb,
  if◌then◌else◌,
}

-- The two lookups of the `cronexpr` crate that the search calls; `none` is its error.
pub record Crontab : Type 0 where
  pub find_next : ℕ → Option ℕ
  pub matches : ℕ → Option Bool

-- `Timestamp::MIN` and `Timestamp::MAX`, in seconds.
pub record Span : Type 0 where
  pub first : ℕ
  pub last : ℕ

-- `Timestamp::from_second`.
unfoldable pub from_second : Span → ℕ → Option ℕ
from_second span s = if leb span.first s && leb s span.last then some s else none

abbrev pub cron_cycle_seconds : ℕ
cron_cycle_seconds = 12622780800

abbrev pub cron_search_step_seconds : ℕ
cron_search_step_seconds = 94608000

abbrev pub cron_search_headroom_seconds : ℕ
cron_search_headroom_seconds = 126489600

-- What a loop on fuel answers.
pub data Search : Type 0 where
  found : ℕ → Search
  nothing : Search
  out_of_fuel : Search

module _ (span : Span) (cron : Crontab) where
  -- Beyond this second `find_next` would panic.
  abbrev pub searchable : ℕ
  searchable = span.last - cron_search_headroom_seconds

  -- The loop of `next_after`.
  unfoldable pub search_from : ℕ → ℕ → ℕ → Search
  unfolding from_second
  search_from limit zero cursor = out_of_fuel
  search_from limit (suc fuel) cursor = elim (ltb searchable cursor) [
    | true ↦ nothing
    | false ↦ elim (cron.find_next cursor) [
      | some next ↦ if leb next limit then found next else nothing
      | none ↦
          let jump = min (cursor + cron_search_step_seconds) limit in
          elim (leb jump cursor) [
            | true ↦ nothing
            | false ↦ elim (from_second span jump) [
              | none ↦ nothing
              | some c ↦ search_from limit fuel c
            ]
          ]
    ]
  ]

  -- A cycle is at most 134 steps long.
  unfoldable pub next_after : ℕ → Search
  unfolding search_from
  next_after after = search_from (min (after + cron_cycle_seconds) span.last) 135 after

  -- The loop of `previous_at_or_before` on `low`, `high` and `latest`.
  unfoldable pub bisect : ℕ → ℕ → ℕ → ℕ → ℕ → Search
  unfolding next_after from_second
  bisect now zero low high latest = out_of_fuel
  bisect now (suc fuel) low high latest = elim (ltb 1 (high - low)) [
    | false ↦ found latest
    | true ↦
        let midpoint = low + (high - low) / 2 in
        elim (from_second span midpoint) [
          | none ↦ nothing
          | some probe ↦ elim (next_after probe) [
            | found next ↦ elim (leb next now) [
              | true ↦ bisect now fuel midpoint high next
              | false ↦ bisect now fuel low midpoint latest
            ]
            | nothing ↦ bisect now fuel low midpoint latest
            | out_of_fuel ↦ out_of_fuel
          ]
        ]
  ]

  abbrev pub bisected : ℕ → ℕ → Search → Search
  bisected now floor (found latest) =
      if ltb now latest then nothing else bisect now 35 floor now latest
  bisected now floor nothing = nothing
  bisected now floor out_of_fuel = out_of_fuel

  abbrev pub or_bisected : ℕ → ℕ → Option Bool → Search
  or_bisected now minute none = nothing
  or_bisected now minute (some true) = found minute
  or_bisected now minute (some false) =
      let floor = max (now - cron_cycle_seconds) span.first in
      elim (from_second span floor) [ none ↦ nothing | some f ↦ bisected now f (next_after f) ]

  unfoldable pub previous_at_or_before : ℕ → Search
  unfolding bisect from_second
  previous_at_or_before now = elim (from_second span (now / 60 * 60)) [
    | none ↦ nothing
    | some minute ↦ or_bisected now minute (cron.matches minute)
  ]
