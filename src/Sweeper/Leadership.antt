-- ===== src/Sweeper/Leadership.antt =====
-- Leadership of the sweeper: `sweep_operations`, `ensure_leadership` and `release` of
-- ironqueue/src/sweeper.rs.
use ironqueue.Common.{
  ℕ, ◌+◌, ◌<◌, ◌≡◌, Bool, true, false, ◌&&◌, not, List, [], ◌∷◌, leb, if◌then◌else◌, length, arith,
}

abbrev pub max_leader_sweep_failures : ℕ
max_leader_sweep_failures = 3

-- `leading` says that the sweeper holds its connection.
pub record Leadership : Type 0 where
  pub leading : Bool
  pub failed_passes : ℕ

-- The attempt at the advisory lock: an error, the lock, or another holder.
pub data Acquisition : Type 0 where
  unreachable granted taken : Acquisition

-- What one pass meets: whether it has operations, whether the probe of the connection answers, the
-- attempt at the lock, whether the operations succeed, and whether the deadline cuts it short.
pub record Encounter : Type 0 where
  pub any : Bool
  pub probed : Bool
  pub acquisition : Acquisition
  pub succeeds : Bool
  pub in_time : Bool

-- The end of a pass.
pub data PassEnd : Type 0 where
  passed failed_pass : PassEnd

unfoldable pub release : Leadership → Leadership
release w = record w { leading = false }

operated : Bool → PassEnd
operated true = passed
operated false = failed_pass

acquire : Acquisition → Bool → Leadership → Leadership × PassEnd
unfolding operated
acquire unreachable succeeds w = (w, failed_pass)
acquire granted succeeds w = (record w { leading = true }, operated succeeds)
acquire taken succeeds w = (w, passed)

-- A pass: with the operations where it leads.
unfoldable pub sweep_pass : Encounter → Leadership → Leadership × PassEnd
unfolding operated acquire release
sweep_pass c w =
    if not c.any
    then (w, passed)
    else if w.leading && c.probed
    then (w, operated c.succeeds)
    else acquire c.acquisition c.succeeds (release w)

-- The count of failures, and the release after too many.
unfoldable pub count_pass : Leadership × PassEnd → Leadership
unfolding release
count_pass (w, passed) = record w { failed_passes = 0 }
count_pass (w, failed_pass) =
    if w.leading
    then (if leb max_leader_sweep_failures (w.failed_passes + 1)
        then release (record w { failed_passes = 0 })
        else record w { failed_passes = w.failed_passes + 1 })
    else w

-- A deadline that passes drops the pass and releases leadership.
unfoldable pub timed : Bool → Leadership × PassEnd → Leadership × PassEnd
unfolding release
timed true r = r
timed false r = (release r.0, failed_pass)

unfoldable pub sweep_operations : Encounter → Leadership → Leadership × PassEnd
unfolding sweep_pass count_pass timed
sweep_operations c w = let r = timed c.in_time (sweep_pass c w) in (count_pass r, r.1)

failed : PassEnd → Bool
failed passed = false
failed failed_pass = true

-- Every pass fails, and the sweeper leads after each.
unfoldable pub clings : List Encounter → Leadership → Bool
unfolding failed
clings [] w = true
clings (c ∷ cs) w = let r = sweep_operations c w in failed r.1 && (r.0.leading && clings cs r.0)

clings_once :
    (r : Leadership × PassEnd)
    → failed r.1 ≡ true
    → (count_pass r).leading ≡ true
    → ((count_pass r).failed_passes ≡ r.0.failed_passes + 1) × ((count_pass r).failed_passes < 3)
unfolding count_pass failed release
clings_once (w, passed) f l = ground arith
clings_once (w, failed_pass) f l = ground arith

kept_count :
    (c : Encounter) (w : Leadership)
    → (timed c.in_time (sweep_pass c w)).0.failed_passes ≡ w.failed_passes
unfolding timed sweep_pass acquire release
kept_count c w = ground arith

-- A sweeper leads through fewer than three failed passes in a row, less those that it counted already.
pub sweep_operations-clings :
    (cs : List Encounter) (w : Leadership)
    → w.failed_passes < max_leader_sweep_failures
    → clings cs w ≡ true
    → length cs + w.failed_passes < max_leader_sweep_failures
unfolding clings sweep_operations
sweep_operations-clings [] w b e = omega arith
sweep_operations-clings (c ∷ cs) w b e =
    let r = timed c.in_time (sweep_pass c w) in
    let k = clings_once r (ground arith) (ground arith) in
    ground (arith, k.0, k.1, kept_count c w, sweep_operations-clings cs (count_pass r) k.1)
