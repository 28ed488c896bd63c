-- ===== src/Job/Backoff.antt =====
-- Retry delays, `JobRetryBackoff` of ironqueue/src/job.rs.
use native.Mathlib.Nat.{pow-suc}
use native.Mathlib.Decide.{dec_le}
use ironqueue.Common.{
  ℕ, zero, suc, ◌-◌, ◌*◌, ◌^◌, ◌≤◌, min, ◌≡◌, Bool, Option, none, some, arith, ltb, ◌==◌,
  if◌then◌else◌,
}
use ironqueue.Job.Duration.{max_duration, from_millis}

pub data JobRetryBackoff : Type 0 where
  flat : JobRetryBackoff
  exponential : Option ℕ → JobRetryBackoff

-- `Duration::MAX` in nanoseconds.
abbrev longest : ℕ
longest = 18446744073709551615999999999

-- The loop of `exponential_delay_bound`, by the rounds left.
pub grow : ℕ → ℕ → ℕ
grow zero delay = delay
grow (suc rounds) delay =
    let next = min (min (delay * 2) longest) max_duration in
    let rest = grow rounds next in if next == max_duration then next else rest

abbrev pub capped_by : Option ℕ → ℕ → ℕ
capped_by none delay = delay
capped_by (some cap) delay = min delay cap

pub exponential_delay_bound : ℕ → ℕ → Option ℕ → ℕ
unfolding grow
exponential_delay_bound retry_delay attempts cap =
    min (capped_by cap (grow (min (attempts - 1) 63) (min retry_delay max_duration))) max_duration

-- `jitter` is `mul_f64` by the random factor drawn for this call.
next_delay : (ℕ → ℕ) → JobRetryBackoff → ℕ → ℕ → ℕ
unfolding exponential_delay_bound
next_delay jitter flat retry_delay attempts = min retry_delay max_duration
next_delay jitter (exponential cap) retry_delay attempts =
    jitter (exponential_delay_bound retry_delay attempts cap)

unfoldable pub retry_delay_for : (ℕ → ℕ) → ℕ → JobRetryBackoff → ℕ → ℕ
unfolding next_delay
retry_delay_for jitter retry_delay_ms backoff attempts =
    next_delay jitter backoff (from_millis retry_delay_ms) attempts

unfoldable pub has_attempts_remaining : ℕ → ℕ → Bool
has_attempts_remaining attempts max_attempts = ltb attempts max_attempts

one-le-pow : (n : ℕ) → 1 ≤ 2 ^ n
one-le-pow zero = omega arith
one-le-pow (suc n) = omega (arith, pow-suc 2 n, one-le-pow n)

pow-double : (d n : ℕ) → d * 2 ^ suc n ≡ d * 2 * 2 ^ n
pow-double d n = grind (arith, pow-suc 2 n)

le-mul_pow : (d n : ℕ) → d ≤ d * 2 ^ n
le-mul_pow d n = grind (arith, one-le-pow n)

grow_closed : (n d : ℕ) → d ≤ max_duration → grow n d ≡ min (d * 2 ^ n) max_duration
unfolding grow
grow_closed zero d h = omega arith
grow_closed (suc n) d h =
    ground (arith, grow_closed n (d * 2), pow-double d n, le-mul_pow (d * 2) n)

pow_mono : (m n : ℕ) → m ≤ n → 2 ^ m ≤ 2 ^ n
pow_mono m zero h = ground (arith, one-le-pow 0)
pow_mono m (suc n) h = elim (dec_le m n) [
  | yes p ↦ omega (arith, pow_mono m n p, pow-suc 2 n)
  | no p ↦ let e : m ≡ suc n = omega arith in rw e (omega arith)
]

pow-le-mul : (r k : ℕ) → 1 ≤ r → 2 ^ k ≤ r * 2 ^ k
pow-le-mul r k h = grind arith

grow_all : (r k : ℕ) → grow (min k 63) (min r max_duration) ≡ min (r * 2 ^ k) max_duration
grow_all r k = elim (dec_le k 63) [
  | yes p ↦ ground (
    arith,
    grow_closed (min k 63) (min r max_duration),
    le-mul_pow r k,
    le-mul_pow max_duration k,
  )
  | no p ↦
      ground
        (arith, grow_closed 63 (min r max_duration), pow_mono 63 k, pow-le-mul r k, le-mul_pow r k)
]

-- The delay before the nth attempt is the base delay doubled n - 1 times, held to the cap and to
-- the longest supported duration; neither the limit of 63 doublings nor the early break shows.
pub exponential_delay_bound_closed :
    (retry_delay attempts : ℕ) (cap : Option ℕ)
    → exponential_delay_bound retry_delay attempts cap
      ≡ capped_by cap (min (retry_delay * 2 ^ (attempts - 1)) max_duration)
unfolding exponential_delay_bound
exponential_delay_bound_closed r a cap = rw (grow_all r (a - 1)) (absorb cap (r * 2 ^ (a - 1)))
  where
    absorb :
        (c : Option ℕ) (x : ℕ)
        → min (capped_by c (min x max_duration)) max_duration ≡ capped_by c (min x max_duration)
    absorb none x = omega arith
    absorb (some c) x = omega arith

-- A retry never waits longer than the job's bound: not past the longest supported duration, and,
-- where a cap is set, not past the cap. `jitter` scales a duration by a factor of at most one.
pub retry_delay_for_bounds :
    (jitter : ℕ → ℕ) (retry_delay_ms cap attempts : ℕ)
    → ((d : ℕ) → jitter d ≤ d)
    → (retry_delay_for jitter retry_delay_ms flat attempts ≤ max_duration)
      × (retry_delay_for jitter retry_delay_ms (exponential (some cap)) attempts ≤ cap)
      × (retry_delay_for jitter retry_delay_ms (exponential none) attempts ≤ max_duration)
unfolding retry_delay_for
retry_delay_for_bounds jitter ms cap a h = (
  omega arith,
  omega (arith, h (exponential_delay_bound (from_millis ms) a (some cap))),
  omega (arith, h (exponential_delay_bound (from_millis ms) a none)),
)
