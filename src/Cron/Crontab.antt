-- ===== src/Cron/Crontab.antt =====
-- What the search relies on of the `cronexpr` crate, and the occurrences it looks for.
use ironqueue.Common.{ℕ, ◌+◌, ◌%◌, ◌≤◌, ◌<◌, ◌≡◌, Bool, true, false, none, some}
use ironqueue.Cron.Search.{Crontab}

-- `find_next` answers the first firing second after its argument, and fails only where none lies in
-- the four years after it; `matches` decides one second; a schedule fires at whole minutes.
pub record IsCrontab (cron : Crontab) (fires : ℕ → Bool) : Type 0 where
  pub next_fires : (t n : ℕ) → cron.find_next t ≡ some n → (t < n) × (fires n ≡ true)
  pub next_first : (t n m : ℕ) → cron.find_next t ≡ some n → t < m → m < n → fires m ≡ false
  pub next_window :
      (t m : ℕ) → cron.find_next t ≡ none → t < m → m ≤ t + 126144000 → fires m ≡ false
  pub matching : (t : ℕ) → cron.matches t ≡ some (fires t)
  pub minutely : (t : ℕ) → fires t ≡ true → t % 60 ≡ 0

-- The first firing second after `after`.
abbrev pub Next : (ℕ → Bool) → ℕ → ℕ → Type 0
Next fires after n =
    (after < n) × (fires n ≡ true) × ((m : ℕ) → after < m → m < n → fires m ≡ false)

-- The last firing second at or before `now`.
abbrev pub Previous : (ℕ → Bool) → ℕ → ℕ → Type 0
Previous fires now n = (n ≤ now) × (fires n ≡ true) × ((m : ℕ) → n < m → m ≤ now → fires m ≡ false)
