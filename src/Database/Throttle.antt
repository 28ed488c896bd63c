-- ===== src/Database/Throttle.antt =====
-- The wakeup throttle over a sequence of due enqueues.
use ironqueue.Common.{
  ℕ, ◌+◌, ◌-◌, ◌≤◌, inl, inr, Option, none, some, List, [], ◌∷◌, arith, ltb, if◌then◌else◌,
  Bool-cases,
}
use ironqueue.Database.Enqueue.{take_throttle_slot}

-- The times among these at which `take_throttle_slot` lets a wakeup out, from the last one it let out.
unfoldable pub granted : ℕ → List ℕ → Option ℕ → List ℕ
unfolding take_throttle_slot
granted window_ms [] last = []
granted window_ms (now_ms ∷ times) last =
    let (kept, sent) = take_throttle_slot window_ms now_ms last in
    let rest = granted window_ms times kept in if sent then now_ms ∷ rest else rest

-- Each time is at least a window after the one before it.
abbrev pub Spaced : ℕ → Option ℕ → List ℕ → Type 0
Spaced window_ms last [] = Unit
Spaced window_ms none (t ∷ ts) = Spaced window_ms (some t) ts
Spaced window_ms (some last) (t ∷ ts) = (last + window_ms ≤ t) × Spaced window_ms (some t) ts

-- With a window of at least one millisecond, the wakeups that the throttle lets out are a window apart,
-- whatever the clock reads between them.
pub granted-Spaced :
    (window_ms : ℕ) (times : List ℕ) (last : Option ℕ)
    → 1 ≤ window_ms
    → Spaced window_ms last (granted window_ms times last)
unfolding granted take_throttle_slot
granted-Spaced window_ms [] last w = tt
granted-Spaced window_ms (t ∷ ts) none w = granted-Spaced window_ms ts (some t) w
granted-Spaced window_ms (t ∷ ts) (some last) w = elim (Bool-cases (ltb (t - last) window_ms)) [
  | inl p ↦ rw p (granted-Spaced window_ms ts (some last) w)
  | inr p ↦ rw p (ground arith, granted-Spaced window_ms ts (some t) w)
]
