-- ===== src/Locker/Retries.antt =====
-- `Obtain` of locker.go: the retries fit the time that the caller waits.
use beeorm.Prelude.{ℕ, ◌+◌, ◌-◌, ◌*◌, ◌/◌, ◌≤◌, ◌<◌, ◌≡◌, some, Bool-cases, inl, inr, ltb, arith}
use beeorm.Locker.{retry_plan, min_delay}

-- For a positive waiting time there are 1 to 10 tries, at least 50 ms apart; the delays between the
-- tries fit the waiting time, and one delay more would reach it, up to 9 ns of rounding.
pub retry_plan_bounds :
    (wait : ℕ)
    → 0 < wait
    → (delay : ℕ) × ((retry_plan wait).delay ≡ some delay)
      × (1 ≤ (retry_plan wait).tries)
      × ((retry_plan wait).tries ≤ 10)
      × (min_delay ≤ delay)
      × (((retry_plan wait).tries - 1) * delay ≤ wait)
      × (wait ≤ (retry_plan wait).tries * delay + 9)
unfolding retry_plan
retry_plan_bounds wait h = elim (Bool-cases (ltb (wait / 10) min_delay)) [
  | inl short ↦ (
    min_delay,
    ground arith,
    ground arith,
    ground arith,
    ground arith,
    ground arith,
    ground arith,
  )
  | inr long ↦ (
    wait / 10,
    ground arith,
    ground arith,
    ground arith,
    ground arith,
    ground arith,
    ground arith,
  )
]
