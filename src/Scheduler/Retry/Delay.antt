-- ===== src/Scheduler/Retry/Delay.antt =====
-- The delays of a valid policy.
use comfy_ui_ng.Prelude.{ℕ, ◌-◌, ◌*◌, ◌^◌, ◌≤◌, ◌≡◌, ok, arith}
use native.Mathlib.Nat.{one-le-pow, pow-le-pow_right}
use comfy_ui_ng.Scheduler.Retry.{RetryPolicy, check_policy, delay_for_retry}

-- The delay that doubles, before the cap.
doubled_bounds : (base n : ℕ) → base ≤ base * 2 ^ n
doubled_bounds base n = let pos = one-le-pow n 2 (omega arith) in grind arith

doubled_mono : (base n m : ℕ) → n ≤ m → base * 2 ^ n ≤ base * 2 ^ m
doubled_mono base n m h = let le = pow-le-pow_right {n = 2} (omega arith) h in grind arith

module _ {Error : Type 0} (p : RetryPolicy Error) (valid : check_policy p ≡ ok p) where
  base_le : p.base_delay ≤ p.max_delay
  unfolding check_policy
  base_le = ground arith

  -- Under a valid policy a later retry never waits a shorter time, and both delays lie between the base
  -- delay and the maximum.
  pub delay_for_retry_lem :
      (n m d e : ℕ)
      → n ≤ m
      → delay_for_retry p n ≡ ok d
      → delay_for_retry p m ≡ ok e
      → (p.base_delay ≤ d) × (d ≤ e) × (e ≤ p.max_delay)
  unfolding delay_for_retry
  delay_for_retry_lem n m d e le h k = ground (
    arith,
    base_le,
    doubled_bounds p.base_delay (n - 1),
    doubled_mono p.base_delay (n - 1) (m - 1),
  )
