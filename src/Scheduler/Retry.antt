-- ===== src/Scheduler/Retry.antt =====
-- scheduler/retry.py. An error is the type of the exception, and `isinstance` against the tuple of
-- retryable types is a Boolean function of it. Delays are natural numbers of a fixed unit, and
-- products that overflow a float (`OverflowError`) do not occur.
use comfy_ui_ng.Prelude.{
  ℕ, ◌+◌, ◌-◌, ◌*◌, ◌^◌, min, Bool, true, false, ◌&&◌, Result, ok, err, ◌>>=◌, ◌>>◌, raise_if, ltb,
  ◌==◌, if◌then◌else◌,
}
use Prim.Native.String.{String}
pub mod Delay
mod Tests

pub record RetryPolicy (Error : Type 0) : Type 0 where
  pub max_attempts : ℕ
  pub base_delay : ℕ
  pub max_delay : ℕ
  pub is_retryable : Error → Bool

module _ {Error : Type 0} where
  -- `RetryPolicy.__post_init__`
  pub check_policy : RetryPolicy Error → Result String (RetryPolicy Error)
  check_policy p = do
    raise_if (ltb p.max_attempts 1) "max_attempts must be a positive integer"
    raise_if (ltb p.max_delay p.base_delay) "base_delay_seconds cannot exceed max_delay_seconds"
    ok p

  pub should_retry : RetryPolicy Error → ℕ → Error → Bool
  should_retry p attempt error = ltb (attempt + 1) p.max_attempts && p.is_retryable error

  pub delay_for_retry : RetryPolicy Error → ℕ → Result String ℕ
  delay_for_retry p next_attempt = do
    raise_if (ltb next_attempt 1) "next_attempt must be a positive integer"
    ok (
        if p.base_delay == 0
        then 0
        else (if ltb 1024 next_attempt
            then p.max_delay
            else min p.max_delay (p.base_delay * 2 ^ (next_attempt - 1))))
