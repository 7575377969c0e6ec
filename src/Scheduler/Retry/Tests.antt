-- ===== src/Scheduler/Retry/Tests.antt =====
-- The theorems on delays at a concrete policy.
use comfy_ui_ng.Prelude.{◌≤◌, ◌≡◌, refl, Bool, true, false, ok, arith}
use comfy_ui_ng.Scheduler.Retry.{RetryPolicy, check_policy, should_retry, delay_for_retry}
use comfy_ui_ng.Scheduler.Retry.Delay.{delay_for_retry_lem}

abbrev policy : RetryPolicy Bool
policy = record { max_attempts = 3; base_delay = 2; max_delay = 60; is_retryable = λ e. e }

policy_valid : check_policy policy ≡ ok policy
unfolding check_policy
policy_valid = refl

third : delay_for_retry policy 3 ≡ ok 8
unfolding delay_for_retry
third = refl

tenth : delay_for_retry policy 10 ≡ ok 60
unfolding delay_for_retry
tenth = refl

last_attempt : should_retry policy 2 true ≡ false
unfolding should_retry
last_attempt = refl

delay_for_retry_lem_example : (2 ≤ 8) × (8 ≤ 60) × (60 ≤ 60)
delay_for_retry_lem_example =
    delay_for_retry_lem policy policy_valid 3 10 8 60 (omega arith) third tenth
