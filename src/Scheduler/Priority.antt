-- ===== src/Scheduler/Priority.antt =====
-- scheduler/priority.py. The finite floats are natural numbers of some fixed unit, and the score, a
-- sum that may be negative, is an integer of that unit: float rounding is not modelled.
use comfy_ui_ng.Prelude.{ℕ, ◌+◌, ◌-◌, ◌*◌, Result, ok, ◌>>◌, raise_if, ltb}
use comfy_ui_ng.Prelude.Int.{ℤ, sub_ℕ}
use Prim.Native.String.{String}

pub record PriorityFactors : Type 0 where
  pub user_priority : ℕ
  pub queue_age_bonus : ℕ
  pub warm_model_bonus : ℕ
  pub cache_reuse_bonus : ℕ
  pub memory_pressure_penalty : ℕ
  pub estimated_duration_penalty : ℕ

-- `PriorityFactors.__post_init__`
unfoldable pub check_factors : PriorityFactors → Result String PriorityFactors
check_factors f = do
  raise_if (ltb 100 f.user_priority) "user_priority must be an integer between 0 and 100"
  ok f

unfoldable pub priority_score : PriorityFactors → ℤ
priority_score f =
    sub_ℕ (f.user_priority + f.queue_age_bonus + f.warm_model_bonus + f.cache_reuse_bonus)
      (f.memory_pressure_penalty + f.estimated_duration_penalty)

-- `max(0.0, current - enqueued) * rate`
unfoldable pub queue_age_bonus : (enqueued_at now points_per_second : ℕ) → ℕ
queue_age_bonus enqueued_at now rate = (now - enqueued_at) * rate
