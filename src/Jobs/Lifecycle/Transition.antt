-- ===== src/Jobs/Lifecycle/Transition.antt =====
-- What `_transition_record` accepts, and what it makes of a record.
use comfy_ui_ng.Prelude.{ℕ, ◌+◌, ◌≤◌, ◌<◌, ◌≡◌, true, false, ◌↔◌, ◌⊎◌, ok, arith, is_ok, ok_value}
use comfy_ui_ng.Json.{Value}
use comfy_ui_ng.Jobs.Record.{
  JobStatus, completed, failed, cancelled, may_follow, JobRecord, is_null, check_record,
  check_lifecycle, freeze_result, freeze_error, monotonic_position,
}
use comfy_ui_ng.Jobs.Record.Valid.{
  IsValid, check_record→Parts, check_record-same, check_record-IsValid,
}
use comfy_ui_ng.Jobs.Lifecycle.{check_transition, moved, transition_record}

module _ {Estimate : Type 0} where
  moved_lifecycle :
      (r : JobRecord Estimate) (expected target : JobStatus) (now : ℕ) (result error : Value)
      → check_lifecycle r ≡ ok tt
      → check_transition r expected target now result error ≡ ok tt
      → check_lifecycle (moved r target now result error) ≡ ok tt
  unfolding check_lifecycle check_transition
  moved_lifecycle r expected target now result error h g = ground arith

-- What a caller of `transition` has to bring about.
pub record MayMove {Estimate : Type 0} (r : JobRecord Estimate) (expected target : JobStatus)
    (now : ℕ) (result error : Value) : Type 0 where
  pub found : r.status ≡ expected
  pub edge : may_follow expected target ≡ true
  pub forward : r.updated_at ≤ now
  pub result_completes : is_null result ≡ false → target ≡ completed
  pub error_ends : is_null error ≡ false → (target ≡ failed) ⊎ (target ≡ cancelled)
  pub result_stable : is_ok (freeze_result result) ≡ true
  pub error_stable : is_ok (freeze_error error) ≡ true

module _ {Estimate : Type 0} where
  guards_pass :
      (r : JobRecord Estimate) (expected target : JobStatus) (now : ℕ) (result error : Value)
      → MayMove r expected target now result error
      → check_transition r expected target now result error ≡ ok tt
  unfolding check_transition
  guards_pass r expected target now result error m = ground arith

  moved_ok :
      (r : JobRecord Estimate) (expected target : JobStatus) (now : ℕ) (result error w x : Value)
      → IsValid r
      → check_transition r expected target now result error ≡ ok tt
      → freeze_result result ≡ ok w
      → freeze_error error ≡ ok x
      → transition_record r expected target now result error ≡ ok (moved r target now w x)
  unfolding transition_record check_record
  moved_ok r expected target now result error w x v g hw hx =
      let p = check_record→Parts r r v in
      rw (
        g,
        p.request,
        p.cache_key,
        moved_lifecycle r expected target now result error p.lifecycle g,
        p.payload,
        hw,
        hx,
      )

  moved_only :
      (r : JobRecord Estimate) (expected target : JobStatus) (now : ℕ) (result error : Value)
      → is_ok (transition_record r expected target now result error) ≡ true
      → MayMove r expected target now result error
  unfolding transition_record check_transition check_record
  moved_only r expected target now result error h = ground arith

  -- On a valid record `_transition_record` succeeds exactly when the caller expects the record's
  -- status, the target may follow it, time does not run backwards, a result comes with completion
  -- only and an error with failure or cancellation only, and both freeze. So the guards of the new
  -- record never refuse what the guards of the transition let through.
  pub transition_record_iff :
      (r : JobRecord Estimate) (expected target : JobStatus) (now : ℕ) (result error : Value)
      → IsValid r
      → (is_ok (transition_record r expected target now result error) ≡ true)
        ↔ MayMove r expected target now result error
  transition_record_iff r expected target now result error v = (
    moved_only r expected target now result error,
    λ m.
        let (w, hw) = ok_value (freeze_result result) m.result_stable in
        let (x, hx) = ok_value (freeze_error error) m.error_stable in
        let g = guards_pass r expected target now result error m in
        rw (moved_ok r expected target now result error w x v g hw hx),
  )

  pub transition_record-advances :
      (r r' : JobRecord Estimate) (expected target : JobStatus) (now : ℕ) (result error : Value)
      → transition_record r expected target now result error ≡ ok r'
      → IsValid r'
        × (r'.status ≡ target)
        × (r'.revision ≡ r.revision + 1)
        × (r.updated_at ≤ now)
        × (r'.updated_at ≡ now)
        × (monotonic_position r < monotonic_position r')
        × (r'.job_id ≡ r.job_id)
        × (r'.attempt ≡ r.attempt)
        × (r'.max_attempts ≡ r.max_attempts)
        × (r'.created_at ≡ r.created_at)
        × (r'.queued_at ≡ r.queued_at)
  unfolding transition_record check_transition
  transition_record-advances r r' expected target now result error h =
      let next = moved r target now result error in
      ground (arith, check_record-IsValid next r', check_record-same next r')
