-- ===== src/Jobs/Lifecycle/Retry.antt =====
-- What `_retry_record` accepts, and which statuses a job leaves.
use comfy_ui_ng.Prelude.{ℕ, ◌+◌, ◌≤◌, ◌<◌, ◌≡◌, true, false, ◌↔◌, none, ok, arith, is_ok, ok_value}
use comfy_ui_ng.Json.{Value}
use comfy_ui_ng.Jobs.Record.{
  JobStatus, queued, failed, terminal, JobRecord, check_record, check_lifecycle, freeze_error,
  monotonic_position,
}
use comfy_ui_ng.Jobs.Record.Valid.{
  IsValid, check_record→Parts, check_record-same, check_record-IsValid, freeze_result-null,
}
use comfy_ui_ng.Jobs.Lifecycle.{
  check_transition, transition_record, check_retry, requeued, retryable, retry_record,
}

-- What a caller of `retry` has to bring about.
pub record MayRetry {Estimate : Type 0} (r : JobRecord Estimate) (expected : JobStatus) (now : ℕ)
    (error : Value) : Type 0 where
  pub found : r.status ≡ expected
  pub open_status : retryable expected ≡ true
  pub budget : r.attempt + 1 < r.max_attempts
  pub forward : r.updated_at ≤ now
  pub error_stable : is_ok (freeze_error error) ≡ true

module _ {Estimate : Type 0} where
  requeued_lifecycle :
      (r : JobRecord Estimate) (expected : JobStatus) (now : ℕ) (error : Value)
      → check_lifecycle r ≡ ok tt
      → check_retry r expected now ≡ ok tt
      → check_lifecycle (requeued r now error) ≡ ok tt
  unfolding check_lifecycle check_retry
  requeued_lifecycle r expected now error h g = ground arith

  retry_guards_pass :
      (r : JobRecord Estimate) (expected : JobStatus) (now : ℕ) (error : Value)
      → MayRetry r expected now error
      → check_retry r expected now ≡ ok tt
  unfolding check_retry
  retry_guards_pass r expected now error m = ground arith

  requeued_ok :
      (r : JobRecord Estimate) (expected : JobStatus) (now : ℕ) (error x : Value)
      → IsValid r
      → check_retry r expected now ≡ ok tt
      → freeze_error error ≡ ok x
      → retry_record r expected now error ≡ ok (requeued r now x)
  unfolding retry_record check_record
  requeued_ok r expected now error x v g hx =
      let p = check_record→Parts r r v in
      rw (
        g,
        p.request,
        p.cache_key,
        requeued_lifecycle r expected now error p.lifecycle g,
        p.payload,
        freeze_result-null,
        hx,
      )

  requeued_only :
      (r : JobRecord Estimate) (expected : JobStatus) (now : ℕ) (error : Value)
      → is_ok (retry_record r expected now error) ≡ true
      → MayRetry r expected now error
  unfolding retry_record check_retry check_record
  requeued_only r expected now error h = ground arith

  -- On a valid record `_retry_record` succeeds exactly when the caller expects the record's status,
  -- which is failed, preparing or running, an attempt is left, time does not run backwards and the
  -- error freezes.
  pub retry_record_iff :
      (r : JobRecord Estimate) (expected : JobStatus) (now : ℕ) (error : Value)
      → IsValid r
      → (is_ok (retry_record r expected now error) ≡ true) ↔ MayRetry r expected now error
  retry_record_iff r expected now error v = (
    requeued_only r expected now error,
    λ m.
        let (x, hx) = ok_value (freeze_error error) m.error_stable in
        rw (requeued_ok r expected now error x v (retry_guards_pass r expected now error m) hx),
  )

  -- A successful retry gives a valid queued record with one more attempt, still below the limit,
  -- the next revision, no result, no start and no end, and a higher lifecycle position.
  pub retry_record-advances :
      (r r' : JobRecord Estimate) (expected : JobStatus) (now : ℕ) (error : Value)
      → retry_record r expected now error ≡ ok r'
      → IsValid r'
        × (r'.status ≡ queued)
        × (r'.attempt ≡ r.attempt + 1)
        × (r'.attempt < r'.max_attempts)
        × (r'.revision ≡ r.revision + 1)
        × (r.updated_at ≤ now)
        × (r'.updated_at ≡ now)
        × (r'.queued_at ≡ now)
        × (r'.started_at ≡ none)
        × (r'.finished_at ≡ none)
        × (monotonic_position r < monotonic_position r')
        × (r'.job_id ≡ r.job_id)
        × (r'.max_attempts ≡ r.max_attempts)
        × (r'.created_at ≡ r.created_at)
  unfolding retry_record check_retry
  retry_record-advances r r' expected now error h =
      let next = requeued r now error in
      ground (arith, check_record-IsValid next r', check_record-same next r')

  -- A finished job never moves: a transition out of a terminal status is refused whatever the
  -- caller asks for, and a retry is refused too unless the job failed.
  pub terminal_refuses :
      (r : JobRecord Estimate) (expected target : JobStatus) (now : ℕ) (result error : Value)
      → terminal r.status ≡ true
      → (is_ok (transition_record r expected target now result error) ≡ false)
        × (is_ok (retry_record r expected now error) ≡ true → r.status ≡ failed)
  unfolding transition_record check_transition retry_record check_retry
  terminal_refuses r expected target now result error t = ground arith
