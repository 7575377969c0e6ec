-- ===== src/Jobs/Lifecycle.antt =====
-- core/jobs.py: `_transition_record` and `_retry_record`.
use comfy_ui_ng.Prelude.{
  ℕ, ◌+◌, Bool, true, false, not, ◌&&◌, ◌||◌, Option, none, some, Result, ok, err, ◌>>=◌, ◌>>◌,
  raise_if, ltb, leb, if◌then◌else◌,
}
use comfy_ui_ng.Json.{Value, null}
use comfy_ui_ng.Jobs.Record.{
  JobStatus, queued, preparing, running, completed, failed, cancelled, terminal, may_follow,
  status_beq, JobError, value_error, invalid_transition, transition_conflict, JobRecord, is_null,
  check_record,
}
pub mod Transition
pub mod Retry

-- `expected not in {FAILED, PREPARING, RUNNING}` negated
abbrev pub retryable : JobStatus → Bool
retryable failed = true
retryable preparing = true
retryable running = true
retryable _ = false

module _ {Estimate : Type 0} where
  -- `replace(current, status=target, …)` before the record's own guards run.
  abbrev pub moved : JobRecord Estimate → JobStatus → ℕ → Value → Value → JobRecord Estimate
  moved current target now result error = record current {
    status = target;
    revision = current.revision + 1;
    updated_at = now;
    started_at = if status_beq target running then some now else current.started_at;
    finished_at = if terminal target then some now else none;
    result = result;
    error = error;
  }

  -- The guards of `_transition_record`.
  unfoldable pub check_transition :
      JobRecord Estimate
      → (expected target : JobStatus) → ℕ
      → (result error : Value) → Result JobError (Unit {0})
  check_transition current expected target now result error = do
    raise_if (not (status_beq current.status expected))
        (transition_conflict current.job_id expected current.status)
    raise_if (not (may_follow current.status target)) (invalid_transition current.status target "")
    raise_if (ltb now current.updated_at) (value_error "transition time cannot move backwards")
    raise_if (not (is_null result) && not (status_beq target completed))
        (value_error "result is only valid for completed jobs")
    raise_if (not (is_null error) && not (status_beq target failed || status_beq target cancelled))
        (value_error "error is only valid for failed or cancelled jobs")

  -- `_transition_record`
  unfoldable pub transition_record :
      JobRecord Estimate
      → (expected target : JobStatus) → ℕ
      → (result error : Value) → Result JobError (JobRecord Estimate)
  transition_record current expected target now result error = do
    check_transition current expected target now result error
    check_record (moved current target now result error)

  abbrev pub requeued : JobRecord Estimate → ℕ → Value → JobRecord Estimate
  requeued current now error = record current {
    status = queued;
    attempt = current.attempt + 1;
    revision = current.revision + 1;
    queued_at = now;
    updated_at = now;
    started_at = none;
    finished_at = none;
    result = null;
    error = error;
  }

  -- The guards of `_retry_record`.
  unfoldable pub check_retry :
      JobRecord Estimate → (expected : JobStatus) → ℕ → Result JobError (Unit {0})
  check_retry current expected now = do
    raise_if (not (status_beq current.status expected))
        (transition_conflict current.job_id expected current.status)
    raise_if (not (retryable expected)) (invalid_transition expected queued "not retryable")
    raise_if (leb current.max_attempts (current.attempt + 1))
        (invalid_transition expected queued "retry budget exhausted")
    raise_if (ltb now current.updated_at) (value_error "retry time cannot move backwards")

  -- `_retry_record`
  unfoldable pub retry_record :
      JobRecord Estimate → (expected : JobStatus) → ℕ → Value → Result JobError (JobRecord Estimate)
  retry_record current expected now error = do
    check_retry current expected now
    check_record (requeued current now error)
