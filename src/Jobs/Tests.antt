-- ===== src/Jobs/Tests.antt =====
-- Runs of the job repository, and each theorem at a concrete input.
use comfy_ui_ng.Prelude.{
  ℕ, ◌+◌, ◌≤◌, ◌<◌, ◌≡◌, ◌↔◌, refl, true, false, List, [], ◌∷◌, none, some, ok, arith, codes, is_ok,
}
use comfy_ui_ng.Prelude.Dict.{lookup, insert}
use comfy_ui_ng.Json.{null, object, frozen_dict, mapping, end, freeze, is_object}
use comfy_ui_ng.Jobs.Record.{
  queued, preparing, running, completed, failed, JobSubmission, JobRecord, first_revision,
  from_submission, check_record, check_request, check_lifecycle, optional_identifier, freeze_at,
  freeze_result, freeze_error, monotonic_position, check_submission,
}
use comfy_ui_ng.Jobs.Record.Valid.{IsValid, check_record-IsValid}
use comfy_ui_ng.Jobs.Lifecycle.{
  check_transition, transition_record, check_retry, retry_record, moved,
}
use comfy_ui_ng.Jobs.Lifecycle.Transition.{MayMove, transition_record_iff}
use comfy_ui_ng.Jobs.Lifecycle.Retry.{
  MayRetry, retry_record_iff, retry_record-advances, terminal_refuses,
}
use comfy_ui_ng.Jobs.Repository.{
  empty, Call, creation, transfer, another_try, step, run, get, create, transition, retry, history,
}
use comfy_ui_ng.Jobs.Repository.History.{IsLinked, run-Linked, IsRecorded, run-get-IsRecorded}
use comfy_ui_ng.Jobs.Repository.Isolation.{Keeps, step-Keeps}

program : Unit {0}
unfolding check_record check_request check_lifecycle optional_identifier freeze_at freeze_result
    freeze_error freeze is_object from_submission check_transition transition_record check_retry
    retry_record lookup insert create transition retry step run get history check_submission
program = tt

abbrev request : JobSubmission ℕ
request = record {
  job_id = codes "job-1";
  queue = codes "normal";
  user_priority = 50;
  payload = object mapping end;
  max_attempts = 2;
  workflow_id = none;
  workflow_version_id = none;
  cache_key = some (codes "k");
  resource_estimate = some 4;
  warm_model_bonus = 0;
  cache_reuse_bonus = 0;
  memory_pressure_penalty = 0;
  estimated_duration_penalty = 0;
}

abbrev first : JobRecord ℕ
first = record (first_revision request 10) { payload = object frozen_dict end }

first-IsValid : IsValid first
unfolding program
first-IsValid = refl

from_submission-first : from_submission request 10 ≡ ok first
unfolding program
from_submission-first = refl

abbrev started : JobRecord ℕ
started = moved (moved first preparing 11 null null) running 12 null null

started-IsValid : IsValid started
unfolding program
started-IsValid = refl

abbrev finished : JobRecord ℕ
finished = moved started completed 15 (object frozen_dict end) null

too_early : is_ok (transition_record started running completed 11 null null) ≡ false
unfolding program
too_early = refl

skips : is_ok (transition_record first queued running 20 null null) ≡ false
unfolding program
skips = refl

blank_id : is_ok (check_submission (record request { job_id = codes " job" })) ≡ false
unfolding program
blank_id = refl

check_record-IsValid_example : IsValid first
unfolding program
check_record-IsValid_example = check_record-IsValid (first_revision request 10) first refl

transition_record_iff_example :
    (is_ok (transition_record started running completed 15 (object mapping end) null) ≡ true)
    ↔ MayMove started running completed 15 (object mapping end) null
transition_record_iff_example =
    transition_record_iff started running completed 15 (object mapping end) null started-IsValid

retry_record_iff_example :
    (is_ok (retry_record started running 20 null) ≡ true) ↔ MayRetry started running 20 null
retry_record_iff_example = retry_record_iff started running 20 null started-IsValid

abbrev again : JobRecord ℕ
again = record started {
  status = queued;
  attempt = 1;
  revision = 3;
  queued_at = 20;
  updated_at = 20;
  started_at = none;
}

again_lem : retry_record started running 20 null ≡ ok again
unfolding program
again_lem = refl

retry_record-advances_example :
    IsValid again
    × (again.status ≡ queued)
    × (again.attempt ≡ started.attempt + 1)
    × (again.attempt < again.max_attempts)
    × (again.revision ≡ started.revision + 1)
    × (started.updated_at ≤ 20)
    × (again.updated_at ≡ 20)
    × (again.queued_at ≡ 20)
    × (again.started_at ≡ none)
    × (again.finished_at ≡ none)
    × (monotonic_position started < monotonic_position again)
    × (again.job_id ≡ started.job_id)
    × (again.max_attempts ≡ started.max_attempts)
    × (again.created_at ≡ started.created_at)
retry_record-advances_example = retry_record-advances started again running 20 null again_lem

terminal_refuses_example :
    (is_ok (transition_record finished completed queued 30 null null) ≡ false)
    × (is_ok (retry_record finished completed 30 null) ≡ true → finished.status ≡ failed)
terminal_refuses_example = terminal_refuses finished completed queued 30 null null refl

abbrev calls : List (Call ℕ)
calls =
    creation request 10
    ∷ transfer (codes "job-1") queued preparing 11 null null
    ∷ creation request 12
    ∷ transfer (codes "job-1") preparing running 12 null null
    ∷ another_try (codes "job-1") 20 running null
    ∷ []

get_after : get (run (empty ℕ) calls) (codes "job-1") ≡ some again
unfolding program
get_after = refl

run-Linked_example : IsLinked (run (empty ℕ) calls)
run-Linked_example = run-Linked ℕ calls

run-get-IsRecorded_example :
    (past : List (JobRecord ℕ)) × (history (run (empty ℕ) calls) (codes "job-1") ≡ ok past)
    × IsRecorded (codes "job-1") again past
run-get-IsRecorded_example = run-get-IsRecorded ℕ calls (codes "job-1") again get_after

abbrev other : JobSubmission ℕ
other = record request { job_id = codes "job-2" }

-- The call writes a record.
step-other : is_ok (step (run (empty ℕ) calls) (creation other 20)).1 ≡ true
unfolding program
step-other = refl

step-Keeps_example :
    Keeps (codes "job-1") (run (empty ℕ) calls) (step (run (empty ℕ) calls) (creation other 20)).0
step-Keeps_example =
    step-Keeps (run (empty ℕ) calls) (creation other 20) (codes "job-1") (λ e. ground arith)
