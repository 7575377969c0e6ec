-- ===== src/Jobs/Record.antt =====
-- core/jobs.py: JobStatus, JobSubmission, JobRecord and their `__post_init__`.
use comfy_ui_ng.Prelude.{
  ℕ, ◌+◌, ◌*◌, ◌≡◌, Bool, true, false, not, ◌&&◌, ◌||◌, List, [], ◌∷◌, Option, none, some, Result,
  ok, err, ◌>>=◌, ◌>>◌, raise_if, map_err, Text, text_beq, codes, length, any, ltb, leb, ◌==◌,
  is_some, bool_eq, if◌then◌else◌,
}
use comfy_ui_ng.Json.{
  Value, null, Step, JsonPath, key, JsonValueError, encodes, field_path, freeze, is_object,
}
use Prim.Native.String.{String}
pub mod Valid

pub data JobStatus : Type 0 where
  queued preparing running completed failed cancelled : JobStatus

-- `JobStatus.terminal`
abbrev pub terminal : JobStatus → Bool
terminal completed = true
terminal failed = true
terminal cancelled = true
terminal _ = false

-- `_TRANSITIONS`: `target in _TRANSITIONS[source]`
abbrev pub may_follow : JobStatus → JobStatus → Bool
may_follow queued preparing = true
may_follow queued failed = true
may_follow queued cancelled = true
may_follow preparing running = true
may_follow preparing failed = true
may_follow preparing cancelled = true
may_follow running completed = true
may_follow running failed = true
may_follow running cancelled = true
may_follow _ _ = false

-- `_STATUS_POSITION`
abbrev pub status_position : JobStatus → ℕ
status_position queued = 0
status_position preparing = 1
status_position running = 2
status_position _ = 3

abbrev pub status_beq : JobStatus → JobStatus → Bool
status_beq queued queued = true
status_beq preparing preparing = true
status_beq running running = true
status_beq completed completed = true
status_beq failed failed = true
status_beq cancelled cancelled = true
status_beq _ _ = false

-- The exceptions that core/jobs.py raises.
pub data JobError : Type 0 where
  value_error : String → JobError
  json_error : JsonValueError → JobError
  job_not_found duplicate_job key_error : Text → JobError
  invalid_transition : (source target : JobStatus) → (reason : String) → JobError
  transition_conflict : (job_id : Text) → (expected actual : JobStatus) → JobError

-- `str.isspace` on one code point.
is_space : ℕ → Bool
is_space c =
    leb 9 c && leb c 13
    || leb 28 c && leb c 32
    || c == 133
    || c == 160
    || c == 5760
    || leb 8192 c && leb c 8202
    || c == 8232
    || c == 8233
    || c == 8239
    || c == 8287
    || c == 12288

ends_in_space : Text → Bool
unfolding is_space
ends_in_space [] = false
ends_in_space (c ∷ []) = is_space c
ends_in_space (c ∷ d ∷ s) = ends_in_space (d ∷ s)

starts_with_space : Text → Bool
unfolding is_space
starts_with_space [] = false
starts_with_space (c ∷ s) = is_space c

-- `not value or value != value.strip()`
unfoldable pub is_untrimmed : Text → Bool
unfolding ends_in_space starts_with_space
is_untrimmed s = length s == 0 || starts_with_space s || ends_in_space s

-- `_identifier`
unfoldable pub identifier : Text → Result JobError (Unit {0})
unfolding is_untrimmed encodes
identifier s = do
  raise_if (is_untrimmed s || ltb 160 (length s))
      (value_error "must be a non-empty trimmed identifier")
  raise_if (not (encodes s)) (value_error "must contain valid Unicode")

unfoldable pub optional_identifier : Option Text → Result JobError (Unit {0})
unfolding identifier
optional_identifier none = ok tt
optional_identifier (some s) = identifier s

-- `_QUEUE_NAMES`
abbrev queue_names : List Text
queue_names =
    codes "interactive"
    ∷ codes "normal"
    ∷ codes "batch"
    ∷ codes "background"
    ∷ codes "download"
    ∷ codes "maintenance"
    ∷ []

is_below_one : Option ℕ → Bool
is_below_one none = false
is_below_one (some n) = n == 0

-- The guards that `JobSubmission.__post_init__` and `JobRecord.__post_init__` begin with.
unfoldable pub check_request :
    (job_id queue : Text) (user_priority : ℕ) (payload : Value) (max_attempts : ℕ)
    → (workflow_id : Option Text) (workflow_version_id : Option ℕ) → Result JobError (Unit {0})
unfolding identifier optional_identifier is_below_one is_object
check_request job_id queue user_priority payload max_attempts workflow_id workflow_version_id = do
  identifier job_id
  raise_if (not (any (text_beq queue) queue_names)) (value_error "unknown scheduler queue")
  raise_if (ltb 100 user_priority)
      (value_error "user_priority must be an integer between 0 and 100")
  raise_if (ltb max_attempts 1) (value_error "max_attempts must be a positive integer")
  raise_if (not (bool_eq (is_some workflow_id) (is_some workflow_version_id)))
      (value_error "workflow_id and workflow_version_id must be specified together")
  optional_identifier workflow_id
  raise_if (is_below_one workflow_version_id)
      (value_error "workflow_version_id must be a positive integer or None")
  raise_if (not (is_object payload)) (value_error "payload must be a JSON object")

-- `freeze_json_value(value, path="$.name")`
unfoldable pub freeze_at : String → Value → Result JobError Value
freeze_at name v = map_err json_error (freeze (field_path name) v)

-- `value is None`: JSON's null is Python's None.
abbrev pub is_null : Value → Bool
is_null null = true
is_null _ = false

-- `freeze_json_value(result)` of a result that is not None.
unfoldable pub freeze_result : Value → Result JobError Value
unfolding freeze_at
freeze_result v = if is_null v then ok v else freeze_at "result" v

-- `frozen = freeze_json_value(error); if not isinstance(frozen, FrozenDict): raise`
unfoldable pub freeze_error : Value → Result JobError Value
unfolding freeze_at is_object
freeze_error v = if is_null v then ok v else (do
  w ← freeze_at "error" v
  raise_if (not (is_object w)) (value_error "error must be a JSON object")
  ok w)

is_waiting : JobStatus → Bool
is_waiting queued = true
is_waiting preparing = true
is_waiting _ = false

pub record JobSubmission (Estimate : Type 0) : Type 0 where
  pub job_id : Text
  pub queue : Text
  pub user_priority : ℕ
  pub payload : Value
  pub max_attempts : ℕ
  pub workflow_id : Option Text
  pub workflow_version_id : Option ℕ
  pub cache_key : Option Text
  pub resource_estimate : Option Estimate
  pub warm_model_bonus : ℕ
  pub cache_reuse_bonus : ℕ
  pub memory_pressure_penalty : ℕ
  pub estimated_duration_penalty : ℕ

pub record JobRecord (Estimate : Type 0) : Type 0 where
  pub job_id : Text
  pub queue : Text
  pub user_priority : ℕ
  pub payload : Value
  pub max_attempts : ℕ
  pub workflow_id : Option Text
  pub workflow_version_id : Option ℕ
  pub cache_key : Option Text
  pub resource_estimate : Option Estimate
  pub warm_model_bonus : ℕ
  pub cache_reuse_bonus : ℕ
  pub memory_pressure_penalty : ℕ
  pub estimated_duration_penalty : ℕ
  pub status : JobStatus
  pub attempt : ℕ
  pub revision : ℕ
  pub created_at : ℕ
  pub queued_at : ℕ
  pub updated_at : ℕ
  pub started_at : Option ℕ
  pub finished_at : Option ℕ
  pub result : Value
  pub error : Value

module _ {Estimate : Type 0} where
  -- `JobSubmission.__post_init__`: the submission with its payload frozen.
  unfoldable pub check_submission :
      JobSubmission Estimate → Result JobError (JobSubmission Estimate)
  check_submission s = do
    check_request s.job_id s.queue s.user_priority s.payload s.max_attempts s.workflow_id
        s.workflow_version_id
    payload ← freeze_at "payload" s.payload
    optional_identifier s.cache_key
    ok (record s { payload = payload })

  -- `started_at is not None and not created_at <= started_at <= updated_at`
  started_outside : JobRecord Estimate → Option ℕ → Bool
  started_outside r none = false
  started_outside r (some t) = not (leb r.created_at t && leb t r.updated_at)

  -- `finished_at is not None and finished_at != updated_at`
  finished_early : JobRecord Estimate → Option ℕ → Bool
  finished_early r none = false
  finished_early r (some t) = not (t == r.updated_at)

  -- The guards on the life cycle in `JobRecord.__post_init__`.
  unfoldable pub check_lifecycle : JobRecord Estimate → Result JobError (Unit {0})
  unfolding started_outside finished_early is_waiting
  check_lifecycle r = do
    raise_if (leb r.max_attempts r.attempt) (value_error "attempt must be lower than max_attempts")
    raise_if (not (leb r.created_at r.queued_at && leb r.queued_at r.updated_at))
        (value_error "job timestamps must be monotonic")
    raise_if (started_outside r r.started_at)
        (value_error "started_at must fall within the job lifetime")
    raise_if (finished_early r r.finished_at)
        (value_error "finished_at must equal updated_at for terminal revisions")
    raise_if (status_beq r.status running && not (is_some r.started_at))
        (value_error "running jobs require started_at")
    raise_if (is_waiting r.status && is_some r.started_at)
        (value_error "queued/preparing jobs cannot have started_at")
    raise_if (not (bool_eq (terminal r.status) (is_some r.finished_at)))
        (value_error "finished_at presence must match terminal status")
    raise_if (not (status_beq r.status completed) && not (is_null r.result))
        (value_error "only completed jobs may carry a result")

  -- `JobRecord.__post_init__`: the record with its JSON values frozen.
  unfoldable pub check_record : JobRecord Estimate → Result JobError (JobRecord Estimate)
  check_record r = do
    check_request r.job_id r.queue r.user_priority r.payload r.max_attempts r.workflow_id
        r.workflow_version_id
    optional_identifier r.cache_key
    check_lifecycle r
    payload ← freeze_at "payload" r.payload
    result ← freeze_result r.result
    error ← freeze_error r.error
    ok (record r { payload = payload; result = result; error = error })

  -- `monotonic_position`
  abbrev pub monotonic_position : JobRecord Estimate → ℕ
  monotonic_position r = r.attempt * 4 + status_position r.status

  -- The record that `JobRecord.from_submission` builds.
  abbrev pub first_revision : JobSubmission Estimate → ℕ → JobRecord Estimate
  first_revision s now = record {
    job_id = s.job_id;
    queue = s.queue;
    user_priority = s.user_priority;
    payload = s.payload;
    max_attempts = s.max_attempts;
    workflow_id = s.workflow_id;
    workflow_version_id = s.workflow_version_id;
    cache_key = s.cache_key;
    resource_estimate = s.resource_estimate;
    warm_model_bonus = s.warm_model_bonus;
    cache_reuse_bonus = s.cache_reuse_bonus;
    memory_pressure_penalty = s.memory_pressure_penalty;
    estimated_duration_penalty = s.estimated_duration_penalty;
    status = queued;
    attempt = 0;
    revision = 0;
    created_at = now;
    queued_at = now;
    updated_at = now;
    started_at = none;
    finished_at = none;
    result = null;
    error = null;
  }

  -- `JobRecord.from_submission`
  unfoldable pub from_submission : JobSubmission Estimate → ℕ → Result JobError (JobRecord Estimate)
  from_submission s now = check_record (first_revision s now)
