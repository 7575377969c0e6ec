-- ===== src/Scheduler/Loop/Tests.antt =====
-- The scheduler of api/app.py on a few calls.
use comfy_ui_ng.Prelude.{
  some, sym, ◌∙◌, ℕ, ◌+◌, ◌≡◌, refl, true, List, [], ◌∷◌, none, ok, Text, text_eq, codes, arith,
  map, length, ◌<◌,
}
use comfy_ui_ng.Prelude.Dict.{lookup, insert, delete, values}
use comfy_ui_ng.Prelude.Sort.{minimum}
use comfy_ui_ng.Json.{boolean, object, mapping, end, freeze, is_object}
use comfy_ui_ng.Jobs.Record.{
  running, is_untrimmed, JobSubmission, from_submission, check_record, check_request,
  check_lifecycle, optional_identifier, freeze_at, freeze_result, freeze_error, completed,
}
use comfy_ui_ng.Jobs.Lifecycle.{check_transition, transition_record}
use comfy_ui_ng.Jobs.Repository.{create, transition, get}
use comfy_ui_ng.Scheduler.Priority.{check_factors, priority_score, queue_age_bonus}
use comfy_ui_ng.Scheduler.Queues.{
  SchedulerQueues, init, ensure_capacity, enqueue, score, pops_before, pop_next, size,
}
use comfy_ui_ng.Scheduler.Cancellation.{cancel, Token, between_blocks, checkpoint, resolve}
use comfy_ui_ng.Resources.Budgets.{ResourceEstimate}
use comfy_ui_ng.Resources.Broker.{ResourceBroker}
use comfy_ui_ng.Resources.Broker.Given.{IsGiven}
use comfy_ui_ng.Cache.{Cache}
use comfy_ui_ng.Scheduler.Loop.{Services, Scheduler}
use comfy_ui_ng.Scheduler.Loop.Instances.{in_memory_cache, resource_broker}
use comfy_ui_ng.Scheduler.Loop.Monad.{
  queue_named, queue_of, queue_item, enqueue_item, ensure_room, transition_job, release_reservation,
  finish, checkpoint_job,
}
use comfy_ui_ng.Scheduler.Loop.Submit.{create_job, enqueue_record, submit}
use comfy_ui_ng.Scheduler.Loop.Launch.{
  read_cache, create_task, start_task, ask_broker, after_cache, launch_record, may_launch,
  launch_next, launch_all, new_token,
}
use comfy_ui_ng.Scheduler.Loop.Execute.{
  begin_body, begin, returned, put_value, save, dispatched_body, dispatched,
}
use comfy_ui_ng.Scheduler.Loop.Control.{
  Verdict, idle_round, Call, submitting, cancelling, cancel_job, cancel_record, cancel_token,
  launching, beginning, ending_dispatch, init_scheduler, new_scheduler, turn, turns,
}
use comfy_ui_ng.Scheduler.Loop.Invariant.{status?, IsSound}
use comfy_ui_ng.Scheduler.Loop.Sound.{later-Sound}
use comfy_ui_ng.Scheduler.Loop.RoundEnds.{idle_round-Ends}
use comfy_ui_ng.Scheduler.Loop.Cancelled.{IsOpen, dispatched-IsOpen}
use comfy_ui_ng.Scheduler.Loop.Cancelling.{AsTold, cancel_job-AsTold}
use comfy_ui_ng.Scheduler.Loop.Guarantees.{turns-from_init-Sound, turns-from_init-releases}

-- `str` of an integer below 10.
abbrev digit : ℕ → Text
digit n = (48 + n) ∷ []

program : Unit {0}
unfolding cancel_job cancel_record cancel_token cancel is_untrimmed check_record check_request
    check_lifecycle optional_identifier freeze_at freeze_result freeze_error freeze is_object
    from_submission check_transition transition_record lookup insert delete minimum create
    transition get check_factors priority_score queue_age_bonus init ensure_capacity enqueue score
    pops_before pop_next size checkpoint resolve queue_named queue_of queue_item enqueue_item
    ensure_room transition_job release_reservation finish checkpoint_job create_job enqueue_record
    submit read_cache create_task start_task ask_broker after_cache launch_record may_launch
    launch_next launch_all idle_round new_token begin_body begin put_value save dispatched_body
    dispatched init_scheduler turn turns
program = tt

abbrev app : Services
app = record {
  DispatchError = Text;
  cache = in_memory_cache;
  broker = resource_broker digit;
  retry_policy = record {
    max_attempts = 3;
    base_delay = 1;
    max_delay = 30;
    is_retryable = λ e. true;
  };
  max_concurrency = 4;
  describe = λ e. record { type_name = codes "Error"; message = []; violations = none };
}

abbrev broker : ResourceBroker
broker = record {
  limits = record {
    cpu_cores = 4;
    ram_bytes = 100;
    vram_mb_by_gpu = [];
    pinned_ram_bytes = 10;
    concurrent_reads = 2;
    concurrent_writes = 2;
    heavy_jobs_by_gpu = [];
  };
  reservations = [];
  monitor = record {
    thresholds = record { scale = 100; elevated_ratio = 80; critical_ratio = 95 };
    levels = [];
  };
  pressure_events = [];
  released = [];
  next_object = 0;
}

broker-IsGiven : IsGiven broker []
broker-IsGiven = record { unique = tt; keyed = tt; listed = refl }

abbrev cache : Cache
cache = record { max_entries = 2; max_bytes = 10; entries = []; bytes = 0; order = 0 }

abbrev queues : SchedulerQueues
queues = record {
  max_queued = 100;
  per_queue_limits = [];
  age_points_per_second = 1;
  items = [];
  by_queue = λ n. 0;
  next_sequence = 1;
}

abbrev new : Scheduler app
new = new_scheduler app cache broker queues

init_scheduler-new : init_scheduler app cache broker 100 [] 1 ≡ ok new
unfolding init_scheduler init
init_scheduler-new = refl

abbrev request : JobSubmission ResourceEstimate
request = record {
  job_id = codes "j";
  queue = codes "normal";
  user_priority = 50;
  payload = object mapping end;
  max_attempts = 2;
  workflow_id = none;
  workflow_version_id = none;
  cache_key = none;
  resource_estimate = none;
  warm_model_bonus = 0;
  cache_reuse_bonus = 0;
  memory_pressure_penalty = 0;
  estimated_duration_penalty = 0;
}

abbrev calls : List (Call app)
calls =
    submitting request 1
    ∷ launching (record { now = 2; cache_now = 2; generated = 0 })
    ∷ beginning (codes "j") 3
    ∷ ending_dispatch (codes "j")
        (returned
          (record { value = boolean true; cacheable = true; size_bytes = 1; ttl_seconds = none }))
        5 5
    ∷ []

-- The job ran to its end.
turns-calls : map (λ r. r.status) (values (turns new calls).repository.records) ≡ completed ∷ []
unfolding program
turns-calls = refl

turns-idle : (turns new calls).active ≡ []
unfolding program
turns-idle = refl

turns-from_init-Sound_example : IsSound 5 (turns new calls)
turns-from_init-Sound_example =
    turns-from_init-Sound app cache broker 100 1 [] new calls broker-IsGiven init_scheduler-new
      (omega arith, (omega arith, (omega arith, (omega arith, tt))))

turns-from_init-releases_example : IsGiven (turns new calls).broker []
turns-from_init-releases_example =
    turns-from_init-releases app cache broker 100 1 [] new calls broker-IsGiven init_scheduler-new
      (omega arith, (omega arith, (omega arith, (omega arith, tt)))) turns-idle

abbrev submitted : List (Call app)
submitted = submitting request 1 ∷ []

submitted-IsSound : IsSound 1 (turns new submitted)
submitted-IsSound =
    turns-from_init-Sound app cache broker 100 1 [] new submitted broker-IsGiven init_scheduler-new
      (omega arith, tt)

later-IsSound : IsSound 2 (turns new submitted)
later-IsSound = later-Sound 1 2 (turns new submitted) (omega arith) submitted-IsSound

abbrev launched : Scheduler app
launched = (idle_round 2 2 (λ n. n) (turns new submitted)).0

idle_round-launched : idle_round 2 2 (λ n. n) (turns new submitted) ≡ (launched, ok Verdict.waits)
unfolding program
idle_round-launched = refl

idle_round-Ends_example : 0 < length launched.active
idle_round-Ends_example =
    idle_round-Ends 2 2 (λ n. n) (turns new submitted) launched Verdict.waits (omega arith)
      later-IsSound idle_round-launched

abbrev stopped_calls : List (Call app)
stopped_calls =
    submitting request 1
    ∷ launching (record { now = 2; cache_now = 2; generated = 0 })
    ∷ beginning (codes "j") 3
    ∷ cancelling (codes "j") (codes "user") 4
    ∷ []

abbrev stopped : Scheduler app
stopped = turns new stopped_calls

abbrev stopped_token : Token
stopped_token = record {
  is_set = true;
  reason = some (codes "user");
  history = (record { checkpoint = between_blocks; position = none }) ∷ [];
  history_limit = 128;
  waiters = [];
}

stopped-token : lookup (codes "j") stopped.tokens ≡ some stopped_token
unfolding program
stopped-token = refl

stopped-status : status? (lookup (codes "j") stopped.repository.records) ≡ some running
unfolding program
stopped-status = refl

stopped-IsOpen : IsOpen (codes "j") stopped
stopped-IsOpen e = let same = sym stopped-status ∙ e in absurd (ground arith)

stopped-IsSound : IsSound 5 stopped
stopped-IsSound = later-Sound 4 5 stopped (omega arith) (
    turns-from_init-Sound app cache broker 100 1 [] new stopped_calls broker-IsGiven
      init_scheduler-new (omega arith, (omega arith, (omega arith, (omega arith, tt)))))

dispatched-IsOpen_example : IsOpen (codes "j") (
    dispatched
      (codes "j")
      (returned
        (record { value = boolean true; cacheable = true; size_bytes = 1; ttl_seconds = none }))
      5
      5
      stopped)
dispatched-IsOpen_example =
    dispatched-IsOpen (codes "j")
      (returned
        (record { value = boolean true; cacheable = true; size_bytes = 1; ttl_seconds = none }))
      5 5 stopped stopped_token (codes "user") stopped-IsSound stopped-IsOpen stopped-token refl

abbrev begun : List (Call app)
begun =
    submitting request 1
    ∷ launching (record { now = 2; cache_now = 2; generated = 0 })
    ∷ beginning (codes "j") 3
    ∷ []

cancel_job-begun : (cancel_job (codes "j") (codes "user") 3 (turns new begun)).1 ≡ ok true
unfolding program
cancel_job-begun = refl

cancel_job-AsTold_example :
    AsTold (codes "j") (codes "user") (cancel_job (codes "j") (codes "user") 3 (turns new begun))
cancel_job-AsTold_example = cancel_job-AsTold (codes "j") (codes "user") 3 (turns new begun) (
    turns-from_init-Sound app cache broker 100 1 [] new begun broker-IsGiven init_scheduler-new
      (omega arith, (omega arith, (omega arith, tt))))
