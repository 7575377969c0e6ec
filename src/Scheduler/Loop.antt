-- ===== src/Scheduler/Loop.antt =====
-- scheduler/scheduler.py: the state of the Scheduler and what it asks of its parts. The repository, the
-- queues and the tokens are those of the other modules. Repository, journal, cache and broker of
-- api/app.py do not suspend, so that all that a task does between two awaits of the dispatcher or the
-- sleeper is one step; the readings of the clock in a step are one number.
use comfy_ui_ng.Prelude.{
  ℕ, ◌≡◌, Bool, true, false, List, [], ◌∷◌, ◌++◌, Option, none, some, Result, ok, err, ◌>>=◌,
  map_err, ◌==◌, Text, codes, if◌then◌else◌,
}
use comfy_ui_ng.Prelude.Dict.{Dict}
use comfy_ui_ng.Json.{
  Value, string, sequence, list, object, mapping, Items, nil, item, Fields, end, field, key,
  JsonValueError, freeze,
}
use comfy_ui_ng.Jobs.Record.{JobStatus, JobError, JobRecord}
use comfy_ui_ng.Jobs.Repository.{Repository}
use comfy_ui_ng.Scheduler.Queues.{SchedulerQueues, QueueError}
use comfy_ui_ng.Scheduler.Cancellation.{Token, TokenError}
use comfy_ui_ng.Scheduler.Retry.{RetryPolicy}
pub mod Monad
pub mod Submit
pub mod Launch
pub mod Execute
pub mod Control
pub mod Invariant
pub mod Moves
pub mod Places
pub mod Held
pub mod Finish
pub mod Queueing
pub mod Tasks
pub mod Parts
pub mod Sleep
pub mod Requests
pub mod Cancelling
pub mod Launches
pub mod NextLaunch
pub mod Sound
pub mod Rounds
pub mod RoundEnds
pub mod Cancelled
pub mod Guarantees
mod Tests
pub mod Instances

pub record DispatchResult : Type 0 where
  pub value : Value
  pub cacheable : Bool
  pub size_bytes : ℕ
  pub ttl_seconds : Option ℕ

is_zero_ttl : Option ℕ → Bool
is_zero_ttl none = false
is_zero_ttl (some n) = n == 0

-- `DispatchResult.__post_init__`: the guards, and the result with its value frozen.
pub data ResultError : Type 0 where
  bad_ttl : ResultError
  bad_value : JsonValueError → ResultError

pub check_result : DispatchResult → Result ResultError DispatchResult
unfolding is_zero_ttl
check_result r =
    if is_zero_ttl r.ttl_seconds
    then err bad_ttl
    else (map_err bad_value (freeze (key (codes "value") ∷ []) r.value) >>= λ v.
        ok (record r { value = v }))

-- `NodeResultCache`, as far as the scheduler calls it. What `get` finds is the value of the entry.
pub record NodeResultCache : Type 1 where
  pub State : Type 0
  pub CacheError : Type 0
  pub get : State → Text → (now : ℕ) → State × Result CacheError (Option Value)
  pub put :
      State
      → Text
      → Value
      → (size_bytes : ℕ) → (ttl_seconds : Option ℕ) → (now : ℕ)
      → State × Result CacheError (Unit {0})

-- What `admit` answers; `violations` are texts.
pub data Decision (Reservation : Type 0) : Type 0 where
  admitted : Option Reservation → Decision Reservation
  deferred rejected : (violations : List Text) → Decision Reservation

-- The reservation of a decision, if it gives one.
abbrev pub given_by : {E R : Type 0} → Result E (Decision R) → List R
given_by (ok (admitted (some r))) = r ∷ []
given_by _ = []

-- `AdmissionBroker` and the reservations that it owns. `Given b rs` says that `rs` are the reservations
-- that were given out and not released, in order. `generated` is the UUID of the call.
pub record AdmissionBroker : Type 1 where
  pub Estimate : Type 0
  pub BrokerError : Type 0
  pub State : Type 0
  pub Reservation : Type 0
  pub admit : State → Estimate → (generated : ℕ) → State × Result BrokerError (Decision Reservation)
  pub release : State → Reservation → State
  pub Given : State → List Reservation → Type 0
  pub admit-Given :
      (b : State) (e : Estimate) (generated : ℕ) (rs : List Reservation)
      → Given b rs
      → Given (admit b e generated).0 (rs ++ given_by (admit b e generated).1)
  pub release-Given :
      (b : State) (r : Reservation) (before after : List Reservation)
      → Given b (before ++ r ∷ after)
      → Given (release b r) (before ++ after)

-- What is raised: by the scheduler's own parts, by the dispatcher, by the broker. `interrupted` is a
-- CancellationRequested or CancelledError out of the dispatcher, with its message.
pub data Fault (DispatchError BrokerError : Type 0) : Type 0 where
  job_fault : JobError → Fault DispatchError BrokerError
  token_fault : TokenError → Fault DispatchError BrokerError
  queue_fault : QueueError → Fault DispatchError BrokerError
  backpressure : QueueError → Fault DispatchError BrokerError
  admission_failure : (violations : List Text) → Fault DispatchError BrokerError
  dispatch_fault : DispatchError → Fault DispatchError BrokerError
  broker_fault : BrokerError → Fault DispatchError BrokerError
  interrupted : (message : Text) → Fault DispatchError BrokerError
  unknown_queue no_reservation not_dispatch_result bad_factors bad_delay bad_reason
        bad_concurrency :
      Fault DispatchError BrokerError

-- What `_error_payload` reads of an exception: the name of its type, its message and its violations.
pub record Description : Type 0 where
  pub type_name : Text
  pub message : Text
  pub violations : Option (List Text)

strings : List Text → Items
strings [] = nil
strings (s ∷ ss) = item (string s) (strings ss)

violations_field : Option (List Text) → Fields
unfolding strings
violations_field none = end
violations_field (some vs) = field (some (codes "violations")) (sequence list (strings vs)) end

-- `_error_payload`
pub error_payload : Description → Value
unfolding violations_field
error_payload d = object mapping (
    field (some (codes "type")) (string d.type_name)
      (field (some (codes "message")) (string d.message) (violations_field d.violations)))

-- `{"reason": reason}`
pub reason_payload : Text → Value
reason_payload reason = object mapping (field (some (codes "reason")) (string reason) end)

-- What the scheduler is built of. `describe` says how an exception prints.
pub record Services : Type 1 where
  pub DispatchError : Type 0
  pub cache : NodeResultCache
  pub broker : AdmissionBroker
  pub retry_policy : RetryPolicy (Fault DispatchError broker.BrokerError)
  pub max_concurrency : ℕ
  pub describe : Fault DispatchError broker.BrokerError → Description

abbrev pub Exception : Services → Type 0
Exception S = Fault S.DispatchError S.broker.BrokerError

abbrev pub Job : Services → Type 0
Job S = JobRecord S.broker.Estimate

-- Where the task of a job stands: before its first step, at the dispatcher, or at the sleeper before
-- another try, with the record and the exception that it keeps.
pub data Phase (S : Services) : Type 0 where
  starting : Phase S
  dispatching : Job S → Phase S
  sleeping : Job S → Exception S → Phase S

-- The name of an event, without its payload.
pub data Event : Type 0 where
  job_queued job_deferred job_retrying cache_read_failed cache_write_failed job_created : Event
  job_moved : JobStatus → Event

pub record Scheduler (S : Services) : Type 0 where
  pub repository : Repository S.broker.Estimate
  pub cache : S.cache.State
  pub broker : S.broker.State
  pub queues : SchedulerQueues
  pub active : Dict Text (Phase S)
  pub tokens : Dict Text Token
  pub reservations : Dict Text S.broker.Reservation
  pub published : List (Text × Event)
  pub wake : Bool
