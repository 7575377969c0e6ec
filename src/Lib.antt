-- ===== src/Lib.antt =====
-- The job control plane of ComfyUI-NG, modelled from src/comfyng/.
--
-- A client submits a job to the Scheduler, scheduler/scheduler.py, which launches it as a task
-- once a slot is free and the broker admits it, and ends the task in a record; core/jobs.py keeps
-- its record and its history, scheduler/queues.py orders the waiting jobs by priority,
-- scheduler/retry.py spaces further attempts and scheduler/cancellation.py carries a cancellation
-- to the workers. core/json_values.py freezes the payloads, results and errors that the records
-- hold, and the values of the result cache, core/cache.py. resources/broker.py admits a job's
-- estimate against limits taken from the hardware inventory and tells resources/pressure.py what
-- is used; resources/threads.py shares the cores among the workers. graph/topology.py layers the
-- nodes of a graph, workers/protocol.py frames the messages between the runtime and its workers,
-- plugins/permissions.py guards what a plugin may touch, and events/ records what happens and
-- hands it to subscribers.
--
-- Prelude.antt and its children: lists over the native numbers, results of calls that may raise,
--   keys with a Boolean equality, texts as lists of code points, `dict` as an association list in the
--   order of insertion (Dict), `sorted` and `min` by a key (Sort), integers (Int).
-- Json.antt: core/json_values.py. `freeze` is `_freeze_json_value`, by recursion on the value.
-- Jobs/Record.antt: core/jobs.py, JobSubmission, JobRecord and their guards (`check_submission`,
--   `check_record` are the `__post_init__` methods).
-- Jobs/Lifecycle.antt: `_transition_record` and `_retry_record`.
-- Jobs/Repository.antt: InMemoryJobRepository; `step` and `run` make calls one after the other.
-- Scheduler/Priority.antt, Scheduler/Queues.antt: scheduler/priority.py and scheduler/queues.py.
-- Scheduler/Retry.antt: scheduler/retry.py.
-- Scheduler/Cancellation.antt: scheduler/cancellation.py; `run` interleaves the users of a token.
-- Scheduler/Loop.antt: scheduler/scheduler.py. What the Scheduler asks of the cache and the broker are
--   the records NodeResultCache and AdmissionBroker, which Loop/Instances.antt fills with Cache.antt and
--   Resources/Broker.antt as api/app.py does; the dispatcher is what ends a dispatch (`Dispatched`). A
--   method or a part of `_execute` between two awaits of the dispatcher or the sleeper is one step,
--   since no part of api/app.py suspends in between and an uncontended lock does not; the clock is read
--   once in a step. Loop/Monad.antt has the statements with state and exceptions, Loop/Submit.antt,
--   Loop/Launch.antt, Loop/Execute.antt and Loop/Control.antt the methods, and `turn` what happens in one
--   turn of the event loop. `launch_all` recurs on the number of queued items, which is enough since
--   each launch that goes on takes one. Published events are kept without their payloads.
--   Publishing them and printing the traceback of a failed dispatch are assumed to raise nothing.
-- Resources: resources/ (Threads.antt: threads.py; Pressure.antt: pressure.py; Budgets.antt:
--   budgets.py; Broker.antt: broker.py, admission and release of reservations).
-- Cache.antt: core/cache.py, InMemoryNodeResultCache; Cache/Steps.antt has `evict_until` and the calls.
--   The evictions recur on a number of rounds, the number of entries, which is enough since each
--   round removes one.
-- Events/Journal.antt: events/models.py and InMemoryEventJournal of events/journal.py. Events/Bus.antt:
--   events/bus.py; a subscription is known by its place in the order of `subscribe`.
-- Graph.antt, Graph/Topology.antt: Edge of graph/types.py, and graph/topology.py. UUIDs are numbers in
--   the order of their texts. `peel`, the `while ready` loop, recurs on a number of rounds, the number
--   of nodes, which is enough since each round but the last leaves a layer with a new node behind.
--   Graph/Topology/Critical.antt has the critical path; `follow` recurs on the length of the current
--   node less one, which goes down by one in each round of the `while` loop.
-- Workers/Protocol.antt: workers/protocol.py. msgspec is a parameter, `Codec`; what the frames rely on
--   is `IsFaithful`. Workers/Heartbeat.antt: workers/heartbeat.py.
-- Plugins/Permissions.antt: plugins/permissions.py. The file system is the arguments `resolve`
--   (`Path.resolve`) and `is_dir` (`Path.is_dir`).
-- The children of a module prove its properties, and those named Tests run it on small inputs.
--
-- Methods that hold a lock for their whole body are single steps on an explicit state, and return the
-- new state beside the result where an exception may leave the state changed. Times, delays and
-- scores are exact numbers of a fixed unit: float rounding, infinities and NaN are not modelled.
-- Arguments have the types that the source annotates, so `isinstance` guards do not appear, nor do
-- negative values of fields that the guards require to be non-negative.
-- Loops recur on a list or a dictionary, so no fuel is used except the rounds named above.
-- Not modelled: the SQL repositories and the sqlite journal, HTTP, the command line, processes,
-- sandboxes and the host's hardware, which are I/O; the graph compiler and validation,
-- storage, the supervisor, models, and the other modules of plugins/, which are other parts.
mod Prelude
pub mod Json
pub mod Jobs
pub mod Plugins
pub mod Workers
pub mod Events
pub mod Graph
pub mod Cache
pub mod Scheduler
pub mod Resources
