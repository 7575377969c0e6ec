-- ===== src/Scheduler/Loop/Invariant.antt =====
-- What holds of a scheduler between two turns of the event loop, and while it works on one job.
use comfy_ui_ng.Prelude.{
  ℕ, ◌≤◌, ◌≡◌, ◌≢◌, ◌⊎◌, Bool, true, false, Option, none, some, Text, text_eq, is_some, length,
}
use comfy_ui_ng.Prelude.Dict.{Dict, lookup, values, UniqueKeys}
use comfy_ui_ng.Jobs.Record.{JobStatus, queued, preparing, running, JobRecord}
use comfy_ui_ng.Jobs.Repository.{Repository}
use comfy_ui_ng.Jobs.Repository.History.{IsLinked}
use comfy_ui_ng.Scheduler.Queues.{SchedulerQueues}
use comfy_ui_ng.Scheduler.Queues.Invariant.{IsConsistent}
use comfy_ui_ng.Scheduler.Cancellation.{Token}
use comfy_ui_ng.Scheduler.Loop.{Services, Scheduler, Phase, starting, dispatching, sleeping}

-- The status of a job.
abbrev pub status? : {Estimate : Type 0} → Option (JobRecord Estimate) → Option JobStatus
status? none = none
status? (some r) = some r.status

-- No record was written after `now`.
abbrev pub IsTimed : {Estimate : Type 0} → (now : ℕ) → Repository Estimate → Type 0
IsTimed now repo =
    (j : Text) (r : JobRecord _) → lookup j repo.records ≡ some r → r.updated_at ≤ now

-- A job that a task works on.
abbrev pub IsBusy : Option JobStatus → Type 0
IsBusy status = (status ≡ some preparing) ⊎ (status ≡ some running)

-- A job with an item in a queue is queued and has no task; a job with a task is preparing or running, as
-- the task's place says.
abbrev pub Placed : {S : Services} → Option JobStatus → (queued? : Bool) → Option (Phase S) → Type 0
Placed status true none = status ≡ some queued
Placed status true (some phase) = ⊥
Placed status false none = Unit
Placed status false (some starting) = status ≡ some preparing
Placed status false (some (dispatching r)) = status ≡ some running
Placed status false (some (sleeping r e)) = IsBusy status

-- The place of one job.
abbrev pub PlacedAt :
    {S : Services}
    → Repository S.broker.Estimate
    → SchedulerQueues
    → Dict Text (Phase S)
    → Text
    → Type 0
PlacedAt repo q active j =
    Placed (status? (lookup j repo.records)) (is_some (lookup j q.items)) (lookup j active)

-- Tasks, tokens and reservations go together: each task has its token and no other token is kept, a
-- reservation belongs to a task, and the broker has given out these reservations and no other.
pub record IsHeld {S : Services} (b : S.broker.State) (active : Dict Text (Phase S))
    (tokens : Dict Text Token) (reservations : Dict Text S.broker.Reservation) : Type 0 where
  pub unique_active : UniqueKeys active
  pub unique_tokens : UniqueKeys tokens
  pub unique_reservations : UniqueKeys reservations
  pub reserved :
      (j : Text) → is_some (lookup j reservations) ≡ true → is_some (lookup j active) ≡ true
  pub tokened : (j : Text) → is_some (lookup j tokens) ≡ is_some (lookup j active)
  pub given : S.broker.Given b (values reservations)
  pub capped : length active ≤ S.max_concurrency

pub record IsSound {S : Services} (now : ℕ) (s : Scheduler S) : Type 0 where
  pub linked : IsLinked s.repository
  pub timed : IsTimed now s.repository
  pub consistent : IsConsistent s.queues
  pub places : (j : Text) → PlacedAt s.repository s.queues s.active j
  pub held : IsHeld s.broker s.active s.tokens s.reservations

-- While the scheduler works on a job: the others are in their places, and the job is in no queue.
pub record IsFree {S : Services} (now : ℕ) (id : Text) (repo : Repository S.broker.Estimate)
    (q : SchedulerQueues) (active : Dict Text (Phase S)) : Type 0 where
  pub linked : IsLinked repo
  pub timed : IsTimed now repo
  pub consistent : IsConsistent q
  pub others : (j : Text) → j ≢ id → PlacedAt repo q active j
  pub absent : lookup id q.items ≡ none

-- The job is back in a queue.
pub record IsQueued {S : Services} (now : ℕ) (id : Text) (repo : Repository S.broker.Estimate)
    (q : SchedulerQueues) (active : Dict Text (Phase S)) : Type 0 where
  pub linked : IsLinked repo
  pub timed : IsTimed now repo
  pub consistent : IsConsistent q
  pub others : (j : Text) → j ≢ id → PlacedAt repo q active j
  pub status : status? (lookup id repo.records) ≡ some queued
