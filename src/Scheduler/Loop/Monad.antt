-- ===== src/Scheduler/Loop/Monad.antt =====
-- scheduler/scheduler.py: the statements that the Scheduler's methods share. A statement takes the
-- state and gives the new one beside its value or the exception.
use comfy_ui_ng.Prelude.{
  ℕ, true, [], ◌∷◌, ◌++◌, Option, none, some, Result, ok, err, Text, text_eq, text_beq, codes,
  if◌then◌else◌,
}
use comfy_ui_ng.Prelude.Dict.{lookup, insert, delete}
use comfy_ui_ng.Json.{Value}
use comfy_ui_ng.Jobs.Record.{JobStatus, JobError, JobRecord}
use comfy_ui_ng.Jobs.Repository.{Repository, transition}
use comfy_ui_ng.Scheduler.Priority.{PriorityFactors, check_factors}
use comfy_ui_ng.Scheduler.Queues.{
  QueueName, interactive, normal, batch, background, download, maintenance, QueueItem, QueueError,
  SchedulerQueues, enqueue, ensure_capacity,
}
use comfy_ui_ng.Scheduler.Cancellation.{Token, checkpoint, TokenError}
use comfy_ui_ng.Scheduler.Loop.{
  Services, Scheduler, Exception, Job, Event, job_moved, job_fault, token_fault, queue_fault,
  backpressure, unknown_queue, bad_factors,
}
use Prim.Native.String.{String}

abbrev pub Outcome : Services → Type 0 → Type 0
Outcome S A = Scheduler S × Result (Exception S) A

abbrev pub M : Services → Type 0 → Type 0
M S A = Scheduler S → Outcome S A

-- A job record's queue is a text; `none` is the ValueError of `_queue`.
unfoldable pub queue_named : Text → Option QueueName
queue_named s =
    if text_beq s (codes "interactive")
    then some interactive
    else (if text_beq s (codes "normal")
        then some normal
        else (if text_beq s (codes "batch")
            then some batch
            else (if text_beq s (codes "background")
                then some background
                else (if text_beq s (codes "download")
                    then some download
                    else (if text_beq s (codes "maintenance") then some maintenance else none)))))

-- `_factors`. The age bonus is the default of `PriorityFactors`.
factors : {Estimate : Type 0} → JobRecord Estimate → PriorityFactors
factors r = record {
  user_priority = r.user_priority;
  queue_age_bonus = 0;
  warm_model_bonus = r.warm_model_bonus;
  cache_reuse_bonus = r.cache_reuse_bonus;
  memory_pressure_penalty = r.memory_pressure_penalty;
  estimated_duration_penalty = r.estimated_duration_penalty;
}

module _ {S : Services} where
  abbrev pub continue : {A B : Type 0} → Outcome S A → (A → M S B) → Outcome S B
  continue (s, ok a) k = k a s
  continue (s, err e) k = (s, err e)

  infixl 5 ◌>>=◌ ◌>>◌
  abbrev pub ◌>>=◌ : {A B : Type 0} → M S A → (A → M S B) → M S B
  (m >>= k) s = continue (m s) k

  abbrev pub ◌>>◌ : {B : Type 0} → M S (Unit {0}) → M S B → M S B
  m >> k = m >>= λ _. k

  abbrev pub return : {A : Type 0} → A → M S A
  return a s = (s, ok a)

  abbrev pub fail : {A : Type 0} → Exception S → M S A
  fail e s = (s, err e)

  -- `await self.events.publish(type, …, job_id=job_id)`
  abbrev pub publish_event : Text → Event → M S (Unit {0})
  publish_event job_id event s =
      (record s { published = s.published ++ (job_id, event) ∷ [] }, ok tt)

  -- `self._wake.set()`
  abbrev pub set_wake : M S (Unit {0})
  set_wake s = (record s { wake = true }, ok tt)

  abbrev pub known_queue : Option QueueName → M S QueueName
  known_queue none s = (s, err unknown_queue)
  known_queue (some q) s = (s, ok q)

  -- `_queue`
  unfoldable pub queue_of : Text → M S QueueName
  queue_of name = known_queue (queue_named name)

  abbrev pub item_with : Job S → QueueName → Result String PriorityFactors → M S QueueItem
  item_with r queue (err e) s = (s, err bad_factors)
  item_with r queue (ok f) s =
      (s, ok (record { job_id = r.job_id; queue = queue; enqueued_at = r.queued_at; factors = f }))

  -- `QueueItem(job_id=…, queue=…, enqueued_at=record.queued_at, factors=self._factors(record))`
  unfoldable pub queue_item : Job S → QueueName → M S QueueItem
  unfolding factors
  queue_item r queue = item_with r queue (check_factors (factors r))

  abbrev pub queued_as : Result QueueError SchedulerQueues → M S (Unit {0})
  queued_as (err e) s = (s, err (queue_fault e))
  queued_as (ok q) s = (record s { queues = q }, ok tt)

  -- `self.queues.enqueue(item)`
  unfoldable pub enqueue_item : QueueItem → M S (Unit {0})
  enqueue_item item s = queued_as (enqueue s.queues item) s

  abbrev pub room_as : Result QueueError (Unit {0}) → M S (Unit {0})
  room_as (err e) s = (s, err (backpressure e))
  room_as (ok u) s = (s, ok tt)

  -- `self.queues.ensure_capacity(queue)`, a QueueFullError raised as SchedulerBackpressure.
  unfoldable pub ensure_room : QueueName → M S (Unit {0})
  ensure_room queue s = room_as (ensure_capacity s.queues queue) s

  -- What `_transition` does with the repository's reply.
  abbrev pub transitioned :
      Text → JobStatus → Repository S.broker.Estimate × Result JobError (Job S) → M S (Job S)
  transitioned job_id target (repo, err e) s = (record s { repository = repo }, err (job_fault e))
  transitioned job_id target (repo, ok r) s = (
    record s { repository = repo; published = s.published ++ (job_id, job_moved target) ∷ [] },
    ok r,
  )

  -- `_transition`
  unfoldable pub transition_job :
      Text → (expected target : JobStatus) → (now : ℕ) → (result error : Value) → M S (Job S)
  transition_job job_id expected target now result error s =
      transitioned job_id target (transition s.repository job_id expected target now result error) s

  -- `reservation.release()` of what was popped.
  abbrev pub after_release : Text → Option S.broker.Reservation → Scheduler S → Scheduler S
  after_release job_id none s = s
  after_release job_id (some r) s = record s {
    broker = S.broker.release s.broker r;
    reservations = delete job_id s.reservations;
  }

  -- `_release_reservation`
  unfoldable pub release_reservation : Text → Scheduler S → Scheduler S
  release_reservation job_id s = after_release job_id (lookup job_id s.reservations) s

  -- The `finally` of `_execute`.
  unfoldable pub finish : Text → Scheduler S → Scheduler S
  unfolding release_reservation
  finish job_id s =
      let s' = release_reservation job_id s in
      record s' { tokens = delete job_id s'.tokens; active = delete job_id s'.active; wake = true }

  abbrev pub checked_as : Text → Token × Result TokenError (Unit {0}) → M S (Unit {0})
  checked_as job_id (t, err e) s =
      (record s { tokens = insert job_id t s.tokens }, err (token_fault e))
  checked_as job_id (t, ok u) s = (record s { tokens = insert job_id t s.tokens }, ok tt)

  abbrev pub checkpoint_found : Text → Text → Option Token → M S (Unit {0})
  checkpoint_found job_id name none s = (s, ok tt)
  checkpoint_found job_id name (some t) s = checked_as job_id (checkpoint t name none) s

  -- `token.checkpoint(name)` of the job's token, which is in `_tokens` as long as its task runs.
  unfoldable pub checkpoint_job : Text → Text → M S (Unit {0})
  checkpoint_job job_id name s = checkpoint_found job_id name (lookup job_id s.tokens) s
