-- ===== src/Scheduler/Loop/Submit.antt =====
-- scheduler/scheduler.py: `submit` and the manual `retry`.
use comfy_ui_ng.Prelude.{ℕ, Option, none, some, Result, ok, err, Text}
use comfy_ui_ng.Json.{Value, null}
use comfy_ui_ng.Jobs.Record.{JobStatus, failed, JobError, JobSubmission}
use comfy_ui_ng.Jobs.Repository.{Repository, create, get, retry}
use comfy_ui_ng.Scheduler.Queues.{QueueName}
use comfy_ui_ng.Scheduler.Loop.{Services, Job, job_fault, job_created, job_queued}
use comfy_ui_ng.Scheduler.Loop.Monad.{
  M, ◌>>=◌, ◌>>◌, return, publish_event, set_wake, queue_of, queue_item, enqueue_item, ensure_room,
}

module _ {S : Services} where
  abbrev pub replied : Repository S.broker.Estimate × Result JobError (Job S) → M S (Job S)
  replied (repo, err e) s = (record s { repository = repo }, err (job_fault e))
  replied (repo, ok r) s = (record s { repository = repo }, ok r)

  unfoldable pub create_job : JobSubmission S.broker.Estimate → (now : ℕ) → M S (Job S)
  create_job submission now s = replied (create s.repository submission now) s

  unfoldable pub retry_job :
      Text → (now : ℕ) → (expected : JobStatus) → (error : Value) → M S (Job S)
  retry_job job_id now expected error s = replied (retry s.repository job_id now expected error) s

  -- The new item in its queue, the event, and the loop is woken.
  unfoldable pub enqueue_record : Job S → QueueName → M S (Unit {0})
  enqueue_record r queue = do item ← queue_item r queue; enqueue_item item

  unfoldable pub submit : JobSubmission S.broker.Estimate → (now : ℕ) → M S (Job S)
  submit submission now = do
    queue ← queue_of submission.queue
    ensure_room queue
    r ← create_job submission now
    enqueue_record r queue
    publish_event r.job_id job_created
    publish_event r.job_id job_queued
    set_wake
    return r

  -- Both retries end so: the record back in its queue, the event, and the loop is woken.
  unfoldable pub requeue : Text → Job S → M S (Unit {0})
  requeue job_id r = do
    queue ← queue_of r.queue
    enqueue_record r queue
    publish_event job_id job_queued
    set_wake

  unfoldable pub ensure_room_for : Option (Job S) → M S (Unit {0})
  ensure_room_for none = return tt
  ensure_room_for (some r) = do queue ← queue_of r.queue; ensure_room queue

  -- `retry`
  unfoldable pub retry_manually : Text → (now : ℕ) → M S (Job S)
  retry_manually job_id now s =
      ((ensure_room_for (get s.repository job_id))
          >> (retry_job job_id now failed null >>= λ r. requeue job_id r >> return r))
        s
