-- ===== src/Scheduler/Loop/Queueing.antt =====
-- A job on its way into a queue, and at a checkpoint of its token, for any continuation.
use comfy_ui_ng.Prelude.{
  ℕ, ◌≡◌, refl, List, Option, none, some, Result, ok, err, Text, text_eq, String, true,
}
use comfy_ui_ng.Prelude.Dict.{Dict, lookup}
use comfy_ui_ng.Jobs.Record.{queued}
use comfy_ui_ng.Scheduler.Priority.{PriorityFactors, check_factors}
use comfy_ui_ng.Scheduler.Queues.{QueueName, QueueError, QueueItem, SchedulerQueues, enqueue}
use comfy_ui_ng.Scheduler.Cancellation.{Token, TokenError, checkpoint}
use comfy_ui_ng.Scheduler.Loop.{Services, Scheduler, Job}
use comfy_ui_ng.Scheduler.Loop.Monad.{
  M, Outcome, continue, queue_of, queue_named, known_queue, queue_item, item_with, enqueue_item,
  queued_as, checkpoint_job, checkpoint_found, checked_as,
}
use comfy_ui_ng.Scheduler.Loop.Submit.{enqueue_record, requeue}
use comfy_ui_ng.Scheduler.Loop.Invariant.{status?, IsHeld, IsFree, IsQueued}
use comfy_ui_ng.Scheduler.Loop.Moves.{Ensures}
use comfy_ui_ng.Scheduler.Loop.Places.{enqueue-IsQueued}
use comfy_ui_ng.Scheduler.Loop.Held.{token-IsHeld}

module _ {S : Services} {B : Type 0} (Q : B → Scheduler S → Type 0) (E : Scheduler S → Type 0) where
  -- Statements in a row, bracketed to the left.
  pub nested :
      {A C : Type 0} (o : Outcome S A) (f : A → M S C) (k : C → M S B)
      → Ensures Q E (continue o (λ a s. continue (f a s) k))
      → Ensures Q E (continue (continue o f) k)
  nested (s, ok a) f k h = h
  nested (s, err e) f k h = h

  pub queue_of-then :
      (k : QueueName → M S B) (name : Text) (s : Scheduler S)
      → ((queue : QueueName) → Ensures Q E (k queue s))
      → E s
      → Ensures Q E (continue (queue_of name s) k)
  unfolding queue_of
  queue_of-then k name s returns raises = go (queue_named name)
    where
      go : (queue? : Option QueueName) → Ensures Q E (continue (known_queue queue? s) k)
      go none = raises
      go (some queue) = returns queue

  pub enqueue_item-then :
      {now : ℕ} (k : Unit {0} → M S B) (id : Text) (item : QueueItem) (s : Scheduler S)
      → item.job_id ≡ id
      → IsFree now id s.repository s.queues s.active
      → status? (lookup id s.repository.records) ≡ some queued
      → ((q : SchedulerQueues)
          → IsQueued now id s.repository q s.active
          → Ensures Q E (k tt (record s { queues = q })))
      → E s
      → Ensures Q E (continue (enqueue_item item s) k)
  unfolding enqueue_item
  enqueue_item-then {now} k id item s named f status returns raises =
      go (enqueue s.queues item) refl
    where
      go :
          (q? : Result QueueError SchedulerQueues)
          → enqueue s.queues item ≡ q?
          → Ensures Q E (continue (queued_as q? s) k)
      go (err e) p = raises
      go (ok q) p =
          returns q (enqueue-IsQueued id s.repository s.queues q s.active item named f status p)

  pub enqueue_record-then :
      {now : ℕ} (k : Unit {0} → M S B) (id : Text) (r : Job S) (queue : QueueName) (s : Scheduler S)
      → r.job_id ≡ id
      → IsFree now id s.repository s.queues s.active
      → status? (lookup id s.repository.records) ≡ some queued
      → ((q : SchedulerQueues)
          → IsQueued now id s.repository q s.active
          → Ensures Q E (k tt (record s { queues = q })))
      → E s
      → Ensures Q E (continue (enqueue_record r queue s) k)
  unfolding enqueue_record queue_item
  enqueue_record-then {now} k id r queue s named f status returns raises = go (check_factors _)
    where
      go :
          (factors? : Result String PriorityFactors)
          → Ensures Q E (continue (continue (item_with r queue factors? s) enqueue_item) k)
      go (err e) = raises
      go (ok factors) = enqueue_item-then k id _ s named f status returns raises

  pub requeue-then :
      {now : ℕ} (k : Unit {0} → M S B) (id : Text) (r : Job S) (s : Scheduler S)
      → r.job_id ≡ id
      → IsFree now id s.repository s.queues s.active
      → status? (lookup id s.repository.records) ≡ some queued
      → ((q : SchedulerQueues) (log : List _)
          → IsQueued now id s.repository q s.active
          → Ensures Q E (k tt (record s { queues = q; published = log; wake = true })))
      → E s
      → Ensures Q E (continue (requeue id r s) k)
  unfolding requeue
  requeue-then {now} k id r s named f status returns raises = nested (queue_of r.queue s) _ k (
      queue_of-then _ r.queue s
        (λ queue.
          nested (enqueue_record r queue s) _ k
            (enqueue_record-then _ id r queue s named f status (λ q g. returns q _ g) raises))
        raises)

  pub checkpoint-then :
      (k : Unit {0} → M S B) (id name : Text) (s : Scheduler S)
      → IsHeld s.broker s.active s.tokens s.reservations
      → ((tokens : Dict Text Token)
          → IsHeld s.broker s.active tokens s.reservations
          → Ensures Q E (k tt (record s { tokens = tokens })))
      → ((tokens : Dict Text Token)
          → IsHeld s.broker s.active tokens s.reservations
          → E (record s { tokens = tokens }))
      → Ensures Q E (continue (checkpoint_job id name s) k)
  unfolding checkpoint_job
  checkpoint-then k id name s h returns raises = go (lookup id s.tokens) refl
    where
      at :
          (t : Token) (m : Token × Result TokenError (Unit {0}))
          → lookup id s.tokens ≡ some t
          → Ensures Q E (continue (checked_as id m s) k)
      at t (t', err e) p =
          raises _ (token-IsHeld id t t' s.broker s.active s.tokens s.reservations p h)
      at t (t', ok u) p =
          returns _ (token-IsHeld id t t' s.broker s.active s.tokens s.reservations p h)

      go :
          (t? : Option Token)
          → lookup id s.tokens ≡ t?
          → Ensures Q E (continue (checkpoint_found id name t? s) k)
      go none p = returns s.tokens h
      go (some t) p = at t (checkpoint t name none) p
