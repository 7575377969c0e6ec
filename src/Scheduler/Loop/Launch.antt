-- ===== src/Scheduler/Loop/Launch.antt =====
-- scheduler/scheduler.py: `_launch_next` and the loop of `run_until_idle` that calls it.
use comfy_ui_ng.Prelude.{
  ℕ, zero, suc, Bool, true, false, ◌&&◌, Option, none, some, Result, ok, err, ltb, Text, text_eq,
  length, if◌then◌else◌, [],
}
use comfy_ui_ng.Prelude.Dict.{insert}
use comfy_ui_ng.Json.{Value, null}
use comfy_ui_ng.Jobs.Record.{queued, preparing, running, completed, failed, status_beq}
use comfy_ui_ng.Jobs.Repository.{get}
use comfy_ui_ng.Scheduler.Queues.{QueueItem, SchedulerQueues, QueueError, pop_next, size}
use comfy_ui_ng.Scheduler.Cancellation.{Token}
use comfy_ui_ng.Scheduler.Loop.{
  Services, Scheduler, Exception, Job, Decision, admitted, deferred, rejected, queue_fault,
  broker_fault, admission_failure, no_reservation, error_payload, cache_read_failed, job_deferred,
  starting,
}
use comfy_ui_ng.Scheduler.Loop.Monad.{
  M, ◌>>=◌, ◌>>◌, return, fail, publish_event, transition_job, enqueue_item,
}

-- What the clocks and `uuid4` give to one launch.
pub record Moment : Type 0 where
  pub now : ℕ
  pub cache_now : ℕ
  pub generated : ℕ

-- `CancellationToken()`
unfoldable pub new_token : Token
new_token = record {
  is_set = false;
  reason = none;
  history = [];
  history_limit = 128;
  waiters = [];
}

module _ {S : Services} where
  -- `_complete_from_cache`
  unfoldable pub complete_from_cache : Text → Value → (now : ℕ) → M S (Unit {0})
  complete_from_cache job_id value now = do
    _ ← transition_job job_id queued preparing now null null
    _ ← transition_job job_id preparing running now null null
    _ ← transition_job job_id running completed now value null
    return tt

  abbrev pub read_as :
      Text → S.cache.State × Result S.cache.CacheError (Option Value) → M S (Option Value)
  read_as job_id (c, ok hit) s = (record s { cache = c }, ok hit)
  read_as job_id (c, err e) s =
      (publish_event job_id cache_read_failed >> return none) (record s { cache = c })

  -- The entry of the record's cache key; a cache that fails finds nothing.
  unfoldable pub read_cache : Text → Option Text → (cache_now : ℕ) → M S (Option Value)
  read_cache job_id none cache_now s = (s, ok none)
  read_cache job_id (some k) cache_now s = read_as job_id (S.cache.get s.cache k cache_now) s

  abbrev pub with_reservation : Text → Option S.broker.Reservation → Scheduler S → Scheduler S
  with_reservation job_id none s = s
  with_reservation job_id (some r) s = record s { reservations = insert job_id r s.reservations }

  -- The token, the reservation and the task of the job.
  unfoldable pub create_task : Text → Option S.broker.Reservation → M S (Unit {0})
  unfolding new_token
  create_task job_id reservation s =
      let s' = with_reservation job_id reservation s in
      (
        record s' {
          tokens = insert job_id new_token s'.tokens;
          active = insert job_id starting s'.active;
        },
        ok tt,
      )

  unfoldable pub start_task : Text → Option S.broker.Reservation → (now : ℕ) → M S Bool
  start_task job_id reservation now = do
    _ ← transition_job job_id queued preparing now null null
    create_task job_id reservation
    return true

  unfoldable pub fail_queued : Text → Exception S → (now : ℕ) → M S Bool
  fail_queued job_id e now = do
    _ ← transition_job job_id queued failed now null (error_payload (S.describe e))
    return true

  -- What the broker's answer leads to.
  unfoldable pub follow_decision :
      QueueItem
      → Text
      → (now : ℕ) → Result S.broker.BrokerError (Decision S.broker.Reservation)
      → M S Bool
  follow_decision item job_id now (err e) = fail_queued job_id (broker_fault e) now
  follow_decision item job_id now (ok (deferred violations)) = do
    enqueue_item item
    publish_event job_id job_deferred
    return false
  follow_decision item job_id now (ok (rejected violations)) =
      fail_queued job_id (admission_failure violations) now
  follow_decision item job_id now (ok (admitted none)) = fail no_reservation
  follow_decision item job_id now (ok (admitted (some r))) = start_task job_id (some r) now

  abbrev pub answered :
      QueueItem
      → Text
      → (now : ℕ) → S.broker.State × Result S.broker.BrokerError (Decision S.broker.Reservation)
      → M S Bool
  answered item job_id now (b, answer) s =
      follow_decision item job_id now answer (record s { broker = b })

  unfoldable pub ask_broker : QueueItem → Job S → Moment → M S Bool
  ask_broker item r m s = elim r.resource_estimate [
    | none ↦ start_task item.job_id none m.now s
    | some e ↦ answered item item.job_id m.now (S.broker.admit s.broker e m.generated) s
  ]

  unfoldable pub after_cache : QueueItem → Job S → Moment → Option Value → M S Bool
  after_cache item r m (some value) = complete_from_cache item.job_id value m.now >> return true
  after_cache item r m none = ask_broker item r m

  unfoldable pub launch_record : QueueItem → Moment → Option (Job S) → M S Bool
  launch_record item m none = return true
  launch_record item m (some r) =
      if status_beq r.status queued
      then read_cache item.job_id r.cache_key m.cache_now >>= after_cache item r m
      else return true

  abbrev pub launch_popped : Moment → Result QueueError (SchedulerQueues × QueueItem) → M S Bool
  launch_popped m (err e) s = (s, err (queue_fault e))
  launch_popped m (ok (q, item)) s =
      launch_record item m (get s.repository item.job_id) (record s { queues = q })

  -- `len(self._active) < self.max_concurrency and len(self.queues) > 0`
  unfoldable pub may_launch : Scheduler S → Bool
  may_launch s = ltb (length s.active) S.max_concurrency && ltb 0 (size s.queues)

  -- `_launch_next`
  unfoldable pub launch_next : Moment → M S Bool
  launch_next m s =
      if may_launch s then launch_popped m (pop_next s.queues m.now) s else (s, ok false)

  -- After a launch: the loop goes on, or stops since it was blocked.
  abbrev pub go_on : M S Bool → Bool → M S Bool
  go_on rest true s = rest s
  go_on rest false s = (s, ok true)

  -- The inner loop of `run_until_idle`: whether it was blocked. At most as many rounds as fuel; the
  -- UUIDs of the rounds differ.
  unfoldable pub launch_all : ℕ → (now cache_now : ℕ) → (generated : ℕ → ℕ) → M S Bool
  launch_all zero now cache_now generated s = (s, ok false)
  launch_all (suc fuel) now cache_now generated s =
      let again =
        launch_next (record { now = now; cache_now = cache_now; generated = generated fuel })
        >>= go_on (launch_all fuel now cache_now generated) in
      if may_launch s then again s else (s, ok false)
