-- ===== src/Scheduler/Loop/Execute.antt =====
-- scheduler/scheduler.py: `_execute`, cut at its awaits of the dispatcher and the sleeper. A part that is
-- not due, since the job's task does not stand before it, does nothing.
use comfy_ui_ng.Prelude.{
  ℕ, ◌+◌, Bool, false, ◌&&◌, Option, none, some, Result, ok, err, ltb, Text, text_eq, codes, length,
  ◌==◌, String, if◌then◌else◌,
}
use comfy_ui_ng.Prelude.Dict.{lookup, insert}
use comfy_ui_ng.Json.{Value, null}
use comfy_ui_ng.Jobs.Record.{preparing, running, completed, failed, cancelled, terminal}
use comfy_ui_ng.Jobs.Repository.{get}
use comfy_ui_ng.Scheduler.Queues.{QueueError, ensure_capacity}
use comfy_ui_ng.Scheduler.Cancellation.{Token, cancel, cancellation_requested}
use comfy_ui_ng.Scheduler.Retry.{should_retry, delay_for_retry}
use comfy_ui_ng.Scheduler.Loop.{
  Services, Scheduler, Exception, Job, Phase, starting, dispatching, sleeping, DispatchResult,
  error_payload, reason_payload, cache_write_failed, job_retrying, token_fault, backpressure,
  dispatch_fault, interrupted, not_dispatch_result, bad_delay,
}
use comfy_ui_ng.Scheduler.Loop.Monad.{
  M, Outcome, ◌>>=◌, ◌>>◌, return, fail, publish_event, queue_of, transition_job,
  release_reservation, finish, checkpoint_job,
}
use comfy_ui_ng.Scheduler.Loop.Submit.{retry_job, requeue}

-- Whether the task waits again, or is at its `finally`.use Prim.Native.String.{String}

pub data Course : Type 0 where
  suspended over : Course

-- How `await self.dispatcher.dispatch(record, token)` ends. A result has passed `check_result`.
pub data Dispatched (DispatchError : Type 0) : Type 0 where
  returned : DispatchResult → Dispatched DispatchError
  returned_other : Dispatched DispatchError
  raised : DispatchError → Dispatched DispatchError
  stopped : (message : Text) → Dispatched DispatchError

-- `a or b`
abbrev pub or_else : Option Text → Text → Text
or_else none b = b
or_else (some a) b = if length a == 0 then b else a

-- `token.reason`
pub reason_of : Option Token → Option Text
reason_of none = none
reason_of (some t) = t.reason

-- `token.cancelled`
pub is_cancelled : Option Token → Bool
is_cancelled none = false
is_cancelled (some t) = t.is_set

-- The message of a cancellation; `none` is any other exception.
pub cancellation_message : (S : Services) → Exception S → Option Text
cancellation_message S (interrupted message) = some message
cancellation_message S (token_fault (cancellation_requested reason c p)) =
    some (S.describe (token_fault (cancellation_requested reason c p))).message
cancellation_message S _ = none

-- `can_retry`
unfoldable pub can_retry : (S : Services) → Job S → Exception S → Bool
can_retry S r e = ltb (r.attempt + 1) r.max_attempts && should_retry S.retry_policy r.attempt e

module _ {S : Services} where
  abbrev pub set_phase : Text → Phase S → M S (Unit {0})
  set_phase job_id phase s = (record s { active = insert job_id phase s.active }, ok tt)

  -- The transition to CANCELLED of a record that is not terminal, with what it was read as.
  unfoldable pub cancel_open : Text → Value → (now : ℕ) → Option (Job S) → M S Course
  cancel_open job_id error now none = return over
  cancel_open job_id error now (some r) =
      if terminal r.status
      then return over
      else (transition_job job_id r.status cancelled now null error >>= λ _. return over)

  -- `except (CancellationRequested, asyncio.CancelledError)`
  unfoldable pub handle_cancelled : Text → (message : Text) → (now : ℕ) → M S Course
  unfolding reason_of
  handle_cancelled job_id message now s =
      let reason =
        or_else (reason_of (lookup job_id s.tokens)) (or_else (some message) (codes "cancelled")) in
      cancel_open job_id (reason_payload reason) now (get s.repository job_id) s

  abbrev pub delayed : Text → Job S → Exception S → Result String ℕ → M S Course
  delayed job_id r e (err m) = fail bad_delay
  delayed job_id r e (ok delay) = do
    publish_event job_id job_retrying
    set_phase job_id (sleeping r e)
    return suspended

  -- Up to `await self._sleeper(delay)`.
  unfoldable pub begin_retry : Text → Job S → Exception S → M S Course
  begin_retry job_id r e s =
      delayed job_id r e (delay_for_retry S.retry_policy (r.attempt + 1))
        (release_reservation job_id s)

  -- The handler without its `print` and `traceback.print_exc`, which are assumed to raise nothing.
  unfoldable pub retry_or_fail : Text → Exception S → (now : ℕ) → Option (Job S) → M S Course
  retry_or_fail job_id e now none = return over
  retry_or_fail job_id e now (some r) =
      if terminal r.status
      then return over
      else (if can_retry S r e
          then begin_retry job_id r e
          else (transition_job job_id r.status failed now null (error_payload (S.describe e))
              >>= λ _. return over))

  -- `except Exception`
  unfoldable pub handle_exception : Text → Exception S → (now : ℕ) → M S Course
  handle_exception job_id e now s = retry_or_fail job_id e now (get s.repository job_id) s

  unfoldable pub handle : Text → (now : ℕ) → Exception S → M S Course
  handle job_id now e = elim (cancellation_message S e) [
    | some message ↦ handle_cancelled job_id message now
    | none ↦ handle_exception job_id e now
  ]

  -- What the body of the `try` raised goes to a handler.
  abbrev pub recovered : Text → (now : ℕ) → Outcome S Course → Outcome S Course
  recovered job_id now (s, ok c) = (s, ok c)
  recovered job_id now (s, err e) = handle job_id now e s

  -- The `finally`. What a handler raised ends in the task.
  abbrev pub settled : Text → Outcome S Course → Scheduler S
  settled job_id (s, ok suspended) = s
  settled job_id (s, ok over) = finish job_id s
  settled job_id (s, err e) = finish job_id s

  -- Up to the dispatcher.
  unfoldable pub begin_body : Text → (now : ℕ) → M S Course
  begin_body job_id now = do
    r ← transition_job job_id preparing running now null null
    checkpoint_job job_id (codes "between_blocks")
    set_phase job_id (dispatching r)
    return suspended

  abbrev pub written_as :
      Text → S.cache.State × Result S.cache.CacheError (Unit {0}) → M S (Unit {0})
  written_as job_id (c, ok u) s = (record s { cache = c }, ok tt)
  written_as job_id (c, err e) s = publish_event job_id cache_write_failed (record s { cache = c })

  unfoldable pub put_value : Text → Text → DispatchResult → (cache_now : ℕ) → M S (Unit {0})
  put_value job_id k result cache_now s =
      written_as job_id
        (S.cache.put s.cache k result.value result.size_bytes result.ttl_seconds cache_now) s

  -- `if result.cacheable and record.cache_key is not None`
  unfoldable pub save : Text → Option Text → DispatchResult → (cache_now : ℕ) → M S (Unit {0})
  save job_id none result cache_now = return tt
  save job_id (some k) result cache_now =
      if result.cacheable then put_value job_id k result cache_now else return tt

  -- After the dispatcher.
  unfoldable pub dispatched_body :
      Text → Job S → Dispatched S.DispatchError → (now cache_now : ℕ) → M S Course
  dispatched_body job_id r (returned result) now cache_now = do
    checkpoint_job job_id (codes "before_save")
    save job_id r.cache_key result cache_now
    _ ← transition_job job_id running completed now result.value null
    return over
  dispatched_body job_id r returned_other now cache_now = fail not_dispatch_result
  dispatched_body job_id r (raised e) now cache_now = fail (dispatch_fault e)
  dispatched_body job_id r (stopped message) now cache_now = fail (interrupted message)

  -- `token.cancel("scheduler task cancelled")` when the sleep was cancelled.
  abbrev pub cancelled_token : Text → Option Token → Scheduler S → Scheduler S
  cancelled_token job_id none s = s
  cancelled_token job_id (some t) s = record s {
    tokens = insert job_id (cancel t (codes "scheduler task cancelled")).0 s.tokens;
  }

  unfoldable pub wake_up : Text → (interrupted_sleep : Bool) → Scheduler S → Scheduler S
  wake_up job_id interrupted_sleep s =
      if interrupted_sleep then cancelled_token job_id (lookup job_id s.tokens) s else s

  -- The second try: with no room the job fails, else it goes back to its queue.
  abbrev pub try_again :
      Text → Job S → Exception S → (now : ℕ) → Result QueueError (Unit {0}) → M S Course
  try_again job_id r e now (err full) = do
    _ ←
        transition_job job_id r.status failed now null
          (error_payload (S.describe (backpressure full)))
    return over
  try_again job_id r e now (ok u) = do
    retried ← retry_job job_id now r.status (error_payload (S.describe e))
    requeue job_id retried
    return over

  unfoldable pub retry_task : Text → Job S → Exception S → (now : ℕ) → M S Course
  retry_task job_id r e now s =
      (queue_of r.queue >>= λ queue s'.
      try_again job_id r e now (ensure_capacity s'.queues queue) s')
        s

  -- After the sleep.
  unfoldable pub slept_body : Text → Job S → Exception S → (now : ℕ) → M S Course
  unfolding is_cancelled reason_of
  slept_body job_id r e now s =
      let token = lookup job_id s.tokens in
      (if is_cancelled token
          then cancel_open job_id (reason_payload (or_else (reason_of token) (codes "cancelled")))
              now (get s.repository job_id)
          else retry_task job_id r e now)
        s

  -- The parts of a task, each of which runs when the task stands before it.
  abbrev pub begin_at : Text → (now : ℕ) → Option (Phase S) → Scheduler S → Scheduler S
  begin_at job_id now (some starting) s =
      settled job_id (recovered job_id now (begin_body job_id now s))
  begin_at job_id now _ s = s

  unfoldable pub begin : Text → (now : ℕ) → Scheduler S → Scheduler S
  begin job_id now s = begin_at job_id now (lookup job_id s.active) s

  abbrev pub dispatched_at :
      Text
      → Dispatched S.DispatchError
      → (now cache_now : ℕ) → Option (Phase S)
      → Scheduler S
      → Scheduler S
  dispatched_at job_id outcome now cache_now (some (dispatching r)) s =
      settled job_id (recovered job_id now (dispatched_body job_id r outcome now cache_now s))
  dispatched_at job_id outcome now cache_now _ s = s

  unfoldable pub dispatched :
      Text → Dispatched S.DispatchError → (now cache_now : ℕ) → Scheduler S → Scheduler S
  dispatched job_id outcome now cache_now s =
      dispatched_at job_id outcome now cache_now (lookup job_id s.active) s

  abbrev pub slept_at : Text → Bool → (now : ℕ) → Option (Phase S) → Scheduler S → Scheduler S
  slept_at job_id interrupted_sleep now (some (sleeping r e)) s =
      settled job_id (slept_body job_id r e now (wake_up job_id interrupted_sleep s))
  slept_at job_id interrupted_sleep now _ s = s

  unfoldable pub slept : Text → (interrupted_sleep : Bool) → (now : ℕ) → Scheduler S → Scheduler S
  slept job_id interrupted_sleep now s =
      slept_at job_id interrupted_sleep now (lookup job_id s.active) s
