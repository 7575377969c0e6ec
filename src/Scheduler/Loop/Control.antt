-- ===== src/Scheduler/Loop/Control.antt =====
-- scheduler/scheduler.py: `cancel`, `run_until_idle`, and the calls and tasks in the order in which the
-- event loop runs them.
use comfy_ui_ng.Prelude.{
  ℕ, Bool, true, false, List, [], ◌∷◌, Option, none, some, Result, ok, err, Text, text_eq, length,
  ◌==◌, ltb, if◌then◌else◌,
}
use comfy_ui_ng.Prelude.Dict.{Dict, lookup, insert}
use comfy_ui_ng.Json.{null}
use comfy_ui_ng.Jobs.Record.{queued, cancelled, terminal, status_beq, is_untrimmed, JobSubmission}
use comfy_ui_ng.Jobs.Repository.{empty, get}
use comfy_ui_ng.Scheduler.Queues.{QueueName, SchedulerQueues, QueueError, init, remove, size}
use comfy_ui_ng.Scheduler.Cancellation.{Token, TokenError, Action, cancel, step}
use comfy_ui_ng.Scheduler.Loop.{
  Services, Scheduler, Exception, Job, token_fault, queue_fault, bad_reason, bad_concurrency,
  reason_payload,
}
use comfy_ui_ng.Scheduler.Loop.Monad.{M, ◌>>=◌, return, transition_job}
use comfy_ui_ng.Scheduler.Loop.Submit.{submit, retry_manually}
use comfy_ui_ng.Scheduler.Loop.Launch.{Moment, launch_next, launch_all}
use comfy_ui_ng.Scheduler.Loop.Execute.{Dispatched, begin, dispatched, slept}

-- What `run_until_idle` does after its inner loop.
pub data Verdict : Type 0 where
  waits : Verdict
  returns : Bool → Verdict
  loops : Verdict

abbrev pub new_scheduler :
    (S : Services) → S.cache.State → S.broker.State → SchedulerQueues → Scheduler S
new_scheduler S cache broker queues = record {
  repository = empty S.broker.Estimate;
  cache = cache;
  broker = broker;
  queues = queues;
  active = [];
  tokens = [];
  reservations = [];
  published = [];
  wake = false;
}

abbrev pub with_queues :
    (S : Services)
    → S.cache.State
    → S.broker.State
    → Result QueueError SchedulerQueues
    → Result (Exception S) (Scheduler S)
with_queues S cache broker (err e) = err (queue_fault e)
with_queues S cache broker (ok queues) = ok (new_scheduler S cache broker queues)

-- `Scheduler.__init__`, with an empty repository.
unfoldable pub init_scheduler :
    (S : Services)
    → S.cache.State
    → S.broker.State
    → (max_queued : ℕ) → Dict QueueName ℕ
    → (rate : ℕ) → Result (Exception S) (Scheduler S)
init_scheduler S cache broker max_queued limits rate =
    if ltb S.max_concurrency 1
    then err bad_concurrency
    else with_queues S cache broker (init max_queued limits rate)

module _ {S : Services} where
  abbrev pub signalled : Text → Token × Result TokenError Bool → M S Bool
  signalled job_id (t, err e) s =
      (record s { tokens = insert job_id t s.tokens }, err (token_fault e))
  signalled job_id (t, ok changed) s = (record s { tokens = insert job_id t s.tokens }, ok changed)

  unfoldable pub cancel_token : Text → (reason : Text) → Option Token → M S Bool
  cancel_token job_id reason none = return false
  cancel_token job_id reason (some t) = signalled job_id (cancel t reason)

  unfoldable pub cancel_queued : Text → (reason : Text) → (now : ℕ) → M S Bool
  cancel_queued job_id reason now s =
      (transition_job job_id queued cancelled now null (reason_payload reason) >>= λ _. return true)
        (record s { queues = (remove s.queues job_id).0 })

  unfoldable pub cancel_record : Text → (reason : Text) → (now : ℕ) → Option (Job S) → M S Bool
  cancel_record job_id reason now none s = (s, ok false)
  cancel_record job_id reason now (some r) s =
      if terminal r.status
      then (s, ok false)
      else (if status_beq r.status queued
          then cancel_queued job_id reason now s
          else cancel_token job_id reason (lookup job_id s.tokens) s)

  -- `cancel`, up to the call of the dispatcher; after it `set_wake` runs.
  unfoldable pub cancel_job : Text → (reason : Text) → (now : ℕ) → M S Bool
  cancel_job job_id reason now s =
      if is_untrimmed reason
      then (s, err bad_reason)
      else cancel_record job_id reason now (get s.repository job_id) s

  -- One round of `run_until_idle`, up to its wait for a task.
  abbrev pub verdict : Scheduler S → (blocked : Bool) → Verdict
  verdict s blocked =
      if ltb 0 (length s.active)
      then waits
      else (if size s.queues == 0 then returns true else (if blocked then returns false else loops))

  unfoldable pub idle_round : (now cache_now : ℕ) → (generated : ℕ → ℕ) → M S Verdict
  idle_round now cache_now generated s =
      (launch_all (size s.queues) now cache_now generated >>= λ blocked s'.
      (s', ok (verdict s' blocked)))
        s

-- What happens in one turn of the event loop. `using_token` is a dispatcher at its job's token.
pub data Call (S : Services) : Type 0 where
  submitting : JobSubmission S.broker.Estimate → (now : ℕ) → Call S
  retrying : Text → (now : ℕ) → Call S
  cancelling : Text → (reason : Text) → (now : ℕ) → Call S
  waking : Call S
  launching : Moment → Call S
  rounding : (now cache_now : ℕ) → (generated : ℕ → ℕ) → Call S
  beginning : Text → (now : ℕ) → Call S
  ending_dispatch : Text → Dispatched S.DispatchError → (now cache_now : ℕ) → Call S
  ending_sleep : Text → (interrupted_sleep : Bool) → (now : ℕ) → Call S
  using_token : Text → Action → Call S

module _ {S : Services} where
  abbrev pub use_token : Text → Action → Option Token → Scheduler S → Scheduler S
  use_token job_id a none s = s
  use_token job_id a (some t) s = record s { tokens = insert job_id (step t a) s.tokens }

  unfoldable pub turn : Scheduler S → Call S → Scheduler S
  turn s (submitting submission now) = (submit submission now s).0
  turn s (retrying job_id now) = (retry_manually job_id now s).0
  turn s (cancelling job_id reason now) = (cancel_job job_id reason now s).0
  turn s waking = record s { wake = true }
  turn s (launching m) = (launch_next m s).0
  turn s (rounding now cache_now generated) = (idle_round now cache_now generated s).0
  turn s (beginning job_id now) = begin job_id now s
  turn s (ending_dispatch job_id outcome now cache_now) = dispatched job_id outcome now cache_now s
  turn s (ending_sleep job_id interrupted_sleep now) = slept job_id interrupted_sleep now s
  turn s (using_token job_id a) = use_token job_id a (lookup job_id s.tokens) s

  unfoldable pub turns : Scheduler S → List (Call S) → Scheduler S
  turns s [] = s
  turns s (c ∷ calls) = turns (turn s c) calls
