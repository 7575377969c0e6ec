-- ===== src/Scheduler/Loop/Rounds.antt =====
-- The queues after a launch.
use comfy_ui_ng.Prelude.{
  ℕ, ◌≡◌, Bool, true, false, Option, none, some, Result, ok, err, Text, text_eq, Bool-cases, inl,
  inr,
}
use comfy_ui_ng.Json.{Value, null}
use comfy_ui_ng.Jobs.Record.{
  JobStatus, queued, preparing, running, completed, failed, status_beq, JobError,
}
use comfy_ui_ng.Jobs.Repository.{Repository, transition}
use comfy_ui_ng.Scheduler.Queues.{QueueItem, SchedulerQueues}
use comfy_ui_ng.Scheduler.Loop.{
  Services, Scheduler, Exception, Job, Decision, admitted, deferred, rejected, job_deferred,
}
use comfy_ui_ng.Scheduler.Loop.Monad.{
  M, Outcome, continue, transition_job, transitioned, enqueue_item, publish_event,
}
use comfy_ui_ng.Scheduler.Loop.Launch.{
  Moment, complete_from_cache, read_as, read_cache, create_task, start_task, fail_queued,
  follow_decision, answered, ask_broker, after_cache, launch_record,
}
use comfy_ui_ng.Scheduler.Loop.Moves.{Ensures}

module _ {S : Services} (q : SchedulerQueues) where
  -- Where a launch does not stop the loop, the queues are those that its item was taken from.
  abbrev pub IfTrue : Bool → Scheduler S → Type 0
  IfTrue launched s = launched ≡ true → s.queues ≡ q

  abbrev pub Anything : Scheduler S → Type 0
  Anything s = Unit

  transition-keeps :
      {B : Type 0} (Q : B → Scheduler S → Type 0) (k : Job S → M S B) (id : Text)
      (expected goal : JobStatus) (now : ℕ) (result error : Value) (s : Scheduler S)
      → s.queues ≡ q
      → ((r : Job S) (s' : Scheduler S) → s'.queues ≡ q → Ensures Q Anything (k r s'))
      → Ensures Q Anything (continue (transition_job id expected goal now result error s) k)
  unfolding transition_job
  transition-keeps Q k id expected goal now result error s e then_keeps =
      go (transition s.repository id expected goal now result error)
    where
      go :
          (m : Repository S.broker.Estimate × Result JobError (Job S))
          → Ensures Q Anything (continue (transitioned id goal m s) k)
      go (repo, err x) = tt
      go (repo, ok r) = then_keeps r _ e

  start_task-keeps :
      (id : Text) (r? : Option S.broker.Reservation) (now : ℕ) (s : Scheduler S)
      → s.queues ≡ q
      → Ensures IfTrue Anything (start_task id r? now s)
  unfolding start_task create_task
  start_task-keeps id none now s e =
      transition-keeps IfTrue _ id queued preparing now null null s e (λ r s' e' t. e')
  start_task-keeps id (some x) now s e =
      transition-keeps IfTrue _ id queued preparing now null null s e (λ r s' e' t. e')

  fail_queued-keeps :
      (id : Text) (x : Exception S) (now : ℕ) (s : Scheduler S)
      → s.queues ≡ q
      → Ensures IfTrue Anything (fail_queued id x now s)
  unfolding fail_queued
  fail_queued-keeps id x now s e =
      transition-keeps IfTrue _ id queued failed now null _ s e (λ r s' e' t. e')

  never_true :
      (o : Outcome S (Unit {0})) (event : Scheduler S → Scheduler S)
      → Ensures IfTrue Anything (continue o (λ _ s. (event s, ok false)))
  never_true (s, err x) event = tt
  never_true (s, ok u) event = λ t. absurd (cc)

  follow_decision-keeps :
      (item : QueueItem) (id : Text) (now : ℕ)
      (answer : Result S.broker.BrokerError (Decision S.broker.Reservation)) (s : Scheduler S)
      → s.queues ≡ q
      → Ensures IfTrue Anything (follow_decision item id now answer s)
  unfolding follow_decision
  follow_decision-keeps item id now (err x) s e = fail_queued-keeps id _ now s e
  follow_decision-keeps item id now (ok (rejected vs)) s e = fail_queued-keeps id _ now s e
  follow_decision-keeps item id now (ok (admitted none)) s e = tt
  follow_decision-keeps item id now (ok (admitted (some r))) s e =
      start_task-keeps id (some r) now s e
  follow_decision-keeps item id now (ok (deferred vs)) s e =
      never_true (enqueue_item item s) (λ s'. (publish_event id job_deferred s').0)

  ask_broker-keeps :
      (item : QueueItem) (r : Job S) (m : Moment) (s : Scheduler S)
      → s.queues ≡ q
      → Ensures IfTrue Anything (ask_broker item r m s)
  unfolding ask_broker
  ask_broker-keeps item r m s e = go r.resource_estimate
    where
      go :
          (e? : Option S.broker.Estimate)
          → Ensures IfTrue Anything (elim e? [
            | none ↦ start_task item.job_id none m.now s
            | some e ↦ answered item item.job_id m.now (S.broker.admit s.broker e m.generated) s
          ])
      go none = start_task-keeps item.job_id none m.now s e
      go (some x) =
          follow_decision-keeps item item.job_id m.now (S.broker.admit s.broker x m.generated).1 _ e

  after_cache-keeps :
      (item : QueueItem) (r : Job S) (m : Moment) (hit : Option Value) (s : Scheduler S)
      → s.queues ≡ q
      → Ensures IfTrue Anything (after_cache item r m hit s)
  unfolding after_cache complete_from_cache
  after_cache-keeps item r m none s e = ask_broker-keeps item r m s e
  after_cache-keeps item r m (some value) s e =
      then_true (complete_from_cache item.job_id value m.now s) (
        transition-keeps (λ _ s'. s'.queues ≡ q) _ item.job_id queued preparing m.now null null s e
          (λ _ s₁ e₁.
            transition-keeps (λ _ s'. s'.queues ≡ q) _ item.job_id preparing running m.now null null
              s₁ e₁
              (λ _ s₂ e₂.
                transition-keeps (λ _ s'. s'.queues ≡ q) _ item.job_id running completed m.now value
                  null s₂ e₂ (λ _ s₃ e₃. e₃))))
    where
      then_true :
          (o : Outcome S (Unit {0}))
          → Ensures (λ _ s'. s'.queues ≡ q) Anything o
          → Ensures IfTrue Anything (continue o (λ _ s'. (s', ok true)))
      then_true (s', ok u) h = λ t. h
      then_true (s', err x) h = tt

  pub launch_record-keeps :
      (item : QueueItem) (m : Moment) (r? : Option (Job S)) (s : Scheduler S)
      → s.queues ≡ q
      → Ensures IfTrue Anything (launch_record item m r? s)
  unfolding launch_record read_cache
  launch_record-keeps item m none s e = λ t. e
  launch_record-keeps item m (some r) s e = elim (Bool-cases (status_beq r.status queued)) [
    | inr p ↦ rw p (λ t. e)
    | inl p ↦ rw p (read r.cache_key)
  ]
    where
      answer :
          (a : S.cache.State × Result S.cache.CacheError (Option Value))
          → Ensures IfTrue Anything (continue (read_as item.job_id a s) (after_cache item r m))
      answer (c, ok hit) = after_cache-keeps item r m hit _ e
      answer (c, err x) = after_cache-keeps item r m none _ e

      read :
          (k? : Option Text)
          → Ensures IfTrue Anything
              (continue (read_cache item.job_id k? m.cache_now s) (after_cache item r m))
      read none = after_cache-keeps item r m none s e
      read (some k) = answer (S.cache.get s.cache k m.cache_now)
