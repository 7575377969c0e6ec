-- ===== src/Scheduler/Loop/Launches.antt =====
-- `_launch_next` after it took an item out of the queues, and the scheduler's soundness.
use comfy_ui_ng.Prelude.{
  ℕ, ◌<◌, ◌≡◌, sym, ◌∙◌, ap, subst, true, List, [], ◌∷◌, ◌++◌, Option, none, some, Result, ok, err,
  Text, text_eq, Bool-cases, inl, inr, length,
}
use comfy_ui_ng.Prelude.Dict.{lookup, insert, values, lookup-insert_ne, lookup-insert_self}
use comfy_ui_ng.Json.{Value, null}
use comfy_ui_ng.Jobs.Record.{queued, preparing, running, completed, failed, status_beq}
use comfy_ui_ng.Jobs.Repository.Isolation.{status_beq→eq}
use comfy_ui_ng.Jobs.Repository.Prepares.{queued_prepares}
use mathlib.Core.List.{append-nil}
use comfy_ui_ng.Scheduler.Queues.{QueueItem}
use comfy_ui_ng.Scheduler.Loop.{
  Services, Scheduler, Exception, Job, starting, Decision, admitted, deferred, rejected, given_by,
}
use comfy_ui_ng.Scheduler.Loop.Monad.{Outcome, continue}
use comfy_ui_ng.Scheduler.Loop.Launch.{
  Moment, new_token, complete_from_cache, read_as, read_cache, create_task, start_task, fail_queued,
  follow_decision, answered, ask_broker, after_cache, launch_record,
}
use comfy_ui_ng.Scheduler.Loop.Invariant.{status?, IsHeld, IsSound, IsFree}
use comfy_ui_ng.Scheduler.Loop.Moves.{transition-then, transition-or}
use comfy_ui_ng.Scheduler.Loop.Places.{active-Sound, active-IsFree, free-Sound, queued-Sound}
use comfy_ui_ng.Scheduler.Loop.Held.{start-IsHeld, reserve-IsHeld}
use comfy_ui_ng.Scheduler.Loop.Queueing.{enqueue_item-then}
use comfy_ui_ng.Scheduler.Loop.Requests.{Stays}

-- A job that was taken out of its queue, with room for its task.
pub record IsPopped {S : Services} (now : ℕ) (id : Text) (s : Scheduler S) : Type 0 where
  pub free : IsFree now id s.repository s.queues s.active
  pub held : IsHeld s.broker s.active s.tokens s.reservations
  pub no_task : lookup id s.active ≡ none
  pub room : length s.active < S.max_concurrency

-- The record of a job that waits for its task.
pub record IsPending {S : Services} (id : Text) (s : Scheduler S) : Type 0 where
  pub job : Job S
  pub stored : lookup id s.repository.records ≡ some job
  pub is_queued : job.status ≡ queued

module _ {S : Services} (id : Text) where
  popped-Sound : {now : ℕ} (s : Scheduler S) → IsPopped now id s → IsSound now s
  popped-Sound {now} s p = free-Sound id s p.free p.held p.no_task

  fail_queued-Sound :
      (e : Exception S) (now : ℕ) (s : Scheduler S)
      → IsPopped now id s
      → Stays now (fail_queued id e now s)
  unfolding fail_queued
  fail_queued-Sound e now s p =
      transition-then (λ _ s'. IsSound now s') (IsSound now) _ id queued failed now null _ s p.free
        (λ repo log r g _. free-Sound id _ g p.held p.no_task) (popped-Sound s p)

  start_task-Sound :
      (now : ℕ) (s : Scheduler S) → IsPopped now id s → Stays now (start_task id none now s)
  unfolding start_task create_task
  start_task-Sound now s p =
      transition-then (λ _ s'. IsSound now s') (IsSound now) _ id queued preparing now null null s
        p.free
        (λ repo log r g status.
          active-Sound id _ starting
            (active-IsFree id repo s.queues s.active (insert id starting s.active)
              (λ j n. lookup-insert_ne id j starting s.active n) g)
            (start-IsHeld id starting new_token s.broker s.active s.tokens s.reservations p.no_task
              p.room p.held)
            (lookup-insert_self id starting s.active) status)
        (popped-Sound s p)

  -- With a reservation that the broker just gave: the transition returns, so that the task takes it.
  start_reserved-Sound :
      (r : S.broker.Reservation) (now : ℕ) (b : S.broker.State) (s : Scheduler S)
      → IsPopped now id s
      → IsPending id s
      → S.broker.Given b (values s.reservations ++ r ∷ [])
      → Stays now (start_task id (some r) now (record s { broker = b }))
  unfolding start_task create_task
  start_reserved-Sound r now b s p status given =
      transition-or (λ _ s'. IsSound now s') (IsSound now) _ id queued preparing now null null
        (record s { broker = b }) p.free
        (λ repo log r' g st.
          active-Sound id _ starting
            (active-IsFree id repo s.queues s.active (insert id starting s.active)
              (λ j n. lookup-insert_ne id j starting s.active n) g)
            (reserve-IsHeld id starting new_token r s.broker b s.active s.tokens s.reservations
              p.no_task p.room p.held given)
            (lookup-insert_self id starting s.active) st)
        (λ x e. absurd (
          queued_prepares s.repository id now p.free.linked p.free.timed status.job status.stored
            status.is_queued x e))

  -- The broker's answer in the state that it left.
  broker-Popped :
      {now : ℕ} (b : S.broker.State) (s : Scheduler S)
      → IsPopped now id s
      → S.broker.Given b (values s.reservations ++ [])
      → IsPopped now id (record s { broker = b })
  broker-Popped b s p given = record {
    free = p.free;
    held = record {
      unique_active = p.held.unique_active;
      unique_tokens = p.held.unique_tokens;
      unique_reservations = p.held.unique_reservations;
      reserved = p.held.reserved;
      tokened = p.held.tokened;
      given = subst (S.broker.Given b) (append-nil (values s.reservations)) given;
      capped = p.held.capped;
    };
    no_task = p.no_task;
    room = p.room;
  }

  follow_decision-Sound :
      (item : QueueItem) (now : ℕ)
      (answer : Result S.broker.BrokerError (Decision S.broker.Reservation)) (b : S.broker.State)
      (s : Scheduler S)
      → item.job_id ≡ id
      → IsPopped now id s
      → IsPending id s
      → S.broker.Given b (values s.reservations ++ given_by answer)
      → Stays now (follow_decision item id now answer (record s { broker = b }))
  unfolding follow_decision
  follow_decision-Sound item now (err e) b s named p status given =
      fail_queued-Sound _ now _ (broker-Popped b s p given)
  follow_decision-Sound item now (ok (rejected vs)) b s named p status given =
      fail_queued-Sound _ now _ (broker-Popped b s p given)
  follow_decision-Sound item now (ok (admitted none)) b s named p status given =
      popped-Sound _ (broker-Popped b s p given)
  follow_decision-Sound item now (ok (admitted (some r))) b s named p status given =
      start_reserved-Sound r now b s p status given
  follow_decision-Sound item now (ok (deferred vs)) b s named p status given =
      let p' = broker-Popped b s p given in
      enqueue_item-then (λ _ s'. IsSound now s') (IsSound now) _ id item (record s { broker = b })
        named p'.free (ap status? status.stored ∙ ap some status.is_queued)
        (λ q g. queued-Sound id _ g p'.held p'.no_task) (popped-Sound _ p')

  ask_broker-Sound :
      (item : QueueItem) (r : Job S) (m : Moment) (s : Scheduler S)
      → item.job_id ≡ id
      → IsPopped m.now id s
      → IsPending id s
      → Stays m.now (ask_broker item r m s)
  unfolding ask_broker
  ask_broker-Sound item r m s named p status = go r.resource_estimate
    where
      answer :
          (e : S.broker.Estimate)
          → Stays m.now (answered item item.job_id m.now (S.broker.admit s.broker e m.generated) s)
      answer e =
          subst
            (λ i. Stays m.now (
              follow_decision item i m.now (S.broker.admit s.broker e m.generated).1
                (record s { broker = (S.broker.admit s.broker e m.generated).0 })))
            (sym named)
            (follow_decision-Sound item m.now (S.broker.admit s.broker e m.generated).1
              (S.broker.admit s.broker e m.generated).0 s named p status
              (S.broker.admit-Given s.broker e m.generated (values s.reservations) p.held.given))

      go :
          (e? : Option S.broker.Estimate)
          → Stays m.now (elim e? [
            | none ↦ start_task item.job_id none m.now s
            | some e ↦ answered item item.job_id m.now (S.broker.admit s.broker e m.generated) s
          ])
      go none =
          subst (λ i. Stays m.now (start_task i none m.now s)) (sym named)
            (start_task-Sound m.now s p)
      go (some e) = answer e

  complete_from_cache-Sound :
      (value : Value) (now : ℕ) (s : Scheduler S)
      → IsPopped now id s
      → Stays now (complete_from_cache id value now s)
  unfolding complete_from_cache
  complete_from_cache-Sound value now s p =
      transition-then (λ _ s'. IsSound now s') (IsSound now) _ id queued preparing now null null s
        p.free
        (λ repo log r g _.
          transition-then (λ _ s'. IsSound now s') (IsSound now) _ id preparing running now null
            null _ g
            (λ repo' log' r' g' _.
              transition-then (λ _ s'. IsSound now s') (IsSound now) _ id running completed now
                value null _ g' (λ repo₃ log₃ r₃ g₃ _. free-Sound id _ g₃ p.held p.no_task)
                (free-Sound id _ g' p.held p.no_task))
            (free-Sound id _ g p.held p.no_task))
        (popped-Sound s p)

  then_true :
      (now : ℕ) (o : Outcome S (Unit {0}))
      → Stays now o
      → Stays now (continue o (λ _ s'. (s', ok true)))
  then_true now (s, ok u) h = h
  then_true now (s, err e) h = h

  after_cache-Sound :
      (item : QueueItem) (r : Job S) (m : Moment) (hit : Option Value) (s : Scheduler S)
      → item.job_id ≡ id
      → IsPopped m.now id s
      → IsPending id s
      → Stays m.now (after_cache item r m hit s)
  unfolding after_cache
  after_cache-Sound item r m none s named p w = ask_broker-Sound item r m s named p w
  after_cache-Sound item r m (some value) s named p w =
      then_true m.now (complete_from_cache item.job_id value m.now s) (
        subst (λ i. Stays m.now (complete_from_cache i value m.now s)) (sym named)
          (complete_from_cache-Sound value m.now s p))

  pub launch_record-Sound :
      (item : QueueItem) (m : Moment) (r? : Option (Job S)) (s : Scheduler S)
      → item.job_id ≡ id
      → IsPopped m.now id s
      → lookup id s.repository.records ≡ r?
      → Stays m.now (launch_record item m r? s)
  unfolding launch_record read_cache
  launch_record-Sound item m none s named p e = popped-Sound s p
  launch_record-Sound item m (some r) s named p e = elim (Bool-cases (status_beq r.status queued)) [
    | inr q ↦ rw q (popped-Sound s p)
    | inl q ↦ rw q (read r.cache_key (status_beq→eq r.status queued q))
  ]
    where
      found :
          (c : S.cache.State) (log : List _) (hit : Option Value)
          → r.status ≡ queued
          → Stays m.now (after_cache item r m hit (record s { cache = c; published = log }))
      found c log hit q =
          after_cache-Sound item r m hit _ named
            (record { free = p.free; held = p.held; no_task = p.no_task; room = p.room })
            (record { job = r; stored = e; is_queued = q })

      answer :
          (a : S.cache.State × Result S.cache.CacheError (Option Value))
          → r.status ≡ queued
          → Stays m.now (continue (read_as item.job_id a s) (after_cache item r m))
      answer (c, ok hit) q = found c s.published hit q
      answer (c, err x) q = found c _ none q

      read :
          (k? : Option Text)
          → r.status ≡ queued
          → Stays m.now (continue (read_cache item.job_id k? m.cache_now s) (after_cache item r m))
      read none q = found s.cache s.published none q
      read (some k) q = answer (S.cache.get s.cache k m.cache_now) q
