-- ===== src/Scheduler/Loop/NextLaunch.antt =====
-- `_launch_next` and the loop that calls it, and the scheduler's soundness.
use comfy_ui_ng.Prelude.{
  ℕ, zero, suc, ◌<◌, ◌≡◌, refl, subst, Bool, true, false, Option, none, some, Result, ok, err,
  text_eq, Bool-cases, inl, inr, arith, length,
}
use comfy_ui_ng.Prelude.Dict.{lookup}
use comfy_ui_ng.Jobs.Record.{JobStatus}
use comfy_ui_ng.Jobs.Repository.{get}
use comfy_ui_ng.Scheduler.Queues.{QueueError, QueueItem, SchedulerQueues, pop_next}
use comfy_ui_ng.Scheduler.Queues.Invariant.{pop_next-IsConsistent, pop_next-items, pop_next-absent}
use comfy_ui_ng.Scheduler.Loop.{Services, Scheduler, Phase}
use comfy_ui_ng.Scheduler.Loop.Monad.{Outcome, continue}
use comfy_ui_ng.Scheduler.Loop.Launch.{
  Moment, launch_popped, may_launch, launch_next, launch_all, go_on,
}
use comfy_ui_ng.Scheduler.Loop.Invariant.{status?, Placed, IsSound}
use comfy_ui_ng.Scheduler.Loop.Places.{queues-others}
use comfy_ui_ng.Scheduler.Loop.Requests.{Stays}
use comfy_ui_ng.Scheduler.Loop.Launches.{IsPopped, launch_record-Sound}

module _ {S : Services} where
  popped :
      (m : Moment) (q : SchedulerQueues) (item : QueueItem) (s : Scheduler S)
      → IsSound m.now s
      → length s.active < S.max_concurrency
      → pop_next s.queues m.now ≡ ok (q, item)
      → IsPopped m.now item.job_id (record s { queues = q })
  popped m q item s h room e =
      let status = status? (lookup item.job_id s.repository.records) in
      let (absent, was, _) = pop_next-absent s.queues q m.now item h.consistent e in
      record {
        free = record {
          linked = h.linked;
          timed = h.timed;
          consistent = pop_next-IsConsistent s.queues q m.now item h.consistent e;
          others =
              queues-others item.job_id s.repository s.queues q s.active
                (λ j n. pop_next-items j s.queues q m.now item h.consistent e n)
                (λ j n. h.places j);
          absent = absent;
        };
        held = h.held;
        no_task =
            queued_item-no_task status (lookup item.job_id s.active) (
              subst (λ b. Placed status b (lookup item.job_id s.active)) was
                (h.places item.job_id));
        room = room;
      }
    where
      queued_item-no_task :
          (status : Option JobStatus) (p? : Option (Phase S)) → Placed status true p? → p? ≡ none
      queued_item-no_task status none p = refl
      queued_item-no_task status (some phase) p = absurd p

  launch_popped-Sound :
      (m : Moment) (s : Scheduler S) (popped? : Result QueueError (SchedulerQueues × QueueItem))
      → IsSound m.now s
      → length s.active < S.max_concurrency
      → pop_next s.queues m.now ≡ popped?
      → Stays m.now (launch_popped m popped? s)
  unfolding get
  launch_popped-Sound m s (err x) h room e = h
  launch_popped-Sound m s (ok (q, item)) h room e =
      launch_record-Sound item.job_id item m (lookup item.job_id s.repository.records)
        (record s { queues = q }) refl (popped m q item s h room e) refl

  pub launch_next-Sound :
      (m : Moment) (s : Scheduler S) → IsSound m.now s → Stays m.now (launch_next m s)
  unfolding launch_next may_launch
  launch_next-Sound m s h = elim (Bool-cases (may_launch s)) [
    | inl p ↦ rw p (launch_popped-Sound m s (pop_next s.queues m.now) h (ground arith) refl)
    | inr p ↦ rw p h
  ]

  pub launch_all-Sound :
      (fuel now cache_now : ℕ) (generated : ℕ → ℕ) (s : Scheduler S)
      → IsSound now s
      → Stays now (launch_all fuel now cache_now generated s)
  unfolding launch_all
  launch_all-Sound zero now cache_now generated s h = h
  launch_all-Sound (suc fuel) now cache_now generated s h = elim (Bool-cases (may_launch s)) [
    | inl p ↦ rw p (
        rest (λ s' k. launch_all-Sound fuel now cache_now generated s' k) _
          (launch_next-Sound at s h))
    | inr p ↦ rw p h
  ]
    where
      at : Moment
      at = record { now = now; cache_now = cache_now; generated = generated fuel }

      rest :
          ((s' : Scheduler S)
            → IsSound now s'
            → Stays now (launch_all fuel now cache_now generated s'))
          → (o : Outcome S Bool) → Stays now o
          → Stays now (continue o (go_on (launch_all fuel now cache_now generated)))
      rest again (s', ok true) k = again s' k
      rest again (s', ok false) k = k
      rest again (s', err e) k = k
