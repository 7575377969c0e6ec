-- ===== src/Scheduler/Queues/Admission.antt =====
-- When an item is let in, and taking it out again.
use comfy_ui_ng.Prelude.{
  ℕ, ◌+◌, ◌<◌, ◌≡◌, ◌↔◌, refl, sym, subst, true, Option, none, some, ok, arith, text_eq, is_ok,
  ok_value,
}
use comfy_ui_ng.Prelude.Dict.{lookup, Absent-of_lookup, delete-insert, lookup-insert_self}
use comfy_ui_ng.Scheduler.Queues.{
  QueueName, queue_eq, QueueItem, QueuedItem, SchedulerQueues, added, check_limit, ensure_capacity,
  enqueue, remove,
}
use comfy_ui_ng.Scheduler.Queues.Invariant.{HasRoom, enqueue→HasRoom}

check_limit_ok :
    (q : SchedulerQueues) (n : QueueName) (o : Option ℕ)
    → ((limit : ℕ) → o ≡ some limit → q.by_queue n < limit)
    → check_limit q n o ≡ ok tt
unfolding check_limit
check_limit_ok q n none h = refl
check_limit_ok q n (some limit) h = ground (arith, h limit refl)

HasRoom→enqueue :
    (q : SchedulerQueues) (item : QueueItem) → HasRoom q item → enqueue q item ≡ ok (added q item)
unfolding enqueue ensure_capacity
HasRoom→enqueue q item r = ground (
  arith,
  r.absent,
  r.total,
  check_limit_ok q item.queue (lookup item.queue q.per_queue_limits) r.of_queue,
)

-- An item is let in exactly when its id is not queued, the total is below the limit and so is its
-- queue, if that has a limit of its own.
pub enqueue_iff :
    (q : SchedulerQueues) (item : QueueItem) → (is_ok (enqueue q item) ≡ true) ↔ HasRoom q item
enqueue_iff q item = (
  λ h. let (q', e) = ok_value (enqueue q item) h in (enqueue→HasRoom q q' item e).0,
  λ r. rw (HasRoom→enqueue q item r),
)

-- What the state is after an item was let in and taken out.
abbrev Undone : SchedulerQueues → QueueItem → SchedulerQueues → Type 0
Undone q item q' =
    ((remove q' item.job_id).1 ≡ some item)
    × ((remove q' item.job_id).0.items ≡ q.items)
    × ((n : QueueName) → (remove q' item.job_id).0.by_queue n ≡ q.by_queue n)
    × ((remove q' item.job_id).0.next_sequence ≡ q.next_sequence + 1)

undo : (q : SchedulerQueues) (item : QueueItem) → HasRoom q item → Undone q item (added q item)
unfolding remove
undo q item r =
    let v : QueuedItem = record { item = item; sequence = q.next_sequence } in
    rw (lookup-insert_self item.job_id v q.items, remove)
      (
        refl,
        delete-insert item.job_id v q.items (Absent-of_lookup item.job_id q.items r.absent),
        λ n. ground (arith, queue_eq.beq-iff_eq n item.queue),
        refl,
      )

-- Taking out an item that was just let in returns it and gives the earlier items and counts back;
-- only its sequence number stays used.
remove-enqueue :
    (q q' : SchedulerQueues) (item : QueueItem)
    → enqueue q item ≡ ok q'
    → ((remove q' item.job_id).1 ≡ some item)
      × ((remove q' item.job_id).0.items ≡ q.items)
      × ((n : QueueName) → (remove q' item.job_id).0.by_queue n ≡ q.by_queue n)
      × ((remove q' item.job_id).0.next_sequence ≡ q.next_sequence + 1)
remove-enqueue q q' item h =
    let (room, e) = enqueue→HasRoom q q' item h in subst (Undone q item) (sym e) (undo q item room)
