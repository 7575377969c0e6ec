-- ===== src/Scheduler/Queues/Runs.antt =====
-- Calls on the queues, one after the other. A call that raises leaves them as they were.
use comfy_ui_ng.Prelude.{ℕ, ◌≡◌, refl, List, [], ◌∷◌, Result, ok, err, Text}
use comfy_ui_ng.Prelude.Dict.{Dict}
use comfy_ui_ng.Scheduler.Queues.{
  QueueName, QueueError, QueueItem, SchedulerQueues, init, enqueue, pop_next, remove,
}
use comfy_ui_ng.Scheduler.Queues.Invariant.{
  IsConsistent, init-IsConsistent, enqueue-IsConsistent, pop_next-IsConsistent, remove-IsConsistent,
}

pub data Call : Type 0 where
  enqueueing : QueueItem → Call
  popping : (now : ℕ) → Call
  removing : Text → Call

enqueued : SchedulerQueues → Result QueueError SchedulerQueues → SchedulerQueues
enqueued q (ok q') = q'
enqueued q (err e) = q

popped : SchedulerQueues → Result QueueError (SchedulerQueues × QueueItem) → SchedulerQueues
popped q (ok (q', item)) = q'
popped q (err e) = q

pub step : SchedulerQueues → Call → SchedulerQueues
unfolding enqueued popped
step q (enqueueing item) = enqueued q (enqueue q item)
step q (popping now) = popped q (pop_next q now)
step q (removing job_id) = (remove q job_id).0

pub run : SchedulerQueues → List Call → SchedulerQueues
run q [] = q
run q (c ∷ calls) = run (step q c) calls

enqueued-IsConsistent :
    (q : SchedulerQueues) (item : QueueItem) (r : Result QueueError SchedulerQueues)
    → enqueue q item ≡ r
    → IsConsistent q
    → IsConsistent (enqueued q r)
unfolding enqueued
enqueued-IsConsistent q item (ok q') e c = enqueue-IsConsistent q q' item c e
enqueued-IsConsistent q item (err x) e c = c

popped-IsConsistent :
    (q : SchedulerQueues) (now : ℕ) (r : Result QueueError (SchedulerQueues × QueueItem))
    → pop_next q now ≡ r
    → IsConsistent q
    → IsConsistent (popped q r)
unfolding popped
popped-IsConsistent q now (ok (q', item)) e c = pop_next-IsConsistent q q' now item c e
popped-IsConsistent q now (err x) e c = c

step-IsConsistent :
    (q : SchedulerQueues) (call : Call) → IsConsistent q → IsConsistent (step q call)
unfolding step
step-IsConsistent q (enqueueing item) c = enqueued-IsConsistent q item (enqueue q item) refl c
step-IsConsistent q (popping now) c = popped-IsConsistent q now (pop_next q now) refl c
step-IsConsistent q (removing job_id) c = remove-IsConsistent q job_id c

run-IsConsistent :
    (q : SchedulerQueues) (calls : List Call) → IsConsistent q → IsConsistent (run q calls)
unfolding run
run-IsConsistent q [] c = c
run-IsConsistent q (call ∷ calls) c =
    run-IsConsistent (step q call) calls (step-IsConsistent q call c)

-- After any calls on new queues each id stands once, the counts per queue are exact, no capacity is
-- exceeded, and the items stand in the order of their sequence numbers.
pub run-init-IsConsistent :
    (max_queued rate : ℕ) (limits : Dict QueueName ℕ) (q : SchedulerQueues) (calls : List Call)
    → init max_queued limits rate ≡ ok q
    → IsConsistent (run q calls)
run-init-IsConsistent max_queued rate limits q calls h =
    run-IsConsistent q calls (init-IsConsistent max_queued rate limits q h)
