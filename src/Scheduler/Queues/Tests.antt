-- ===== src/Scheduler/Queues/Tests.antt =====
-- Runs of the queues, and each theorem at a concrete input.
use comfy_ui_ng.Prelude.{
  ℕ, ◌≤◌, ◌≡◌, ◌↔◌, refl, true, [], ◌∷◌, some, ok, err, Text, codes, text_eq, is_ok, All,
}
use comfy_ui_ng.Prelude.Dict.{Dict, lookup, insert, delete, values}
use comfy_ui_ng.Prelude.Sort.{minimum}
use comfy_ui_ng.Prelude.Int.{sub_ℕ}
use comfy_ui_ng.Scheduler.Priority.{PriorityFactors, priority_score, queue_age_bonus}
use comfy_ui_ng.Scheduler.Queues.{
  QueueName, batch, normal, queue_eq, QueueItem, QueuedItem, SchedulerQueues, global, queue_full,
  init, ensure_capacity, enqueue, score, pops_before, pop_next, remove, size, snapshot, added,
  dropped,
}
use comfy_ui_ng.Scheduler.Queues.Invariant.{
  IsConsistent, HasRoom, init-IsConsistent, enqueue-IsConsistent,
}
use comfy_ui_ng.Scheduler.Queues.Runs.{enqueueing, popping, removing, run, run-init-IsConsistent}
use comfy_ui_ng.Scheduler.Queues.First.{GoesFirst, pop_next_first}
use comfy_ui_ng.Scheduler.Queues.Order.{pop_next_fair}
use comfy_ui_ng.Scheduler.Queues.Admission.{enqueue_iff}

program : Unit {0}
unfolding init ensure_capacity enqueue score pops_before pop_next remove size snapshot lookup insert
    delete minimum sub_ℕ priority_score queue_age_bonus
program = tt

abbrev plain : ℕ → PriorityFactors
plain n = record {
  user_priority = n;
  queue_age_bonus = 0;
  warm_model_bonus = 0;
  cache_reuse_bonus = 0;
  memory_pressure_penalty = 0;
  estimated_duration_penalty = 0;
}

abbrev job : Text → QueueName → ℕ → ℕ → QueueItem
job id queue at priority = record {
  job_id = id;
  queue = queue;
  enqueued_at = at;
  factors = plain priority;
}

abbrev limits : Dict QueueName ℕ
limits = (batch, 1) ∷ []

abbrev fresh : SchedulerQueues
fresh = record {
  max_queued = 3;
  per_queue_limits = limits;
  age_points_per_second = 2;
  items = [];
  by_queue = λ _. 0;
  next_sequence = 1;
}

init-fresh : init 3 limits 2 ≡ ok fresh
unfolding program
init-fresh = refl

abbrev early : QueueItem
early = job (codes "early") normal 5 50

abbrev late : QueueItem
late = job (codes "late") normal 6 50

abbrev urgent : QueueItem
urgent = job (codes "urgent") batch 9 90

abbrev one : SchedulerQueues
one = added fresh late

abbrev two : SchedulerQueues
two = added one early

enqueue-late : enqueue fresh late ≡ ok one
unfolding program
enqueue-late = refl

enqueue-early : enqueue one early ≡ ok two
unfolding program
enqueue-early = refl

fresh-IsConsistent : IsConsistent fresh
fresh-IsConsistent = init-IsConsistent 3 2 limits fresh init-fresh

one-IsConsistent : IsConsistent one
one-IsConsistent = enqueue-IsConsistent fresh one late fresh-IsConsistent enqueue-late

two-IsConsistent : IsConsistent two
two-IsConsistent = enqueue-IsConsistent one two early one-IsConsistent enqueue-early

abbrev after_pop : SchedulerQueues
after_pop = dropped two (record { item = early; sequence = 2 })

pop_next-two : pop_next two 10 ≡ ok (after_pop, early)
unfolding program
pop_next-two = refl

full : enqueue (record two { max_queued = 2 }) urgent ≡ err (queue_full batch 2 2 global)
unfolding program
full = refl

run-init-IsConsistent_example :
    IsConsistent
      (run fresh (enqueueing late ∷ enqueueing early ∷ popping 10 ∷ removing (codes "late") ∷ []))
run-init-IsConsistent_example =
    run-init-IsConsistent 3 2 limits fresh
      (enqueueing late ∷ enqueueing early ∷ popping 10 ∷ removing (codes "late") ∷ []) init-fresh

pop_next_first_example :
    (v : QueuedItem) × (v.item ≡ early)
    × (lookup early.job_id two.items ≡ some v)
    × All (GoesFirst two 10 v) (values two.items)
pop_next_first_example = pop_next_first two after_pop 10 early two-IsConsistent pop_next-two

late_found : lookup (codes "late") two.items ≡ some (record { item = late; sequence = 1 })
unfolding program
late_found = refl

pop_next_fair_example :
    (v : QueuedItem) × (v.item ≡ early)
    × (lookup early.job_id two.items ≡ some v)
    × (v.item.enqueued_at ≤ 6)
    × (v.item.enqueued_at ≡ 6 → v.sequence ≤ 1)
pop_next_fair_example =
    pop_next_fair two after_pop 10 early (codes "late") (record { item = late; sequence = 1 })
      two-IsConsistent pop_next-two late_found refl refl

enqueue_iff_example : (is_ok (enqueue two urgent) ≡ true) ↔ HasRoom two urgent
enqueue_iff_example = enqueue_iff two urgent
