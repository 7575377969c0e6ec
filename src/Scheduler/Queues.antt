-- ===== src/Scheduler/Queues.antt =====
-- scheduler/queues.py. Every method holds the lock for its whole body, so it is one step.
use comfy_ui_ng.Prelude.{
  ℕ, ◌+◌, ◌-◌, Bool, true, false, not, ◌&&◌, ◌||◌, List, [], ◌∷◌, map, Option, none, some, Result,
  ok, err, ◌>>=◌, ◌>>◌, raise_if, ltb, leb, ◌==◌, Text, text_eq, text_leb, Eq, is_some, length,
  if◌then◌else◌, all, ◌≡◌, ◌↔◌, refl, arith,
}
use comfy_ui_ng.Prelude.Dict.{Dict, lookup, insert, delete, values}
use comfy_ui_ng.Prelude.Int.{ℤ}
use comfy_ui_ng.Prelude.Sort.{minimum, lex, lex_ℤ}
use comfy_ui_ng.Scheduler.Priority.{PriorityFactors, priority_score, queue_age_bonus}
use Prim.Native.String.{String}
pub mod Invariant
pub mod Order
pub mod First
pub mod Runs
pub mod Admission
mod Tests

pub data QueueName : Type 0 where
  interactive normal batch background download maintenance : QueueName

-- `_QUEUE_ORDER`
abbrev pub queue_order : QueueName → ℕ
queue_order interactive = 0
queue_order normal = 1
queue_order batch = 2
queue_order background = 3
queue_order download = 4
queue_order maintenance = 5

abbrev queue_beq : QueueName → QueueName → Bool
queue_beq a b = queue_order a == queue_order b

pub queue_beq-iff_eq : (a b : QueueName) → (queue_beq a b ≡ true) ↔ (a ≡ b)
queue_beq-iff_eq a b = ground arith

instance abbrev pub queue_eq : Eq QueueName
queue_eq = record { beq = queue_beq; beq-iff_eq = queue_beq-iff_eq }

pub data Scope : Type 0 where
  global queue_scope : Scope

pub data QueueError : Type 0 where
  queue_full : (queue : QueueName) → (current limit : ℕ) → Scope → QueueError
  already_queued : Text → QueueError
  queues_empty : QueueError
  value_error : String → QueueError

pub record QueueItem : Type 0 where
  pub job_id : Text
  pub queue : QueueName
  pub enqueued_at : ℕ
  pub factors : PriorityFactors

-- `_QueuedItem`
pub record QueuedItem : Type 0 where
  pub item : QueueItem
  pub sequence : ℕ

pub record SchedulerQueues : Type 0 where
  pub max_queued : ℕ
  pub per_queue_limits : Dict QueueName ℕ
  pub age_points_per_second : ℕ
  pub items : Dict Text QueuedItem
  pub by_queue : QueueName → ℕ
  pub next_sequence : ℕ

-- `SchedulerQueues.__init__`
unfoldable pub init : ℕ → Dict QueueName ℕ → ℕ → Result QueueError SchedulerQueues
init max_queued per_queue_limits age_points_per_second = do
  raise_if (ltb max_queued 1) (value_error "max_queued must be a positive integer")
  raise_if (not (all (λ limit. leb 1 limit) (values per_queue_limits)))
      (value_error "per-queue limits must be positive integers")
  ok (record {
    max_queued = max_queued;
    per_queue_limits = per_queue_limits;
    age_points_per_second = age_points_per_second;
    items = [];
    by_queue = λ _. 0;
    next_sequence = 1;
  })

-- The second test of `ensure_capacity`, on the limit of the queue.
check_limit : SchedulerQueues → QueueName → Option ℕ → Result QueueError (Unit {0})
check_limit q queue none = ok tt
check_limit q queue (some limit) =
    raise_if (leb limit (q.by_queue queue)) (queue_full queue (q.by_queue queue) limit queue_scope)

unfoldable pub ensure_capacity : SchedulerQueues → QueueName → Result QueueError (Unit {0})
unfolding check_limit
ensure_capacity q queue = do
  raise_if (leb q.max_queued (length q.items))
      (queue_full queue (length q.items) q.max_queued global)
  check_limit q queue (lookup queue q.per_queue_limits)

-- `self._by_queue[queue] = n`
abbrev pub update : (QueueName → ℕ) → QueueName → ℕ → QueueName → ℕ
update f queue n other = if queue_beq other queue then n else f other

abbrev pub added : SchedulerQueues → QueueItem → SchedulerQueues
added q item = record q {
  items = insert item.job_id (record { item = item; sequence = q.next_sequence }) q.items;
  by_queue = update q.by_queue item.queue (q.by_queue item.queue + 1);
  next_sequence = q.next_sequence + 1;
}

unfoldable pub enqueue : SchedulerQueues → QueueItem → Result QueueError SchedulerQueues
enqueue q item = do
  raise_if (is_some (lookup item.job_id q.items)) (already_queued item.job_id)
  ensure_capacity q item.queue
  ok (added q item)

-- `_score`. The guard of the new PriorityFactors is on `user_priority`, which the item's own passed.
unfoldable pub score : SchedulerQueues → QueuedItem → ℕ → ℤ
score q queued now =
    let item = queued.item in
    let factors = item.factors in
    priority_score (record factors {
      queue_age_bonus =
          factors.queue_age_bonus + queue_age_bonus item.enqueued_at now q.age_points_per_second;
    })

-- The key of `pop_next`, (-score, queue order, enqueued_at, sequence, job_id), compared by `<=`. The
-- first components are compared with the sign taken off.
unfoldable pub pops_before : SchedulerQueues → ℕ → QueuedItem → QueuedItem → Bool
pops_before q now a b = lex_ℤ (score q b now) (score q a now) (
    lex (queue_order a.item.queue) (queue_order b.item.queue) (
      lex a.item.enqueued_at b.item.enqueued_at
        (lex a.sequence b.sequence (text_leb a.item.job_id b.item.job_id))))

-- `del self._items[id]; self._by_queue[queue] -= 1`. The count is positive when an item of the queue
-- is there, so that the subtraction is exact.
abbrev pub dropped : SchedulerQueues → QueuedItem → SchedulerQueues
dropped q queued = record q {
  items = delete queued.item.job_id q.items;
  by_queue = update q.by_queue queued.item.queue (q.by_queue queued.item.queue - 1);
}

unfoldable pub pop_next : SchedulerQueues → ℕ → Result QueueError (SchedulerQueues × QueueItem)
pop_next q now = elim (minimum (pops_before q now) (values q.items)) [
  | none ↦ err queues_empty
  | some selected ↦ ok (dropped q selected, selected.item)
]

-- `self._items.pop(job_id, None)`, then the count.
unfoldable pub remove : SchedulerQueues → Text → SchedulerQueues × Option QueueItem
remove q job_id = elim (lookup job_id q.items) [
  | none ↦ (q, none)
  | some queued ↦ (
    record q {
      items = delete job_id q.items;
      by_queue = update q.by_queue queued.item.queue (q.by_queue queued.item.queue - 1);
    },
    some queued.item,
  )
]

pub contains : SchedulerQueues → Text → Bool
contains q job_id = is_some (lookup job_id q.items)

-- `__len__`
unfoldable pub size : SchedulerQueues → ℕ
size q = length q.items

pub snapshot : SchedulerQueues → List QueueItem
snapshot q = map (λ queued. queued.item) (values q.items)
