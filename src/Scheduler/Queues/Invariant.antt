-- ===== src/Scheduler/Queues/Invariant.antt =====
-- What holds of the queues between two calls.
use comfy_ui_ng.Prelude.{
  ℕ, ◌+◌, ◌-◌, ◌≤◌, ◌<◌, ◌≡◌, refl, sym, subst, [], ◌∷◌, none, some, ok, arith, Text, text_eq,
  length, ◌≢◌, ◌∙◌, ap, is_some, true, All, All-mono, All-append, if◌then◌else◌, inl, inr, ◌==◌,
  Option-cases, ◌++◌,
}
use comfy_ui_ng.Prelude.Dict.{
  Dict, lookup, delete, values, UniqueKeys, Absent-of_lookup, insert_of_Absent, insert-UniqueKeys,
  delete-UniqueKeys, delete-All, insert-All_of_Absent, length-insert_of_Absent, length-delete,
  lookup_of_value, lookup-delete_ne, lookup_of_Absent, delete-Absent,
}
use comfy_ui_ng.Prelude.Sort.{minimum, minimum-mem}
use comfy_ui_ng.Scheduler.Queues.{
  QueueName, queue_order, queue_eq, QueueItem, QueuedItem, SchedulerQueues, init, ensure_capacity,
  added, dropped, update, enqueue, pops_before, pop_next, remove, size,
}

abbrev pub Items : Type 0
Items = Dict Text QueuedItem

-- How many items of the dictionary are in the queue.
pub count : QueueName → Items → ℕ
count n [] = 0
count n ((k, v) ∷ d) = (if queue_order v.item.queue == queue_order n then 1 else 0) + count n d

-- The items stand in the order of their sequence numbers.
abbrev pub InSequence : Items → Type 0
InSequence [] = Unit
InSequence ((k, v) ∷ d) = All (λ p. v.sequence < p.1.sequence) d × InSequence d

pub record IsConsistent (q : SchedulerQueues) : Type 0 where
  pub unique : UniqueKeys q.items
  pub keyed : All (λ p. p.1.item.job_id ≡ p.0) q.items
  pub counted : (n : QueueName) → q.by_queue n ≡ count n q.items
  pub capped : length q.items ≤ q.max_queued
  pub limited :
      (n : QueueName) (limit : ℕ) → lookup n q.per_queue_limits ≡ some limit → q.by_queue n ≤ limit
  pub numbered : All (λ p. p.1.sequence < q.next_sequence) q.items
  pub in_sequence : InSequence q.items

-- New queues are consistent.
pub init-IsConsistent :
    (max_queued rate : ℕ) (limits : Dict QueueName ℕ) (q : SchedulerQueues)
    → init max_queued limits rate ≡ ok q
    → IsConsistent q
unfolding init count
init-IsConsistent max_queued rate limits q h = ground arith

pub init-items :
    (max_queued rate : ℕ) (limits : Dict QueueName ℕ) (q : SchedulerQueues)
    → init max_queued limits rate ≡ ok q
    → q.items ≡ []
unfolding init
init-items max_queued rate limits q h = ground arith

count-append :
    (n : QueueName) (k : Text) (v : QueuedItem) (d : Items)
    → count n (d ++ (k, v) ∷ [])
      ≡ count n d + (if queue_order v.item.queue == queue_order n then 1 else 0)
unfolding count
count-append n k v [] = omega arith
count-append n k v ((j, w) ∷ d) = omega (arith, count-append n k v d)

count-delete :
    (n : QueueName) (k : Text) (v : QueuedItem) (d : Items)
    → lookup k d ≡ some v
    → count n (delete k d) + (if queue_order v.item.queue == queue_order n then 1 else 0)
      ≡ count n d
unfolding count lookup delete
count-delete n k v [] h = cc
count-delete n k v ((j, w) ∷ d) h = ground (arith, count-delete n k v d)

InSequence-append :
    (k : Text) (v : QueuedItem) (d : Items)
    → InSequence d
    → All (λ p. p.1.sequence < v.sequence) d
    → InSequence (d ++ (k, v) ∷ [])
InSequence-append k v [] h l = (tt, tt)
InSequence-append k v ((j, w) ∷ d) h l = (
  All-append (λ p. w.sequence < p.1.sequence) d ((k, v) ∷ []) h.0 (l.0, tt),
  InSequence-append k v d h.1 l.1,
)

InSequence-delete : (k : Text) (d : Items) → InSequence d → InSequence (delete k d)
unfolding delete
InSequence-delete k [] h = tt
InSequence-delete k ((j, w) ∷ d) h =
    ground (arith, InSequence-delete k d h.1, delete-All (λ p. w.sequence < p.1.sequence) k d h.0)

-- The guards that let an item in.
pub record HasRoom (q : SchedulerQueues) (item : QueueItem) : Type 0 where
  pub absent : lookup item.job_id q.items ≡ none
  pub total : length q.items < q.max_queued
  pub of_queue :
      (limit : ℕ)
      → lookup item.queue q.per_queue_limits ≡ some limit
      → q.by_queue item.queue < limit

pub enqueue→HasRoom :
    (q q' : SchedulerQueues) (item : QueueItem)
    → enqueue q item ≡ ok q'
    → HasRoom q item × (q' ≡ added q item)
unfolding enqueue ensure_capacity
enqueue→HasRoom q q' item h = ground arith

added-IsConsistent :
    (q : SchedulerQueues) (item : QueueItem)
    → IsConsistent q
    → HasRoom q item
    → IsConsistent (added q item)
added-IsConsistent q item c r =
    let v : QueuedItem = record { item = item; sequence = q.next_sequence } in
    let absent = Absent-of_lookup item.job_id q.items r.absent in
    let placed = insert_of_Absent item.job_id v q.items absent in
    record {
      unique = insert-UniqueKeys item.job_id v q.items c.unique;
      keyed =
          insert-All_of_Absent (λ p. p.1.item.job_id ≡ p.0) item.job_id v q.items absent c.keyed
            refl;
      counted = λ n.
          rw placed (
            ground
              (arith, count-append n item.job_id v q.items, c.counted n, c.counted item.queue));
      capped = omega (arith, r.total, length-insert_of_Absent item.job_id v q.items absent);
      limited = λ n limit e.
          ground (arith, c.limited n limit e, r.of_queue limit, queue_eq.beq-iff_eq n item.queue);
      numbered =
          insert-All_of_Absent (λ p. p.1.sequence < q.next_sequence + 1) item.job_id v q.items
            absent
            (All-mono (λ p. p.1.sequence < q.next_sequence)
              (λ p. p.1.sequence < q.next_sequence + 1) (λ p h. omega arith) q.items c.numbered)
            (omega arith);
      in_sequence = rw placed (InSequence-append item.job_id v q.items c.in_sequence c.numbered);
    }

-- An accepted item leaves the queues consistent.
pub enqueue-IsConsistent :
    (q q' : SchedulerQueues) (item : QueueItem)
    → IsConsistent q
    → enqueue q item ≡ ok q'
    → IsConsistent q'
enqueue-IsConsistent q q' item c h =
    let (room, e) = enqueue→HasRoom q q' item h in
    subst IsConsistent (sym e) (added-IsConsistent q item c room)

-- The state after the item under a key is taken out.
abbrev taken : SchedulerQueues → Text → QueuedItem → SchedulerQueues
taken q k v = record q {
  items = delete k q.items;
  by_queue = update q.by_queue v.item.queue (q.by_queue v.item.queue - 1);
}

taken-IsConsistent :
    (q : SchedulerQueues) (k : Text) (v : QueuedItem)
    → IsConsistent q
    → lookup k q.items ≡ some v
    → IsConsistent (taken q k v)
taken-IsConsistent q k v c found = record {
  unique = delete-UniqueKeys k q.items c.unique;
  keyed = delete-All (λ p. p.1.item.job_id ≡ p.0) k q.items c.keyed;
  counted = λ n. ground (
    arith,
    count-delete n k v q.items found,
    c.counted n,
    c.counted v.item.queue,
    queue_eq.beq-iff_eq n v.item.queue,
  );
  capped = omega (arith, c.capped, length-delete k q.items v found);
  limited = λ n limit e. ground (arith, c.limited n limit e, c.limited v.item.queue limit);
  numbered = delete-All (λ p. p.1.sequence < q.next_sequence) k q.items c.numbered;
  in_sequence = InSequence-delete k q.items c.in_sequence;
}

-- What a successful `pop_next` selects stands under its own id.
pub selected-found :
    (q : SchedulerQueues) (now : ℕ) (v : QueuedItem)
    → IsConsistent q
    → minimum (pops_before q now) (values q.items) ≡ some v
    → lookup v.item.job_id q.items ≡ some v
selected-found q now v c h =
    lookup_of_value (λ w. w.item.job_id) v q.items c.unique c.keyed
      (minimum-mem (pops_before q now) (values q.items) v h)

-- The item that a successful `pop_next` selects.
pub pop_next→selected :
    (q q' : SchedulerQueues) (now : ℕ) (item : QueueItem)
    → pop_next q now ≡ ok (q', item)
    → (v : QueuedItem) × (minimum (pops_before q now) (values q.items) ≡ some v)
      × (q' ≡ dropped q v)
      × (item ≡ v.item)
unfolding pop_next
pop_next→selected q q' now item h = ground arith

-- Taking the next item leaves the queues consistent.
pub pop_next-IsConsistent :
    (q q' : SchedulerQueues) (now : ℕ) (item : QueueItem)
    → IsConsistent q
    → pop_next q now ≡ ok (q', item)
    → IsConsistent q'
pop_next-IsConsistent q q' now item c h =
    let (v, m, e, _) = pop_next→selected q q' now item h in
    subst IsConsistent (sym e) (taken-IsConsistent q v.item.job_id v c (selected-found q now v c m))

-- Taking a job out by its id leaves the queues consistent, also when it is not there.
pub remove-IsConsistent :
    (q : SchedulerQueues) (job_id : Text) → IsConsistent q → IsConsistent (remove q job_id).0
unfolding remove
remove-IsConsistent q job_id c = elim (Option-cases (lookup job_id q.items)) [
  | inl e ↦ rw (e, remove) c
  | inr (v, e) ↦ rw (e, remove) (taken-IsConsistent q job_id v c e)
]

-- Taking a job out leaves the items of the others, and none of its own.
pub remove-items :
    (job_id j : Text) (q : SchedulerQueues)
    → IsConsistent q
    → j ≢ job_id
    → lookup j (remove q job_id).0.items ≡ lookup j q.items
unfolding remove
remove-items job_id j q c n = elim (Option-cases (lookup job_id q.items)) [
  | inl e ↦ rw (e, remove) refl
  | inr (v, e) ↦ rw (e, remove) (lookup-delete_ne job_id j q.items c.unique n)
]

pub remove-absent :
    (job_id : Text) (q : SchedulerQueues)
    → IsConsistent q
    → lookup job_id (remove q job_id).0.items ≡ none
unfolding remove
remove-absent job_id q c = elim (Option-cases (lookup job_id q.items)) [
  | inl e ↦ rw (e, remove) e
  | inr (v, e) ↦
      rw (e, remove)
        (lookup_of_Absent job_id (delete job_id q.items) (delete-Absent job_id q.items c.unique))
]

-- The next item is of one job, which has no other, and those of the others stay.
pub pop_next-items :
    (j : Text) (q q' : SchedulerQueues) (now : ℕ) (item : QueueItem)
    → IsConsistent q
    → pop_next q now ≡ ok (q', item)
    → j ≢ item.job_id
    → lookup j q'.items ≡ lookup j q.items
pop_next-items j q q' now item c h n =
    let (v, m, e, e') = pop_next→selected q q' now item h in
    ap (λ x. lookup j x.items) e
    ∙ lookup-delete_ne v.item.job_id j q.items c.unique (λ p. n (p ∙ ap (λ i. i.job_id) (sym e')))

pub pop_next-absent :
    (q q' : SchedulerQueues) (now : ℕ) (item : QueueItem)
    → IsConsistent q
    → pop_next q now ≡ ok (q', item)
    → (lookup item.job_id q'.items ≡ none)
      × (is_some (lookup item.job_id q.items) ≡ true)
      × (length q'.items + 1 ≡ length q.items)
pop_next-absent q q' now item c h =
    let (v, m, e, e') = pop_next→selected q q' now item h in
    let found = selected-found q now v c m in
    (
      ap (λ x. lookup item.job_id x.items) e
          ∙ subst (λ i. lookup i.job_id (delete v.item.job_id q.items) ≡ none) (sym e')
              (lookup_of_Absent v.item.job_id (delete v.item.job_id q.items)
                (delete-Absent v.item.job_id q.items c.unique)),
      subst (λ i. is_some (lookup i.job_id q.items) ≡ true) (sym e') (ap is_some found),
      ap (λ x. length x.items + 1) e ∙ length-delete v.item.job_id q.items v found,
    )

pub pop_next-size :
    (q q' : SchedulerQueues) → length q'.items + 1 ≡ length q.items → size q' + 1 ≡ size q
unfolding size
pop_next-size q q' e = e
