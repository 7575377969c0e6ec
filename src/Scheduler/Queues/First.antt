-- ===== src/Scheduler/Queues/First.antt =====
-- Which item `pop_next` takes, in terms of its points.
use comfy_ui_ng.Prelude.{
  ℕ, ◌+◌, ◌-◌, ◌≤◌, ◌<◌, ◌≡◌, Bool, true, some, ok, arith, text_eq, text_leb, All, All-mono, ◌*◌,
  ltb, Bool-cases, ◌⊎◌, inl, inr,
}
use comfy_ui_ng.Prelude.Dict.{values, lookup}
use comfy_ui_ng.Prelude.Int.{pos_part, neg_part, sub_ℕ_parts}
use comfy_ui_ng.Prelude.Sort.{lex, lex_ℤ}
use comfy_ui_ng.Scheduler.Priority.{priority_score, queue_age_bonus}
use comfy_ui_ng.Scheduler.Queues.{
  queue_order, QueueItem, QueuedItem, SchedulerQueues, score, pops_before, pop_next,
}
use comfy_ui_ng.Scheduler.Queues.Invariant.{IsConsistent}
use comfy_ui_ng.Scheduler.Queues.Order.{tie, pop_next-minimum}

-- What speaks for an item, the age points of its wait included, and what speaks against it.
abbrev pub gains : SchedulerQueues → (now : ℕ) → QueuedItem → ℕ
gains q now v =
    let f = v.item.factors in
    f.user_priority
    + f.queue_age_bonus
    + (now - v.item.enqueued_at) * q.age_points_per_second
    + f.warm_model_bonus
    + f.cache_reuse_bonus

abbrev pub losses : QueuedItem → ℕ
losses v = v.item.factors.memory_pressure_penalty + v.item.factors.estimated_duration_penalty

-- The first number is smaller, or they are equal and the rest decides.
abbrev pub Lex : ℕ → ℕ → Type 0 → Type 0
Lex a b rest = (a < b) ⊎ ((a ≡ b) × rest)

-- The first item has more points than the second. With equal points its queue is an earlier one, in
-- the same queue it entered earlier, and of items that entered together it was enqueued no later.
abbrev pub GoesFirst : SchedulerQueues → (now : ℕ) → QueuedItem → QueuedItem → Type 0
GoesFirst q now v w = Lex (gains q now w + losses v) (gains q now v + losses w) (
    Lex (queue_order v.item.queue) (queue_order w.item.queue)
      (Lex v.item.enqueued_at w.item.enqueued_at (v.sequence ≤ w.sequence)))

Lex_of_lex :
    (a b : ℕ) (r : Bool) (rest : Type 0) → (r ≡ true → rest) → lex a b r ≡ true → Lex a b rest
Lex_of_lex a b r rest f h = elim (Bool-cases (ltb a b)) [
  | inl p ↦ inl (ground (arith, p))
  | inr p ↦ inr (ground (arith, p, h), f (ground (arith, p, h)))
]

score_parts :
    (q : SchedulerQueues) (now : ℕ) (v : QueuedItem)
    → pos_part (score q v now) + losses v ≡ neg_part (score q v now) + gains q now v
unfolding score priority_score queue_age_bonus
score_parts q now v =
    let f = v.item.factors in
    let age = (now - v.item.enqueued_at) * q.age_points_per_second in
    omega (
      arith,
      sub_ℕ_parts
          (f.user_priority + (f.queue_age_bonus + age) + f.warm_model_bonus + f.cache_reuse_bonus)
          (losses v),
    )

-- The order of the scores is that of the points.
lex_ℤ_points :
    (q : SchedulerQueues) (now : ℕ) (v w : QueuedItem) (r : Bool)
    → lex_ℤ (score q w now) (score q v now) r ≡ true
    → lex (gains q now w + losses v) (gains q now v + losses w) r ≡ true
lex_ℤ_points q now v w r h = ground (arith, score_parts q now v, score_parts q now w)

pops_before-GoesFirst :
    (q : SchedulerQueues) (now : ℕ) (v w : QueuedItem)
    → pops_before q now v w ≡ true
    → GoesFirst q now v w
unfolding pops_before
pops_before-GoesFirst q now v w h =
    Lex_of_lex _ _ _ _
      (Lex_of_lex _ _ _ _ (
        Lex_of_lex _ _ (lex v.sequence w.sequence (text_leb v.item.job_id w.item.job_id)) _
          (λ e. ground (arith, e))))
      (lex_ℤ_points q now v w (tie v w) h)

-- On consistent queues the item that `pop_next` returns was queued, and no queued item has more
-- points: its priority, its bonuses and the points for its wait, less its penalties. Of those with as
-- many, none is in an earlier queue; of those in its queue, none entered earlier; of those that
-- entered together, none was enqueued earlier.
pub pop_next_first :
    (q q' : SchedulerQueues) (now : ℕ) (item : QueueItem)
    → IsConsistent q
    → pop_next q now ≡ ok (q', item)
    → (v : QueuedItem) × (v.item ≡ item)
      × (lookup item.job_id q.items ≡ some v)
      × All (GoesFirst q now v) (values q.items)
pop_next_first q q' now item c h =
    let (v, same, place, least) = pop_next-minimum q q' now item c h in
    (
      v,
      same,
      place,
      All-mono (λ w. pops_before q now v w ≡ true) (GoesFirst q now v)
          (pops_before-GoesFirst q now v) (values q.items) least,
    )
