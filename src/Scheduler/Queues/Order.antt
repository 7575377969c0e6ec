-- ===== src/Scheduler/Queues/Order.antt =====
-- `pop_next` takes the item with the least key, so it never overtakes.
use comfy_ui_ng.Prelude.{
  ℕ, ◌+◌, ◌-◌, ◌≤◌, ◌<◌, ◌≡◌, sym, ap, subst, ◌∙◌, Bool, true, false, [], ◌∷◌, some, ok, arith,
  Text, text_eq, text_leb, text_leb_total, text_leb_trans, text_leb_refl, All, length, Option-cases,
  inl, inr,
}
use comfy_ui_ng.Prelude.Dict.{values, lookup, length-delete, lookup-value_All}
use comfy_ui_ng.Prelude.Int.{ℤ, ltb_ℤ, sub_ℕ_parts}
use comfy_ui_ng.Prelude.Sort.{
  IsOrder, lex, lex_total, lex_trans, lex_ℤ, lex_ℤ_total, lex_ℤ_trans, minimum, minimum-le,
  minimum-nonempty,
}
use native.Mathlib.Decide.{dec_le}
use comfy_ui_ng.Scheduler.Priority.{priority_score, queue_age_bonus}
use comfy_ui_ng.Scheduler.Queues.{
  queue_order, QueueItem, QueuedItem, SchedulerQueues, score, pops_before, pop_next, dropped, size,
}
use comfy_ui_ng.Scheduler.Queues.Invariant.{Items, IsConsistent, pop_next→selected, selected-found}

-- The key of an item after the score.
abbrev pub tie : QueuedItem → QueuedItem → Bool
tie a b = lex (queue_order a.item.queue) (queue_order b.item.queue) (
    lex a.item.enqueued_at b.item.enqueued_at
      (lex a.sequence b.sequence (text_leb a.item.job_id b.item.job_id)))

tie_total : (a b : QueuedItem) → tie a b ≡ false → tie b a ≡ true
tie_total a b = lex_total (queue_order a.item.queue) (queue_order b.item.queue) _ _ (
    lex_total a.item.enqueued_at b.item.enqueued_at _ _
      (lex_total a.sequence b.sequence _ _ (text_leb_total a.item.job_id b.item.job_id)))

tie_trans : (a b c : QueuedItem) → tie a b ≡ true → tie b c ≡ true → tie a c ≡ true
tie_trans a b c =
    lex_trans (queue_order a.item.queue) (queue_order b.item.queue) (queue_order c.item.queue) _ _ _
      (lex_trans a.item.enqueued_at b.item.enqueued_at c.item.enqueued_at _ _ _ (
        lex_trans a.sequence b.sequence c.sequence _ _ _
          (text_leb_trans a.item.job_id b.item.job_id c.item.job_id)))

pops_before-IsOrder : (q : SchedulerQueues) (now : ℕ) → IsOrder (pops_before q now)
unfolding pops_before
pops_before-IsOrder q now = record {
  total = λ a b. lex_ℤ_total (score q b now) (score q a now) (tie a b) (tie b a) (tie_total a b);
  trans = λ a b c h k.
      lex_ℤ_trans (score q c now) (score q b now) (score q a now) (tie b c) (tie a b) (tie a c)
        (λ x y. tie_trans a b c y x) k h;
}

pops_before_refl : (q : SchedulerQueues) (now : ℕ) (a : QueuedItem) → pops_before q now a a ≡ true
unfolding pops_before
pops_before_refl q now a = ground (arith, text_leb_refl a.item.job_id)

-- The item that `pop_next` returns was queued, and its key is the least.
pub pop_next-minimum :
    (q q' : SchedulerQueues) (now : ℕ) (item : QueueItem)
    → IsConsistent q
    → pop_next q now ≡ ok (q', item)
    → (v : QueuedItem) × (v.item ≡ item)
      × (lookup item.job_id q.items ≡ some v)
      × All (λ w. pops_before q now v w ≡ true) (values q.items)
pop_next-minimum q q' now item c h =
    let (v, m, _, e) = pop_next→selected q q' now item h in
    (
      v,
      sym e,
      subst (λ i. lookup i.job_id q.items ≡ some v) (sym e) (selected-found q now v c m),
      minimum-le (pops_before q now) (pops_before-IsOrder q now) (pops_before_refl q now)
          (values q.items) v m,
    )

-- From queues that are not empty an item is always taken, and one item fewer is left.
pop_next_ok :
    (q : SchedulerQueues) (now : ℕ)
    → IsConsistent q
    → 0 < size q
    → (q' : SchedulerQueues) × (item : QueueItem) × (pop_next q now ≡ ok (q', item))
      × (size q' + 1 ≡ size q)
unfolding pop_next size
pop_next_ok q now c h = elim (Option-cases (minimum (pops_before q now) (values q.items))) [
  | inl e ↦ absurd (values_nonempty q.items h (minimum-nonempty _ _ e))
  | inr (v, e) ↦ (
    dropped q v,
    v.item,
    rw (e, pop_next),
    length-delete v.item.job_id q.items v (selected-found q now v c e),
  )
]
  where
    values_nonempty : (d : Items) → 0 < length d → values d ≡ [] → ⊥
    values_nonempty [] p e = omega arith
    values_nonempty ((k, v) ∷ d) p e = cc

aged :
    (enqueued enqueued' now rate : ℕ)
    → enqueued ≤ enqueued'
    → queue_age_bonus enqueued' now rate ≤ queue_age_bonus enqueued now rate
unfolding queue_age_bonus
aged enqueued enqueued' now rate h =
    let earlier : now - enqueued' ≤ now - enqueued = omega arith in grind arith

-- With the same factors the item that entered earlier has at least the other's score.
older_scores :
    (q : SchedulerQueues) (now : ℕ) (a b : QueuedItem)
    → a.item.factors ≡ b.item.factors
    → a.item.enqueued_at ≤ b.item.enqueued_at
    → ltb_ℤ (score q a now) (score q b now) ≡ false
unfolding score priority_score
older_scores q now a b f h =
    let f' = b.item.factors in
    let age = λ (v : QueuedItem). queue_age_bonus v.item.enqueued_at now q.age_points_per_second in
    let gain = λ (n : ℕ).
      f'.user_priority + (f'.queue_age_bonus + n) + f'.warm_model_bonus + f'.cache_reuse_bonus in
    let loss = f'.memory_pressure_penalty + f'.estimated_duration_penalty in
    rw f (
      ground (
        arith,
        sub_ℕ_parts (gain (age a)) loss,
        sub_ℕ_parts (gain (age b)) loss,
        aged a.item.enqueued_at b.item.enqueued_at now q.age_points_per_second,
      ))

tie_fair :
    (v w : QueuedItem)
    → v.item.queue ≡ w.item.queue
    → tie v w ≡ true
    → (v.item.enqueued_at ≤ w.item.enqueued_at)
      × (v.item.enqueued_at ≡ w.item.enqueued_at → v.sequence ≤ w.sequence)
tie_fair v w n h = ground (arith, ap queue_order n)

lex_ℤ_rest : (a b : ℤ) (r : Bool) → ltb_ℤ a b ≡ false → lex_ℤ a b r ≡ true → r ≡ true
lex_ℤ_rest a b r h k = ground arith

fair :
    (q : SchedulerQueues) (now : ℕ) (v w : QueuedItem)
    → w.item.factors ≡ v.item.factors
    → v.item.queue ≡ w.item.queue
    → pops_before q now v w ≡ true
    → (v.item.enqueued_at ≤ w.item.enqueued_at)
      × (v.item.enqueued_at ≡ w.item.enqueued_at → v.sequence ≤ w.sequence)
unfolding pops_before
fair q now v w f n h = elim (dec_le w.item.enqueued_at v.item.enqueued_at) [
  | yes p ↦
      tie_fair v w n
        (lex_ℤ_rest (score q w now) (score q v now) (tie v w) (older_scores q now w v f p) h)
  | no p ↦ (omega arith, λ e. omega arith)
]

-- No overtaking: of the queued items with the same factors in the same queue, `pop_next` takes one
-- that entered first, and of those that entered together the one enqueued first.
pub pop_next_fair :
    (q q' : SchedulerQueues) (now : ℕ) (item : QueueItem) (j : Text) (w : QueuedItem)
    → IsConsistent q
    → pop_next q now ≡ ok (q', item)
    → lookup j q.items ≡ some w
    → w.item.factors ≡ item.factors
    → w.item.queue ≡ item.queue
    → (v : QueuedItem) × (v.item ≡ item)
      × (lookup item.job_id q.items ≡ some v)
      × (v.item.enqueued_at ≤ w.item.enqueued_at)
      × (v.item.enqueued_at ≡ w.item.enqueued_at → v.sequence ≤ w.sequence)
pop_next_fair q q' now item j w c h found f n =
    let (v, same, place, all_after) = pop_next-minimum q q' now item c h in
    let after = lookup-value_All (λ u. pops_before q now v u ≡ true) j w q.items all_after found in
    let (first, then_sequence) =
      fair q now v w (f ∙ sym (ap (λ i. i.factors) same)) (ap (λ i. i.queue) same ∙ sym n) after in
    (v, same, place, first, then_sequence)
