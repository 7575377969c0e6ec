-- ===== src/Scheduler/Loop/Places.antt =====
-- When a job is in its place, and what moves it there.
use comfy_ui_ng.Prelude.{
  ℕ, ◌≡◌, ◌≢◌, refl, sym, ◌∙◌, ap, subst, true, false, Option, none, some, ok, Text, text_eq,
  is_some, key-cases, Bool-cases, inl, inr, ◌⊎◌,
}
use comfy_ui_ng.Prelude.Dict.{Dict, lookup, lookup-insert_ne}
use comfy_ui_ng.Jobs.Record.{queued}
use comfy_ui_ng.Jobs.Repository.{Repository}
use comfy_ui_ng.Scheduler.Queues.{SchedulerQueues, QueueItem, QueuedItem, enqueue}
use comfy_ui_ng.Scheduler.Queues.Invariant.{enqueue-IsConsistent, enqueue→HasRoom}
use comfy_ui_ng.Scheduler.Loop.{Services, Scheduler, Phase}
use comfy_ui_ng.Scheduler.Loop.Invariant.{
  status?, Placed, PlacedAt, IsHeld, IsSound, IsFree, IsQueued,
}

module _ {S : Services} where
  -- A job in no queue and without a task is in its place.
  pub free-Sound :
      {now : ℕ} (id : Text) (s : Scheduler S)
      → IsFree now id s.repository s.queues s.active
      → IsHeld s.broker s.active s.tokens s.reservations
      → lookup id s.active ≡ none
      → IsSound now s
  free-Sound {now} id s f h idle = record {
    linked = f.linked;
    timed = f.timed;
    consistent = f.consistent;
    places = λ j. elim (key-cases j id) [
      | inl p ↦ subst (PlacedAt s.repository s.queues s.active) (sym p) (rw (f.absent, idle) tt)
      | inr n ↦ f.others j n
    ];
    held = h;
  }

  -- A queued job without a task is in its place.
  pub queued-Sound :
      {now : ℕ} (id : Text) (s : Scheduler S)
      → IsQueued now id s.repository s.queues s.active
      → IsHeld s.broker s.active s.tokens s.reservations
      → lookup id s.active ≡ none
      → IsSound now s
  queued-Sound {now} id s f h idle = record {
    linked = f.linked;
    timed = f.timed;
    consistent = f.consistent;
    places = λ j. elim (key-cases j id) [
      | inl p ↦
          subst (PlacedAt s.repository s.queues s.active) (sym p)
            (here (Bool-cases (is_some (lookup id s.queues.items))))
      | inr n ↦ f.others j n
    ];
    held = h;
  }
    where
      here :
          (is_some (lookup id s.queues.items) ≡ true) ⊎ (is_some (lookup id s.queues.items) ≡ false)
          → PlacedAt s.repository s.queues s.active id
      here (inl p) = rw (p, idle) f.status
      here (inr p) = rw (p, idle) tt

  -- A task, at the place that the job's status allows.
  pub active-Sound :
      {now : ℕ} (id : Text) (s : Scheduler S) (phase : Phase S)
      → IsFree now id s.repository s.queues s.active
      → IsHeld s.broker s.active s.tokens s.reservations
      → lookup id s.active ≡ some phase
      → Placed (status? (lookup id s.repository.records)) false (some phase)
      → IsSound now s
  active-Sound {now} id s phase f h here p = record {
    linked = f.linked;
    timed = f.timed;
    consistent = f.consistent;
    places = λ j. elim (key-cases j id) [
      | inl q ↦ subst (PlacedAt s.repository s.queues s.active) (sym q) (rw (f.absent, here) p)
      | inr n ↦ f.others j n
    ];
    held = h;
  }

  -- A job with a task is in no queue.
  pub sound-IsFree :
      {now : ℕ} (id : Text) (s : Scheduler S) (phase : Phase S)
      → IsSound now s
      → lookup id s.active ≡ some phase
      → IsFree now id s.repository s.queues s.active
        × Placed (status? (lookup id s.repository.records)) false (some phase)
  sound-IsFree {now} id s phase h here =
      go (lookup id s.queues.items) refl (subst (Placed _ _) here (h.places id))
    where
      go :
          (item? : Option QueuedItem)
          → lookup id s.queues.items ≡ item?
          → Placed
              (status? (lookup id s.repository.records))
              (is_some (lookup id s.queues.items))
              (some phase)
          → IsFree now id s.repository s.queues s.active
            × Placed (status? (lookup id s.repository.records)) false (some phase)
      go (some item) e p = absurd (rw e at p)
      go none e p = (
        record {
          linked = h.linked;
          timed = h.timed;
          consistent = h.consistent;
          others = λ j n. h.places j;
          absent = e;
        },
        rw e at p,
      )

  -- Changing the task of a job leaves the job free.
  pub active-IsFree :
      {now : ℕ} (id : Text) (repo : Repository S.broker.Estimate) (q : SchedulerQueues)
      (active active' : Dict Text (Phase S))
      → ((j : Text) → j ≢ id → lookup j active' ≡ lookup j active)
      → IsFree now id repo q active
      → IsFree now id repo q active'
  active-IsFree {now} id repo q active active' same f = record {
    linked = f.linked;
    timed = f.timed;
    consistent = f.consistent;
    others = λ j n.
        subst (Placed (status? (lookup j repo.records)) (is_some (lookup j q.items)))
          (sym (same j n)) (f.others j n);
    absent = f.absent;
  }

  pub active-IsQueued :
      {now : ℕ} (id : Text) (repo : Repository S.broker.Estimate) (q : SchedulerQueues)
      (active active' : Dict Text (Phase S))
      → ((j : Text) → j ≢ id → lookup j active' ≡ lookup j active)
      → IsQueued now id repo q active
      → IsQueued now id repo q active'
  active-IsQueued {now} id repo q active active' same f = record {
    linked = f.linked;
    timed = f.timed;
    consistent = f.consistent;
    others = λ j n.
        subst (Placed (status? (lookup j repo.records)) (is_some (lookup j q.items)))
          (sym (same j n)) (f.others j n);
    status = f.status;
  }

  -- The queues with the items of the other jobs unchanged.
  pub queues-others :
      (id : Text) (repo : Repository S.broker.Estimate) (q q' : SchedulerQueues)
      (active : Dict Text (Phase S))
      → ((j : Text) → j ≢ id → lookup j q'.items ≡ lookup j q.items)
      → ((j : Text) → j ≢ id → PlacedAt repo q active j)
      → (j : Text) → j ≢ id
      → PlacedAt repo q' active j
  queues-others id repo q q' active same p j n =
      subst (λ item?. Placed (status? (lookup j repo.records)) (is_some item?) (lookup j active))
        (sym (same j n)) (p j n)

  -- Enqueueing a free job that is queued.
  pub enqueue-IsQueued :
      {now : ℕ} (id : Text) (repo : Repository S.broker.Estimate) (q q' : SchedulerQueues)
      (active : Dict Text (Phase S)) (item : QueueItem)
      → item.job_id ≡ id
      → IsFree now id repo q active
      → status? (lookup id repo.records) ≡ some queued
      → enqueue q item ≡ ok q'
      → IsQueued now id repo q' active
  enqueue-IsQueued {now} id repo q q' active item named f status e = record {
    linked = f.linked;
    timed = f.timed;
    consistent = enqueue-IsConsistent q q' item f.consistent e;
    others =
        queues-others id repo q q' active
          (λ j n.
            ap (λ x. lookup j x.items) (enqueue→HasRoom q q' item e).1
            ∙ lookup-insert_ne item.job_id j _ q.items (λ p. n (p ∙ named)))
          f.others;
    status = status;
  }
