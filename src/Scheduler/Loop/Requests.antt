-- ===== src/Scheduler/Loop/Requests.antt =====
-- `submit` and the manual `retry`, and the scheduler's soundness.
use comfy_ui_ng.Prelude.{
  ℕ, ◌≡◌, ◌≢◌, refl, sym, ◌∙◌, ap, subst, Bool, true, false, Option, none, some, Result, ok, err,
  Text, text_eq, inl, inr, is_some, arith,
}
use comfy_ui_ng.Prelude.Dict.{lookup}
use comfy_ui_ng.Json.{null}
use comfy_ui_ng.Jobs.Record.{JobStatus, queued, failed, JobError, JobSubmission}
use comfy_ui_ng.Jobs.Repository.{Repository, create, get, creation, step}
use comfy_ui_ng.Jobs.Repository.Isolation.{step_error_unchanged, create_returns}
use comfy_ui_ng.Scheduler.Queues.{QueueName, QueueError, QueuedItem, ensure_capacity}
use comfy_ui_ng.Scheduler.Loop.{Services, Scheduler, Job, Phase, starting, dispatching, sleeping}
use comfy_ui_ng.Scheduler.Loop.Monad.{M, Outcome, continue, queue_of, ensure_room, room_as}
use comfy_ui_ng.Scheduler.Loop.Submit.{
  replied, create_job, retry_job, submit, retry_manually, ensure_room_for, requeue,
}
use comfy_ui_ng.Scheduler.Loop.Invariant.{status?, Placed, PlacedAt, IsBusy, IsSound, IsFree}
use comfy_ui_ng.Scheduler.Loop.Moves.{Ensures, retry-then, step-IsFree}
use comfy_ui_ng.Scheduler.Loop.Places.{free-Sound, queued-Sound}
use comfy_ui_ng.Scheduler.Loop.Queueing.{queue_of-then, enqueue_record-then, requeue-then, nested}

-- A job that has neither a record nor a working status is neither in a queue nor at work.
abbrev pub IsIdle : Option JobStatus → Type 0
IsIdle status = (status ≢ some queued) × (IsBusy status → ⊥)

failed-IsIdle : IsIdle (some failed)
failed-IsIdle = (
  λ q. absurd (ground arith),
  λ b. elim b [ inl q ↦ absurd (ground arith) | inr q ↦ absurd (ground arith) ],
)

none-IsIdle : IsIdle none
none-IsIdle = (λ q. absurd (cc), λ b. elim b [ inl q ↦ absurd (cc) | inr q ↦ absurd (cc) ])

module _ {S : Services} where
  abbrev pub Stays : {A : Type 0} → ℕ → Outcome S A → Type 0
  Stays now o = Ensures (λ _ s. IsSound now s) (IsSound now) o

  -- From the status of a job: no task, and in no queue.
  pub queued-no_task :
      {now : ℕ} (id : Text) (s : Scheduler S)
      → IsSound now s
      → status? (lookup id s.repository.records) ≡ some queued
      → lookup id s.active ≡ none
  queued-no_task {now} id s h q =
      go _ (is_some (lookup id s.queues.items)) (lookup id s.active) q (h.places id)
    where
      go :
          (status : Option JobStatus) (b : Bool) (p? : Option (Phase S))
          → status ≡ some queued
          → Placed status b p?
          → p? ≡ none
      go status b none q p = refl
      go status true (some phase) q p = absurd p
      go status false (some starting) q p = absurd (ground arith)
      go status false (some (dispatching r)) q p = absurd (ground arith)
      go status false (some (sleeping r e)) q p = absurd (ground arith)

  idle-unplaced :
      {now : ℕ} (id : Text) (s : Scheduler S)
      → IsSound now s
      → IsIdle (status? (lookup id s.repository.records))
      → IsFree now id s.repository s.queues s.active × (lookup id s.active ≡ none)
  idle-unplaced {now} id s h idle =
      go (lookup id s.queues.items) (lookup id s.active) refl refl (h.places id)
    where
      freed : lookup id s.queues.items ≡ none → IsFree now id s.repository s.queues s.active
      freed p = record {
        linked = h.linked;
        timed = h.timed;
        consistent = h.consistent;
        others = λ j n. h.places j;
        absent = p;
      }

      go :
          (item? : Option QueuedItem) (p? : Option (Phase S))
          → lookup id s.queues.items ≡ item?
          → lookup id s.active ≡ p?
          → PlacedAt s.repository s.queues s.active id
          → IsFree now id s.repository s.queues s.active × (lookup id s.active ≡ none)
      go none none e e' p = (freed e, e')
      go (some item) none e e' p = absurd (idle.0 (rw (e, e') at p))
      go (some item) (some phase) e e' p = absurd (rw (e, e') at p)
      go none (some starting) e e' p = absurd (idle.1 (inl (rw (e, e') at p)))
      go none (some (dispatching r)) e e' p = absurd (idle.1 (inr (rw (e, e') at p)))
      go none (some (sleeping r x)) e e' p = absurd (idle.1 (rw (e, e') at p))

  ensure_room-then :
      {B : Type 0} (Q : B → Scheduler S → Type 0) (E : Scheduler S → Type 0) (k : Unit {0} → M S B)
      (queue : QueueName) (s : Scheduler S)
      → Ensures Q E (k tt s)
      → E s
      → Ensures Q E (continue (ensure_room queue s) k)
  unfolding ensure_room
  ensure_room-then Q E k queue s returns raises = go (ensure_capacity s.queues queue)
    where
      go : (room : Result QueueError (Unit {0})) → Ensures Q E (continue (room_as room s) k)
      go (err e) = raises
      go (ok u) = returns

  create-then :
      {B : Type 0} (Q : B → Scheduler S → Type 0) (E : Scheduler S → Type 0) (k : Job S → M S B)
      (submission : JobSubmission S.broker.Estimate) (now : ℕ) (s : Scheduler S)
      → IsSound now s
      → ((repo : Repository S.broker.Estimate) (r : Job S)
          → IsFree now r.job_id repo s.queues s.active
          → status? (lookup r.job_id repo.records) ≡ some queued
          → lookup r.job_id s.active ≡ none
          → Ensures Q E (k r (record s { repository = repo })))
      → E s
      → Ensures Q E (continue (create_job submission now s) k)
  unfolding create_job step
  create-then Q E k submission now s h returns raises = go (create s.repository submission now) refl
    where
      new : Text
      new = submission.job_id

      go :
          (m : Repository S.broker.Estimate × Result JobError (Job S))
          → create s.repository submission now ≡ m
          → Ensures Q E (continue (replied m s) k)
      go (repo, err x) e =
          let same =
            step_error_unchanged s.repository (creation submission now) x h.linked
              (ap (λ p. p.1) e) in
          subst (λ repo. E (record s { repository = repo })) (sym same ∙ ap (λ p. p.0) e) raises
      go (repo, ok r) e =
          let (fresh, named, status, _, found) =
            create_returns s.repository submission now r (ap (λ p. p.1) e) in
          let (free, no_task) =
            idle-unplaced new s h (subst (λ o. IsIdle (status? o)) (sym fresh) none-IsIdle) in
          let free' =
            step-IsFree new (creation submission now) s.repository s.queues s.active refl refl
              free in
          let free_now = subst (λ p. IsFree now new p.0 s.queues s.active) e free' in
          let here : lookup new repo.records ≡ some r =
            ap (λ p. lookup new p.0.records) (sym e) ∙ found in
          returns repo r (subst (λ i. IsFree now i repo s.queues s.active) (sym named) free_now)
            (subst (λ i. status? (lookup i repo.records) ≡ some queued) (sym named)
              (ap status? here ∙ ap some status))
            (subst (λ i. lookup i s.active ≡ none) (sym named) no_task)

  pub submit-Sound :
      (submission : JobSubmission S.broker.Estimate) (now : ℕ) (s : Scheduler S)
      → IsSound now s
      → Stays now (submit submission now s)
  unfolding submit
  submit-Sound submission now s h =
      queue_of-then (λ _ s'. IsSound now s') (IsSound now) _ submission.queue s
        (λ queue.
          ensure_room-then (λ _ s'. IsSound now s') (IsSound now) _ queue s
            (create-then (λ _ s'. IsSound now s') (IsSound now) _ submission now s h
              (λ repo r free status no_task.
                enqueue_record-then (λ _ s'. IsSound now s') (IsSound now) _ r.job_id r queue
                  (record s { repository = repo }) refl free status
                  (λ q p. queued-Sound r.job_id _ p h.held no_task)
                  (free-Sound r.job_id _ free h.held no_task))
              h)
            h)
        h

  retry_rest-Sound :
      (id : Text) (now : ℕ) (s : Scheduler S)
      → IsSound now s
      → Stays now (
          continue
            (retry_job id now failed null s)
            (λ r s'. continue (requeue id r s') (λ _ s''. (s'', ok r))))
  retry_rest-Sound id now s h =
      retry-then (λ _ s'. IsSound now s') (IsSound now) _ id now failed null s h.linked
        (λ p. (unplaced p).0)
        (λ repo r was free status named.
          requeue-then (λ _ s'. IsSound now s') (IsSound now) _ id r
            (record s { repository = repo }) named free status
            (λ q log p. queued-Sound id _ p h.held (unplaced was).1)
            (free-Sound id _ free h.held (unplaced was).1))
        h
    where
      unplaced :
          status? (lookup id s.repository.records) ≡ some failed
          → IsFree now id s.repository s.queues s.active × (lookup id s.active ≡ none)
      unplaced p = idle-unplaced id s h (subst IsIdle (sym p) failed-IsIdle)

  pub retry_manually-Sound :
      (id : Text) (now : ℕ) (s : Scheduler S) → IsSound now s → Stays now (retry_manually id now s)
  unfolding retry_manually ensure_room_for
  retry_manually-Sound id now s h = go (get s.repository id)
    where
      go :
          (r? : Option (Job S))
          → Stays now (
              continue (ensure_room_for r? s) (λ _ s₁.
                continue
                  (retry_job id now failed null s₁)
                  (λ r s₂. continue (requeue id r s₂) (λ _ s₃. (s₃, ok r)))))
      go none = retry_rest-Sound id now s h
      go (some r) =
          nested (λ _ s'. IsSound now s') (IsSound now) (queue_of r.queue s) ensure_room _
            (queue_of-then (λ _ s'. IsSound now s') (IsSound now) _ r.queue s
              (λ queue.
                ensure_room-then (λ _ s'. IsSound now s') (IsSound now) _ queue s
                  (retry_rest-Sound id now s h) h)
              h)
