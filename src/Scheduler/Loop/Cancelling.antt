-- ===== src/Scheduler/Loop/Cancelling.antt =====
-- `cancel`, and the scheduler's soundness.
use comfy_ui_ng.Prelude.{
  ℕ, ◌≡◌, refl, ◌∙◌, ap, Bool, true, false, Option, none, some, Result, ok, err, Text, text_eq,
  Bool-cases, inl, inr, ◌⊎◌, if◌then◌else◌,
}
use comfy_ui_ng.Prelude.Dict.{lookup, insert}
use comfy_ui_ng.Json.{null}
use comfy_ui_ng.Jobs.Record.{queued, cancelled, terminal, status_beq, is_untrimmed}
use comfy_ui_ng.Jobs.Repository.{get}
use comfy_ui_ng.Jobs.Repository.Isolation.{status_beq→eq}
use comfy_ui_ng.Scheduler.Queues.{remove}
use comfy_ui_ng.Scheduler.Queues.Invariant.{remove-IsConsistent, remove-items, remove-absent}
use comfy_ui_ng.Scheduler.Cancellation.{Token, TokenError, cancel}
use comfy_ui_ng.Scheduler.Loop.{Services, Scheduler, Job}
use comfy_ui_ng.Scheduler.Loop.Control.{
  cancel_job, cancel_record, cancel_queued, cancel_token, signalled,
}
use comfy_ui_ng.Scheduler.Cancellation.Laws.{cancel_returns}
use comfy_ui_ng.Prelude.Dict.{lookup-insert_self}
use comfy_ui_ng.Scheduler.Loop.Monad.{Outcome}
use comfy_ui_ng.Scheduler.Loop.Moves.{Ensures}
use comfy_ui_ng.Scheduler.Loop.Invariant.{status?, IsSound, IsFree}
use comfy_ui_ng.Scheduler.Loop.Moves.{transition-then}
use comfy_ui_ng.Scheduler.Loop.Places.{free-Sound, queues-others}
use comfy_ui_ng.Scheduler.Loop.Held.{token-IsHeld}
use comfy_ui_ng.Scheduler.Loop.Requests.{Stays, queued-no_task}

module _ {S : Services} where
  cancel_token-Sound :
      {now : ℕ} (id : Text) (reason : Text) (s : Scheduler S)
      → IsSound now s
      → Stays now (cancel_token id reason (lookup id s.tokens) s)
  unfolding cancel_token
  cancel_token-Sound {now} id reason s h = go (lookup id s.tokens) refl
    where
      updated :
          (t t' : Token)
          → lookup id s.tokens ≡ some t
          → IsSound now (record s { tokens = insert id t' s.tokens })
      updated t t' p = record {
        linked = h.linked;
        timed = h.timed;
        consistent = h.consistent;
        places = h.places;
        held = token-IsHeld id t t' s.broker s.active s.tokens s.reservations p h.held;
      }

      at :
          (t : Token) (m : Token × Result TokenError Bool)
          → lookup id s.tokens ≡ some t
          → Stays now (signalled id m s)
      at t (t', err e) p = updated t t' p
      at t (t', ok b) p = updated t t' p

      go : (t? : Option Token) → lookup id s.tokens ≡ t? → Stays now (cancel_token id reason t? s)
      go none p = h
      go (some t) p = at t (cancel t reason) p

  -- Taking a queued job out of its queue.
  removed-IsFree :
      {now : ℕ} (id : Text) (s : Scheduler S)
      → IsSound now s
      → IsFree now id s.repository (remove s.queues id).0 s.active
  removed-IsFree {now} id s h = record {
    linked = h.linked;
    timed = h.timed;
    consistent = remove-IsConsistent s.queues id h.consistent;
    others =
        queues-others id s.repository s.queues (remove s.queues id).0 s.active
          (λ j n. remove-items id j s.queues h.consistent n) (λ j n. h.places j);
    absent = remove-absent id s.queues h.consistent;
  }

  cancel_queued-Sound :
      (id : Text) (reason : Text) (now : ℕ) (s : Scheduler S)
      → IsSound now s
      → lookup id s.active ≡ none
      → Stays now (cancel_queued id reason now s)
  unfolding cancel_queued
  cancel_queued-Sound id reason now s h no_task =
      let free = removed-IsFree id s h in
      transition-then (λ _ s'. IsSound now s') (IsSound now) _ id queued cancelled now null _
        (record s { queues = (remove s.queues id).0 }) free
        (λ repo log r g _. free-Sound id _ g h.held no_task) (free-Sound id _ free h.held no_task)

  pub cancel_job-Sound :
      (id : Text) (reason : Text) (now : ℕ) (s : Scheduler S)
      → IsSound now s
      → Stays now (cancel_job id reason now s)
  unfolding cancel_job cancel_record get
  cancel_job-Sound id reason now s h = elim (Bool-cases (is_untrimmed reason)) [
    | inl p ↦ rw p h
    | inr p ↦ rw p (go (lookup id s.repository.records) refl)
  ]
    where
      found :
          (r : Job S)
          → lookup id s.repository.records ≡ some r
          → (status_beq r.status queued ≡ true) ⊎ (status_beq r.status queued ≡ false)
          → Stays now (
              if status_beq r.status queued
              then cancel_queued id reason now s
              else cancel_token id reason (lookup id s.tokens) s)
      found r e (inl q) = rw q (
          cancel_queued-Sound id reason now s h
            (queued-no_task id s h (ap status? e ∙ ap some (status_beq→eq r.status queued q))))
      found r e (inr q) = rw q (cancel_token-Sound id reason s h)

      go :
          (r? : Option (Job S))
          → lookup id s.repository.records ≡ r?
          → Stays now (cancel_record id reason now r? s)
      go none e = h
      go (some r) e = elim (Bool-cases (terminal r.status)) [
        | inl q ↦ rw q h
        | inr q ↦ rw q (found r e (Bool-cases (status_beq r.status queued)))
      ]

  -- What a cancel that returned leaves: the job cancelled, in no queue and with no task, or its token with
  -- the reason.
  abbrev pub Cancels : Text → (reason : Text) → Bool → Scheduler S → Type 0
  Cancels id reason false s = Unit
  Cancels id reason true s =
      (status? (lookup id s.repository.records) ≡ some cancelled)
        × (lookup id s.queues.items ≡ none)
        × (lookup id s.active ≡ none)
      ⊎ ((t : Token) × (lookup id s.tokens ≡ some t) × (t.reason ≡ some reason))

  abbrev pub AsTold : Text → (reason : Text) → Outcome S Bool → Type 0
  AsTold id reason o = Ensures (Cancels id reason) (λ s. Unit) o

  cancel_queued-AsTold :
      (id : Text) (reason : Text) (now : ℕ) (s : Scheduler S)
      → IsSound now s
      → lookup id s.active ≡ none
      → AsTold id reason (cancel_queued id reason now s)
  unfolding cancel_queued
  cancel_queued-AsTold id reason now s h no_task =
      transition-then (Cancels id reason) (λ s'. Unit) _ id queued cancelled now null _
        (record s { queues = (remove s.queues id).0 }) (removed-IsFree id s h)
        (λ repo log r g status. inl (status, g.absent, no_task)) tt

  cancel_token-AsTold :
      (id : Text) (reason : Text) (s : Scheduler S) (t? : Option Token)
      → AsTold id reason (cancel_token id reason t? s)
  unfolding cancel_token
  cancel_token-AsTold id reason s none = tt
  cancel_token-AsTold id reason s (some t) = at (cancel t reason) refl
    where
      at :
          (m : Token × Result TokenError Bool)
          → cancel t reason ≡ m
          → AsTold id reason (signalled id m s)
      at (t', err e) p = tt
      at (t', ok false) p = tt
      at (t', ok true) p = inr (t', lookup-insert_self id t' s.tokens, cancel_returns t t' reason p)

  -- In a sound state a cancel that returns True has cancelled the job, which is then in no queue and has no
  -- task, or has set the reason in the token of its task.
  pub cancel_job-AsTold :
      (id : Text) (reason : Text) (now : ℕ) (s : Scheduler S)
      → IsSound now s
      → AsTold id reason (cancel_job id reason now s)
  unfolding cancel_job cancel_record get
  cancel_job-AsTold id reason now s h = elim (Bool-cases (is_untrimmed reason)) [
    | inl p ↦ rw p tt
    | inr p ↦ rw p (go (lookup id s.repository.records) refl)
  ]
    where
      found :
          (r : Job S)
          → lookup id s.repository.records ≡ some r
          → (status_beq r.status queued ≡ true) ⊎ (status_beq r.status queued ≡ false)
          → AsTold id reason (
              if status_beq r.status queued
              then cancel_queued id reason now s
              else cancel_token id reason (lookup id s.tokens) s)
      found r e (inl q) = rw q (
          cancel_queued-AsTold id reason now s h
            (queued-no_task id s h (ap status? e ∙ ap some (status_beq→eq r.status queued q))))
      found r e (inr q) = rw q (cancel_token-AsTold id reason s (lookup id s.tokens))

      go :
          (r? : Option (Job S))
          → lookup id s.repository.records ≡ r?
          → AsTold id reason (cancel_record id reason now r? s)
      go none e = tt
      go (some r) e = elim (Bool-cases (terminal r.status)) [
        | inl q ↦ rw q tt
        | inr q ↦ rw q (found r e (Bool-cases (status_beq r.status queued)))
      ]
