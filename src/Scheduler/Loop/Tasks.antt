-- ===== src/Scheduler/Loop/Tasks.antt =====
-- The handlers and the `finally` of `_execute`, and the scheduler's soundness.
use comfy_ui_ng.Prelude.{
  ℕ, ◌≡◌, true, false, Option, none, some, Result, ok, err, Text, text_eq, Bool-cases, inl, inr,
  ◌⊎◌, if◌then◌else◌,
}
use comfy_ui_ng.Prelude.Dict.{lookup, insert, lookup-insert_self, lookup-insert_ne}
use comfy_ui_ng.Json.{Value, null}
use comfy_ui_ng.Jobs.Record.{JobStatus, failed, cancelled, terminal}
use comfy_ui_ng.Jobs.Repository.{get}
use comfy_ui_ng.Scheduler.Retry.{delay_for_retry}
use comfy_ui_ng.Scheduler.Loop.{Services, Scheduler, Exception, Job, Phase, sleeping, error_payload}
use comfy_ui_ng.Scheduler.Loop.Monad.{M, Outcome, continue, transition_job, release_reservation}
use comfy_ui_ng.Scheduler.Loop.Execute.{
  Course, suspended, over, cancel_open, handle_cancelled, begin_retry, delayed, retry_or_fail,
  handle_exception, handle, recovered, settled, can_retry, cancellation_message,
}
use comfy_ui_ng.Scheduler.Loop.Invariant.{status?, IsBusy, IsHeld, IsSound, IsFree}
use comfy_ui_ng.Scheduler.Loop.Moves.{Ensures, transition-then}
use comfy_ui_ng.Scheduler.Loop.Places.{active-Sound, active-IsFree}
use comfy_ui_ng.Scheduler.Loop.Held.{release-IsHeld, phase-IsHeld}
use comfy_ui_ng.Scheduler.Loop.Finish.{Loose, finish-Sound}

-- What a part of the task of a job leaves.
abbrev pub OnCourse : {S : Services} → ℕ → Text → Course → Scheduler S → Type 0
OnCourse now id suspended s = IsSound now s
OnCourse now id over s = Loose now id s

-- The task of a job at work.
pub record IsWorking {S : Services} (now : ℕ) (id : Text) (s : Scheduler S) : Type 0 where
  pub free : IsFree now id s.repository s.queues s.active
  pub busy : IsBusy (status? (lookup id s.repository.records))
  pub held : IsHeld s.broker s.active s.tokens s.reservations
  pub phase : Phase S
  pub active : lookup id s.active ≡ some phase

module _ {S : Services} (id : Text) where
  pub settled-Sound :
      {now : ℕ} (o : Outcome S Course)
      → Ensures (OnCourse now id) (Loose now id) o
      → IsSound now (settled id o)
  settled-Sound {now} (s, ok suspended) h = h
  settled-Sound {now} (s, ok over) h = finish-Sound id s h
  settled-Sound {now} (s, err e) h = finish-Sound id s h

  pub end_by-Loose :
      (expected goal : JobStatus) (now : ℕ) (result error : Value) (s : Scheduler S)
      → IsFree now id s.repository s.queues s.active
      → IsHeld s.broker s.active s.tokens s.reservations
      → Ensures
          (OnCourse now id)
          (Loose now id)
          (continue (transition_job id expected goal now result error s) (λ _ s'. (s', ok over)))
  end_by-Loose expected goal now result error s f h =
      transition-then (OnCourse now id) (Loose now id) (λ _ s'. (s', ok over)) id expected goal now
        result error s f (λ repo log r g _. (inl g, h)) (inl f, h)

  pub cancel_open-Loose :
      (error : Value) (now : ℕ) (r? : Option (Job S)) (s : Scheduler S)
      → IsFree now id s.repository s.queues s.active
      → IsHeld s.broker s.active s.tokens s.reservations
      → Ensures (OnCourse now id) (Loose now id) (cancel_open id error now r? s)
  unfolding cancel_open
  cancel_open-Loose error now none s f h = (inl f, h)
  cancel_open-Loose error now (some r) s f h = elim (Bool-cases (terminal r.status)) [
    | inl p ↦ rw p (inl f, h)
    | inr p ↦ rw p (end_by-Loose r.status cancelled now null error s f h)
  ]

  begin_retry-Loose :
      {now : ℕ} (r : Job S) (e : Exception S) (s : Scheduler S)
      → IsWorking now id s
      → Ensures (OnCourse now id) (Loose now id) (begin_retry id r e s)
  unfolding begin_retry
  begin_retry-Loose {now} r e s w =
      go (delay_for_retry S.retry_policy _) (release-IsHeld id s w.held)
    where
      s' : Scheduler S
      s' = release_reservation id s

      go :
          (delay : Result _ ℕ)
          → IsHeld s'.broker s'.active s'.tokens s'.reservations
            × (lookup id s'.reservations ≡ none)
            × (s'.active ≡ s.active)
            × (s'.tokens ≡ s.tokens)
            × (s'.repository ≡ s.repository)
            × (s'.queues ≡ s.queues)
          → Ensures (OnCourse now id) (Loose now id) (delayed id r e delay s')
      go (err m) (held, _, p, _, q, t) = (inl (rw (q, t, p) w.free), held)
      go (ok delay) (held, _, p, _, q, t) =
          active-Sound id _ (sleeping r e)
            (active-IsFree id s'.repository s'.queues s'.active (insert id (sleeping r e) s'.active)
              (λ j n. lookup-insert_ne id j (sleeping r e) s'.active n) (rw (q, t, p) w.free))
            (phase-IsHeld id w.phase (sleeping r e) s'.broker s'.active s'.tokens s'.reservations
              (rw p w.active) held)
            (lookup-insert_self id (sleeping r e) s'.active) (rw q w.busy)

  retry_or_fail-Loose :
      (e : Exception S) (now : ℕ) (r? : Option (Job S)) (s : Scheduler S)
      → IsWorking now id s
      → Ensures (OnCourse now id) (Loose now id) (retry_or_fail id e now r? s)
  unfolding retry_or_fail
  retry_or_fail-Loose e now none s w = (inl w.free, w.held)
  retry_or_fail-Loose e now (some r) s w = elim (Bool-cases (terminal r.status)) [
    | inl p ↦ rw p (inl w.free, w.held)
    | inr p ↦ rw p (tried (Bool-cases (can_retry S r e)))
  ]
    where
      tried :
          (can_retry S r e ≡ true) ⊎ (can_retry S r e ≡ false)
          → Ensures (OnCourse now id) (Loose now id) (
              (if can_retry S r e then begin_retry id r e else (λ s'.
                  continue
                    (transition_job id r.status failed now null (error_payload (S.describe e)) s')
                    (λ _ s''. (s'', ok over))))
                s)
      tried (inl q) = rw q (begin_retry-Loose r e s w)
      tried (inr q) = rw q (end_by-Loose r.status failed now null _ s w.free w.held)

  handle-Loose :
      (now : ℕ) (e : Exception S) (s : Scheduler S)
      → IsWorking now id s
      → Ensures (OnCourse now id) (Loose now id) (handle id now e s)
  unfolding handle handle_cancelled handle_exception
  handle-Loose now e s w = go (cancellation_message S e)
    where
      go :
          (m? : Option Text)
          → Ensures (OnCourse now id) (Loose now id) (
              (elim m? as (λ _. M S Course) [
                | some message ↦ handle_cancelled id message now
                | none ↦ handle_exception id e now
              ])
                s)
      go none = retry_or_fail-Loose e now (get s.repository id) s w
      go (some m) = cancel_open-Loose _ now (get s.repository id) s w.free w.held

  pub recovered-Loose :
      (now : ℕ) (o : Outcome S Course)
      → Ensures (OnCourse now id) (IsWorking now id) o
      → Ensures (OnCourse now id) (Loose now id) (recovered id now o)
  recovered-Loose now (s, ok c) h = h
  recovered-Loose now (s, err e) w = handle-Loose now e s w
