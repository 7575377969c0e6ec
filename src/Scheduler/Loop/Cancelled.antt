-- ===== src/Scheduler/Loop/Cancelled.antt =====
-- `_execute` after the dispatcher, for a job whose token was cancelled.
use comfy_ui_ng.Prelude.{
  ℕ, ◌≡◌, ◌≢◌, refl, sym, ◌∙◌, true, false, Option, none, some, Result, ok, err, Text, text_eq,
  Bool-cases, inl, inr, ◌⊎◌, if◌then◌else◌, codes, arith,
}
use comfy_ui_ng.Prelude.Dict.{lookup, insert}
use comfy_ui_ng.Json.{Value, null}
use comfy_ui_ng.Jobs.Record.{JobStatus, completed, failed, cancelled, terminal}
use comfy_ui_ng.Jobs.Repository.{get}
use comfy_ui_ng.Scheduler.Cancellation.{
  Token, TokenError, checkpoint, resolve, cancellation_requested, before_save,
}
use comfy_ui_ng.Scheduler.Cancellation.Laws.{checkpoint_raises}
use comfy_ui_ng.Scheduler.Retry.{delay_for_retry}
use comfy_ui_ng.Scheduler.Loop.{
  Services, Scheduler, Exception, Job, Phase, starting, dispatching, sleeping, error_payload,
}
use comfy_ui_ng.Scheduler.Loop.Monad.{
  M, Outcome, continue, transition_job, release_reservation, finish, checkpoint_job, checked_as,
  after_release,
}
use comfy_ui_ng.Scheduler.Loop.Execute.{
  Course, suspended, over, Dispatched, returned, returned_other, raised, stopped, cancel_open,
  handle_cancelled, begin_retry, delayed, retry_or_fail, handle_exception, handle, recovered,
  settled, can_retry, cancellation_message, dispatched_body, dispatched, dispatched_at,
}
use comfy_ui_ng.Scheduler.Loop.Invariant.{status?, IsSound, IsFree}
use comfy_ui_ng.Scheduler.Loop.Moves.{Ensures, transition-then}
use comfy_ui_ng.Scheduler.Loop.Places.{sound-IsFree}

resolve_before_save : resolve (codes "before_save") ≡ some before_save
unfolding resolve
resolve_before_save = refl

module _ {S : Services} (id : Text) where
  -- The job is not completed.
  abbrev pub IsOpen : Scheduler S → Type 0
  IsOpen s = status? (lookup id s.repository.records) ≢ some completed

  abbrev StaysOpen : Outcome S Course → Type 0
  StaysOpen o = Ensures (λ _ s. IsOpen s) IsOpen o

  end_by-IsOpen :
      (expected goal : JobStatus) (now : ℕ) (result error : Value) (s : Scheduler S)
      → goal ≢ completed
      → IsFree now id s.repository s.queues s.active
      → IsOpen s
      → StaysOpen
          (continue (transition_job id expected goal now result error s) (λ _ s'. (s', ok over)))
  end_by-IsOpen expected goal now result error s n f h =
      transition-then (λ _ s'. IsOpen s') IsOpen (λ _ s'. (s', ok over)) id expected goal now result
        error s f (λ repo log r g status e. let same = sym status ∙ e in n (ground arith)) h

  cancel_open-IsOpen :
      (error : Value) (now : ℕ) (r? : Option (Job S)) (s : Scheduler S)
      → IsFree now id s.repository s.queues s.active
      → IsOpen s
      → StaysOpen (cancel_open id error now r? s)
  unfolding cancel_open
  cancel_open-IsOpen error now none s f h = h
  cancel_open-IsOpen error now (some r) s f h = elim (Bool-cases (terminal r.status)) [
    | inl p ↦ rw p h
    | inr p ↦
        rw p (end_by-IsOpen r.status cancelled now null error s (λ e. absurd (ground arith)) f h)
  ]

  after_release-repository :
      (r? : Option S.broker.Reservation) (s : Scheduler S)
      → (after_release id r? s).repository ≡ s.repository
  after_release-repository none s = refl
  after_release-repository (some r) s = refl

  begin_retry-IsOpen :
      (r : Job S) (e : Exception S) (s : Scheduler S) → IsOpen s → StaysOpen (begin_retry id r e s)
  unfolding begin_retry release_reservation
  begin_retry-IsOpen r e s h = go (delay_for_retry S.retry_policy _)
    where
      s' : Scheduler S
      s' = release_reservation id s

      here : IsOpen s'
      here = rw (after_release-repository (lookup id s.reservations) s) h

      go : (delay : Result _ ℕ) → StaysOpen (delayed id r e delay s')
      go (err m) = here
      go (ok delay) = here

  retry_or_fail-IsOpen :
      (e : Exception S) (now : ℕ) (r? : Option (Job S)) (s : Scheduler S)
      → IsFree now id s.repository s.queues s.active
      → IsOpen s
      → StaysOpen (retry_or_fail id e now r? s)
  unfolding retry_or_fail
  retry_or_fail-IsOpen e now none s f h = h
  retry_or_fail-IsOpen e now (some r) s f h = elim (Bool-cases (terminal r.status)) [
    | inl p ↦ rw p h
    | inr p ↦ rw p (tried (Bool-cases (can_retry S r e)))
  ]
    where
      tried :
          (can_retry S r e ≡ true) ⊎ (can_retry S r e ≡ false)
          → StaysOpen (
              (if can_retry S r e then begin_retry id r e else (λ s'.
                  continue
                    (transition_job id r.status failed now null (error_payload (S.describe e)) s')
                    (λ _ s''. (s'', ok over))))
                s)
      tried (inl q) = rw q (begin_retry-IsOpen r e s h)
      tried (inr q) =
          rw q (end_by-IsOpen r.status failed now null _ s (λ x. absurd (ground arith)) f h)

  handle-IsOpen :
      (now : ℕ) (e : Exception S) (s : Scheduler S)
      → IsFree now id s.repository s.queues s.active
      → IsOpen s
      → StaysOpen (handle id now e s)
  unfolding handle handle_cancelled handle_exception
  handle-IsOpen now e s f h = go (cancellation_message S e)
    where
      go :
          (m? : Option Text)
          → StaysOpen (
              (elim m? as (λ _. M S Course) [
                | some message ↦ handle_cancelled id message now
                | none ↦ handle_exception id e now
              ])
                s)
      go none = retry_or_fail-IsOpen e now (get s.repository id) s f h
      go (some m) = cancel_open-IsOpen _ now (get s.repository id) s f h

  finish-IsOpen : (s : Scheduler S) → IsOpen s → IsOpen (finish id s)
  unfolding finish release_reservation
  finish-IsOpen s h = rw (after_release-repository (lookup id s.reservations) s) h

  settled-IsOpen : (o : Outcome S Course) → StaysOpen o → IsOpen (settled id o)
  settled-IsOpen (s, ok suspended) h = h
  settled-IsOpen (s, ok over) h = finish-IsOpen s h
  settled-IsOpen (s, err e) h = finish-IsOpen s h

  -- Up to the `finally`, whatever the dispatcher did: the checkpoint raises for a cancelled token.
  dispatched_body-raises :
      (r : Job S) (outcome : Dispatched S.DispatchError) (now cache_now : ℕ) (s : Scheduler S)
      (t : Token) (reason : Text)
      → lookup id s.tokens ≡ some t
      → t.reason ≡ some reason
      → IsFree now id s.repository s.queues s.active
      → IsOpen s
      → StaysOpen (recovered id now (dispatched_body id r outcome now cache_now s))
  unfolding dispatched_body checkpoint_job
  dispatched_body-raises r returned_other now cache_now s t reason e p f h =
      handle-IsOpen now _ s f h
  dispatched_body-raises r (raised x) now cache_now s t reason e p f h = handle-IsOpen now _ s f h
  dispatched_body-raises r (stopped m) now cache_now s t reason e p f h = handle-IsOpen now _ s f h
  dispatched_body-raises r (returned result) now cache_now s t reason e p f h = rw e (
      stopped_at (checkpoint t (codes "before_save") none)
        (cancellation_requested reason before_save none) _
        (checkpoint_raises t (codes "before_save") before_save none reason p resolve_before_save))
    where
      stopped_at :
          (m : Token × Result TokenError (Unit {0})) (x : TokenError) (k : Unit {0} → M S Course)
          → m.1 ≡ err x
          → StaysOpen (recovered id now (continue (checked_as id m s) k))
      stopped_at (t', err y) x k q =
          handle-IsOpen now _ (record s { tokens = insert id t' s.tokens }) f h
      stopped_at (t', ok u) x k q = absurd (cc)

  -- In a sound state, whatever the dispatcher ends with: a job that is not completed and whose token was
  -- cancelled before that does not complete.
  pub dispatched-IsOpen :
      (outcome : Dispatched S.DispatchError) (now cache_now : ℕ) (s : Scheduler S) (t : Token)
      (reason : Text)
      → IsSound now s
      → IsOpen s
      → lookup id s.tokens ≡ some t
      → t.reason ≡ some reason
      → IsOpen (dispatched id outcome now cache_now s)
  unfolding dispatched
  dispatched-IsOpen outcome now cache_now s t reason h before e p = go (lookup id s.active) refl
    where
      go :
          (p? : Option (Phase S))
          → lookup id s.active ≡ p?
          → IsOpen (dispatched_at id outcome now cache_now p? s)
      go none q = before
      go (some starting) q = before
      go (some (sleeping r x)) q = before
      go (some (dispatching r)) q =
          let (free, _) = sound-IsFree id s (dispatching r) h q in
          settled-IsOpen _
            (dispatched_body-raises r outcome now cache_now s t reason e p free before)
