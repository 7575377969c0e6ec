-- ===== src/Scheduler/Loop/Sleep.antt =====
-- The last part of a task: what follows the sleep before another try.
use comfy_ui_ng.Prelude.{
  ℕ, ◌≡◌, refl, Bool, true, false, Option, none, some, Result, ok, err, Text, text_eq, Bool-cases,
  inl, inr, codes,
}
use comfy_ui_ng.Prelude.Dict.{Dict, lookup}
use comfy_ui_ng.Json.{null}
use comfy_ui_ng.Jobs.Record.{failed}
use comfy_ui_ng.Jobs.Repository.{get}
use comfy_ui_ng.Scheduler.Queues.{QueueError, ensure_capacity}
use comfy_ui_ng.Scheduler.Cancellation.{Token, cancel}
use comfy_ui_ng.Scheduler.Loop.{
  Services, Scheduler, Exception, Job, Phase, starting, dispatching, sleeping,
}
use comfy_ui_ng.Scheduler.Loop.Execute.{
  cancelled_token, wake_up, try_again, retry_task, slept_body, slept, slept_at, is_cancelled,
}
use comfy_ui_ng.Scheduler.Loop.Invariant.{IsHeld, IsSound, IsFree}
use comfy_ui_ng.Scheduler.Loop.Moves.{Ensures, retry-then}
use comfy_ui_ng.Scheduler.Loop.Places.{sound-IsFree}
use comfy_ui_ng.Scheduler.Loop.Held.{token-IsHeld}
use comfy_ui_ng.Scheduler.Loop.Finish.{Loose}
use comfy_ui_ng.Scheduler.Loop.Queueing.{queue_of-then, requeue-then}
use comfy_ui_ng.Scheduler.Loop.Tasks.{OnCourse, settled-Sound, end_by-Loose, cancel_open-Loose}

module _ {S : Services} (id : Text) where
  retry_task-Loose :
      (r : Job S) (e : Exception S) (now : ℕ) (s : Scheduler S)
      → IsFree now id s.repository s.queues s.active
      → IsHeld s.broker s.active s.tokens s.reservations
      → Ensures (OnCourse now id) (Loose now id) (retry_task id r e now s)
  unfolding retry_task
  retry_task-Loose r e now s f h =
      queue_of-then (OnCourse now id) (Loose now id) _ r.queue s
        (λ queue. go (ensure_capacity s.queues queue)) (inl f, h)
    where
      go :
          (room : Result QueueError (Unit {0}))
          → Ensures (OnCourse now id) (Loose now id) (try_again id r e now room s)
      go (err full) = end_by-Loose id r.status failed now null _ s f h
      go (ok u) =
          retry-then (OnCourse now id) (Loose now id) _ id now r.status _ s f.linked (λ p. f)
            (λ repo r' _ g status named.
              requeue-then (OnCourse now id) (Loose now id) _ id r' (record s { repository = repo })
                named g status (λ q log p. (inr p, h)) (inl g, h))
            (inl f, h)

  slept_body-Loose :
      (r : Job S) (e : Exception S) (now : ℕ) (s : Scheduler S)
      → IsFree now id s.repository s.queues s.active
      → IsHeld s.broker s.active s.tokens s.reservations
      → Ensures (OnCourse now id) (Loose now id) (slept_body id r e now s)
  unfolding slept_body
  slept_body-Loose r e now s f h = elim (Bool-cases (is_cancelled (lookup id s.tokens))) [
    | inl p ↦ rw p (cancel_open-Loose id _ now (get s.repository id) s f h)
    | inr p ↦ rw p (retry_task-Loose r e now s f h)
  ]

  wake_up-Loose :
      (interrupted_sleep : Bool) (s : Scheduler S) (P : Scheduler S → Type 0)
      → IsHeld s.broker s.active s.tokens s.reservations
      → ((tokens : Dict Text Token)
          → IsHeld s.broker s.active tokens s.reservations
          → P (record s { tokens = tokens }))
      → P (wake_up id interrupted_sleep s)
  unfolding wake_up
  wake_up-Loose false s P h k = k s.tokens h
  wake_up-Loose true s P h k = go (lookup id s.tokens) refl
    where
      go : (t? : Option Token) → lookup id s.tokens ≡ t? → P (cancelled_token id t? s)
      go none p = k s.tokens h
      go (some t) p = k _ (
          token-IsHeld id t (cancel t (codes "scheduler task cancelled")).0 s.broker s.active
            s.tokens s.reservations p h)

  pub slept-Sound :
      (interrupted_sleep : Bool) (now : ℕ) (s : Scheduler S)
      → IsSound now s
      → IsSound now (slept id interrupted_sleep now s)
  unfolding slept
  slept-Sound interrupted_sleep now s h = go (lookup id s.active) refl
    where
      go :
          (p? : Option (Phase S))
          → lookup id s.active ≡ p?
          → IsSound now (slept_at id interrupted_sleep now p? s)
      go none e = h
      go (some starting) e = h
      go (some (dispatching r)) e = h
      go (some (sleeping r x)) e =
          let (free, _) = sound-IsFree id s (sleeping r x) h e in
          settled-Sound id _ (
            wake_up-Loose interrupted_sleep s
              (λ s'. Ensures (OnCourse now id) (Loose now id) (slept_body id r x now s')) h.held
              (λ tokens held. slept_body-Loose r x now (record s { tokens = tokens }) free held))
