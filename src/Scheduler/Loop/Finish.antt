-- ===== src/Scheduler/Loop/Finish.antt =====
-- The `finally` of `_execute`, and the scheduler's soundness.
use comfy_ui_ng.Prelude.{ℕ, ◌≡◌, ◌≢◌, none, Text, text_eq, arith, inl, inr, ◌⊎◌, ≟_refl}
use comfy_ui_ng.Prelude.Dict.{lookup, delete, lookup-delete, lookup-delete_ne}
use comfy_ui_ng.Scheduler.Loop.{Services, Scheduler}
use comfy_ui_ng.Scheduler.Loop.Monad.{release_reservation, finish}
use comfy_ui_ng.Scheduler.Loop.Invariant.{IsHeld, IsSound, IsFree, IsQueued}
use comfy_ui_ng.Scheduler.Loop.Places.{active-IsFree, active-IsQueued, free-Sound, queued-Sound}
use comfy_ui_ng.Scheduler.Loop.Held.{release-IsHeld, drop-IsHeld}

module _ {S : Services} where
  -- Between two turns, or at the end of a task that leaves its job free or queued.
  abbrev pub Loose : ℕ → Text → Scheduler S → Type 0
  Loose now id s =
      (IsFree now id s.repository s.queues s.active
        ⊎ IsQueued now id s.repository s.queues s.active)
      × IsHeld s.broker s.active s.tokens s.reservations

  -- The `finally` of a task leaves the scheduler sound, with no task of that job.
  pub finish-Sound :
      {now : ℕ} (id : Text) (s : Scheduler S) → Loose now id s → IsSound now (finish id s)
  unfolding finish
  finish-Sound {now} id s (place, h) =
      let (held, unreserved, same_active, same_tokens, same_repository, same_queues) =
        release-IsHeld id s h in
      ended place held unreserved same_active same_repository same_queues
    where
      s' : Scheduler S
      s' = release_reservation id s

      deleted : (j : Text) → j ≢ id → lookup j (delete id s.active) ≡ lookup j s.active
      deleted j n = lookup-delete_ne id j s.active h.unique_active n

      ended :
          IsFree now id s.repository s.queues s.active
            ⊎ IsQueued now id s.repository s.queues s.active
          → IsHeld s'.broker s'.active s'.tokens s'.reservations
          → lookup id s'.reservations ≡ none
          → s'.active ≡ s.active
          → s'.repository ≡ s.repository
          → s'.queues ≡ s.queues
          → IsSound now (finish id s)
      ended (inl f) held unreserved p q r =
          free-Sound id (finish id s)
            (rw (q, r, p)
              (active-IsFree id s.repository s.queues s.active (delete id s.active) deleted f))
            (drop-IsHeld id s'.broker s'.active s'.tokens s'.reservations unreserved held)
            (rw p (ground (arith, lookup-delete id id s.active h.unique_active, ≟_refl id)))
      ended (inr f) held unreserved p q r =
          queued-Sound id (finish id s)
            (rw (q, r, p)
              (active-IsQueued id s.repository s.queues s.active (delete id s.active) deleted f))
            (drop-IsHeld id s'.broker s'.active s'.tokens s'.reservations unreserved held)
            (rw p (ground (arith, lookup-delete id id s.active h.unique_active, ≟_refl id)))
