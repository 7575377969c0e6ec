-- ===== src/Scheduler/Loop/Sound.antt =====
-- The scheduler over any turns of the event loop.
use comfy_ui_ng.Prelude.{
  ℕ, ◌≤◌, ◌≡◌, refl, subst, Bool, List, [], ◌∷◌, Option, none, some, Result, ok, err, Text, text_eq,
  arith, Bool-cases, ltb, ok_unique, inl, inr,
}
use comfy_ui_ng.Prelude.Dict.{Dict, lookup}
use comfy_ui_ng.Jobs.Repository.History.{unknown}
use comfy_ui_ng.Scheduler.Queues.{QueueName, SchedulerQueues, QueueError, init, size}
use comfy_ui_ng.Scheduler.Queues.Invariant.{IsConsistent, init-IsConsistent, init-items}
use comfy_ui_ng.Scheduler.Cancellation.{Token, Action, step}
use comfy_ui_ng.Scheduler.Loop.{Services, Scheduler}
use comfy_ui_ng.Scheduler.Loop.Monad.{Outcome, continue}
use comfy_ui_ng.Scheduler.Loop.Control.{
  new_scheduler, with_queues, init_scheduler, Call, submitting, retrying, cancelling, waking,
  launching, rounding, beginning, ending_dispatch, ending_sleep, using_token, turn, turns,
  use_token, idle_round, verdict,
}
use comfy_ui_ng.Scheduler.Loop.Invariant.{IsSound}
use comfy_ui_ng.Scheduler.Loop.Held.{token-IsHeld}
use comfy_ui_ng.Scheduler.Loop.Parts.{begin-Sound, dispatched-Sound}
use comfy_ui_ng.Scheduler.Loop.Sleep.{slept-Sound}
use comfy_ui_ng.Scheduler.Loop.Requests.{Stays, submit-Sound, retry_manually-Sound}
use comfy_ui_ng.Scheduler.Loop.Cancelling.{cancel_job-Sound}
use comfy_ui_ng.Scheduler.Loop.NextLaunch.{launch_next-Sound, launch_all-Sound}

-- The reading of the clock in a turn; a turn that reads none keeps the last.
abbrev pub clock : {S : Services} → ℕ → Call S → ℕ
clock t (submitting submission now) = now
clock t (retrying job_id now) = now
clock t (cancelling job_id reason now) = now
clock t waking = t
clock t (launching m) = m.now
clock t (rounding now cache_now generated) = now
clock t (beginning job_id now) = now
clock t (ending_dispatch job_id outcome now cache_now) = now
clock t (ending_sleep job_id interrupted_sleep now) = now
clock t (using_token job_id a) = t

-- The clock never goes back.
abbrev pub InTime : {S : Services} → ℕ → List (Call S) → Type 0
InTime t [] = Unit
InTime t (c ∷ calls) = (t ≤ clock t c) × InTime (clock t c) calls

abbrev pub end_of : {S : Services} → ℕ → List (Call S) → ℕ
end_of t [] = t
end_of t (c ∷ calls) = end_of (clock t c) calls

module _ {S : Services} where
  pub later-Sound : (t now : ℕ) (s : Scheduler S) → t ≤ now → IsSound t s → IsSound now s
  later-Sound t now s l h = record {
    linked = h.linked;
    timed = λ j r e. let earlier = h.timed j r e in omega arith;
    consistent = h.consistent;
    places = h.places;
    held = h.held;
  }

  -- Whatever a statement ends with.
  left : {A : Type 0} (now : ℕ) (o : Outcome S A) → Stays now o → IsSound now o.0
  left now (s, ok a) h = h
  left now (s, err e) h = h

  idle_round-Sound :
      (now cache_now : ℕ) (generated : ℕ → ℕ) (s : Scheduler S)
      → IsSound now s
      → IsSound now (idle_round now cache_now generated s).0
  unfolding idle_round
  idle_round-Sound now cache_now generated s h =
      go _ (launch_all-Sound (size s.queues) now cache_now generated s h)
    where
      go :
          (o : Outcome S Bool)
          → Stays now o
          → IsSound now (continue o (λ blocked s'. (s', ok (verdict s' blocked)))).0
      go (s', ok b) k = k
      go (s', err e) k = k

  use_token-Sound :
      (now : ℕ) (id : Text) (a : Action) (s : Scheduler S)
      → IsSound now s
      → IsSound now (use_token id a (lookup id s.tokens) s)
  use_token-Sound now id a s h = go (lookup id s.tokens) refl
    where
      go : (t? : Option Token) → lookup id s.tokens ≡ t? → IsSound now (use_token id a t? s)
      go none e = h
      go (some t) e = record {
        linked = h.linked;
        timed = h.timed;
        consistent = h.consistent;
        places = h.places;
        held = token-IsHeld id t (step t a) s.broker s.active s.tokens s.reservations e h.held;
      }

  turn-Sound :
      (t : ℕ) (s : Scheduler S) (c : Call S)
      → t ≤ clock t c
      → IsSound t s
      → IsSound (clock t c) (turn s c)
  unfolding turn
  turn-Sound t s (submitting submission now) l h =
      left now _ (submit-Sound submission now s (later-Sound t now s l h))
  turn-Sound t s (retrying id now) l h =
      left now _ (retry_manually-Sound id now s (later-Sound t now s l h))
  turn-Sound t s (cancelling id reason now) l h =
      left now _ (cancel_job-Sound id reason now s (later-Sound t now s l h))
  turn-Sound t s waking l h = record {
    linked = h.linked;
    timed = h.timed;
    consistent = h.consistent;
    places = h.places;
    held = h.held;
  }
  turn-Sound t s (launching m) l h =
      left m.now _ (launch_next-Sound m s (later-Sound t m.now s l h))
  turn-Sound t s (rounding now cache_now generated) l h =
      idle_round-Sound now cache_now generated s (later-Sound t now s l h)
  turn-Sound t s (beginning id now) l h = begin-Sound id now s (later-Sound t now s l h)
  turn-Sound t s (ending_dispatch id outcome now cache_now) l h =
      dispatched-Sound id outcome now cache_now s (later-Sound t now s l h)
  turn-Sound t s (ending_sleep id interrupted_sleep now) l h =
      slept-Sound id interrupted_sleep now s (later-Sound t now s l h)
  turn-Sound t s (using_token id a) l h = use_token-Sound t id a s h

  pub turns-Sound :
      (t : ℕ) (s : Scheduler S) (calls : List (Call S))
      → InTime t calls
      → IsSound t s
      → IsSound (end_of t calls) (turns s calls)
  unfolding turns
  turns-Sound t s [] l h = h
  turns-Sound t s (c ∷ calls) l h =
      turns-Sound (clock t c) (turn s c) calls l.1 (turn-Sound t s c l.0 h)

module _ (S : Services) (cache : S.cache.State) (broker : S.broker.State)
    (given : S.broker.Given broker []) where
  new-Sound :
      (q : SchedulerQueues)
      → IsConsistent q
      → q.items ≡ []
      → IsSound 0 (new_scheduler S cache broker q)
  unfolding lookup
  new-Sound q consistent none_queued = record {
    linked = λ id. unknown;
    timed = λ j r e. absurd (cc);
    consistent = consistent;
    places = λ j. rw none_queued tt;
    held = record {
      unique_active = tt;
      unique_tokens = tt;
      unique_reservations = tt;
      reserved = λ j e. e;
      tokened = λ j. refl;
      given = given;
      capped = omega arith;
    };
  }

  -- A new scheduler is sound.
  pub init-Sound :
      (max_queued rate : ℕ) (limits : Dict QueueName ℕ) (s : Scheduler S)
      → init_scheduler S cache broker max_queued limits rate ≡ ok s
      → IsSound 0 s
  unfolding init_scheduler
  init-Sound max_queued rate limits s e = elim (Bool-cases (ltb S.max_concurrency 1)) [
    | inl p ↦ absurd (ground arith)
    | inr p ↦ go (init max_queued limits rate) refl (rw p at e)
  ]
    where
      go :
          (q? : Result QueueError SchedulerQueues)
          → init max_queued limits rate ≡ q?
          → with_queues S cache broker q? ≡ ok s
          → IsSound 0 s
      go (err x) p h = absurd (cc)
      go (ok q) p h = subst (IsSound 0) (ok_unique refl h) (
          new-Sound q (init-IsConsistent max_queued rate limits q p)
            (init-items max_queued rate limits q p))
