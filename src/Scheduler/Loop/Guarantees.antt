-- ===== src/Scheduler/Loop/Guarantees.antt =====
-- The scheduler from its constructor on, over any turns of the event loop.
use comfy_ui_ng.Prelude.{
  ℕ, ◌≡◌, refl, ap, subst, true, false, List, [], ok, Text, text_eq, is_some, arith, ◌∷◌, ≟_refl,
}
use comfy_ui_ng.Prelude.Dict.{Dict, lookup, values}
use comfy_ui_ng.Scheduler.Queues.{QueueName}
use comfy_ui_ng.Scheduler.Loop.{Services, Scheduler}
use comfy_ui_ng.Scheduler.Loop.Control.{init_scheduler, Call, turns}
use comfy_ui_ng.Scheduler.Loop.Invariant.{IsSound}
use comfy_ui_ng.Scheduler.Loop.Sound.{InTime, end_of, init-Sound, turns-Sound}

-- From a new scheduler with a broker that has given out nothing, after any turns of the event loop in
-- which the clock does not go back: the queues and the repository are consistent; a job with an item in a
-- queue is queued and has no task; a job with a task is preparing or running; there are at most
-- `max_concurrency` tasks; each task has a token, and a reservation belongs to a task and is one of those
-- that the broker has given out, all of which are kept.
pub turns-from_init-Sound :
    (S : Services) (cache : S.cache.State) (broker : S.broker.State) (max_queued rate : ℕ)
    (limits : Dict QueueName ℕ) (s : Scheduler S) (calls : List (Call S))
    → S.broker.Given broker []
    → init_scheduler S cache broker max_queued limits rate ≡ ok s
    → InTime 0 calls
    → IsSound (end_of 0 calls) (turns s calls)
turns-from_init-Sound S cache broker max_queued rate limits s calls given made l =
    turns-Sound 0 s calls l (init-Sound S cache broker given max_queued rate limits s made)

none-values :
    {V : Type 0} (d : Dict Text V) → ((j : Text) → is_some (lookup j d) ≡ true → ⊥) → values d ≡ []
unfolding lookup
none-values [] h = refl
none-values ((j, v) ∷ d) h = absurd (h j (ground (arith, ≟_refl j)))

-- Under the same conditions, a scheduler without tasks has given every reservation back to the broker.
pub turns-from_init-releases :
    (S : Services) (cache : S.cache.State) (broker : S.broker.State) (max_queued rate : ℕ)
    (limits : Dict QueueName ℕ) (s : Scheduler S) (calls : List (Call S))
    → S.broker.Given broker []
    → init_scheduler S cache broker max_queued limits rate ≡ ok s
    → InTime 0 calls
    → (turns s calls).active ≡ []
    → S.broker.Given (turns s calls).broker []
unfolding lookup
turns-from_init-releases S cache broker max_queued rate limits s calls given made l idle =
    let held =
      (turns-from_init-Sound S cache broker max_queued rate limits s calls given made l).held in
    let s' = turns s calls in
    subst (S.broker.Given s'.broker)
      (none-values s'.reservations (λ j q.
        let p = held.reserved j q in
        let none_active : is_some (lookup j s'.active) ≡ false =
          ap (λ d. is_some (lookup j d)) idle in
        absurd (cc)))
      held.given
