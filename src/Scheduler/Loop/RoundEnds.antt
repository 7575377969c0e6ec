-- ===== src/Scheduler/Loop/RoundEnds.antt =====
-- The inner loop of `run_until_idle`, and the end of a round.
use comfy_ui_ng.Prelude.{
  ℕ, zero, suc, ◌+◌, ◌≤◌, ◌<◌, ◌≡◌, refl, sym, ◌∙◌, ap, subst, Bool, true, false, [], ◌∷◌, Result,
  ok, err, Text, text_eq, length, arith, Bool-cases, inl, inr, ok_unique,
}
use comfy_ui_ng.Prelude.Dict.{Dict}
use comfy_ui_ng.Jobs.Repository.{get}
use comfy_ui_ng.Scheduler.Queues.{QueueItem, QueueError, SchedulerQueues, size, pop_next}
use comfy_ui_ng.Scheduler.Queues.Invariant.{pop_next-absent, pop_next-size}
use comfy_ui_ng.Scheduler.Loop.{Services, Scheduler, Phase}
use comfy_ui_ng.Scheduler.Loop.Monad.{Outcome, continue}
use comfy_ui_ng.Scheduler.Loop.Launch.{
  Moment, launch_popped, may_launch, launch_next, launch_all, go_on,
}
use comfy_ui_ng.Scheduler.Loop.Control.{Verdict, loops, returns, waits, verdict, idle_round}
use comfy_ui_ng.Scheduler.Loop.Invariant.{IsSound}
use comfy_ui_ng.Scheduler.Loop.Moves.{Ensures}
use comfy_ui_ng.Scheduler.Loop.Requests.{Stays}
use comfy_ui_ng.Scheduler.Loop.NextLaunch.{launch_next-Sound}
use comfy_ui_ng.Scheduler.Loop.Rounds.{Anything, IfTrue, launch_record-keeps}

module _ {S : Services} where
  -- A launch that does not stop the loop has taken one item out of the queues.
  launch_next-shrinks :
      (m : Moment) (s s' : Scheduler S)
      → IsSound m.now s
      → launch_next m s ≡ (s', ok true)
      → size s'.queues + 1 ≡ size s.queues
  unfolding launch_next
  launch_next-shrinks m s s' h e = elim (Bool-cases (may_launch s)) [
    | inl p ↦ go (pop_next s.queues m.now) refl (rw p at e)
    | inr p ↦ absurd (not_launched (rw p at e))
  ]
    where
      not_launched : ◌≡◌ {A = Outcome S Bool} (s, ok false) (s', ok true) → ⊥
      not_launched x = let y = ap (λ o. o.1) x in ground arith

      kept :
          (q : SchedulerQueues) (o : Outcome S Bool)
          → Ensures (IfTrue q) (Anything q) o
          → o ≡ (s', ok true)
          → s'.queues ≡ q
      kept q (s₁, err x) k p = let y = ap (λ o. o.1) p in absurd (cc)
      kept q (s₁, ok b) k p =
          let same : b ≡ true = let y = ap (λ o. o.1) p in ground arith in
          ap (λ o. o.0.queues) (sym p) ∙ k same

      go :
          (popped? : Result QueueError (SchedulerQueues × QueueItem))
          → pop_next s.queues m.now ≡ popped?
          → launch_popped m popped? s ≡ (s', ok true)
          → size s'.queues + 1 ≡ size s.queues
      go (err x) p k = let y = ap (λ o. o.1) k in absurd (cc)
      go (ok (q, item)) p k =
          let same =
            kept q _
              (launch_record-keeps q item m (get s.repository item.job_id) (record s { queues = q })
                refl)
              k in
          let (_, _, fewer) = pop_next-absent s.queues q m.now item h.consistent p in
          ap (λ x. size x + 1) same ∙ pop_next-size s.queues q fewer

  -- With as much fuel as items, a loop that was not blocked has nothing left to launch.
  launch_all-ends :
      (fuel now cache_now : ℕ) (generated : ℕ → ℕ) (s s' : Scheduler S)
      → IsSound now s
      → size s.queues ≤ fuel
      → launch_all fuel now cache_now generated s ≡ (s', ok false)
      → may_launch s' ≡ false
  unfolding launch_all may_launch
  launch_all-ends zero now cache_now generated s s' h l e =
      subst (λ x. may_launch x ≡ false) (ap (λ o. o.0) e) (ground arith)
  launch_all-ends (suc fuel) now cache_now generated s s' h l e = elim (Bool-cases (may_launch s)) [
    | inr p ↦ subst (λ x. may_launch x ≡ false) (ap (λ o. o.0) (rw p at e)) p
    | inl p ↦
        let at : Moment = record { now = now; cache_now = cache_now; generated = generated fuel } in
        launched (λ s₁ k l₁. launch_all-ends fuel now cache_now generated s₁ s' k l₁) at refl
          (launch_next at s) refl (rw p at e)
  ]
    where
      launched :
          ((s₁ : Scheduler S)
            → IsSound now s₁
            → size s₁.queues ≤ fuel
            → launch_all fuel now cache_now generated s₁ ≡ (s', ok false)
            → may_launch s' ≡ false)
          → (at : Moment) → at.now ≡ now
          → (o : Outcome S Bool) → launch_next at s ≡ o
          → continue o (go_on (launch_all fuel now cache_now generated)) ≡ (s', ok false)
          → may_launch s' ≡ false
      launched again at same (s₁, err x) q k = let y = ap (λ o. o.1) k in absurd (cc)
      launched again at same (s₁, ok false) q k = let y = ap (λ o. o.1) k in absurd (ground arith)
      launched again at same (s₁, ok true) q k =
          let sound = subst (λ t. IsSound t s) (sym same) h in
          let stays = subst (Stays at.now) q (launch_next-Sound at s sound) in
          let fewer = launch_next-shrinks at s s₁ sound q in
          again s₁ (subst (λ t. IsSound t s₁) same stays) (omega arith) k

  -- What the end of a round says of the state.
  abbrev pub Ends : Scheduler S → Verdict → Type 0
  Ends s waits = 0 < length s.active
  Ends s (returns true) = (s.active ≡ []) × (size s.queues ≡ 0)
  Ends s (returns false) = (s.active ≡ []) × (0 < size s.queues)
  Ends s loops = ⊥

  verdict-Ends :
      (s : Scheduler S) (blocked : Bool)
      → 0 < S.max_concurrency
      → (blocked ≡ false → may_launch s ≡ false)
      → Ends s (verdict s blocked)
  unfolding may_launch
  verdict-Ends s blocked room h = go s.active refl
    where
      go : (active : Dict Text (Phase S)) → s.active ≡ active → Ends s (verdict s blocked)
      go (p ∷ active) e = ground (arith, e)
      go [] e = ground (arith, e, h)

  -- In a sound state, with at least one task allowed: a round of `run_until_idle` that raises nothing never
  -- finds itself with nothing to do but to loop. It waits for a task that is there, it returns True with
  -- no task and empty queues, or it returns False with no task and an item in a queue.
  pub idle_round-Ends :
      (now cache_now : ℕ) (generated : ℕ → ℕ) (s s' : Scheduler S) (v : Verdict)
      → 0 < S.max_concurrency
      → IsSound now s
      → idle_round now cache_now generated s ≡ (s', ok v)
      → Ends s' v
  unfolding idle_round
  idle_round-Ends now cache_now generated s s' v room h e =
      go (launch_all (size s.queues) now cache_now generated s) refl e
    where
      go :
          (o : Outcome S Bool)
          → launch_all (size s.queues) now cache_now generated s ≡ o
          → continue o (λ blocked s₁. (s₁, ok (verdict s₁ blocked))) ≡ (s', ok v)
          → Ends s' v
      go (s₁, err x) q k = let y = ap (λ o. o.1) k in absurd (cc)
      go (s₁, ok blocked) q k =
          let same_v : verdict s₁ blocked ≡ v = ok_unique refl (ap (λ o. o.1) k) in
          let unblocked = λ (b : blocked ≡ false).
            launch_all-ends (size s.queues) now cache_now generated s s₁ h (omega arith)
              (q ∙ ap (λ c. (s₁, ok c)) b) in
          subst (Ends s') same_v (
            subst (λ x. Ends x (verdict s₁ blocked)) (ap (λ o. o.0) k)
              (verdict-Ends s₁ blocked room unblocked))
