-- ===== src/Scheduler/Cancellation/Laws.antt =====
-- What holds of a token under every interleaving of its users.
use comfy_ui_ng.Prelude.{
  ℕ, ◌≤◌, ◌≡◌, true, List, [], ◌∷◌, map, Option, none, some, ok, err, arith, Text, length,
  length-append, All, is_some,
}
use comfy_ui_ng.Scheduler.Cancellation.{
  Checkpoint, Observation, Waiter, Token, cancellation_requested, init, notify, cancel,
  append_bounded, raised, observed, resolve, checkpoint, begin_wait, discard, end_wait, closed,
  Action, cancelling, checking, waiting, resuming, closing, step, run,
}

-- A reason is recorded exactly when the event is set, every waiter whose loop is open is awake once
-- it is, and the history never outgrows its limit.
pub record IsSound (t : Token) : Type 0 where
  pub set_iff_reason : t.is_set ≡ is_some t.reason
  pub woken : t.is_set ≡ true → All (λ w. w.loop_open ≡ true → w.awake ≡ true) t.waiters
  pub bounded : length t.history ≤ t.history_limit
  pub room : 1 ≤ t.history_limit

notify-All : (ws : List Waiter) → All (λ w. w.loop_open ≡ true → w.awake ≡ true) (map notify ws)
unfolding notify
notify-All [] = tt
notify-All (w ∷ ws) = (λ h. ground arith, notify-All ws)

discard-All : (P : Waiter → Type 0) (key : ℕ) (ws : List Waiter) → All P ws → All P (discard key ws)
unfolding discard
discard-All P key [] h = tt
discard-All P key (w ∷ ws) h = ground (arith, discard-All P key ws h.1)

closed-All :
    (key : ℕ) (ws : List Waiter)
    → All (λ w. w.loop_open ≡ true → w.awake ≡ true) ws
    → All (λ w. w.loop_open ≡ true → w.awake ≡ true) (closed key ws)
unfolding closed
closed-All key [] h = tt
closed-All key (w ∷ ws) h = ((λ e. ground (arith, h.0)), closed-All key ws h.1)

append_bounded-length :
    (limit : ℕ) (xs : List Observation) (o : Observation)
    → 1 ≤ limit
    → length xs ≤ limit
    → length (append_bounded limit xs o) ≤ limit
unfolding append_bounded
append_bounded-length limit [] o p h = omega arith
append_bounded-length limit (x ∷ xs) o p h = ground (arith, length-append xs (o ∷ []))

observed-IsSound :
    (t : Token) (c? : Option Checkpoint) (position : Option ℕ)
    → IsSound t
    → IsSound (observed t c? position).0
unfolding observed
observed-IsSound t none position s = s
observed-IsSound t (some c) position s =
    let o : Observation = record { checkpoint = c; position = position } in
    record {
      set_iff_reason = s.set_iff_reason;
      woken = s.woken;
      bounded = append_bounded-length t.history_limit t.history o s.room s.bounded;
      room = s.room;
    }

pub step-IsSound : (t : Token) (a : Action) → IsSound t → IsSound (step t a)
unfolding step cancel checkpoint begin_wait end_wait
step-IsSound t (cancelling reason) s = ground (arith, notify-All t.waiters)
step-IsSound t (checking name position) s = observed-IsSound t (resolve name) position s
step-IsSound t (waiting key loop_open) s = ground arith
step-IsSound t (resuming key) s = record {
  set_iff_reason = s.set_iff_reason;
  woken = λ h. discard-All (λ w. w.loop_open ≡ true → w.awake ≡ true) key t.waiters (s.woken h);
  bounded = s.bounded;
  room = s.room;
}
step-IsSound t (closing key) s = ground (arith, closed-All key t.waiters)

run-IsSound : (t : Token) (actions : List Action) → IsSound t → IsSound (run t actions)
unfolding run
run-IsSound t [] s = s
run-IsSound t (a ∷ actions) s = run-IsSound (step t a) actions (step-IsSound t a s)

pub init-IsSound : (limit : ℕ) (t : Token) → init limit ≡ ok t → IsSound t
unfolding init
init-IsSound limit t h = ground arith

-- Under every interleaving of its users a token keeps its reason and its event together, wakes every
-- waiter whose loop is open when it is cancelled, and holds at most `history_limit` observations.
pub run-init-IsSound :
    (limit : ℕ) (t : Token) (actions : List Action) → init limit ≡ ok t → IsSound (run t actions)
run-init-IsSound limit t actions h = run-IsSound t actions (init-IsSound limit t h)

step_keeps_reason :
    (t : Token) (a : Action) (r : Text) → IsSound t → t.reason ≡ some r → (step t a).reason ≡ some r
unfolding step cancel checkpoint observed begin_wait end_wait
step_keeps_reason t (cancelling reason) r s h = ground arith
step_keeps_reason t (checking name position) r s h = ground arith
step_keeps_reason t (waiting key loop_open) r s h = ground arith
step_keeps_reason t (resuming key) r s h = ground arith
step_keeps_reason t (closing key) r s h = h

run_keeps_reason :
    (t : Token) (actions : List Action) (r : Text)
    → IsSound t
    → t.reason ≡ some r
    → (run t actions).reason ≡ some r
unfolding run
run_keeps_reason t [] r s h = h
run_keeps_reason t (a ∷ actions) r s h =
    run_keeps_reason (step t a) actions r (step-IsSound t a s) (step_keeps_reason t a r s h)

-- A cancel that returns True has set its reason.
pub cancel_returns :
    (t t' : Token) (reason : Text) → cancel t reason ≡ (t', ok true) → t'.reason ≡ some reason
unfolding cancel
cancel_returns t t' reason h = ground arith

pub checkpoint_raises :
    (t : Token) (name : Text) (c : Checkpoint) (position : Option ℕ) (r : Text)
    → t.reason ≡ some r
    → resolve name ≡ some c
    → (checkpoint t name position).1 ≡ err (cancellation_requested r c position)
unfolding checkpoint observed raised
checkpoint_raises t name c position r h e = ground arith

cancel-IsSound : (t : Token) (reason : Text) → IsSound t → IsSound (cancel t reason).0
unfolding step
cancel-IsSound t reason s = step-IsSound t (cancelling reason) s

cancel_sets :
    (t : Token) (reason : Text)
    → (cancel t reason).1 ≡ ok true
    → (cancel t reason).0.reason ≡ some reason
unfolding cancel
cancel_sets t reason h = ground arith

-- The first cancellation wins: once `cancel` has returned True, and whatever happens after that,
-- the token keeps that reason and every known checkpoint raises with it.
pub cancel_wins :
    (t : Token) (reason : Text) (actions : List Action) (name : Text) (c : Checkpoint)
    (position : Option ℕ)
    → IsSound t
    → (cancel t reason).1 ≡ ok true
    → resolve name ≡ some c
    → let after = run (cancel t reason).0 actions in
      (after.reason ≡ some reason)
      × ((checkpoint after name position).1 ≡ err (cancellation_requested reason c position))
cancel_wins t reason actions name c position s h e =
    let kept =
      run_keeps_reason (cancel t reason).0 actions reason (cancel-IsSound t reason s)
        (cancel_sets t reason h) in
    (kept, checkpoint_raises (run (cancel t reason).0 actions) name c position reason kept e)
