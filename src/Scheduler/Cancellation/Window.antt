-- ===== src/Scheduler/Cancellation/Window.antt =====
-- The bounded history against all that was ever observed.
use comfy_ui_ng.Prelude.{
  ℕ, ◌≤◌, ◌≡◌, refl, sym, List, [], ◌∷◌, ◌++◌, Option, none, some, arith, leb, length,
  length-append, if◌then◌else◌, ok, ◌∙◌,
}
use mathlib.Core.List.{append_assoc, append-nil}
use comfy_ui_ng.Scheduler.Cancellation.{
  Checkpoint, Observation, Token, append_bounded, observed, resolve, checkpoint, cancel, begin_wait,
  end_wait, Action, cancelling, checking, waiting, resuming, closing, step, run, init,
}
use comfy_ui_ng.Scheduler.Cancellation.Laws.{IsSound, step-IsSound, init-IsSound}

-- The last `n` elements.
pub keep_last {ℓ} : {A : Type ℓ} → ℕ → List A → List A
keep_last n [] = []
keep_last n (x ∷ xs) = if leb (length (x ∷ xs)) n then x ∷ xs else keep_last n xs

keep_last_of_le {ℓ} : {A : Type ℓ} (n : ℕ) (xs : List A) → length xs ≤ n → keep_last n xs ≡ xs
unfolding keep_last
keep_last_of_le n [] h = refl
keep_last_of_le n (x ∷ xs) h = ground arith

keep_last-append {ℓ} :
    {A : Type ℓ} (n : ℕ) (xs ys : List A)
    → keep_last n (keep_last n xs ++ ys) ≡ keep_last n (xs ++ ys)
unfolding keep_last
keep_last-append n [] ys = refl
keep_last-append n (x ∷ xs) ys = ground (arith, keep_last-append n xs ys, length-append xs ys)

append_bounded-eq :
    (n : ℕ) (xs : List Observation) (o : Observation)
    → 1 ≤ n
    → length xs ≤ n
    → append_bounded n xs o ≡ keep_last n (xs ++ o ∷ [])
unfolding append_bounded keep_last
append_bounded-eq n [] o p h = ground arith
append_bounded-eq n (x ∷ xs) o p h =
    ground (arith, length-append xs (o ∷ []), keep_last_of_le n (xs ++ o ∷ []))

-- The observations that an interleaving makes, in order.
pub seen : Option Checkpoint → Option ℕ → List Observation
seen none position = []
seen (some c) position = (record { checkpoint = c; position = position }) ∷ []

pub observations : List Action → List Observation
observations [] = []
observations (checking name position ∷ actions) =
    seen (resolve name) position ++ observations actions
observations (a ∷ actions) = observations actions

observed-history :
    (t : Token) (c? : Option Checkpoint) (position : Option ℕ)
    → IsSound t
    → (observed t c? position).0.history ≡ keep_last t.history_limit (t.history ++ seen c? position)
unfolding observed seen
observed-history t none position s =
    rw append-nil (sym (keep_last_of_le t.history_limit t.history s.bounded))
observed-history t (some c) position s =
    append_bounded-eq t.history_limit t.history (record { checkpoint = c; position = position })
      s.room s.bounded

observed-limit :
    (t : Token) (c? : Option Checkpoint) (position : Option ℕ)
    → (observed t c? position).0.history_limit ≡ t.history_limit
unfolding observed
observed-limit t none position = refl
observed-limit t (some c) position = refl

step-limit : (t : Token) (a : Action) → (step t a).history_limit ≡ t.history_limit
unfolding step cancel checkpoint begin_wait end_wait
step-limit t (cancelling reason) = ground arith
step-limit t (checking name position) = observed-limit t (resolve name) position
step-limit t (waiting key loop_open) = ground arith
step-limit t (resuming key) = ground arith
step-limit t (closing key) = refl

-- What one action adds to the observations.
made : Action → List Observation
made (checking name position) = seen (resolve name) position
made _ = []

observations-cons :
    (a : Action) (actions : List Action)
    → observations (a ∷ actions) ≡ made a ++ observations actions
unfolding observations made
observations-cons (checking name position) actions = refl
observations-cons _ actions = refl

step-history :
    (t : Token) (a : Action)
    → IsSound t
    → (step t a).history ≡ keep_last t.history_limit (t.history ++ made a)
unfolding step cancel checkpoint begin_wait end_wait made
step-history t (cancelling reason) s =
    rw append-nil (ground (arith, keep_last_of_le t.history_limit t.history s.bounded))
step-history t (checking name position) s = observed-history t (resolve name) position s
step-history t (waiting key loop_open) s =
    rw append-nil (ground (arith, keep_last_of_le t.history_limit t.history s.bounded))
step-history t (resuming key) s =
    rw append-nil (ground (arith, keep_last_of_le t.history_limit t.history s.bounded))
step-history t (closing key) s =
    rw append-nil (sym (keep_last_of_le t.history_limit t.history s.bounded))

run-history :
    (t : Token) (actions : List Action)
    → IsSound t
    → (run t actions).history ≡ keep_last t.history_limit (t.history ++ observations actions)
unfolding run
run-history t [] s =
    unfold observations in rw append-nil (sym (keep_last_of_le t.history_limit t.history s.bounded))
run-history t (a ∷ actions) s =
    run-history (step t a) actions (step-IsSound t a s)
    ∙ rw (step-limit t a, step-history t a s, observations-cons a actions, ← append_assoc)
        (keep_last-append t.history_limit (t.history ++ made a) (observations actions))

-- The history of a token is the last `history_limit` of all observations made at known checkpoints,
-- in the order in which its users made them.
pub run-init-history :
    (limit : ℕ) (t : Token) (actions : List Action)
    → init limit ≡ ok t
    → (run t actions).history ≡ keep_last limit (observations actions)
unfolding init
run-init-history limit t actions h =
    let start : t.history ≡ [] = ground arith in
    let size : t.history_limit ≡ limit = ground arith in
    run-history t actions (init-IsSound limit t h) ∙ rw (start, size)
