-- ===== src/Scheduler/Cancellation.antt =====
-- scheduler/cancellation.py. A method is one step, since the lock covers its accesses; `wait` is two
-- steps, what it does before and after it sleeps. A waiter stands for an event of an event loop:
-- `loop_open` says whether `call_soon_threadsafe` reaches the loop, `awake` whether the event is set.
use comfy_ui_ng.Prelude.{
  ℕ, ◌+◌, Bool, true, false, not, ◌&&◌, ◌||◌, List, [], ◌∷◌, ◌++◌, map, Option, none, some, Result,
  ok, err, ltb, leb, ◌==◌, Text, text_beq, codes, length, if◌then◌else◌,
}
use comfy_ui_ng.Jobs.Record.{is_untrimmed}
use Prim.Native.String.{String}
pub mod Laws
pub mod Window
mod Tests

pub data Checkpoint : Type 0 where
  sampler_step between_blocks before_decode before_save : Checkpoint

-- `CancellationCheckpoint(checkpoint)` of a text; `none` is its ValueError.
unfoldable pub resolve : Text → Option Checkpoint
resolve s =
    if text_beq s (codes "sampler_step")
    then some sampler_step
    else (if text_beq s (codes "between_blocks")
        then some between_blocks
        else (if text_beq s (codes "before_decode")
            then some before_decode
            else (if text_beq s (codes "before_save") then some before_save else none)))

pub record Observation : Type 0 where
  pub checkpoint : Checkpoint
  pub position : Option ℕ

pub record Waiter : Type 0 where
  pub key : ℕ
  pub loop_open : Bool
  pub awake : Bool

pub record Token : Type 0 where
  pub is_set : Bool
  pub reason : Option Text
  pub history : List Observation
  pub history_limit : ℕ
  pub waiters : List Waiter

pub data TokenError : Type 0 where
  value_error : String → TokenError
  cancellation_requested : (reason : Text) → Checkpoint → Option ℕ → TokenError

-- `CancellationToken.__init__`
unfoldable pub init : ℕ → Result TokenError Token
init history_limit =
    if ltb history_limit 1
    then err (value_error "history_limit must be a positive integer")
    else ok (record {
      is_set = false;
      reason = none;
      history = [];
      history_limit = history_limit;
      waiters = [];
    })

-- `loop.call_soon_threadsafe(waiter.set)`; a closed loop raises and is passed over.
notify : Waiter → Waiter
notify w = if w.loop_open then record w { awake = true } else w

unfoldable pub cancel : Token → Text → Token × Result TokenError Bool
unfolding notify is_untrimmed
cancel t reason =
    if is_untrimmed reason
    then (t, err (value_error "reason must be a non-empty trimmed string"))
    else (if t.is_set then (t, ok false) else (
      record t { reason = some reason; is_set = true; waiters = map notify t.waiters },
      ok true,
    ))

-- `deque(maxlen=limit).append`: a full deque drops its oldest element.
append_bounded : ℕ → List Observation → Observation → List Observation
append_bounded limit [] o = o ∷ []
append_bounded limit (x ∷ xs) o =
    if leb limit (length (x ∷ xs)) then xs ++ o ∷ [] else x ∷ xs ++ o ∷ []

raised : Option Text → Checkpoint → Option ℕ → Result TokenError (Unit {0})
raised none c position = ok tt
raised (some reason) c position = err (cancellation_requested reason c position)

observed : Token → Option Checkpoint → Option ℕ → Token × Result TokenError (Unit {0})
unfolding append_bounded raised
observed t none position = (t, err (value_error "unknown cancellation checkpoint"))
observed t (some c) position = (
  record t {
    history =
        append_bounded t.history_limit t.history (record { checkpoint = c; position = position });
  },
  raised t.reason c position,
)

unfoldable pub checkpoint : Token → Text → Option ℕ → Token × Result TokenError (Unit {0})
unfolding observed
checkpoint t name position = observed t (resolve name) position

-- `wait` up to its sleep: the reason at once, or a waiter of its own.
pub begin_wait : Token → (key : ℕ) → (loop_open : Bool) → Token × Option Text
begin_wait t key loop_open = elim t.reason [
  | some reason ↦ (t, some reason)
  | none ↦ (
    record t { waiters = (record { key = key; loop_open = loop_open; awake = false }) ∷ t.waiters },
    none,
  )
]

-- `self._waiters.discard(key)`
discard : ℕ → List Waiter → List Waiter
discard key [] = []
discard key (w ∷ ws) = let rest = discard key ws in if w.key == key then rest else w ∷ rest

-- `wait` after its sleep: `self._reason or "cancelled"`, and the waiter is discarded.
pub end_wait : Token → ℕ → Token × Text
unfolding discard
end_wait t key = (
  record t { waiters = discard key t.waiters },
  elim t.reason [ some reason ↦ reason | none ↦ codes "cancelled" ],
)

-- The loop of a waiter is closed by its owner.
closed : ℕ → List Waiter → List Waiter
closed key [] = []
closed key (w ∷ ws) = (if w.key == key then record w { loop_open = false } else w) ∷ closed key ws

pub data Action : Type 0 where
  cancelling : Text → Action
  checking : Text → Option ℕ → Action
  waiting : ℕ → Bool → Action
  resuming closing : ℕ → Action

-- One thread's next step.
pub step : Token → Action → Token
unfolding closed
step t (cancelling reason) = (cancel t reason).0
step t (checking name position) = (checkpoint t name position).0
step t (waiting key loop_open) = (begin_wait t key loop_open).0
step t (resuming key) = (end_wait t key).0
step t (closing key) = record t { waiters = closed key t.waiters }

-- The threads' steps in the order in which they take the lock.
pub run : Token → List Action → Token
run t [] = t
run t (a ∷ actions) = run (step t a) actions
