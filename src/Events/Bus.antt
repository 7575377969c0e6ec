-- ===== src/Events/Bus.antt =====
-- events/bus.py: EventBus, EventFilter and EventSubscription. `registered` says whether the bus's set
-- of subscriptions has the subscription. Delivery does not wait, so `publish` is one step after the
-- append. `get` of an open subscription without events waits, which is no step.
use comfy_ui_ng.Prelude.{
  ℕ, ◌+◌, ◌-◌, Bool, true, false, not, ◌&&◌, ◌||◌, List, [], ◌∷◌, ◌++◌, Option, none, some, Result,
  ok, err, ◌>>=◌, ◌>>◌, raise_if, ltb, leb, ◌==◌, any, length, String, Text, text_eq, option_eq,
  ◌≟◌, if◌then◌else◌, nat_eq,
}
use comfy_ui_ng.Prelude.Dict.{Dict, lookup, insert}
use comfy_ui_ng.Json.{Value}
use comfy_ui_ng.Events.Journal.{EventError, value_error, EventEnvelope, Journal, append}
pub mod Delivery
pub mod Runs

pub record EventFilter : Type 0 where
  pub job_id : Option Text
  pub event_types : List Text

is_empty : Option Text → Bool
is_empty none = false
is_empty (some s) = length s == 0

-- `EventFilter.__post_init__`
pub check_filter : EventFilter → Result EventError (Unit {0})
unfolding is_empty
check_filter f = do
  raise_if (is_empty f.job_id) (value_error "job_id must be a non-empty string or None")
  raise_if (any (λ t. length t == 0) f.event_types)
      (value_error "event_types must be a tuple of non-empty strings")

pub matches : EventFilter → EventEnvelope → Bool
matches f e =
    (f.job_id ≟ none || e.job_id ≟ f.job_id)
    && (length f.event_types == 0 || any (λ t. t ≟ e.event_type) f.event_types)

pub record EventSubscription : Type 0 where
  pub filter : EventFilter
  pub max_buffer : ℕ
  pub queue : List EventEnvelope
  pub closed : Bool
  pub registered : Bool
  pub dropped_events : ℕ

-- `self._queue.get_nowait()` of a full queue, which is not empty.
pub tail : List EventEnvelope → List EventEnvelope
tail [] = []
tail (e ∷ es) = es

-- `_deliver`
pub deliver : EventSubscription → EventEnvelope → EventSubscription
unfolding tail
deliver s e =
    if s.closed || not (matches s.filter e)
    then s
    else if leb s.max_buffer (length s.queue)
    then record s { queue = tail s.queue ++ e ∷ []; dropped_events = s.dropped_events + 1 }
    else record s { queue = s.queue ++ e ∷ [] }

-- Subscriptions are known by their number, in the order of `subscribe`.
pub record EventBus : Type 0 where
  pub journal : Journal
  pub subscriptions : List EventSubscription

pub subscribe : EventBus → EventFilter → (max_buffer : ℕ) → EventBus × Result EventError ℕ
subscribe b f max_buffer =
    if ltb max_buffer 1 then (b, err (value_error "max_buffer must be a positive integer")) else (
      record b {
        subscriptions =
            b.subscriptions
            ++ (record {
              filter = f;
              max_buffer = max_buffer;
              queue = [];
              closed = false;
              registered = true;
              dropped_events = 0;
            })
              ∷ [];
      },
      ok (length b.subscriptions),
    )

deliver_registered : EventEnvelope → EventSubscription → EventSubscription
deliver_registered e s = if s.registered then deliver s e else s

-- `for subscription in tuple(self._subscriptions): …`. The subscriptions share nothing, so the order of
-- the set does not matter.
pub deliver_all : EventEnvelope → List EventSubscription → List EventSubscription
unfolding deliver_registered
deliver_all e [] = []
deliver_all e (s ∷ ss) = deliver_registered e s ∷ deliver_all e ss

published :
    EventBus
    → Journal × Result EventError EventEnvelope
    → EventBus × Result EventError EventEnvelope
unfolding deliver_all
published b (j, err x) = (record b { journal = j }, err x)
published b (j, ok e) =
    (record { journal = j; subscriptions = deliver_all e b.subscriptions }, ok e)

pub publish :
    EventBus
    → Text
    → Option Value
    → Option Text
    → (now : ℕ) → EventBus × Result EventError EventEnvelope
unfolding published
publish b event_type payload job_id now =
    published b (append b.journal event_type payload job_id now)

-- `close`
pub closing : EventSubscription → EventSubscription
closing s = if s.closed then s else record s { closed = true; registered = false }

-- `get`, when it returns.
pub taken : EventSubscription → EventSubscription
taken s = record s { queue = tail s.queue }

pub update :
    ℕ → (EventSubscription → EventSubscription) → List EventSubscription → List EventSubscription
update n f [] = []
update n f (s ∷ ss) = if n == 0 then f s ∷ ss else s ∷ update (n - 1) f ss

-- What the clients of the bus do, one after the other. A `getting` stands for a `get` that returns; it
-- does nothing where `get` would wait or raise.
pub data Call : Type 0 where
  publishing : Text → Option Value → Option Text → (now : ℕ) → Call
  subscribing : EventFilter → (max_buffer : ℕ) → Call
  getting : ℕ → Call
  closing_one : ℕ → Call

pub step : EventBus → Call → EventBus
step b (publishing event_type payload job_id now) = (publish b event_type payload job_id now).0
step b (subscribing f max_buffer) = (subscribe b f max_buffer).0
step b (getting n) = record b { subscriptions = update n taken b.subscriptions }
step b (closing_one n) = record b { subscriptions = update n closing b.subscriptions }
