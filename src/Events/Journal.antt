-- ===== src/Events/Journal.antt =====
-- events/models.py and events/journal.py: EventEnvelope and InMemoryEventJournal. `now` is what the
-- clock returns. The lock covers the whole of `append`, so it is one step.
use comfy_ui_ng.Prelude.{
  ℕ, zero, suc, ◌+◌, ◌-◌, Bool, true, false, not, ◌&&◌, ◌||◌, List, [], ◌∷◌, ◌++◌, Option, none,
  some, Result, ok, err, ◌>>=◌, ◌>>◌, raise_if, map_err, ltb, leb, ◌==◌, any, length, String, Text,
  text_eq, option_eq, ◌≟◌, codes, if◌then◌else◌,
}
use comfy_ui_ng.Prelude.Dict.{Dict, lookup, insert}
use comfy_ui_ng.Json.{
  Value, object, mapping, end, is_object, JsonValueError, field_path, freeze, encodes,
}
use comfy_ui_ng.Jobs.Record.{is_untrimmed}
pub mod Sequences
pub mod Replay

pub data EventError : Type 0 where
  value_error : String → EventError
  json_error : JsonValueError → EventError

-- `_identifier`
pub identifier : Text → Result EventError (Unit {0})
identifier s = do
  raise_if (is_untrimmed s || ltb 200 (length s)) (value_error "must be a non-empty trimmed string")
  raise_if (not (encodes s)) (value_error "must contain valid Unicode")

pub record EventEnvelope : Type 0 where
  pub sequence : ℕ
  pub stream_sequence : ℕ
  pub event_type : Text
  pub emitted_at : ℕ
  pub payload : Value
  pub job_id : Option Text

optional_identifier : Option Text → Result EventError (Unit {0})
unfolding identifier
optional_identifier none = ok tt
optional_identifier (some s) = identifier s

-- `EventEnvelope.__post_init__`: the guards, and the event with its payload frozen. 46 is `"."`.
pub check_event : EventEnvelope → Result EventError EventEnvelope
unfolding identifier optional_identifier
check_event e = do
  raise_if (ltb e.sequence 1 || ltb e.stream_sequence 1) (value_error "must be a positive integer")
  identifier e.event_type
  raise_if (not (any (λ c. c == 46) e.event_type))
      (value_error "event_type must be namespaced with a dot")
  optional_identifier e.job_id
  raise_if (not (is_object e.payload)) (value_error "payload must be a JSON object")
  payload ← map_err json_error (freeze (field_path "payload") e.payload)
  ok (record e { payload = payload })

pub record Journal : Type 0 where
  pub events : List EventEnvelope
  pub stream_sequences : Dict Text ℕ

abbrev pub empty : Journal
empty = record { events = []; stream_sequences = [] }

-- `job_id or "__system__"`
pub stream_of : Option Text → Text
stream_of none = codes "__system__"
stream_of (some s) = if length s == 0 then codes "__system__" else s

-- `self._stream_sequences.get(stream, 0)`
pub or_zero : Option ℕ → ℕ
or_zero none = 0
or_zero (some n) = n

payload_or_empty : Option Value → Value
payload_or_empty none = object mapping end
payload_or_empty (some v) = v

abbrev envelope : Journal → Text → Option Value → Option Text → (now : ℕ) → EventEnvelope
unfolding payload_or_empty
envelope j event_type payload job_id now = record {
  sequence = length j.events + 1;
  stream_sequence = or_zero (lookup (stream_of job_id) j.stream_sequences) + 1;
  event_type = event_type;
  emitted_at = now;
  payload = payload_or_empty payload;
  job_id = job_id;
}

pub appended : Journal → Result EventError EventEnvelope → Journal × Result EventError EventEnvelope
appended j (err x) = (j, err x)
appended j (ok e) = (
  record {
    events = j.events ++ e ∷ [];
    stream_sequences = insert (stream_of e.job_id) e.stream_sequence j.stream_sequences;
  },
  ok e,
)

pub append :
    Journal
    → Text
    → Option Value
    → Option Text
    → (now : ℕ) → Journal × Result EventError EventEnvelope
unfolding payload_or_empty
append j event_type payload job_id now =
    appended j (check_event (envelope j event_type payload job_id now))

-- The test of `replay`'s generator. `x is None or event.x == x`
pub selects : (after_sequence : ℕ) → Option Text → (event_types : List Text) → EventEnvelope → Bool
selects after_sequence job_id event_types e =
    ltb after_sequence e.sequence
    && ((job_id ≟ none || e.job_id ≟ job_id)
        && (length event_types == 0 || any (λ t. t ≟ e.event_type) event_types))

pub filter : (EventEnvelope → Bool) → List EventEnvelope → List EventEnvelope
filter p [] = []
filter p (e ∷ es) = if p e then e ∷ filter p es else filter p es

-- `result[:limit]`
pub take : ℕ → List EventEnvelope → List EventEnvelope
take zero es = []
take (suc n) [] = []
take (suc n) (e ∷ es) = e ∷ take n es

pub replay :
    Journal
    → (after_sequence : ℕ) → Option Text
    → (event_types : List Text) → (limit : ℕ) → Result EventError (List EventEnvelope)
replay j after_sequence job_id event_types limit = do
  raise_if (ltb limit 1) (value_error "limit must be a positive integer")
  raise_if (any (λ t. length t == 0) event_types)
      (value_error "event_types must be a tuple of strings")
  ok (take limit (filter (selects after_sequence job_id event_types) j.events))

pub latest_sequence : Journal → ℕ
latest_sequence j = length j.events

-- The calls that append, with what the clock returns.
pub record Append : Type 0 where
  pub event_type : Text
  pub payload : Option Value
  pub job_id : Option Text
  pub now : ℕ

pub append_all : Journal → List Append → Journal
append_all j [] = j
append_all j (a ∷ rest) = append_all (append j a.event_type a.payload a.job_id a.now).0 rest
