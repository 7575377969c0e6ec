-- ===== src/Events/Journal/Sequences.antt =====
-- The numbers that the journal gives to its events.
use comfy_ui_ng.Prelude.{
  ℕ, ◌+◌, ◌≡◌, refl, arith, List, [], ◌∷◌, ◌++◌, Option, Result, ok, err, length, Text, text_eq,
  ◌≟◌, if◌then◌else◌,
}
use comfy_ui_ng.Prelude.Dict.{lookup, lookup-insert}
use mathlib.Core.List.{append_assoc, append-nil}
use comfy_ui_ng.Json.{Value}
use comfy_ui_ng.Events.Journal.{
  EventError, EventEnvelope, check_event, Journal, empty, stream_of, or_zero, envelope, appended,
  append, Append, append_all,
}

-- The events are numbered from the given number on.
abbrev pub Numbered : ℕ → List EventEnvelope → Type 0
Numbered n [] = Unit
Numbered n (e ∷ es) = (e.sequence ≡ n) × Numbered (n + 1) es

-- How many events of the stream there are.
abbrev pub count : Text → List EventEnvelope → ℕ
count s [] = 0
count s (e ∷ es) = (if stream_of e.job_id ≟ s then 1 else 0) + count s es

-- Each event's number in its stream counts the events of the stream up to it, those before included.
abbrev pub Streamed : List EventEnvelope → List EventEnvelope → Type 0
Streamed before [] = Unit
Streamed before (e ∷ es) =
    (e.stream_sequence ≡ count (stream_of e.job_id) before + 1) × Streamed (before ++ e ∷ []) es

pub record IsSequenced (j : Journal) : Type 0 where
  pub numbered : Numbered 1 j.events
  pub streamed : Streamed [] j.events
  pub counted : (s : Text) → or_zero (lookup s j.stream_sequences) ≡ count s j.events

Numbered-append :
    (n : ℕ) (es : List EventEnvelope) (e : EventEnvelope)
    → Numbered n es
    → e.sequence ≡ n + length es
    → Numbered n (es ++ e ∷ [])
Numbered-append n [] e h q = (omega arith, tt)
Numbered-append n (x ∷ es) e h q = (h.0, Numbered-append (n + 1) es e h.1 (omega arith))

Streamed-append :
    (before es : List EventEnvelope) (e : EventEnvelope)
    → Streamed before es
    → e.stream_sequence ≡ count (stream_of e.job_id) (before ++ es) + 1
    → Streamed before (es ++ e ∷ [])
Streamed-append before [] e h q = (rw append-nil at q, tt)
Streamed-append before (x ∷ es) e h q =
    (h.0, Streamed-append (before ++ x ∷ []) es e h.1 (rw (append_assoc before (x ∷ []) es) q))

count-append :
    (s : Text) (es : List EventEnvelope) (e : EventEnvelope)
    → count s (es ++ e ∷ []) ≡ count s es + (if stream_of e.job_id ≟ s then 1 else 0)
count-append s [] e = omega arith
count-append s (x ∷ es) e = omega (arith, count-append s es e)

-- What the guards pass is the event with its payload frozen.
check_event-same :
    (e e' : EventEnvelope)
    → check_event e ≡ ok e'
    → (e'.sequence ≡ e.sequence) × (e'.stream_sequence ≡ e.stream_sequence) × (e'.job_id ≡ e.job_id)
unfolding check_event
check_event-same e e' h = ground arith

appended-IsSequenced :
    (j : Journal) (r : Result EventError EventEnvelope)
    → ((e : EventEnvelope)
        → r ≡ ok e
        → (e.sequence ≡ length j.events + 1)
          × (e.stream_sequence ≡ or_zero (lookup (stream_of e.job_id) j.stream_sequences) + 1))
    → IsSequenced j
    → IsSequenced (appended j r).0
unfolding appended or_zero
appended-IsSequenced j (err x) f h = h
appended-IsSequenced j (ok e) f h =
    let (n, m) = f e refl in
    record {
      numbered = Numbered-append 1 j.events e h.numbered (omega (arith, n));
      streamed =
          Streamed-append [] j.events e h.streamed
            (omega (arith, m, h.counted (stream_of e.job_id)));
      counted = λ s. ground (
        arith,
        lookup-insert (stream_of e.job_id) s e.stream_sequence j.stream_sequences,
        text_eq.beq-iff_eq (stream_of e.job_id) s,
        count-append s j.events e,
        h.counted s,
        h.counted (stream_of e.job_id),
      );
    }

append-IsSequenced :
    (j : Journal) (event_type : Text) (payload : Option Value) (job_id : Option Text) (now : ℕ)
    → IsSequenced j
    → IsSequenced (append j event_type payload job_id now).0
unfolding append
append-IsSequenced j event_type payload job_id now h =
    appended-IsSequenced j _
      (λ e q.
        let (n, m, same) = check_event-same (envelope j event_type payload job_id now) e q in
        (n, rw same m))
      h

empty-IsSequenced : IsSequenced empty
unfolding lookup or_zero
empty-IsSequenced = record { numbered = tt; streamed = tt; counted = λ s. refl }

append_all-IsSequenced :
    (j : Journal) (calls : List Append) → IsSequenced j → IsSequenced (append_all j calls)
unfolding append_all
append_all-IsSequenced j [] h = h
append_all-IsSequenced j (a ∷ rest) h =
    append_all-IsSequenced (append j a.event_type a.payload a.job_id a.now).0 rest
      (append-IsSequenced j a.event_type a.payload a.job_id a.now h)

-- Whatever was appended to an empty journal, refused or not, its events are numbered 1, 2, … in the
-- order of the journal, and those of each stream are numbered 1, 2, … in the same order.
pub append_all-empty-IsSequenced : (calls : List Append) → IsSequenced (append_all empty calls)
append_all-empty-IsSequenced calls = append_all-IsSequenced empty calls empty-IsSequenced
