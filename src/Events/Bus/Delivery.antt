-- ===== src/Events/Bus/Delivery.antt =====
-- What a subscription gets of the events that are published while it is open.
use comfy_ui_ng.Prelude.{
  ℕ, ◌+◌, ◌≤◌, ◌≡◌, refl, arith, false, not, Bool-cases, List, [], ◌∷◌, ◌++◌, leb, ◌==◌, length,
  length-append, if◌then◌else◌, inl, inr,
}
use mathlib.Core.List.{append_assoc, append-nil}
use comfy_ui_ng.Events.Journal.{EventEnvelope}
use comfy_ui_ng.Events.Bus.{EventFilter, matches, EventSubscription, tail, deliver, closing, taken}

abbrev pub matching : EventFilter → List EventEnvelope → List EventEnvelope
matching f [] = []
matching f (e ∷ es) = if matches f e then e ∷ matching f es else matching f es

-- What an observer of one subscription writes down: the events that were published while it was open,
-- and how many events were taken from it.
pub record Seen : Type 0 where
  pub heard : List EventEnvelope
  pub received : ℕ

-- The buffer is the end of the matching events that were heard; each of those before it was taken or
-- counted as dropped; and the buffer keeps its bound.
pub record Tracks (s : EventSubscription) (seen : Seen) : Type 0 where
  pub gone : List EventEnvelope
  pub split : matching s.filter seen.heard ≡ gone ++ s.queue
  pub counted : length gone ≡ seen.received + s.dropped_events
  pub bounded : length s.queue ≤ s.max_buffer
  pub room : 1 ≤ s.max_buffer
  pub listed : s.registered ≡ not s.closed

matching-append :
    (f : EventFilter) (es : List EventEnvelope) (e : EventEnvelope)
    → matching f (es ++ e ∷ []) ≡ matching f es ++ (if matches f e then e ∷ [] else [])
matching-append f [] e = ground arith
matching-append f (x ∷ es) e = ground (arith, matching-append f es e)

-- A full buffer gives its oldest event up.
tail-gone :
    (gone queue : List EventEnvelope) (e : EventEnvelope)
    → 1 ≤ length queue
    → (gone' : List EventEnvelope) × ((gone ++ queue) ++ e ∷ [] ≡ gone' ++ (tail queue ++ e ∷ []))
      × (length gone' ≡ length gone + 1)
      × (length (tail queue ++ e ∷ []) ≡ length queue)
unfolding tail
tail-gone gone [] e h = absurd (omega (arith, h))
tail-gone gone (x ∷ xs) e h = (
  gone ++ x ∷ [],
  simp append_assoc,
  omega (arith, length-append gone (x ∷ [])),
  omega (arith, length-append xs (e ∷ [])),
)

-- An open subscription is offered an event.
pub deliver-Tracks :
    (s : EventSubscription) (seen : Seen) (e : EventEnvelope)
    → s.closed ≡ false
    → Tracks s seen
    → Tracks (deliver s e) (record seen { heard = seen.heard ++ e ∷ [] })
unfolding deliver
deliver-Tracks s seen e o t = elim (Bool-cases (matches s.filter e)) [
  | inr p ↦
      rw (o, p)
        (record {
          gone = t.gone;
          split = rw (matching-append s.filter seen.heard e, p, append-nil) t.split;
          counted = t.counted;
          bounded = t.bounded;
          room = t.room;
          listed = rw o at t.listed;
        })
  | inl p ↦ elim (Bool-cases (leb s.max_buffer (length s.queue))) [
    | inl full ↦
        let (gone', joined, more, same) = tail-gone t.gone s.queue e (ground (arith, t.room)) in
        rw (o, p, full)
          (record {
            gone = gone';
            split = rw (matching-append s.filter seen.heard e, p, t.split) joined;
            counted = omega (arith, more, t.counted);
            bounded = omega (arith, same, t.bounded);
            room = t.room;
            listed = rw o at t.listed;
          })
    | inr space ↦
        rw (o, p, space)
          (record {
            gone = t.gone;
            split =
                rw (matching-append s.filter seen.heard e, p, t.split)
                  (append_assoc t.gone s.queue (e ∷ []));
            counted = t.counted;
            bounded = ground (arith, length-append s.queue (e ∷ []));
            room = t.room;
            listed = rw o at t.listed;
          })
  ]
]

-- An event is taken out of the buffer.
pub taken-Tracks :
    (s : EventSubscription) (seen : Seen)
    → Tracks s seen
    → Tracks (taken s) (record seen {
      received = if length s.queue == 0 then seen.received else seen.received + 1;
    })
unfolding taken tail
taken-Tracks s seen t = take_first s.queue t.split t.bounded
  where
    take_first :
        (queue : List EventEnvelope)
        → matching s.filter seen.heard ≡ t.gone ++ queue
        → length queue ≤ s.max_buffer
        → Tracks
            (record s { queue = tail queue })
            (record seen {
              received = if length queue == 0 then seen.received else seen.received + 1;
            })
    take_first [] q b = record {
      gone = t.gone;
      split = q;
      counted = t.counted;
      bounded = b;
      room = t.room;
      listed = t.listed;
    }
    take_first (x ∷ xs) q b = record {
      gone = t.gone ++ x ∷ [];
      split = rw append_assoc q;
      counted = ground (arith, length-append t.gone (x ∷ []), t.counted);
      bounded = omega arith;
      room = t.room;
      listed = t.listed;
    }

pub closing-Tracks : (s : EventSubscription) (seen : Seen) → Tracks s seen → Tracks (closing s) seen
unfolding closing
closing-Tracks s seen t = elim (Bool-cases s.closed) [
  | inl p ↦ rw p (record {
    gone = t.gone;
    split = t.split;
    counted = t.counted;
    bounded = t.bounded;
    room = t.room;
    listed = rw p at t.listed;
  })
  | inr p ↦ rw p (record {
    gone = t.gone;
    split = t.split;
    counted = t.counted;
    bounded = t.bounded;
    room = t.room;
    listed = refl;
  })
]
