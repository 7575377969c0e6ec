-- ===== src/Events/Bus/Runs.antt =====
-- The bus in use: publishers, and one subscription that is watched among others.
use comfy_ui_ng.Prelude.{
  ℕ, zero, suc, ◌+◌, ◌≡◌, refl, arith, Bool, true, false, Bool-cases, List, [], ◌∷◌, ◌++◌, Option,
  none, some, Result, ok, err, ltb, ◌==◌, length, if◌then◌else◌, inl, inr,
}
use comfy_ui_ng.Events.Journal.{EventError, EventEnvelope, Journal, append}
use comfy_ui_ng.Events.Bus.{
  EventFilter, EventSubscription, deliver, EventBus, subscribe, deliver_registered, deliver_all,
  published, publish, closing, taken, update, Call, publishing, subscribing, getting, closing_one,
  step,
}
use comfy_ui_ng.Events.Bus.Delivery.{Seen, Tracks, deliver-Tracks, taken-Tracks, closing-Tracks}

abbrev pub nth : ℕ → List EventSubscription → Option EventSubscription
nth n [] = none
nth zero (s ∷ ss) = some s
nth (suc n) (s ∷ ss) = nth n ss

-- One call, and what the observer of the subscription `n` writes down.
hearing : Option EventSubscription → Seen → EventEnvelope → Seen
hearing none seen e = seen
hearing (some s) seen e = if s.closed then seen else record seen { heard = seen.heard ++ e ∷ [] }

publication : Option EventSubscription → Seen → Result EventError EventEnvelope → Seen
unfolding hearing
publication s seen (err x) = seen
publication s seen (ok e) = hearing s seen e

reception : Option EventSubscription → Seen → Seen
reception none seen = seen
reception (some s) seen = record seen {
  received = if length s.queue == 0 then seen.received else seen.received + 1;
}

observe : ℕ → EventBus → Call → Seen → Seen
unfolding publication reception
observe n b (publishing event_type payload job_id now) seen =
    publication (nth n b.subscriptions) seen (publish b event_type payload job_id now).1
observe n b (subscribing f max_buffer) seen = seen
observe n b (getting m) seen = if m == n then reception (nth n b.subscriptions) seen else seen
observe n b (closing_one m) seen = seen

abbrev pub nothing : Seen
nothing = record { heard = []; received = 0 }

pub watch : ℕ → EventBus → List Call → Seen → EventBus × Seen
unfolding observe
watch n b [] seen = (b, seen)
watch n b (c ∷ calls) seen = watch n (step b c) calls (observe n b c seen)

abbrev pub Follows : Option EventSubscription → Seen → Type 0
Follows none seen = seen ≡ nothing
Follows (some s) seen = Tracks s seen

nth-append :
    (n : ℕ) (ss : List EventSubscription) (s : EventSubscription)
    → nth n (ss ++ s ∷ []) ≡ (if n == length ss then some s else nth n ss)
nth-append zero [] s = refl
nth-append (suc n) [] s = ground arith
nth-append zero (x ∷ ss) s = ground arith
nth-append (suc n) (x ∷ ss) s = ground (arith, nth-append n ss s)

nth-end : (n : ℕ) (ss : List EventSubscription) → n ≡ length ss → nth n ss ≡ none
nth-end n [] h = refl
nth-end zero (x ∷ ss) h = absurd (omega arith)
nth-end (suc n) (x ∷ ss) h = nth-end n ss (omega arith)

abbrev mapped :
    (EventSubscription → EventSubscription) → Option EventSubscription → Option EventSubscription
mapped f none = none
mapped f (some s) = some (f s)

nth-update :
    (n m : ℕ) (f : EventSubscription → EventSubscription) (ss : List EventSubscription)
    → nth n (update m f ss) ≡ (if m == n then mapped f (nth n ss) else nth n ss)
unfolding update
nth-update n m f [] = ground arith
nth-update zero zero f (x ∷ ss) = refl
nth-update zero (suc m) f (x ∷ ss) = ground arith
nth-update (suc n) zero f (x ∷ ss) = ground arith
nth-update (suc n) (suc m) f (x ∷ ss) = ground (arith, nth-update n m f ss)

nth-deliver_all :
    (n : ℕ) (e : EventEnvelope) (ss : List EventSubscription)
    → nth n (deliver_all e ss) ≡ mapped (deliver_registered e) (nth n ss)
unfolding deliver_all
nth-deliver_all n e [] = refl
nth-deliver_all zero e (x ∷ ss) = refl
nth-deliver_all (suc n) e (x ∷ ss) = nth-deliver_all n e ss

hearing-Follows :
    (m : Option EventSubscription) (seen : Seen) (e : EventEnvelope)
    → Follows m seen
    → Follows (mapped (deliver_registered e) m) (hearing m seen e)
unfolding hearing deliver_registered
hearing-Follows none seen e f = f
hearing-Follows (some s) seen e f = offered s.registered s.closed refl refl
  where
    offered :
        (registered closed : Bool)
        → s.registered ≡ registered
        → s.closed ≡ closed
        → Tracks
            (if registered then deliver s e else s)
            (if closed then seen else record seen { heard = seen.heard ++ e ∷ [] })
    offered true true p q = absurd (let k = f.listed in ground arith)
    offered false false p q = absurd (let k = f.listed in ground arith)
    offered true false p q = deliver-Tracks s seen e q f
    offered false true p q = f

published-Follows :
    (n : ℕ) (b : EventBus) (r : Journal × Result EventError EventEnvelope) (seen : Seen)
    → Follows (nth n b.subscriptions) seen
    → Follows
        (nth n (published b r).0.subscriptions)
        (publication (nth n b.subscriptions) seen (published b r).1)
unfolding published publication
published-Follows n b (j, err x) seen f = f
published-Follows n b (j, ok e) seen f =
    rw (nth-deliver_all n e b.subscriptions) (hearing-Follows (nth n b.subscriptions) seen e f)

abbrev fresh : EventFilter → ℕ → EventSubscription
fresh f max_buffer = record {
  filter = f;
  max_buffer = max_buffer;
  queue = [];
  closed = false;
  registered = true;
  dropped_events = 0;
}

fresh-Tracks :
    (f : EventFilter) (max_buffer : ℕ)
    → ltb max_buffer 1 ≡ false
    → Tracks (fresh f max_buffer) nothing
fresh-Tracks f max_buffer h = record {
  gone = [];
  split = refl;
  counted = refl;
  bounded = omega arith;
  room = ground arith;
  listed = refl;
}

subscribe-Follows :
    (n : ℕ) (b : EventBus) (f : EventFilter) (max_buffer : ℕ) (seen : Seen)
    → Follows (nth n b.subscriptions) seen
    → Follows (nth n (subscribe b f max_buffer).0.subscriptions) seen
unfolding subscribe
subscribe-Follows n b f max_buffer seen h = elim (Bool-cases (ltb max_buffer 1)) [
  | inl p ↦ rw p h
  | inr p ↦
      rw (p, nth-append n b.subscriptions (fresh f max_buffer))
        (added (n == length b.subscriptions) refl p)
]
  where
    added :
        (last : Bool)
        → (n == length b.subscriptions) ≡ last
        → ltb max_buffer 1 ≡ false
        → Follows (if last then some (fresh f max_buffer) else nth n b.subscriptions) seen
    added false q p = h
    added true q p =
        let empty : seen ≡ nothing = rw (nth-end n b.subscriptions (ground arith)) at h in
        rw empty (fresh-Tracks f max_buffer p)

taken-Follows :
    (m : Option EventSubscription) (seen : Seen)
    → Follows m seen
    → Follows (mapped taken m) (reception m seen)
unfolding reception
taken-Follows none seen f = f
taken-Follows (some s) seen f = taken-Tracks s seen f

closing-Follows :
    (m : Option EventSubscription) (seen : Seen) → Follows m seen → Follows (mapped closing m) seen
closing-Follows none seen f = f
closing-Follows (some s) seen f = closing-Tracks s seen f

step-Follows :
    (n : ℕ) (b : EventBus) (c : Call) (seen : Seen)
    → Follows (nth n b.subscriptions) seen
    → Follows (nth n (step b c).subscriptions) (observe n b c seen)
unfolding step observe publish
step-Follows n b (publishing event_type payload job_id now) seen f =
    published-Follows n b (append b.journal event_type payload job_id now) seen f
step-Follows n b (subscribing filter max_buffer) seen f =
    subscribe-Follows n b filter max_buffer seen f
step-Follows n b (getting m) seen f =
    rw (nth-update n m taken b.subscriptions) (elim (Bool-cases (m == n)) [
      | inl p ↦ rw p (taken-Follows (nth n b.subscriptions) seen f)
      | inr p ↦ rw p f
    ])
step-Follows n b (closing_one m) seen f =
    rw (nth-update n m closing b.subscriptions) (elim (Bool-cases (m == n)) [
      | inl p ↦ rw p (closing-Follows (nth n b.subscriptions) seen f)
      | inr p ↦ rw p f
    ])

watch-Follows :
    (n : ℕ) (b : EventBus) (calls : List Call) (seen : Seen)
    → Follows (nth n b.subscriptions) seen
    → Follows (nth n (watch n b calls seen).0.subscriptions) (watch n b calls seen).1
unfolding watch
watch-Follows n b [] seen f = f
watch-Follows n b (c ∷ calls) seen f =
    watch-Follows n (step b c) calls (observe n b c seen) (step-Follows n b c seen f)

-- Whatever the clients of a new bus do, each subscription's buffer is the end of the matching events
-- that were published while it was open, in order and never more than the buffer's bound; the
-- matching events before those are as many as were taken from it and counted as dropped.
pub watch-new-Follows :
    (n : ℕ) (j : Journal) (calls : List Call)
    → Follows
        (nth n (watch n (record { journal = j; subscriptions = [] }) calls nothing).0.subscriptions)
        (watch n (record { journal = j; subscriptions = [] }) calls nothing).1
watch-new-Follows n j calls =
    watch-Follows n (record { journal = j; subscriptions = [] }) calls nothing refl
