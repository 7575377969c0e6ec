-- ===== src/Events/Journal/Replay.antt =====
-- Resuming from a sequence number.
use comfy_ui_ng.Prelude.{
  ℕ, zero, suc, ◌+◌, ◌≤◌, ◌≡◌, refl, arith, Bool, true, false, ◌&&◌, any, ◌==◌, ◌≟◌, text_eq,
  option_eq, length, List, [], ◌∷◌, Option, none, some, ok, ltb, Text,
}
use comfy_ui_ng.Events.Journal.{
  EventEnvelope, filter, selects, take, replay, empty, Append, append_all,
}
use comfy_ui_ng.Events.Journal.Sequences.{Numbered, append_all-empty-IsSequenced}

abbrev pub drop : ℕ → List EventEnvelope → List EventEnvelope
drop zero es = es
drop (suc n) [] = []
drop (suc n) (e ∷ es) = drop n es

-- What a subscriber asks for: the events of one job or of all, of some types or of all.
abbrev of_job : Option Text → EventEnvelope → Bool
of_job none e = true
of_job (some s) e = e.job_id ≟ some s

abbrev of_types : List Text → EventEnvelope → Bool
of_types [] e = true
of_types (t ∷ ts) e = any (λ u. u ≟ e.event_type) (t ∷ ts)

abbrev pub wanted : Option Text → List Text → EventEnvelope → Bool
wanted job_id types e = of_job job_id e && of_types types e

selects-wanted :
    (a : ℕ) (job_id : Option Text) (types : List Text) (e : EventEnvelope)
    → selects a job_id types e ≡ ltb a e.sequence && wanted job_id types e
unfolding selects
selects-wanted a none [] e = ground arith
selects-wanted a none (t ∷ ts) e = ground arith
selects-wanted a (some s) [] e = ground arith
selects-wanted a (some s) (t ∷ ts) e = ground arith

filter-after :
    (a n : ℕ) (job_id : Option Text) (types : List Text) (es : List EventEnvelope)
    → Numbered n es
    → a + 1 ≤ n
    → filter (selects a job_id types) es ≡ filter (wanted job_id types) es
unfolding filter
filter-after a n job_id types [] h le = refl
filter-after a n job_id types (e ∷ es) h le =
    rw (selects-wanted a job_id types e)
      (ground (arith, h.0, filter-after a (n + 1) job_id types es h.1 (omega arith)))

filter-drop :
    (k m a : ℕ) (job_id : Option Text) (types : List Text) (es : List EventEnvelope)
    → a ≡ k + m
    → Numbered (k + 1) es
    → filter (selects a job_id types) es ≡ filter (wanted job_id types) (drop m es)
unfolding filter
filter-drop k zero a job_id types es q h = filter-after a (k + 1) job_id types es h (omega arith)
filter-drop k (suc m) a job_id types [] q h = refl
filter-drop k (suc m) a job_id types (e ∷ es) q h =
    let past : ltb a e.sequence ≡ false = ground (arith, h.0) in
    rw (selects-wanted a job_id types e, past)
      (filter-drop (k + 1) m a job_id types es (omega arith) h.1)

-- On a journal that appends have made, `replay` from any sequence number, for any job and types,
-- gives the first `limit` of the wanted events after that many events of the journal: nothing
-- before the number comes again, and nothing after it is missed.
pub replay-append_all :
    (calls : List Append) (after_sequence : ℕ) (job_id : Option Text) (event_types : List Text)
    (limit : ℕ)
    → 1 ≤ limit
    → any (λ t. length t == 0) event_types ≡ false
    → replay (append_all empty calls) after_sequence job_id event_types limit
      ≡ ok (
          take limit (
            filter
              (wanted job_id event_types)
              (drop after_sequence (append_all empty calls).events)))
unfolding replay
replay-append_all calls after_sequence job_id event_types limit le h =
    let positive : ltb limit 1 ≡ false = ground arith in
    rw
      (
        positive,
        h,
        filter-drop 0 after_sequence after_sequence job_id event_types
            (append_all empty calls).events (omega arith)
            (append_all-empty-IsSequenced calls).numbered,
      )
      refl
