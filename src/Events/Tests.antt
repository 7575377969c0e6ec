-- ===== src/Events/Tests.antt =====
-- A journal and a bus in use.
use comfy_ui_ng.Prelude.{◌≡◌, refl, arith, codes, Text, List, [], ◌∷◌, none, some, ok}
use comfy_ui_ng.Events.Journal.{empty, Append, append_all, filter, take, replay}
use comfy_ui_ng.Events.Journal.Sequences.{IsSequenced, append_all-empty-IsSequenced}
use comfy_ui_ng.Events.Journal.Replay.{wanted, drop, replay-append_all}
use comfy_ui_ng.Events.Bus.{Call, publishing, subscribing, getting, closing_one}
use comfy_ui_ng.Events.Bus.Runs.{nth, nothing, watch, Follows, watch-new-Follows}

abbrev saying : Text → Append
saying job = record { event_type = codes "job.queued"; payload = none; job_id = some job; now = 5 }

abbrev said : List Append
said =
    saying (codes "a")
    ∷ record (saying (codes "b")) { event_type = codes "nodot" }
    ∷ saying (codes "b")
    ∷ saying (codes "a")
    ∷ []

append_all-empty-IsSequenced_example : IsSequenced (append_all empty said)
append_all-empty-IsSequenced_example = append_all-empty-IsSequenced said

replay-append_all_example :
    replay (append_all empty said) 1 (some (codes "a")) [] 10
    ≡ ok (take 10 (filter (wanted (some (codes "a")) []) (drop 1 (append_all empty said).events)))
replay-append_all_example = replay-append_all said 1 (some (codes "a")) [] 10 (omega arith) refl

abbrev calls : List Call
calls =
    subscribing (record { job_id = some (codes "a"); event_types = [] }) 1
    ∷ publishing (codes "job.queued") none (some (codes "a")) 1
    ∷ publishing (codes "job.failed") none (some (codes "a")) 2
    ∷ getting 0
    ∷ closing_one 0
    ∷ []

watch-new-Follows_example :
    Follows
      (nth 0
        (watch 0 (record { journal = empty; subscriptions = [] }) calls nothing).0.subscriptions)
      (watch 0 (record { journal = empty; subscriptions = [] }) calls nothing).1
watch-new-Follows_example = watch-new-Follows 0 empty calls
