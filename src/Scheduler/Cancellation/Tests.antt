-- ===== src/Scheduler/Cancellation/Tests.antt =====
-- Runs of a token, and each theorem at a concrete input.
use comfy_ui_ng.Prelude.{◌≡◌, refl, true, false, List, [], ◌∷◌, none, some, ok, err, codes}
use comfy_ui_ng.Scheduler.Cancellation.{
  before_save, Token, cancellation_requested, init, cancel, checkpoint, observed, raised,
  append_bounded, resolve, begin_wait, end_wait, Action, cancelling, checking, waiting, resuming,
  step, run,
}
use comfy_ui_ng.Scheduler.Cancellation.Laws.{IsSound, init-IsSound, run-init-IsSound, cancel_wins}
use comfy_ui_ng.Scheduler.Cancellation.Window.{keep_last, observations, run-init-history}

program : Unit {0}
unfolding init cancel checkpoint observed raised append_bounded resolve begin_wait end_wait step run
program = tt

abbrev token : Token
token = record { is_set = false; reason = none; history = []; history_limit = 2; waiters = [] }

init-token : init 2 ≡ ok token
unfolding program
init-token = refl

abbrev steps : List Action
steps =
    waiting 1 true
    ∷ checking (codes "sampler_step") (some 1)
    ∷ checking (codes "sampler_step") (some 2)
    ∷ checking (codes "nowhere") none
    ∷ checking (codes "before_decode") none
    ∷ cancelling (codes "stop")
    ∷ resuming 1
    ∷ []

run-init-IsSound_example : IsSound (run token steps)
run-init-IsSound_example = run-init-IsSound 2 token steps init-token

run-init-history_example : (run token steps).history ≡ keep_last 2 (observations steps)
run-init-history_example = run-init-history 2 token steps init-token

second_cancel : (cancel (run token steps) (codes "again")).1 ≡ ok false
unfolding program
second_cancel = refl

cancel_stop : (cancel token (codes "stop")).1 ≡ ok true
unfolding program
cancel_stop = refl

resolve_save : resolve (codes "before_save") ≡ some before_save
unfolding program
resolve_save = refl

cancel_wins_example :
    let after = run (cancel token (codes "stop")).0 (cancelling (codes "later") ∷ []) in
    (after.reason ≡ some (codes "stop"))
    × ((checkpoint after (codes "before_save") none).1
        ≡ err (cancellation_requested (codes "stop") before_save none))
cancel_wins_example =
    cancel_wins token (codes "stop") (cancelling (codes "later") ∷ []) (codes "before_save")
      before_save none (init-IsSound 2 token init-token) cancel_stop resolve_save
