-- ===== src/Jobs/Repository/Prepares.antt =====
-- core/jobs.py: `transition` from QUEUED to PREPARING.
use comfy_ui_ng.Prelude.{
  ℕ, ◌≤◌, ◌≡◌, refl, subst, List, some, Result, ok, err, Text, text_eq, ok_value, arith,
}
use comfy_ui_ng.Prelude.Dict.{lookup}
use comfy_ui_ng.Json.{null}
use comfy_ui_ng.Jobs.Record.{queued, preparing, JobError, JobRecord, freeze_result, freeze_error}
use comfy_ui_ng.Jobs.Record.Valid.{IsValid}
use comfy_ui_ng.Jobs.Lifecycle.{transition_record}
use comfy_ui_ng.Jobs.Lifecycle.Transition.{MayMove, transition_record_iff}
use comfy_ui_ng.Jobs.Repository.{Repository, transition, changed, replaced, appended}
use comfy_ui_ng.Jobs.Repository.History.{IsLinked, Linked, Linked-IsRecorded}

module _ {Estimate : Type 0} where
  prepares :
      (r : JobRecord Estimate) (now : ℕ)
      → IsValid r
      → r.status ≡ queued
      → r.updated_at ≤ now
      → MayMove r queued preparing now null null
  unfolding freeze_result freeze_error
  prepares r now valid status forward = record {
    found = status;
    edge = refl;
    forward = forward;
    result_completes = λ h. absurd (ground arith);
    error_ends = λ h. absurd (ground arith);
    result_stable = refl;
    error_stable = refl;
  }

  changed_ok :
      (repo : Repository Estimate) (id : Text) (r r' : JobRecord Estimate)
      (change : JobRecord Estimate → Result JobError (JobRecord Estimate)) (past : List _)
      (x : JobError)
      → change r ≡ ok r'
      → lookup id repo.history ≡ some past
      → (changed repo id change (some r)).1 ≡ err x
      → ⊥
  unfolding changed replaced appended
  changed_ok repo id r r' change past x e h k = ground arith

  pub queued_prepares :
      (repo : Repository Estimate) (id : Text) (now : ℕ)
      → IsLinked repo
      → ((j : Text) (r : JobRecord Estimate) → lookup j repo.records ≡ some r → r.updated_at ≤ now)
      → (r : JobRecord Estimate) → lookup id repo.records ≡ some r
      → r.status ≡ queued
      → (x : JobError) → (transition repo id queued preparing now null null).1 ≡ err x
      → ⊥
  unfolding transition
  queued_prepares repo id now linked timed r found status x e =
      let known = subst (λ o. Linked id o (lookup id repo.history)) found (linked id) in
      let (past, h, recorded) = Linked-IsRecorded id r (lookup id repo.history) known in
      let may = prepares r now recorded.valid status (timed id r found) in
      let (r', moved) =
        ok_value (transition_record r queued preparing now null null)
          ((transition_record_iff r queued preparing now null null recorded.valid).1 may) in
      changed_ok repo id r r' (λ q. transition_record q queued preparing now null null) past x moved
        h (rw found at e)
