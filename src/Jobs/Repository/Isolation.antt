-- ===== src/Jobs/Repository/Isolation.antt =====
-- What a call leaves alone.
use comfy_ui_ng.Prelude.{
  ℕ, ◌≤◌, key-cases, ◌≡◌, ◌≢◌, refl, ◌∙◌, List, Option, none, some, Result, ok, err, arith, Text,
  text_eq, Bool-cases, inl, inr, is_some, ◌∷◌, ◌++◌, [], ap, sym, Option-cases, true,
}
use comfy_ui_ng.Prelude.Dict.{lookup, lookup-insert_ne, lookup-insert_self}
use comfy_ui_ng.Json.{Value}
use comfy_ui_ng.Jobs.Record.{
  JobStatus, queued, JobError, JobRecord, JobSubmission, from_submission, status_beq,
}
use comfy_ui_ng.Jobs.Lifecycle.{transition_record, retry_record, check_retry}
use comfy_ui_ng.Jobs.Lifecycle.Transition.{transition_record-advances}
use comfy_ui_ng.Jobs.Lifecycle.Retry.{retry_record-advances}
use comfy_ui_ng.Jobs.Repository.{
  Repository, create, transition, retry, Call, creation, transfer, another_try, step, changed,
  created, replaced, appended,
}
use comfy_ui_ng.Jobs.Repository.History.{
  IsLinked, Linked, from_submission-fresh, from_submission-queued,
}

pub status_beq→eq : (a b : JobStatus) → status_beq a b ≡ true → a ≡ b
status_beq→eq a b h = ground arith

module _ {Estimate : Type 0} where
  -- The job that a call names.
  abbrev pub target : Call Estimate → Text
  target (creation s now) = s.job_id
  target (transfer id e t now result error) = id
  target (another_try id now e error) = id

  -- The record and the history of one job are the same in both states.
  abbrev pub Keeps : Text → Repository Estimate → Repository Estimate → Type 0
  Keeps id repo repo' =
      (lookup id repo'.records ≡ lookup id repo.records)
      × (lookup id repo'.history ≡ lookup id repo.history)

  changed-Keeps :
      (repo : Repository Estimate) (id j : Text)
      (change : JobRecord Estimate → Result JobError (JobRecord Estimate))
      (r? : Option (JobRecord Estimate))
      → j ≢ id
      → Keeps j repo (changed repo id change r?).0
  unfolding changed
  changed-Keeps repo id j change none n = (refl, refl)
  changed-Keeps repo id j change (some r) n = written (change r)
    where
      put :
          (r' : JobRecord Estimate) (past? : Option (List (JobRecord Estimate)))
          → Keeps j repo (appended repo id r' past?).0
      put r' none = (lookup-insert_ne id j r' repo.records n, refl)
      put r' (some past) = (
        lookup-insert_ne id j r' repo.records n,
        lookup-insert_ne id j (past ++ r' ∷ []) repo.history n,
      )

      written : (m : Result JobError (JobRecord Estimate)) → Keeps j repo (replaced repo id m).0
      written (ok r') = put r' (lookup id repo.history)
      written (err e) = (refl, refl)

  create-Keeps :
      (repo : Repository Estimate) (s : JobSubmission Estimate) (now : ℕ) (j : Text)
      → j ≢ s.job_id
      → Keeps j repo (create repo s now).0
  unfolding create
  create-Keeps repo s now j n = elim (Bool-cases (is_some (lookup s.job_id repo.records))) [
    | inl e ↦ rw e (refl, refl)
    | inr e ↦ rw e (go (from_submission s now) refl)
  ]
    where
      go :
          (m : Result JobError (JobRecord Estimate))
          → from_submission s now ≡ m
          → Keeps j repo (created repo m).0
      go (ok r) e =
          let (_, i, _) = from_submission-fresh s now r e in
          let m : j ≢ r.job_id = λ q. n (q ∙ i) in
          (
            lookup-insert_ne r.job_id j r repo.records m,
            lookup-insert_ne r.job_id j (r ∷ []) repo.history m,
          )
      go (err x) e = (refl, refl)

  -- A call changes no job but the one that it names.
  pub step-Keeps :
      (repo : Repository Estimate) (c : Call Estimate) (j : Text)
      → j ≢ target c
      → Keeps j repo (step repo c).0
  unfolding step transition retry
  step-Keeps repo (creation s now) j n = create-Keeps repo s now j n
  step-Keeps repo (transfer id e t now result error) j n =
      changed-Keeps repo id j _ (lookup id repo.records) n
  step-Keeps repo (another_try id now e error) j n =
      changed-Keeps repo id j _ (lookup id repo.records) n

  changed_error :
      (repo : Repository Estimate) (id : Text)
      (change : JobRecord Estimate → Result JobError (JobRecord Estimate))
      (r? : Option (JobRecord Estimate)) (past? : Option (List (JobRecord Estimate))) (x : JobError)
      → Linked id r? past?
      → lookup id repo.history ≡ past?
      → (changed repo id change r?).1 ≡ err x
      → (changed repo id change r?).0 ≡ repo
  unfolding changed
  changed_error repo id change none past? x l p e = refl
  changed_error repo id change (some r) none x l p e = elim l [ ]
  changed_error repo id change (some r) (some past) x l p e = ground arith

  -- A method that raises has changed nothing, if each record has its history.
  pub step_error_unchanged :
      (repo : Repository Estimate) (c : Call Estimate) (x : JobError)
      → IsLinked repo
      → (step repo c).1 ≡ err x
      → (step repo c).0 ≡ repo
  unfolding step transition retry create
  step_error_unchanged repo (creation s now) x h e = ground arith
  step_error_unchanged repo (transfer id f t now result error) x h e =
      changed_error repo id _ (lookup id repo.records) (lookup id repo.history) x (h id) refl e
  step_error_unchanged repo (another_try id now f error) x h e =
      changed_error repo id _ (lookup id repo.records) (lookup id repo.history) x (h id) refl e

  changed_returns :
      (repo : Repository Estimate) (id : Text)
      (change : JobRecord Estimate → Result JobError (JobRecord Estimate))
      (r? : Option (JobRecord Estimate)) (r : JobRecord Estimate)
      → (changed repo id change r?).1 ≡ ok r
      → (lookup id (changed repo id change r?).0.records ≡ some r)
        × (r₀ : JobRecord Estimate) × (r? ≡ some r₀)
        × (change r₀ ≡ ok r)
  unfolding changed
  changed_returns repo id change none r e = absurd (cc)
  changed_returns repo id change (some r₀) r e = (found (change r₀) e, r₀, refl, same (change r₀) e)
    where
      stored :
          (r' : JobRecord Estimate) (past? : Option (List (JobRecord Estimate)))
          → (appended repo id r' past?).1 ≡ ok r
          → (lookup id (appended repo id r' past?).0.records ≡ some r) × (r' ≡ r)
      stored r' none p = absurd (cc)
      stored r' (some past) p = ground (arith, lookup-insert_self id r' repo.records)

      found :
          (m : Result JobError (JobRecord Estimate))
          → (replaced repo id m).1 ≡ ok r
          → lookup id (replaced repo id m).0.records ≡ some r
      found (ok r') p = (stored r' (lookup id repo.history) p).0
      found (err x) p = absurd (cc)

      same : (m : Result JobError (JobRecord Estimate)) → (replaced repo id m).1 ≡ ok r → m ≡ ok r
      same (ok r') p = ap ok (stored r' (lookup id repo.history) p).1
      same (err x) p = absurd (cc)

  -- The record that `transition` returns is stored, and has the target's status.
  pub transition_returns :
      (repo : Repository Estimate) (id : Text) (expected goal : JobStatus) (now : ℕ)
      (result error : Value) (r : JobRecord Estimate)
      → (transition repo id expected goal now result error).1 ≡ ok r
      → (lookup id (transition repo id expected goal now result error).0.records ≡ some r)
        × (r.status ≡ goal)
        × (r.updated_at ≡ now)
  unfolding transition
  transition_returns repo id expected goal now result error r e =
      let (found, r₀, _, moves) =
        changed_returns repo id (λ x. transition_record x expected goal now result error)
          (lookup id repo.records) r e in
      let next = transition_record-advances r₀ r expected goal now result error moves in
      (found, next.1, next.4)

  retry_record_expected :
      (r r' : JobRecord Estimate) (expected : JobStatus) (now : ℕ) (error : Value)
      → retry_record r expected now error ≡ ok r'
      → r.status ≡ expected
  unfolding retry_record check_retry
  retry_record_expected r r' expected now error h = status_beq→eq r.status expected (ground arith)

  -- The record that `retry` returns is stored and queued, and the one before had the expected status.
  pub retry_returns :
      (repo : Repository Estimate) (id : Text) (now : ℕ) (expected : JobStatus) (error : Value)
      (r : JobRecord Estimate)
      → (retry repo id now expected error).1 ≡ ok r
      → (lookup id (retry repo id now expected error).0.records ≡ some r)
        × (r.status ≡ queued)
        × (r.updated_at ≡ now)
        × (r₀ : JobRecord Estimate) × (lookup id repo.records ≡ some r₀)
        × (r₀.status ≡ expected)
  unfolding retry
  retry_returns repo id now expected error r e =
      let (found, r₀, before, moves) =
        changed_returns repo id (λ x. retry_record x expected now error) (lookup id repo.records) r
          e in
      (
        found,
        (retry_record-advances r₀ r expected now error moves).1,
        (retry_record-advances r₀ r expected now error moves).6,
        r₀,
        before,
        retry_record_expected r₀ r expected now error moves,
      )

  -- The record that `create` returns is stored under the id of the submission, which had none.
  pub create_returns :
      (repo : Repository Estimate) (s : JobSubmission Estimate) (now : ℕ) (r : JobRecord Estimate)
      → (create repo s now).1 ≡ ok r
      → (lookup s.job_id repo.records ≡ none)
        × (r.job_id ≡ s.job_id)
        × (r.status ≡ queued)
        × (r.updated_at ≡ now)
        × (lookup s.job_id (create repo s now).0.records ≡ some r)
  unfolding create
  create_returns repo s now r e = elim (Option-cases (lookup s.job_id repo.records)) [
    | inr (r₀, found) ↦ ground arith
    | inl fresh ↦
        let made_ok = made (from_submission s now) refl (rw fresh at e) in
        (fresh, made_ok.0, made_ok.1, made_ok.2, rw fresh made_ok.3)
  ]
    where
      made :
          (m : Result JobError (JobRecord Estimate))
          → from_submission s now ≡ m
          → (created repo m).1 ≡ ok r
          → (r.job_id ≡ s.job_id)
            × (r.status ≡ queued)
            × (r.updated_at ≡ now)
            × (lookup s.job_id (created repo m).0.records ≡ some r)
      made (err x) q p = absurd (cc)
      made (ok r') q p =
          let same : r' ≡ r = ground arith in
          let (_, named, _) = from_submission-fresh s now r' q in
          (
            ap (λ x. x.job_id) (sym same) ∙ named,
            ap (λ x. x.status) (sym same) ∙ (from_submission-queued s now r' q).0,
            ap (λ x. x.updated_at) (sym same) ∙ (from_submission-queued s now r' q).1,
            rw (← named) (lookup-insert_self r'.job_id r' repo.records ∙ ap some same),
          )

  -- The time that a call is given.
  abbrev pub time : Call Estimate → ℕ
  time (creation s now) = now
  time (transfer id e t now result error) = now
  time (another_try id now e error) = now

  -- A record that a call returns was written by it, under the id that the call names.
  step_returns :
      (repo : Repository Estimate) (c : Call Estimate) (r : JobRecord Estimate)
      → (step repo c).1 ≡ ok r
      → (lookup (target c) (step repo c).0.records ≡ some r) × (r.updated_at ≡ time c)
  unfolding step
  step_returns repo (creation s now) r e =
      let (_, _, _, at_now, found) = create_returns repo s now r e in (found, at_now)
  step_returns repo (transfer id f t now result error) r e =
      let (found, _, at_now) = transition_returns repo id f t now result error r e in
      (found, at_now)
  step_returns repo (another_try id now f error) r e =
      let (found, _, at_now, _, _, _) = retry_returns repo id now f error r e in (found, at_now)

  -- If no record was written after a time, none is after a call at that time.
  pub step-IsTimed :
      (repo : Repository Estimate) (c : Call Estimate)
      → IsLinked repo
      → (now : ℕ) → time c ≡ now
      → ((j : Text) (r : JobRecord Estimate) → lookup j repo.records ≡ some r → r.updated_at ≤ now)
      → (j : Text) (r : JobRecord Estimate) → lookup j (step repo c).0.records ≡ some r
      → r.updated_at ≤ now
  step-IsTimed repo c linked now at_now h j r found = elim (key-cases j (target c)) [
    | inr n ↦ h j r (sym (step-Keeps repo c j n).0 ∙ found)
    | inl p ↦ written p (step repo c).1 refl
  ]
    where
      written :
          j ≡ target c
          → (m : Result JobError (JobRecord Estimate)) → (step repo c).1 ≡ m
          → r.updated_at ≤ now
      written p (err x) e =
          h j r
            (ap (λ x. lookup j x.records) (sym (step_error_unchanged repo c x linked e)) ∙ found)
      written p (ok r') e =
          let (stored, t) = step_returns repo c r' e in
          let same : some r' ≡ some r =
            sym stored ∙ ap (λ i. lookup i (step repo c).0.records) (sym p) ∙ found in
          ground (arith, same, t, at_now)
