-- ===== src/Jobs/Repository/History.antt =====
-- The history of each job against its record, over every sequence of calls.
use comfy_ui_ng.Prelude.{
  ℕ, ◌+◌, ◌*◌, ◌≤◌, ◌<◌, ◌≡◌, refl, List, [], ◌∷◌, ◌++◌, Option, none, some, Result, ok, err, arith,
  Text, text_beq, text_beq-iff_eq, text_eq, subst, length, length-append, is_some, Bool-cases, inl,
  inr, ap,
}
use comfy_ui_ng.Prelude.Dict.{lookup, insert, lookup-insert}
use comfy_ui_ng.Json.{Value}
use comfy_ui_ng.Jobs.Record.{
  JobStatus, queued, JobError, JobRecord, JobSubmission, first_revision, from_submission,
  monotonic_position,
}
use comfy_ui_ng.Jobs.Record.Valid.{
  IsValid, IsValid-attempt, check_record-IsValid, check_record-same,
}
use comfy_ui_ng.Jobs.Lifecycle.{transition_record, retry_record}
use comfy_ui_ng.Jobs.Lifecycle.Transition.{transition_record-advances}
use comfy_ui_ng.Jobs.Lifecycle.Retry.{retry_record-advances}
use comfy_ui_ng.Jobs.Repository.{
  Repository, empty, create, get, history, transition, retry, Call, creation, transfer, another_try,
  step, run, changed, created, replaced,
}

-- `r'` is the revision right after `r` of the same job.
pub record Follows {Estimate : Type 0} (r r' : JobRecord Estimate) : Type 0 where
  pub valid : IsValid r'
  pub revision : r'.revision ≡ r.revision + 1
  pub position : monotonic_position r < monotonic_position r'
  pub forward : r.updated_at ≤ r'.updated_at
  pub job_id : r'.job_id ≡ r.job_id
  pub created_at : r'.created_at ≡ r.created_at
  pub max_attempts : r'.max_attempts ≡ r.max_attempts

-- The list holds the revisions of one job from its creation up to the given record.
pub data Evolves {Estimate : Type 0} (id : Text)
    : List (JobRecord Estimate) → JobRecord Estimate → Type 0 where
  born :
      {past : List (JobRecord Estimate)} {r : JobRecord Estimate}
      → past ≡ r ∷ []
      → IsValid r
      → r.job_id ≡ id
      → r.revision ≡ 0
      → Evolves id past r
  grown :
      {past past' : List (JobRecord Estimate)} {r r' : JobRecord Estimate}
      → Evolves id past r
      → Follows r r'
      → past' ≡ past ++ r' ∷ []
      → Evolves id past' r'

-- A job has a record exactly when it has a history, which ends in that record.
pub data Linked {Estimate : Type 0} (id : Text)
    : Option (JobRecord Estimate) → Option (List (JobRecord Estimate)) → Type 0 where
  unknown : Linked id none none
  known :
      {r : JobRecord Estimate} {past : List (JobRecord Estimate)}
      → Evolves id past r
      → Linked id (some r) (some past)

abbrev pub IsLinked : {Estimate : Type 0} → Repository Estimate → Type 0
IsLinked repo = (id : Text) → Linked id (lookup id repo.records) (lookup id repo.history)

module _ {Estimate : Type 0} where
  Evolves-last :
      {id : Text} {past : List (JobRecord Estimate)} {r : JobRecord Estimate}
      → Evolves id past r
      → IsValid r
        × (r.job_id ≡ id)
        × (length past ≡ r.revision + 1)
        × (r.revision ≤ monotonic_position r)
  Evolves-last {past} {r} (born e v i z) = ground arith
  Evolves-last {past} (grown {past = before} {r = q} {r' = r'} h f e) =
      let (_, i, n, p) = Evolves-last h in
      ground (arith, f.valid, f.job_id, f.revision, f.position, length-append before (r' ∷ []))

  transition-Follows :
      (r r' : JobRecord Estimate) (expected target : JobStatus) (now : ℕ) (result error : Value)
      → transition_record r expected target now result error ≡ ok r'
      → Follows r r'
  transition-Follows r r' expected target now result error h =
      let (v, _, n, t, u, p, i, _, m, c, _) =
        transition_record-advances r r' expected target now result error h in
      record {
        valid = v;
        revision = n;
        position = p;
        forward = omega arith;
        job_id = i;
        created_at = c;
        max_attempts = m;
      }

  retry-Follows :
      (r r' : JobRecord Estimate) (expected : JobStatus) (now : ℕ) (error : Value)
      → retry_record r expected now error ≡ ok r'
      → Follows r r'
  retry-Follows r r' expected now error h =
      let (v, _, _, _, n, t, u, _, _, _, p, i, m, c) =
        retry_record-advances r r' expected now error h in
      record {
        valid = v;
        revision = n;
        position = p;
        forward = omega arith;
        job_id = i;
        created_at = c;
        max_attempts = m;
      }

  pub from_submission-fresh :
      (s : JobSubmission Estimate) (now : ℕ) (r : JobRecord Estimate)
      → from_submission s now ≡ ok r
      → IsValid r × (r.job_id ≡ s.job_id) × (r.revision ≡ 0)
  unfolding from_submission
  from_submission-fresh s now r h =
      let first = first_revision s now in
      ground (arith, check_record-IsValid first r, check_record-same first r)

  pub from_submission-queued :
      (s : JobSubmission Estimate) (now : ℕ) (r : JobRecord Estimate)
      → from_submission s now ≡ ok r
      → (r.status ≡ queued) × (r.updated_at ≡ now)
  unfolding from_submission
  from_submission-queued s now r h =
      let same = check_record-same (first_revision s now) r h in
      (ap (λ x. x.status) same, ap (λ x. x.updated_at) same)

  -- The three ways in which a call writes.
  insert-Linked :
      (repo : Repository Estimate) (key : Text) (r : JobRecord Estimate)
      (past : List (JobRecord Estimate))
      → IsLinked repo
      → Evolves key past r
      → IsLinked
          (record { records = insert key r repo.records; history = insert key past repo.history })
  insert-Linked repo key r past h v id =
      rw (lookup-insert key id r repo.records, lookup-insert key id past repo.history)
        (elim (Bool-cases (text_beq key id)) [
          | inl e ↦
              let same : key ≡ id = (text_beq-iff_eq key id).0 e in
              rw e (known (subst (λ k. Evolves k past r) same v))
          | inr e ↦ rw e (h id)
        ])

  replaced-Linked :
      (repo : Repository Estimate) (id : Text) (r : JobRecord Estimate)
      (past : List (JobRecord Estimate)) (m : Result JobError (JobRecord Estimate))
      → IsLinked repo
      → lookup id repo.history ≡ some past
      → Evolves id past r
      → ((r' : JobRecord Estimate) → m ≡ ok r' → Follows r r')
      → IsLinked (replaced repo id m).0
  unfolding replaced
  replaced-Linked repo id r past (ok r') h ep v grows =
      rw ep (insert-Linked repo id r' (past ++ r' ∷ []) h (grown v (grows r' refl) refl))
  replaced-Linked repo id r past (err e) h ep v grows = h

  changed-Linked :
      (repo : Repository Estimate) (id : Text)
      (change : JobRecord Estimate → Result JobError (JobRecord Estimate))
      → IsLinked repo
      → ((r r' : JobRecord Estimate) → change r ≡ ok r' → Follows r r')
      → IsLinked (changed repo id change (lookup id repo.records)).0
  unfolding changed
  changed-Linked repo id change h grows =
      go (lookup id repo.records) (lookup id repo.history) refl (h id)
    where
      go :
          (r? : Option (JobRecord Estimate)) (past? : Option (List (JobRecord Estimate)))
          → lookup id repo.history ≡ past?
          → Linked id r? past?
          → IsLinked (changed repo id change r?).0
      go none past? ep l = h
      go (some r) none ep l = elim l [ ]
      go (some r) (some past) ep (known v) =
          replaced-Linked repo id r past (change r) h ep v (grows r)

  create-Linked :
      (repo : Repository Estimate) (s : JobSubmission Estimate) (now : ℕ)
      → IsLinked repo
      → IsLinked (create repo s now).0
  unfolding create
  create-Linked repo s now h = elim (Bool-cases (is_some (lookup s.job_id repo.records))) [
    | inl e ↦ rw e h
    | inr e ↦ rw e (go (from_submission s now) refl)
  ]
    where
      go :
          (m : Result JobError (JobRecord Estimate))
          → from_submission s now ≡ m
          → IsLinked (created repo m).0
      go (ok r) e =
          let (v, i, z) = from_submission-fresh s now r e in
          insert-Linked repo r.job_id r (r ∷ []) h (born refl v refl z)
      go (err x) e = h

  -- Each call of a method keeps every job's record and history linked.
  pub step-Linked :
      (repo : Repository Estimate) (c : Call Estimate) → IsLinked repo → IsLinked (step repo c).0
  unfolding step transition retry
  step-Linked repo (creation s now) h = create-Linked repo s now h
  step-Linked repo (transfer id e t now result error) h =
      changed-Linked repo id _ h (λ r r'. transition-Follows r r' e t now result error)
  step-Linked repo (another_try id now e error) h =
      changed-Linked repo id _ h (λ r r'. retry-Follows r r' e now error)

  run_from-Linked :
      (calls : List (Call Estimate)) (repo : Repository Estimate)
      → IsLinked repo
      → IsLinked (run repo calls)
  unfolding run
  run_from-Linked [] repo h = h
  run_from-Linked (c ∷ calls) repo h = run_from-Linked calls (step repo c).0 (step-Linked repo c h)

-- Whatever calls are made on an empty repository, in any order: a job has a record exactly when it
-- has a history, the history runs from revision 0 to the record by single revisions of rising
-- lifecycle position, and every revision is valid.
pub run-Linked :
    (Estimate : Type 0) (calls : List (Call Estimate)) → IsLinked (run (empty Estimate) calls)
unfolding lookup
run-Linked Estimate calls = run_from-Linked calls (empty Estimate) (λ id. unknown)

-- What a job's history says of its record.
pub record IsRecorded {Estimate : Type 0} (id : Text) (r : JobRecord Estimate)
    (past : List (JobRecord Estimate)) : Type 0 where
  pub valid : IsValid r
  pub job_id : r.job_id ≡ id
  pub complete : length past ≡ r.revision + 1
  pub bounded : length past ≤ r.max_attempts * 4

Evolves-IsRecorded :
    {Estimate : Type 0} {id : Text} {past : List (JobRecord Estimate)} {r : JobRecord Estimate}
    → Evolves id past r
    → IsRecorded id r past
Evolves-IsRecorded {r} h =
    let (v, i, n, p) = Evolves-last h in
    record { valid = v; job_id = i; complete = n; bounded = ground (arith, IsValid-attempt r v) }

pub Linked-IsRecorded :
    {Estimate : Type 0} (id : Text) (r : JobRecord Estimate)
    (past? : Option (List (JobRecord Estimate)))
    → Linked id (some r) past?
    → (past : List (JobRecord Estimate)) × (past? ≡ some past) × IsRecorded id r past
Linked-IsRecorded id r none l = elim l [ ]
Linked-IsRecorded id r (some past) (known v) = (past, refl, Evolves-IsRecorded v)

history_found :
    {Estimate : Type 0} (repo : Repository Estimate) (id : Text) (past : List (JobRecord Estimate))
    → lookup id repo.history ≡ some past
    → history repo id ≡ ok past
unfolding history
history_found repo id past e = rw (e, history)

-- After any calls on an empty repository, a record that `get` returns is valid and stands under its
-- own id, `history` returns as many entries as there are revisions from 0 to the record's, and these
-- are at most four for each allowed attempt.
pub run-get-IsRecorded :
    (Estimate : Type 0) (calls : List (Call Estimate)) (id : Text) (r : JobRecord Estimate)
    → get (run (empty Estimate) calls) id ≡ some r
    → (past : List (JobRecord Estimate)) × (history (run (empty Estimate) calls) id ≡ ok past)
      × IsRecorded id r past
unfolding get
run-get-IsRecorded Estimate calls id r e =
    let repo = run (empty Estimate) calls in
    let linked =
      subst (λ o. Linked id o (lookup id repo.history)) e (run-Linked Estimate calls id) in
    let (past, found, recorded) = Linked-IsRecorded id r (lookup id repo.history) linked in
    (past, history_found repo id past found, recorded)
