-- ===== src/Jobs/Repository.antt =====
-- core/jobs.py: InMemoryJobRepository. Each method holds the lock for its whole body, so it is one
-- step on the state. A method returns the new state beside its result, since the state outlives an
-- exception.
use comfy_ui_ng.Prelude.{
  ℕ, Bool, true, false, ◌&&◌, ◌||◌, List, [], ◌∷◌, ◌++◌, Option, none, some, Result, ok, err, ltb,
  ◌==◌, Text, text_eq, text_leb, is_some, if◌then◌else◌,
}
use comfy_ui_ng.Prelude.Dict.{Dict, lookup, insert, values}
use comfy_ui_ng.Prelude.Sort.{sort}
use comfy_ui_ng.Json.{Value}
use comfy_ui_ng.Jobs.Record.{
  JobStatus, JobError, job_not_found, duplicate_job, key_error, JobSubmission, JobRecord,
  from_submission,
}
use comfy_ui_ng.Jobs.Lifecycle.{transition_record, retry_record}
pub mod History
pub mod Isolation
pub mod Prepares

pub record Repository (Estimate : Type 0) : Type 0 where
  pub records : Dict Text (JobRecord Estimate)
  pub history : Dict Text (List (JobRecord Estimate))

-- The new state, and the result or the exception.
abbrev pub Reply : Type 0 → Type 0
Reply Estimate = Repository Estimate × Result JobError (JobRecord Estimate)

abbrev pub empty : (Estimate : Type 0) → Repository Estimate
empty Estimate = record { records = []; history = [] }

module _ {Estimate : Type 0} where
  -- `self._records[id] = r; self._history[id] = [r]`
  abbrev start : Repository Estimate → JobRecord Estimate → Repository Estimate
  start repo r = record {
    records = insert r.job_id r repo.records;
    history = insert r.job_id (r ∷ []) repo.history;
  }

  created : Repository Estimate → Result JobError (JobRecord Estimate) → Reply Estimate
  created repo (ok r) = (start repo r, ok r)
  created repo (err e) = (repo, err e)

  unfoldable pub create : Repository Estimate → JobSubmission Estimate → ℕ → Reply Estimate
  unfolding created
  create repo submission now =
      if is_some (lookup submission.job_id repo.records)
      then (repo, err (duplicate_job submission.job_id))
      else created repo (from_submission submission now)

  unfoldable pub get : Repository Estimate → Text → Option (JobRecord Estimate)
  get repo job_id = lookup job_id repo.records

  -- The key `(item.created_at, item.job_id)` of `sorted`.
  abbrev pub listed_before : JobRecord Estimate → JobRecord Estimate → Bool
  listed_before a b =
      ltb a.created_at b.created_at || a.created_at == b.created_at && text_leb a.job_id b.job_id

  pub list : Repository Estimate → List (JobRecord Estimate)
  list repo = sort listed_before (values repo.records)

  -- `self._records[id] = updated; self._history[id].append(updated)`: without a history the second
  -- statement raises KeyError after the first has run.
  appended :
      Repository Estimate
      → Text
      → JobRecord Estimate
      → Option (List (JobRecord Estimate))
      → Reply Estimate
  appended repo job_id updated none =
      (record repo { records = insert job_id updated repo.records }, err (key_error job_id))
  appended repo job_id updated (some past) = (
    record {
      records = insert job_id updated repo.records;
      history = insert job_id (past ++ updated ∷ []) repo.history;
    },
    ok updated,
  )

  replaced : Repository Estimate → Text → Result JobError (JobRecord Estimate) → Reply Estimate
  unfolding appended
  replaced repo job_id (ok updated) = appended repo job_id updated (lookup job_id repo.history)
  replaced repo job_id (err e) = (repo, err e)

  -- The body that `transition` and `retry` share: `change` makes the updated record.
  changed :
      Repository Estimate
      → Text
      → (JobRecord Estimate → Result JobError (JobRecord Estimate))
      → Option (JobRecord Estimate)
      → Reply Estimate
  unfolding replaced
  changed repo job_id change none = (repo, err (job_not_found job_id))
  changed repo job_id change (some current) = replaced repo job_id (change current)

  unfoldable pub transition :
      Repository Estimate
      → Text
      → (expected target : JobStatus) → ℕ
      → (result error : Value) → Reply Estimate
  unfolding changed
  transition repo job_id expected target now result error =
      changed repo job_id (λ r. transition_record r expected target now result error)
        (lookup job_id repo.records)

  unfoldable pub retry : Repository Estimate → Text → ℕ → JobStatus → Value → Reply Estimate
  unfolding changed
  retry repo job_id now expected error =
      changed repo job_id (λ r. retry_record r expected now error) (lookup job_id repo.records)

  unfoldable pub history : Repository Estimate → Text → Result JobError (List (JobRecord Estimate))
  history repo job_id = elim (lookup job_id repo.history) [
    | none ↦ err (job_not_found job_id)
    | some past ↦ ok past
  ]

-- The calls that change a repository.
pub data Call (Estimate : Type 0) : Type 0 where
  creation : JobSubmission Estimate → ℕ → Call Estimate
  transfer : Text → (expected target : JobStatus) → ℕ → (result error : Value) → Call Estimate
  another_try : Text → ℕ → JobStatus → Value → Call Estimate

module _ {Estimate : Type 0} where
  unfoldable pub step : Repository Estimate → Call Estimate → Reply Estimate
  step repo (creation s now) = create repo s now
  step repo (transfer id e t now result error) = transition repo id e t now result error
  step repo (another_try id now e error) = retry repo id now e error

  -- Callers that hold the lock one after the other, in any order.
  unfoldable pub run : Repository Estimate → List (Call Estimate) → Repository Estimate
  run repo [] = repo
  run repo (c ∷ calls) = run (step repo c).0 calls
