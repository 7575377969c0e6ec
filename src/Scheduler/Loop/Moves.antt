-- ===== src/Scheduler/Loop/Moves.antt =====
-- What the shared statements do to a job that the scheduler works on.
use comfy_ui_ng.Prelude.{
  ℕ, ◌≡◌, refl, sym, ◌∙◌, ap, subst, List, some, Result, ok, err, Text, text_eq, is_some,
}
use comfy_ui_ng.Prelude.Dict.{Dict, lookup}
use comfy_ui_ng.Json.{Value}
use comfy_ui_ng.Jobs.Record.{JobStatus, queued, JobError, JobRecord}
use comfy_ui_ng.Jobs.Repository.{Repository, transition, retry, Call, transfer, another_try, step}
use comfy_ui_ng.Jobs.Repository.History.{IsLinked, Linked, Linked-IsRecorded, step-Linked}
use comfy_ui_ng.Jobs.Repository.Isolation.{
  target, time, step-IsTimed, step-Keeps, step_error_unchanged, transition_returns, retry_returns,
}
use comfy_ui_ng.Scheduler.Queues.{SchedulerQueues}
use comfy_ui_ng.Scheduler.Loop.{Services, Scheduler, Job, Phase}
use comfy_ui_ng.Scheduler.Loop.Monad.{Outcome, M, continue, transitioned, transition_job}
use comfy_ui_ng.Scheduler.Loop.Submit.{replied, retry_job}
use comfy_ui_ng.Scheduler.Loop.Invariant.{status?, Placed, PlacedAt, IsFree}

-- The outcome of a statement: its value and the state, or the state that an exception leaves.
abbrev pub Ensures :
    {S : Services} {A : Type 0}
    → (A → Scheduler S → Type 0)
    → (Scheduler S → Type 0)
    → Outcome S A
    → Type 0
Ensures Q E (s, ok a) = Q a s
Ensures Q E (s, err e) = E s

-- A stored record has the id that it is stored under.
linked-job_id :
    {Estimate : Type 0} (id : Text) (repo : Repository Estimate) (r : JobRecord Estimate)
    → IsLinked repo
    → lookup id repo.records ≡ some r
    → r.job_id ≡ id
linked-job_id id repo r linked found =
    let known = subst (λ o. Linked id o (lookup id repo.history)) found (linked id) in
    let (_, _, recorded) = Linked-IsRecorded id r (lookup id repo.history) known in recorded.job_id

module _ {S : Services} where
  move-places :
      (repo repo' : Repository S.broker.Estimate) (q : SchedulerQueues)
      (active : Dict Text (Phase S)) (j : Text)
      → lookup j repo'.records ≡ lookup j repo.records
      → PlacedAt repo q active j
      → PlacedAt repo' q active j
  move-places repo repo' q active j same p =
      subst (λ r?. Placed (status? r?) (is_some (lookup j q.items)) (lookup j active)) (sym same) p

  -- A call of the repository on a job leaves the job free.
  pub step-IsFree :
      {now : ℕ} (id : Text) (c : Call S.broker.Estimate) (repo : Repository S.broker.Estimate)
      (q : SchedulerQueues) (active : Dict Text (Phase S))
      → target c ≡ id
      → time c ≡ now
      → IsFree now id repo q active
      → IsFree now id (step repo c).0 q active
  step-IsFree {now} id c repo q active named at_now f = record {
    linked = step-Linked repo c f.linked;
    timed = step-IsTimed repo c f.linked now at_now f.timed;
    consistent = f.consistent;
    others = λ j n.
        move-places repo (step repo c).0 q active j (step-Keeps repo c j (λ p. n (p ∙ named))).0
          (f.others j n);
    absent = f.absent;
  }

  -- After a transition on a free job: the job is free, and has the target's status if nothing was raised.
  pub transition-or :
      {B : Type 0} (Q : B → Scheduler S → Type 0) (E : Scheduler S → Type 0) (k : Job S → M S B)
      (id : Text) (expected goal : JobStatus) (now : ℕ) (result error : Value) (s : Scheduler S)
      → IsFree now id s.repository s.queues s.active
      → ((repo : Repository S.broker.Estimate) (log : List _) (r : Job S)
          → IsFree now id repo s.queues s.active
          → status? (lookup id repo.records) ≡ some goal
          → Ensures Q E (k r (record s { repository = repo; published = log })))
      → ((x : JobError)
          → (transition s.repository id expected goal now result error).1 ≡ err x
          → E s)
      → Ensures Q E (continue (transition_job id expected goal now result error s) k)
  unfolding transition_job step
  transition-or Q E k id expected goal now result error s f returns raises =
      go (transition s.repository id expected goal now result error) refl
    where
      freed :
          IsFree now id
            (transition s.repository id expected goal now result error).0
            s.queues
            s.active
      freed =
          step-IsFree id (transfer id expected goal now result error) s.repository s.queues s.active
            refl refl f

      go :
          (m : Repository S.broker.Estimate × Result JobError (Job S))
          → transition s.repository id expected goal now result error ≡ m
          → Ensures Q E (continue (transitioned id goal m s) k)
      go (repo, err x) e =
          let same =
            step_error_unchanged s.repository (transfer id expected goal now result error) x
              f.linked (ap (λ p. p.1) e) in
          subst (λ repo. E (record s { repository = repo })) (sym same ∙ ap (λ p. p.0) e)
            (raises x (ap (λ p. p.1) e))
      go (repo, ok r) e =
          let (found, status, _) =
            transition_returns s.repository id expected goal now result error r (ap (λ p. p.1) e) in
          returns repo _ r (subst (λ p. IsFree now id p.0 s.queues s.active) e freed) (
            subst (λ p. status? (lookup id p.0.records) ≡ some goal) e
              (ap status? found ∙ ap some status))

  pub transition-then :
      {B : Type 0} (Q : B → Scheduler S → Type 0) (E : Scheduler S → Type 0) (k : Job S → M S B)
      (id : Text) (expected goal : JobStatus) (now : ℕ) (result error : Value) (s : Scheduler S)
      → IsFree now id s.repository s.queues s.active
      → ((repo : Repository S.broker.Estimate) (log : List _) (r : Job S)
          → IsFree now id repo s.queues s.active
          → status? (lookup id repo.records) ≡ some goal
          → Ensures Q E (k r (record s { repository = repo; published = log })))
      → E s
      → Ensures Q E (continue (transition_job id expected goal now result error s) k)
  transition-then Q E k id expected goal now result error s f returns raises =
      transition-or Q E k id expected goal now result error s f returns (λ x e. raises)

  -- After a retry of a job that is free if it has the expected status: the job is free and queued, if
  -- nothing was raised.
  pub retry-then :
      {B : Type 0} (Q : B → Scheduler S → Type 0) (E : Scheduler S → Type 0) (k : Job S → M S B)
      (id : Text) (now : ℕ) (expected : JobStatus) (error : Value) (s : Scheduler S)
      → IsLinked s.repository
      → (status? (lookup id s.repository.records) ≡ some expected
          → IsFree now id s.repository s.queues s.active)
      → ((repo : Repository S.broker.Estimate) (r : Job S)
          → status? (lookup id s.repository.records) ≡ some expected
          → IsFree now id repo s.queues s.active
          → status? (lookup id repo.records) ≡ some queued
          → r.job_id ≡ id
          → Ensures Q E (k r (record s { repository = repo })))
      → E s
      → Ensures Q E (continue (retry_job id now expected error s) k)
  unfolding retry_job step
  retry-then Q E k id now expected error s linked f returns raises =
      go (retry s.repository id now expected error) refl
    where
      freed :
          status? (lookup id s.repository.records) ≡ some expected
          → IsFree now id (retry s.repository id now expected error).0 s.queues s.active
      freed p =
          step-IsFree id (another_try id now expected error) s.repository s.queues s.active refl
            refl (f p)

      go :
          (m : Repository S.broker.Estimate × Result JobError (Job S))
          → retry s.repository id now expected error ≡ m
          → Ensures Q E (continue (replied m s) k)
      go (repo, err x) e =
          let same =
            step_error_unchanged s.repository (another_try id now expected error) x linked
              (ap (λ p. p.1) e) in
          subst (λ repo. E (record s { repository = repo })) (sym same ∙ ap (λ p. p.0) e) raises
      go (repo, ok r) e =
          let (found, status, _, r₀, before, was) =
            retry_returns s.repository id now expected error r (ap (λ p. p.1) e) in
          let free =
            subst (λ p. IsFree now id p.0 s.queues s.active) e
              (freed (ap status? before ∙ ap some was)) in
          let here : lookup id repo.records ≡ some r =
            ap (λ p. lookup id p.0.records) (sym e) ∙ found in
          returns repo r (ap status? before ∙ ap some was) free (ap status? here ∙ ap some status)
            (linked-job_id id repo r free.linked here)
