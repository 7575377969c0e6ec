-- ===== src/Resources/Broker.antt =====
-- resources/broker.py: ResourceBroker. Methods hold the lock for their whole body, so each is one
-- step. `generated` is the UUID that `uuid4()` would return.
use comfy_ui_ng.Prelude.{
  ℕ, ◌+◌, ◌≡◌, Bool, true, false, not, ◌&&◌, List, [], ◌∷◌, ◌++◌, map, Option, none, some, Result,
  ok, err, ltb, leb, ◌==◌, is_some, if◌then◌else◌, nat_eq, String, ◌>>=◌,
}
use comfy_ui_ng.Prelude.Dict.{Dict, lookup, insert, delete}
use comfy_ui_ng.Resources.Pressure.{
  PressureKind, cpu, memory, pinned_memory, gpu, io_read, io_write, PressureSample, PressureEvent,
  PressureMonitor, observe_all,
}
use comfy_ui_ng.Resources.Budgets.{
  FallbackAction, unchanged, offload, quantize, sequence, reduce_batch, reject, ResourceEstimate,
  alternative_for, ResourceLimits, Inventory, Reserves, from_inventory,
}
use comfy_ui_ng.Resources.Usage.{
  ResourceViolation, ResourceReservation, Reservations, total, vram_on, diagnostics,
}
pub mod Admission
pub mod Room
pub mod Capacity
pub mod Outcomes
pub mod Given
mod Tests

pub data AdmissionOutcome : Type 0 where
  admitted deferred rejected : AdmissionOutcome

pub record AdmissionDecision : Type 0 where
  pub outcome : AdmissionOutcome
  pub action : FallbackAction
  pub requested : ResourceEstimate
  pub selected : ResourceEstimate
  pub diagnostics : List ResourceViolation
  pub attempted_actions : List FallbackAction
  pub reservation : Option ResourceReservation

-- `released` lists the reservation objects that are marked released.
pub record ResourceBroker : Type 0 where
  pub limits : ResourceLimits
  pub reservations : Reservations
  pub monitor : PressureMonitor
  pub pressure_events : List PressureEvent
  pub released : List ℕ
  pub next_object : ℕ

abbrev with_limits : PressureMonitor → ResourceLimits → ResourceBroker
with_limits monitor limits = record {
  limits = limits;
  reservations = [];
  monitor = monitor;
  pressure_events = [];
  released = [];
  next_object = 0;
}

-- `ResourceBroker.__init__`
pub start : Inventory → Reserves → PressureMonitor → Result String ResourceBroker
start inventory reserves monitor = do
  limits ← from_inventory inventory reserves
  ok (with_limits monitor limits)

-- `ValueError("reservation already exists")`
pub data BrokerError : Type 0 where
  reservation_exists : ℕ → BrokerError

abbrev pub Reply : Type 0
Reply = ResourceBroker × Result BrokerError AdmissionDecision

-- `if limit < 1: continue`
sample_if : PressureKind → (used limit : ℕ) → Option ℕ → List PressureSample
sample_if kind used limit device =
    if ltb limit 1
    then []
    else (record { kind = kind; used = used; limit = limit; device_index = device }) ∷ []

gpu_samples : Reservations → Dict ℕ ℕ → List PressureSample
unfolding sample_if
gpu_samples rs [] = []
gpu_samples rs ((i, limit) ∷ d) =
    sample_if gpu (total (vram_on i) rs) limit (some i) ++ gpu_samples rs d

samples : ResourceLimits → Reservations → List PressureSample
unfolding gpu_samples sample_if
samples l rs =
    sample_if cpu (total (λ d. d.cpu_cores) rs) l.cpu_cores none
    ++ (sample_if memory (total (λ d. d.ram_bytes) rs) l.ram_bytes none
        ++ (sample_if pinned_memory (total (λ d. d.pinned_ram_bytes) rs) l.pinned_ram_bytes none
            ++ (sample_if io_read (total (λ d. d.concurrent_reads) rs) l.concurrent_reads none
                ++ (sample_if io_write (total (λ d. d.concurrent_writes) rs) l.concurrent_writes
                      none
                    ++ gpu_samples rs l.vram_mb_by_gpu))))

-- `_observe_pressure`
observe_pressure : ResourceBroker → ResourceBroker
unfolding samples
observe_pressure b =
    let (monitor, events) = observe_all b.monitor (samples b.limits b.reservations) in
    record b { monitor = monitor; pressure_events = b.pressure_events ++ events }

pub identifier : Option ℕ → ℕ → ℕ
identifier none generated = generated
identifier (some id) generated = id

abbrev holding : ResourceBroker → ResourceReservation → ResourceBroker
holding b r = record b {
  reservations = insert r.reservation_id r b.reservations;
  next_object = b.next_object + 1;
}

-- `_admitted` with `_reserve`
pub reserve :
    ResourceBroker
    → (requested selected : ResourceEstimate) → FallbackAction
    → List FallbackAction
    → (id : ℕ) → Reply
reserve b requested selected action attempts id =
    if is_some (lookup id b.reservations)
    then (b, err (reservation_exists id))
    else (let r : ResourceReservation = record {
      object = b.next_object;
      reservation_id = id;
      estimate = selected;
    } in
        (
          observe_pressure (holding b r),
          ok (record {
            outcome = admitted;
            action = action;
            requested = requested;
            selected = selected;
            diagnostics = [];
            attempted_actions = attempts;
            reservation = some r;
          }),
        ))

-- `not self._violations(estimate, against_current=now)`
pub suits : ResourceBroker → ResourceEstimate → (now : Bool) → Bool
suits b e now = elim (diagnostics b.limits b.reservations e now) [ [] ↦ true | _ ∷ _ ↦ false ]

abbrev refusal :
    AdmissionOutcome
    → FallbackAction
    → (requested selected : ResourceEstimate) → List ResourceViolation
    → List FallbackAction
    → AdmissionDecision
refusal outcome action requested selected lacking attempts = record {
  outcome = outcome;
  action = action;
  requested = requested;
  selected = selected;
  diagnostics = lacking;
  attempted_actions = attempts;
  reservation = none;
}

-- `attempts.append(REJECT)` and the rejection.
pub rejection : ResourceBroker → ResourceEstimate → List FallbackAction → Reply
rejection b e attempts = (
  b,
  ok (
      refusal rejected reject e e (diagnostics b.limits b.reservations e false)
        (attempts ++ reject ∷ [])),
)

-- After the sequencing failed: the reduced batch, or the rejection.
pub after_reduce :
    ResourceBroker
    → ResourceEstimate
    → (id : ℕ) → List FallbackAction
    → Option ResourceEstimate
    → Reply
after_reduce b e id attempts none = rejection b e attempts
after_reduce b e id attempts (some reduced) =
    let attempts' = attempts ++ reduce_batch ∷ [] in
    if suits b reduced true
    then reserve b e reduced reduce_batch attempts' id
    else rejection b e attempts'

-- After the loop: the decision to wait for `sequence_candidate`, or the rest.
pub after_transforms :
    ResourceBroker
    → ResourceEstimate
    → (id : ℕ) → List FallbackAction
    → Option ResourceEstimate
    → Reply
after_transforms b e id attempts (some candidate) = (
  b,
  ok (
      refusal deferred sequence e candidate (diagnostics b.limits b.reservations candidate true)
        (attempts ++ sequence ∷ [])),
)
after_transforms b e id attempts none =
    after_reduce b e id (attempts ++ sequence ∷ []) (alternative_for e reduce_batch)

-- `if sequence_candidate is None and not self._violations(alternative, …): …`
pub candidate_or :
    ResourceBroker → Option ResourceEstimate → ResourceEstimate → Option ResourceEstimate
candidate_or b (some c) alternative = some c
candidate_or b none alternative = if suits b alternative false then some alternative else none

-- The loop over the remaining actions of `_TRANSFORM_ORDER`.
pub transforms :
    List FallbackAction
    → ResourceBroker
    → ResourceEstimate
    → (id : ℕ) → List FallbackAction
    → Option ResourceEstimate
    → Reply
transforms [] b e id attempts candidate = after_transforms b e id attempts candidate
transforms (action ∷ actions) b e id attempts candidate = elim (alternative_for e action) [
  | none ↦ transforms actions b e id attempts candidate
  | some alternative ↦
      (if suits b alternative true
        then reserve b e alternative action (attempts ++ action ∷ []) id
        else transforms actions b e id (attempts ++ action ∷ [])
            (candidate_or b candidate alternative))
]

pub admit :
    ResourceBroker → ResourceEstimate → (reservation_id : Option ℕ) → (generated : ℕ) → Reply
unfolding identifier
admit b e reservation_id generated =
    let id = identifier reservation_id generated in
    if suits b e true
    then reserve b e e unchanged (unchanged ∷ []) id
    else transforms (offload ∷ quantize ∷ []) b e id (unchanged ∷ [])
        (if suits b e false then some e else none)

abbrev dropping : ResourceBroker → ResourceReservation → ResourceBroker
dropping b r = record b {
  reservations = delete r.reservation_id b.reservations;
  released = r.object ∷ b.released;
}

release_active :
    ResourceBroker → ResourceReservation → Option ResourceReservation → ResourceBroker × Bool
release_active b r none = (b, false)
release_active b r (some active) =
    if active.object == r.object then (observe_pressure (dropping b r), true) else (b, false)

pub release : ResourceBroker → ResourceReservation → ResourceBroker × Bool
release b r = release_active b r (lookup r.reservation_id b.reservations)

pub drain_pressure_events : ResourceBroker → ResourceBroker × List PressureEvent
drain_pressure_events b = (record b { pressure_events = [] }, b.pressure_events)

pub data Call : Type 0 where
  admission : ResourceEstimate → (reservation_id : Option ℕ) → (generated : ℕ) → Call
  giving_back : ResourceReservation → Call
  draining : Call

pub step : ResourceBroker → Call → ResourceBroker
step b (admission e reservation_id generated) = (admit b e reservation_id generated).0
step b (giving_back r) = (release b r).0
step b draining = (drain_pressure_events b).0

-- The calls of all clients, in the order in which they take the lock.
pub run : ResourceBroker → List Call → ResourceBroker
run b [] = b
run b (c ∷ calls) = run (step b c) calls
