-- ===== src/Scheduler/Loop/Instances.antt =====
-- The cache and the broker that api/app.py gives to the Scheduler.
use comfy_ui_ng.Prelude.{
  ℕ, ◌≡◌, refl, subst, sym, List, ◌++◌, map, Option, none, some, Result, ok, err, Text,
}
use comfy_ui_ng.Json.{Value}
use comfy_ui_ng.Cache.{Cache, CacheError, CacheEntry, get, put}
use comfy_ui_ng.Resources.Budgets.{ResourceEstimate}
use comfy_ui_ng.Resources.Usage.{ResourceReservation, path}
use comfy_ui_ng.Resources.Broker.{
  ResourceBroker, BrokerError, AdmissionDecision, AdmissionOutcome, admit, release,
}
use comfy_ui_ng.Resources.Broker.Given.{
  IsGiven, granted, reservation_of, admit-IsGiven, release-IsGiven,
}
use comfy_ui_ng.Scheduler.Loop.{NodeResultCache, AdmissionBroker, Decision, given_by}

-- `cached.value` of an entry.
abbrev pub value_of : Result CacheError (Option CacheEntry) → Result CacheError (Option Value)
value_of (err e) = err e
value_of (ok none) = ok none
value_of (ok (some entry)) = ok (some entry.value)

abbrev pub only_done : Result CacheError CacheEntry → Result CacheError (Unit {0})
only_done (err e) = err e
only_done (ok entry) = ok tt

-- InMemoryNodeResultCache
abbrev pub in_memory_cache : NodeResultCache
in_memory_cache = record {
  State = Cache;
  CacheError = CacheError;
  get = λ c k now. let (c', found) = get c k now in (c', value_of found);
  put = λ c k value size_bytes ttl_seconds now.
      let (c', entry) = put c k value size_bytes ttl_seconds now in (c', only_done entry);
}

-- What the scheduler reads of an AdmissionDecision.
abbrev pub as_decision :
    AdmissionOutcome → Option ResourceReservation → List Text → Decision ResourceReservation
as_decision AdmissionOutcome.admitted r? violations = Decision.admitted r?
as_decision AdmissionOutcome.deferred r? violations = Decision.deferred violations
as_decision AdmissionOutcome.rejected r? violations = Decision.rejected violations

-- `decimal` is `str` of an integer.
abbrev pub read_decision :
    (ℕ → Text)
    → Result BrokerError AdmissionDecision
    → Result BrokerError (Decision ResourceReservation)
read_decision decimal (err e) = err e
read_decision decimal (ok d) =
    ok (as_decision d.outcome d.reservation (map (path decimal) d.diagnostics))

pub given_by-read_decision :
    (decimal : ℕ → Text) (reply : Result BrokerError AdmissionDecision)
    → given_by (read_decision decimal reply) ≡ reservation_of reply
given_by-read_decision decimal (err e) = refl
given_by-read_decision decimal (ok d) = go d.outcome d.reservation
  where
    go :
        (outcome : AdmissionOutcome) (r? : Option ResourceReservation)
        → given_by {E = BrokerError}
            (ok (as_decision outcome r? (map (path decimal) d.diagnostics)))
          ≡ granted outcome r?
    go AdmissionOutcome.admitted none = refl
    go AdmissionOutcome.admitted (some r) = refl
    go AdmissionOutcome.deferred r? = refl
    go AdmissionOutcome.rejected r? = refl

-- ResourceBroker, called as `admit(estimate)`.
abbrev pub resource_broker : (decimal : ℕ → Text) → AdmissionBroker
resource_broker decimal = record {
  Estimate = ResourceEstimate;
  BrokerError = BrokerError;
  State = ResourceBroker;
  Reservation = ResourceReservation;
  admit = λ b e generated.
      let (b', reply) = admit b e none generated in (b', read_decision decimal reply);
  release = λ b r. (release b r).0;
  Given = IsGiven;
  admit-Given = λ b e generated rs g.
      subst (λ new. IsGiven (admit b e none generated).0 (rs ++ new))
        (sym (given_by-read_decision decimal (admit b e none generated).1))
        (admit-IsGiven b e none generated rs g);
  release-Given = release-IsGiven;
}
