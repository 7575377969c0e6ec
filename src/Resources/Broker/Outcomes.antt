-- ===== src/Resources/Broker/Outcomes.antt =====
-- What the decisions of `admit` promise.
use comfy_ui_ng.Prelude.{
  ℕ, ◌≡◌, ◌≢◌, refl, subst, arith, true, false, Bool-cases, List, [], Option, none, some, Result,
  ok, err, is_some, nat_eq, inl, inr, ==_iff,
}
use comfy_ui_ng.Prelude.Dict.{lookup, Absent-of_lookup, lookup-insert_self, delete-insert}
use comfy_ui_ng.Resources.Budgets.{ResourceEstimate, demand, FallbackAction, reject}
use comfy_ui_ng.Resources.Usage.{ResourceReservation, available}
use comfy_ui_ng.Resources.Usage.Fits.{Fits}
use comfy_ui_ng.Resources.Broker.{
  ResourceBroker, Reply, AdmissionDecision, AdmissionOutcome, admitted, deferred, rejected,
  BrokerError, reservation_exists, holding, observe_pressure, reserve, rejection, identifier, admit,
  release_active, release,
}
use comfy_ui_ng.Resources.Broker.Admission.{IsChoice, admit-all}

-- What a decision with an outcome promises of the broker that made it.
abbrev pub Promise :
    ResourceBroker → ResourceEstimate → AdmissionDecision → AdmissionOutcome → Type 0
Promise b e d admitted =
    IsChoice e d.action d.selected
    × Fits (demand d.selected) (available b.limits b.reservations)
    × (d.diagnostics ≡ [])
    × (is_some d.reservation ≡ true)
Promise b e d deferred = Fits (demand d.selected) b.limits × (d.reservation ≡ none)
Promise b e d rejected =
    ¬ Fits (demand e) b.limits × (d.diagnostics ≢ []) × (d.action ≡ reject) × (d.reservation ≡ none)

-- A reply is right when it refuses a key that is taken, or is a decision that keeps its promise and
-- names what was asked for.
abbrev pub IsRight : ResourceBroker → ResourceEstimate → ℕ → Reply → Type 0
IsRight b e id (b', err (reservation_exists i)) =
    (i ≡ id) × (is_some (lookup id b.reservations) ≡ true) × (b' ≡ b)
IsRight b e id (b', ok d) = (d.requested ≡ e) × Promise b e d d.outcome

-- Giving the reservation back succeeds, restores what was reserved before, and a second time does
-- nothing.
abbrev pub Restores : ResourceBroker → ResourceBroker → ResourceReservation → Type 0
Restores b b' r =
    ((release b' r).1 ≡ true)
    × ((release b' r).0.reservations ≡ b.reservations)
    × (release (release b' r).0 r ≡ ((release b' r).0, false))

abbrev pub RestoresReply : ResourceBroker → Reply → Type 0
RestoresReply b reply =
    (d : AdmissionDecision) (r : ResourceReservation)
    → reply.1 ≡ ok d
    → d.reservation ≡ some r
    → Restores b reply.0 r

held-Restores :
    (b : ResourceBroker) (r : ResourceReservation)
    → lookup r.reservation_id b.reservations ≡ none
    → Restores b (observe_pressure (holding b r)) r
unfolding release release_active observe_pressure
held-Restores b r free =
    rw
      (
        lookup-insert_self r.reservation_id r b.reservations,
        (==_iff r.object r.object).1 refl,
        delete-insert r.reservation_id r b.reservations
            (Absent-of_lookup r.reservation_id b.reservations free),
        free,
      )
      (refl, refl, refl)

decided :
    (D d : AdmissionDecision) (r : ResourceReservation)
    → ◌≡◌ {A = Result BrokerError AdmissionDecision} (ok D) (ok d)
    → d.reservation ≡ some r
    → D.reservation ≡ some r
decided D d r h k = let same : D ≡ d = cc in rw same k

reserve-RestoresReply :
    (b : ResourceBroker) (e s : ResourceEstimate) (action : FallbackAction)
    (attempts : List FallbackAction) (id : ℕ)
    → RestoresReply b (reserve b e s action attempts id)
unfolding reserve
reserve-RestoresReply b e s action attempts id =
    elim (Bool-cases (is_some (lookup id b.reservations))) [
      | inl p ↦ rw p (λ d r h k. absurd (cc))
      | inr p ↦ rw p (λ d r h k.
          let same : ◌≡◌ {A = ResourceReservation}
              (record { object = b.next_object; reservation_id = id; estimate = s }) r =
            (let given = decided _ d r h k in cc) in
          subst
            (Restores b (
              observe_pressure
                (holding b (record { object = b.next_object; reservation_id = id; estimate = s }))))
            same
            (held-Restores b (record { object = b.next_object; reservation_id = id; estimate = s })
              (ground arith)))
    ]

-- The reservation that `admit` gives can be given back once: the first release succeeds and the
-- broker then has exactly the reservations from before the admission, and a second release returns
-- False and changes nothing.
pub release-admit :
    (b : ResourceBroker) (e : ResourceEstimate) (reservation_id : Option ℕ) (generated : ℕ)
    (d : AdmissionDecision) (r : ResourceReservation)
    → (admit b e reservation_id generated).1 ≡ ok d
    → d.reservation ≡ some r
    → Restores b (admit b e reservation_id generated).0 r
unfolding rejection
release-admit b e reservation_id generated =
    admit-all (RestoresReply b) b e (identifier reservation_id generated)
      (λ s action attempts c f.
        reserve-RestoresReply b e s action attempts (identifier reservation_id generated))
      (λ c attempts f d r h k. absurd (let given = decided _ d r h k in cc))
      (λ attempts f d r h k. absurd (let given = decided _ d r h k in cc)) reservation_id generated
      refl
