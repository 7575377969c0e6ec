-- ===== src/Resources/Broker/Given.antt =====
-- The reservations of a broker in the order in which they were given.
use comfy_ui_ng.Prelude.{
  ℕ, ◌==◌, ==_iff, ◌≡◌, refl, sym, ◌∙◌, ap, subst, arith, true, Bool-cases, List, [], ◌∷◌, ◌++◌,
  Option, none, some, is_some, nat_eq, Result, ok, err, inl, inr, All, ≟_refl,
}
use comfy_ui_ng.Prelude.Dict.{
  lookup, delete, values, UniqueKeys, insert-UniqueKeys, delete-UniqueKeys, insert-All_of_Absent,
  delete-All, insert_of_Absent, Absent-of_lookup, Absent-lookup_ne,
}
use comfy_ui_ng.Resources.Budgets.{ResourceEstimate, FallbackAction}
use comfy_ui_ng.Resources.Usage.{ResourceReservation, Reservations}
use comfy_ui_ng.Resources.Broker.Admission.{admit-all}
use comfy_ui_ng.Resources.Broker.{
  ResourceBroker, AdmissionOutcome, admitted, BrokerError, AdmissionDecision, Reply,
  observe_pressure, reserve, rejection, identifier, admit, release, release_active,
}
use mathlib.Core.List.{append-nil}

-- The reservations are those of the list, each under its own id.
pub record IsGiven (b : ResourceBroker) (rs : List ResourceReservation) : Type 0 where
  pub unique : UniqueKeys b.reservations
  pub keyed : All (λ p. p.1.reservation_id ≡ p.0) b.reservations
  pub listed : values b.reservations ≡ rs

-- The reservation of a reply that admits.
abbrev pub granted : AdmissionOutcome → Option ResourceReservation → List ResourceReservation
granted admitted (some r) = r ∷ []
granted _ _ = []

abbrev pub reservation_of : Result BrokerError AdmissionDecision → List ResourceReservation
reservation_of (err e) = []
reservation_of (ok d) = granted d.outcome d.reservation

abbrev Grants : List ResourceReservation → Reply → Type 0
Grants rs reply = IsGiven reply.0 (rs ++ reservation_of reply.1)

values-append_one :
    (id : ℕ) (r : ResourceReservation) (d : Reservations)
    → values (d ++ (id, r) ∷ []) ≡ values d ++ r ∷ []
values-append_one id r [] = refl
values-append_one id r ((j, x) ∷ d) = ap (λ y. x ∷ y) (values-append_one id r d)

unchanged-IsGiven :
    (b : ResourceBroker) (rs : List ResourceReservation) → IsGiven b rs → IsGiven b (rs ++ [])
unchanged-IsGiven b rs g = subst (IsGiven b) (sym (append-nil rs)) g

reserve-Grants :
    (b : ResourceBroker) (e s : ResourceEstimate) (action : FallbackAction)
    (attempts : List FallbackAction) (id : ℕ) (rs : List ResourceReservation)
    → IsGiven b rs
    → Grants rs (reserve b e s action attempts id)
unfolding reserve observe_pressure
reserve-Grants b e s action attempts id rs g =
    elim (Bool-cases (is_some (lookup id b.reservations))) [
      | inl p ↦ rw p (unchanged-IsGiven b rs g)
      | inr p ↦
          let r : ResourceReservation = record {
            object = b.next_object;
            reservation_id = id;
            estimate = s;
          } in
          let absent = Absent-of_lookup id b.reservations (ground arith) in
          rw p (record {
            unique = insert-UniqueKeys id r b.reservations g.unique;
            keyed =
                insert-All_of_Absent (λ q. q.1.reservation_id ≡ q.0) id r b.reservations absent
                  g.keyed refl;
            listed =
                ap values (insert_of_Absent id r b.reservations absent)
                ∙ values-append_one id r b.reservations
                ∙ ap (λ x. x ++ r ∷ []) g.listed;
          })
    ]

-- What an admission gives comes last.
pub admit-IsGiven :
    (b : ResourceBroker) (e : ResourceEstimate) (reservation_id : Option ℕ) (generated : ℕ)
    (rs : List ResourceReservation)
    → IsGiven b rs
    → Grants rs (admit b e reservation_id generated)
unfolding rejection
admit-IsGiven b e reservation_id generated rs g =
    admit-all (Grants rs) b e (identifier reservation_id generated)
      (λ s action attempts c f.
        reserve-Grants b e s action attempts (identifier reservation_id generated) rs g)
      (λ c attempts f. unchanged-IsGiven b rs g) (λ attempts f. unchanged-IsGiven b rs g)
      reservation_id generated refl

first : List ResourceReservation → Option ResourceReservation
first [] = none
first (r ∷ rs) = some r

rest : List ResourceReservation → List ResourceReservation
rest [] = []
rest (r ∷ rs) = rs

some_injective : {x y : ResourceReservation} → some x ≡ some y → x ≡ y
some_injective h = cc

-- A reservation that is in the list is found under its id, and deleting that takes it out.
taken_out :
    (r : ResourceReservation) (before after : List ResourceReservation) (d : Reservations)
    → UniqueKeys d
    → All (λ p. p.1.reservation_id ≡ p.0) d
    → values d ≡ before ++ r ∷ after
    → (lookup r.reservation_id d ≡ some r) × (values (delete r.reservation_id d) ≡ before ++ after)
unfolding lookup delete first rest
taken_out r [] after [] u k e = absurd (cc)
taken_out r (x ∷ before) after [] u k e = absurd (cc)
taken_out r [] after ((j, v) ∷ d) u k e =
    let heads : some v ≡ some r = ap first e in
    let rests : values d ≡ after = ap rest e in
    let own : v.reservation_id ≡ j = k.0 in
    let here : (j == r.reservation_id) ≡ true =
      (==_iff j r.reservation_id).1 (ground (arith, own, heads)) in
    rw here (heads, rests)
taken_out r (x ∷ before) after ((j, v) ∷ d) u k e =
    let (found, gone) = taken_out r before after d u.1 k.1 (ap rest e) in
    let heads : some v ≡ some x = ap first e in
    rw (Absent-lookup_ne j r.reservation_id r d u.0 found)
      (found, ap (λ y. v ∷ y) gone ∙ ap (λ y. y ∷ before ++ after) (some_injective heads))

-- Giving back a reservation of the list takes it out of the list.
pub release-IsGiven :
    (b : ResourceBroker) (r : ResourceReservation) (before after : List ResourceReservation)
    → IsGiven b (before ++ r ∷ after)
    → IsGiven (release b r).0 (before ++ after)
unfolding release release_active observe_pressure
release-IsGiven b r before after g =
    let (found, gone) = taken_out r before after b.reservations g.unique g.keyed g.listed in
    rw (found, ≟_refl r.object)
      (record {
        unique = delete-UniqueKeys r.reservation_id b.reservations g.unique;
        keyed = delete-All (λ p. p.1.reservation_id ≡ p.0) r.reservation_id b.reservations g.keyed;
        listed = gone;
      })
