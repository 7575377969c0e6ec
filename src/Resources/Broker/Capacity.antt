-- ===== src/Resources/Broker/Capacity.antt =====
-- The reservations that the broker has granted never exceed its limits.
use comfy_ui_ng.Prelude.{
  String, Result, ok, err, ◌>>=◌, ℕ, ◌==◌, ◌≡◌, refl, sym, ap, subst, arith, true, Bool-cases, List,
  [], ◌∷◌, Option, none, some, is_some, nat_eq, inl, inr,
}
use comfy_ui_ng.Prelude.Dict.{lookup, Absent-of_lookup}
use comfy_ui_ng.Resources.Pressure.{PressureMonitor}
use comfy_ui_ng.Resources.Budgets.{
  Inventory, Reserves, from_inventory, ResourceEstimate, FallbackAction, ResourceLimits,
}
use comfy_ui_ng.Resources.Usage.{ResourceReservation, total}
use comfy_ui_ng.Resources.Broker.Admission.{suits-Fits, admit-all}
use comfy_ui_ng.Resources.Broker.{
  with_limits, start, ResourceBroker, observe_pressure, reserve, suits, rejection, identifier,
  admit, release_active, release, drain_pressure_events, Call, admission, giving_back, draining,
  step, run,
}
use comfy_ui_ng.Resources.Broker.Room.{WithinLimits, insert-WithinLimits, delete-WithinLimits}

-- The broker's limits stay, and what is reserved is within them.
abbrev pub KeepsLimits : ResourceBroker → ResourceBroker → Type 0
KeepsLimits b b' = (b'.limits ≡ b.limits) × WithinLimits b.limits b'.reservations

reserve-KeepsLimits :
    (b : ResourceBroker) (e s : ResourceEstimate) (action : FallbackAction)
    (attempts : List FallbackAction) (id : ℕ)
    → suits b s true ≡ true
    → WithinLimits b.limits b.reservations
    → KeepsLimits b (reserve b e s action attempts id).0
unfolding reserve observe_pressure
reserve-KeepsLimits b e s action attempts id f w =
    elim (Bool-cases (is_some (lookup id b.reservations))) [
      | inl p ↦ rw p (refl, w)
      | inr p ↦ rw p (
        refl,
        insert-WithinLimits b.limits b.reservations id
            (record { object = b.next_object; reservation_id = id; estimate = s })
            (Absent-of_lookup id b.reservations (ground arith)) (suits-Fits b s f) w,
      )
    ]

pub admit-KeepsLimits :
    (b : ResourceBroker) (e : ResourceEstimate) (reservation_id : Option ℕ) (generated : ℕ)
    → WithinLimits b.limits b.reservations
    → KeepsLimits b (admit b e reservation_id generated).0
unfolding rejection
admit-KeepsLimits b e reservation_id generated w =
    admit-all (λ reply. KeepsLimits b reply.0) b e (identifier reservation_id generated)
      (λ s action attempts c f.
        reserve-KeepsLimits b e s action attempts (identifier reservation_id generated) f w)
      (λ c attempts f. (refl, w)) (λ attempts f. (refl, w)) reservation_id generated refl

release_active-KeepsLimits :
    (b : ResourceBroker) (r : ResourceReservation) (active : Option ResourceReservation)
    → WithinLimits b.limits b.reservations
    → KeepsLimits b (release_active b r active).0
unfolding release_active observe_pressure
release_active-KeepsLimits b r none w = (refl, w)
release_active-KeepsLimits b r (some a) w = elim (Bool-cases (a.object == r.object)) [
  | inl p ↦ rw p (refl, delete-WithinLimits b.limits b.reservations r.reservation_id w)
  | inr p ↦ rw p (refl, w)
]

step-KeepsLimits :
    (b : ResourceBroker) (c : Call)
    → WithinLimits b.limits b.reservations
    → KeepsLimits b (step b c)
unfolding step release drain_pressure_events
step-KeepsLimits b (admission e reservation_id generated) w =
    admit-KeepsLimits b e reservation_id generated w
step-KeepsLimits b (giving_back r) w =
    release_active-KeepsLimits b r (lookup r.reservation_id b.reservations) w
step-KeepsLimits b draining w = (refl, w)

-- From reservations within the limits, any calls keep the limits and stay within them.
run-KeepsLimits :
    (b : ResourceBroker) (calls : List Call)
    → WithinLimits b.limits b.reservations
    → KeepsLimits b (run b calls)
unfolding run
run-KeepsLimits b [] w = (refl, w)
run-KeepsLimits b (c ∷ calls) w =
    let (same, w') = step-KeepsLimits b c w in
    let (same', w'') =
      run-KeepsLimits (step b c) calls
        (subst (λ l. WithinLimits l (step b c).reservations) (sym same) w') in
    (cc, subst (λ l. WithinLimits l (run (step b c) calls).reservations) same w'')

with_limits-WithinLimits :
    (monitor : PressureMonitor) (l : ResourceLimits)
    → WithinLimits l (with_limits monitor l).reservations
unfolding total
with_limits-WithinLimits monitor l = record {
  unique = tt;
  cpu = omega arith;
  ram = omega arith;
  pinned = omega arith;
  reads = omega arith;
  writes = omega arith;
  vram = λ i. omega arith;
  heavy = λ i. omega arith;
}

-- A broker that was made from an inventory never oversubscribes: after any sequence of admissions,
-- releases and drains its limits are those of the inventory, and what is reserved is within them on
-- every resource and on every GPU.
pub run-start-WithinLimits :
    (inventory : Inventory) (reserves : Reserves) (monitor : PressureMonitor) (b : ResourceBroker)
    (calls : List Call)
    → start inventory reserves monitor ≡ ok b
    → (from_inventory inventory reserves ≡ ok (run b calls).limits)
      × WithinLimits (run b calls).limits (run b calls).reservations
unfolding start
run-start-WithinLimits inventory reserves monitor b calls h =
    started (from_inventory inventory reserves) refl h
  where
    started :
        (r : Result String ResourceLimits)
        → from_inventory inventory reserves ≡ r
        → (r >>= λ l. ok (with_limits monitor l)) ≡ ok b
        → (from_inventory inventory reserves ≡ ok (run b calls).limits)
          × WithinLimits (run b calls).limits (run b calls).reservations
    started (err e) q k = absurd (cc)
    started (ok l) q k =
        let same : with_limits monitor l ≡ b = cc in
        let limits : b.limits ≡ l = sym (ap (λ x. x.limits) same) in
        let within : WithinLimits b.limits b.reservations =
          subst (λ x. WithinLimits x.limits x.reservations) same
            (with_limits-WithinLimits monitor l) in
        let (kept, w) = run-KeepsLimits b calls within in
        (cc, subst (λ x. WithinLimits x (run b calls).reservations) (sym kept) w)
