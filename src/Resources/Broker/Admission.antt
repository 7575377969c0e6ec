-- ===== src/Resources/Broker/Admission.antt =====
-- The replies that `admit` can give, for any property of them.
use comfy_ui_ng.Prelude.{
  ℕ, ◌≡◌, ◌⊎◌, ◌↔◌, refl, Bool, true, false, Bool-cases, List, [], ◌∷◌, ◌++◌, Option, none, some,
  ok, if◌then◌else◌, nat_eq, inl, inr,
}
use comfy_ui_ng.Resources.Budgets.{
  ResourceEstimate, demand, alternative_for, FallbackAction, unchanged, offload, quantize, sequence,
  reduce_batch,
}
use comfy_ui_ng.Resources.Usage.{ResourceViolation, available, diagnostics}
use comfy_ui_ng.Resources.Usage.Fits.{Fits, lacks_iff}
use comfy_ui_ng.Resources.Broker.{
  ResourceBroker, Reply, refusal, deferred, reserve, suits, rejection, after_reduce,
  after_transforms, candidate_or, transforms, identifier, admit,
}

no_violations_iff :
    (vs : List ResourceViolation) → ((elim vs [ [] ↦ true | _ ∷ _ ↦ false ]) ≡ true) ↔ (vs ≡ [])
no_violations_iff [] = (λ h. refl, λ h. refl)
no_violations_iff (v ∷ vs) = (λ h. absurd (cc), λ h. absurd (cc))

pub suits_iff :
    (b : ResourceBroker) (e : ResourceEstimate) (now : Bool)
    → (suits b e now ≡ true) ↔ (diagnostics b.limits b.reservations e now ≡ [])
unfolding suits
suits_iff b e now = no_violations_iff (diagnostics b.limits b.reservations e now)

pub suits-Fits :
    (b : ResourceBroker) (e : ResourceEstimate)
    → suits b e true ≡ true
    → Fits (demand e) (available b.limits b.reservations)
unfolding diagnostics
suits-Fits b e h =
    (lacks_iff true (demand e) (available b.limits b.reservations) b.limits).0
      ((suits_iff b e true).0 h)

-- Against the limits themselves.
pub suits-limits_iff :
    (b : ResourceBroker) (e : ResourceEstimate)
    → (suits b e false ≡ true) ↔ Fits (demand e) b.limits
unfolding diagnostics
suits-limits_iff b e = (
  λ h. (lacks_iff false (demand e) b.limits b.limits).0 ((suits_iff b e false).0 h),
  λ h. (suits_iff b e false).1 ((lacks_iff false (demand e) b.limits b.limits).1 h),
)

-- The estimate itself, or its alternative for the action.
abbrev pub IsChoice : ResourceEstimate → FallbackAction → ResourceEstimate → Type 0
IsChoice e action s = (s ≡ e) ⊎ (alternative_for e action ≡ some s)

-- What `admit` knows of its `sequence_candidate`.
Known : ResourceBroker → ResourceEstimate → Option ResourceEstimate → Type 0
Known b e none = suits b e false ≡ false
Known b e (some c) = suits b c false ≡ true

candidate_or-Known :
    (b : ResourceBroker) (e : ResourceEstimate) (candidate : Option ResourceEstimate)
    (alternative : ResourceEstimate)
    → Known b e candidate
    → Known b e (candidate_or b candidate alternative)
unfolding candidate_or Known
candidate_or-Known b e (some c) alternative k = k
candidate_or-Known b e none alternative k = elim (Bool-cases (suits b alternative false)) [
  | inl p ↦ rw p p
  | inr p ↦ rw p k
]

-- A property of every reply that `admit` can give: a reservation of a choice that fits now, the
-- decision to wait for a candidate that fits the limits, or the rejection of an estimate that does
-- not fit them.
module _ {ℓ} (P : Reply → Type ℓ) (b : ResourceBroker) (e : ResourceEstimate) (id : ℕ)
    (granted : (s : ResourceEstimate) (action : FallbackAction) (attempts : List FallbackAction)
      → IsChoice e action s
      → suits b s true ≡ true
      → P (reserve b e s action attempts id))
    (waits : (c : ResourceEstimate) (attempts : List FallbackAction)
      → suits b c false ≡ true
      → P (
        b,
        ok (refusal deferred sequence e c (diagnostics b.limits b.reservations c true) attempts),
      ))
    (refused : (attempts : List FallbackAction)
      → suits b e false ≡ false
      → P (rejection b e attempts)) where
  after_reduce-all :
      (attempts : List FallbackAction) (r : Option ResourceEstimate)
      → alternative_for e reduce_batch ≡ r
      → suits b e false ≡ false
      → P (after_reduce b e id attempts r)
  unfolding after_reduce
  after_reduce-all attempts none h k = refused attempts k
  after_reduce-all attempts (some r) h k = elim (Bool-cases (suits b r true)) [
    | inl p ↦ rw p (granted r reduce_batch (attempts ++ reduce_batch ∷ []) (inr h) p)
    | inr p ↦ rw p (refused (attempts ++ reduce_batch ∷ []) k)
  ]

  after_transforms-all :
      (attempts : List FallbackAction) (candidate : Option ResourceEstimate)
      → Known b e candidate
      → P (after_transforms b e id attempts candidate)
  unfolding after_transforms Known
  after_transforms-all attempts none k =
      after_reduce-all (attempts ++ sequence ∷ []) (alternative_for e reduce_batch) refl k
  after_transforms-all attempts (some c) k = waits c (attempts ++ sequence ∷ []) k

  -- One round of the loop, with the rest of it as `next`.
  transforms_round :
      (a : FallbackAction) (actions attempts : List FallbackAction)
      (candidate alternative : Option ResourceEstimate)
      → alternative_for e a ≡ alternative
      → ((attempts' : List FallbackAction) (candidate' : Option ResourceEstimate)
          → Known b e candidate'
          → P (transforms actions b e id attempts' candidate'))
      → Known b e candidate
      → P (transforms (a ∷ actions) b e id attempts candidate)
  unfolding transforms
  transforms_round a actions attempts candidate none h next k =
      rw (h, transforms) (next attempts candidate k)
  transforms_round a actions attempts candidate (some r) h next k =
      elim (Bool-cases (suits b r true)) [
        | inl p ↦ rw (h, transforms, p) (granted r a (attempts ++ a ∷ []) (inr h) p)
        | inr p ↦
            rw (h, transforms, p)
              (next (attempts ++ a ∷ []) (candidate_or b candidate r)
                (candidate_or-Known b e candidate r k))
      ]

  transforms-all :
      (actions attempts : List FallbackAction) (candidate : Option ResourceEstimate)
      → Known b e candidate
      → P (transforms actions b e id attempts candidate)
  transforms-all [] attempts candidate k =
      unfold transforms in after_transforms-all attempts candidate k
  transforms-all (a ∷ actions) attempts candidate k =
      transforms_round a actions attempts candidate (alternative_for e a) refl
        (transforms-all actions) k

  first_candidate : Known b e (if suits b e false then some e else none)
  unfolding Known
  first_candidate = elim (Bool-cases (suits b e false)) [ inl p ↦ rw p p | inr p ↦ rw p p ]

  pub admit-all :
      (reservation_id : Option ℕ) (generated : ℕ)
      → identifier reservation_id generated ≡ id
      → P (admit b e reservation_id generated)
  unfolding admit
  admit-all reservation_id generated same = elim (Bool-cases (suits b e true)) [
    | inl p ↦ rw (same, p) (granted e unchanged (unchanged ∷ []) (inl refl) p)
    | inr p ↦
        rw (same, p)
          (transforms-all (offload ∷ quantize ∷ []) (unchanged ∷ [])
            (if suits b e false then some e else none) first_candidate)
  ]
