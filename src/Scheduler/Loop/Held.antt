-- ===== src/Scheduler/Loop/Held.antt =====
-- The tasks, tokens and reservations: what starts them and what ends them.
use comfy_ui_ng.Prelude.{
  ◌≤◌, ◌<◌, ◌≡◌, refl, sym, ◌∙◌, ap, subst, true, List, ◌∷◌, [], ◌++◌, Option, none, some, Text,
  text_eq, is_some, length, arith, key-cases, Bool-cases, Option-cases, inl, inr, ◌⊎◌, ◌≟◌, ≟_refl,
}
use comfy_ui_ng.Prelude.Dict.{
  Dict, lookup, insert, delete, values, lookup-insert, lookup-delete, insert-UniqueKeys,
  delete-UniqueKeys, length-delete, length-insert_of_Absent, insert_of_Absent, Absent-of_lookup,
  delete_absent, is_some-insert, length-insert_of_some,
}
use comfy_ui_ng.Scheduler.Cancellation.{Token}
use comfy_ui_ng.Scheduler.Loop.{Services, Scheduler, Phase}
use comfy_ui_ng.Scheduler.Loop.Monad.{after_release, release_reservation}
use comfy_ui_ng.Scheduler.Loop.Invariant.{IsHeld}

-- The values before and after the one that stands under a key.
values-split :
    {V : Type 0} (id : Text) (d : Dict Text V) (v : V)
    → lookup id d ≡ some v
    → (before after : List V) × (values d ≡ before ++ v ∷ after)
      × (values (delete id d) ≡ before ++ after)
unfolding lookup delete
values-split id [] v h = absurd (cc)
values-split id ((j, w) ∷ d) v h = elim (Bool-cases (j ≟ id)) [
  | inl p ↦ let e : some w ≡ some v = rw p at h in ([], values d, ground arith, rw p refl)
  | inr p ↦
      let (before, after, e, e') = values-split id d v (rw p at h) in
      (w ∷ before, after, ap (λ x. w ∷ x) e, rw p (ap (λ x. w ∷ x) e'))
]

values-insert_of_Absent :
    {V : Type 0} (id : Text) (v : V) (d : Dict Text V)
    → lookup id d ≡ none
    → values (insert id v d) ≡ values d ++ v ∷ []
values-insert_of_Absent id v d h =
    rw (insert_of_Absent id v d (Absent-of_lookup id d h)) (values-append d)
  where
    values-append : (x : Dict Text _) → values (x ++ (id, v) ∷ []) ≡ values x ++ v ∷ []
    values-append [] = refl
    values-append ((j, w) ∷ x) = ap (λ y. w ∷ y) (values-append x)

module _ {S : Services} where
  -- Giving a reservation back.
  pub release-IsHeld :
      (id : Text) (s : Scheduler S)
      → IsHeld s.broker s.active s.tokens s.reservations
      → let s' = release_reservation id s in
        IsHeld s'.broker s'.active s'.tokens s'.reservations
        × (lookup id s'.reservations ≡ none)
        × (s'.active ≡ s.active)
        × (s'.tokens ≡ s.tokens)
        × (s'.repository ≡ s.repository)
        × (s'.queues ≡ s.queues)
  unfolding release_reservation
  release-IsHeld id s h = go (lookup id s.reservations) refl
    where
      go :
          (r? : Option S.broker.Reservation)
          → lookup id s.reservations ≡ r?
          → let s' = after_release id r? s in
            IsHeld s'.broker s'.active s'.tokens s'.reservations
            × (lookup id s'.reservations ≡ none)
            × (s'.active ≡ s.active)
            × (s'.tokens ≡ s.tokens)
            × (s'.repository ≡ s.repository)
            × (s'.queues ≡ s.queues)
      go none e = (h, e, refl, refl, refl, refl)
      go (some r) e =
          let (before, after, p, p') = values-split id s.reservations r e in
          (
            record {
              unique_active = h.unique_active;
              unique_tokens = h.unique_tokens;
              unique_reservations = delete-UniqueKeys id s.reservations h.unique_reservations;
              reserved = λ j q.
                  h.reserved j
                    (ground (arith, lookup-delete id j s.reservations h.unique_reservations));
              tokened = h.tokened;
              given = subst (S.broker.Given (S.broker.release s.broker r)) (sym p') (
                  S.broker.release-Given s.broker r before after
                    (subst (S.broker.Given s.broker) p h.given));
              capped = h.capped;
            },
            ground (arith, lookup-delete id id s.reservations h.unique_reservations, ≟_refl id),
            refl,
            refl,
            refl,
            refl,
          )

  -- A job without a task.
  pub drop-IsHeld :
      (id : Text) (b : S.broker.State) (active : Dict Text (Phase S)) (tokens : Dict Text Token)
      (reservations : Dict Text S.broker.Reservation)
      → lookup id reservations ≡ none
      → IsHeld b active tokens reservations
      → IsHeld b (delete id active) (delete id tokens) reservations
  drop-IsHeld id b active tokens reservations free h = record {
    unique_active = delete-UniqueKeys id active h.unique_active;
    unique_tokens = delete-UniqueKeys id tokens h.unique_tokens;
    unique_reservations = h.unique_reservations;
    reserved = λ j q. elim (key-cases id j) [
      | inl p ↦ absurd (absent (subst (λ x. is_some (lookup x reservations) ≡ true) (sym p) q))
      | inr n ↦ ground (
        arith,
        lookup-delete id j active h.unique_active,
        h.reserved j q,
        text_eq.beq-iff_eq id j,
      )
    ];
    tokened = λ j. ground (
      arith,
      lookup-delete id j active h.unique_active,
      lookup-delete id j tokens h.unique_tokens,
      h.tokened j,
    );
    given = h.given;
    capped = fewer (Option-cases (lookup id active));
  }
    where
      absent : is_some (lookup id reservations) ≡ true → ⊥
      absent q = ground arith

      fewer :
          (lookup id active ≡ none) ⊎ ((p : Phase S) × (lookup id active ≡ some p))
          → length (delete id active) ≤ S.max_concurrency
      fewer (inl e) = rw (delete_absent id active e) h.capped
      fewer (inr (p, e)) = omega (arith, length-delete id active p e, h.capped)

  -- The task of a job at another place.
  pub phase-IsHeld :
      (id : Text) (phase phase' : Phase S) (b : S.broker.State) (active : Dict Text (Phase S))
      (tokens : Dict Text Token) (reservations : Dict Text S.broker.Reservation)
      → lookup id active ≡ some phase
      → IsHeld b active tokens reservations
      → IsHeld b (insert id phase' active) tokens reservations
  phase-IsHeld id phase phase' b active tokens reservations here h = record {
    unique_active = insert-UniqueKeys id phase' active h.unique_active;
    unique_tokens = h.unique_tokens;
    unique_reservations = h.unique_reservations;
    reserved = λ j q. ground (arith, lookup-insert id j phase' active, h.reserved j q);
    tokened = λ j. h.tokened j ∙ sym (same j);
    given = h.given;
    capped = omega (arith, h.capped, length-insert_of_some id phase' active phase here);
  }
    where
      same : (j : Text) → is_some (lookup j (insert id phase' active)) ≡ is_some (lookup j active)
      same j = is_some-insert id j phase' phase active here

  -- The token of a job in another state.
  pub token-IsHeld :
      (id : Text) (t t' : Token) (b : S.broker.State) (active : Dict Text (Phase S))
      (tokens : Dict Text Token) (reservations : Dict Text S.broker.Reservation)
      → lookup id tokens ≡ some t
      → IsHeld b active tokens reservations
      → IsHeld b active (insert id t' tokens) reservations
  token-IsHeld id t t' b active tokens reservations here h = record {
    unique_active = h.unique_active;
    unique_tokens = insert-UniqueKeys id t' tokens h.unique_tokens;
    unique_reservations = h.unique_reservations;
    reserved = h.reserved;
    tokened = λ j. is_some-insert id j t' t tokens here ∙ h.tokened j;
    given = h.given;
    capped = h.capped;
  }

  -- A new task with its token, for a job that has none.
  pub start-IsHeld :
      (id : Text) (phase : Phase S) (t : Token) (b : S.broker.State) (active : Dict Text (Phase S))
      (tokens : Dict Text Token) (reservations : Dict Text S.broker.Reservation)
      → lookup id active ≡ none
      → length active < S.max_concurrency
      → IsHeld b active tokens reservations
      → IsHeld b (insert id phase active) (insert id t tokens) reservations
  start-IsHeld id phase t b active tokens reservations idle room h = record {
    unique_active = insert-UniqueKeys id phase active h.unique_active;
    unique_tokens = insert-UniqueKeys id t tokens h.unique_tokens;
    unique_reservations = h.unique_reservations;
    reserved = λ j q. ground (arith, lookup-insert id j phase active, h.reserved j q);
    tokened = λ j.
        ground (arith, lookup-insert id j phase active, lookup-insert id j t tokens, h.tokened j);
    given = h.given;
    capped =
        omega
          (arith, room, length-insert_of_Absent id phase active (Absent-of_lookup id active idle));
  }

  -- The same with the reservation that the broker just gave.
  pub reserve-IsHeld :
      (id : Text) (phase : Phase S) (t : Token) (r : S.broker.Reservation) (b b' : S.broker.State)
      (active : Dict Text (Phase S)) (tokens : Dict Text Token)
      (reservations : Dict Text S.broker.Reservation)
      → lookup id active ≡ none
      → length active < S.max_concurrency
      → IsHeld b active tokens reservations
      → S.broker.Given b' (values reservations ++ r ∷ [])
      → IsHeld b' (insert id phase active) (insert id t tokens) (insert id r reservations)
  reserve-IsHeld id phase t r b b' active tokens reservations idle room h given =
      let s = start-IsHeld id phase t b active tokens reservations idle room h in
      record {
        unique_active = s.unique_active;
        unique_tokens = s.unique_tokens;
        unique_reservations = insert-UniqueKeys id r reservations h.unique_reservations;
        reserved = λ j q. ground (
          arith,
          lookup-insert id j phase active,
          lookup-insert id j r reservations,
          h.reserved j,
        );
        tokened = s.tokened;
        given =
            subst (S.broker.Given b') (sym (values-insert_of_Absent id r reservations unreserved))
              given;
        capped = s.capped;
      }
    where
      unreserved : lookup id reservations ≡ none
      unreserved = elim (Option-cases (lookup id reservations)) [
        | inl e ↦ e
        | inr (x, e) ↦ absurd (held (ap is_some e))
      ]
        where
          held : is_some (lookup id reservations) ≡ true → ⊥
          held q = let p = h.reserved id q in ground arith
