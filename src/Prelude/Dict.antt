-- ===== src/Prelude/Dict.antt =====
-- A `dict`: an association list in the order of insertion, one entry for each key.
use comfy_ui_ng.Prelude.Tests.{if◌then◌else◌, Bool-cases, is_some}
use comfy_ui_ng.Prelude.Keys.{Eq, ◌≟◌, ≟_refl}
use comfy_ui_ng.Prelude.Lists.{length, length-append, All, All-append}
use Prim.Native.Nat.{◌+◌}
use mathlib.Core.Path.{◌≡◌, refl, ap}
use mathlib.Core.Logic.{inl, inr}
use mathlib.Core.Logic.{◌≢◌}
use mathlib.Core.Bool.{true, false}
use mathlib.Core.Option.{Option, none, some}
use mathlib.Core.List.{List, [], ◌∷◌, ◌++◌, Memᴰ}
use native.Mathlib.Omega.{arith}

abbrev pub Dict {ℓ κ} : Type ℓ → Type κ → Type (ℓ ⊔ κ)
Dict K V = List (K × V)

module _ {ℓ κ} {K : Type ℓ} {V : Type κ} where
  -- `d.values()`
  abbrev pub values : Dict K V → List V
  values [] = []
  values ((k, v) ∷ d) = v ∷ values d

  abbrev pub keys : Dict K V → List K
  keys [] = []
  keys ((k, v) ∷ d) = k ∷ keys d

module _ {ℓ κ} {K : Type ℓ} {V : Type κ} ⦃e : Eq K⦄ where
  -- `d.get(k)`
  unfoldable pub lookup : K → Dict K V → Option V
  lookup k [] = none
  lookup k ((j, v) ∷ d) = if j ≟ k then some v else lookup k d

  -- `d[k] = v`
  unfoldable pub insert : K → V → Dict K V → Dict K V
  insert k v [] = (k, v) ∷ []
  insert k v ((j, w) ∷ d) = if j ≟ k then (j, v) ∷ d else (j, w) ∷ insert k v d

  -- `del d[k]`, `d.pop(k, None)`
  unfoldable pub delete : K → Dict K V → Dict K V
  delete k [] = []
  delete k ((j, w) ∷ d) = if j ≟ k then d else (j, w) ∷ delete k d

  -- No entry of the list has the key.
  abbrev pub Absent : K → Dict K V → Type 0
  Absent k [] = Unit
  Absent k ((j, w) ∷ d) = ((j ≟ k) ≡ false) × Absent k d

  abbrev pub UniqueKeys : Dict K V → Type 0
  UniqueKeys [] = Unit
  UniqueKeys ((j, w) ∷ d) = Absent j d × UniqueKeys d

  pub lookup-insert :
      (k j : K) (v : V) (d : Dict K V)
      → lookup j (insert k v d) ≡ (if k ≟ j then some v else lookup j d)
  unfolding lookup insert
  lookup-insert k j v [] = refl
  lookup-insert k j v ((i, w) ∷ d) =
      ground (arith, e.beq-iff_eq k j, e.beq-iff_eq i k, e.beq-iff_eq i j, lookup-insert k j v d)

  pub lookup_of_Absent : (k : K) (d : Dict K V) → Absent k d → lookup k d ≡ none
  unfolding lookup
  lookup_of_Absent k [] h = refl
  lookup_of_Absent k ((j, w) ∷ d) h = ground (arith, lookup_of_Absent k d h.1)

  pub Absent-of_lookup : (k : K) (d : Dict K V) → lookup k d ≡ none → Absent k d
  unfolding lookup
  Absent-of_lookup k [] h = tt
  Absent-of_lookup k ((j, w) ∷ d) h = ground (arith, Absent-of_lookup k d)

  pub insert_of_Absent :
      (k : K) (v : V) (d : Dict K V) → Absent k d → insert k v d ≡ d ++ (k, v) ∷ []
  unfolding insert
  insert_of_Absent k v [] h = refl
  insert_of_Absent k v ((j, w) ∷ d) h = ground (arith, insert_of_Absent k v d h.1)

  Absent-insert :
      (i k : K) (v : V) (d : Dict K V) → Absent i d → (k ≟ i) ≡ false → Absent i (insert k v d)
  unfolding insert
  Absent-insert i k v [] h n = (n, tt)
  Absent-insert i k v ((j, w) ∷ d) h n = ground (arith, Absent-insert i k v d h.1 n)

  pub insert-UniqueKeys : (k : K) (v : V) (d : Dict K V) → UniqueKeys d → UniqueKeys (insert k v d)
  unfolding insert
  insert-UniqueKeys k v [] h = (tt, tt)
  insert-UniqueKeys k v ((j, w) ∷ d) h = ground (
    arith,
    insert-UniqueKeys k v d h.1,
    Absent-insert j k v d h.0,
    e.beq-iff_eq j k,
    e.beq-iff_eq k j,
  )

  pub Absent-delete_other : (i k : K) (d : Dict K V) → Absent i d → Absent i (delete k d)
  unfolding delete
  Absent-delete_other i k [] h = tt
  Absent-delete_other i k ((j, w) ∷ d) h = ground (arith, Absent-delete_other i k d h.1)

  pub delete-UniqueKeys : (k : K) (d : Dict K V) → UniqueKeys d → UniqueKeys (delete k d)
  unfolding delete
  delete-UniqueKeys k [] h = tt
  delete-UniqueKeys k ((j, w) ∷ d) h =
      ground (arith, delete-UniqueKeys k d h.1, Absent-delete_other j k d h.0)

  pub delete-Absent : (k : K) (d : Dict K V) → UniqueKeys d → Absent k (delete k d)
  unfolding delete
  delete-Absent k [] h = tt
  delete-Absent k ((j, w) ∷ d) h = elim (Bool-cases (j ≟ k)) [
    | inl p ↦ rw p (subst_Absent p)
    | inr p ↦ rw p (p, delete-Absent k d h.1)
  ]
    where
      subst_Absent : (j ≟ k) ≡ true → Absent k d
      subst_Absent p = rw (← (e.beq-iff_eq j k).0 p) h.0

  pub lookup-delete :
      (k j : K) (d : Dict K V)
      → UniqueKeys d
      → lookup j (delete k d) ≡ (if k ≟ j then none else lookup j d)
  unfolding lookup delete
  lookup-delete k j [] h = ground arith
  lookup-delete k j ((i, w) ∷ d) h = ground (
    arith,
    e.beq-iff_eq k j,
    e.beq-iff_eq i k,
    e.beq-iff_eq i j,
    lookup-delete k j d h.1,
    lookup_of_Absent i d h.0,
  )

  pub length-delete :
      (k : K) (d : Dict K V) (v : V) → lookup k d ≡ some v → length (delete k d) + 1 ≡ length d
  unfolding lookup delete
  length-delete k [] v h = cc
  length-delete k ((j, w) ∷ d) v h = ground (arith, length-delete k d v)

  pub delete_absent : (k : K) (d : Dict K V) → lookup k d ≡ none → delete k d ≡ d
  unfolding lookup delete
  delete_absent k [] h = refl
  delete_absent k ((j, w) ∷ d) h = ground (arith, delete_absent k d)

  -- Deleting a key that was just added gives the dictionary back.
  pub delete-insert : (k : K) (v : V) (d : Dict K V) → Absent k d → delete k (insert k v d) ≡ d
  unfolding insert delete
  delete-insert k v [] h = ground (arith, e.beq-iff_eq k k)
  delete-insert k v ((j, w) ∷ d) h = ground (arith, delete-insert k v d h.1)

  pub lookup-insert_self : (k : K) (v : V) (d : Dict K V) → lookup k (insert k v d) ≡ some v
  lookup-insert_self k v d = rw (lookup-insert k k v d, ≟_refl k)

  pub lookup-insert_ne :
      (k j : K) (v : V) (d : Dict K V) → j ≢ k → lookup j (insert k v d) ≡ lookup j d
  lookup-insert_ne k j v d n = ground (arith, lookup-insert k j v d, e.beq-iff_eq k j)

  pub lookup-delete_ne :
      (k j : K) (d : Dict K V) → UniqueKeys d → j ≢ k → lookup j (delete k d) ≡ lookup j d
  lookup-delete_ne k j d u n = ground (arith, lookup-delete k j d u, e.beq-iff_eq k j)

  -- Writing under a key that is there changes neither the keys nor their number.
  pub is_some-insert :
      (k j : K) (v w : V) (d : Dict K V)
      → lookup k d ≡ some w
      → is_some (lookup j (insert k v d)) ≡ is_some (lookup j d)
  is_some-insert k j v w d here = ground (arith, lookup-insert k j v d, e.beq-iff_eq k j)

  pub length-insert_of_some :
      (k : K) (v : V) (d : Dict K V) (w : V)
      → lookup k d ≡ some w
      → length (insert k v d) ≡ length d
  unfolding lookup insert
  length-insert_of_some k v [] w h = cc
  length-insert_of_some k v ((j, x) ∷ d) w h = ground (arith, length-insert_of_some k v d w)

  pub delete-All {μ} : (P : K × V → Type μ) (k : K) (d : Dict K V) → All P d → All P (delete k d)
  unfolding delete
  delete-All P k [] h = tt
  delete-All P k ((j, w) ∷ d) h = elim (Bool-cases (j ≟ k)) [
    | inl p ↦ rw p h.1
    | inr p ↦ rw p (h.0, delete-All P k d h.1)
  ]

  pub insert-All_of_Absent {μ} :
      (P : K × V → Type μ) (k : K) (v : V) (d : Dict K V)
      → Absent k d
      → All P d
      → P (k, v)
      → All P (insert k v d)
  insert-All_of_Absent P k v d a h p =
      rw (insert_of_Absent k v d a) (All-append P d ((k, v) ∷ []) h (p, tt))

  pub length-insert_of_Absent :
      (k : K) (v : V) (d : Dict K V) → Absent k d → length (insert k v d) ≡ length d + 1
  length-insert_of_Absent k v d a =
      rw (insert_of_Absent k v d a) (omega (arith, length-append d ((k, v) ∷ [])))

  pub Absent-lookup_ne :
      (k j : K) (v : V) (d : Dict K V) → Absent k d → lookup j d ≡ some v → (k ≟ j) ≡ false
  unfolding lookup
  Absent-lookup_ne k j v [] a h = cc
  Absent-lookup_ne k j v ((i, w) ∷ d) a h =
      ground
        (arith, Absent-lookup_ne k j v d a.1, e.beq-iff_eq i k, e.beq-iff_eq i j, e.beq-iff_eq k j)

  -- A value that stands under the key computed from it is found by that key.
  pub lookup_of_value :
      (key : V → K) (v : V) (d : Dict K V)
      → UniqueKeys d
      → All (λ p. key p.1 ≡ p.0) d
      → Memᴰ v (values d)
      → lookup (key v) d ≡ some v
  unfolding lookup
  lookup_of_value key v [] u h m = elim m [ ]
  lookup_of_value key v ((j, w) ∷ d) u h (Memᴰ.head p) =
      ground (arith, ap key p, e.beq-iff_eq j (key v))
  lookup_of_value key v ((j, w) ∷ d) u h (Memᴰ.tail m) =
      let found = lookup_of_value key v d u.1 h.1 m in
      rw (Absent-lookup_ne j (key v) v d u.0 found) found

  pub lookup_of_Mem :
      (k : K) (v : V) (d : Dict K V) → UniqueKeys d → Memᴰ (k, v) d → lookup k d ≡ some v
  unfolding lookup
  lookup_of_Mem k v [] u m = elim m [ ]
  lookup_of_Mem k v ((j, w) ∷ d) u (Memᴰ.head p) =
      ground (arith, ap (λ q. q.0) p, ap (λ q. q.1) p, e.beq-iff_eq j k)
  lookup_of_Mem k v ((j, w) ∷ d) u (Memᴰ.tail m) =
      let found = lookup_of_Mem k v d u.1 m in rw (Absent-lookup_ne j k v d u.0 found) found

  pub lookup-value_All {μ} :
      (P : V → Type μ) (k : K) (v : V) (d : Dict K V) → All P (values d) → lookup k d ≡ some v → P v
  unfolding lookup
  lookup-value_All P k v [] h q = absurd (cc)
  lookup-value_All P k v ((j, w) ∷ d) h q = elim (Bool-cases (j ≟ k)) [
    | inl p ↦ let found : some w ≡ some v = rw p at q in ground (arith, h.0)
    | inr p ↦ lookup-value_All P k v d h.1 (rw p at q)
  ]

  pub lookup-All {μ} :
      (P : K × V → Type μ) (k : K) (v : V) (d : Dict K V) → All P d → lookup k d ≡ some v → P (k, v)
  unfolding lookup
  lookup-All P k v [] h q = absurd (cc)
  lookup-All P k v ((j, w) ∷ d) h q = elim (Bool-cases (j ≟ k)) [
    | inl p ↦
        let found : some w ≡ some v = rw p at q in
        let same = (e.beq-iff_eq j k).0 p in ground (arith, h.0)
    | inr p ↦ lookup-All P k v d h.1 (rw p at q)
  ]
