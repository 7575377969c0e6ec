-- ===== src/Prelude/Sort.antt =====
-- `sorted` and `min` by a key: the stable order that a Boolean "comes no later than" describes.
use comfy_ui_ng.Prelude.Tests.{if◌then◌else◌, Bool-cases, ltb, ◌==◌}
use comfy_ui_ng.Prelude.Int.{ℤ, pos_part, neg_part, ltb_ℤ, eqb_ℤ}
use Prim.Native.Nat.{ℕ, ◌+◌}
use comfy_ui_ng.Prelude.Lists.{All, All-mono}
use mathlib.Core.Path.{◌≡◌, refl, subst}
use mathlib.Core.Logic.{inl, inr}
use mathlib.Core.Bool.{Bool, true, false, ◌&&◌, ◌||◌}
use mathlib.Core.List.Perm
use mathlib.Core.Option.{Option, none, some}
use mathlib.Core.List.{List, [], ◌∷◌, Perm, Memᴰ}
use native.Mathlib.Omega.{arith}

-- A Boolean order that is total and transitive.
pub record IsOrder {ℓ} {A : Type ℓ} (le : A → A → Bool) : Type ℓ where
  pub total : (a b : A) → le a b ≡ false → le b a ≡ true
  pub trans : (a b c : A) → le a b ≡ true → le b c ≡ true → le a c ≡ true

module _ {ℓ} {A : Type ℓ} (le : A → A → Bool) where
  insert_sorted : A → List A → List A
  insert_sorted a [] = a ∷ []
  insert_sorted a (x ∷ xs) = if le a x then a ∷ x ∷ xs else x ∷ insert_sorted a xs

  unfoldable pub sort : List A → List A
  unfolding insert_sorted
  sort [] = []
  sort (x ∷ xs) = insert_sorted x (sort xs)

  -- Each element comes no later than all those after it.
  abbrev pub IsSorted : List A → Type ℓ
  IsSorted [] = Unit
  IsSorted (x ∷ xs) = All (λ y. le x y ≡ true) xs × IsSorted xs

  insert_sorted-perm : (a : A) (xs : List A) → Perm (insert_sorted a xs) (a ∷ xs)
  unfolding insert_sorted
  insert_sorted-perm a [] = Perm.refl _
  insert_sorted-perm a (x ∷ xs) = ground (
    arith,
    Perm.refl (a ∷ x ∷ xs),
    Perm.trans (Perm.cons x (insert_sorted-perm a xs)) (Perm.swap a x xs),
  )

  pub sort-perm : (xs : List A) → Perm (sort xs) xs
  unfolding sort
  sort-perm [] = Perm.refl _
  sort-perm (x ∷ xs) = Perm.trans (insert_sorted-perm x (sort xs)) (Perm.cons x (sort-perm xs))

module _ {ℓ} {A : Type ℓ} (le : A → A → Bool) where
  insert-All :
      (P : A → Type 0) (a : A) (xs : List A) → P a → All P xs → All P (insert_sorted le a xs)
  unfolding insert_sorted
  insert-All P a [] p h = (p, tt)
  insert-All P a (x ∷ xs) p h = elim (Bool-cases (le a x)) [
    | inl e ↦ rw e (p, h)
    | inr e ↦ rw e (h.0, insert-All P a xs p h.1)
  ]

module _ {ℓ} {A : Type ℓ} (le : A → A → Bool) (o : IsOrder le) where
  insert-IsSorted : (a : A) (xs : List A) → IsSorted le xs → IsSorted le (insert_sorted le a xs)
  unfolding insert_sorted
  insert-IsSorted a [] h = (tt, tt)
  insert-IsSorted a (x ∷ xs) h = elim (Bool-cases (le a x)) [
    | inl e ↦ rw e (
      (e, All-mono (λ y. le x y ≡ true) (λ y. le a y ≡ true) (λ y q. o.trans a x y e q) xs h.0),
      h,
    )
    | inr e ↦
        rw e (insert-All le (λ y. le x y ≡ true) a xs (o.total a x e) h.0, insert-IsSorted a xs h.1)
  ]

  pub sort-IsSorted : (xs : List A) → IsSorted le (sort le xs)
  unfolding sort
  sort-IsSorted [] = tt
  sort-IsSorted (x ∷ xs) = insert-IsSorted x (sort le xs) (sort-IsSorted xs)

-- Sorting keeps every sum over the elements, so also how often each stands there.
abbrev pub sum_of {ℓ} : {A : Type ℓ} → (A → ℕ) → List A → ℕ
sum_of f [] = 0
sum_of f (x ∷ xs) = f x + sum_of f xs

sum_of-insert_sorted {ℓ} :
    {A : Type ℓ} (le : A → A → Bool) (f : A → ℕ) (a : A) (xs : List A)
    → sum_of f (insert_sorted le a xs) ≡ f a + sum_of f xs
unfolding insert_sorted
sum_of-insert_sorted le f a [] = refl
sum_of-insert_sorted le f a (x ∷ xs) = ground (arith, sum_of-insert_sorted le f a xs)

pub sum_of-sort {ℓ} :
    {A : Type ℓ} (le : A → A → Bool) (f : A → ℕ) (xs : List A) → sum_of f (sort le xs) ≡ sum_of f xs
unfolding sort
sum_of-sort le f [] = refl
sum_of-sort le f (x ∷ xs) =
    omega (arith, sum_of-insert_sorted le f x (sort le xs), sum_of-sort le f xs)

-- `min(values, key=…)`: the first element that none precedes strictly; `None` for no values.
module _ {ℓ} {A : Type ℓ} (le : A → A → Bool) where
  min_from : A → List A → A
  min_from best [] = best
  min_from best (x ∷ xs) = min_from (if le best x then best else x) xs

  unfoldable pub minimum : List A → Option A
  unfolding min_from
  minimum [] = none
  minimum (x ∷ xs) = some (min_from x xs)

module _ {ℓ} {A : Type ℓ} (le : A → A → Bool) (o : IsOrder le)
    (refl_le : (a : A) → le a a ≡ true) where
  min_from-le : (best : A) (xs : List A) → le (min_from le best xs) best ≡ true
  unfolding min_from
  min_from-le best [] = refl_le best
  min_from-le best (x ∷ xs) = elim (Bool-cases (le best x)) [
    | inl e ↦ rw e (min_from-le best xs)
    | inr e ↦ rw e (o.trans _ x best (min_from-le x xs) (o.total best x e))
  ]

  min_from-All : (best : A) (xs : List A) → All (λ y. le (min_from le best xs) y ≡ true) xs
  unfolding min_from
  min_from-All best [] = tt
  min_from-All best (x ∷ xs) = elim (Bool-cases (le best x)) [
    | inl e ↦
        let step : min_from le best xs ≡ min_from le best (x ∷ xs) = rw e in
        subst (λ m. All (λ y. le m y ≡ true) (x ∷ xs)) step
          (o.trans _ best x (min_from-le best xs) e, min_from-All best xs)
    | inr e ↦
        let step : min_from le x xs ≡ min_from le best (x ∷ xs) = rw e in
        subst (λ m. All (λ y. le m y ≡ true) (x ∷ xs)) step (min_from-le x xs, min_from-All x xs)
  ]

  -- The minimum comes no later than any of the values.
  pub minimum-le : (xs : List A) (m : A) → minimum le xs ≡ some m → All (λ y. le m y ≡ true) xs
  unfolding minimum
  minimum-le [] m h = cc
  minimum-le (x ∷ xs) m h =
      let e : min_from le x xs ≡ m = cc in
      subst (λ a. All (λ y. le a y ≡ true) (x ∷ xs)) e (min_from-le x xs, min_from-All x xs)

min_from-mem {ℓ} :
    {A : Type ℓ} (le : A → A → Bool) (best : A) (xs : List A)
    → Memᴰ (min_from le best xs) (best ∷ xs)
unfolding min_from
min_from-mem le best [] = Memᴰ.head refl
min_from-mem {A} le best (x ∷ xs) = elim (Bool-cases (le best x)) [
  | inl e ↦ rw e (skip (min_from-mem le best xs))
  | inr e ↦ rw e (Memᴰ.tail (min_from-mem le x xs))
]
  where
    skip : {a : A} → Memᴰ a (best ∷ xs) → Memᴰ a (best ∷ x ∷ xs)
    skip (Memᴰ.head p) = Memᴰ.head p
    skip (Memᴰ.tail m) = Memᴰ.tail (Memᴰ.tail m)

pub minimum-mem {ℓ} :
    {A : Type ℓ} (le : A → A → Bool) (xs : List A) (m : A) → minimum le xs ≡ some m → Memᴰ m xs
unfolding minimum
minimum-mem le [] m h = absurd (cc)
minimum-mem le (x ∷ xs) m h = let e : min_from le x xs ≡ m = cc in rw (← e) (min_from-mem le x xs)

pub minimum-nonempty {ℓ} :
    {A : Type ℓ} (le : A → A → Bool) (xs : List A) → minimum le xs ≡ none → xs ≡ []
unfolding minimum
minimum-nonempty le [] h = refl
minimum-nonempty le (x ∷ xs) h = cc

-- Comparison of tuples: the first components, and the rest where they are equal.
abbrev pub lex : ℕ → ℕ → Bool → Bool
lex a b rest = ltb a b || a == b && rest

pub lex_total :
    (a b : ℕ) (r s : Bool) → (r ≡ false → s ≡ true) → lex a b r ≡ false → lex b a s ≡ true
lex_total a b r s f h = ground arith

pub lex_trans :
    (a b c : ℕ) (r s t : Bool)
    → (r ≡ true → s ≡ true → t ≡ true)
    → lex a b r ≡ true
    → lex b c s ≡ true
    → lex a c t ≡ true
lex_trans a b c r s t f h k = ground arith

abbrev pub lex_ℤ : ℤ → ℤ → Bool → Bool
lex_ℤ a b rest = ltb_ℤ a b || eqb_ℤ a b && rest

pub lex_ℤ_total :
    (a b : ℤ) (r s : Bool) → (r ≡ false → s ≡ true) → lex_ℤ a b r ≡ false → lex_ℤ b a s ≡ true
lex_ℤ_total a b r s f h = lex_total (pos_part a + neg_part b) (pos_part b + neg_part a) r s f h

pub lex_ℤ_trans :
    (a b c : ℤ) (r s t : Bool)
    → (r ≡ true → s ≡ true → t ≡ true)
    → lex_ℤ a b r ≡ true
    → lex_ℤ b c s ≡ true
    → lex_ℤ a c t ≡ true
lex_ℤ_trans a b c r s t f h k = ground arith
