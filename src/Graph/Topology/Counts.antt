-- ===== src/Graph/Topology/Counts.antt =====
-- How often a number stands in a list.
use comfy_ui_ng.Prelude.{
  ℕ, ◌+◌, ◌-◌, ◌≤◌, ◌≡◌, refl, subst, arith, true, false, Bool-cases, List, [], ◌∷◌, ◌++◌, leb,
  ◌==◌, length, if◌then◌else◌, inl, inr, All,
}
use comfy_ui_ng.Prelude.Sort.{sort, sum_of, sum_of-sort}
use comfy_ui_ng.Graph.Topology.{is_in, has_duplicates}

abbrev pub count : ℕ → List ℕ → ℕ
count v xs = sum_of (λ x. if x == v then 1 else 0) xs

pub count-sort : (v : ℕ) (xs : List ℕ) → count v (sort leb xs) ≡ count v xs
count-sort v xs = sum_of-sort leb (λ x. if x == v then 1 else 0) xs

pub count-append : (v : ℕ) (xs ys : List ℕ) → count v (xs ++ ys) ≡ count v xs + count v ys
count-append v [] ys = omega arith
count-append v (x ∷ xs) ys = omega (arith, count-append v xs ys)

-- One occurrence is taken out.
abbrev without : ℕ → List ℕ → List ℕ
without v [] = []
without v (x ∷ xs) = if x == v then xs else x ∷ without v xs

count-without :
    (v u : ℕ) (xs : List ℕ) → count v (without u xs) ≡ count v xs - (if u == v then 1 else 0)
count-without v u [] = ground arith
count-without v u (x ∷ xs) = ground (arith, count-without v u xs)

length-without : (u : ℕ) (xs : List ℕ) → 1 ≤ count u xs → length (without u xs) + 1 ≡ length xs
length-without u [] h = absurd (omega arith)
length-without u (x ∷ xs) h = ground (arith, length-without u xs)

-- A list that has no number oftener than another is no longer.
pub length-le : (xs ys : List ℕ) → ((v : ℕ) → count v xs ≤ count v ys) → length xs ≤ length ys
length-le [] ys h = omega arith
length-le (x ∷ xs) ys h =
    let here : 1 ≤ count x ys = ground (arith, h x) in
    omega (
      arith,
      length-without x ys here,
      length-le xs (without x ys) (λ v. ground (arith, h v, count-without v x ys)),
    )

-- If it is as long, it has every number as often.
pub count-eq :
    (xs ys : List ℕ)
    → ((v : ℕ) → count v xs ≤ count v ys)
    → length xs ≡ length ys
    → (v : ℕ) → count v xs ≡ count v ys
count-eq [] [] h e v = refl
count-eq [] (y ∷ ys) h e v = absurd (omega arith)
count-eq (x ∷ xs) ys h e v =
    let here : 1 ≤ count x ys = ground (arith, h x) in
    let rest =
      count-eq xs (without x ys) (λ u. ground (arith, h u, count-without u x ys))
        (omega (arith, length-without x ys here)) v in
    ground (arith, rest, h v, count-without v x ys)

pub is_in-count :
    (v : ℕ) (xs : List ℕ)
    → (is_in v xs ≡ true → 1 ≤ count v xs) × (is_in v xs ≡ false → count v xs ≡ 0)
is_in-count v [] = ground arith
is_in-count v (x ∷ xs) = ground (arith, is_in-count v xs)

-- Without duplicates every number stands at most once.
pub count-le-one : (v : ℕ) (xs : List ℕ) → has_duplicates xs ≡ false → count v xs ≤ 1
unfolding has_duplicates
count-le-one v [] h = omega arith
count-le-one v (x ∷ xs) h = ground (arith, count-le-one v xs, (is_in-count x xs).1)

-- What a property of all elements says of one that stands there.
pub All-count {κ} : (P : ℕ → Type κ) (v : ℕ) (xs : List ℕ) → All P xs → 1 ≤ count v xs → P v
All-count P v [] a h = absurd (omega arith)
All-count P v (x ∷ xs) a h = elim (Bool-cases (x == v)) [
  | inl p ↦ let same : x ≡ v = ground arith in subst P same a.0
  | inr p ↦ All-count P v xs a.1 (ground arith)
]
