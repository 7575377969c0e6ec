-- ===== src/Graph/Topology/Critical/Ordered.antt =====
-- The order of `topological_sort` has the targets of each node after it.
use comfy_ui_ng.Prelude.{
  ℕ, ◌+◌, ◌≤◌, ◌≡◌, refl, arith, false, Bool-cases, List, [], ◌∷◌, ◌++◌, ok, Result, inl, inr, ◌==◌,
}
use comfy_ui_ng.Graph.{Edge}
use comfy_ui_ng.Graph.Topology.{TopologyError, is_in, has_duplicates, flatten, topological_sort}
use comfy_ui_ng.Graph.Topology.Counts.{count, count-append, is_in-count, count-le-one, All-count}
use comfy_ui_ng.Graph.Topology.Build.{pending, pending-append, pending-target, links, AreEdges}
use comfy_ui_ng.Graph.Topology.Layers.{Layered}
use comfy_ui_ng.Graph.Topology.Outcomes.{topological_layers-Outcome}

-- Every edge out of a node of the list leads to a later one.
abbrev pub Ordered : List Edge → List ℕ → Type 0
Ordered es [] = Unit
Ordered es (v ∷ vs) = ((t : ℕ) → 1 ≤ links es v t → 1 ≤ count t vs) × Ordered es vs

-- A node that waits for nothing has the sources of its edges done.
pending-source :
    (es : List Edge) (done : List ℕ) (v t : ℕ)
    → pending es done t ≡ 0
    → 1 ≤ links es v t
    → 1 ≤ count v done
pending-source es done v t h k = elim (Bool-cases (is_in v done)) [
  | inl p ↦ (is_in-count v done).0 p
  | inr p ↦ absurd (omega (arith, pending-append es done v t p))
]

pub link-target :
    (nodes : List ℕ) (es : List Edge) (v t : ℕ)
    → AreEdges nodes es
    → 1 ≤ links es v t
    → 1 ≤ count t nodes
link-target nodes es v t a k =
    pending-target es nodes [] t a (omega (arith, pending-append es [] v t refl))

Ordered-append :
    (es : List Edge) (l rest : List ℕ)
    → ((v : ℕ) → 1 ≤ count v l → (t : ℕ) → 1 ≤ links es v t → 1 ≤ count t rest)
    → Ordered es rest
    → Ordered es (l ++ rest)
Ordered-append es [] rest f o = o
Ordered-append es (v ∷ l) rest f o = (
  λ t k. let later = f v (ground arith) t k in omega (arith, count-append t l rest, later),
  Ordered-append es l rest (λ u h. f u (ground (arith, h))) o,
)

Layered-Ordered :
    (es : List Edge) (before : List ℕ) (layers : List (List ℕ))
    → Layered es before layers
    → ((v : ℕ) → count v (before ++ flatten layers) ≤ 1)
    → ((v t : ℕ) → 1 ≤ links es v t → 1 ≤ count t (before ++ flatten layers))
    → ((v t : ℕ) → 1 ≤ links es v t → 1 ≤ count t before → 1 ≤ count v before)
    → Ordered es (flatten layers)
unfolding flatten
Layered-Ordered es before [] l once all closed = tt
Layered-Ordered es before (x ∷ xs) l once all closed = Ordered-append es x (flatten xs) later (
    Layered-Ordered es (before ++ x) xs l.1 (λ v. omega (arith, parts' v, parts v, once v))
      (λ v t k. omega (arith, parts' t, parts t, all v t k)) closed')
  where
    parts :
        (v : ℕ)
        → count v (before ++ (x ++ flatten xs))
          ≡ count v before + (count v x + count v (flatten xs))
    parts v = omega (arith, count-append v before (x ++ flatten xs), count-append v x (flatten xs))

    parts' :
        (v : ℕ)
        → count v ((before ++ x) ++ flatten xs) ≡ count v before + count v x + count v (flatten xs)
    parts' v = omega (arith, count-append v (before ++ x) (flatten xs), count-append v before x)

    source : (v t : ℕ) → 1 ≤ links es v t → 1 ≤ count t (before ++ x) → 1 ≤ count v before
    source v t k h = elim (Bool-cases (count t before == 0)) [
      | inr p ↦ closed v t k (ground arith)
      | inl p ↦
          let here : 1 ≤ count t x = ground (arith, count-append t before x) in
          pending-source es before v t (All-count (λ j. pending es before j ≡ 0) t x l.0 here) k
    ]

    closed' : (v t : ℕ) → 1 ≤ links es v t → 1 ≤ count t (before ++ x) → 1 ≤ count v (before ++ x)
    closed' v t k h = omega (arith, source v t k h, count-append v before x)

    later : (v : ℕ) → 1 ≤ count v x → (t : ℕ) → 1 ≤ links es v t → 1 ≤ count t (flatten xs)
    later v h t k = elim (Bool-cases (count t (flatten xs) == 0)) [
      | inr p ↦ ground arith
      | inl p ↦
          let early : 1 ≤ count t (before ++ x) =
            ground (arith, all v t k, parts t, count-append t before x) in
          absurd (omega (arith, source v t k early, once v, parts v, h))
    ]

-- What `topological_sort` returns is in order, and has the nodes.
pub topological_sort-Ordered :
    (nodes : List ℕ) (es : List Edge) (order : List ℕ)
    → has_duplicates nodes ≡ false
    → AreEdges nodes es
    → topological_sort nodes es ≡ ok order
    → Ordered es order × ((v : ℕ) → count v order ≡ count v nodes)
unfolding topological_sort
topological_sort-Ordered nodes es order distinct valid h =
    elim (topological_layers-Outcome nodes es distinct valid) [
      | inr (ids, e, _, _) ↦ absurd (let q = rw e at h in cc)
      | inl (layers, e, l) ↦
          let q : ◌≡◌ {A = Result TopologyError (List ℕ)} (ok (flatten layers)) (ok order) =
            rw e at h in
          let same : flatten layers ≡ order = cc in
          rw (← same) (
            Layered-Ordered es [] layers l.layered
                (λ v. omega (arith, l.complete v, count-le-one v nodes distinct))
                (λ v t k. omega (arith, l.complete t, link-target nodes es v t valid k))
                (λ v t k none. absurd (omega arith)),
            l.complete,
          )
    ]
