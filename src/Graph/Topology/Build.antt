-- ===== src/Graph/Topology/Build.antt =====
-- The adjacency that the edges build.
use comfy_ui_ng.Prelude.{
  ℕ, ◌+◌, ◌≤◌, ◌≡◌, refl, ap, subst, arith, Bool, false, not, ◌||◌, ◌&&◌, Bool-cases, List, [], ◌∷◌,
  ◌++◌, ok, ◌==◌, if◌then◌else◌, inl, inr, All, nat_eq,
}
use comfy_ui_ng.Prelude.Dict.{Dict, lookup, insert, keys, lookup-insert}
use comfy_ui_ng.Graph.{Edge}
use comfy_ui_ng.Graph.Topology.{
  is_in, has_duplicates, zeros, Adjacency, or_nil, or_zero, add_edge, add_edges, sort_values,
  keys_with,
}
use comfy_ui_ng.Graph.Topology.Counts.{count, count-append, count-sort, is_in-count}

-- How many edges lead to the node from one that is not yet done.
abbrev pub pending : List Edge → (done : List ℕ) → ℕ → ℕ
pending [] done v = 0
pending (e ∷ es) done v =
    (if e.target_node_id == v && not (is_in e.source_node_id done) then 1 else 0)
    + pending es done v

-- How many edges lead from the one node to the other.
abbrev pub links : List Edge → ℕ → ℕ → ℕ
links [] u v = 0
links (e ∷ es) u v =
    (if e.source_node_id == u && e.target_node_id == v then 1 else 0) + links es u v

-- Both ends of each edge are nodes.
abbrev pub AreEdges : List ℕ → List Edge → Type 0
AreEdges nodes es =
    All (λ e. (1 ≤ count e.source_node_id nodes) × (1 ≤ count e.target_node_id nodes)) es

is_in-append : (u v : ℕ) (xs : List ℕ) → is_in u (xs ++ v ∷ []) ≡ is_in u xs || v == u
is_in-append u v [] = ground arith
is_in-append u v (x ∷ xs) = ground (arith, is_in-append u v xs)

-- When a node is done, its links are no longer pending.
pub pending-append :
    (es : List Edge) (done : List ℕ) (u v : ℕ)
    → is_in u done ≡ false
    → pending es done v ≡ links es u v + pending es (done ++ u ∷ []) v
pending-append [] done u v h = omega arith
pending-append (e ∷ es) done u v h = elim (Bool-cases (e.source_node_id == u)) [
  | inl p ↦
      let same : e.source_node_id ≡ u = ground arith in
      let out : is_in e.source_node_id done ≡ false = rw same h in
      ground (arith, is_in-append e.source_node_id u done, pending-append es done u v h)
  | inr p ↦ ground (arith, is_in-append e.source_node_id u done, pending-append es done u v h)
]

pub pending-target :
    (es : List Edge) (nodes done : List ℕ) (v : ℕ)
    → AreEdges nodes es
    → 1 ≤ pending es done v
    → 1 ≤ count v nodes
pending-target [] nodes done v a h = absurd (omega (arith, h))
pending-target (e ∷ es) nodes done v a h = elim (Bool-cases (e.target_node_id == v)) [
  | inl p ↦
      let same : e.target_node_id ≡ v = ground arith in subst (λ k. 1 ≤ count k nodes) same a.0.1
  | inr p ↦ pending-target es nodes done v a.1 (ground arith)
]

keys-insert : (t n : ℕ) (d : Dict ℕ ℕ) → 1 ≤ count t (keys d) → keys (insert t n d) ≡ keys d
unfolding insert
keys-insert t n [] h = absurd (omega (arith, h))
keys-insert t n ((j, m) ∷ d) h = ground (arith, keys-insert t n d)

pub insert-keys :
    (nodes : List ℕ) (t n : ℕ) (d : Dict ℕ ℕ)
    → keys d ≡ nodes
    → 1 ≤ count t nodes
    → keys (insert t n d) ≡ nodes
insert-keys nodes t n d e h = subst (λ k. keys (insert t n d) ≡ k) e (keys-insert t n d (rw e h))

degree-insert :
    (t v : ℕ) (d : Dict ℕ ℕ)
    → or_zero (lookup v (insert t (or_zero (lookup t d) + 1) d))
      ≡ or_zero (lookup v d) + (if t == v then 1 else 0)
degree-insert t v d =
    rw (lookup-insert t v (or_zero (lookup t d) + 1) d) (elim (Bool-cases (t == v)) [
      | inl p ↦ let same : t ≡ v = ground arith in rw (p, same) refl
      | inr p ↦ rw p (omega arith)
    ])

targets-insert :
    (s t u v : ℕ) (d : Dict ℕ (List ℕ))
    → count v (or_nil (lookup u (insert s (or_nil (lookup s d) ++ t ∷ []) d)))
      ≡ count v (or_nil (lookup u d)) + (if s == u && t == v then 1 else 0)
targets-insert s t u v d =
    rw (lookup-insert s u (or_nil (lookup s d) ++ t ∷ []) d) (elim (Bool-cases (s == u)) [
      | inl p ↦
          let same : s ≡ u = ground arith in
          rw (p, same) (omega (arith, count-append v (or_nil (lookup u d)) (t ∷ [])))
      | inr p ↦ rw p (omega arith)
    ])

-- What the adjacency says after the edges, beside what it said before.
add_edges-lem :
    (nodes : List ℕ) (es : List Edge) (a a' : Adjacency)
    → add_edges nodes es a ≡ ok a'
    → keys a.indegree ≡ nodes
    → AreEdges nodes es
      × (keys a'.indegree ≡ nodes)
      × ((v : ℕ) → or_zero (lookup v a'.indegree) ≡ or_zero (lookup v a.indegree) + pending es [] v)
      × ((u v : ℕ)
          → count v (or_nil (lookup u a'.outgoing))
            ≡ count v (or_nil (lookup u a.outgoing)) + links es u v)
unfolding add_edges add_edge
add_edges-lem nodes [] a a' h k =
    let same : a ≡ a' = cc in rw (← same) (tt, k, λ v. omega arith, λ u v. omega arith)
add_edges-lem nodes (e ∷ es) a a' h k =
    elim (Bool-cases (is_in e.source_node_id nodes && is_in e.target_node_id nodes)) [
      | inr p ↦ absurd (let q = rw p at h in cc)
      | inl p ↦
          let sourced : 1 ≤ count e.source_node_id nodes =
            (is_in-count e.source_node_id nodes).0 (ground arith) in
          let targeted : 1 ≤ count e.target_node_id nodes =
            (is_in-count e.target_node_id nodes).0 (ground arith) in
          let (valid, k', degrees, targets) =
            add_edges-lem nodes es (add_edge a e) a' (rw p at h)
              (insert-keys nodes e.target_node_id _ a.indegree k targeted) in
          (
            ((sourced, targeted), valid),
            k',
            λ v. ground (arith, degrees v, degree-insert e.target_node_id v a.indegree),
            λ u v. omega (
              arith,
              targets u v,
              targets-insert e.source_node_id e.target_node_id u v a.outgoing,
            ),
          )
    ]

-- The dictionaries of new nodes.
keys-zeros : (nodes : List ℕ) → keys (zeros nodes) ≡ nodes
unfolding zeros
keys-zeros [] = refl
keys-zeros (v ∷ vs) = ap (◌∷◌ v) (keys-zeros vs)

pub lookup-zeros : (v : ℕ) (nodes : List ℕ) → or_zero (lookup v (zeros nodes)) ≡ 0
unfolding zeros lookup
lookup-zeros v [] = refl
lookup-zeros v (x ∷ xs) = ground (arith, lookup-zeros v xs)

lookup-sort_values :
    (u v : ℕ) (d : Dict ℕ (List ℕ))
    → count v (or_nil (lookup u (sort_values d))) ≡ count v (or_nil (lookup u d))
unfolding sort_values lookup
lookup-sort_values u v [] = refl
lookup-sort_values u v ((w, ts) ∷ d) = elim (Bool-cases (w == u)) [
  | inl p ↦ rw p (count-sort v ts)
  | inr p ↦ rw p (lookup-sort_values u v d)
]

-- The keys by their degree.
pub count-keys_with :
    (p : ℕ → Bool) (v : ℕ) (d : Dict ℕ ℕ)
    → has_duplicates (keys d) ≡ false
    → count v (keys_with p d) ≡ (if p (or_zero (lookup v d)) then count v (keys d) else 0)
unfolding keys_with lookup has_duplicates
count-keys_with p v [] h = ground arith
count-keys_with p v ((w, n) ∷ d) h = elim (Bool-cases (w == v)) [
  | inl q ↦
      let same : w ≡ v = ground arith in
      let gone : count w (keys d) ≡ 0 = (is_in-count w (keys d)).1 (ground arith) in
      let gone' : count v (keys d) ≡ 0 = subst (λ k. count k (keys d) ≡ 0) same gone in
      let distinct : has_duplicates (keys d) ≡ false = ground arith in
      let rest = count-keys_with p v d distinct in
      let none_there : count v (keys_with p d) ≡ 0 = ground arith in ground arith
  | inr q ↦ ground (arith, count-keys_with p v d)
]

-- A graph whose edges join its nodes, as the dictionaries have it.
pub record IsBuilt (nodes : List ℕ) (es : List Edge) (outgoing : Dict ℕ (List ℕ))
    (indegree : Dict ℕ ℕ) : Type 0 where
  pub valid : AreEdges nodes es
  pub same : keys indegree ≡ nodes
  pub degrees : (v : ℕ) → or_zero (lookup v indegree) ≡ pending es [] v
  pub targets : (u v : ℕ) → count v (or_nil (lookup u outgoing)) ≡ links es u v

pub add_edges-IsBuilt :
    (nodes : List ℕ) (es : List Edge) (a : Adjacency)
    → add_edges nodes es (record { outgoing = []; indegree = zeros nodes }) ≡ ok a
    → IsBuilt nodes es (sort_values a.outgoing) a.indegree
unfolding lookup
add_edges-IsBuilt nodes es a h =
    let (valid, same, degrees, targets) = add_edges-lem nodes es _ a h (keys-zeros nodes) in
    record {
      valid = valid;
      same = same;
      degrees = λ v. omega (arith, degrees v, lookup-zeros v nodes);
      targets = λ u v. omega (arith, targets u v, lookup-sort_values u v a.outgoing);
    }

-- The edges are refused only for an end that is no node.
pub add_edges_ok :
    (nodes : List ℕ) (es : List Edge) (a : Adjacency)
    → AreEdges nodes es
    → (a' : Adjacency) × (add_edges nodes es a ≡ ok a')
unfolding add_edges
add_edges_ok nodes [] a h = (a, refl)
add_edges_ok nodes (e ∷ es) a h =
    let (a', q) = add_edges_ok nodes es (add_edge a e) h.1 in
    (
      a',
      ground (
        arith,
        (is_in-count e.source_node_id nodes).1,
        (is_in-count e.target_node_id nodes).1,
        h.0.0,
        h.0.1,
      ),
    )
