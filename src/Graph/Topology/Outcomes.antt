-- ===== src/Graph/Topology/Outcomes.antt =====
-- What `topological_layers` returns: an order in layers if there is any, and a cycle otherwise.
use comfy_ui_ng.Prelude.{
  ℕ, ◌+◌, ◌≤◌, ◌≡◌, ◌≢◌, refl, ap, subst, arith, false, ◌&&◌, Bool-cases, List, [], ◌∷◌, ◌++◌, some,
  Result, ok, err, ◌>>=◌, leb, ltb, ◌==◌, length, if◌then◌else◌, inl, inr, ◌⊎◌, nat_eq, ==_iff, All,
}
use mathlib.Core.List.{append_assoc}
use comfy_ui_ng.Prelude.Dict.{Dict, keys}
use comfy_ui_ng.Prelude.Sort.{sort}
use comfy_ui_ng.Graph.{Edge}
use comfy_ui_ng.Graph.Topology.{
  TopologyError, cycle, is_in, has_duplicates, zeros, sort_values, keys_with, flatten, finished,
  topological_layers,
}
use comfy_ui_ng.Graph.Topology.Counts.{
  count, count-append, count-sort, is_in-count, length-le, count-eq, All-count,
}
use comfy_ui_ng.Graph.Topology.Build.{
  pending, AreEdges, count-keys_with, IsBuilt, add_edges-IsBuilt, add_edges_ok,
}
use comfy_ui_ng.Graph.Topology.Layers.{Layered, All-of_count, Ready, peel_ends}

-- How many edges lead to the node from one of the list.
abbrev pub among : List Edge → List ℕ → ℕ → ℕ
among [] ids v = 0
among (e ∷ es) ids v =
    (if e.target_node_id == v && is_in e.source_node_id ids then 1 else 0) + among es ids v

-- Some nodes, each of which waits for another one of them.
pub record IsCyclic (nodes : List ℕ) (es : List Edge) (ids : List ℕ) : Type 0 where
  pub nonempty : 1 ≤ length ids
  pub inside : (v : ℕ) → count v ids ≤ count v nodes
  pub waiting : All (λ v. 1 ≤ among es ids v) ids

-- All nodes, once each, in layers.
pub record IsLayering (nodes : List ℕ) (es : List Edge) (layers : List (List ℕ)) : Type 0 where
  pub layered : Layered es [] layers
  pub complete : (v : ℕ) → count v (flatten layers) ≡ count v nodes

-- What waits for a node that is not done waits for one of the nodes that are left.
pending-le-among :
    (nodes done ids : List ℕ) (es : List Edge) (v : ℕ)
    → AreEdges nodes es
    → ((u : ℕ) → count u done ≡ 0 → 1 ≤ count u nodes → 1 ≤ count u ids)
    → pending es done v ≤ among es ids v
pending-le-among nodes done ids [] v a f = omega arith
pending-le-among nodes done ids (e ∷ es) v a f =
    let rest = pending-le-among nodes done ids es v a.1 f in
    elim (Bool-cases (is_in e.source_node_id done)) [
      | inl p ↦ rw p (ground arith)
      | inr p ↦
          let out = (is_in-count e.source_node_id done).1 p in
          let left = f e.source_node_id out a.0.0 in
          ground (arith, (is_in-count e.source_node_id ids).1)
    ]

among-le-pending :
    (es : List Edge) (ids done : List ℕ) (v : ℕ)
    → ((u : ℕ) → 1 ≤ count u ids → count u done ≡ 0)
    → among es ids v ≤ pending es done v
among-le-pending [] ids done v n = omega arith
among-le-pending (e ∷ es) ids done v n =
    let rest = among-le-pending es ids done v n in
    elim (Bool-cases (is_in e.source_node_id ids)) [
      | inr p ↦ rw p (ground arith)
      | inl p ↦
          let out = n e.source_node_id ((is_in-count e.source_node_id ids).0 p) in
          ground (arith, (is_in-count e.source_node_id done).0)
    ]

-- No layering has a cycle: none of its nodes can come first.
cyclic-none :
    (es : List Edge) (ids before : List ℕ) (layers : List (List ℕ))
    → All (λ v. 1 ≤ among es ids v) ids
    → ((v : ℕ) → 1 ≤ count v ids → count v before ≡ 0)
    → Layered es before layers
    → (v : ℕ) → 1 ≤ count v ids
    → count v (before ++ flatten layers) ≡ 0
unfolding flatten
cyclic-none es ids before [] w n l v h = omega (arith, count-append v before [], n v h)
cyclic-none es ids before (x ∷ xs) w n l v h =
    subst (λ k. count v k ≡ 0) (append_assoc before x (flatten xs))
      (cyclic-none es ids (before ++ x) xs w (λ u k. later u k) l.1 v h)
  where
    later : (u : ℕ) → 1 ≤ count u ids → count u (before ++ x) ≡ 0
    later u k = elim (Bool-cases (count u x == 0)) [
      | inl p ↦ omega (arith, count-append u before x, n u k, (==_iff (count u x) 0).0 p)
      | inr p ↦
          let first = All-count (λ j. pending es before j ≡ 0) u x l.0 (ground arith) in
          let waits = All-count (λ j. 1 ≤ among es ids j) u ids w k in
          absurd (omega (arith, first, waits, among-le-pending es ids before u n))
    ]

one_of : (ids : List ℕ) → 1 ≤ length ids → (v : ℕ) × (1 ≤ count v ids)
one_of [] h = absurd (omega arith)
one_of (v ∷ vs) h = (v, ground arith)

IsCyclic-no-IsLayering :
    (nodes : List ℕ) (es : List Edge) (ids : List ℕ)
    → IsCyclic nodes es ids
    → (layers : List (List ℕ)) → ¬ IsLayering nodes es layers
IsCyclic-no-IsLayering nodes es ids c layers l =
    let (v, there) = one_of ids c.nonempty in
    absurd (
      omega (
        arith,
        cyclic-none es ids [] layers c.waiting (λ u k. refl) l.layered v there,
        l.complete v,
        c.inside v,
        there,
      ))

-- The two outcomes.
abbrev pub Outcome : List ℕ → List Edge → Result TopologyError (List (List ℕ)) → Type 0
Outcome nodes es r =
    ((layers : List (List ℕ)) × (r ≡ ok layers) × IsLayering nodes es layers)
    ⊎ ((ids : List ℕ) × (r ≡ err (cycle ids))
        × IsCyclic nodes es ids
        × ((layers : List (List ℕ)) → ¬ IsLayering nodes es layers))

-- The nodes that are left when nothing is ready.
left-IsCyclic :
    (nodes : List ℕ) (es : List Edge) (layers : List (List ℕ)) (left : Dict ℕ ℕ)
    → has_duplicates nodes ≡ false
    → AreEdges nodes es
    → Ready nodes es (flatten layers) [] left
    → length (flatten layers) ≢ length nodes
    → IsCyclic nodes es (sort leb (keys_with (λ d. ltb 0 d) left))
left-IsCyclic nodes es layers left distinct valid r ne = record {
  nonempty = some_left ids refl;
  inside = λ v. let c = counted v in ground arith;
  waiting = All-of_count _ _ (λ v k.
      let c = counted v in
      let some_pending : 1 ≤ pending es (flatten layers) v = ground arith in
      omega
        (arith, some_pending, pending-le-among nodes (flatten layers) ids es v valid left_over));
}
  where
    ids : List ℕ
    ids = sort leb (keys_with (λ d. ltb 0 d) left)

    counted :
        (v : ℕ) → count v ids ≡ (if ltb 0 (pending es (flatten layers) v) then count v nodes else 0)
    counted v =
        let distinct' : has_duplicates (keys left) ≡ false = rw r.same distinct in
        let c = count-keys_with (λ d. ltb 0 d) v left distinct' in
        let sorted = count-sort v (keys_with (λ d. ltb 0 d) left) in
        let degree = r.degrees v in
        let keyed : count v (keys left) ≡ count v nodes = ap (λ k. count v k) r.same in ground arith

    left_over : (u : ℕ) → count u (flatten layers) ≡ 0 → 1 ≤ count u nodes → 1 ≤ count u ids
    left_over u z k =
        let c = counted u in
        let here = r.free u in let joined = count-append u (flatten layers) [] in ground arith

    some_left : (xs : List ℕ) → ids ≡ xs → 1 ≤ length xs
    some_left (x ∷ xs) e = omega arith
    some_left [] e =
        let over : length nodes ≤ length (flatten layers) = length-le nodes (flatten layers) (λ v.
          let c = counted v in
          let none_there : count v ids ≡ 0 = ap (λ k. count v k) e in
          let here = r.free v in let joined = count-append v (flatten layers) [] in ground arith) in
        let under : length (flatten layers) ≤ length nodes = length-le (flatten layers) nodes (λ v.
          let here = r.free v in let joined = count-append v (flatten layers) [] in ground arith) in
        absurd (ne (omega (arith, over, under)))

-- The layers, when no node is left.
all-IsLayering :
    (nodes : List ℕ) (es : List Edge) (layers : List (List ℕ)) (left : Dict ℕ ℕ)
    → Layered es [] layers
    → Ready nodes es (flatten layers) [] left
    → length (flatten layers) ≡ length nodes
    → IsLayering nodes es layers
all-IsLayering nodes es layers left layered r e = record {
  layered = layered;
  complete =
      count-eq (flatten layers) nodes
        (λ v.
          let here = r.free v in let joined = count-append v (flatten layers) [] in ground arith)
        e;
}

finished-Outcome :
    (nodes : List ℕ) (es : List Edge) (layers : List (List ℕ)) (left : Dict ℕ ℕ)
    → has_duplicates nodes ≡ false
    → AreEdges nodes es
    → Layered es [] layers
    → Ready nodes es (flatten layers) [] left
    → Outcome nodes es (finished (length nodes) (some (layers, left)))
unfolding finished
finished-Outcome nodes es layers left distinct valid layered r =
    elim (Bool-cases (length (flatten layers) == length nodes)) [
      | inl p ↦ rw p (
          inl (
            layers,
            refl,
            all-IsLayering nodes es layers left layered r ((==_iff _ (length nodes)).0 p),
          ))
      | inr p ↦
          let cyclic =
            left-IsCyclic nodes es layers left distinct valid r
              (λ q. let k = (==_iff _ (length nodes)).1 q in cc) in
          rw p (inr (_, refl, cyclic, IsCyclic-no-IsLayering nodes es _ cyclic))
    ]

-- The first nodes are those that no edge leads to.
first-Ready :
    (nodes : List ℕ) (es : List Edge) (outgoing : Dict ℕ (List ℕ)) (indegree : Dict ℕ ℕ)
    → has_duplicates nodes ≡ false
    → IsBuilt nodes es outgoing indegree
    → Ready nodes es [] (sort leb (keys_with (λ d. d == 0) indegree)) indegree
first-Ready nodes es outgoing indegree distinct b = record {
  same = b.same;
  degrees = b.degrees;
  free = λ v.
      let distinct' : has_duplicates (keys indegree) ≡ false = rw b.same distinct in
      let c = count-keys_with (λ d. d == 0) v indegree distinct' in
      let sorted = count-sort v (keys_with (λ d. d == 0) indegree) in
      let degree = b.degrees v in
      let keyed : count v (keys indegree) ≡ count v nodes = ap (λ k. count v k) b.same in
      ground arith;
}

-- On nodes without duplicates and edges between them `topological_layers` always returns. It returns
-- layers with every node once, in which each edge leads from an earlier layer to a later one; or it
-- raises CycleError with some of the nodes, each of which has an edge from another of them or itself,
-- and then no such layers exist.
pub topological_layers-Outcome :
    (nodes : List ℕ) (es : List Edge)
    → has_duplicates nodes ≡ false
    → AreEdges nodes es
    → Outcome nodes es (topological_layers nodes es)
unfolding topological_layers
topological_layers-Outcome nodes es distinct valid =
    let (a, added) =
      add_edges_ok nodes es (record { outgoing = []; indegree = zeros nodes }) valid in
    let b = add_edges-IsBuilt nodes es a added in
    let (layers, left, peeled, layered, end) =
      peel_ends nodes es (sort_values a.outgoing) distinct valid b.targets (length nodes) []
        (sort leb (keys_with (λ d. d == 0) a.indegree)) a.indegree
        (first-Ready nodes es (sort_values a.outgoing) a.indegree distinct b) (omega arith) in
    rw (distinct, added, ◌>>=◌, peeled)
      (finished-Outcome nodes es layers left distinct valid layered end)
