-- ===== src/Graph/Topology/Layers.antt =====
-- The layers that the rounds give, and the cycle that they leave.
use comfy_ui_ng.Prelude.{
  ℕ, zero, suc, ◌+◌, ◌≤◌, ◌≡◌, refl, sym, subst, arith, false, List, [], ◌∷◌, ◌++◌, some, leb,
  length, length-append, nat_eq, All,
}
use mathlib.Core.List.{append_assoc, append-nil}
use comfy_ui_ng.Prelude.Dict.{Dict, lookup}
use comfy_ui_ng.Prelude.Sort.{sort}
use comfy_ui_ng.Graph.{Edge}
use comfy_ui_ng.Graph.Topology.{has_duplicates, or_nil, Frontier, relax_layer, peel, flatten}
use comfy_ui_ng.Graph.Topology.Counts.{count, count-append, count-sort, length-le}
use comfy_ui_ng.Graph.Topology.Build.{pending, links, AreEdges}
use comfy_ui_ng.Graph.Topology.Relaxing.{HasDegrees, relax_layer-HasDegrees}

-- Every edge into a node of a layer comes out of an earlier layer, or of one of the nodes before.
abbrev pub Layered : List Edge → (before : List ℕ) → List (List ℕ) → Type 0
Layered es before [] = Unit
Layered es before (l ∷ ls) = All (λ v. pending es before v ≡ 0) l × Layered es (before ++ l) ls

pub All-of_count {κ} : (P : ℕ → Type κ) (xs : List ℕ) → ((v : ℕ) → 1 ≤ count v xs → P v) → All P xs
All-of_count P [] f = tt
All-of_count P (x ∷ xs) f = (f x (ground arith), All-of_count P xs (λ v h. f v (ground (arith, h))))

abbrev pub fresh : Dict ℕ ℕ → List ℕ → Frontier
fresh indegree next = record { indegree = indegree; next_ready = next }

-- The state of a round: what is ready is what waits for nothing but what is done.
abbrev pub Ready : List ℕ → List Edge → (done ready : List ℕ) → Dict ℕ ℕ → Type 0
Ready nodes es done ready indegree =
    HasDegrees nodes (done ++ ready) (pending es done) (fresh indegree [])

module _ (nodes : List ℕ) (es : List Edge) (outgoing : Dict ℕ (List ℕ))
    (distinct : has_duplicates nodes ≡ false) (valid : AreEdges nodes es)
    (targets : (u v : ℕ) → count v (or_nil (lookup u outgoing)) ≡ links es u v) where
  Ready-bound :
      (done ready : List ℕ) (indegree : Dict ℕ ℕ)
      → Ready nodes es done ready indegree
      → length done + length ready ≤ length nodes
  Ready-bound done ready indegree h = omega (
    arith,
    length-append done ready,
    length-le (done ++ ready) nodes (λ v. let here = h.free v in ground arith),
  )

  next-Ready :
      (done ready : List ℕ) (indegree : Dict ℕ ℕ)
      → Ready nodes es done ready indegree
      → Ready nodes es
          (done ++ ready)
          (sort leb (relax_layer outgoing (fresh indegree []) ready).next_ready)
          (relax_layer outgoing (fresh indegree []) ready).indegree
  next-Ready done ready indegree h =
      let f = relax_layer outgoing (fresh indegree []) ready in
      let next =
        relax_layer-HasDegrees nodes es outgoing distinct valid targets done ready
          (fresh indegree []) h in
      record {
        same = next.same;
        degrees = next.degrees;
        free = λ v.
            let here = next.free v in
            let joined = count-append v (done ++ ready) (sort leb f.next_ready) in
            let sorted = count-sort v f.next_ready in ground arith;
      }

  -- With a round for each node the rounds end, with layers, and with no node ready.
  pub peel_ends :
      (rounds : ℕ) (done ready : List ℕ) (indegree : Dict ℕ ℕ)
      → Ready nodes es done ready indegree
      → length nodes ≤ length done + rounds
      → (layers : List (List ℕ)) × (left : Dict ℕ ℕ) × (peel rounds outgoing indegree ready
          ≡ some (layers, left))
        × Layered es done layers
        × Ready nodes es (done ++ flatten layers) [] left
  unfolding peel flatten
  peel_ends rounds done [] indegree h le = (
    [],
    indegree,
    refl,
    tt,
    subst (λ xs. Ready nodes es xs [] indegree) (sym (append-nil done)) h,
  )
  peel_ends zero done (v ∷ vs) indegree h le =
      absurd (omega (arith, Ready-bound done (v ∷ vs) indegree h))
  peel_ends (suc rounds) done (v ∷ vs) indegree h le =
      let f = relax_layer outgoing (fresh indegree []) (v ∷ vs) in
      let (layers, left, e, layered, end) =
        peel_ends rounds (done ++ v ∷ vs) (sort leb f.next_ready) f.indegree
          (next-Ready done (v ∷ vs) indegree h) (omega (arith, length-append done (v ∷ vs))) in
      (
        (v ∷ vs) ∷ layers,
        left,
        rw (e, peel) refl,
        (
          All-of_count (λ u. pending es done u ≡ 0) (v ∷ vs)
              (λ u k.
                let here = h.free u in let joined = count-append u done (v ∷ vs) in ground arith),
          layered,
        ),
        subst (λ xs. Ready nodes es xs [] left) (append_assoc done (v ∷ vs) (flatten layers)) end,
      )
