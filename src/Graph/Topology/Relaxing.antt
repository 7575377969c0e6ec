-- ===== src/Graph/Topology/Relaxing.antt =====
-- One round: the nodes of a layer are done, and the nodes that wait for no other are found.
use comfy_ui_ng.Prelude.{
  ℕ, ◌+◌, ◌-◌, ◌≤◌, ◌≡◌, refl, sym, ap, subst, arith, false, ◌&&◌, Bool-cases, List, [], ◌∷◌, ◌++◌,
  ◌==◌, if◌then◌else◌, inl, inr, nat_eq,
}
use mathlib.Core.List.{append_assoc, append-nil}
use comfy_ui_ng.Prelude.Dict.{Dict, lookup, keys, lookup-insert}
use comfy_ui_ng.Graph.{Edge}
use comfy_ui_ng.Graph.Topology.{
  is_in, has_duplicates, or_nil, or_zero, Frontier, relax, relax_all, relax_layer,
}
use comfy_ui_ng.Graph.Topology.Counts.{count, count-append, is_in-count, count-le-one}
use comfy_ui_ng.Graph.Topology.Build.{
  pending, links, AreEdges, pending-append, pending-target, insert-keys,
}

-- The degrees are some numbers `left`, and the nodes without any are exactly those found so far.
pub record HasDegrees (nodes found : List ℕ) (left : ℕ → ℕ) (f : Frontier) : Type 0 where
  pub same : keys f.indegree ≡ nodes
  pub degrees : (v : ℕ) → or_zero (lookup v f.indegree) ≡ left v
  pub free :
      (v : ℕ) → count v found + count v f.next_ready ≡ (if left v == 0 then count v nodes else 0)

count-next :
    (v t d : ℕ) (xs : List ℕ)
    → count v (if d == 0 then xs ++ t ∷ [] else xs)
      ≡ count v xs + (if d == 0 && t == v then 1 else 0)
count-next v t d xs = elim (Bool-cases (d == 0)) [
  | inl p ↦ rw p (omega (arith, count-append v xs (t ∷ [])))
  | inr p ↦ rw p (omega arith)
]

relax-HasDegrees :
    (nodes found : List ℕ) (left : ℕ → ℕ) (f : Frontier) (t : ℕ)
    → has_duplicates nodes ≡ false
    → 1 ≤ count t nodes
    → 1 ≤ left t
    → HasDegrees nodes found left f
    → HasDegrees nodes found (λ v. left v - (if t == v then 1 else 0)) (relax f t)
unfolding relax
relax-HasDegrees nodes found left f t distinct there waits h = record {
  same = insert-keys nodes t _ f.indegree h.same there;
  degrees = λ v.
      rw (lookup-insert t v (or_zero (lookup t f.indegree) - 1) f.indegree)
        (elim (Bool-cases (t == v)) [
          | inl p ↦
              let same : t ≡ v = ground arith in rw p (omega (arith, h.degrees t, ap left same))
          | inr p ↦ rw p (omega (arith, h.degrees v))
        ]);
  free = λ v.
      rw (count-next v t (or_zero (lookup t f.indegree) - 1) f.next_ready)
        (elim (Bool-cases (t == v)) [
          | inl p ↦
              let same : t ≡ v = ground arith in
              let degree = h.degrees t in
              let less = ap left same in
              let here = ap (λ k. count k nodes) same in
              let before = h.free v in
              let once = count-le-one t nodes distinct in rw (p, degree) (ground arith)
          | inr p ↦ rw p (let before = h.free v in ground arith)
        ]);
}

pub HasDegrees-ext :
    (nodes found found' : List ℕ) (left left' : ℕ → ℕ) (f : Frontier)
    → ((v : ℕ) → left v ≡ left' v)
    → ((v : ℕ) → count v found ≡ count v found')
    → HasDegrees nodes found left f
    → HasDegrees nodes found' left' f
HasDegrees-ext nodes found found' left left' f e q h = record {
  same = h.same;
  degrees = λ v. omega (arith, h.degrees v, e v);
  free = λ v. let before = h.free v in let moved = e v in let kept = q v in ground arith;
}

relax_all-HasDegrees :
    (nodes found : List ℕ) (left : ℕ → ℕ) (f : Frontier) (ts : List ℕ)
    → has_duplicates nodes ≡ false
    → ((v : ℕ) → 1 ≤ left v → 1 ≤ count v nodes)
    → ((v : ℕ) → count v ts ≤ left v)
    → HasDegrees nodes found left f
    → HasDegrees nodes found (λ v. left v - count v ts) (relax_all f ts)
unfolding relax_all
relax_all-HasDegrees nodes found left f [] distinct there room h =
    HasDegrees-ext nodes found found left (λ v. left v - 0) f (λ v. omega arith) (λ v. refl) h
relax_all-HasDegrees nodes found left f (t ∷ ts) distinct there room h =
    let waits : 1 ≤ left t = ground (arith, room t) in
    let one = relax-HasDegrees nodes found left f t distinct (there t waits) waits h in
    HasDegrees-ext nodes found found (λ v. (left v - (if t == v then 1 else 0)) - count v ts)
      (λ v. left v - count v (t ∷ ts)) (relax_all (relax f t) ts) (λ v. omega arith) (λ v. refl)
      (relax_all-HasDegrees nodes found (λ v. left v - (if t == v then 1 else 0)) (relax f t) ts
        distinct (λ v k. there v (omega (arith, k))) (λ v. omega (arith, room v)) one)

module _ (nodes : List ℕ) (es : List Edge) (outgoing : Dict ℕ (List ℕ))
    (distinct : has_duplicates nodes ≡ false) (valid : AreEdges nodes es)
    (targets : (u v : ℕ) → count v (or_nil (lookup u outgoing)) ≡ links es u v) where
  -- A node is done that was found once and is not done yet.
  relax_node-HasDegrees :
      (done found : List ℕ) (u : ℕ) (f : Frontier)
      → is_in u done ≡ false
      → HasDegrees nodes found (pending es done) f
      → HasDegrees nodes found
          (pending es (done ++ u ∷ []))
          (relax_all f (or_nil (lookup u outgoing)))
  relax_node-HasDegrees done found u f new h =
      HasDegrees-ext nodes found found
        (λ v. pending es done v - count v (or_nil (lookup u outgoing)))
        (pending es (done ++ u ∷ [])) (relax_all f (or_nil (lookup u outgoing)))
        (λ v. omega (arith, pending-append es done u v new, targets u v)) (λ v. refl)
        (relax_all-HasDegrees nodes found (pending es done) f (or_nil (lookup u outgoing)) distinct
          (λ v k. pending-target es nodes done v valid k)
          (λ v. omega (arith, pending-append es done u v new, targets u v)) h)

  pub relax_layer-HasDegrees :
      (done vs : List ℕ) (f : Frontier)
      → HasDegrees nodes (done ++ vs) (pending es done) f
      → HasDegrees nodes (done ++ vs) (pending es (done ++ vs)) (relax_layer outgoing f vs)
  unfolding relax_layer
  relax_layer-HasDegrees done [] f h = rw append-nil (rw append-nil at h)
  relax_layer-HasDegrees done (u ∷ vs) f h =
      let new : is_in u done ≡ false = new_node done vs u f h in
      let next = relax_node-HasDegrees done (done ++ u ∷ vs) u f new h in
      let joined = append_assoc done (u ∷ []) vs in
      subst
        (λ xs.
          HasDegrees nodes xs (pending es xs)
            (relax_layer outgoing (relax_all f (or_nil (lookup u outgoing))) vs))
        joined
        (relax_layer-HasDegrees (done ++ u ∷ []) vs (relax_all f (or_nil (lookup u outgoing))) (
          subst
            (λ xs.
              HasDegrees nodes xs (pending es (done ++ u ∷ []))
                (relax_all f (or_nil (lookup u outgoing))))
            (sym joined) next))
    where
      new_node :
          (done vs : List ℕ) (u : ℕ) (f : Frontier)
          → HasDegrees nodes (done ++ u ∷ vs) (pending es done) f
          → is_in u done ≡ false
      new_node done vs u f h = elim (Bool-cases (is_in u done)) [
        | inr p ↦ p
        | inl p ↦
            let twice = (is_in-count u done).0 p in
            let here = h.free u in
            let once = count-le-one u nodes distinct in
            let split = count-append u done (u ∷ vs) in absurd (ground arith)
      ]
