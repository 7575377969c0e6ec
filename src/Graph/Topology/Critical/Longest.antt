-- ===== src/Graph/Topology/Critical/Longest.antt =====
-- The lengths are those of the longest walks.
use comfy_ui_ng.Prelude.{
  ℕ, zero, suc, ◌+◌, ◌≤◌, ◌≡◌, ◌↔◌, ◌⊎◌, refl, sym, subst, arith, false, ltb, ◌&&◌, Bool-cases,
  List, [], ◌∷◌, ok, some, inl, inr, ◌==◌, nat_eq, if◌then◌else◌, max,
}
use comfy_ui_ng.Prelude.Dict.{Dict, lookup, insert, lookup-insert}
use comfy_ui_ng.Graph.{Edge}
use comfy_ui_ng.Graph.Topology.{is_in, or_nil, has_duplicates, topological_sort}
use comfy_ui_ng.Graph.Topology.Counts.{count, count-append, is_in-count}
use comfy_ui_ng.Graph.Topology.Build.{links, AreEdges}
use comfy_ui_ng.Graph.Topology.Critical.{
  add_to_set, successors, index, max_length, measure, critical_path_lengths,
}
use comfy_ui_ng.Graph.Topology.Critical.Ordered.{Ordered, topological_sort-Ordered}

-- A walk along the edges from the node, over so many nodes.
abbrev pub Walk : List Edge → ℕ → ℕ → Type 0
Walk es v zero = ⊥
Walk es v (suc zero) = Unit
Walk es v (suc (suc n)) = (t : ℕ) × (1 ≤ links es v t) × Walk es t (suc n)

pub record IsLongest (es : List Edge) (v n : ℕ) : Type 0 where
  pub attained : Walk es v n
  pub longest : (m : ℕ) → Walk es v m → m ≤ n

count-add_to_set :
    (v t : ℕ) (ts : List ℕ)
    → (1 ≤ count v (add_to_set t ts)) ↔ (1 ≤ count v ts + (if t == v then 1 else 0))
unfolding add_to_set
count-add_to_set v t ts = elim (Bool-cases (is_in t ts)) [
  | inl p ↦ rw p (elim (Bool-cases (t == v)) [
    | inl q ↦
        let same : t ≡ v = ground arith in
        let here = (is_in-count t ts).0 p in
        let here' : 1 ≤ count v ts = rw (← same) here in (λ h. omega arith, λ h. here')
    | inr q ↦ rw q (λ h. omega arith, λ h. omega arith)
  ])
  | inr p ↦ rw p (
    λ h. omega (arith, count-append v ts (t ∷ [])),
    λ h. omega (arith, count-append v ts (t ∷ [])),
  )
]

count-insert :
    (e : Edge) (outgoing : Dict ℕ (List ℕ)) (v t : ℕ)
    → (1
        ≤ count t (
            or_nil (
              lookup v (
                insert e.source_node_id
                  (add_to_set e.target_node_id (or_nil (lookup e.source_node_id outgoing)))
                  outgoing))))
      ↔ (1
          ≤ count t (or_nil (lookup v outgoing))
            + (if e.source_node_id == v && e.target_node_id == t then 1 else 0))
count-insert e outgoing v t =
    let targets = add_to_set e.target_node_id (or_nil (lookup e.source_node_id outgoing)) in
    elim (Bool-cases (e.source_node_id == v)) [
      | inl p ↦
          let same : e.source_node_id ≡ v = ground arith in
          rw (lookup-insert e.source_node_id v targets outgoing, p, ← same)
            (count-add_to_set t e.target_node_id (or_nil (lookup e.source_node_id outgoing)))
      | inr p ↦
          rw (lookup-insert e.source_node_id v targets outgoing, p)
            (λ h. omega arith, λ h. omega arith)
    ]

-- The targets that the loop collects.
count-successors :
    (es : List Edge) (outgoing : Dict ℕ (List ℕ)) (v t : ℕ)
    → (1 ≤ count t (or_nil (lookup v (successors es outgoing))))
      ↔ (1 ≤ count t (or_nil (lookup v outgoing)) + links es v t)
unfolding successors
count-successors [] outgoing v t = (λ h. omega arith, λ h. omega arith)
count-successors (e ∷ es) outgoing v t =
    let targets = add_to_set e.target_node_id (or_nil (lookup e.source_node_id outgoing)) in
    let (to, from) = count-successors es (insert e.source_node_id targets outgoing) v t in
    let (to', from') = count-insert e outgoing v t in
    (λ h. let k = to h in ground arith, λ h. from (ground arith))

-- The lengths of the nodes of the list are there, and right.
abbrev pub IsMeasured : List Edge → List ℕ → Dict ℕ ℕ → Type 0
IsMeasured es vs d = (v : ℕ) → 1 ≤ count v vs → (n : ℕ) × (lookup v d ≡ some n) × IsLongest es v n

-- No walk from one of the targets is longer.
abbrev AreBounded : List Edge → List ℕ → ℕ → Type 0
AreBounded es ts m = (t k : ℕ) → 1 ≤ count t ts → Walk es t k → k ≤ m

-- There are no targets, or a walk from one of them is as long.
abbrev IsAttained : List Edge → List ℕ → ℕ → Type 0
IsAttained es ts m = (m ≡ 0) ⊎ ((t : ℕ) × (1 ≤ count t ts) × Walk es t m)

max-AreBounded :
    (es : List Edge) (t : ℕ) (ts : List ℕ) (n m : ℕ)
    → IsLongest es t n
    → AreBounded es ts m
    → AreBounded es (t ∷ ts) (max n m)
max-AreBounded es t ts n m l above u k h walk = elim (Bool-cases (t == u)) [
  | inl p ↦
      let same : t ≡ u = ground arith in
      omega (arith, l.longest k (subst (λ x. Walk es x k) (sym same) walk))
  | inr p ↦ omega (arith, above u k (ground arith) walk)
]

max-IsAttained :
    (es : List Edge) (t : ℕ) (ts : List ℕ) (n m : ℕ)
    → IsLongest es t n
    → IsAttained es ts m
    → IsAttained es (t ∷ ts) (max n m)
max-IsAttained es t ts n m l attained = elim (Bool-cases (ltb m n)) [
  | inl p ↦
      let greatest : n ≡ max n m = ground arith in
      inr (t, ground arith, subst (Walk es t) greatest l.attained)
  | inr p ↦
      let greatest : m ≡ max n m = ground arith in
      subst (IsAttained es (t ∷ ts)) greatest (later attained)
]
  where
    later : IsAttained es ts m → IsAttained es (t ∷ ts) m
    later (inl z) = inl z
    later (inr (u, h, walk)) = inr (u, ground arith, walk)

max_length_lem :
    (es : List Edge) (vs : List ℕ) (d : Dict ℕ ℕ) (ts : List ℕ)
    → IsMeasured es vs d
    → ((t : ℕ) → 1 ≤ count t ts → 1 ≤ count t vs)
    → (m : ℕ) × (max_length d ts ≡ ok m) × AreBounded es ts m × IsAttained es ts m
unfolding max_length index
max_length_lem es vs d [] w f = (0, refl, λ t k h x. absurd (omega arith), inl refl)
max_length_lem es vs d (t ∷ ts) w f =
    let (n, found, l) = w t (f t (ground arith)) in
    let (m, e, above, attained) = max_length_lem es vs d ts w (λ u h. f u (ground (arith, h))) in
    (
      max n m,
      rw (found, e) refl,
      max-AreBounded es t ts n m l above,
      max-IsAttained es t ts n m l attained,
    )

pub Walk-longer : (es : List Edge) (v t m : ℕ) → 1 ≤ links es v t → Walk es t m → Walk es v (1 + m)
Walk-longer es v t zero h w = absurd w
Walk-longer es v t (suc m) h w =
    let one_more : suc (suc m) ≡ 1 + suc m = omega arith in subst (Walk es v) one_more (t, h, w)

next-IsLongest :
    (es : List Edge) (v m : ℕ) (ts : List ℕ)
    → ((t : ℕ) → (1 ≤ count t ts) ↔ (1 ≤ links es v t))
    → AreBounded es ts m
    → IsAttained es ts m
    → IsLongest es v (1 + m)
next-IsLongest es v m ts targets above attained = record {
  attained = reached attained;
  longest = bounded;
}
  where
    reached : IsAttained es ts m → Walk es v (1 + m)
    reached (inl z) = subst (λ k. Walk es v (1 + k)) (sym z) tt
    reached (inr (t, h, walk)) = Walk-longer es v t m ((targets t).0 h) walk

    bounded : (k : ℕ) → Walk es v k → k ≤ 1 + m
    bounded zero w = omega arith
    bounded (suc zero) w = omega arith
    bounded (suc (suc k)) (t, h, w) = omega (arith, above t (suc k) ((targets t).1 h) w)

measure-IsMeasured :
    (es : List Edge) (outgoing : Dict ℕ (List ℕ)) (vs : List ℕ)
    → ((v t : ℕ) → (1 ≤ count t (or_nil (lookup v outgoing))) ↔ (1 ≤ links es v t))
    → Ordered es vs
    → (d : Dict ℕ ℕ) × (measure outgoing vs ≡ ok d) × IsMeasured es vs d
unfolding measure
measure-IsMeasured es outgoing [] targets o = ([], refl, λ v h. absurd (omega arith))
measure-IsMeasured es outgoing (v ∷ vs) targets o =
    let (d, e, w) = measure-IsMeasured es outgoing vs targets o.1 in
    let (m, e', above, attained) =
      max_length_lem es vs d (or_nil (lookup v outgoing)) w (λ t h. o.0 t ((targets v t).0 h)) in
    let l = next-IsLongest es v m (or_nil (lookup v outgoing)) (targets v) above attained in
    (insert v (1 + m) d, rw (e, e') refl, measured d m w l)
  where
    measured :
        (d : Dict ℕ ℕ) (m : ℕ)
        → IsMeasured es vs d
        → IsLongest es v (1 + m)
        → IsMeasured es (v ∷ vs) (insert v (1 + m) d)
    measured d m w l u h = elim (Bool-cases (v == u)) [
      | inl p ↦
          let same : v ≡ u = ground arith in
          (
            1 + m,
            rw (lookup-insert v u (1 + m) d, p) refl,
            subst (λ x. IsLongest es x (1 + m)) same l,
          )
      | inr p ↦
          let (n, found, k) = w u (ground arith) in
          (n, rw (lookup-insert v u (1 + m) d, p) found, k)
    ]

pub targets-successors :
    (es : List Edge) (v t : ℕ)
    → (1 ≤ count t (or_nil (lookup v (successors es [])))) ↔ (1 ≤ links es v t)
unfolding lookup
targets-successors es v t =
    let (to, from) = count-successors es [] v t in (λ k. ground arith, λ k. ground arith)

-- On an order the lengths are found, and right.
pub critical-IsMeasured :
    (es : List Edge) (order : List ℕ)
    → Ordered es order
    → (d : Dict ℕ ℕ) × (critical_path_lengths order es ≡ ok d) × IsMeasured es order d
unfolding critical_path_lengths
critical-IsMeasured es order ordered =
    measure-IsMeasured es (successors es []) order (targets-successors es) ordered

-- Whatever order `topological_sort` gives, `critical_path_lengths` returns on it, and the length of
-- each node is that of the longest walk along the edges from it, in nodes.
pub critical_path_lengths-IsLongest :
    (nodes : List ℕ) (es : List Edge) (order : List ℕ)
    → has_duplicates nodes ≡ false
    → AreEdges nodes es
    → topological_sort nodes es ≡ ok order
    → (d : Dict ℕ ℕ) × (critical_path_lengths order es ≡ ok d)
      × ((v : ℕ) → 1 ≤ count v nodes → (n : ℕ) × (lookup v d ≡ some n) × IsLongest es v n)
critical_path_lengths-IsLongest nodes es order distinct valid h =
    let (ordered, same) = topological_sort-Ordered nodes es order distinct valid h in
    let (d, e, w) = critical-IsMeasured es order ordered in
    (d, e, λ v k. w v (omega (arith, same v)))
