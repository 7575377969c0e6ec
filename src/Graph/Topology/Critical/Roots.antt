-- ===== src/Graph/Topology/Critical/Roots.antt =====
-- The roots: their number of edges, their lengths, and that the greatest length is that of a root.
use comfy_ui_ng.Prelude.{
  ℕ, zero, suc, ◌+◌, ◌≤◌, ◌≡◌, ◌↔◌, refl, sym, ap, ◌∙◌, arith, true, ◌&&◌, Bool-cases, List, [],
  ◌∷◌, ok, some, inl, inr, ◌==◌, nat_eq, All, if◌then◌else◌, max, ◌>>=◌,
}
use mathlib.Core.List.{Memᴰ}
use comfy_ui_ng.Prelude.Dict.{Dict, lookup, insert, lookup-insert}
use comfy_ui_ng.Graph.{Edge}
use comfy_ui_ng.Graph.Topology.{or_zero}
use comfy_ui_ng.Graph.Topology.Counts.{count}
use comfy_ui_ng.Graph.Topology.Build.{links, pending}
use comfy_ui_ng.Graph.Topology.Critical.{index}
use comfy_ui_ng.Graph.Topology.Critical.{count_in, roots_of, weigh, weighs_before}
use comfy_ui_ng.Graph.Topology.Critical.Longest.{Walk-longer, IsMeasured}
use comfy_ui_ng.Graph.Topology.Critical.Follow.{some_eq}

pending-some : (es : List Edge) (v : ℕ) → 1 ≤ pending es [] v → (u : ℕ) × (1 ≤ links es u v)
pending-some [] v h = absurd (omega arith)
pending-some (e ∷ es) v h = elim (Bool-cases (e.target_node_id == v)) [
  | inl p ↦ (e.source_node_id, ground arith)
  | inr p ↦ let (u, link) = pending-some es v (ground arith) in (u, ground arith)
]

module _ (es : List Edge) (order : List ℕ) (d : Dict ℕ ℕ) (w : IsMeasured es order d) where
  -- A node that some edge leads to has another one before it with a greater length.
  longer_before :
      (v n : ℕ)
      → ((u t : ℕ) → 1 ≤ links es u t → 1 ≤ count u order)
      → 1 ≤ count v order
      → lookup v d ≡ some n
      → 1 ≤ pending es [] v
      → (u : ℕ) × (k : ℕ) × (1 ≤ count u order) × (lookup u d ≡ some k) × (1 + n ≤ k)
  longer_before v n sources h e waits =
      let (u, link) = pending-some es v waits in
      let (k, found, l) = w u (sources u v link) in
      let (n', found', l') = w v h in
      let same : n' ≡ n = some_eq n' n (sym found' ∙ e) in
      let longer : 1 + n' ≤ k = l.longest (1 + n') (Walk-longer es u v n' link l'.attained) in
      (u, k, sources u v link, found, omega arith)

  -- A root with a length as great as that of any node.
  pub root_above :
      (gap bound v n : ℕ)
      → ((u t : ℕ) → 1 ≤ links es u t → 1 ≤ count u order)
      → ((u k : ℕ) → 1 ≤ count u order → lookup u d ≡ some k → k ≤ bound)
      → 1 ≤ count v order
      → lookup v d ≡ some n
      → bound ≤ gap + n
      → (r : ℕ) × (m : ℕ) × (1 ≤ count r order)
        × (pending es [] r ≡ 0)
        × (lookup r d ≡ some m)
        × (n ≤ m)
  root_above zero bound v n sources bounds h e le = elim (Bool-cases (pending es [] v == 0)) [
    | inl p ↦ (v, n, h, ground arith, e, omega arith)
    | inr p ↦
        let (u, k, i, found, longer) = longer_before v n sources h e (ground arith) in
        absurd (omega (arith, bounds u k i found))
  ]
  root_above (suc gap) bound v n sources bounds h e le = elim (Bool-cases (pending es [] v == 0)) [
    | inl p ↦ (v, n, h, ground arith, e, omega arith)
    | inr p ↦
        let (u, k, i, found, longer) = longer_before v n sources h e (ground arith) in
        let (r, m, a, z, e', above) =
          root_above gap bound u k sources bounds i found (omega arith) in
        (r, m, a, z, e', omega arith)
  ]

  -- The lengths have a bound.
  pub bounded :
      (vs : List ℕ)
      → ((u : ℕ) → 1 ≤ count u vs → 1 ≤ count u order)
      → (bound : ℕ) × ((u k : ℕ) → 1 ≤ count u vs → lookup u d ≡ some k → k ≤ bound)
  bounded [] f = (0, λ u k h e. absurd (omega arith))
  bounded (v ∷ vs) f =
      let (bound, above) = bounded vs (λ u h. f u (ground (arith, h))) in
      let (n, found, l) = w v (f v (ground arith)) in
      (
        max n bound,
        λ u k h e. elim (Bool-cases (v == u)) [
          | inl p ↦
              let same : v ≡ u = ground arith in
              let equal : n ≡ k = some_eq n k (sym found ∙ rw same e) in omega arith
          | inr p ↦ omega (arith, above u k (ground arith) e)
        ],
      )

  pub weigh_lem :
      (vs : List ℕ)
      → ((u : ℕ) → 1 ≤ count u vs → 1 ≤ count u order)
      → (ws : List (ℕ × ℕ)) × (weigh d vs ≡ ok ws)
        × ((n v : ℕ) → Memᴰ (n, v) ws → (1 ≤ count v vs) × (lookup v d ≡ some n))
        × ((best : ℕ × ℕ)
            → All (λ y. weighs_before best y ≡ true) ws
            → (v n : ℕ) → 1 ≤ count v vs
            → lookup v d ≡ some n
            → n ≤ best.0)
  unfolding weigh index weighs_before
  weigh_lem [] f = ([], refl, λ n v m. elim m [ ], λ best a v n h e. absurd (omega arith))
  weigh_lem (v ∷ vs) f =
      let (n, found, l) = w v (f v (ground arith)) in
      let (ws, e, sound, greatest) = weigh_lem vs (λ u h. f u (ground (arith, h))) in
      (
        (n, v) ∷ ws,
        rw (found, ◌>>=◌, e) refl,
        λ k u m. elim m [
          | Memᴰ.head p ↦
              let left : k ≡ n = ap (λ y. y.0) p in
              let right : u ≡ v = ap (λ y. y.1) p in (ground arith, rw (left, right) found)
          | Memᴰ.tail m' ↦ let (x, y) = sound k u m' in (ground arith, y)
        ],
        λ best a u k h e'. elim (Bool-cases (v == u)) [
          | inl q ↦
              let same : v ≡ u = ground arith in
              let equal : n ≡ k = some_eq n k (sym found ∙ rw same e') in
              let first = a.0 in ground arith
          | inr q ↦ greatest best a.1 u k (ground arith) e'
        ],
      )

count-target :
    (e : Edge) (v n : ℕ) (indegree : Dict ℕ ℕ) (rest : ℕ)
    → lookup e.target_node_id indegree ≡ some n
    → or_zero (lookup v (insert e.target_node_id (n + 1) indegree)) + rest
      ≡ or_zero (lookup v indegree) + ((if e.target_node_id == v && true then 1 else 0) + rest)
count-target e v n indegree rest found = elim (Bool-cases (e.target_node_id == v)) [
  | inl p ↦
      let same : e.target_node_id ≡ v = ground arith in
      let here : lookup v indegree ≡ some n = rw (← same) found in
      rw (lookup-insert e.target_node_id v (n + 1) indegree, p, here) (omega arith)
  | inr p ↦ rw (lookup-insert e.target_node_id v (n + 1) indegree, p) (omega arith)
]

pub count_in_lem :
    (es : List Edge) (order : List ℕ) (indegree : Dict ℕ ℕ)
    → ((t : ℕ) → 1 ≤ count t order → (n : ℕ) × (lookup t indegree ≡ some n))
    → ((u t : ℕ) → 1 ≤ links es u t → 1 ≤ count t order)
    → (counted : Dict ℕ ℕ) × (count_in es indegree ≡ ok counted)
      × ((v : ℕ) → or_zero (lookup v counted) ≡ or_zero (lookup v indegree) + pending es [] v)
unfolding count_in index
count_in_lem [] order indegree f g = (indegree, refl, λ v. omega arith)
count_in_lem (e ∷ es) order indegree f g =
    let (n, found) = f e.target_node_id (g e.source_node_id e.target_node_id (ground arith)) in
    let next = insert e.target_node_id (n + 1) indegree in
    let (counted, made, counts) =
      count_in_lem es order next (kept n) (λ u t h. g u t (omega (arith, h))) in
    (
      counted,
      rw (found, ◌>>=◌) made,
      λ v. counts v ∙ count-target e v n indegree (pending es [] v) found,
    )
  where
    kept :
        (n t : ℕ)
        → 1 ≤ count t order
        → (m : ℕ) × (lookup t (insert e.target_node_id (n + 1) indegree) ≡ some m)
    kept n t h = elim (Bool-cases (e.target_node_id == t)) [
      | inl p ↦ (n + 1, rw (lookup-insert e.target_node_id t (n + 1) indegree, p) refl)
      | inr p ↦
          let (m, found) = f t h in
          (m, rw (lookup-insert e.target_node_id t (n + 1) indegree, p) found)
    ]

pub count-roots_of :
    (indegree : Dict ℕ ℕ) (vs : List ℕ) (v : ℕ)
    → (1 ≤ count v (roots_of indegree vs)) ↔ ((1 ≤ count v vs) × (or_zero (lookup v indegree) ≡ 0))
unfolding roots_of
count-roots_of indegree [] v = ground arith
count-roots_of indegree (x ∷ xs) v =
    let (to, from) = count-roots_of indegree xs v in
    elim (Bool-cases (x == v)) [
      | inl p ↦ let same : x ≡ v = ground arith in rw same (ground arith)
      | inr p ↦ ground arith
    ]
