-- ===== src/Graph/Topology/Critical/Chosen.antt =====
-- The selected path is a longest one.
use comfy_ui_ng.Prelude.{
  ℕ, zero, suc, ◌-◌, ◌≤◌, ◌≡◌, refl, sym, ◌∙◌, subst, arith, Bool, true, false, leb, Bool-cases,
  Option-cases, List, [], ◌∷◌, ok, some, none, Option, inl, inr, ◌==◌, nat_eq, ◌>>=◌, length,
  map_err,
}
use comfy_ui_ng.Prelude.Dict.{Dict, lookup}
use comfy_ui_ng.Prelude.Sort.{
  IsOrder, lex, lex_total, minimum, minimum-le, minimum-mem, minimum-nonempty,
}
use comfy_ui_ng.Graph.{Edge}
use comfy_ui_ng.Graph.Topology.{or_zero, zeros, has_duplicates, topological_sort}
use comfy_ui_ng.Graph.Topology.Counts.{count, length-le}
use comfy_ui_ng.Graph.Topology.Build.{lookup-zeros, links, pending, AreEdges}
use comfy_ui_ng.Graph.Topology.Critical.{successors, critical_path_lengths}
use comfy_ui_ng.Graph.Topology.Critical.{
  count_in, roots_of, weigh, weighs_before, first_root, follow, resolved, select_critical_path,
}
use comfy_ui_ng.Graph.Topology.Critical.Ordered.{topological_sort-Ordered, link-target}
use comfy_ui_ng.Graph.Topology.Critical.Longest.{Walk, IsMeasured, critical-IsMeasured}
use comfy_ui_ng.Graph.Topology.Critical.Follow.{Linked, some_eq, follow_lem}
use comfy_ui_ng.Graph.Topology.Critical.Roots.{
  root_above, bounded, weigh_lem, count_in_lem, count-roots_of,
}

weighs_before-IsOrder : IsOrder weighs_before
unfolding weighs_before
weighs_before-IsOrder = record {
  total = λ (n, v) (m, u). lex_total m n (leb v u) (leb u v) (λ h. ground arith);
  trans =
      λ (n, v) (m, u) (k, x). lex_trans' n m k (leb v u) (leb u x) (leb v x) (λ h i. ground arith);
}
  where
    lex_trans' :
        (n m k : ℕ) (p q s : Bool)
        → (p ≡ true → q ≡ true → s ≡ true)
        → lex m n p ≡ true
        → lex k m q ≡ true
        → lex k n s ≡ true
    lex_trans' n m k p q s f h i = ground arith

weighs_before_refl : (r : ℕ × ℕ) → weighs_before r r ≡ true
unfolding weighs_before
weighs_before_refl (n, v) = ground arith

lookup-zeros-some :
    (vs : List ℕ) (t : ℕ) → 1 ≤ count t vs → (n : ℕ) × (lookup t (zeros vs) ≡ some n)
unfolding lookup zeros
lookup-zeros-some [] t h = absurd (omega arith)
lookup-zeros-some (v ∷ vs) t h = elim (Bool-cases (v == t)) [
  | inl p ↦ (0, rw p refl)
  | inr p ↦ let (n, e) = lookup-zeros-some vs t (ground arith) in (n, rw p e)
]

resolved-critical :
    (es : List Edge) (order : List ℕ) (given : Option (Dict ℕ ℕ)) (d : Dict ℕ ℕ)
    → ((d' : Dict ℕ ℕ) → given ≡ some d' → critical_path_lengths order es ≡ ok d')
    → critical_path_lengths order es ≡ ok d
    → resolved order es given ≡ ok d
unfolding resolved
resolved-critical es order none d g e = e
resolved-critical es order (some []) d g e = e
resolved-critical es order (some (l ∷ ls)) d g e = sym (g (l ∷ ls) refl) ∙ e

-- A path of nodes along the edges that no walk is longer than.
abbrev pub IsCritical : List ℕ → List Edge → List ℕ → Type 0
IsCritical nodes es [] = ⊥
IsCritical nodes es (root ∷ rest) =
    (1 ≤ count root nodes)
    × Linked es (root ∷ rest)
    × ((v m : ℕ) → 1 ≤ count v nodes → Walk es v m → m ≤ length (root ∷ rest))

module _ (es : List Edge) (order : List ℕ) (d : Dict ℕ ℕ) (w : IsMeasured es order d)
    (sources : (u t : ℕ) → 1 ≤ links es u t → 1 ≤ count u order)
    (targets : (u t : ℕ) → 1 ≤ links es u t → 1 ≤ count t order) where
  -- What the key of `min` puts first among the roots is at least the length of every node.
  root_length :
      (bound : ℕ) (counted : Dict ℕ ℕ) (ws : List (ℕ × ℕ)) (best : ℕ × ℕ)
      → ((u k : ℕ) → 1 ≤ count u order → lookup u d ≡ some k → k ≤ bound)
      → ((u : ℕ) → or_zero (lookup u counted) ≡ pending es [] u)
      → ((u n : ℕ) → 1 ≤ count u (roots_of counted order) → lookup u d ≡ some n → n ≤ best.0)
      → (u n : ℕ) → 1 ≤ count u order
      → lookup u d ≡ some n
      → n ≤ best.0
  root_length bound counted ws best bounds counts above u n h found =
      let (r, m, i, z, e, le) =
        root_above es order d w bound bound u n sources bounds h found (omega arith) in
      let root : 1 ≤ count r (roots_of counted order) =
        (count-roots_of counted order r).1 (i, counts r ∙ z) in
      omega (arith, above r m root e)

  -- The first root is there, and no walk is longer than its length.
  first_root_lem :
      (v : ℕ) (counted : Dict ℕ ℕ)
      → 1 ≤ count v order
      → ((u : ℕ) → or_zero (lookup u counted) ≡ pending es [] u)
      → (ws : List (ℕ × ℕ)) × (weigh d (roots_of counted order) ≡ ok ws)
        × (k : ℕ) × (root : ℕ) × (minimum weighs_before ws ≡ some (suc k, root))
        × (1 ≤ count root order)
        × (lookup root d ≡ some (suc k))
        × ((u m : ℕ) → 1 ≤ count u order → Walk es u m → m ≤ suc k)
  first_root_lem v counted h counts =
      let (ws, weighed, sound, greatest) =
        weigh_lem es order d w (roots_of counted order)
          (λ u i. ((count-roots_of counted order u).0 i).0) in
      let (bound, bounds) = bounded es order d w order (λ u i. i) in
      elim (Option-cases (minimum weighs_before ws)) [
        | inl none_there ↦
            let no_roots : ws ≡ [] = minimum-nonempty weighs_before ws none_there in
            let (n, found, l) = w v h in
            let small =
              root_length bound counted ws (0, 0) bounds counts (greatest (0, 0) (rw no_roots tt)) v
                n h found in
            absurd (omega (arith, small, l.longest 1 tt))
        | inr ((zero, root), first) ↦
            let (i, found) = sound zero root (minimum-mem weighs_before ws (zero, root) first) in
            let (n, found', l) = w root ((count-roots_of counted order root).0 i).0 in
            let same : n ≡ 0 = some_eq n 0 (sym found' ∙ found) in
            absurd (omega (arith, l.longest 1 tt))
        | inr ((suc k, root), first) ↦
            let (i, found) =
              sound (suc k) root (minimum-mem weighs_before ws (suc k, root) first) in
            let least =
              minimum-le weighs_before weighs_before-IsOrder weighs_before_refl ws (suc k, root)
                first in
            let most =
              root_length bound counted ws (suc k, root) bounds counts
                (greatest (suc k, root) least) in
            (
              ws,
              weighed,
              k,
              root,
              first,
              ((count-roots_of counted order root).0 i).0,
              found,
              λ u m j walk.
                  let (n, found', l) = w u j in omega (arith, l.longest m walk, most u n j found'),
            )
      ]

select_runs :
    (es : List Edge) (v : ℕ) (vs : List ℕ) (given : Option (Dict ℕ ℕ)) (d counted : Dict ℕ ℕ)
    (ws : List (ℕ × ℕ)) (k root : ℕ) (path : List ℕ)
    → resolved (v ∷ vs) es given ≡ ok d
    → count_in es (zeros (v ∷ vs)) ≡ ok counted
    → weigh d (roots_of counted (v ∷ vs)) ≡ ok ws
    → minimum weighs_before ws ≡ some (suc k, root)
    → follow k (successors es []) d root ≡ ok path
    → select_critical_path (v ∷ vs) es given ≡ ok path
unfolding select_critical_path first_root
select_runs es v vs given d counted ws k root path res made weighed first followed =
    let less : suc k - 1 ≡ k = omega arith in
    rw
      (
        res, map_err, ◌>>=◌, made, map_err, ◌>>=◌, weighed, map_err, ◌>>=◌, first, ◌>>=◌, less,
        followed,
      )
      refl

selected :
    (es : List Edge) (v : ℕ) (vs : List ℕ) (given : Option (Dict ℕ ℕ)) (d : Dict ℕ ℕ)
    → IsMeasured es (v ∷ vs) d
    → ((u t : ℕ) → 1 ≤ links es u t → 1 ≤ count u (v ∷ vs))
    → ((u t : ℕ) → 1 ≤ links es u t → 1 ≤ count t (v ∷ vs))
    → resolved (v ∷ vs) es given ≡ ok d
    → (path : List ℕ) × (select_critical_path (v ∷ vs) es given ≡ ok path)
      × IsCritical (v ∷ vs) es path
selected es v vs given d w sources targets res =
    let (counted, made, counts) =
      count_in_lem es (v ∷ vs) (zeros (v ∷ vs)) (lookup-zeros-some (v ∷ vs)) targets in
    let (ws, weighed, k, root, first, i, found, longest) =
      first_root_lem es (v ∷ vs) d w sources targets v counted (ground arith)
        (λ u. counts u ∙ rw (lookup-zeros u (v ∷ vs)) (omega arith)) in
    let (rest, followed, len, path) = follow_lem es (v ∷ vs) d w k root targets i found in
    (
      root ∷ rest,
      select_runs es v vs given d counted ws k root (root ∷ rest) res made weighed first followed,
      (i, path, λ u m h walk. omega (arith, longest u m h walk)),
    )

link-source :
    (nodes : List ℕ) (es : List Edge) (v t : ℕ)
    → AreEdges nodes es
    → 1 ≤ links es v t
    → 1 ≤ count v nodes
link-source nodes [] v t a k = absurd (omega arith)
link-source nodes (e ∷ es) v t a k = elim (Bool-cases (e.source_node_id == v)) [
  | inl p ↦
      let same : e.source_node_id ≡ v = ground arith in subst (λ x. 1 ≤ count x nodes) same a.0.0
  | inr p ↦ link-source nodes es v t a.1 (ground arith)
]

-- Whatever order `topological_sort` gives of some nodes, `select_critical_path` returns on it, with the
-- lengths of `critical_path_lengths` or without any: a path that starts at a node and goes along the
-- edges, and no walk along the edges from any node is longer.
pub select_critical_path-IsCritical :
    (nodes : List ℕ) (es : List Edge) (order : List ℕ) (given : Option (Dict ℕ ℕ))
    → has_duplicates nodes ≡ false
    → AreEdges nodes es
    → topological_sort nodes es ≡ ok order
    → 1 ≤ length nodes
    → ((d : Dict ℕ ℕ) → given ≡ some d → critical_path_lengths order es ≡ ok d)
    → (path : List ℕ) × (select_critical_path order es given ≡ ok path) × IsCritical nodes es path
select_critical_path-IsCritical nodes es order given distinct valid h nonempty g =
    let (ordered, same) = topological_sort-Ordered nodes es order distinct valid h in
    let (d, e, w) = critical-IsMeasured es order ordered in
    chosen order d same w (resolved-critical es order given d g e)
  where
    moved :
        (order path : List ℕ)
        → ((v : ℕ) → count v order ≡ count v nodes)
        → IsCritical order es path
        → IsCritical nodes es path
    moved order [] same c = c
    moved order (root ∷ rest) same (i, path, longest) =
        (omega (arith, same root), path, λ v m k walk. longest v m (omega (arith, same v)) walk)

    chosen :
        (order : List ℕ) (d : Dict ℕ ℕ)
        → ((v : ℕ) → count v order ≡ count v nodes)
        → IsMeasured es order d
        → resolved order es given ≡ ok d
        → (path : List ℕ) × (select_critical_path order es given ≡ ok path)
          × IsCritical nodes es path
    chosen [] d same w res = absurd (omega (arith, length-le nodes [] (λ v. omega (arith, same v))))
    chosen (v ∷ vs) d same w res =
        let (path, e, c) =
          selected es v vs given d w
            (λ u t k. omega (arith, same u, link-source nodes es u t valid k))
            (λ u t k. omega (arith, same t, link-target nodes es u t valid k)) res in
        (path, e, moved (v ∷ vs) path same c)
