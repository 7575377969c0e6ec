-- ===== src/Graph/Topology/Critical/Tests.antt =====
-- Critical paths of a small graph.
use comfy_ui_ng.Prelude.{ℕ, ◌≤◌, ◌≡◌, refl, arith, codes, List, [], ◌∷◌, none, some, ok, nat_eq}
use comfy_ui_ng.Prelude.Dict.{Dict, lookup, insert}
use comfy_ui_ng.Prelude.Sort.{sort, minimum}
use comfy_ui_ng.Graph.{Edge}
use comfy_ui_ng.Graph.Topology.{
  has_duplicates, zeros, add_edge, add_edges, sort_values, keys_with, relax, relax_all, relax_layer,
  peel, flatten, finished, topological_layers, topological_sort,
}
use comfy_ui_ng.Graph.Topology.Counts.{count}
use comfy_ui_ng.Graph.Topology.Critical.{
  add_to_set, successors, index, max_length, measure, critical_path_lengths, resolved, count_in,
  roots_of, weigh, weighs_before, first_root, candidates, follow, select_critical_path,
}
use comfy_ui_ng.Graph.Topology.Critical.Chosen.{IsCritical, select_critical_path-IsCritical}
use comfy_ui_ng.Graph.Topology.Critical.Longest.{IsLongest, critical_path_lengths-IsLongest}

abbrev from_to : ℕ → ℕ → Edge
from_to u v = record {
  source_node_id = u;
  source_port = codes "out";
  target_node_id = v;
  target_port = codes "in";
}

abbrev nodes : List ℕ
nodes = 7 ∷ 3 ∷ 5 ∷ 2 ∷ []

abbrev diamond : List Edge
diamond = from_to 7 3 ∷ from_to 7 2 ∷ from_to 3 5 ∷ from_to 2 5 ∷ from_to 2 5 ∷ []

diamond_order : topological_sort nodes diamond ≡ ok (7 ∷ 2 ∷ 3 ∷ 5 ∷ [])
unfolding topological_layers topological_sort has_duplicates zeros add_edges add_edge lookup insert
    sort sort_values keys_with relax relax_all relax_layer peel flatten finished
diamond_order = refl

diamond_lengths :
    critical_path_lengths (7 ∷ 2 ∷ 3 ∷ 5 ∷ []) diamond ≡ ok ((5, 1) ∷ (3, 2) ∷ (2, 2) ∷ (7, 3) ∷ [])
unfolding lookup insert critical_path_lengths successors add_to_set measure max_length index
diamond_lengths = refl

critical_path_lengths-IsLongest_example :
    (d : Dict ℕ ℕ) × (critical_path_lengths (7 ∷ 2 ∷ 3 ∷ 5 ∷ []) diamond ≡ ok d)
    × ((v : ℕ) → 1 ≤ count v nodes → (n : ℕ) × (lookup v d ≡ some n) × IsLongest diamond v n)
unfolding has_duplicates
critical_path_lengths-IsLongest_example =
    critical_path_lengths-IsLongest nodes diamond (7 ∷ 2 ∷ 3 ∷ 5 ∷ []) refl (omega arith)
      diamond_order

diamond_path : select_critical_path (7 ∷ 2 ∷ 3 ∷ 5 ∷ []) diamond none ≡ ok (7 ∷ 2 ∷ 5 ∷ [])
unfolding lookup insert minimum zeros critical_path_lengths successors add_to_set measure max_length
    index resolved count_in roots_of weigh weighs_before first_root candidates follow
    select_critical_path
diamond_path = refl

select_critical_path-IsCritical_example :
    (path : List ℕ) × (select_critical_path (7 ∷ 2 ∷ 3 ∷ 5 ∷ []) diamond none ≡ ok path)
    × IsCritical nodes diamond path
unfolding has_duplicates
select_critical_path-IsCritical_example =
    select_critical_path-IsCritical nodes diamond (7 ∷ 2 ∷ 3 ∷ 5 ∷ []) none refl (omega arith)
      diamond_order (omega arith) (λ d h. absurd (cc))
