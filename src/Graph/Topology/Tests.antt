-- ===== src/Graph/Topology/Tests.antt =====
-- Small graphs.
use comfy_ui_ng.Prelude.{ℕ, ◌≡◌, refl, arith, codes, List, [], ◌∷◌, ok, err}
use comfy_ui_ng.Prelude.Dict.{lookup, insert}
use comfy_ui_ng.Prelude.Sort.{sort}
use comfy_ui_ng.Graph.{Edge}
use comfy_ui_ng.Graph.Topology.{
  cycle, has_duplicates, zeros, add_edge, add_edges, sort_values, keys_with, relax, relax_all,
  relax_layer, peel, flatten, finished, topological_layers, topological_sort,
}
use comfy_ui_ng.Graph.Topology.Outcomes.{Outcome, topological_layers-Outcome}

abbrev from_to : ℕ → ℕ → Edge
from_to u v = record {
  source_node_id = u;
  source_port = codes "out";
  target_node_id = v;
  target_port = codes "in";
}

abbrev nodes : List ℕ
nodes = 7 ∷ 3 ∷ 5 ∷ 2 ∷ []

abbrev diamond : List Edge
diamond = from_to 7 3 ∷ from_to 7 2 ∷ from_to 3 5 ∷ from_to 2 5 ∷ from_to 2 5 ∷ []

program : Unit {0}
unfolding topological_layers topological_sort has_duplicates zeros add_edges add_edge lookup insert
    sort sort_values keys_with relax relax_all relax_layer peel flatten finished
program = tt

diamond_layers : topological_layers nodes diamond ≡ ok ((7 ∷ []) ∷ (2 ∷ 3 ∷ []) ∷ (5 ∷ []) ∷ [])
unfolding program
diamond_layers = refl

loop_left :
    topological_sort nodes (from_to 7 3 ∷ from_to 3 5 ∷ from_to 5 3 ∷ []) ≡ err (cycle (3 ∷ 5 ∷ []))
unfolding program
loop_left = refl

topological_layers-Outcome_example : Outcome nodes diamond (topological_layers nodes diamond)
unfolding has_duplicates
topological_layers-Outcome_example = topological_layers-Outcome nodes diamond refl (omega arith)
