-- ===== src/Graph/Topology.antt =====
-- graph/topology.py: topological_layers and topological_sort, on the node ids and edges that `_parts`
-- reads from the arguments.
use comfy_ui_ng.Prelude.{
  ℕ, zero, suc, ◌+◌, ◌-◌, Bool, true, false, not, ◌&&◌, ◌||◌, List, [], ◌∷◌, ◌++◌, map, Option,
  none, some, Result, ok, err, ◌>>=◌, ◌>>◌, raise_if, ltb, leb, ◌==◌, any, length, if◌then◌else◌,
  nat_eq,
}
use comfy_ui_ng.Prelude.Dict.{Dict, lookup, insert}
use comfy_ui_ng.Prelude.Sort.{sort}
use comfy_ui_ng.Graph.{Edge}
pub mod Counts
pub mod Build
pub mod Relaxing
pub mod Layers
pub mod Outcomes
pub mod Critical
mod Tests

-- `ValueError`s, and CycleError with the ids.
pub data TopologyError : Type 0 where
  duplicate_ids : TopologyError
  invalid_endpoint : TopologyError
  cycle : List ℕ → TopologyError
  out_of_rounds : TopologyError

abbrev pub is_in : ℕ → List ℕ → Bool
is_in v xs = any (λ x. x == v) xs

-- `len(set(ids)) != len(ids)`
pub has_duplicates : List ℕ → Bool
has_duplicates [] = false
has_duplicates (x ∷ xs) = is_in x xs || has_duplicates xs

-- `{node_id: 0 for node_id in node_ids}`
pub zeros : List ℕ → Dict ℕ ℕ
zeros [] = []
zeros (v ∷ vs) = (v, 0) ∷ zeros vs

pub record Adjacency : Type 0 where
  pub outgoing : Dict ℕ (List ℕ)
  pub indegree : Dict ℕ ℕ

-- Of a `defaultdict(list)`, and of `outgoing.get(node_id, ())`.
abbrev pub or_nil : Option (List ℕ) → List ℕ
or_nil none = []
or_nil (some ts) = ts

-- `indegree[target]`, whose key is there.
abbrev pub or_zero : Option ℕ → ℕ
or_zero none = 0
or_zero (some d) = d

-- `outgoing[source].append(target); indegree[target] += 1`
pub add_edge : Adjacency → Edge → Adjacency
add_edge a e = record {
  outgoing =
      insert e.source_node_id (or_nil (lookup e.source_node_id a.outgoing) ++ e.target_node_id ∷ [])
        a.outgoing;
  indegree = insert e.target_node_id (or_zero (lookup e.target_node_id a.indegree) + 1) a.indegree;
}

-- The loop over the edges.
pub add_edges : List ℕ → List Edge → Adjacency → Result TopologyError Adjacency
add_edges nodes [] a = ok a
add_edges nodes (e ∷ es) a =
    if not (is_in e.source_node_id nodes && is_in e.target_node_id nodes)
    then err invalid_endpoint
    else add_edges nodes es (add_edge a e)

-- `targets.sort(key=str)` for each list.
pub sort_values : Dict ℕ (List ℕ) → Dict ℕ (List ℕ)
sort_values [] = []
sort_values ((v, ts) ∷ d) = (v, sort leb ts) ∷ sort_values d

-- The keys whose degree passes the test.
pub keys_with : (ℕ → Bool) → Dict ℕ ℕ → List ℕ
keys_with p [] = []
keys_with p ((v, n) ∷ d) = if p n then v ∷ keys_with p d else keys_with p d

-- `indegree` and `next_ready` while a layer is left behind.
pub record Frontier : Type 0 where
  pub indegree : Dict ℕ ℕ
  pub next_ready : List ℕ

-- The body of the inner loop. The degree is positive, so that the subtraction is exact.
pub relax : Frontier → ℕ → Frontier
relax f t =
    let degree = or_zero (lookup t f.indegree) - 1 in
    record {
      indegree = insert t degree f.indegree;
      next_ready = if degree == 0 then f.next_ready ++ t ∷ [] else f.next_ready;
    }

pub relax_all : Frontier → List ℕ → Frontier
relax_all f [] = f
relax_all f (t ∷ ts) = relax_all (relax f t) ts

pub relax_layer : Dict ℕ (List ℕ) → Frontier → List ℕ → Frontier
relax_layer outgoing f [] = f
relax_layer outgoing f (v ∷ vs) = relax_layer outgoing (relax_all f (or_nil (lookup v outgoing))) vs

-- `while ready: …` for at most as many rounds: the layers and the degrees that are left.
pub peel : ℕ → Dict ℕ (List ℕ) → Dict ℕ ℕ → (ready : List ℕ) → Option (List (List ℕ) × Dict ℕ ℕ)
peel rounds outgoing indegree [] = some ([], indegree)
peel zero outgoing indegree (v ∷ vs) = none
peel (suc rounds) outgoing indegree (v ∷ vs) =
    let f = relax_layer outgoing (record { indegree = indegree; next_ready = [] }) (v ∷ vs) in
    elim (peel rounds outgoing f.indegree (sort leb f.next_ready)) [
      | none ↦ none
      | some (layers, left) ↦ some ((v ∷ vs) ∷ layers, left)
    ]

pub flatten : List (List ℕ) → List ℕ
flatten [] = []
flatten (l ∷ ls) = l ++ flatten ls

-- `if visited != len(node_ids): raise CycleError(…)`
pub finished :
    (node_count : ℕ) → Option (List (List ℕ) × Dict ℕ ℕ) → Result TopologyError (List (List ℕ))
finished node_count none = err out_of_rounds
finished node_count (some (layers, left)) =
    if length (flatten layers) == node_count
    then ok layers
    else err (cycle (sort leb (keys_with (λ d. ltb 0 d) left)))

pub topological_layers : List ℕ → List Edge → Result TopologyError (List (List ℕ))
topological_layers nodes edges = do
  raise_if (has_duplicates nodes) duplicate_ids
  a ← add_edges nodes edges (record { outgoing = []; indegree = zeros nodes })
  finished (length nodes) (
      peel (length nodes) (sort_values a.outgoing) a.indegree
        (sort leb (keys_with (λ d. d == 0) a.indegree)))

pub topological_sort : List ℕ → List Edge → Result TopologyError (List ℕ)
topological_sort nodes edges = do layers ← topological_layers nodes edges; ok (flatten layers)
