-- ===== src/Graph/Topology/Critical.antt =====
-- graph/topology.py: critical_path_lengths and select_critical_path.
use comfy_ui_ng.Prelude.{
  ℕ, zero, suc, ◌+◌, ◌-◌, Bool, max, List, [], ◌∷◌, ◌++◌, Option, none, some, Result, ok, err,
  ◌>>=◌, leb, ◌==◌, if◌then◌else◌, nat_eq, map_err,
}
use comfy_ui_ng.Prelude.Dict.{Dict, lookup, insert}
use comfy_ui_ng.Prelude.Sort.{minimum, lex}
use comfy_ui_ng.Graph.{Edge}
use comfy_ui_ng.Graph.Topology.{is_in, zeros, or_zero, or_nil}
pub mod Ordered
pub mod Longest
pub mod Follow
pub mod Roots
pub mod Chosen
mod Tests

pub data KeyError : Type 0 where
  key_error : ℕ → KeyError

-- `outgoing[source].add(target)`, a set as the list of its elements.
pub add_to_set : ℕ → List ℕ → List ℕ
add_to_set t ts = if is_in t ts then ts else ts ++ t ∷ []

-- The loop over the edges.
pub successors : List Edge → Dict ℕ (List ℕ) → Dict ℕ (List ℕ)
unfolding add_to_set
successors [] outgoing = outgoing
successors (e ∷ es) outgoing = successors es (
    insert e.source_node_id
      (add_to_set e.target_node_id (or_nil (lookup e.source_node_id outgoing))) outgoing)

-- `lengths[node_id]`
pub index : ℕ → Option ℕ → Result KeyError ℕ
index v none = err (key_error v)
index v (some n) = ok n

-- `max((lengths[target_id] for target_id in targets), default=0)`
pub max_length : Dict ℕ ℕ → List ℕ → Result KeyError ℕ
max_length lengths [] = ok 0
max_length lengths (t ∷ ts) = do
  n ← index t (lookup t lengths)
  m ← max_length lengths ts
  ok (max n m)

-- The loop over `reversed(resolved_order)`: the later nodes come first.
pub measure : Dict ℕ (List ℕ) → List ℕ → Result KeyError (Dict ℕ ℕ)
measure outgoing [] = ok []
measure outgoing (v ∷ order) = do
  lengths ← measure outgoing order
  longest ← max_length lengths (or_nil (lookup v outgoing))
  ok (insert v (1 + longest) lengths)

pub critical_path_lengths : List ℕ → List Edge → Result KeyError (Dict ℕ ℕ)
critical_path_lengths order edges = measure (successors edges []) order

pub data SelectionError : Type 0 where
  missing : KeyError → SelectionError
  no_roots : SelectionError

-- `for edge in edges: indegree[edge.target_node_id] += 1`
pub count_in : List Edge → Dict ℕ ℕ → Result KeyError (Dict ℕ ℕ)
count_in [] indegree = ok indegree
count_in (e ∷ es) indegree = do
  n ← index e.target_node_id (lookup e.target_node_id indegree)
  count_in es (insert e.target_node_id (n + 1) indegree)

-- The nodes of the order with no edge to them; each has an entry in `indegree`.
pub roots_of : Dict ℕ ℕ → List ℕ → List ℕ
roots_of indegree [] = []
roots_of indegree (v ∷ vs) =
    if or_zero (lookup v indegree) == 0 then v ∷ roots_of indegree vs else roots_of indegree vs

-- The roots with what the key of `min` reads.
pub weigh : Dict ℕ ℕ → List ℕ → Result KeyError (List (ℕ × ℕ))
weigh lengths [] = ok []
weigh lengths (v ∷ vs) = do
  n ← index v (lookup v lengths)
  rest ← weigh lengths vs
  ok ((n, v) ∷ rest)

-- `(-lengths[v], str(v)) <= (-lengths[w], str(w))`
pub weighs_before : ℕ × ℕ → ℕ × ℕ → Bool
weighs_before (n, v) (m, w) = lex m n (leb v w)

pub first_root : Option (ℕ × ℕ) → Result SelectionError (ℕ × ℕ)
first_root none = err no_roots
first_root (some r) = ok r

-- The targets with the given length.
pub candidates : Dict ℕ ℕ → ℕ → List ℕ → Result KeyError (List ℕ)
candidates lengths n [] = ok []
candidates lengths n (t ∷ ts) = do
  m ← index t (lookup t lengths)
  rest ← candidates lengths n ts
  ok (if m == n then t ∷ rest else rest)

-- `while lengths[current] > 1`, with `lengths[current] - 1` as its first argument: a candidate has
-- that length, so that the argument goes down by one each time.
pub follow : ℕ → Dict ℕ (List ℕ) → Dict ℕ ℕ → (current : ℕ) → Result KeyError (List ℕ)
follow zero outgoing lengths current = ok (current ∷ [])
follow (suc k) outgoing lengths current =
    candidates lengths (suc k) (or_nil (lookup current outgoing)) >>= λ found.
    elim (minimum leb found) [
      | none ↦ ok (current ∷ [])
      | some c ↦ follow k outgoing lengths c >>= λ rest. ok (current ∷ rest)
    ]

-- `lengths or critical_path_lengths(…)`: an empty dictionary counts as none.
pub resolved : List ℕ → List Edge → Option (Dict ℕ ℕ) → Result KeyError (Dict ℕ ℕ)
resolved order edges none = critical_path_lengths order edges
resolved order edges (some []) = critical_path_lengths order edges
resolved order edges (some (l ∷ ls)) = ok (l ∷ ls)

-- The edges are a list, an iterable that gives the same edges each time it is gone through.
pub select_critical_path : List ℕ → List Edge → Option (Dict ℕ ℕ) → Result SelectionError (List ℕ)
select_critical_path [] edges given = ok []
select_critical_path (v ∷ vs) edges given = do
  lengths ← map_err missing (resolved (v ∷ vs) edges given)
  indegree ← map_err missing (count_in edges (zeros (v ∷ vs)))
  weighted ← map_err missing (weigh lengths (roots_of indegree (v ∷ vs)))
  (n, root) ← first_root (minimum weighs_before weighted)
  map_err missing (follow (n - 1) (successors edges []) lengths root)
