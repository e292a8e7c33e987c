-- ===== src/Dag/Sort.antt =====
-- `topologicalSort`: Kahn's algorithm.
pub mod Relax
pub mod Kahn
pub mod Complete
use birthub_360_innovation.Base.{
  ℕ, zero, suc, String, List, [], ◌∷◌, ◌++◌, Option, none, some, ◌==◌, if◌then◌else◌, get_or,
  length, filter, Dict, lookup, insert,
}
use birthub_360_innovation.Base.Int.{ℤ, pos, pred_ℤ, is_zero}
use birthub_360_innovation.Base.Result.{Result, ok, err}
use birthub_360_innovation.Dag.{GraphError, not_sortable, out_of_fuel}

-- `indegreeByNode.get(id) ?? 0`
abbrev pub degree : Dict ℤ → String → ℤ
degree indegree id = get_or (lookup id indegree) (pos 0)

-- The `for` loop over the targets: the queue and the in-degrees behind it.
unfoldable pub relax : List String → List String → Dict ℤ → List String × Dict ℤ
relax [] queue indegree = (queue, indegree)
relax (t ∷ ts) queue indegree =
    let next = pred_ℤ (degree indegree t) in
    relax ts (if is_zero next then queue ++ t ∷ [] else queue) (insert t next indegree)

-- The `while` loop. `none`: the fuel ran out.
unfoldable pub sort_loop :
    ℕ → Dict (List String) → List String → Dict ℤ → List String → Option (List String)
sort_loop zero adjacency [] indegree order = some order
sort_loop zero adjacency (id ∷ queue) indegree order = none
sort_loop (suc fuel) adjacency [] indegree order = some order
sort_loop (suc fuel) adjacency (id ∷ queue) indegree order =
    let next = relax (get_or (lookup id adjacency) []) queue indegree in
    sort_loop fuel adjacency next.0 next.1 (order ++ id ∷ [])

-- One round for each node is enough on the maps that `validateDag` builds.
unfoldable pub topological_sort :
    List String → Dict (List String) → Dict ℤ → Result GraphError (List String)
topological_sort ids adjacency indegree =
    elim (sort_loop (length ids) adjacency (filter (λ i. is_zero (degree indegree i)) ids) indegree
      []) [
        | none ↦ err out_of_fuel
        | some order ↦ if length order == length ids then ok order else err not_sortable
      ]
