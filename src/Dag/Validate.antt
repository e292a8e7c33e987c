-- ===== src/Dag/Validate.antt =====
-- `validateDag`.
pub mod Facts
pub mod Correct
pub mod Promises
use birthub_360_innovation.Base.{
  suc, String, true, ◌&&◌, not, List, [], ◌∷◌, ◌==◌, if◌then◌else◌, get_or, length, filter, Dict,
}
use birthub_360_innovation.Base.Int.{is_zero}
use birthub_360_innovation.Base.Result.{Result, ok, err, ◌>>=◌, ◌>>◌, throw_if}
use birthub_360_innovation.Dag.{
  DagInput, DagOptions, DagResult, GraphError, many_roots, cyclic, empty_graph, no_root,
  out_of_fuel,
}
use birthub_360_innovation.Dag.Build.{
  Maps, node_ids, index_nodes, init_adjacency, init_indegree, add_edges, assert_no_isolated_nodes,
}
use birthub_360_innovation.Dag.Cycle.{Visit, find_cycle, no_walk}
use birthub_360_innovation.Dag.Connect.{assert_connected_from_root}
use birthub_360_innovation.Dag.Sort.{degree, topological_sort}

-- The loop's `throw`.
abbrev pub throw_cycle : Visit → Result GraphError (Unit {0})
throw_cycle (Visit.clear w) = ok tt
throw_cycle (Visit.cycle p) = err (cyclic p)
throw_cycle Visit.out_of_fuel = err out_of_fuel

-- The tests on the roots, of which the connection test takes the first.
unfoldable pub check_roots :
    DagInput → DagOptions → Dict (List String) → List String → Result GraphError (Unit {0})
check_roots input options adjacency [] = err no_root
check_roots input options adjacency (root ∷ more) = do
  throw_if (get_or options.require_single_trigger true && not (length (root ∷ more) == 1))
      (many_roots (root ∷ more))
  if get_or options.require_connected true
      then assert_connected_from_root (suc (length input.edges)) root adjacency
          (node_ids input.nodes)
      else ok tt

-- What follows once the maps are built.
unfoldable pub validate_maps : DagInput → DagOptions → Maps → Result GraphError DagResult
validate_maps input options maps =
    let ids = node_ids input.nodes in
    let roots = filter (λ i. is_zero (degree maps.indegree i)) ids in
    do
      assert_no_isolated_nodes input.nodes input.edges
      throw_cycle (find_cycle (suc (length ids)) maps.adjacency ids no_walk)
      check_roots input options maps.adjacency roots
      order ← topological_sort ids maps.adjacency maps.indegree
      ok (record { root_node_ids = roots; topological_order = order })

unfoldable pub validate_dag : DagInput → DagOptions → Result GraphError DagResult
validate_dag input options = do
  throw_if (length input.nodes == 0) empty_graph
  by_id ← index_nodes input.nodes []
  maps ← add_edges by_id input.edges (record {
    adjacency = init_adjacency input.nodes [];
    indegree = init_indegree input.nodes [];
  })
  validate_maps input options maps
