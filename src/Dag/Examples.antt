-- ===== src/Dag/Examples.antt =====
-- The validation at work: a graph that is accepted, and one with a cycle.
use birthub_360_innovation.Base.{
  String, List, [], ◌∷◌, none, ◌≡◌, ◌≢◌, refl, arith, count, insert, if◌then◌else◌, ◌==◌, ◌<◌, ◌≤◌,
}
use birthub_360_innovation.Base.Result.{ok, err}
use birthub_360_innovation.Dag.{
  DagNode, DagEdge, DagInput, DagOptions, DagResult, cyclic, not_sortable, out_of_fuel,
}
use birthub_360_innovation.Dag.Graph.{Edge, Reach, here, step, edges_into}
use birthub_360_innovation.Dag.Build.{
  node_ids, is_blank, index_nodes, init_adjacency, init_indegree, assert_edge_endpoints, add_edge,
  add_edges, assert_no_isolated_nodes,
}
use birthub_360_innovation.Dag.Cycle.{
  slice_from, cycle_at, pop, visit_all, get_cycle_path, find_cycle,
}
use birthub_360_innovation.Dag.Cycle.Walks.{IsCycle}
use birthub_360_innovation.Dag.Connect.{push_targets, reach_loop, assert_connected_from_root}
use birthub_360_innovation.Dag.Sort.{relax, sort_loop, topological_sort}
use birthub_360_innovation.Dag.Validate.{check_roots, validate_maps, validate_dag}
use birthub_360_innovation.Dag.Validate.Facts.{IsTopological}
use birthub_360_innovation.Dag.Validate.Promises.{
  validate_dag-IsTopological, validate_dag-acyclic, validate_dag-IsCycle, validate_dag_total,
  validate_dag-roots, validate_dag-connected,
}

abbrev node : String → DagNode
node id = record { id = id; is_trigger = none; type = none }

abbrev edge : String → String → DagEdge
edge source target = record { route = none; source = source; target = target }

abbrev three_nodes : List DagNode
three_nodes = node "c" ∷ node "b" ∷ node "a" ∷ []

abbrev forward : DagInput
forward = record { edges = edge "a" "b" ∷ edge "b" "c" ∷ edge "a" "c" ∷ []; nodes = three_nodes }

abbrev circular : DagInput
circular = record { edges = edge "a" "b" ∷ edge "b" "c" ∷ edge "c" "b" ∷ []; nodes = three_nodes }

abbrev defaults : DagOptions
defaults = record { require_connected = none; require_single_trigger = none }

abbrev in_order : DagResult
in_order = record { root_node_ids = "a" ∷ []; topological_order = "a" ∷ "b" ∷ "c" ∷ [] }

forward_answer : validate_dag forward defaults ≡ ok in_order
unfolding validate_dag validate_maps check_roots push_targets reach_loop assert_connected_from_root
    slice_from cycle_at pop visit_all get_cycle_path find_cycle relax sort_loop topological_sort
    is_blank index_nodes init_adjacency init_indegree assert_edge_endpoints add_edge add_edges
    assert_no_isolated_nodes insert
forward_answer = refl

circular_answer : validate_dag circular defaults ≡ err (cyclic ("c" ∷ "b" ∷ "c" ∷ []))
unfolding validate_dag validate_maps check_roots push_targets reach_loop assert_connected_from_root
    slice_from cycle_at pop visit_all get_cycle_path find_cycle relax sort_loop topological_sort
    is_blank index_nodes init_adjacency init_indegree assert_edge_endpoints add_edge add_edges
    assert_no_isolated_nodes insert
circular_answer = refl

validate_dag-IsTopological_example : IsTopological forward ("a" ∷ "b" ∷ "c" ∷ [])
validate_dag-IsTopological_example =
    validate_dag-IsTopological forward defaults in_order forward_answer

validate_dag-acyclic_example : ¬ Edge (forward.edges) "b" "a"
validate_dag-acyclic_example =
    validate_dag-acyclic forward defaults in_order forward_answer "a" "b" (step here (omega arith))

validate_dag-IsCycle_example : IsCycle (circular.edges) ("c" ∷ "b" ∷ "c" ∷ [])
validate_dag-IsCycle_example =
    validate_dag-IsCycle circular defaults ("c" ∷ "b" ∷ "c" ∷ []) circular_answer

validate_dag_total_example :
    (validate_dag circular defaults ≢ err out_of_fuel)
    × (validate_dag circular defaults ≢ err not_sortable)
validate_dag_total_example = validate_dag_total circular defaults

validate_dag-roots_example :
    ((v : String)
      → count v ("a" ∷ [])
        ≡ (if edges_into v (forward.edges) == 0 then count v (node_ids (forward.nodes)) else 0))
    × ((v : String) → count v ("a" ∷ []) ≤ 1)
    × (0 < 1)
validate_dag-roots_example = validate_dag-roots forward defaults in_order forward_answer

validate_dag-connected_example :
    (root : String) × (0 < count root ("a" ∷ []))
    × ((v : String) → 0 < count v (node_ids (forward.nodes)) → Reach (forward.edges) root v)
validate_dag-connected_example =
    validate_dag-connected forward defaults in_order forward_answer refl
