-- ===== src/Dag/Build.antt =====
-- The maps that `validateDag` builds and the checks on single nodes and edges.
pub mod Built
pub mod Ids
use Prim.Native.Char.{code}
use birthub_360_innovation.Base.{
  ℕ, String, Bool, true, ◌&&◌, ◌||◌, not, List, [], ◌∷◌, ◌++◌, map, ltb, leb, ◌==◌, if◌then◌else◌,
  get_or, is_some, str_eq, length, filter, contains, Dict, lookup, insert,
}
use birthub_360_innovation.Base.Int.{ℤ, pos, succ_ℤ}
use birthub_360_innovation.Base.Result.{Result, ok, err, ◌>>=◌, ◌>>◌, throw_if}
use birthub_360_innovation.Dag.{
  DagNode, DagEdge, GraphError, source_missing, target_missing, duplicate_id, isolated, cyclic,
  empty_id,
}

-- The white space that `String.prototype.trim` removes.
abbrev is_space : ℕ → Bool
is_space c =
    (leb 9 c && leb c 13)
    || c == 32
    || c == 0xa0
    || c == 0x1680
    || (leb 0x2000 c && leb c 0x200a)
    || c == 0x2028
    || c == 0x2029
    || c == 0x202f
    || c == 0x205f
    || c == 0x3000
    || c == 0xfeff

-- `!id?.trim()`
unfoldable pub is_blank : String → Bool
is_blank String.[] = true
is_blank (String.◌∷◌ c s) = is_space (code c) && is_blank s

abbrev pub node_ids : List DagNode → List String
node_ids nodes = map (λ n. n.id) nodes

-- The first loop: `nodesById`.
unfoldable pub index_nodes : List DagNode → Dict DagNode → Result GraphError (Dict DagNode)
index_nodes [] m = ok m
index_nodes (n ∷ ns) m =
    let rest = index_nodes ns (insert n.id n m) in
    if is_blank n.id
    then err empty_id
    else if is_some (lookup n.id m)
    then err (duplicate_id n.id)
    else rest

-- The second loop: an empty list of targets and an in-degree of 0 for each node.
unfoldable pub init_adjacency : List DagNode → Dict (List String) → Dict (List String)
init_adjacency [] m = m
init_adjacency (n ∷ ns) m = init_adjacency ns (insert n.id [] m)

unfoldable pub init_indegree : List DagNode → Dict ℤ → Dict ℤ
init_indegree [] m = m
init_indegree (n ∷ ns) m = init_indegree ns (insert n.id (pos 0) m)

unfoldable pub assert_edge_endpoints : Dict DagNode → DagEdge → Result GraphError (Unit {0})
assert_edge_endpoints by_id e = do
  throw_if (not (is_some (lookup e.source by_id))) (source_missing e.source)
  throw_if (not (is_some (lookup e.target by_id))) (target_missing e.target)

pub record Maps : Type 0 where
  pub adjacency : Dict (List String)
  pub indegree : Dict ℤ

-- `adjacency.get(source)!.push(target)`, for a source that `assertEdgeEndpoints` has accepted, and
-- the increment of the target's in-degree.
unfoldable pub add_edge : DagEdge → Maps → Maps
add_edge e m = record {
  adjacency =
      insert e.source (get_or (lookup e.source m.adjacency) [] ++ e.target ∷ []) m.adjacency;
  indegree = insert e.target (succ_ℤ (get_or (lookup e.target m.indegree) (pos 0))) m.indegree;
}

-- The third loop.
unfoldable pub add_edges : Dict DagNode → List DagEdge → Maps → Result GraphError Maps
add_edges by_id [] m = ok m
add_edges by_id (e ∷ es) m =
    let rest = add_edges by_id es (add_edge e m) in
    assert_edge_endpoints by_id e >>= λ _.
    if str_eq e.source e.target then err (cyclic (e.source ∷ e.target ∷ [])) else rest

abbrev pub endpoints : List DagEdge → List String
endpoints [] = []
endpoints (e ∷ es) = e.source ∷ e.target ∷ endpoints es

unfoldable pub assert_no_isolated_nodes : List DagNode → List DagEdge → Result GraphError (Unit {0})
assert_no_isolated_nodes nodes edges =
    let alone = filter (λ i. not (contains (endpoints edges) i)) (node_ids nodes) in
    if leb (length nodes) 1 then ok tt else throw_if (ltb 0 (length alone)) (isolated alone)
