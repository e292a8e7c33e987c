-- ===== src/Dag/Validate/Promises.antt =====
-- The promises of `validateDag`, over the graph that its input stands for.
use birthub_360_innovation.Base.{
  ◌≤◌, ◌<◌, String, true, false, not, List, [], ◌∷◌, ◌≡◌, ◌≢◌, refl, sym, ap, subst, inl, inr,
  arith, ◌==◌, if◌then◌else◌, get_or, is_some, Bool-cases, str_eq, eq_iff, str_eq_refl, length,
  count, Dict, lookup, insert,
}
use birthub_360_innovation.Base.Result.{Result, ok, err, throw_if}
use birthub_360_innovation.Base.Int.{is_zero}
use birthub_360_innovation.Dag.{
  DagNode, DagEdge, DagInput, DagOptions, DagResult, GraphError, cyclic, not_sortable, out_of_fuel,
}
use birthub_360_innovation.Dag.{source_missing, target_missing}
use birthub_360_innovation.Dag.Build.{is_blank}
use birthub_360_innovation.Dag.Graph.{edge_count, Edge, Reach, here, step, edges_into}
use birthub_360_innovation.Dag.Build.{
  Maps, node_ids, index_nodes, add_edges, add_edge, assert_edge_endpoints,
}
use birthub_360_innovation.Dag.Cycle.Walks.{IsCycle}
use birthub_360_innovation.Dag.Sort.{degree}
use birthub_360_innovation.Dag.Sort.Complete.{count-filter}
use birthub_360_innovation.Dag.Validate.{validate_dag}
use birthub_360_innovation.Dag.Validate.Facts.{
  IsTopological, index_of, Facts, prepared, first_maps, Judged, Judged-bind, Judged-weaken,
  throw_if-Judged,
}
use birthub_360_innovation.Dag.Validate.Correct.{Accepted, judge}

index_nodes-Judged :
    (es : List DagEdge) (ns : List DagNode) (m : Dict DagNode)
    → Judged es (λ _. Unit) (index_nodes ns m)
unfolding index_nodes
index_nodes-Judged es [] m = tt
index_nodes-Judged es (n ∷ ns) m = elim (Bool-cases (is_blank n.id)) [
  | inl blank ↦ rw (blank, index_nodes) tt
  | inr filled ↦ elim (Bool-cases (is_some (lookup n.id m))) [
    | inl old ↦ rw (filled, old, index_nodes) tt
    | inr new ↦ rw (filled, new, index_nodes) (index_nodes-Judged es ns (insert n.id n m))
  ]
]

module _ (all_es : List DagEdge) (by_id : Dict DagNode) where
  self_loop :
      (e : DagEdge)
      → Edge all_es e.source e.target
      → str_eq e.source e.target ≡ true
      → IsCycle all_es (e.source ∷ e.target ∷ [])
  self_loop e edge same = (
    e.source,
    [],
    ap (λ t. e.source ∷ t ∷ []) (sym ((eq_iff e.source e.target).0 same)),
    (edge, tt),
  )

  -- The loop over the edges: a self-loop is a cycle.
  add_edges-Judged :
      (es : List DagEdge) (m : Maps)
      → ((a v : String) → edge_count a v es ≤ edge_count a v all_es)
      → Judged all_es (λ _. Unit) (add_edges by_id es m)
  unfolding add_edges
  add_edges-Judged [] m sub = tt
  add_edges-Judged (e ∷ es) m sub =
      Judged-bind all_es (λ _. Unit) (λ _. Unit) (assert_edge_endpoints by_id e)
        (λ _.
          if str_eq e.source e.target
          then err (cyclic (e.source ∷ e.target ∷ []))
          else add_edges by_id es (add_edge e m))
        endpoints
        λ _ _. elim (Bool-cases (str_eq e.source e.target)) [
          | inl same ↦ rw same (
              self_loop e
                (ground (arith, sub e.source e.target, str_eq_refl e.source, str_eq_refl e.target))
                same)
          | inr other ↦
              rw other (add_edges-Judged es (add_edge e m) (λ a v. omega (arith, sub a v)))
        ]
    where
      endpoints : Judged all_es (λ _. Unit) (assert_edge_endpoints by_id e)
      endpoints =
          unfold assert_edge_endpoints in
          Judged-bind all_es (λ _. not (is_some (lookup e.source by_id)) ≡ false) (λ _. Unit)
            (throw_if (not (is_some (lookup e.source by_id))) (source_missing e.source))
            (λ _. throw_if (not (is_some (lookup e.target by_id))) (target_missing e.target))
            (throw_if-Judged all_es _ _ tt)
            λ _ _. Judged-weaken all_es _ _ (throw_if-Judged all_es _ _ tt)

-- What an answer of `validateDag` promises.
pub record Valid (input : DagInput) (options : DagOptions) (r : DagResult) : Type 0 where
  pub maps : Maps
  pub facts : Facts input maps
  pub accepted : Accepted input options maps facts r

Judged-keep :
    {A : Type 0} (es : List DagEdge) (r : Result GraphError A)
    → Judged es (λ _. Unit) r
    → Judged es (λ a. r ≡ ok a) r
Judged-keep es (ok a) h = refl
Judged-keep es (err e) h = h

Judged-map :
    {A : Type 0} (es : List DagEdge) (P Q : A → Type 0) (r : Result GraphError A)
    → ((a : A) → P a → Q a)
    → Judged es P r
    → Judged es Q r
Judged-map es P Q (ok a) f h = f a h
Judged-map es P Q (err e) f h = h

validate_dag-Judged :
    (input : DagInput) (options : DagOptions)
    → Judged input.edges (Valid input options) (validate_dag input options)
unfolding validate_dag
validate_dag-Judged input options =
    let es = input.edges in
    Judged-bind es (λ _. (length input.nodes == 0) ≡ false) (Valid input options) _ _
      (throw_if-Judged es _ _ tt)
      λ _ _.
        Judged-bind es (λ by_id. index_nodes input.nodes [] ≡ ok by_id) (Valid input options) _ _
          (Judged-keep es _ (index_nodes-Judged es input.nodes []))
          λ by_id indexed.
            Judged-bind es (λ m. add_edges by_id es (first_maps input) ≡ ok m) (Valid input options)
              _ _
              (Judged-keep es _
                (add_edges-Judged es by_id es (first_maps input) (λ a v. omega arith)))
              λ m added.
                let facts = prepared input by_id m indexed added in
                Judged-map es (Accepted input options m facts) (Valid input options) _
                  (λ r accepted. record { maps = m; facts = facts; accepted = accepted })
                  (judge input options m facts)

module _ (input : DagInput) (options : DagOptions) where
  valid : (r : DagResult) → validate_dag input options ≡ ok r → Valid input options r
  valid r h = subst (Judged input.edges (Valid input options)) h (validate_dag-Judged input options)

-- If `validateDag` answers, no id stands twice, and each end of each edge is a node.
pub validate_dag-once :
    (input : DagInput) (options : DagOptions) (r : DagResult)
    → validate_dag input options ≡ ok r
    → (v : String) → count v (node_ids input.nodes) ≤ 1
validate_dag-once input options r h = (valid input options r h).facts.once

pub validate_dag-ends :
    (input : DagInput) (options : DagOptions) (r : DagResult)
    → validate_dag input options ≡ ok r
    → (a v : String) → Edge input.edges a v
    → (0 < count a (node_ids input.nodes)) × (0 < count v (node_ids input.nodes))
validate_dag-ends input options r h = (valid input options r h).facts.ends

-- If `validateDag` answers, its order lists every node as often as the input does, and for every edge
-- the source stands before the target.
pub validate_dag-IsTopological :
    (input : DagInput) (options : DagOptions) (r : DagResult)
    → validate_dag input options ≡ ok r
    → IsTopological input r.topological_order
validate_dag-IsTopological input options r h = (valid input options r h).accepted.topological

index-le :
    (input : DagInput) (order : List String)
    → IsTopological input order
    → (a b : String) → Reach input.edges a b
    → index_of a order ≤ index_of b order
index-le input order t a _ here = omega arith
index-le input order t a _ (step {b} {c} w e) =
    omega (arith, index-le input order t a b w, t.sorted b c e)

-- If `validateDag` answers, the graph has no cycle: where a walk leads from `a` to `b`, no edge leads
-- back from `b` to `a`.
pub validate_dag-acyclic :
    (input : DagInput) (options : DagOptions) (r : DagResult)
    → validate_dag input options ≡ ok r
    → (a b : String) → Reach input.edges a b
    → ¬ Edge input.edges b a
validate_dag-acyclic input options r h a b w e =
    let t = validate_dag-IsTopological input options r h in
    omega (arith, index-le input r.topological_order t a b w, t.sorted b a e)

-- If `validateDag` throws a `CyclicDependencyError`, the path that it reports is a cycle of the graph: it
-- ends with the node it begins with, and each node leads to the next by an edge.
pub validate_dag-IsCycle :
    (input : DagInput) (options : DagOptions) (p : List String)
    → validate_dag input options ≡ err (cyclic p)
    → IsCycle input.edges p
validate_dag-IsCycle input options p h =
    subst (Judged input.edges (Valid input options)) h (validate_dag-Judged input options)

-- On every input `validateDag` ends within its fuel, and never throws the error of its topological sort.
pub validate_dag_total :
    (input : DagInput) (options : DagOptions)
    → (validate_dag input options ≢ err out_of_fuel)
      × (validate_dag input options ≢ err not_sortable)
validate_dag_total input options = (
  λ h. subst (Judged input.edges (Valid input options)) h (validate_dag-Judged input options),
  λ h. subst (Judged input.edges (Valid input options)) h (validate_dag-Judged input options),
)

-- If `validateDag` answers, its roots are the nodes to which no edge leads, each once, and there is at
-- least one.
pub validate_dag-roots :
    (input : DagInput) (options : DagOptions) (r : DagResult)
    → validate_dag input options ≡ ok r
    → ((v : String)
        → count v r.root_node_ids
          ≡ (if edges_into v input.edges == 0 then count v (node_ids input.nodes) else 0))
      × ((v : String) → count v r.root_node_ids ≤ 1)
      × (0 < length r.root_node_ids)
validate_dag-roots input options r h =
    let v = valid input options r h in
    let which : (x : String)
        → count x r.root_node_ids
          ≡ (if edges_into x input.edges == 0 then count x (node_ids input.nodes) else 0) =
      rw v.accepted.same_roots (λ x.
        rw (count-filter (λ i. is_zero (degree v.maps.indegree i)) x, v.facts.built.degree_lem x)
          (ground arith)) in
    (
      which,
      λ x. rw which (ground (arith, v.facts.once x)),
      rw v.accepted.same_roots v.accepted.has_roots.some_root,
    )

-- If `validateDag` answers and the option for a single trigger is not off, there is exactly one root.
pub validate_dag-single_trigger :
    (input : DagInput) (options : DagOptions) (r : DagResult)
    → validate_dag input options ≡ ok r
    → get_or options.require_single_trigger true ≡ true
    → length r.root_node_ids ≡ 1
validate_dag-single_trigger input options r h on =
    let v = valid input options r h in rw v.accepted.same_roots (v.accepted.has_roots.single on)

-- If `validateDag` answers and the option for connection is not off, a walk leads from one of its roots to
-- every node.
pub validate_dag-connected :
    (input : DagInput) (options : DagOptions) (r : DagResult)
    → validate_dag input options ≡ ok r
    → get_or options.require_connected true ≡ true
    → (root : String) × (0 < count root r.root_node_ids)
      × ((v : String) → 0 < count v (node_ids input.nodes) → Reach input.edges root v)
validate_dag-connected input options r h on =
    let v = valid input options r h in rw v.accepted.same_roots (v.accepted.has_roots.connected on)
