-- ===== src/Dag/Build/Built.antt =====
-- What the maps hold once every edge is added: the edges of the graph, and nothing else.
use birthub_360_innovation.Base.{
  ℕ, ◌+◌, String, true, false, List, [], ◌∷◌, ◌++◌, ◌≡◌, refl, ap, ◌∙◌, arith, if◌then◌else◌, bit,
  get_or, is_some, str_eq, eq_iff, All, Dict, lookup, insert, lookup-insert, append_assoc,
  append-nil,
}
use birthub_360_innovation.Base.Int.{ℤ, pos, succ_ℤ}
use birthub_360_innovation.Base.Result.{ok}
use birthub_360_innovation.Dag.{DagNode, DagEdge}
use birthub_360_innovation.Dag.Graph.{targets_of, edges_into}
use birthub_360_innovation.Dag.Build.{
  Maps, init_adjacency, init_indegree, add_edge, add_edges, assert_edge_endpoints,
}

abbrev pub targets : Dict (List String) → String → List String
targets adjacency n = get_or (lookup n adjacency) []

abbrev pub degree_of : Dict ℤ → String → ℤ
degree_of indegree v = get_or (lookup v indegree) (pos 0)

-- The maps of a graph.
pub record IsBuilt (es : List DagEdge) (m : Maps) : Type 0 where
  pub targets_lem : (n : String) → targets m.adjacency n ≡ targets_of n es
  pub degree_lem : (v : String) → degree_of m.indegree v ≡ pos (edges_into v es)

pub targets-init :
    (ns : List DagNode) (m : Dict (List String))
    → ((n : String) → targets m n ≡ [])
    → (n : String) → targets (init_adjacency ns m) n ≡ []
unfolding init_adjacency
targets-init [] m h n = h n
targets-init (x ∷ ns) m h n =
    targets-init ns (insert x.id [] m) (λ k. ground (arith, lookup-insert x.id k [] m, h k)) n

pub degree-init :
    (ns : List DagNode) (m : Dict ℤ)
    → ((v : String) → degree_of m v ≡ pos 0)
    → (v : String) → degree_of (init_indegree ns m) v ≡ pos 0
unfolding init_indegree
degree-init [] m h v = h v
degree-init (x ∷ ns) m h v =
    degree-init ns (insert x.id (pos 0) m)
      (λ k. ground (arith, lookup-insert x.id k (pos 0) m, h k)) v

targets-add_edge :
    (e : DagEdge) (m : Maps) (n : String)
    → targets (add_edge e m).adjacency n ≡ (
        if str_eq e.source n then targets m.adjacency n ++ e.target ∷ [] else targets m.adjacency n)
unfolding add_edge
targets-add_edge e m n = ground (
  arith,
  eq_iff e.source n,
  lookup-insert e.source n (targets m.adjacency e.source ++ e.target ∷ []) m.adjacency,
)

degree-add_edge :
    (e : DagEdge) (m : Maps) (v : String) (k : ℕ)
    → degree_of m.indegree v ≡ pos k
    → degree_of (add_edge e m).indegree v ≡ pos (k + bit (str_eq e.target v))
unfolding add_edge
degree-add_edge e m v k h = ground (
  arith,
  eq_iff e.target v,
  lookup-insert e.target v (succ_ℤ (degree_of m.indegree e.target)) m.indegree,
)

-- Both endpoints of every edge are nodes.
abbrev pub HasEndpoints : Dict DagNode → List DagEdge → Type 0
HasEndpoints by_id = All (λ e.
    (is_some (lookup e.source by_id) ≡ true)
    × (is_some (lookup e.target by_id) ≡ true)
    × (str_eq e.source e.target ≡ false))

module _ (by_id : Dict DagNode) where
  pub add_edges-step :
      (e : DagEdge) (es : List DagEdge) (m m' : Maps)
      → add_edges by_id (e ∷ es) m ≡ ok m'
      → (add_edges by_id es (add_edge e m) ≡ ok m')
        × (is_some (lookup e.source by_id) ≡ true)
        × (is_some (lookup e.target by_id) ≡ true)
        × (str_eq e.source e.target ≡ false)
  unfolding add_edges assert_edge_endpoints
  add_edges-step e es m m' h = ground arith

  pub add_edges-HasEndpoints :
      (es : List DagEdge) (m m' : Maps) → add_edges by_id es m ≡ ok m' → HasEndpoints by_id es
  add_edges-HasEndpoints [] m m' h = tt
  add_edges-HasEndpoints (e ∷ es) m m' h =
      let (rest, s, t, n) = add_edges-step e es m m' h in
      ((s, t, n), add_edges-HasEndpoints es (add_edge e m) m' rest)

  add_edges-targets :
      (es : List DagEdge) (m m' : Maps)
      → add_edges by_id es m ≡ ok m'
      → (n : String) → targets m'.adjacency n ≡ targets m.adjacency n ++ targets_of n es
  unfolding add_edges
  add_edges-targets [] m m' h n = ground (arith, append-nil (targets m.adjacency n))
  add_edges-targets (e ∷ es) m m' h n =
      let rest = add_edges-targets es (add_edge e m) m' (add_edges-step e es m m' h).0 n in
      ground (
        arith,
        rest,
        targets-add_edge e m n,
        append_assoc (targets m.adjacency n) (e.target ∷ []) (targets_of n es),
      )

  add_edges-degree :
      (es : List DagEdge) (m m' : Maps)
      → add_edges by_id es m ≡ ok m'
      → (v : String) (k : ℕ) → degree_of m.indegree v ≡ pos k
      → degree_of m'.indegree v ≡ pos (k + edges_into v es)
  unfolding add_edges
  add_edges-degree [] m m' h v k d = ground arith
  add_edges-degree (e ∷ es) m m' h v k d =
      let rest =
        add_edges-degree es (add_edge e m) m' (add_edges-step e es m m' h).0 v
          (k + bit (str_eq e.target v)) (degree-add_edge e m v k d) in
      ground (arith, rest)

  -- The loops of `validateDag` build the maps of the graph.
  pub add_edges-IsBuilt :
      (ns : List DagNode) (es : List DagEdge) (m : Maps)
      → add_edges by_id es
          (record { adjacency = init_adjacency ns []; indegree = init_indegree ns [] })
        ≡ ok m
      → IsBuilt es m
  add_edges-IsBuilt ns es m h =
      let start : Maps = record {
        adjacency = init_adjacency ns [];
        indegree = init_indegree ns [];
      } in
      record {
        targets_lem = λ n.
            add_edges-targets es start m h n
            ∙ ap (λ l. l ++ targets_of n es) (targets-init ns [] (λ k. refl) n);
        degree_lem = λ v.
            add_edges-degree es start m h v 0 (degree-init ns [] (λ k. refl) v)
            ∙ ap (λ k. pos k) (omega arith);
      }
