-- ===== src/Dag/Build/Ids.antt =====
-- What the checks of `validateDag` on the nodes and the edges establish.
use birthub_360_innovation.Base.{
  ◌+◌, ◌≤◌, String, true, false, ◌&&◌, ◌||◌, List, [], ◌∷◌, ◌≡◌, subst, inl, inr, arith, bit,
  is_some, Bool-cases, str_eq, eq_iff, All, count, contains, Dict, lookup, insert, lookup-insert,
}
use birthub_360_innovation.Base.Result.{ok}
use birthub_360_innovation.Dag.{DagNode, DagEdge}
use birthub_360_innovation.Dag.Graph.{Edge}
use birthub_360_innovation.Dag.Build.{node_ids, index_nodes, is_blank}
use birthub_360_innovation.Dag.Build.Built.{HasEndpoints}

index_nodes-step :
    (n : DagNode) (ns : List DagNode) (m m' : Dict DagNode)
    → index_nodes (n ∷ ns) m ≡ ok m'
    → (index_nodes ns (insert n.id n m) ≡ ok m')
      × (is_blank n.id ≡ false)
      × (is_some (lookup n.id m) ≡ false)
unfolding index_nodes
index_nodes-step n ns m m' h = ground arith

-- The map has the ids of the nodes as its keys, and no id stands twice.
pub index_nodes_lem :
    (ns : List DagNode) (m m' : Dict DagNode)
    → index_nodes ns m ≡ ok m'
    → (v : String)
    → (is_some (lookup v m') ≡ (is_some (lookup v m) || contains (node_ids ns) v))
      × (count v (node_ids ns) + bit (is_some (lookup v m)) ≤ 1)
unfolding index_nodes
index_nodes_lem [] m m' h v = ground arith
index_nodes_lem (n ∷ ns) m m' h v =
    let (rest, filled, new) = index_nodes-step n ns m m' h in
    let (keys, few) = index_nodes_lem ns (insert n.id n m) m' rest v in
    ground (arith, keys, few, new, lookup-insert n.id v n m, eq_iff n.id v)

pub index_nodes-filled :
    (ns : List DagNode) (m m' : Dict DagNode)
    → index_nodes ns m ≡ ok m'
    → All (λ n. is_blank n.id ≡ false) ns
index_nodes-filled [] m m' h = tt
index_nodes-filled (n ∷ ns) m m' h =
    let (rest, filled, new) = index_nodes-step n ns m m' h in
    (filled, index_nodes-filled ns (insert n.id n m) m' rest)

pub ends_known :
    (by_id : Dict DagNode) (es : List DagEdge)
    → HasEndpoints by_id es
    → (a v : String) → Edge es a v
    → (is_some (lookup a by_id) ≡ true) × (is_some (lookup v by_id) ≡ true)
ends_known by_id [] h a v e = absurd (omega arith)
ends_known by_id (x ∷ es) h a v e = elim (Bool-cases (str_eq x.source a && str_eq x.target v)) [
  | inl this ↦
      let s : x.source ≡ a = (eq_iff x.source a).0 (ground arith) in
      let t : x.target ≡ v = (eq_iff x.target v).0 (ground arith) in
      (
        subst (λ y. is_some (lookup y by_id) ≡ true) s h.0.0,
        subst (λ y. is_some (lookup y by_id) ≡ true) t h.0.1,
      )
  | inr other ↦ ends_known by_id es h.1 a v (ground arith)
]
