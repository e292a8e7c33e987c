-- ===== src/Dag/Validate/Facts.antt =====
-- What the checks of `validateDag` establish, and what its errors say.
use birthub_360_innovation.Base.{
  ℕ, suc, ◌≤◌, ◌<◌, String, Bool, true, false, List, [], ◌∷◌, ◌++◌, ◌≡◌, refl, sym, subst, ◌⊎◌, inl,
  inr, arith, if◌then◌else◌, is_some, Bool-cases, str_eq, eq_iff, count, count-append,
  contains-count, Dict, lookup,
}
use birthub_360_innovation.Base.Result.{Result, ok, err, ◌>>=◌, throw_if}
use birthub_360_innovation.Dag.{
  DagNode, DagEdge, DagInput, GraphError, cyclic, not_sortable, out_of_fuel,
}
use birthub_360_innovation.Dag.Graph.{Edge}
use birthub_360_innovation.Dag.Build.{
  Maps, node_ids, index_nodes, add_edges, init_adjacency, init_indegree,
}
use birthub_360_innovation.Dag.Build.Built.{IsBuilt, add_edges-HasEndpoints, add_edges-IsBuilt}
use birthub_360_innovation.Dag.Build.Ids.{index_nodes_lem, ends_known}
use birthub_360_innovation.Dag.Cycle.Walks.{IsCycle}
use birthub_360_innovation.Dag.Sort.Kahn.{Respects}

-- The place of a text in a list, or the list's length.
abbrev pub index_of : String → List String → ℕ
index_of v [] = 0
index_of v (x ∷ xs) = if str_eq x v then 0 else suc (index_of v xs)

-- Each id stands in the order as often as among the nodes, and the source of each edge stands before
-- its target.
pub record IsTopological (input : DagInput) (order : List String) : Type 0 where
  pub permutes : (v : String) → count v order ≡ count v (node_ids input.nodes)
  pub sorted : (a v : String) → Edge input.edges a v → index_of a order < index_of v order

pub Respects-index :
    (es : List DagEdge) (before xs : List String) (a v : String)
    → Respects es before xs
    → 0 < count v xs
    → Edge es a v
    → (0 < count a before) ⊎ (index_of a xs < index_of v xs)
Respects-index es before [] a v r m e = absurd (omega arith)
Respects-index es before (x ∷ xs) a v r m e = elim (Bool-cases (str_eq x v)) [
  | inl same ↦ inl (r.0 a (subst (λ y. Edge es a y) (sym ((eq_iff x v).0 same)) e))
  | inr other ↦ ground (
    arith,
    other,
    Respects-index es (before ++ x ∷ []) xs a v r.1 (ground arith) e,
    count-append a before (x ∷ []),
  )
]

-- What the checks before `validate_maps` establish.
pub record Facts (input : DagInput) (m : Maps) : Type 0 where
  pub built : IsBuilt input.edges m
  pub once : (v : String) → count v (node_ids input.nodes) ≤ 1
  pub ends :
      (a v : String)
      → Edge input.edges a v
      → (0 < count a (node_ids input.nodes)) × (0 < count v (node_ids input.nodes))

abbrev pub first_maps : DagInput → Maps
first_maps input = record {
  adjacency = init_adjacency input.nodes [];
  indegree = init_indegree input.nodes [];
}

pub prepared :
    (input : DagInput) (by_id : Dict DagNode) (m : Maps)
    → index_nodes input.nodes [] ≡ ok by_id
    → add_edges by_id input.edges (first_maps input) ≡ ok m
    → Facts input m
prepared input by_id m h k =
    let known : (v : String)
        → is_some (lookup v by_id) ≡ true
        → 0 < count v (node_ids input.nodes) =
      λ v q. ground (
        arith,
        index_nodes_lem input.nodes [] by_id h v,
        contains-count v (node_ids input.nodes),
      ) in
    record {
      built = add_edges-IsBuilt by_id input.nodes input.edges m k;
      once = λ v. ground (arith, index_nodes_lem input.nodes [] by_id h v);
      ends = λ a v e.
          let (s, t) =
            ends_known by_id input.edges
              (add_edges-HasEndpoints by_id input.edges (first_maps input) m k) a v e in
          (known a s, known v t);
    }

-- What each error says of the graph: a reported path is a cycle, and the two last are never thrown.
abbrev pub IsFair : List DagEdge → GraphError → Type 0
IsFair es (cyclic p) = IsCycle es p
IsFair es not_sortable = ⊥
IsFair es out_of_fuel = ⊥
IsFair es _ = Unit

module _ (es : List DagEdge) where
  -- A step that keeps a promise if it ends well, and otherwise throws an error that is fair.
  abbrev pub Judged : {A : Type 0} → (A → Type 0) → Result GraphError A → Type 0
  Judged P (ok a) = P a
  Judged P (err e) = IsFair es e

  pub Judged-bind :
      {A B : Type 0} (P : A → Type 0) (Q : B → Type 0) (r : Result GraphError A)
      (f : A → Result GraphError B)
      → Judged P r
      → ((a : A) → P a → Judged Q (f a))
      → Judged Q (r >>= f)
  Judged-bind P Q (ok a) f h k = k a h
  Judged-bind P Q (err e) f h k = h

  pub Judged-weaken :
      {A : Type 0} (P : A → Type 0) (r : Result GraphError A) → Judged P r → Judged (λ _. Unit) r
  Judged-weaken P (ok a) h = tt
  Judged-weaken P (err e) h = h

  pub throw_if-Judged :
      (b : Bool) (e : GraphError) → IsFair es e → Judged (λ _. b ≡ false) (throw_if b e)
  throw_if-Judged true e h = h
  throw_if-Judged false e h = refl
