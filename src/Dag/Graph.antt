-- ===== src/Dag/Graph.antt =====
-- The graph that a list of edges stands for, against which the validation is judged.
use birthub_360_innovation.Base.{
  ℕ, ◌+◌, ◌≤◌, ◌<◌, String, ◌&&◌, List, [], ◌∷◌, ◌++◌, ◌≡◌, refl, subst, inl, inr, arith,
  if◌then◌else◌, bit, Bool-cases, str_eq, eq_iff, str_eq_refl, str_eq_sym, count, count-append,
}
use birthub_360_innovation.Dag.{DagEdge}

-- The targets of the edges out of a node, in the order of the edges.
abbrev pub targets_of : String → List DagEdge → List String
targets_of n [] = []
targets_of n (e ∷ es) = if str_eq e.source n then e.target ∷ targets_of n es else targets_of n es

-- How many edges lead from `a` to `b`, and how many lead to `v`.
abbrev pub edge_count : String → String → List DagEdge → ℕ
edge_count a b [] = 0
edge_count a b (e ∷ es) = bit (str_eq e.source a && str_eq e.target b) + edge_count a b es

abbrev pub edges_into : String → List DagEdge → ℕ
edges_into v [] = 0
edges_into v (e ∷ es) = bit (str_eq e.target v) + edges_into v es

-- How many edges lead to `v` from the nodes of a list.
abbrev pub edges_from : List String → String → List DagEdge → ℕ
edges_from l v [] = 0
edges_from l v (e ∷ es) = (if str_eq e.target v then count e.source l else 0) + edges_from l v es

-- Some edge leads from `a` to `b`.
abbrev pub Edge : List DagEdge → String → String → Type 0
Edge es a b = 0 < edge_count a b es

-- A walk along edges.
pub data Reach (es : List DagEdge) (a : String) : String → Type 0 where
  here : Reach es a a
  step : {b c : String} → Reach es a b → Edge es b c → Reach es a c

pub count-targets_of :
    (n v : String) (es : List DagEdge) → count v (targets_of n es) ≡ edge_count n v es
count-targets_of n v [] = refl
count-targets_of n v (e ∷ es) = ground (arith, count-targets_of n v es)

pub edge_count-le-edges_into :
    (n v : String) (es : List DagEdge) → edge_count n v es ≤ edges_into v es
edge_count-le-edges_into n v [] = omega arith
edge_count-le-edges_into n v (e ∷ es) = ground (arith, edge_count-le-edges_into n v es)

pub edges_from-concat :
    (l : List String) (n v : String) (es : List DagEdge)
    → edges_from (l ++ n ∷ []) v es ≡ edges_from l v es + edge_count n v es
edges_from-concat l n v [] = refl
edges_from-concat l n v (e ∷ es) =
    ground
      (arith, edges_from-concat l n v es, count-append e.source l (n ∷ []), str_eq_sym n e.source)

pub edges_from-nil : (v : String) (es : List DagEdge) → edges_from [] v es ≡ 0
edges_from-nil v [] = refl
edges_from-nil v (e ∷ es) = ground (arith, edges_from-nil v es)

-- From nodes listed once each, no more edges lead to `v` than lead to it at all.
pub edges_from-le :
    (l : List String) (v : String) (es : List DagEdge)
    → ((a : String) → count a l ≤ 1)
    → edges_from l v es ≤ edges_into v es
edges_from-le l v [] h = omega arith
edges_from-le l v (e ∷ es) h = ground (arith, edges_from-le l v es h, h e.source)

-- If all edges to `v` are from the list, then so is the source of each.
pub source-mem :
    (l : List String) (a v : String) (es : List DagEdge)
    → ((b : String) → count b l ≤ 1)
    → edges_into v es ≤ edges_from l v es
    → Edge es a v
    → 0 < count a l
source-mem l a v [] h full m = absurd (omega arith)
source-mem l a v (e ∷ es) h full m = elim (Bool-cases (str_eq e.source a && str_eq e.target v)) [
  | inl this ↦
      let same : e.source ≡ a = (eq_iff e.source a).0 (ground arith) in
      subst (λ x. 0 < count x l) same (ground (arith, h e.source, edges_from-le l v es h))
  | inr other ↦ source-mem l a v es h (ground (arith, h e.source)) (ground arith)
]

-- Conversely, if each source of an edge to `v` is in the list, all edges to `v` are from the list.
pub edges_from-full :
    (l : List String) (v : String) (es all_es : List DagEdge)
    → ((a : String) → edge_count a v es ≤ edge_count a v all_es)
    → ((a : String) → Edge all_es a v → 0 < count a l)
    → edges_into v es ≤ edges_from l v es
edges_from-full l v [] all_es sub h = omega arith
edges_from-full l v (e ∷ es) all_es sub h =
    let rest = edges_from-full l v es all_es (λ a. ground (arith, sub a)) h in
    ground (arith, rest, sub e.source, h e.source, str_eq_refl e.source)
