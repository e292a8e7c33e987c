-- ===== src/Dag/Cycle/Walks.antt =====
-- Walks and cycles of a graph, and the bookkeeping of `getCyclePath`.
use birthub_360_innovation.Base.{
  ◌<◌, String, not, List, [], ◌∷◌, ◌++◌, ◌≡◌, refl, ap, inl, inr, arith, Bool-cases, str_eq, eq_iff,
  filter, count,
}
use birthub_360_innovation.Dag.{DagEdge}
use birthub_360_innovation.Dag.Graph.{Edge}
use birthub_360_innovation.Dag.Cycle.{slice_from, cycle_at, pop}

-- Each node of the list leads to the next by an edge.
abbrev pub IsWalk : List DagEdge → List String → Type 0
IsWalk es [] = Unit
IsWalk es (x ∷ []) = Unit
IsWalk es (x ∷ y ∷ l) = Edge es x y × IsWalk es (y ∷ l)

-- A walk that ends where it began.
abbrev pub IsCycle : List DagEdge → List String → Type 0
IsCycle es p = (x : String) × (mid : List String) × (p ≡ x ∷ (mid ++ x ∷ [])) × IsWalk es p

-- A list of nodes, the newest first, each listed behind the nodes that its edges lead to.
abbrev pub IsClosed : List DagEdge → List String → Type 0
IsClosed es [] = Unit
IsClosed es (x ∷ xs) = ((b : String) → Edge es x b → 0 < count b xs) × IsClosed es xs

pub IsWalk-extend :
    (es : List DagEdge) (s : List String) (x t : String)
    → IsWalk es (s ++ x ∷ [])
    → Edge es x t
    → IsWalk es ((s ++ x ∷ []) ++ t ∷ [])
IsWalk-extend es [] x t w e = (e, tt)
IsWalk-extend es (a ∷ []) x t w e = (w.0, (e, tt))
IsWalk-extend es (a ∷ b ∷ s) x t w e = (w.0, IsWalk-extend es (b ∷ s) x t w.1 e)

pub IsWalk-tail :
    (es : List DagEdge) (x : String) (s : List String) → IsWalk es (x ∷ s) → IsWalk es s
IsWalk-tail es x [] w = tt
IsWalk-tail es x (y ∷ s) w = w.1

pub IsCycle-cycle_at :
    (es : List DagEdge) (s : List String) (x : String)
    → IsWalk es (s ++ x ∷ [])
    → 0 < count x s
    → IsCycle es (cycle_at x s)
unfolding cycle_at slice_from
IsCycle-cycle_at es [] x w h = absurd (omega arith)
IsCycle-cycle_at es (a ∷ s) x w h = elim (Bool-cases (str_eq a x)) [
  | inl same ↦
      rw (same, slice_from, cycle_at) (x, s, ap (λ y. y ∷ (s ++ x ∷ [])) ((eq_iff a x).0 same), w)
  | inr other ↦
      rw (other, slice_from, cycle_at)
        (IsCycle-cycle_at es s x (IsWalk-tail es a (s ++ x ∷ []) w) (ground arith))
]

pub pop-concat : (s : List String) (x : String) → pop (s ++ x ∷ []) ≡ s
unfolding pop
pop-concat [] x = refl
pop-concat (a ∷ []) x = refl
pop-concat (a ∷ b ∷ s) x = ap (λ l. a ∷ l) (pop-concat (b ∷ s) x)

pub filter-absent :
    (x : String) (s : List String) → count x s ≡ 0 → filter (λ y. not (str_eq y x)) s ≡ s
filter-absent x [] h = refl
filter-absent x (y ∷ s) h = ground (arith, filter-absent x s)
