-- ===== src/Dag/Sort/Kahn.antt =====
-- `topologicalSort` on the maps of a graph: the loop ends within the fuel, lists no node twice, and
-- lists a node only behind the sources of its edges.
use birthub_360_innovation.Base.{
  ℕ, zero, suc, ◌+◌, ◌-◌, ◌≤◌, ◌<◌, String, List, [], ◌∷◌, ◌++◌, some, ◌≡◌, refl, sym, ap, ◌∙◌,
  subst, arith, ◌==◌, if◌then◌else◌, get_or, str_eq_refl, length, length-append, count,
  count-append, Dict, lookup, append_assoc, append-nil,
}
use birthub_360_innovation.Base.{length-le_of_count}
use birthub_360_innovation.Base.Int.{ℤ, pos}
use birthub_360_innovation.Dag.{DagEdge}
use birthub_360_innovation.Dag.Graph.{
  targets_of, edge_count, edges_into, edges_from, Edge, count-targets_of, edges_from-concat,
  edges_from-le, source-mem,
}
use birthub_360_innovation.Dag.Sort.{relax, sort_loop}
use birthub_360_innovation.Dag.Sort.Relax.{HasDegrees, relax_lem}

-- Each text of `order` stands behind the sources of its edges, which are in `before` or in `order`.
abbrev pub Respects : List DagEdge → List String → List String → Type 0
Respects es before [] = Unit
Respects es before (x ∷ xs) =
    ((a : String) → Edge es a x → 0 < count a before) × Respects es (before ++ x ∷ []) xs

pub Respects-concat :
    (es : List DagEdge) (before xs : List String) (n : String)
    → Respects es before xs
    → ((a : String) → Edge es a n → 0 < count a (before ++ xs))
    → Respects es before (xs ++ n ∷ [])
Respects-concat es before [] n r h =
    ((λ a e. subst (λ l. 0 < count a l) (append-nil before) (h a e)), tt)
Respects-concat es before (x ∷ xs) n r h = (
  r.0,
  Respects-concat es (before ++ x ∷ []) xs n r.1
      (λ a e. subst (λ l. 0 < count a l) (sym (append_assoc before (x ∷ []) xs)) (h a e)),
)

module _ (es : List DagEdge) (ids : List String) (adjacency : Dict (List String))
    (built : (n : String) → get_or (lookup n adjacency) [] ≡ targets_of n es)
    (once : (v : String) → count v ids ≤ 1)
    (inside : (a v : String) → Edge es a v → 0 < count v ids) where
  -- What holds before each round.
  pub record Inv (queue : List String) (d : Dict ℤ) (order : List String) : Type 0 where
    pub degrees : HasDegrees d (λ v. edges_into v es - edges_from order v es)
    pub listed :
        (v : String)
        → count v order + count v queue
          ≡ (if edges_into v es - edges_from order v es == 0 then count v ids else 0)
    pub respects : Respects es [] order

  module _ (n : String) (queue : List String) (d : Dict ℤ) (order : List String)
      (inv : Inv (n ∷ queue) d order) where
    at_most_once : (v : String) → count v order + count v (n ∷ queue) ≤ 1
    at_most_once v = ground (arith, inv.listed v, once v)

    order'-once : (v : String) → count v (order ++ n ∷ []) ≤ 1
    order'-once v = ground (arith, at_most_once v, count-append v order (n ∷ []))

    ready : edges_into n es ≤ edges_from order n es
    ready = ground (arith, inv.listed n, str_eq_refl n)

    room : (v : String) → edges_from order v es + edge_count n v es ≤ edges_into v es
    room v =
        omega
          (arith, edges_from-concat order n v es, edges_from-le (order ++ n ∷ []) v es order'-once)

    Inv-round :
        Inv
          (relax (targets_of n es) queue d).0
          (relax (targets_of n es) queue d).1
          (order ++ n ∷ [])
    Inv-round =
        let k = λ (v : String). edges_into v es - edges_from order v es in
        let fits = λ (v : String). count-targets_of n v es in
        let (degrees, counts) =
          relax_lem (targets_of n es) queue d k inv.degrees (λ v. omega (arith, fits v, room v)) in
        record {
          degrees = λ v.
              degrees v ∙ ap (λ m. pos m) (omega (arith, fits v, edges_from-concat order n v es));
          listed = λ v. ground (
            arith,
            counts v,
            inv.listed v,
            fits v,
            room v,
            edges_from-concat order n v es,
            count-append v order (n ∷ []),
            inside n v,
            once v,
          );
          respects =
              Respects-concat es [] order n inv.respects
                (λ a e. source-mem order a n es (λ b. omega (arith, at_most_once b)) ready e);
        }

  -- The loop ends, and the invariant holds at the end, with an empty queue.
  pub sort_loop_lem :
      (fuel : ℕ) (queue : List String) (d : Dict ℤ) (order : List String)
      → Inv queue d order
      → length ids ≤ fuel + length order
      → (r : List String) × (sort_loop fuel adjacency queue d order ≡ some r)
        × (d' : Dict ℤ) × Inv [] d' r
  unfolding sort_loop
  sort_loop_lem zero [] d order inv h = (order, refl, d, inv)
  sort_loop_lem (suc fuel) [] d order inv h = (order, refl, d, inv)
  sort_loop_lem zero (n ∷ queue) d order inv h =
      let few =
        length-le_of_count (order ++ n ∷ queue) ids
          (λ v. ground (arith, inv.listed v, count-append v order (n ∷ queue))) in
      absurd (omega (arith, few, length-append order (n ∷ queue)))
  sort_loop_lem (suc fuel) (n ∷ queue) d order inv h = rw (built n) (
      sort_loop_lem fuel (relax (targets_of n es) queue d).0 (relax (targets_of n es) queue d).1
        (order ++ n ∷ []) (Inv-round n queue d order inv)
        (omega (arith, length-append order (n ∷ []))))
