-- ===== src/Dag/Sort/Complete.antt =====
-- `topologicalSort` after the search found no cycle: every node is listed, so it does not throw.
use birthub_360_innovation.Base.{
  suc, ◌+◌, ◌≤◌, ◌<◌, String, Bool, List, [], ◌∷◌, ◌++◌, ◌≡◌, refl, sym, ap, ◌∙◌, subst, inl, inr,
  arith, ltb, if◌then◌else◌, get_or, Bool-cases, str_eq, eq_iff, str_eq_refl, length, filter, count,
  count-append, Dict, lookup, append_assoc,
}
use birthub_360_innovation.Base.{length-le_of_count}
use birthub_360_innovation.Base.Int.{ℤ, pos, is_zero}
use birthub_360_innovation.Base.Result.{ok}
use birthub_360_innovation.Dag.{DagEdge}
use birthub_360_innovation.Dag.Graph.{targets_of, edges_into, Edge, edges_from-nil, edges_from-full}
use birthub_360_innovation.Dag.Cycle.Walks.{IsClosed}
use birthub_360_innovation.Dag.Sort.{degree, topological_sort}
use birthub_360_innovation.Dag.Sort.Kahn.{Inv, Respects, sort_loop_lem}

IsClosed-mem :
    (es : List DagEdge) (xs : List String) (a b : String)
    → IsClosed es xs
    → 0 < count a xs
    → Edge es a b
    → 0 < count b xs
IsClosed-mem es [] a b c h e = absurd (omega arith)
IsClosed-mem es (x ∷ xs) a b c h e = elim (Bool-cases (str_eq x a)) [
  | inl same ↦
      let q = c.0 b (subst (λ y. Edge es y b) (sym ((eq_iff x a).0 same)) e) in omega (arith, q)
  | inr other ↦ let q = IsClosed-mem es xs a b c.1 (ground arith) e in omega (arith, q)
]

pub count-filter :
    (p : String → Bool) (v : String) (xs : List String)
    → count v (filter p xs) ≡ (if p v then count v xs else 0)
count-filter p v [] = ground arith
count-filter p v (x ∷ xs) = elim (Bool-cases (str_eq x v)) [
  | inl same ↦
      let e : p x ≡ p v = ap p ((eq_iff x v).0 same) in ground (arith, e, same, count-filter p v xs)
  | inr other ↦ ground (arith, other, count-filter p v xs)
]

module _ (es : List DagEdge) (ids : List String) (adjacency : Dict (List String))
    (indegree : Dict ℤ) (built : (n : String) → get_or (lookup n adjacency) [] ≡ targets_of n es)
    (degrees : (v : String) → degree indegree v ≡ pos (edges_into v es))
    (once : (v : String) → count v ids ≤ 1)
    (inside : (a v : String) → Edge es a v → (0 < count a ids) × (0 < count v ids)) where
  into : (a v : String) → Edge es a v → 0 < count v ids
  into a v e = (inside a v e).1

  Inv-start :
      Inv es ids adjacency built once into
        (filter (λ i. is_zero (degree indegree i)) ids)
        indegree
        []
  Inv-start = record {
    degrees = λ v. degrees v ∙ ap (λ n. pos n) (omega (arith, edges_from-nil v es));
    listed = λ v. rw (count-filter, degrees v) (ground (arith, edges_from-nil v es));
    respects = tt;
  }

  module _ (r : List String) (d : Dict ℤ) (inv : Inv es ids adjacency built once into [] d r)
      (visited : List String) (visited_once : (v : String) → count v visited ≤ 1)
      (full : (v : String) → 0 < count v ids → 0 < count v visited) where
    -- Newest first, each visited node has the sources of its edges before it.
    all_listed :
        (newer xs : List String)
        → newer ++ xs ≡ visited
        → IsClosed es xs
        → ((v : String) → 0 < count v newer → 0 < count v ids → 0 < count v r)
        → (v : String) → 0 < count v xs
        → 0 < count v ids
        → 0 < count v r
    all_listed newer [] e c h v m i = absurd (omega arith)
    all_listed newer (x ∷ xs) e c h v m i = elim (Bool-cases (str_eq x v)) [
      | inl same ↦ subst (λ y. 0 < count y ids → 0 < count y r) ((eq_iff x v).0 same) here i
      | inr other ↦
          all_listed (newer ++ x ∷ []) xs (append_assoc newer (x ∷ []) xs ∙ e) c.1 next v
            (ground arith) i
    ]
      where
        unique : count x newer + suc (count x xs) ≤ 1
        unique = ground (
          arith,
          visited_once x,
          ap (λ l. count x l) e,
          count-append x newer (x ∷ xs),
          str_eq_refl x,
        )

        source : (a : String) → Edge es a x → 0 < count a r
        source a edge = elim (Bool-cases (ltb 0 (count a newer))) [
          | inl before ↦ h a (ground arith) (inside a x edge).0
          | inr later ↦ elim (Bool-cases (str_eq x a)) [
            | inl same ↦
                let again = c.0 x (subst (λ y. Edge es y x) (sym ((eq_iff x a).0 same)) edge) in
                absurd (omega (arith, unique, again))
            | inr other ↦
                let inner : 0 < count a xs = ground (
                  arith,
                  full a (inside a x edge).0,
                  ap (λ l. count a l) e,
                  count-append a newer (x ∷ xs),
                ) in
                absurd (omega (arith, unique, IsClosed-mem es xs a x c.1 inner edge))
          ]
        ]

        here : 0 < count x ids → 0 < count x r
        here known =
            ground (arith, inv.listed x, edges_from-full r x es es (λ a. omega arith) source)

        next : (w : String) → 0 < count w (newer ++ x ∷ []) → 0 < count w ids → 0 < count w r
        next w k j = elim (Bool-cases (str_eq x w)) [
          | inl same ↦ subst (λ y. 0 < count y ids → 0 < count y r) ((eq_iff x w).0 same) here j
          | inr other ↦ h w (ground (arith, count-append w newer (x ∷ []))) j
        ]

    order-full : IsClosed es visited → (v : String) → count v r ≡ count v ids
    order-full c v = ground (
      arith,
      inv.listed v,
      once v,
      all_listed [] visited refl c (λ w k j. absurd (omega arith)) v,
      full v,
    )

  -- After a search without a cycle `topologicalSort` does not throw; it lists each node once, behind
  -- the sources of its edges.
  pub topological_sort_lem :
      (visited : List String)
      → IsClosed es visited
      → ((v : String) → count v visited ≤ 1)
      → ((v : String) → 0 < count v ids → 0 < count v visited)
      → (order : List String) × (topological_sort ids adjacency indegree ≡ ok order)
        × ((v : String) → count v order ≡ count v ids)
        × Respects es [] order
  unfolding topological_sort
  topological_sort_lem visited closed visited_once full =
      let (r, e, d, inv) =
        sort_loop_lem es ids adjacency built once into (length ids)
          (filter (λ i. is_zero (degree indegree i)) ids) indegree [] Inv-start (omega arith) in
      let same = order-full r d inv visited visited_once full closed in
      let a = length-le_of_count r ids (λ v. omega (arith, same v)) in
      let b = length-le_of_count ids r (λ v. omega (arith, same v)) in
      (r, rw (e, topological_sort) (ground arith), same, inv.respects)
