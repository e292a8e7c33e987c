-- ===== src/Dag/Validate/Correct.antt =====
-- `validateDag` against the graph.
use birthub_360_innovation.Base.{
  suc, ◌≤◌, ◌<◌, String, true, false, ◌&&◌, not, List, [], ◌∷◌, ◌≡◌, refl, sym, ap, ◌∙◌, subst, inl,
  inr, arith, leb, ◌==◌, get_or, Bool-cases, str_eq_refl, length, filter, count,
}
use birthub_360_innovation.Base.Int.{is_zero}
use birthub_360_innovation.Base.Result.{Result, ok, err, ◌>>=◌}
use birthub_360_innovation.Dag.{DagInput, DagOptions, DagResult, GraphError}
use birthub_360_innovation.Dag.Graph.{Edge, Reach}
use birthub_360_innovation.Dag.Build.{Maps, node_ids, assert_no_isolated_nodes}
use birthub_360_innovation.Dag.Cycle.{Visit, find_cycle, no_walk}
use birthub_360_innovation.Dag.Cycle.Walks.{IsClosed}
use birthub_360_innovation.Dag.Cycle.Search.{Ensures, find_cycle_lem}
use birthub_360_innovation.Dag.Connect.{assert_connected_from_root}
use birthub_360_innovation.Dag.Connect.Walks.{assert_connected_lem, assert_connected_err}
use birthub_360_innovation.Dag.Sort.{degree, topological_sort}
use birthub_360_innovation.Dag.Sort.Kahn.{Respects}
use birthub_360_innovation.Dag.Sort.Complete.{topological_sort_lem, count-filter}
use birthub_360_innovation.Dag.Validate.{check_roots, validate_maps, throw_cycle}
use birthub_360_innovation.Dag.Validate.Facts.{
  IsTopological, Respects-index, Facts, IsFair, Judged, Judged-bind, Judged-weaken, throw_if-Judged,
}

module _ (input : DagInput) (options : DagOptions) (m : Maps) (facts : Facts input m) where
  abbrev pub ids : List String
  ids = node_ids input.nodes

  abbrev pub roots : List String
  roots = filter (λ i. is_zero (degree m.indegree i)) ids

  search :
      Ensures input.edges ids m.adjacency facts.built.targets_lem facts.once
        (λ a v e. (facts.ends a v e).1)
        (λ w.
          IsClosed input.edges w.visited
          × ((v : String) → count v w.visited ≤ 1)
          × ((v : String) → 0 < count v ids → 0 < count v w.visited))
        (find_cycle (suc (length ids)) m.adjacency ids no_walk)
  search =
      find_cycle_lem input.edges ids m.adjacency facts.built.targets_lem facts.once
        (λ a v e. (facts.ends a v e).1)

  -- What the tests on the roots let through.
  pub record HasRoots : Type 0 where
    pub some_root : 0 < length roots
    pub single : get_or options.require_single_trigger true ≡ true → length roots ≡ 1
    pub connected :
        get_or options.require_connected true ≡ true
        → (root : String) × (0 < count root roots)
          × ((v : String) → 0 < count v ids → Reach input.edges root v)

  isolated_lem : Judged input.edges (λ _. Unit) (assert_no_isolated_nodes input.nodes input.edges)
  unfolding assert_no_isolated_nodes
  isolated_lem = elim (Bool-cases (leb (length input.nodes) 1)) [
    | inl few ↦ rw (few) tt
    | inr more ↦ rw (more) (Judged-weaken input.edges _ _ (throw_if-Judged input.edges _ _ tt))
  ]

  into : (a v : String) → Edge input.edges a v → 0 < count v ids
  into a v e = (facts.ends a v e).1

  root_known : (root : String) → 0 < count root roots → 0 < count root ids
  root_known root h = ground (arith, count-filter (λ i. is_zero (degree m.indegree i)) root ids)

  roots_base :
      (root : String) (more : List String)
      → roots ≡ root ∷ more
      → (get_or options.require_single_trigger true && not (length (root ∷ more) == 1)) ≡ false
      → (0 < length roots) × (get_or options.require_single_trigger true ≡ true → length roots ≡ 1)
  roots_base root more e single = rw e (omega arith, λ t. ground (arith, single, t))

  connection :
      (root : String) (more : List String)
      → roots ≡ root ∷ more
      → (get_or options.require_single_trigger true && not (length (root ∷ more) == 1)) ≡ false
      → (r : Result GraphError (Unit {0}))
      → assert_connected_from_root (suc (length input.edges)) root m.adjacency ids ≡ r
      → Judged input.edges (λ _. HasRoots) r
  connection root more e single (ok u) t =
      let (nonempty, one) = roots_base root more e single in
      let here : 0 < count root roots =
        ground (arith, ap (λ l. count root l) e, str_eq_refl root) in
      record {
        some_root = nonempty;
        single = one;
        connected = λ _. (
          root,
          here,
          (assert_connected_lem input.edges ids m.adjacency facts.built.targets_lem into root
                (root_known root here) facts.once).1
              t,
        );
      }
  connection root more e single (err x) t =
      let here : 0 < count root roots =
        ground (arith, ap (λ l. count root l) e, str_eq_refl root) in
      elim (assert_connected_err (suc (length input.edges)) root m.adjacency ids x t) [
        | inl stopped ↦ absurd (
            (assert_connected_lem input.edges ids m.adjacency facts.built.targets_lem into root
                (root_known root here) facts.once).0
              (t ∙ ap (λ y. err y) stopped))
        | inr (l, missed) ↦ subst (IsFair input.edges) (sym missed) tt
      ]

  roots_lem : Judged input.edges (λ _. HasRoots) (check_roots input options m.adjacency roots)
  unfolding check_roots
  roots_lem = go roots refl
    where
      go :
          (rs : List String)
          → roots ≡ rs
          → Judged input.edges (λ _. HasRoots) (check_roots input options m.adjacency rs)
      go [] e = tt
      go (root ∷ more) e =
          elim (Bool-cases
            (get_or options.require_single_trigger true && not (length (root ∷ more) == 1))) [
              | inl many ↦ rw (many, check_roots) tt
              | inr single ↦ elim (Bool-cases (get_or options.require_connected true)) [
                | inl wanted ↦
                    rw (single, wanted, check_roots) (connection root more e single _ refl)
                | inr free ↦
                    rw (single, free, check_roots)
                      (record {
                        some_root = (roots_base root more e single).0;
                        single = (roots_base root more e single).1;
                        connected = λ q. cc;
                      })
              ]
            ]

  pub record Accepted (r : DagResult) : Type 0 where
    pub topological : IsTopological input r.topological_order
    pub same_roots : r.root_node_ids ≡ roots
    pub has_roots : HasRoots

  cycle_lem :
      (v : Visit)
      → Ensures input.edges ids m.adjacency facts.built.targets_lem facts.once into
          (λ w.
            IsClosed input.edges w.visited
            × ((v : String) → count v w.visited ≤ 1)
            × ((v : String) → 0 < count v ids → 0 < count v w.visited))
          v
      → Judged input.edges
          (λ _.
            (w : List String) × IsClosed input.edges w
            × ((v : String) → count v w ≤ 1)
            × ((v : String) → 0 < count v ids → 0 < count v w))
          (throw_cycle v)
  cycle_lem (Visit.clear w) h = (w.visited, h.0, h.1, h.2)
  cycle_lem (Visit.cycle p) h = h
  cycle_lem Visit.out_of_fuel h = h

  pub judge : Judged input.edges Accepted (validate_maps input options m)
  unfolding validate_maps
  judge =
      Judged-bind input.edges (λ _. Unit) Accepted _ _ isolated_lem
        λ _ _.
          Judged-bind input.edges
            (λ _.
              (w : List String) × IsClosed input.edges w
              × ((v : String) → count v w ≤ 1)
              × ((v : String) → 0 < count v ids → 0 < count v w))
            Accepted _ _ (cycle_lem _ search)
            λ _ found.
              Judged-bind input.edges (λ _. HasRoots) Accepted _ _ roots_lem
                λ _ has_roots.
                  sorted
                    (topological_sort_lem input.edges ids m.adjacency m.indegree
                      facts.built.targets_lem facts.built.degree_lem facts.once facts.ends found.0
                      found.1 found.2 found.3)
                    has_roots
    where
      sorted :
          ((order : List String) × (topological_sort ids m.adjacency m.indegree ≡ ok order)
            × ((v : String) → count v order ≡ count v ids)
            × Respects input.edges [] order)
          → HasRoots
          → Judged input.edges Accepted (
              topological_sort ids m.adjacency m.indegree >>= λ order.
              ok (record { root_node_ids = roots; topological_order = order }))
      sorted (order, e, same, respects) has_roots = rw e (record {
        topological = record {
          permutes = same;
          sorted = λ a v edge. ground (
            arith,
            Respects-index input.edges [] order a v respects
                (ground (arith, same v, facts.ends a v edge)) edge,
          );
        };
        same_roots = refl;
        has_roots = has_roots;
      })
