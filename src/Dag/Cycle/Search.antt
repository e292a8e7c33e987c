-- ===== src/Dag/Cycle/Search.antt =====
-- `getCyclePath` against the graph: a path that it reports is a cycle, and where it reports none
-- every node it was called on is visited, behind all the nodes that its edges lead to.
use birthub_360_innovation.Base.{
  ℕ, zero, suc, ◌+◌, ◌≤◌, ◌<◌, String, List, [], ◌∷◌, ◌++◌, ◌≡◌, refl, sym, ap, ◌∙◌, subst, inl,
  inr, arith, get_or, Bool-cases, eq_iff, str_eq_refl, length, count, contains, count-append,
  contains-count, Dict, lookup,
}
use birthub_360_innovation.Base.{length-le_of_count}
use birthub_360_innovation.Dag.{DagEdge}
use birthub_360_innovation.Dag.Graph.{targets_of, Edge, count-targets_of}
use birthub_360_innovation.Dag.Cycle.{
  Walk, Visit, pop, enter, leave, then_leave, visit_all, get_cycle_path, find_cycle, no_walk,
}
use birthub_360_innovation.Dag.Cycle.Walks.{
  IsWalk, IsCycle, IsClosed, IsWalk-extend, IsCycle-cycle_at, pop-concat, filter-absent,
}

module _ (es : List DagEdge) (ids : List String) (adjacency : Dict (List String))
    (built : (n : String) → get_or (lookup n adjacency) [] ≡ targets_of n es)
    (once : (v : String) → count v ids ≤ 1)
    (inside : (a v : String) → Edge es a v → 0 < count v ids) where
  -- What holds of the sets at each call.
  pub record Inv (w : Walk) : Type 0 where
    pub closed : IsClosed es w.visited
    pub visited_once : (v : String) → count v w.visited ≤ 1
    pub tracked : (v : String) → count v w.visiting ≡ count v w.stack
    pub within : (v : String) → count v w.visiting ≤ count v ids
    pub apart : (v : String) → 0 < count v w.visiting → count v w.visited ≡ 0

  -- What a call leaves that reports no cycle.
  pub record Post (w w' : Walk) : Type 0 where
    pub inv : Inv w'
    pub same_visiting : w'.visiting ≡ w.visiting
    pub same_stack : w'.stack ≡ w.stack
    pub grows : (v : String) → count v w.visited ≤ count v w'.visited

  abbrev pub Ensures : (Walk → Type 0) → Visit → Type 0
  Ensures P (Visit.clear w) = P w
  Ensures P (Visit.cycle p) = IsCycle es p
  Ensures P Visit.out_of_fuel = ⊥

  pub record Pre (fuel : ℕ) (t : String) (w : Walk) : Type 0 where
    pub inv : Inv w
    pub walk : IsWalk es (w.stack ++ t ∷ [])
    pub known : 0 < count t ids
    pub fueled : length ids < fuel + length w.visiting

  -- A function that does what a call is to do, on walks with a given stack.
  abbrev pub Spec : List String → ℕ → (String → Walk → Visit) → Type 0
  Spec s fuel visit =
      (t : String) (w : Walk)
      → w.stack ≡ s
      → Pre fuel t w
      → Ensures (λ w'. Post w w' × (0 < count t w'.visited)) (visit t w)

  Post-trans : (u v w : Walk) → Post u v → Post v w → Post u w
  Post-trans u v w p q = record {
    inv = q.inv;
    same_visiting = q.same_visiting ∙ p.same_visiting;
    same_stack = q.same_stack ∙ p.same_stack;
    grows = λ x. omega (arith, p.grows x, q.grows x);
  }

  visit_all_lem :
      (s : List String) (fuel : ℕ) (visit : String → Walk → Visit)
      → Spec s fuel visit
      → (ts : List String) (w : Walk) → w.stack ≡ s
      → Inv w
      → length ids < fuel + length w.visiting
      → ((t : String) → 0 < count t ts → IsWalk es (w.stack ++ t ∷ []) × (0 < count t ids))
      → Ensures
          (λ w'. Post w w' × ((t : String) → 0 < count t ts → 0 < count t w'.visited))
          (visit_all visit ts w)
  unfolding visit_all
  visit_all_lem s fuel visit spec [] w on_s inv f h = (
    record { inv = inv; same_visiting = refl; same_stack = refl; grows = λ v. omega arith },
    λ t m. absurd (omega arith),
  )
  visit_all_lem s fuel visit spec (t ∷ ts) w on_s inv f h =
      go (visit t w) refl
        (spec t w on_s (record {
          inv = inv;
          walk = (h t (ground (arith, str_eq_refl t))).0;
          known = (h t (ground (arith, str_eq_refl t))).1;
          fueled = f;
        }))
        (λ w' p.
          visit_all_lem s fuel visit spec ts w' (p.same_stack ∙ on_s) p.inv (rw p.same_visiting f)
            (λ x m. rw p.same_stack (h x (omega arith))))
    where
      go :
          (r : Visit)
          → visit t w ≡ r
          → Ensures (λ w'. Post w w' × (0 < count t w'.visited)) r
          → ((w' : Walk)
              → Post w w'
              → Ensures
                  (λ w''. Post w' w'' × ((x : String) → 0 < count x ts → 0 < count x w''.visited))
                  (visit_all visit ts w'))
          → Ensures
              (λ w'. Post w w' × ((x : String) → 0 < count x (t ∷ ts) → 0 < count x w'.visited))
              (visit_all visit (t ∷ ts) w)
      go (Visit.cycle p) e c next = rw (e, visit_all) c
      go Visit.out_of_fuel e c next = absurd c
      go (Visit.clear w') e (post, found) next =
          rw (e, visit_all) (combine (visit_all visit ts w') (next w' post))
        where
          combine :
              (r : Visit)
              → Ensures
                  (λ w''. Post w' w'' × ((x : String) → 0 < count x ts → 0 < count x w''.visited))
                  r
              → Ensures
                  (λ w''.
                    Post w w'' × ((x : String) → 0 < count x (t ∷ ts) → 0 < count x w''.visited))
                  r
          combine (Visit.clear w'') (q, all_found) = (
            Post-trans w w' w'' post q,
            λ x m. ground (arith, found, q.grows x, q.grows t, eq_iff t x, all_found x),
          )
          combine (Visit.cycle p) c = c
          combine Visit.out_of_fuel c = c

  Inv-enter :
      (fuel : ℕ) (t : String) (w : Walk)
      → Pre fuel t w
      → count t w.visiting ≡ 0
      → count t w.visited ≡ 0
      → Inv (enter t w)
  Inv-enter fuel t w pre a b = record {
    closed = pre.inv.closed;
    visited_once = pre.inv.visited_once;
    tracked = λ v. omega (arith, pre.inv.tracked v, count-append v w.stack (t ∷ []));
    within = λ v. ground (arith, pre.inv.within v, eq_iff t v, pre.known);
    apart = λ v h. ground (arith, pre.inv.apart v, eq_iff t v);
  }

  Post-leave :
      (fuel : ℕ) (t : String) (w w' : Walk)
      → Pre fuel t w
      → count t w.visiting ≡ 0
      → count t w.visited ≡ 0
      → Post (enter t w) w'
      → ((b : String) → Edge es t b → 0 < count b w'.visited)
      → Post w (leave t w') × (0 < count t (leave t w').visited)
  Post-leave fuel t w w' pre a b post found =
      let visiting : (leave t w').visiting ≡ w.visiting =
        rw (post.same_visiting, str_eq_refl t) (filter-absent t w.visiting a) in
      let stack : (leave t w').stack ≡ w.stack = ap pop post.same_stack ∙ pop-concat w.stack t in
      let fresh : count t w'.visited ≡ 0 =
        post.inv.apart t (rw post.same_visiting (ground (arith, str_eq_refl t))) in
      (
        record {
          inv = record {
            closed = (found, post.inv.closed);
            visited_once = λ v. ground (arith, post.inv.visited_once v, fresh, eq_iff t v);
            tracked = λ v. rw (visiting, stack) (pre.inv.tracked v);
            within = λ v. rw visiting (pre.inv.within v);
            apart = λ v h.
                let hv : 0 < count v w.visiting = rw visiting at h in
                ground (
                  arith,
                  hv,
                  eq_iff t v,
                  post.inv.apart v,
                  ap (λ l. count v l) post.same_visiting,
                  a,
                );
          };
          same_visiting = visiting;
          same_stack = stack;
          grows = λ v. omega (arith, post.grows v);
        },
        ground (arith, str_eq_refl t),
      )

  pub get_cycle_path_lem :
      (fuel : ℕ) (t : String) (w : Walk)
      → Pre fuel t w
      → Ensures (λ w'. Post w w' × (0 < count t w'.visited)) (get_cycle_path fuel adjacency t w)
  unfolding get_cycle_path
  get_cycle_path_lem zero t w pre =
      absurd (omega (arith, pre.fueled, length-le_of_count w.visiting ids pre.inv.within))
  get_cycle_path_lem (suc fuel) t w pre = elim (Bool-cases (contains w.visiting t)) [
    | inl seen ↦
        rw (seen, get_cycle_path)
          (IsCycle-cycle_at es w.stack t pre.walk
            (omega (arith, pre.inv.tracked t, (contains-count t w.visiting).0 seen)))
    | inr new ↦ elim (Bool-cases (contains w.visited t)) [
      | inl old ↦
          rw (new, old, get_cycle_path)
            (
              record {
                inv = pre.inv;
                same_visiting = refl;
                same_stack = refl;
                grows = λ v. omega arith;
              },
              (contains-count t w.visited).0 old,
            )
      | inr fresh ↦
          rw (new, fresh, built t, get_cycle_path)
            (let a : count t w.visiting ≡ 0 = ground (arith, contains-count t w.visiting) in
              let b : count t w.visited ≡ 0 = ground (arith, contains-count t w.visited) in
              finish a b (visit_all (get_cycle_path fuel adjacency) (targets_of t es) (enter t w)) (
                visit_all_lem (w.stack ++ t ∷ []) fuel (get_cycle_path fuel adjacency)
                  (λ x v on_s p. get_cycle_path_lem fuel x v p) (targets_of t es) (enter t w) refl
                  (Inv-enter (suc fuel) t w pre a b) (omega (arith, pre.fueled))
                  (λ x m.
                    let e : Edge es t x = omega (arith, count-targets_of t x es) in
                    (IsWalk-extend es w.stack t x pre.walk e, inside t x e))))
    ]
  ]
    where
      finish :
          count t w.visiting ≡ 0
          → count t w.visited ≡ 0
          → (r : Visit)
          → Ensures
              (λ w'.
                Post (enter t w) w'
                × ((x : String) → 0 < count x (targets_of t es) → 0 < count x w'.visited))
              r
          → Ensures (λ w'. Post w w' × (0 < count t w'.visited)) (then_leave t r)
      finish a b (Visit.clear w') (post, all_found) =
          Post-leave (suc fuel) t w w' pre a b post
            (λ x e. all_found x (omega (arith, count-targets_of t x es)))
      finish a b (Visit.cycle p) c = c
      finish a b Visit.out_of_fuel c = c

  -- The search of the whole graph: no fuel runs out, a path that it reports is a cycle of the graph,
  -- and otherwise the visited nodes are all nodes, each behind the nodes that its edges lead to.
  pub find_cycle_lem :
      Ensures
        (λ w.
          IsClosed es w.visited
          × ((v : String) → count v w.visited ≤ 1)
          × ((v : String) → 0 < count v ids → 0 < count v w.visited))
        (find_cycle (suc (length ids)) adjacency ids no_walk)
  unfolding find_cycle
  find_cycle_lem =
      finish (visit_all visit ids no_walk)
        (visit_all_lem [] fuel visit spec ids no_walk refl inv (omega arith) (λ t m. (tt, m)))
    where
      fuel : ℕ
      fuel = suc (length ids)

      visit : String → Walk → Visit
      visit id v = get_cycle_path fuel adjacency id (record v { stack = [] })

      spec : Spec [] fuel visit
      spec t w e pre =
          let same : record w { stack = [] } ≡ w = (λ i. record w { stack = sym e i }) in
          subst
            (λ u.
              Ensures (λ w'. Post w w' × (0 < count t w'.visited))
                (get_cycle_path fuel adjacency t u))
            (sym same) (get_cycle_path_lem fuel t w pre)

      inv : Inv no_walk
      inv = record {
        closed = tt;
        visited_once = λ v. omega arith;
        tracked = λ v. refl;
        within = λ v. omega arith;
        apart = λ v h. refl;
      }

      finish :
          (r : Visit)
          → Ensures
              (λ w'. Post no_walk w' × ((x : String) → 0 < count x ids → 0 < count x w'.visited))
              r
          → Ensures
              (λ w.
                IsClosed es w.visited
                × ((v : String) → count v w.visited ≤ 1)
                × ((v : String) → 0 < count v ids → 0 < count v w.visited))
              r
      finish (Visit.clear w') (post, found) = (post.inv.closed, post.inv.visited_once, found)
      finish (Visit.cycle p) c = c
      finish Visit.out_of_fuel c = c
