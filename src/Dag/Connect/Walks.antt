-- ===== src/Dag/Connect/Walks.antt =====
-- `assertConnectedFromRoot` against the walks of the graph.
use birthub_360_innovation.Base.{
  ℕ, zero, suc, ◌+◌, ◌≤◌, ◌<◌, String, false, ◌||◌, not, List, [], ◌∷◌, some, ◌≡◌, ◌≢◌, refl, ap,
  ◌∙◌, subst, ◌⊎◌, inl, inr, arith, if◌then◌else◌, get_or, Bool-cases, Option-cases, str_eq, eq_iff,
  str_eq_refl, str_eq_sym, length, filter, count, contains, contains-count, Dict, lookup,
}
use birthub_360_innovation.Base.{count-eq_of_length}
use birthub_360_innovation.Base.Result.{ok, err}
use birthub_360_innovation.Dag.{DagEdge, GraphError}
use birthub_360_innovation.Dag.Graph.{targets_of, Edge, Reach, here, step, count-targets_of}
use birthub_360_innovation.Dag.Connect.{push_targets, reach_loop, assert_connected_from_root}

-- How many edges leave nodes outside the list.
abbrev pending : List String → List DagEdge → ℕ
pending l [] = 0
pending l (e ∷ es) = (if contains l e.source then 0 else 1) + pending l es

pending-expand :
    (l : List String) (n : String) (es : List DagEdge)
    → contains l n ≡ false
    → length (targets_of n es) + pending (n ∷ l) es ≡ pending l es
pending-expand l n [] h = refl
pending-expand l n (e ∷ es) h = elim (Bool-cases (str_eq e.source n)) [
  | inl same ↦
      let k : contains l e.source ≡ false = ap (contains l) ((eq_iff e.source n).0 same) ∙ h in
      ground (arith, pending-expand l n es h, str_eq_sym n e.source, same, k)
  | inr other ↦ ground (arith, pending-expand l n es h, str_eq_sym n e.source, other)
]

pending-le : (l : List String) (es : List DagEdge) → pending l es ≤ length es
pending-le l [] = omega arith
pending-le l (e ∷ es) = ground (arith, pending-le l es)

length-push_targets : (l ts s : List String) → length (push_targets l ts s) ≤ length ts + length s
unfolding push_targets
length-push_targets l [] s = omega arith
length-push_targets l (t ∷ ts) s =
    ground (arith, length-push_targets l ts (if contains l t then s else t ∷ s))

mem-push_targets :
    (l ts s : List String) (v : String)
    → 0 < count v (push_targets l ts s)
    → (0 < count v ts) ⊎ (0 < count v s)
unfolding push_targets
mem-push_targets l [] s v h = inr h
mem-push_targets l (t ∷ ts) s v h =
    ground (arith, mem-push_targets l ts (if contains l t then s else t ∷ s) v)

module _ (es : List DagEdge) (ids : List String) (adjacency : Dict (List String))
    (built : (n : String) → get_or (lookup n adjacency) [] ≡ targets_of n es)
    (into : (a v : String) → Edge es a v → 0 < count v ids) (root : String)
    (known : 0 < count root ids) where
  -- What holds of the set in each round.
  record Inv (stack reachable : List String) : Type 0 where
    listed : (v : String) → count v reachable ≤ 1
    within : (v : String) → 0 < count v reachable → 0 < count v ids
    queued : (v : String) → 0 < count v stack → 0 < count v ids
    sound : (v : String) → 0 < count v reachable → Reach es root v
    promised : (v : String) → 0 < count v stack → Reach es root v

  Inv-expand :
      (id : String) (stack l : List String)
      → Inv (id ∷ stack) l
      → contains l id ≡ false
      → Inv (push_targets (id ∷ l) (targets_of id es) stack) (id ∷ l)
  Inv-expand id stack l inv new = record {
    listed = λ v. ground (arith, inv.listed v, eq_iff id v, contains-count id l);
    within = λ v h. ground (arith, inv.within v, inv.queued id, str_eq_refl id, eq_iff id v);
    queued = λ v h. ground (
      arith,
      inv.queued v,
      mem-push_targets (id ∷ l) (targets_of id es) stack v h,
      count-targets_of id v es,
      into id v,
    );
    sound = λ v h. elim (Bool-cases (str_eq id v)) [
      | inl same ↦ subst (Reach es root) ((eq_iff id v).0 same) at_id
      | inr other ↦ inv.sound v (ground arith)
    ];
    promised = λ v h. elim (mem-push_targets (id ∷ l) (targets_of id es) stack v h) [
      | inl target ↦ step at_id (omega (arith, count-targets_of id v es))
      | inr old ↦ inv.promised v (omega arith)
    ];
  }
    where
      at_id : Reach es root id
      at_id = inv.promised id (ground (arith, str_eq_refl id))

  Inv-skip : (id : String) (stack l : List String) → Inv (id ∷ stack) l → Inv stack l
  Inv-skip id stack l inv = record {
    listed = inv.listed;
    within = inv.within;
    sound = inv.sound;
    queued = λ v h. inv.queued v (omega arith);
    promised = λ v h. inv.promised v (omega arith);
  }

  reach_loop_lem :
      (fuel : ℕ) (stack l : List String)
      → Inv stack l
      → length stack + pending l es ≤ fuel
      → (r : List String) × (reach_loop fuel adjacency stack l ≡ some r) × Inv [] r
  unfolding reach_loop
  reach_loop_lem zero [] l inv h = (l, refl, inv)
  reach_loop_lem (suc fuel) [] l inv h = (l, refl, inv)
  reach_loop_lem zero (id ∷ stack) l inv h = absurd (omega arith)
  reach_loop_lem (suc fuel) (id ∷ stack) l inv h =
      elim (Bool-cases (str_eq id "" || contains l id)) [
        | inl skip ↦
            rw (skip, reach_loop)
              (reach_loop_lem fuel stack l (Inv-skip id stack l inv) (omega arith))
        | inr go ↦
            let new : contains l id ≡ false = ground arith in
            let ts = targets_of id es in
            rw (go, built id, reach_loop)
              (reach_loop_lem fuel (push_targets (id ∷ l) ts stack) (id ∷ l)
                (Inv-expand id stack l inv new)
                (omega (arith, pending-expand l id es new, length-push_targets (id ∷ l) ts stack)))
      ]

  -- The loop of `assertConnectedFromRoot` ends within one round more than there are edges; if the
  -- function does not throw, a walk leads from the root to every node.
  pub assert_connected_lem :
      ((v : String) → count v ids ≤ 1)
      → (assert_connected_from_root (suc (length es)) root adjacency ids
          ≢ err GraphError.out_of_fuel)
        × (assert_connected_from_root (suc (length es)) root adjacency ids ≡ ok tt
            → (v : String) → 0 < count v ids
            → Reach es root v)
  unfolding assert_connected_from_root
  assert_connected_lem once =
      let start : Inv (root ∷ []) [] = record {
        listed = λ v. omega arith;
        within = λ v h. absurd (omega arith);
        queued = λ v h. ground (arith, eq_iff root v);
        sound = λ v h. absurd (omega arith);
        promised = λ v h. subst (Reach es root) ((eq_iff root v).0 (ground arith)) here;
      } in
      let (r, e, inv) =
        reach_loop_lem (suc (length es)) (root ∷ []) [] start (omega (arith, pending-le [] es)) in
      rw (e, assert_connected_from_root)
        (
          ground arith,
          λ h v m. inv.sound v (
              ground (
                arith,
                m,
                count-eq_of_length r ids (λ w. ground (arith, inv.listed w, inv.within w))
                    (ground arith) v,
              )),
        )

-- What the function may throw.
pub assert_connected_err :
    (fuel : ℕ) (root : String) (adjacency : Dict (List String)) (ids : List String) (e : GraphError)
    → assert_connected_from_root fuel root adjacency ids ≡ err e
    → (e ≡ GraphError.out_of_fuel) ⊎ ((l : List String) × (e ≡ GraphError.unreachable root l))
unfolding assert_connected_from_root
assert_connected_err fuel root adjacency ids e h =
    elim (Option-cases (reach_loop fuel adjacency (root ∷ []) [])) [
      | inl stopped ↦ inl (ground arith)
      | inr (r, ended) ↦ inr (
        filter (λ i. not (contains r i)) ids,
        ground (arith, rw (ended, assert_connected_from_root) at h),
      )
    ]
