-- ===== src/Dag/Connect.antt =====
-- `assertConnectedFromRoot`.
pub mod Walks
use birthub_360_innovation.Base.{
  ℕ, zero, suc, String, ◌||◌, List, [], ◌∷◌, Option, none, some, ◌==◌, if◌then◌else◌, get_or, not,
  str_eq, length, filter, contains, Dict, lookup,
}
use birthub_360_innovation.Base.Result.{Result, err, throw_if}
use birthub_360_innovation.Dag.{GraphError, unreachable, out_of_fuel}

-- The inner loop. The stack is listed from its top.
unfoldable pub push_targets : List String → List String → List String → List String
push_targets reachable [] stack = stack
push_targets reachable (t ∷ ts) stack =
    push_targets reachable ts (if contains reachable t then stack else t ∷ stack)

-- The `while` loop: the set of reachable ids, the newest first. `none`: the fuel ran out.
unfoldable pub reach_loop :
    ℕ → Dict (List String) → List String → List String → Option (List String)
reach_loop zero adjacency [] reachable = some reachable
reach_loop zero adjacency (id ∷ stack) reachable = none
reach_loop (suc fuel) adjacency [] reachable = some reachable
reach_loop (suc fuel) adjacency (id ∷ stack) reachable =
    let skip = reach_loop fuel adjacency stack reachable in
    let expand =
      reach_loop fuel adjacency
        (push_targets (id ∷ reachable) (get_or (lookup id adjacency) []) stack) (id ∷ reachable) in
    if str_eq id "" || contains reachable id then skip else expand

unfoldable pub assert_connected_from_root :
    ℕ → String → Dict (List String) → List String → Result GraphError (Unit {0})
assert_connected_from_root fuel root adjacency ids =
    elim (reach_loop fuel adjacency (root ∷ []) []) [
      | none ↦ err out_of_fuel
      | some reachable ↦
          throw_if (not (length reachable == length ids))
            (unreachable root (filter (λ i. not (contains reachable i)) ids))
    ]
