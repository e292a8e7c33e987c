-- ===== src/Dag/Cycle.antt =====
-- `getCyclePath`, and the loop of `validateDag` that calls it for each node.
pub mod Walks
pub mod Search
use birthub_360_innovation.Base.{
  ℕ, zero, suc, String, List, [], ◌∷◌, ◌++◌, Option, none, some, if◌then◌else◌, get_or, not, str_eq,
  filter, contains, Dict, lookup,
}

-- `visiting`, `visited` and `stack`, which the calls share. A set is the list of its members, the
-- newest first; the stack is listed from its bottom.
pub record Walk : Type 0 where
  pub visiting : List String
  pub visited : List String
  pub stack : List String

-- `null` with the sets as the call leaves them, or the path that ends the whole search.
pub data Visit : Type 0 where
  clear : Walk → Visit
  cycle : List String → Visit
  out_of_fuel : Visit

-- `stack.slice(stack.indexOf(id))`, or nothing where `indexOf` answers -1.
unfoldable pub slice_from : String → List String → Option (List String)
slice_from id [] = none
slice_from id (x ∷ xs) = if str_eq x id then some (x ∷ xs) else slice_from id xs

unfoldable pub cycle_at : String → List String → List String
cycle_at id stack = elim (slice_from id stack) [ none ↦ id ∷ id ∷ [] | some s ↦ s ++ id ∷ [] ]

-- `stack.pop()`
unfoldable pub pop : List String → List String
pop [] = []
pop (x ∷ []) = []
pop (x ∷ y ∷ xs) = x ∷ pop (y ∷ xs)

abbrev pub enter : String → Walk → Walk
enter id w = record w { visiting = id ∷ w.visiting; stack = w.stack ++ id ∷ [] }

abbrev pub leave : String → Walk → Walk
leave id w = record {
  visiting = filter (λ x. not (str_eq x id)) w.visiting;
  visited = id ∷ w.visited;
  stack = pop w.stack;
}

abbrev pub then_leave : String → Visit → Visit
then_leave id (clear w) = clear (leave id w)
then_leave id (cycle p) = cycle p
then_leave id out_of_fuel = out_of_fuel

-- The `for` loop over the targets, over the recursive call.
unfoldable pub visit_all : (String → Walk → Visit) → List String → Walk → Visit
visit_all visit [] w = clear w
visit_all visit (t ∷ ts) w = elim (visit t w) [
  | clear w' ↦ visit_all visit ts w'
  | cycle p ↦ cycle p
  | out_of_fuel ↦ out_of_fuel
]

unfoldable pub get_cycle_path : ℕ → Dict (List String) → String → Walk → Visit
get_cycle_path zero adjacency id w = out_of_fuel
get_cycle_path (suc fuel) adjacency id w =
    let deeper =
      then_leave id (
        visit_all (get_cycle_path fuel adjacency) (get_or (lookup id adjacency) []) (enter id w)) in
    if contains w.visiting id
    then cycle (cycle_at id w.stack)
    else if contains w.visited id
    then clear w
    else deeper

-- Each node starts with an empty stack; the sets go on from node to node.
unfoldable pub find_cycle : ℕ → Dict (List String) → List String → Walk → Visit
find_cycle fuel adjacency ids w =
    visit_all (λ id v. get_cycle_path fuel adjacency id (record v { stack = [] })) ids w

abbrev pub no_walk : Walk
no_walk = record { visiting = []; visited = []; stack = [] }
