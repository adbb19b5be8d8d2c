-- ===== src/Dependencies.antt =====
-- `DependencyGraph` of dotcloud/docker/utils/utils.go. A node is its number: the code compares the
-- names of nodes, and their addresses, for equality only, and a graph has one node for a name. The
-- set of dependencies of a node is a list without a node twice, and the set of processed nodes too.
pub mod Schedule
pub mod Build
pub mod Examples
use docker_stuff.Base.{
  ℕ, zero, suc, ◌==◌, ltb, if◌then◌else◌, Bool, true, false, not, List, [], ◌∷◌, ◌++◌, Option, none,
  some, length, contains, insert,
}

pub record DependencyGraph : Type 0 where
  pub nodes : List ℕ
  pub deps : ℕ → List ℕ

pub data DependencyError : Type 0 where
  not_in_graph : DependencyError
  forbidden_loop : DependencyError

unfoldable pub new_dependency_graph : DependencyGraph
new_dependency_graph = record { nodes = []; deps = λ n. [] }

unfoldable pub new_node : ℕ → DependencyGraph → DependencyGraph
new_node id g =
    if contains g.nodes id
    then g
    else record { nodes = id ∷ g.nodes; deps = λ n. if id == n then [] else g.deps n }

unfoldable pub add_dependency : ℕ → ℕ → DependencyGraph → Option DependencyError × DependencyGraph
add_dependency node to g =
    if not (contains g.nodes node)
    then (some not_in_graph, g)
    else if not (contains g.nodes to)
    then (some not_in_graph, g)
    else if node == to
    then (some forbidden_loop, g)
    else (none, record g { deps = λ n. if node == n then insert (g.deps n) to else g.deps n })

-- The loop over the dependencies of a node.
unfoldable pub all_processed : List ℕ → List ℕ → Bool
all_processed [] processed = true
all_processed (d ∷ ds) processed =
    if contains processed d then all_processed ds processed else false

-- Whether a node goes into the round, by the tests in their order.
unfoldable pub is_ready : DependencyGraph → List ℕ → ℕ → Bool
is_ready g processed node =
    if ltb (length processed) (length (g.deps node))
    then false
    else if contains processed node
    then false
    else if length (g.deps node) == 0
    then true
    else all_processed (g.deps node) processed

unfoldable pub available : DependencyGraph → List ℕ → List ℕ → List ℕ
available g processed [] = []
available g processed (n ∷ nodes) =
    let rest = available g processed nodes in if is_ready g processed n then n ∷ rest else rest

-- `running` is a loop that is out of fuel.
pub data Traversal : Type 0 where
  found : List (List ℕ) → Traversal
  no_solution : Traversal
  running : Traversal

-- A round in front of those of the rest of the loop.
unfoldable pub put_round : List ℕ → Traversal → Traversal
put_round [] rest = no_solution
put_round (n ∷ round) (found rounds) = found ((n ∷ round) ∷ rounds)
put_round (n ∷ round) no_solution = no_solution
put_round (n ∷ round) running = running

-- `processed[node] = true`, for the nodes of a round.
unfoldable pub mark : List ℕ → List ℕ → List ℕ
unfolding insert
mark processed [] = processed
mark processed (n ∷ round) = mark (insert processed n) round

unfoldable pub traverse : ℕ → DependencyGraph → List ℕ → Traversal
unfolding mark
traverse zero g processed = if ltb (length processed) (length g.nodes) then running else found []
traverse (suc fuel) g processed =
    let round = available g processed g.nodes in
    let rest = traverse fuel g (mark processed round) in
    if ltb (length processed) (length g.nodes) then put_round round rest else found []

-- Every round takes a new node at least, so that the number of nodes is enough fuel.
unfoldable pub generate_traversal_map : DependencyGraph → Traversal
generate_traversal_map g = traverse (length g.nodes) g []
