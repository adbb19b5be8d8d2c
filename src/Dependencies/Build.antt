-- ===== src/Dependencies/Build.antt =====
-- The graphs that `NewNode` and `AddDependency` build.
use docker_stuff.Base.{
  ℕ, ◌==◌, ◌≡◌, refl, sym, if◌then◌else◌, Bool, true, false, not, contains, insert, Option, none,
  some, arith, Bool-cases, inl, inr, contains-insert, ==_iff, if_true, if_false,
}
use mathlib.Core.Path.{subst}
use docker_stuff.Dependencies.{
  DependencyGraph, new_node, add_dependency, DependencyError, not_in_graph, forbidden_loop,
}

-- The dependencies of a node are nodes of the graph, and never the node itself.
pub record IsGraph (g : DependencyGraph) : Type 0 where
  pub inside : (n d : ℕ) → contains (g.deps n) d ≡ true → contains g.nodes d ≡ true
  pub no_loop : (n : ℕ) → contains (g.deps n) n ≡ false

new_node-IsGraph : (id : ℕ) (g : DependencyGraph) → IsGraph g → IsGraph (new_node id g)
unfolding new_node contains
new_node-IsGraph id g h = elim (Bool-cases (contains g.nodes id)) [
  | inl known ↦ subst IsGraph (sym (if_true _ _ known)) h
  | inr new ↦ subst IsGraph (sym (if_false _ _ new)) (record {
    inside = λ n d c. ground (arith, h.inside n d);
    no_loop = λ n. ground (arith, h.no_loop n);
  })
]

add_dependency-IsGraph :
    (node to : ℕ) (g : DependencyGraph) → IsGraph g → IsGraph (add_dependency node to g).1
unfolding add_dependency
add_dependency-IsGraph node to g h =
    by_tests (contains g.nodes node) (contains g.nodes to) (node == to) refl refl
  where
    added : DependencyGraph
    added = record g { deps = λ n. if node == n then insert (g.deps n) to else g.deps n }

    by_tests :
        (a b c : Bool)
        → contains g.nodes to ≡ b
        → (node == to) ≡ c
        → (λ (r : Option DependencyError × DependencyGraph). IsGraph r.1)
            (if not a
              then (some not_in_graph, g)
              else if not b
              then (some not_in_graph, g)
              else if c
              then (some forbidden_loop, g)
              else (none, added))
    by_tests false b c eb ec = h
    by_tests true false c eb ec = h
    by_tests true true true eb ec = h
    by_tests true true false eb ec = record {
      inside = λ n d c. ground (arith, h.inside n d, contains-insert (g.deps n) to d, ==_iff to d);
      no_loop = λ n. ground (arith, h.no_loop n, contains-insert (g.deps n) to n, ==_iff to n);
    }

-- NewNode and AddDependency keep it so that all dependencies of nodes are nodes of the graph and
-- no node depends on itself.
build-IsGraph :
    (g : DependencyGraph) (id node to : ℕ)
    → IsGraph g
    → IsGraph (new_node id g) × IsGraph (add_dependency node to g).1
build-IsGraph g id node to h = (new_node-IsGraph id g h, add_dependency-IsGraph node to g h)
