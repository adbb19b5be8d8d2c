-- ===== src/Dependencies/Examples.antt =====
-- A graph of three nodes in a row.
use docker_stuff.Base.{◌==◌, ◌≡◌, ◌≢◌, refl, if◌then◌else◌, [], ◌∷◌, contains, insert, arith}
use docker_stuff.Dependencies.{
  DependencyGraph, all_processed, is_ready, available, found, running, put_round, mark, traverse,
  generate_traversal_map,
}
use docker_stuff.Dependencies.Schedule.{
  IsSchedule, generate_traversal_map-IsSchedule, generate_traversal_map-ne-running,
}
use docker_stuff.Dependencies.Build.{IsGraph}

-- 3 depends on 2, and 2 on 1.
abbrev row : DependencyGraph
row = record {
  nodes = 3 ∷ 2 ∷ 1 ∷ [];
  deps = λ n. if n == 3 then 2 ∷ [] else if n == 2 then 1 ∷ [] else [];
}

row_found : generate_traversal_map row ≡ found ((1 ∷ []) ∷ (2 ∷ []) ∷ (3 ∷ []) ∷ [])
unfolding generate_traversal_map traverse mark insert put_round available is_ready all_processed
    contains
row_found = refl

generate_traversal_map-IsSchedule_example : IsSchedule row [] ((1 ∷ []) ∷ (2 ∷ []) ∷ (3 ∷ []) ∷ [])
generate_traversal_map-IsSchedule_example =
    generate_traversal_map-IsSchedule row ((1 ∷ []) ∷ (2 ∷ []) ∷ (3 ∷ []) ∷ []) row_found

generate_traversal_map-ne-running_example : generate_traversal_map row ≢ running
generate_traversal_map-ne-running_example = generate_traversal_map-ne-running row

row-IsGraph : IsGraph row
unfolding contains
row-IsGraph = record { inside = λ n d c. ground arith; no_loop = λ n. ground arith }
