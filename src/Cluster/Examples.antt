-- ===== src/Cluster/Examples.antt =====
-- A cluster of two nodes, on which containers are named by their numbers.
use docker_stuff.Base.{
  ℕ, suc, ◌-◌, ◌^◌, ◌≡◌, ◌↔◌, refl, ap, ◌∙◌, if◌then◌else◌, Bool, true, false, List, [], ◌∷◌,
  Option, none, some, Bytes, get_elem?, arith,
}
use docker_stuff.Text.Split.{eq_bytes, eq_bytes_iff}
use docker_stuff.TagStore.Tables.{find, put, erase}
use docker_stuff.TagStore.Lookups.{find-put}
use docker_stuff.Cluster.{
  Node, RoundRobin, round_robin, next, register, append_nodes, scheduled, schedule, rounds, Storage,
}
use docker_stuff.Cluster.Rounds.{after_turns, next-after_turns}
use docker_stuff.Cluster.Broadcast.{
  Reply, value, expected_error, other_error, error_not_found, Returns,
}
use docker_stuff.Cluster.Broadcast.Queues.{In}
use docker_stuff.Cluster.Broadcast.Outcomes.{Allowed, Returns-Allowed}
use docker_stuff.Cluster.Containers.{Broadcasting, create_container, on_container, reply}
use docker_stuff.Cluster.Routing.{Remembers, create_container-routed}

abbrev first_node : Node
first_node = record { id = b'1' ∷ []; address = [] }

abbrev second_node : Node
second_node = record { id = b'2' ∷ []; address = [] }

abbrev two : RoundRobin
two = (register (λ a. true) (first_node ∷ second_node ∷ []) round_robin).1

abbrev turns : RoundRobin
turns = record { nodes = first_node ∷ second_node ∷ []; last_used = 2 ^ 64 - 1 }

registered : two ≡ turns
unfolding register append_nodes
registered = refl

next-after_turns_example :
    (n : Node) × (get_elem? turns.nodes 1 ≡ some n) × ((next (after_turns 3 turns)).0 ≡ some n)
next-after_turns_example = next-after_turns 3 turns refl refl (omega arith)

-- Without `wait`, the error of the second node may be lost.
abbrev replies : List (Reply ℕ ℕ)
replies = expected_error ∷ other_error 7 ∷ []

Returns-Allowed_example :
    Returns replies false error_not_found ↔ Allowed replies false error_not_found
Returns-Allowed_example = Returns-Allowed replies false error_not_found

-- The clients as the number of the containers so far, with the nodes of the containers.
abbrev World : Type 0
World = RoundRobin × (ℕ × List (Bytes × Bytes))

abbrev made : Node → ℕ × List (Bytes × Bytes) → Option ℕ × (ℕ × List (Bytes × Bytes))
made n (count, table) = (some count, (suc count, table))

abbrev name_of : ℕ → Bytes
name_of n = n ∷ []

abbrev table : Storage World
table = record {
  store_container = λ k id w. (true, (w.0, (w.1.0, put k id w.1.1)));
  retrieve_container = λ k w. find k w.1.1;
  remove_container = λ k w. (true, (w.0, (w.1.0, erase k w.1.1)));
  store_image = λ k id w. (true, w);
  retrieve_image = λ k w. none;
}

abbrev valid : Bytes → Bool
valid a = true

table-Remembers : Remembers valid made table
table-Remembers = record {
  kept = λ k id w e.
      find-put k k id w.1.1
      ∙ ap (λ (b : Bool). if b then some id else find k w.1.1) ((eq_bytes_iff k k).1 refl);
  apart = λ k id w. refl;
}

abbrev alone : Broadcasting World ℕ
alone V call wait nodes w = (error_not_found, w)

abbrev turned : World
turned = (record turns { last_used = 0 }, (4, []))

schedules : schedule valid made (turns, (3, [])) ≡ (scheduled first_node.id 3, turned)
unfolding schedule next
schedules = refl

abbrev asked : Node → World → Reply Bytes ℕ × World
asked n w = (value n.id, w)

create_container-routed_example :
    (n : Node) × In n turns.nodes
    × ((made n (3, [])).0 ≡ some 3)
    × (create_container (rounds valid made) (some table) name_of (turns, (3, []))
        ≡ (scheduled n.id 3, (table.store_container (name_of 3) first_node.id turned).1))
    × (on_container
          (rounds valid made)
          (some table)
          alone
          (name_of 3)
          asked
          (table.store_container (name_of 3) first_node.id turned).1
        ≡ reply (asked n (table.store_container (name_of 3) first_node.id turned).1))
unfolding eq_bytes
create_container-routed_example =
    create_container-routed valid made table alone table-Remembers name_of asked turns (3, [])
      first_node.id 3 turned ((refl, tt), (tt, tt)) schedules refl
