-- ===== src/Cluster.antt =====
-- globocom/docker-cluster/cluster: the scheduler of containers over nodes (scheduler.go), the cluster
-- (cluster.go), and its operations on containers and images (container.go, image.go). The clients of
-- the nodes and the storage are parameters over a world of any type.
pub mod Rounds
pub mod Broadcast
pub mod Containers
pub mod Routing
pub mod Examples
use docker_stuff.Base.{
  ℕ, zero, suc, ◌+◌, ◌-◌, ◌%◌, ◌^◌, ltb, ◌==◌, if◌then◌else◌, Bool, true, false, List, [], ◌∷◌,
  ◌++◌, Option, none, some, Bytes, length, get_elem?,
}
use docker_stuff.Text.Split.{eq_bytes}

pub record Node : Type 0 where
  pub id : Bytes
  pub address : Bytes

-- `roundRobin`. `last_used` is an int64, as a pattern of bits.
pub record RoundRobin : Type 0 where
  pub nodes : List Node
  pub last_used : ℕ

-- `roundRobin{lastUsed: -1}`
abbrev pub round_robin : RoundRobin
round_robin = record { nodes = []; last_used = 2 ^ 64 - 1 }

-- The index of `next`: the remainder of a negative number is negative or 0, and a negative index
-- panics: `none`.
abbrev pub index_of : ℕ → ℕ → Option ℕ
index_of last len =
    if ltb last (2 ^ 63)
    then some (last % len)
    else if (2 ^ 64 - last) % len == 0
    then some 0
    else none

abbrev pub node_at : List Node → Option ℕ → Option Node
node_at nodes none = none
node_at nodes (some i) = get_elem? nodes i

-- `next`: `none` is a panic.
unfoldable pub next : RoundRobin → Option Node × RoundRobin
next s =
    let last = (s.last_used + 1) % 2 ^ 64 in
    let chosen = node_at s.nodes (index_of last (length s.nodes)) in
    if length s.nodes == 0 then (none, s) else (chosen, record s { last_used = last })

-- The loop of `Register`, which ends at an address that is no endpoint: whether it came to the end.
unfoldable pub append_nodes : (Bytes → Bool) → List Node → List Node → Bool × List Node
append_nodes valid [] nodes = (true, nodes)
append_nodes valid (n ∷ more) nodes =
    let rest = append_nodes valid more (nodes ++ n ∷ []) in
    if valid n.address then rest else (false, nodes)

-- `Register`
unfoldable pub register : (Bytes → Bool) → List Node → RoundRobin → Bool × RoundRobin
unfolding append_nodes
register valid more s =
    let (ok, nodes) = append_nodes valid more s.nodes in
    (
      ok,
      record { nodes = nodes; last_used = if length s.nodes == 0 then 2 ^ 64 - 1 else s.last_used },
    )

-- What `Schedule` returns: the identifier of the node, with the container or an error.
pub data Scheduled (C : Type 0) : Type 0 where
  scheduled : Bytes → C → Scheduled C
  schedule_failed : Bytes → Scheduled C
  schedule_panic : Scheduled C

-- The interfaces `Scheduler` and `Registrable`; a scheduler that is not Registrable has no `add`.
pub record Scheduler (W C : Type 0) : Type 0 where
  pub schedule : W → Scheduled C × W
  pub nodes : W → Option (List Node)
  pub add : Option (List Node → W → Bool × W)

abbrev pub created :
    {D C : Type 0} → Bytes → RoundRobin → Option C × D → Scheduled C × (RoundRobin × D)
created id s (none, d) = (schedule_failed id, (s, d))
created id s (some x, d) = (scheduled id x, (s, d))

module _ {D C : Type 0} (valid : Bytes → Bool) (create : Node → D → Option C × D) where
  -- `roundRobin.Schedule`
  unfoldable pub schedule : RoundRobin × D → Scheduled C × (RoundRobin × D)
  unfolding next
  schedule (s, d) =
      let (chosen, s') = next s in
      elim chosen [ none ↦ (schedule_panic, (s', d)) | some n ↦ created n.id s' (create n d) ]

  -- A round robin is a scheduler of the state of the clients beside its own.
  abbrev pub rounds : Scheduler (RoundRobin × D) C
  rounds = record {
    schedule = schedule;
    nodes = λ w. some w.0.nodes;
    add = some (λ more w. let (ok, s) = register valid more w.0 in (ok, (s, w.1)));
  }

pub data ClusterError : Type 0 where
  unknown_node immutable_cluster storage_disabled retrieve_failed nodes_failed register_failed :
      ClusterError

-- `Cluster.Register`
abbrev pub register_nodes : {W C : Type 0} → Scheduler W C → List Node → W → Option ClusterError × W
register_nodes s more w = elim s.add [
  | none ↦ (some immutable_cluster, w)
  | some add ↦ let (ok, w') = add more w in (if ok then none else some register_failed, w')
]

-- `New`
abbrev pub new_cluster : {W C : Type 0} → Scheduler W C → List Node → W → Option ClusterError × W
new_cluster s [] w = (none, w)
new_cluster s (n ∷ more) w = register_nodes s (n ∷ more) w

-- The interface `Storage`.
pub record Storage (W : Type 0) : Type 0 where
  pub store_container : Bytes → Bytes → W → Bool × W
  pub retrieve_container : Bytes → W → Option Bytes
  pub remove_container : Bytes → W → Bool × W
  pub store_image : Bytes → Bytes → W → Bool × W
  pub retrieve_image : Bytes → W → Option Bytes

-- The loop of `getNode`
unfoldable pub node_with : Bytes → List Node → Option Node
unfolding eq_bytes
node_with id [] = none
node_with id (n ∷ nodes) =
    let rest = node_with id nodes in if eq_bytes n.id id then some n else rest

pub data Located : Type 0 where
  at_node : Node → Located
  not_located : ClusterError → Located

abbrev pub looked_up : Option Node → Located
looked_up none = not_located unknown_node
looked_up (some n) = at_node n

-- `getNode`, for a way to retrieve the identifier of a node.
unfoldable pub get_node :
    {W C : Type 0}
    → Scheduler W C
    → Option (Storage W)
    → (Storage W → W → Option Bytes)
    → W
    → Located
unfolding node_with
get_node s none retrieve w = not_located storage_disabled
get_node s (some st) retrieve w = elim (retrieve st w) [
  | none ↦ not_located retrieve_failed
  | some id ↦ elim (s.nodes w) [
    | none ↦ not_located nodes_failed
    | some nodes ↦ looked_up (node_with id nodes)
  ]
]
