-- ===== src/Cluster/Containers.antt =====
-- The operations of container.go and image.go. A broadcast is a parameter, whose outcomes are those
-- of Broadcast.antt; the error of a storage that is ignored is left out.
use docker_stuff.Base.{ℕ, ◌++◌, Bool, false, List, [], ◌∷◌, Option, none, some, Bytes}
use docker_stuff.Cluster.{
  Node, Scheduler, Scheduled, scheduled, schedule_failed, schedule_panic, Storage, ClusterError,
  storage_disabled, nodes_failed, Located, at_node, not_located, get_node,
}
use docker_stuff.Cluster.Broadcast.{
  Reply, value, status_not_found, expected_error, other_error, Outcome,
}

-- Who answered: one node, all of them, or the cluster itself.
pub data Response (V E : Type 0) : Type 0 where
  from_node : Reply V E → Response V E
  from_all : Outcome V E → Response V E
  from_cluster : ClusterError → Response V E

-- The calls of the client for a node; `act` is one without a value: kill, start, stop, restart, attach.
pub record Client (W C I E : Type 0) : Type 0 where
  pub inspect : Bytes → Node → W → Reply C E × W
  pub act : ℕ → Bytes → Node → W → Reply (Unit {0}) E × W
  pub wait : Bytes → Node → W → Reply ℕ E × W
  pub remove : Bytes → Node → W → Reply (Unit {0}) E × W
  pub commit : Bytes → Node → W → Reply I E × W
  pub export : Bytes → Node → W → Reply (Unit {0}) E × W
  pub image_act : ℕ → Bytes → Node → W → Reply (Unit {0}) E × W
  pub list : Node → W → Reply (List C) E × W

-- `runOnNodes` on the nodes, for a call, with `wait` or without.
abbrev pub Broadcasting : Type 0 → Type 0 → Type 1
Broadcasting W E =
    (V : Type 0) → (Node → W → Reply V E × W) → Bool → List Node → W → Outcome V E × W

-- What `CreateContainer` stores: the node of a container.
abbrev pub remembered :
    {W C : Type 0} → Option (Storage W) → (C → Bytes) → Scheduled C × W → Scheduled C × W
remembered none id_of t = t
remembered (some st) id_of (scheduled id c, w) =
    (scheduled id c, (st.store_container (id_of c) id w).1)
remembered (some st) id_of (schedule_failed id, w) = (schedule_failed id, w)
remembered (some st) id_of (schedule_panic, w) = (schedule_panic, w)

abbrev outcome : {W V E : Type 0} → Outcome V E × W → Response V E × W
outcome (o, w) = (from_all o, w)

abbrev pub reply : {W V E : Type 0} → Reply V E × W → Response V E × W
reply (r, w) = (from_node r, w)

module _ {W C : Type 0} (s : Scheduler W C) (st : Option (Storage W)) where
  -- `CreateContainer`
  unfoldable pub create_container : (C → Bytes) → W → Scheduled C × W
  create_container id_of w = remembered st id_of (s.schedule w)

  module _ {E : Type 0} (run_all : Broadcasting W E) where
    unfoldable pub run_on_nodes :
        {V : Type 0} → (Node → W → Reply V E × W) → Bool → W → Response V E × W
    run_on_nodes {V} call wait w = elim (s.nodes w) [
      | none ↦ (from_cluster nodes_failed, w)
      | some nodes ↦ outcome (run_all V call wait nodes w)
    ]

    -- To the node, if the storage knows it; to all nodes, if there is no storage.
    abbrev pub on_located :
        {V : Type 0} → (Node → W → Reply V E × W) → W → Located → Response V E × W
    on_located call w (at_node n) = reply (call n w)
    on_located call w (not_located storage_disabled) = run_on_nodes call false w
    on_located call w (not_located e) = (from_cluster e, w)

    -- Inspect, Kill, Start, Stop, Restart, Wait and AttachToContainer
    unfoldable pub on_container :
        {V : Type 0} → Bytes → (Node → W → Reply V E × W) → W → Response V E × W
    unfolding get_node run_on_nodes
    on_container id call w = on_located call w (get_node s st (λ t. t.retrieve_container id) w)

    module _ {I : Type 0} (client : Client W C I E) where
      abbrev pub inspect_container : Bytes → W → Response C E × W
      inspect_container id w = on_container id (client.inspect id) w

      abbrev pub act_on_container : ℕ → Bytes → W → Response (Unit {0}) E × W
      act_on_container kind id w = on_container id (client.act kind id) w

      abbrev pub wait_container : Bytes → W → Response ℕ E × W
      wait_container id w = on_container id (client.wait id) w

      -- `removeFromStorage`: what is removed is forgotten.
      abbrev forgotten : Bytes → Reply (Unit {0}) E × W → Response (Unit {0}) E × W
      forgotten id (value u, w) = elim st [
        | none ↦ (from_node (value u), w)
        | some t ↦ (from_node (value u), (t.remove_container id w).1)
      ]
      forgotten id (r, w) = (from_node r, w)

      abbrev remove_located : Bytes → W → Located → Response (Unit {0}) E × W
      remove_located id w (at_node n) = forgotten id (client.remove id n w)
      remove_located id w (not_located storage_disabled) = run_on_nodes (client.remove id) false w
      remove_located id w (not_located e) = (from_cluster e, w)

      unfoldable pub remove_container : Bytes → W → Response (Unit {0}) E × W
      unfolding get_node
      remove_container id w = remove_located id w (get_node s st (λ t. t.retrieve_container id) w)

      -- `CommitContainer`: the image is stored under the repository, or else under its identifier.
      abbrev image_stored : (I → Bytes) → Bytes → Node → Reply I E × W → Response I E × W
      image_stored image_id [] n (value i, w) = elim st [
        | none ↦ (from_node (value i), w)
        | some t ↦ (from_node (value i), (t.store_image (image_id i) n.id w).1)
      ]
      image_stored image_id (b ∷ repository) n (value i, w) = elim st [
        | none ↦ (from_node (value i), w)
        | some t ↦ (from_node (value i), (t.store_image (b ∷ repository) n.id w).1)
      ]
      image_stored image_id repository n (r, w) = (from_node r, w)

      abbrev commit_located : (I → Bytes) → Bytes → Bytes → W → Located → Response I E × W
      commit_located image_id repository id w (at_node n) =
          image_stored image_id repository n (client.commit id n w)
      commit_located image_id repository id w (not_located storage_disabled) =
          run_on_nodes (client.commit id) false w
      commit_located image_id repository id w (not_located e) = (from_cluster e, w)

      unfoldable pub commit_container : (I → Bytes) → Bytes → Bytes → W → Response I E × W
      unfolding get_node
      commit_container image_id repository id w =
          commit_located image_id repository id w (get_node s st (λ t. t.retrieve_container id) w)

      abbrev export_located : Bytes → W → Located → Response (Unit {0}) E × W
      export_located id w (at_node n) = reply (client.export id n w)
      export_located id w (not_located e) = (from_cluster e, w)

      unfoldable pub export_container : Bytes → W → Response (Unit {0}) E × W
      unfolding get_node
      export_container id w = export_located id w (get_node s st (λ t. t.retrieve_container id) w)

      -- `PushImage`; RemoveImage, PullImage and ImportImage go to all nodes.
      unfoldable pub push_image : ℕ → Bytes → W → Response (Unit {0}) E × W
      unfolding get_node
      push_image kind name w =
          on_located (client.image_act kind name) w (get_node s st (λ t. t.retrieve_image name) w)

      abbrev pub image_on_all : ℕ → Bytes → Bool → W → Response (Unit {0}) E × W
      image_on_all kind name wait w = run_on_nodes (client.image_act kind name) wait w

-- `ListContainers` behind the goroutines: the replies in the order in which they ended; the last
-- error is returned with what was listed.
unfoldable pub listed :
    {C E : Type 0} → List (Reply (List C) E) → List C × Option (Reply (List C) E)
listed [] = ([], none)
listed (value l ∷ replies) = let (more, e) = listed replies in (l ++ more, e)
listed (status_not_found ∷ replies) =
    let (more, e) = listed replies in
    (more, elim e [ none ↦ some status_not_found | some x ↦ some x ])
listed (expected_error ∷ replies) =
    let (more, e) = listed replies in
    (more, elim e [ none ↦ some expected_error | some x ↦ some x ])
listed (other_error y ∷ replies) =
    let (more, e) = listed replies in
    (more, elim e [ none ↦ some (other_error y) | some x ↦ some x ])
