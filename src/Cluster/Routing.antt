-- ===== src/Cluster/Routing.antt =====
-- An operation on a container goes to the node that the container was created on.
use docker_stuff.Base.{
  ℕ, zero, suc, ◌+◌, ◌%◌, ◌^◌, ◌==◌, ◌≡◌, refl, sym, ap, ◌∙◌, Bool, true, false, List, [], ◌∷◌,
  Option, none, some, Bytes, length, get_elem?, All, some_inj, Bool-cases, inl, inr,
}
use mathlib.Core.Path.{subst}
use docker_stuff.Text.Split.{eq_bytes, eq_bytes_iff}
use docker_stuff.Cluster.{
  Node, RoundRobin, next, node_at, index_of, Scheduled, scheduled, schedule_failed, schedule_panic,
  created, schedule, rounds, Storage, node_with, get_node, at_node,
}
use docker_stuff.Cluster.Broadcast.{Reply}
use docker_stuff.Cluster.Broadcast.Queues.{In}
use docker_stuff.Cluster.Containers.{
  Broadcasting, create_container, on_container, remembered, reply, on_located,
}

-- No two nodes have one identifier.
abbrev pub Distinct : List Node → Type 0
Distinct [] = Unit {0}
Distinct (n ∷ nodes) = All (λ m. eq_bytes n.id m.id ≡ false) nodes × Distinct nodes

get_elem-In : (nodes : List Node) (i : ℕ) (n : Node) → get_elem? nodes i ≡ some n → In n nodes
get_elem-In [] i n e = nothing e
  where
    nothing : ◌≡◌ {A = Option Node} none (some n) → ⊥
    nothing x = cc
get_elem-In (m ∷ nodes) zero n e = inl (some_inj e)
get_elem-In (m ∷ nodes) (suc i) n e = inr (get_elem-In nodes i n e)

All-In : (Q : Node → Type 0) (nodes : List Node) (n : Node) → All Q nodes → In n nodes → Q n
All-In Q (m ∷ nodes) n h (inl e) = subst Q e h.0
All-In Q (m ∷ nodes) n h (inr i) = All-In Q nodes n h.1 i
All-In Q [] n h i = elim i [ ]

node_with-In :
    (nodes : List Node) (n : Node) → Distinct nodes → In n nodes → node_with n.id nodes ≡ some n
unfolding node_with
node_with-In [] n d i = elim i [ ]
node_with-In (m ∷ nodes) n d (inl e) =
    rw ((eq_bytes_iff m.id n.id).1 (ap (λ (k : Node). k.id) e)) (ap some e)
node_with-In (m ∷ nodes) n d (inr i) =
    rw (All-In (λ k. eq_bytes m.id k.id ≡ false) nodes n d.0 i) (node_with-In nodes n d.1 i)

next-nodes : (s : RoundRobin) → (next s).1.nodes ≡ s.nodes
unfolding next
next-nodes s = elim (Bool-cases (length s.nodes == 0)) [ inl e ↦ rw e refl | inr e ↦ rw e refl ]

nothing_there : {n : Node} → ◌≡◌ {A = Option Node} none (some n) → ⊥
nothing_there e = cc

node_at-In : (nodes : List Node) (i : Option ℕ) (n : Node) → node_at nodes i ≡ some n → In n nodes
node_at-In nodes none n e = elim (nothing_there e) [ ]
node_at-In nodes (some i) n e = get_elem-In nodes i n e

next-In : (s : RoundRobin) (n : Node) → (next s).0 ≡ some n → In n s.nodes
unfolding next
next-In s n e = elim (Bool-cases (length s.nodes == 0)) [
  | inl empty ↦ elim (nothing_there (rw empty at e)) [ ]
  | inr full ↦
      node_at-In s.nodes (index_of ((s.last_used + 1) % 2 ^ 64) (length s.nodes)) n (rw full at e)
]

module _ {D C : Type 0} (valid : Bytes → Bool) (create : Node → D → Option C × D) where
  -- What a container that was scheduled tells of the node.
  abbrev Made : RoundRobin → D → Bytes → C → RoundRobin × D → Node → Type 0
  Made s d id x w n =
      ((next s).0 ≡ some n)
      × (n.id ≡ id)
      × ((create n d).0 ≡ some x)
      × (w.0.nodes ≡ (next s).1.nodes)

  created-Made :
      (s : RoundRobin) (d : D) (id : Bytes) (x : C) (w : RoundRobin × D) (n : Node)
      (s' : RoundRobin) (t : Option C × D)
      → next s ≡ (some n, s')
      → create n d ≡ t
      → created n.id s' t ≡ (scheduled id x, w)
      → Made s d id x w n
  created-Made s d id x w n s' (none, d') chosen made e = elim (failed e) [ ]
    where
      failed :
          ◌≡◌ {A = Scheduled C × (RoundRobin × D)}
            (schedule_failed n.id, (s', d'))
            (scheduled id x, w)
          → ⊥
      failed y = cc
  created-Made s d id x w n s' (some y, d') chosen made e = (
    ap (λ (t : Option Node × RoundRobin). t.0) chosen,
    cc,
    ap (λ (t : Option C × D). t.0) made ∙ ap some (same_container y x e),
    ap (λ (t : Scheduled C × (RoundRobin × D)). t.1.0.nodes) (sym e)
        ∙ sym (ap (λ (t : Option Node × RoundRobin). t.1.nodes) chosen),
  )
    where
      same_container :
          (y x : C)
          → ◌≡◌ {A = Scheduled C × (RoundRobin × D)}
              (scheduled n.id y, (s', d'))
              (scheduled id x, w)
          → y ≡ x
      same_container y x e = cc

  chosen_on : D → Option Node × RoundRobin → Scheduled C × (RoundRobin × D)
  chosen_on d t = elim t.0 [
    | none ↦ (schedule_panic, (t.1, d))
    | some n ↦ created n.id t.1 (create n d)
  ]

  chosen-Made :
      (s : RoundRobin) (d : D) (id : Bytes) (x : C) (w : RoundRobin × D)
      (t : Option Node × RoundRobin)
      → next s ≡ t
      → chosen_on d t ≡ (scheduled id x, w)
      → (n : Node) × Made s d id x w n
  unfolding chosen_on
  chosen-Made s d id x w (none, s') h e = elim (stuck e) [ ]
    where
      stuck :
          ◌≡◌ {A = Scheduled C × (RoundRobin × D)} (schedule_panic, (s', d)) (scheduled id x, w) → ⊥
      stuck y = cc
  chosen-Made s d id x w (some n, s') h e = (n, created-Made s d id x w n s' (create n d) h refl e)

  schedule-Made :
      (s : RoundRobin) (d : D) (id : Bytes) (x : C) (w : RoundRobin × D)
      → schedule valid create (s, d) ≡ (scheduled id x, w)
      → (n : Node) × Made s d id x w n
  unfolding schedule chosen_on
  schedule-Made s d id x w e = chosen-Made s d id x w (next s) refl e

  -- What the code relies on of a storage: what was stored without an error is retrieved, and the
  -- scheduler is left alone.
  pub record Remembers (st : Storage (RoundRobin × D)) : Type 0 where
    pub kept :
        (k id : Bytes) (w : RoundRobin × D)
        → (st.store_container k id w).0 ≡ true
        → st.retrieve_container k (st.store_container k id w).1 ≡ some id
    pub apart :
        (k id : Bytes) (w : RoundRobin × D) → (st.store_container k id w).1.0.nodes ≡ w.0.nodes

  get_node-at :
      (st : Storage (RoundRobin × D)) (k : Bytes) (n : Node) (w : RoundRobin × D)
      → st.retrieve_container k w ≡ some n.id
      → node_with n.id w.0.nodes ≡ some n
      → get_node (rounds valid create) (some st) (λ t. t.retrieve_container k) w ≡ at_node n
  unfolding get_node
  get_node-at st k n w there found = rw (there, found) refl

  module _ {E : Type 0} (st : Storage (RoundRobin × D)) (run_all : Broadcasting (RoundRobin × D) E)
      (remembers : Remembers st) where
    -- If the nodes of a round robin have distinct identifiers and the storage keeps what it
    -- stores without an error, then after a CreateContainer whose node was stored, an operation
    -- on the container is the call of the client for one of the nodes, on which the container
    -- was created.
    pub create_container-routed :
        {V : Type 0} (id_of : C → Bytes)
        (call : Node → RoundRobin × D → Reply V E × (RoundRobin × D)) (s : RoundRobin) (d : D)
        (id : Bytes) (x : C) (w : RoundRobin × D)
        → Distinct s.nodes
        → schedule valid create (s, d) ≡ (scheduled id x, w)
        → (st.store_container (id_of x) id w).0 ≡ true
        → (n : Node) × In n s.nodes
          × ((create n d).0 ≡ some x)
          × (create_container (rounds valid create) (some st) id_of (s, d)
              ≡ (scheduled n.id x, (st.store_container (id_of x) id w).1))
          × (on_container
                (rounds valid create)
                (some st)
                run_all
                (id_of x)
                call
                (st.store_container (id_of x) id w).1
              ≡ reply (call n (st.store_container (id_of x) id w).1))
    unfolding create_container on_container
    create_container-routed id_of call s d id x w distinct e stored =
        let (n, (chosen, same, made, nodes)) = schedule-Made s d id x w e in
        let w' = (st.store_container (id_of x) id w).1 in
        let inside = next-In s n chosen in
        let all_nodes : w'.0.nodes ≡ s.nodes =
          remembers.apart (id_of x) id w ∙ nodes ∙ next-nodes s in
        let found : node_with n.id w'.0.nodes ≡ some n =
          ap (node_with n.id) all_nodes ∙ node_with-In s.nodes n distinct inside in
        (
          n,
          inside,
          made,
          ap (remembered (some st) id_of) e ∙ ap (λ (i : Bytes). (scheduled i x, w')) (sym same),
          ap (on_located (rounds valid create) (some st) run_all call w') (
              get_node-at st (id_of x) n w'
                (remembers.kept (id_of x) id w stored ∙ ap some (sym same)) found),
        )
