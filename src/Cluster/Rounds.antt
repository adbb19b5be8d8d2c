-- ===== src/Cluster/Rounds.antt =====
-- The round robin takes the nodes in turn.
use docker_stuff.Base.{
  ℕ, zero, suc, ◌+◌, ◌-◌, ◌%◌, ◌^◌, ◌<◌, ltb, ◌==◌, if◌then◌else◌, ◌≡◌, refl, ap, ◌∙◌, Bool, true,
  false, List, [], ◌∷◌, Option, none, some, length, get_elem?, arith,
}
use docker_stuff.Cluster.{Node, RoundRobin, index_of, node_at, next}

-- The scheduler after a number of calls of `next`
unfoldable pub after_turns : ℕ → RoundRobin → RoundRobin
unfolding next
after_turns zero s = s
after_turns (suc k) s = (next (after_turns k s)).1

abbrev with_last : RoundRobin → ℕ → RoundRobin
with_last s n = record s { last_used = n }

next-with_last :
    (s : RoundRobin) (n : ℕ)
    → (length s.nodes == 0) ≡ false
    → next (with_last s n) ≡ (
      node_at s.nodes (index_of ((n + 1) % 2 ^ 64) (length s.nodes)),
      with_last s ((n + 1) % 2 ^ 64),
    )
unfolding next
next-with_last s n some_nodes = rw some_nodes refl

after_turns_lem :
    (k : ℕ) (s : RoundRobin)
    → s.last_used ≡ 2 ^ 64 - 1
    → (length s.nodes == 0) ≡ false
    → after_turns k s ≡ with_last s ((2 ^ 64 - 1 + k) % 2 ^ 64)
unfolding after_turns
after_turns_lem zero s e some_nodes = ap (with_last s) (e ∙ ground arith)
after_turns_lem (suc k) s e some_nodes =
    ap (λ (t : RoundRobin). (next t).1) (after_turns_lem k s e some_nodes)
    ∙ ap (λ (t : Option Node × RoundRobin). t.1)
        (next-with_last s ((2 ^ 64 - 1 + k) % 2 ^ 64) some_nodes)
    ∙ ap (with_last s) (ground arith)

there_is :
    (nodes : List Node) (i : ℕ) → i < length nodes → (n : Node) × (get_elem? nodes i ≡ some n)
there_is [] i lt = ground (arith, lt)
there_is (n ∷ nodes) zero lt = (n, refl)
there_is (n ∷ nodes) (suc i) lt = there_is nodes i (omega (arith, lt))

below_length : (k len : ℕ) → (len == 0) ≡ false → k % len < len
below_length k len e = ground (arith, e)

-- A round robin with one node at least that starts at -1 takes its nodes in turn: the call
-- number k of next, from 0 on and below 2 ^ 63, gives the node at k modulo their number, and
-- does not panic.
pub next-after_turns :
    (k : ℕ) (s : RoundRobin)
    → s.last_used ≡ 2 ^ 64 - 1
    → (length s.nodes == 0) ≡ false
    → k < 2 ^ 63
    → (n : Node) × (get_elem? s.nodes (k % length s.nodes) ≡ some n)
      × ((next (after_turns k s)).0 ≡ some n)
next-after_turns k s e some_nodes lt =
    let (n, there) =
      there_is s.nodes (k % length s.nodes) (below_length k (length s.nodes) some_nodes) in
    let turn : ((2 ^ 64 - 1 + k) % 2 ^ 64 + 1) % 2 ^ 64 ≡ k = ground (arith, lt) in
    let small : ltb k (2 ^ 63) ≡ true = ground (arith, lt) in
    (
      n,
      there,
      ap (λ (t : RoundRobin). (next t).0) (after_turns_lem k s e some_nodes)
          ∙ ap (λ (t : Option Node × RoundRobin). t.0)
              (next-with_last s ((2 ^ 64 - 1 + k) % 2 ^ 64) some_nodes)
          ∙ ap (λ (last : ℕ). node_at s.nodes (index_of last (length s.nodes))) turn
          ∙ ap
              (λ (b : Bool). node_at s.nodes (
                if b
                then some (k % length s.nodes)
                else if (2 ^ 64 - k) % length s.nodes == 0
                then some 0
                else none))
              small
          ∙ there,
    )
