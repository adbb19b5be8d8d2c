-- ===== src/Dependencies/Schedule.antt =====
-- What `GenerateTraversalMap` returns.
use docker_stuff.Base.{
  ℕ, zero, suc, ◌+◌, ◌≤◌, ◌==◌, ltb, ◌≡◌, ◌≢◌, refl, sym, ◌∙◌, if◌then◌else◌, Bool, true, false,
  ◌||◌, List, [], ◌∷◌, length, contains, arith, Bool-cases, inl, inr, contains-cons, insert, ==_iff,
  ◌⊎◌, if_true, if_false,
}
use mathlib.Core.Bool.{false≢true}
use mathlib.Core.Path.{subst}
use docker_stuff.Dependencies.{
  DependencyGraph, all_processed, is_ready, available, Traversal, found, no_solution, running,
  put_round, mark, traverse, generate_traversal_map,
}

-- What is true of a node of a round, with the nodes of the earlier rounds processed.
pub record IsReady (g : DependencyGraph) (processed : List ℕ) (n : ℕ) : Type 0 where
  pub is_new : contains processed n ≡ false
  pub after_deps : (d : ℕ) → contains (g.deps n) d ≡ true → contains processed d ≡ true

-- The nodes of every round are nodes of the graph that stand in no earlier round, and whose
-- dependencies all stand in earlier rounds. At the end there are as many as the graph has nodes.
abbrev pub IsSchedule : DependencyGraph → List ℕ → List (List ℕ) → Type 0
IsSchedule g processed [] = length g.nodes ≤ length processed
IsSchedule g processed (round ∷ rounds) =
    ((n : ℕ) → contains round n ≡ true → (contains g.nodes n ≡ true) × IsReady g processed n)
    × IsSchedule g (mark processed round) rounds

contains-or :
    (x n : ℕ) (xs : List ℕ) → contains (x ∷ xs) n ≡ true → (x ≡ n) ⊎ (contains xs n ≡ true)
contains-or x n xs h = ground (arith, contains-cons xs x n, ==_iff x n)

contains-nil : (n : ℕ) → contains [] n ≡ false
unfolding contains
contains-nil n = refl

all_processed-contains :
    (ds processed : List ℕ) (d : ℕ)
    → all_processed ds processed ≡ true
    → contains ds d ≡ true
    → contains processed d ≡ true
unfolding all_processed
all_processed-contains [] processed d h c = absurd (false≢true (sym (contains-nil d) ∙ c))
all_processed-contains (x ∷ ds) processed d h c = elim (contains-or x d ds c) [
  | inl e ↦ rw (sym e) (ground arith)
  | inr later ↦ ground (arith, all_processed-contains ds processed d)
]

no_members : (ds : List ℕ) (d : ℕ) → (length ds == 0) ≡ true → contains ds d ≡ false
no_members [] d h = contains-nil d
no_members (x ∷ ds) d h = ground arith

ready_tests :
    (short known alone cleared : Bool)
    → (if short then false else if known then false else if alone then true else cleared) ≡ true
    → (known ≡ false) × ((alone ≡ true) ⊎ (cleared ≡ true))
ready_tests false false true cleared h = (refl, inl refl)
ready_tests false false false cleared h = (refl, inr h)
ready_tests false true alone cleared h = cc
ready_tests true known alone cleared h = cc

is_ready-IsReady :
    (g : DependencyGraph) (processed : List ℕ) (n : ℕ)
    → is_ready g processed n ≡ true
    → IsReady g processed n
unfolding is_ready
is_ready-IsReady g processed n h =
    let (new, which) = ready_tests _ _ _ _ h in
    record {
      is_new = new;
      after_deps = λ d c. elim which [
        | inl alone ↦ absurd (false≢true (sym (no_members (g.deps n) d alone) ∙ c))
        | inr cleared ↦ all_processed-contains (g.deps n) processed d cleared c
      ];
    }

first : (x n : ℕ) (b : Bool) → x ≡ n → (x == n || b) ≡ true
first x n b e = ground arith

second : (a b : Bool) → b ≡ true → (a || b) ≡ true
second a b e = ground arith

available_sound :
    (g : DependencyGraph) (processed nodes : List ℕ) (n : ℕ)
    → contains (available g processed nodes) n ≡ true
    → (contains nodes n ≡ true) × (is_ready g processed n ≡ true)
unfolding available
available_sound g processed [] n c = absurd (false≢true (sym (contains-nil n) ∙ c))
available_sound g processed (x ∷ nodes) n c = elim (Bool-cases (is_ready g processed x)) [
  | inl ready ↦
      elim (contains-or x n (available g processed nodes)
        (subst (λ (l : List ℕ). contains l n ≡ true) (if_true _ _ ready) c)) [
          | inl e ↦ (
            contains-cons nodes x n ∙ first x n (contains nodes n) e,
            subst (λ m. is_ready g processed m ≡ true) e ready,
          )
          | inr later ↦
              let ih = available_sound g processed nodes n later in
              (contains-cons nodes x n ∙ second (x == n) (contains nodes n) ih.0, ih.1)
        ]
  | inr not_ready ↦
      let ih =
        available_sound g processed nodes n
          (subst (λ (l : List ℕ). contains l n ≡ true) (if_false _ _ not_ready) c) in
      (contains-cons nodes x n ∙ second (x == n) (contains nodes n) ih.0, ih.1)
]

put_round-ne-running :
    (round : List ℕ) (rest : Traversal)
    → (1 ≤ length round → rest ≢ running)
    → put_round round rest ≢ running
unfolding put_round
put_round-ne-running [] rest h e = cc
put_round-ne-running (n ∷ round) (found rounds) h e = cc
put_round-ne-running (n ∷ round) no_solution h e = cc
put_round-ne-running (n ∷ round) running h e = h (omega arith) refl

put_round_inv :
    (round : List ℕ) (rest : Traversal) (rounds : List (List ℕ))
    → put_round round rest ≡ found rounds
    → (later : List (List ℕ)) × (rest ≡ found later) × (round ∷ later ≡ rounds)
unfolding put_round
put_round_inv [] rest rounds h = cc
put_round_inv (n ∷ round) (found later) rounds h = (later, refl, cc)
put_round_inv (n ∷ round) no_solution rounds h = cc
put_round_inv (n ∷ round) running rounds h = cc

found_inj : (a b : List (List ℕ)) → found a ≡ found b → a ≡ b
found_inj a b h = cc

length-insert : (processed : List ℕ) (n : ℕ) → length processed ≤ length (insert processed n)
unfolding insert
length-insert processed n = ground arith

length-insert_new :
    (processed : List ℕ) (n : ℕ)
    → contains processed n ≡ false
    → length (insert processed n) ≡ suc (length processed)
unfolding insert
length-insert_new processed n h = ground arith

length-mark : (processed round : List ℕ) → length processed ≤ length (mark processed round)
unfolding mark
length-mark processed [] = omega arith
length-mark processed (n ∷ round) =
    omega (arith, length-insert processed n, length-mark (insert processed n) round)

-- A round of new nodes makes the set larger.
length-mark_new :
    (processed round : List ℕ)
    → ((n : ℕ) → contains round n ≡ true → contains processed n ≡ false)
    → 1 ≤ length round
    → suc (length processed) ≤ length (mark processed round)
unfolding mark
length-mark_new processed [] new h = omega arith
length-mark_new processed (n ∷ round) new h =
    let head = new n (contains-cons round n n ∙ first n n (contains round n) refl) in
    omega (arith, length-insert_new processed n head, length-mark (insert processed n) round)

traverse-ne-running :
    (fuel : ℕ) (g : DependencyGraph) (processed : List ℕ)
    → length g.nodes ≤ length processed + fuel
    → traverse fuel g processed ≢ running
unfolding traverse
traverse-ne-running zero g processed h e = ground arith
traverse-ne-running (suc fuel) g processed h e =
    let round = available g processed g.nodes in
    let is_new : (n : ℕ) → contains round n ≡ true → contains processed n ≡ false =
      λ n c. (is_ready-IsReady g processed n (available_sound g processed g.nodes n c).1).is_new in
    elim (Bool-cases (ltb (length processed) (length g.nodes))) [
      | inl more ↦
          put_round-ne-running round _
            (λ some_ready.
              traverse-ne-running fuel g (mark processed round)
                (omega (arith, length-mark_new processed round is_new some_ready)))
            (sym (if_true _ _ more) ∙ e)
      | inr over ↦ let stop = sym (if_false _ _ over) ∙ e in cc
    ]

traverse-IsSchedule :
    (fuel : ℕ) (g : DependencyGraph) (processed : List ℕ) (rounds : List (List ℕ))
    → traverse fuel g processed ≡ found rounds
    → IsSchedule g processed rounds
unfolding traverse
traverse-IsSchedule zero g processed rounds h =
    elim (Bool-cases (ltb (length processed) (length g.nodes))) [
      | inl more ↦ let stop = sym (if_true _ _ more) ∙ h in cc
      | inr over ↦
          subst (IsSchedule g processed) (found_inj [] rounds (sym (if_false _ _ over) ∙ h))
            (ground arith)
    ]
traverse-IsSchedule (suc fuel) g processed rounds h =
    let round = available g processed g.nodes in
    elim (Bool-cases (ltb (length processed) (length g.nodes))) [
      | inl more ↦
          let (later, e, same) =
            put_round_inv round (traverse fuel g (mark processed round)) rounds
              (sym (if_true _ _ more) ∙ h) in
          subst (IsSchedule g processed) same (
            λ n c.
                let sound = available_sound g processed g.nodes n c in
                (sound.0, is_ready-IsReady g processed n sound.1),
            traverse-IsSchedule fuel g (mark processed round) later e,
          )
      | inr over ↦
          subst (IsSchedule g processed) (found_inj [] rounds (sym (if_false _ _ over) ∙ h))
            (ground arith)
    ]

-- Where GenerateTraversalMap returns rounds, every node of a round is a node of the graph,
-- stands in no earlier round, and has all its dependencies in earlier rounds; the rounds
-- together hold at least as many different nodes as the graph.
pub generate_traversal_map-IsSchedule :
    (g : DependencyGraph) (rounds : List (List ℕ))
    → generate_traversal_map g ≡ found rounds
    → IsSchedule g [] rounds
unfolding generate_traversal_map
generate_traversal_map-IsSchedule g rounds h = traverse-IsSchedule (length g.nodes) g [] rounds h

-- GenerateTraversalMap ends on every graph: it makes no more rounds than there are nodes,
-- because a round marks a node at least that was not processed before.
pub generate_traversal_map-ne-running : (g : DependencyGraph) → generate_traversal_map g ≢ running
unfolding generate_traversal_map
generate_traversal_map-ne-running g = traverse-ne-running (length g.nodes) g [] (omega arith)
