-- ===== src/Action.antt =====
-- globocom/tsuru/action/action.go: pipelines of actions with a forward and a backward phase. What
-- the functions of an action do, to a world `W`, is a parameter. A pipeline holds pointers, and the
-- result of an action is stored in the action: the store `results` is indexed by address, and two
-- entries of a pipeline may be one action. `nil` results are `none`; the log is left out.
pub mod Nested
pub mod Atomic
pub mod Examples
use docker_stuff.Base.{ℕ, ltb, ◌==◌, if◌then◌else◌, List, [], ◌∷◌, Option, none, some, length}

pub record FwContext (R P : Type 0) : Type 0 where
  pub previous : Option R
  pub params : List P

pub record BwContext (R P : Type 0) : Type 0 where
  pub fw_result : Option R
  pub params : List P

-- A forward function returns a result and maybe an error, and changes the world.
pub record Action (W R E P : Type 0) : Type 0 where
  pub forward : Option (FwContext R P → W → Option R × Option E × W)
  pub backward : Option (BwContext R P → W → W)
  pub min_params : ℕ

pub data PipelineError (E : Type 0) : Type 0 where
  no_actions : PipelineError E
  no_forward : PipelineError E
  not_enough : PipelineError E
  failed : E → PipelineError E

pub record State (W R : Type 0) : Type 0 where
  pub world : W
  pub results : ℕ → Option R

abbrev pub store {ℓ} : {A : Type ℓ} → (ℕ → A) → ℕ → A → ℕ → A
store f a x b = if a == b then x else f b

module _ {W R E P : Type 0} (actions : ℕ → Action W R E P) (params : List P) where
  -- Undo one action, with the result that is stored in it.
  unfoldable pub undo : ℕ → State W R → State W R
  undo a s = elim (actions a).backward [
    | none ↦ s
    | some backward ↦ record s {
      world = backward (record { fw_result = s.results a; params = params }) s.world;
    }
  ]

  -- `rollback`, on the completed actions with the last one first.
  unfoldable pub rollback : List ℕ → State W R → State W R
  rollback [] s = s
  rollback (a ∷ done) s = rollback done (undo a s)

  -- What one round of the loop of `Execute` computes: the error, and the result and the state.
  abbrev pub Attempt : Type 0
  Attempt = Option (PipelineError E) × Option R × State W R

  abbrev pub stored : ℕ → State W R → Option R × Option E × W → Attempt
  stored a s (r, none, w) = (none, r, record { world = w; results = store s.results a r })
  stored a s (r, some e, w) =
      (some (failed e), r, record { world = w; results = store s.results a r })

  unfoldable pub attempt : ℕ → Option R → State W R → Attempt
  attempt a previous s = elim (actions a).forward [
    | none ↦ (some no_forward, previous, s)
    | some forward ↦
        if ltb (length params) (actions a).min_params
        then (some not_enough, previous, s)
        else stored a s (forward (record { previous = previous; params = params }) s.world)
  ]

  abbrev pub Ended : Type 0
  Ended = Option (PipelineError E) × State W R

  -- The loop, with the completed actions, the last one first.
  unfoldable pub execute_from : List ℕ → List ℕ → Option R → State W R → Ended
  execute_from done [] previous s = (none, s)
  execute_from done (a ∷ rest) previous s =
      let (error, r, s') = attempt a previous s in
      elim error [ some e ↦ (some e, rollback done s') | none ↦ execute_from (a ∷ done) rest r s' ]

  unfoldable pub execute : List ℕ → State W R → Ended
  execute [] s = (some no_actions, s)
  execute (a ∷ rest) s = execute_from [] (a ∷ rest) none s

module _ {W R : Type 0} where
  -- `Result`: what is stored in the last action. On an empty pipeline the index panics: `none`.
  unfoldable pub result : List ℕ → State W R → Option (Option R)
  result [] s = none
  result (a ∷ []) s = some (s.results a)
  result (a ∷ b ∷ rest) s = result (b ∷ rest) s
