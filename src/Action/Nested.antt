-- ===== src/Action/Nested.antt =====
-- The pipeline as nested transactions: an action, then the rest, and the action undone with its own
-- result if the rest fails. This is what the store of results amounts to where no action stands
-- twice in a pipeline.
use docker_stuff.Base.{
  ℕ, ltb, ◌==◌, if◌then◌else◌, ◌≡◌, refl, ap, ◌∙◌, Bool, true, false, ◌||◌, List, [], ◌∷◌, Option,
  none, some, length, contains, contains-cons, arith, Bool-cases, inl, inr, ==_refl, ==_iff,
}
use mathlib.Core.Path.{subst}
use docker_stuff.Action.{
  Action, FwContext, BwContext, PipelineError, no_forward, not_enough, failed, State, undo,
  rollback, stored, attempt, execute_from, execute,
}

-- No action of the pipeline stands twice, nor among those that are done.
abbrev pub Unused : List ℕ → List ℕ → Type 0
Unused done [] = Unit
Unused done (a ∷ rest) = (contains done a ≡ false) × Unused (a ∷ done) rest

or-true : (b : Bool) → (b || true) ≡ true
or-true b = ground arith

module _ {W R E P : Type 0} (actions : ℕ → Action W R E P) (params : List P) where
  abbrev pub Run : Type 0
  Run = Option (PipelineError E) × Option R × W

  abbrev plain : Option R × Option E × W → Run
  plain (r, none, w) = (none, r, w)
  plain (r, some e, w) = (some (failed e), r, w)

  -- A forward phase of one action on a world.
  unfoldable pub run : ℕ → Option R → W → Run
  run a previous w = elim (actions a).forward [
    | none ↦ (some no_forward, previous, w)
    | some forward ↦
        if ltb (length params) (actions a).min_params
        then (some not_enough, previous, w)
        else plain (forward (record { previous = previous; params = params }) w)
  ]

  -- The backward phase of one action, for a result of its forward phase.
  unfoldable pub back : ℕ → Option R → W → W
  back a r w = elim (actions a).backward [
    | none ↦ w
    | some backward ↦ backward (record { fw_result = r; params = params }) w
  ]

  abbrev pub Done : Type 0
  Done = Option (PipelineError E) × W

  unfoldable pub wrap : ℕ → Option R → Done → Done
  wrap a r (none, w) = (none, w)
  wrap a r (some e, w) = (some e, back a r w)

  unfoldable pub nested : List ℕ → Option R → W → Done
  nested [] previous w = (none, w)
  nested (a ∷ rest) previous w =
      let (error, r, w') = run a previous w in
      elim error [ some e ↦ (some e, w') | none ↦ wrap a r (nested rest r w') ]

  -- Undo what is done, for given results.
  unwind : List ℕ → (ℕ → Option R) → W → W
  unwind [] results w = w
  unwind (a ∷ done) results w = unwind done results (back a (results a) w)

  finish : List ℕ → (ℕ → Option R) → Done → Done
  finish done results (none, w) = (none, w)
  finish done results (some e, w) = (some e, unwind done results w)

  undo_lem :
      (a : ℕ) (s : State W R)
      → undo actions params a s ≡ record s { world = back a (s.results a) s.world }
  unfolding undo back
  undo_lem a s = by_backward (actions a).backward refl
    where
      by_backward :
          (b : Option (BwContext R P → W → W))
          → (actions a).backward ≡ b
          → undo actions params a s ≡ record s { world = back a (s.results a) s.world }
      by_backward none e = rw (e, undo, back)
      by_backward (some backward) e = rw (e, undo, back)

  rollback-unwind :
      (done : List ℕ) (s : State W R)
      → (rollback actions params done s).world ≡ unwind done s.results s.world
  unfolding rollback unwind
  rollback-unwind [] s = refl
  rollback-unwind (a ∷ done) s =
      rollback-unwind done (undo actions params a s)
      ∙ ap (λ (t : State W R). unwind done t.results t.world) (undo_lem a s)

  -- The results of other actions do not matter.
  unwind_same :
      (done : List ℕ) (f g : ℕ → Option R) (w : W)
      → ((x : ℕ) → contains done x ≡ true → f x ≡ g x)
      → unwind done f w ≡ unwind done g w
  unfolding unwind
  unwind_same [] f g w h = refl
  unwind_same (a ∷ done) f g w h = rw (h a (contains-cons done a a ∙ rw ==_refl refl)) (
      unwind_same done f g (back a (g a) w)
        (λ x c. h x (contains-cons done a x ∙ rw c (or-true _))))

  -- An attempt on a state is a run on its world, and stores its result in its own action.
  record Agrees (a : ℕ) (s : State W R) (t : Option (PipelineError E) × Option R × State W R)
      (r : Run) : Type 0 where
    same : (t.0, t.1, t.2.world) ≡ r
    others : (x : ℕ) → (a == x) ≡ false → t.2.results x ≡ s.results x
    own : t.0 ≡ none → t.2.results a ≡ t.1

  stored-Agrees :
      (a : ℕ) (previous : Option R) (s : State W R) (short : Bool) (v : Option R × Option E × W)
      → Agrees a s
          (if short then (some not_enough, previous, s) else stored actions params a s v)
          (if short then (some not_enough, previous, s.world) else plain v)
  stored-Agrees a previous s true v = record { same = refl; others = λ x ne. refl; own = λ e. cc }
  stored-Agrees a previous s false (r, none, w) = record {
    same = refl;
    others = λ x ne. rw ne;
    own = λ e. rw ==_refl;
  }
  stored-Agrees a previous s false (r, some e, w) = record {
    same = refl;
    others = λ x ne. rw ne;
    own = λ e. rw ==_refl;
  }

  attempt-Agrees :
      (a : ℕ) (previous : Option R) (s : State W R)
      → Agrees a s (attempt actions params a previous s) (run a previous s.world)
  unfolding attempt run
  attempt-Agrees a previous s = by_forward (actions a).forward refl
    where
      by_forward :
          (f : Option (FwContext R P → W → Option R × Option E × W))
          → (actions a).forward ≡ f
          → Agrees a s (attempt actions params a previous s) (run a previous s.world)
      by_forward none e =
          rw (e, attempt, run) (record { same = refl; others = λ x ne. refl; own = λ e. cc })
      by_forward (some forward) e =
          rw (e, attempt, run)
            (stored-Agrees a previous s (ltb (length params) (actions a).min_params)
              (forward (record { previous = previous; params = params }) s.world))

  -- What a pipeline returns, and the world that it leaves.
  abbrev pub outcome : Option (PipelineError E) × State W R → Done
  outcome (e, s) = (e, s.world)

  others_lem :
      (done : List ℕ) (a x : ℕ)
      → contains done a ≡ false
      → contains done x ≡ true
      → (a == x) ≡ false
  others_lem done a x u c = elim (Bool-cases (a == x)) [
    | inl e ↦ let same = (==_iff a x).0 e in cc
    | inr e ↦ e
  ]

  finish-wrap :
      (a : ℕ) (done : List ℕ) (s s' : State W R) (v : Option R) (d : Done)
      → contains done a ≡ false
      → ((x : ℕ) → (a == x) ≡ false → s'.results x ≡ s.results x)
      → s'.results a ≡ v
      → finish (a ∷ done) s'.results d ≡ finish done s.results (wrap a v d)
  unfolding finish wrap unwind
  finish-wrap a done s s' v (none, w) u others own = refl
  finish-wrap a done s s' v (some e, w) u others own = rw own (
      ap (λ z. (some e, z))
        (unwind_same done s'.results s.results (back a v w)
          (λ x c. others x (others_lem done a x u c))))

  step-nested :
      (a : ℕ) (rest done : List ℕ) (s : State W R)
      (t : Option (PipelineError E) × Option R × State W R)
      → contains done a ≡ false
      → ((x : ℕ) → (a == x) ≡ false → t.2.results x ≡ s.results x)
      → (t.0 ≡ none → t.2.results a ≡ t.1)
      → (outcome (execute_from actions params (a ∷ done) rest t.1 t.2)
          ≡ finish (a ∷ done) t.2.results (nested rest t.1 t.2.world))
      → outcome (elim t.0 [
        | some e ↦ (some e, rollback actions params done t.2)
        | none ↦ execute_from actions params (a ∷ done) rest t.1 t.2
      ])
        ≡ finish done s.results (elim t.0 [
          | some e ↦ (some e, t.2.world)
          | none ↦ wrap a t.1 (nested rest t.1 t.2.world)
        ])
  unfolding finish
  step-nested a rest done s (some e, v, s') u others own ih =
      ap (λ z. (some e, z))
        (rollback-unwind done s'
          ∙ unwind_same done s'.results s.results s'.world
              (λ x c. others x (others_lem done a x u c)))
  step-nested a rest done s (none, v, s') u others own ih =
      ih ∙ finish-wrap a done s s' v (nested rest v s'.world) u others (own refl)

  execute_from-nested :
      (rest done : List ℕ) (previous : Option R) (s : State W R)
      → Unused done rest
      → outcome (execute_from actions params done rest previous s)
        ≡ finish done s.results (nested rest previous s.world)
  unfolding execute_from nested finish
  execute_from-nested [] done previous s u = refl
  execute_from-nested (a ∷ rest) done previous s u =
      let t = attempt actions params a previous s in
      let g = attempt-Agrees a previous s in
      subst
        (λ (r : Run).
          outcome (execute_from actions params done (a ∷ rest) previous s)
          ≡ finish done s.results
              (elim r.0 [ some e ↦ (some e, r.2) | none ↦ wrap a r.1 (nested rest r.1 r.2) ]))
        g.same
        (step-nested a rest done s t u.0 g.others g.own
          (execute_from-nested rest (a ∷ done) t.1 t.2 u.1))

  -- Execute, on a pipeline with no action twice, is the nested transactions: the same error, and
  -- the same world left behind, whatever results the actions hold from before.
  pub execute-nested :
      (a : ℕ) (rest : List ℕ) (s : State W R)
      → Unused [] (a ∷ rest)
      → outcome (execute actions params (a ∷ rest) s) ≡ nested (a ∷ rest) none s.world
  unfolding execute finish unwind
  execute-nested a rest s u =
      execute_from-nested (a ∷ rest) [] none s u
      ∙ finish_none s.results (nested (a ∷ rest) none s.world)
    where
      finish_none : (f : ℕ → Option R) (d : Done) → finish [] f d ≡ d
      finish_none f (none, w) = refl
      finish_none f (some e, w) = refl
