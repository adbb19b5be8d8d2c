-- ===== src/Action/Atomic.antt =====
-- Pipelines are atomic: where every backward phase undoes its forward phase, a pipeline that ends
-- with an error has changed nothing.
use mathlib.Core.Path.{subst}
use docker_stuff.Base.{ℕ, ◌≡◌, sym, ap, ◌∙◌, List, [], ◌∷◌, Option, none, some}
use docker_stuff.Action.{Action, PipelineError, State, execute}
use docker_stuff.Action.Nested.{Run, Done, run, back, wrap, nested, Unused, execute-nested, outcome}

module _ {W R E P : Type 0} (actions : ℕ → Action W R E P) (params : List P) where
  -- After a run from `w`: an error left `w` alone, and a result can be taken back.
  abbrev pub Undone : ℕ → W → Run actions params → Type 0
  Undone a w (some e, r, w') = w' ≡ w
  Undone a w (none, r, w') = back actions params a r w' ≡ w

  abbrev pub Reverts : ℕ → Type 0
  Reverts a = (previous : Option R) (w : W) → Undone a w (run actions params a previous w)

  abbrev pub AllRevert : List ℕ → Type 0
  AllRevert [] = Unit
  AllRevert (a ∷ rest) = Reverts a × AllRevert rest

  abbrev Restored : W → Done actions params → Type 0
  Restored w (none, w') = Unit
  Restored w (some e, w') = w' ≡ w

  wrap-Restored :
      (a : ℕ) (r : Option R) (w w' : W) (d : Done actions params)
      → back actions params a r w' ≡ w
      → Restored w' d
      → Restored w (wrap actions params a r d)
  unfolding wrap
  wrap-Restored a r w w' (none, v) h k = k
  wrap-Restored a r w w' (some e, v) h k = ap (back actions params a r) k ∙ h

  step-Restored :
      (a : ℕ) (rest : List ℕ) (w : W) (t : Run actions params)
      → Undone a w t
      → Restored t.2 (nested actions params rest t.1 t.2)
      → Restored w (elim t.0 [
        | some e ↦ (some e, t.2)
        | none ↦ wrap actions params a t.1 (nested actions params rest t.1 t.2)
      ])
  step-Restored a rest w (some e, r, w') h k = h
  step-Restored a rest w (none, r, w') h k =
      wrap-Restored a r w w' (nested actions params rest r w') h k

  nested-Restored :
      (l : List ℕ) (previous : Option R) (w : W)
      → AllRevert l
      → Restored w (nested actions params l previous w)
  unfolding nested
  nested-Restored [] previous w h = tt
  nested-Restored (a ∷ rest) previous w h =
      let t = run actions params a previous w in
      step-Restored a rest w t (h.0 previous w) (nested-Restored rest t.1 t.2 h.1)

  -- Where each action of a pipeline stands in it once, leaves the world alone if it fails, and
  -- has a backward phase that takes back any run of its forward phase, an Execute that returns
  -- an error leaves the world as it was.
  pub execute_atomic :
      (a : ℕ) (rest : List ℕ) (s s' : State W R) (e : PipelineError E)
      → Unused [] (a ∷ rest)
      → AllRevert (a ∷ rest)
      → execute actions params (a ∷ rest) s ≡ (some e, s')
      → s'.world ≡ s.world
  execute_atomic a rest s s' e u h ex =
      subst (Restored s.world)
        (sym (execute-nested actions params a rest s u) ∙ ap (outcome actions params) ex)
        (nested-Restored (a ∷ rest) none s.world h)
