-- ===== src/App/Creation/Undo.antt =====
-- What is left when an app cannot be stored.
use docker_stuff.Base.{
  ℕ, suc, if◌then◌else◌, ◌≡◌, refl, ap, ◌∙◌, Bool, true, List, [], ◌∷◌, Option, none, some, Bytes,
}
use docker_stuff.Action
use docker_stuff.Action.{
  Action, PipelineError, failed, State, execute, execute_from, attempt, rollback, undo, store,
  Attempt, Ended,
}
use docker_stuff.Quota.{DbResult, duplicate, Collection, Outcome, reserve, release, create, delete}
use docker_stuff.App.{App}
use docker_stuff.App.Creation.{
  Backend, Param, an_app, a_user, Result, CreationError, app_already_exists, first_item, with_unit,
  reservation, quota_of, reserved, inserted, database_down, release_for_user, quota_deleted,
}
use docker_stuff.App.Creation.Pipelines.{actions}

module _ {W R E P : Type 0} (table : ℕ → Action W R E P) (params : List P) where
  -- What `execute_from` does with the outcome of an attempt.
  abbrev continued : List ℕ → ℕ → List ℕ → Attempt table params → Ended table params
  continued done a rest t = elim t.0 [
    | some e ↦ (some e, rollback table params done t.2)
    | none ↦ execute_from table params (a ∷ done) rest t.1 t.2
  ]

  goes_on :
      (done : List ℕ) (a : ℕ) (rest : List ℕ) (previous r : Option R) (s s' : State W R)
      → attempt table params a previous s ≡ (none, r, s')
      → execute_from table params done (a ∷ rest) previous s
        ≡ execute_from table params (a ∷ done) rest r s'
  unfolding execute_from
  goes_on done a rest previous r s s' e = ap (continued done a rest) e

  ends :
      (done : List ℕ) (a : ℕ) (rest : List ℕ) (previous r : Option R) (s s' : State W R)
      (x : PipelineError E)
      → attempt table params a previous s ≡ (some x, r, s')
      → execute_from table params done (a ∷ rest) previous s
        ≡ (some x, rollback table params done s')
  unfolding execute_from
  ends done a rest previous r s s' x e = ap (continued done a rest) e

module _ {W : Type 0} (c : Collection W) (b : Backend W) (limit : ℕ)
    (others : ℕ → Action W Result CreationError Param) where
  -- The two changes that createAppQuota makes.
  abbrev pub with_quota : App → W → W
  with_quota app w =
      (reserve c app.name (first_item app ∷ []) (create c app.name (suc limit) w).1).1

  -- What the two backward phases make of a world.
  abbrev pub taken_back : App → Bytes → W → W
  taken_back app email w = (release c email (app.name ∷ []) (delete c app.name w).1).1

  abbrev Table : ℕ → Action W Result CreationError Param
  Table = actions c b (some (suc limit)) others

  abbrev creation_params : App → Bytes → List Param
  creation_params app email = an_app app ∷ a_user email ∷ []

  abbrev with_result : State W Result → ℕ → Option Result → W → State W Result
  with_result s a r w = record { world = w; results = store s.results a r }

  first_attempt :
      (app : App) (email : Bytes) (s : State W Result) (w1 : W)
      → reserve c email (app.name ∷ []) s.world ≡ (none, w1)
      → attempt Table (creation_params app email) 0 none s ≡ (
        none,
        some (reservation app.name email),
        with_result s 0 (some (reservation app.name email)) w1,
      )
  unfolding attempt
  first_attempt app email s w1 there =
      ap
        (λ (t : Outcome × W).
          Action.stored Table (creation_params app email) 0 s
            (reserved (reservation app.name email) t))
        there

  second_attempt :
      (app : App) (email : Bytes) (r : Option Result) (s : State W Result)
      → attempt Table (creation_params app email) 1 r s ≡ (
        none,
        some (quota_of app.name),
        with_result s 1 (some (quota_of app.name)) (with_quota app s.world),
      )
  unfolding attempt
  second_attempt app email r s = refl

  third_attempt :
      (app : App) (email : Bytes) (r : Option Result) (s : State W Result) (w : W)
      → b.db_up s.world ≡ true
      → b.insert (with_unit app) s.world ≡ (duplicate, w)
      → attempt Table (creation_params app email) 2 r s
        ≡ (some (failed app_already_exists), none, with_result s 2 none w)
  unfolding attempt
  third_attempt app email r s w up refused =
      ap
        (λ (v : Bool). Action.stored Table (creation_params app email) 2 s (
          if v
          then inserted (with_unit app) (b.insert (with_unit app) s.world)
          else (none, some database_down, s.world)))
        up
      ∙ ap
          (λ (t : DbResult × W).
            Action.stored Table (creation_params app email) 2 s (inserted (with_unit app) t))
          refused

  undone :
      (app : App) (email : Bytes) (s : State W Result)
      → s.results 0 ≡ some (reservation app.name email)
      → s.results 1 ≡ some (quota_of app.name)
      → (rollback Table (creation_params app email) (1 ∷ 0 ∷ []) s).world
        ≡ taken_back app email s.world
  unfolding rollback undo
  undone app email s r0 r1 =
      ap
        (λ (o : Option Result).
          release_for_user c b (some (suc limit)) (s.results 0)
            (quota_deleted c b (some (suc limit)) o s.world))
        r1
      ∙ ap
          (λ (o : Option Result).
            release_for_user c b (some (suc limit)) o (delete c app.name s.world).1)
          r0

  pub refused-world :
      (app : App) (email : Bytes) (more : List ℕ) (s : State W Result) (w1 w3 : W)
      → reserve c email (app.name ∷ []) s.world ≡ (none, w1)
      → b.db_up (with_quota app w1) ≡ true
      → b.insert (with_unit app) (with_quota app w1) ≡ (duplicate, w3)
      → (s' : State W Result) × (execute Table (creation_params app email) (0 ∷ 1 ∷ 2 ∷ more) s
          ≡ (some (failed app_already_exists), s'))
        × (s'.world ≡ taken_back app email w3)
  unfolding execute
  refused-world app email more s w1 w3 there up refused =
      let r0 = some (reservation app.name email) in
      let s1 = with_result s 0 r0 w1 in
      let r1 = some (quota_of app.name) in
      let s2 = with_result s1 1 r1 (with_quota app w1) in
      let s3 = with_result s2 2 none w3 in
      (
        rollback Table (creation_params app email) (1 ∷ 0 ∷ []) s3,
        goes_on Table (creation_params app email) [] 0 (1 ∷ 2 ∷ more) none r0 s s1
              (first_attempt app email s w1 there)
            ∙ goes_on Table (creation_params app email) (0 ∷ []) 1 (2 ∷ more) r0 r1 s1 s2
                (second_attempt app email r0 s1)
            ∙ ends Table (creation_params app email) (1 ∷ 0 ∷ []) 2 more r1 none s2 s3
                (failed app_already_exists) (third_attempt app email r1 s2 w3 up refused),
        undone app email s3 refl refl,
      )
