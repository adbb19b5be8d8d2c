-- ===== src/App/Creation/Pipelines.antt =====
-- `CreateApp` and `AddUnits` of globocom/tsuru/app/app.go: the checks, and the pipelines.
use docker_stuff.Base.{
  ℕ, zero, suc, leb, ◌==◌, ◌&&◌, ◌||◌, if◌then◌else◌, Bool, true, false, List, [], ◌∷◌, Option,
  none, some, Bytes,
}
use docker_stuff.Action.{PipelineError, Action, State, execute}
use docker_stuff.Quota.{Collection}
use docker_stuff.App.{App}
use docker_stuff.App.Teams.{set_teams}
use docker_stuff.App.Creation.{
  Backend, Param, an_app, a_user, a_number, Result, CreationError, reserve_user_app,
  create_app_quota, insert_app,
}
use docker_stuff.App.Creation.Adding.{
  reserve_units_to_add, provision_add_units, save_new_units_in_database,
}

pub data CreateError : Type 0 where
  teams_unknown no_teams invalid_platform invalid_name zero_units : CreateError
  creation_failed : PipelineError CreationError → CreateError

-- `isValid`: a lower case letter, and up to 62 more, digits and dashes.
abbrev name_byte : ℕ → Bool
name_byte c = leb b'a' c && leb c b'z' || leb b'0' c && leb c b'9' || c == b'-'

abbrev name_rest : ℕ → Bytes → Bool
name_rest fuel [] = true
name_rest zero (c ∷ s) = false
name_rest (suc fuel) (c ∷ s) = name_byte c && name_rest fuel s

abbrev pub is_valid : Bytes → Bool
is_valid [] = false
is_valid (c ∷ s) = leb b'a' c && leb c b'z' && name_rest 62 s

module _ {W : Type 0} (c : Collection W) (b : Backend W) (units_per_app : Option ℕ) where
  -- The actions by address; from 6 on, the others of `CreateApp`.
  abbrev pub actions :
      (ℕ → Action W Result CreationError Param) → ℕ → Action W Result CreationError Param
  actions others a =
      if a == 0
      then reserve_user_app c b units_per_app
      else if a == 1
      then create_app_quota c b units_per_app
      else if a == 2
      then insert_app c b units_per_app
      else if a == 3
      then reserve_units_to_add c b
      else if a == 4
      then provision_add_units c b
      else if a == 5
      then save_new_units_in_database c b
      else others a

  -- `CreateApp`, with the answers to the queries for the teams of the user and for the platform.
  unfoldable pub create_app :
      (ℕ → Action W Result CreationError Param)
      → List ℕ
      → App
      → Bytes
      → Option (List Bytes)
      → Bool
      → State W Result
      → Option CreateError × State W Result
  unfolding execute set_teams
  create_app others more app email none platform s = (some teams_unknown, s)
  create_app others more app email (some []) platform s = (some no_teams, s)
  create_app others more app email (some (t ∷ teams)) platform s =
      let owned = record app { teams = set_teams (t ∷ teams); owner = email } in
      let (e, s') =
        execute (actions others) (an_app owned ∷ a_user email ∷ []) (0 ∷ 1 ∷ 2 ∷ more) s in
      if platform
      then (if is_valid app.name
          then (elim e [ none ↦ none | some x ↦ some (creation_failed x) ], s')
          else (some invalid_name, s))
      else (some invalid_platform, s)

  -- `AddUnits`, on a uint of 64 bits.
  unfoldable pub add_units :
      (ℕ → Action W Result CreationError Param)
      → App
      → ℕ
      → State W Result
      → Option CreateError × State W Result
  unfolding execute
  add_units others app zero s = (some zero_units, s)
  add_units others app (suc n) s =
      let (e, s') =
        execute (actions others) (an_app app ∷ a_number (suc n) ∷ []) (3 ∷ 4 ∷ 5 ∷ []) s in
      (elim e [ none ↦ none | some x ↦ some (creation_failed x) ], s')
