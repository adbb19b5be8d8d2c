-- ===== src/App/Creation.antt =====
-- The actions of globocom/tsuru/app/actions.go that reserve quotas: the first three of `CreateApp`,
-- and those of `AddUnits`. The collections, the queue and the provisioner are parameters. An app is
-- passed by value or by pointer, which these actions do not tell apart: they copy it.
pub mod Adding
pub mod Pipelines
pub mod Quotas
pub mod Undo
pub mod Examples
use docker_stuff.Base.{
  ℕ, zero, suc, ◌+◌, leb, ◌==◌, ◌&&◌, ◌||◌, if◌then◌else◌, Bool, true, false, List, [], ◌∷◌, ◌++◌,
  Option, none, some, Bytes, length,
}
use docker_stuff.Action.{PipelineError, Action, FwContext, BwContext, Ended, State, execute}
use docker_stuff.Quota.{
  DbResult, stored, duplicate, not_found, db_failed, Collection, QuotaError, quota_not_found,
  Outcome, reserve, release, create, delete,
}
use docker_stuff.App.{AppUnit, App}
use docker_stuff.App.Teams.{set_teams}
use docker_stuff.App.Units.{generate_unit_quota_items}

pub record Backend (W : Type 0) : Type 0 where
  pub db_up : W → Bool
  pub get_app : Bytes → W → Option App
  pub insert : App → W → DbResult × W
  pub remove : Bytes → W → W
  pub update_units : Bytes → List AppUnit → W → Bool × W
  pub add_units : App → ℕ → W → Option (List AppUnit) × W
  pub remove_unit : Bytes → Bytes → W → W
  pub enqueue : Bytes → List Bytes → W → W

-- What is passed to a pipeline: an app, a user by the e-mail address, a number.
pub data Param : Type 0 where
  an_app : App → Param
  a_user : Bytes → Param
  a_number : ℕ → Param

-- What the actions return.
pub data Result : Type 0 where
  reservation : Bytes → Bytes → Result
  quota_of : Bytes → Result
  stored_app : App → Result
  reserved_items : List Bytes → Result
  added_units : List AppUnit → List Bytes → Result

pub data CreationError : Type 0 where
  not_an_app not_a_user not_a_number : CreationError
  quota_error : QuotaError → CreationError
  disallowed app_already_exists database_down : CreationError
  insert_failed : DbResult → CreationError
  app_not_found provision_failed update_failed : CreationError

abbrev pub first_app : List Param → Option App
first_app [] = none
first_app (an_app app ∷ params) = some app
first_app (a_user u ∷ params) = none
first_app (a_number n ∷ params) = none

abbrev second_user : List Param → Option Bytes
second_user (p ∷ a_user u ∷ params) = some u
second_user params = none

abbrev second_number : List Param → Option ℕ
second_number (p ∷ a_number n ∷ params) = some n
second_number params = none

abbrev pub Answer : Type 0 → Type 0
Answer W = Option Result × Option CreationError × W

-- A quota that is not there is no limit.
abbrev pub reserved : {W : Type 0} → Result → Outcome × W → Answer W
reserved r (none, w) = (some r, none, w)
reserved r (some quota_not_found, w) = (some r, none, w)
reserved r (some e, w) = (none, some (quota_error e), w)

abbrev pub inserted : {W : Type 0} → App → DbResult × W → Answer W
inserted app (stored, w) = (some (stored_app app), none, w)
inserted app (duplicate, w) = (none, some app_already_exists, w)
inserted app (not_found, w) = (some (stored_app app), some (insert_failed not_found), w)
inserted app (db_failed, w) = (some (stored_app app), some (insert_failed db_failed), w)

abbrev pub first_item : App → Bytes
first_item app = app.name ++ b'-' ∷ b'0' ∷ []

-- The unit that `insertApp` adds.
abbrev pub with_unit : App → App
with_unit app = record app {
  units =
      app.units
      ++ record {
        name = [];
        kind = [];
        machine = 0;
        instance_id = [];
        ip = [];
        state = [];
        quota_item = first_item app;
      }
        ∷ [];
}

module _ {W : Type 0} (c : Collection W) (b : Backend W) (units_per_app : Option ℕ) where
  -- `reserveUserApp`. A result of another type makes a backward phase panic; none is stored.
  abbrev pub reserve_for_user : List Param → W → Answer W
  reserve_for_user params w = elim (first_app params) [
    | none ↦ (none, some not_an_app, w)
    | some app ↦ elim (second_user params) [
      | none ↦ (none, some not_a_user, w)
      | some user ↦ reserved (reservation app.name user) (reserve c user (app.name ∷ []) w)
    ]
  ]

  abbrev pub release_for_user : Option Result → W → W
  release_for_user (some (reservation app user)) w = (release c user (app ∷ []) w).1
  release_for_user r w = w

  abbrev pub reserve_user_app : Action W Result CreationError Param
  reserve_user_app = record {
    forward = some (λ ctx w. reserve_for_user ctx.params w);
    backward = some (λ ctx w. release_for_user ctx.fw_result w);
    min_params = 2;
  }

  -- `createAppQuota`: the errors of the two calls are ignored.
  abbrev pub quota_for_app : App → Option ℕ → W → Answer W
  quota_for_app app none w = (some (quota_of app.name), none, w)
  quota_for_app app (some zero) w = (none, some disallowed, w)
  quota_for_app app (some (suc limit)) w =
      let (e, w1) = create c app.name (suc limit) w in
      let (e', w2) = reserve c app.name (first_item app ∷ []) w1 in
      (some (quota_of app.name), none, w2)

  abbrev pub quota_created : List Param → W → Answer W
  quota_created params w = elim (first_app params) [
    | none ↦ (none, some not_an_app, w)
    | some app ↦ quota_for_app app units_per_app w
  ]

  abbrev pub quota_deleted : Option Result → W → W
  quota_deleted (some (quota_of app)) w = (delete c app w).1
  quota_deleted r w = w

  abbrev pub create_app_quota : Action W Result CreationError Param
  create_app_quota = record {
    forward = some (λ ctx w. quota_created ctx.params w);
    backward = some (λ ctx w. quota_deleted ctx.fw_result w);
    min_params = 1;
  }

  -- `insertApp`
  abbrev pub app_inserted : List Param → W → Answer W
  app_inserted params w = elim (first_app params) [
    | none ↦ (none, some not_an_app, w)
    | some app ↦
        let t = inserted (with_unit app) (b.insert (with_unit app) w) in
        if b.db_up w then t else (none, some database_down, w)
  ]

  abbrev app_removed : Option Result → W → W
  app_removed (some (stored_app app)) w = if b.db_up w then b.remove app.name w else w
  app_removed r w = w

  abbrev pub insert_app : Action W Result CreationError Param
  insert_app = record {
    forward = some (λ ctx w. app_inserted ctx.params w);
    backward = some (λ ctx w. app_removed ctx.fw_result w);
    min_params = 1;
  }
