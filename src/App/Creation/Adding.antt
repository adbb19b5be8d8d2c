-- ===== src/App/Creation/Adding.antt =====
-- The actions of `AddUnits`, of globocom/tsuru/app/actions.go.
use docker_stuff.Base.{
  ℕ, if◌then◌else◌, Bool, true, false, List, [], ◌∷◌, ◌++◌, Option, none, some, Bytes, length,
}
use docker_stuff.Action.{Action}
use docker_stuff.Quota.{Collection, reserve, release}
use docker_stuff.App.{AppUnit}
use docker_stuff.App.Units.{generate_unit_quota_items}
use docker_stuff.App.Creation.{
  Backend, Param, Result, reserved_items, added_units, CreationError, not_an_app, not_a_number,
  database_down, app_not_found, provision_failed, update_failed, first_app, second_number, Answer,
  reserved,
}

-- The new units, with their items. The provisioner adds as many units as are asked for, and for more
-- of them the code panics.
abbrev new_units : List AppUnit → List Bytes → List AppUnit
new_units [] ids = []
new_units (u ∷ units) [] = []
new_units (u ∷ units) (i ∷ ids) =
    record u { state = b'p' ∷ b'e' ∷ b'n' ∷ b'd' ∷ b'i' ∷ b'n' ∷ b'g' ∷ []; quota_item = i }
    ∷ new_units units ids

abbrev unit_names : List AppUnit → List Bytes
unit_names [] = []
unit_names (u ∷ units) = u.name ∷ unit_names units

module _ {W : Type 0} (c : Collection W) (b : Backend W) where
  -- `reserveUnitsToAdd`. The number is that of a slice, below 2 ^ 63.
  abbrev pub items_for : Bytes → ℕ → W → Answer W
  items_for name n w = elim (b.get_app name w) [
    | none ↦ (none, some app_not_found, w)
    | some app ↦
        let items = generate_unit_quota_items app n in
        reserved (reserved_items items) (reserve c app.name items w)
  ]

  abbrev pub units_reserved : List Param → W → Answer W
  units_reserved params w = elim (first_app params) [
    | none ↦ (none, some not_an_app, w)
    | some app ↦ elim (second_number params) [
      | none ↦ (none, some not_a_number, w)
      | some n ↦ if b.db_up w then items_for app.name n w else (none, some database_down, w)
    ]
  ]

  abbrev units_released : List Param → Option Result → W → W
  units_released params (some (reserved_items items)) w = elim (first_app params) [
    | none ↦ w
    | some app ↦ (release c app.name items w).1
  ]
  units_released params r w = w

  abbrev pub reserve_units_to_add : Action W Result CreationError Param
  reserve_units_to_add = record {
    forward = some (λ ctx w. units_reserved ctx.params w);
    backward = some (λ ctx w. units_released ctx.params ctx.fw_result w);
    min_params = 2;
  }

  -- `provisionAddUnits`
  abbrev units_added : List Param → Option Result → W → Answer W
  units_added params (some (reserved_items ids)) w = elim (first_app params) [
    | none ↦ (none, some not_an_app, w)
    | some app ↦
        let (added, w1) = b.add_units app (length ids) w in
        elim added [
          | none ↦ (none, some provision_failed, w1)
          | some units ↦ (some (added_units units ids), none, w1)
        ]
  ]
  units_added params r w = (none, some not_an_app, w)

  abbrev each_removed : Bytes → List AppUnit → W → W
  each_removed name [] w = w
  each_removed name (u ∷ units) w = each_removed name units (b.remove_unit name u.name w)

  abbrev units_removed : List Param → Option Result → W → W
  units_removed params (some (added_units units ids)) w = elim (first_app params) [
    | none ↦ w
    | some app ↦ each_removed app.name units w
  ]
  units_removed params r w = w

  abbrev pub provision_add_units : Action W Result CreationError Param
  provision_add_units = record {
    forward = some (λ ctx w. units_added ctx.params ctx.previous w);
    backward = some (λ ctx w. units_removed ctx.params ctx.fw_result w);
    min_params = 1;
  }

  abbrev saved : Bytes → List AppUnit → Bool × W → Answer W
  saved name units (true, w) = (none, none, b.enqueue name (unit_names units) w)
  saved name units (false, w) = (none, some update_failed, w)

  abbrev units_saved : List Param → Option Result → W → Answer W
  units_saved params (some (added_units units ids)) w = elim (first_app params) [
    | none ↦ (none, some not_an_app, w)
    | some app ↦
        if b.db_up w
        then elim (b.get_app app.name w) [
          | none ↦ (none, some app_not_found, w)
          | some now ↦
              saved now.name units (b.update_units now.name (now.units ++ new_units units ids) w)
        ]
        else (none, some database_down, w)
  ]
  units_saved params r w = (none, some not_an_app, w)

  -- `saveNewUnitsInDatabase`
  abbrev pub save_new_units_in_database : Action W Result CreationError Param
  save_new_units_in_database = record {
    forward = some (λ ctx w. units_saved ctx.params ctx.previous w);
    backward = none;
    min_params = 1;
  }
