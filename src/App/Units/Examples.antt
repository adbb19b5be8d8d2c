-- ===== src/App/Units/Examples.antt =====
-- An app of three units, on a provisioner that cannot remove the unit `z`.
use docker_stuff.Base.{ℕ, ◌≡◌, refl, true, false, not, List, [], ◌∷◌, some, Bytes, All, arith}
use docker_stuff.Text.Split.{eq_bytes, has_text}
use docker_stuff.Text.Trim.{has_prefix}
use docker_stuff.Text.Decimal.{is_digit, digits, itoa, value_from}
use docker_stuff.Quota.{Usage}
use docker_stuff.Quota.Examples.{memory}
use docker_stuff.App.{AppUnit, App}
use docker_stuff.App.Units.{
  leading_digits, number_in, atoi, print_int, initial_item, item, items_from,
  generate_unit_quota_items, quota_items, remove_indices, Platform, remove_units,
}
use docker_stuff.App.Units.Indices.{without, remove_indices_lem}
use docker_stuff.App.Units.Survivors.{survivors, Left, remove_units-Left}
use docker_stuff.App.Units.Items.{numbered, generate_fresh}

abbrev unit_of : ℕ → ℕ → AppUnit
unit_of name number = record {
  name = name ∷ [];
  kind = [];
  machine = 0;
  instance_id = [];
  ip = [];
  state = [];
  quota_item = b'a' ∷ b'-' ∷ number ∷ [];
}

abbrev x_unit : AppUnit
x_unit = unit_of b'x' b'0'

abbrev y_unit : AppUnit
y_unit = unit_of b'y' b'1'

abbrev z_unit : AppUnit
z_unit = unit_of b'z' b'2'

abbrev app_of : List AppUnit → App
app_of units = record {
  env = [];
  platform = [];
  name = b'a' ∷ [];
  ip = [];
  cname = [];
  units = units;
  teams = [];
  owner = [];
  state = [];
  deploys = 0;
}

abbrev app : App
app = app_of (x_unit ∷ y_unit ∷ z_unit ∷ [])

abbrev World : Type 0
World = List (Bytes × Usage)

abbrev platform : Platform World
platform = record {
  connected = λ w. true;
  update_units = λ name units w. (true, w);
  remove_unit = λ app_name name w. (not (eq_bytes name (b'z' ∷ [])), w);
  unbind_unit = λ app_name u w. w;
}

-- The units with the first one at the end.
abbrev turned : List AppUnit → List AppUnit
turned units = z_unit ∷ y_unit ∷ x_unit ∷ []

remove_indices_lem_example :
    remove_indices (0 ∷ 2 ∷ []) app.units ≡ some (without 0 (0 ∷ 2 ∷ []) app.units)
remove_indices_lem_example =
    remove_indices_lem (0 ∷ 2 ∷ []) app.units
      (omega arith, omega arith, (omega arith, omega arith, tt))

remove_units-Left_example :
    remove_units platform memory turned 2 app []
    ≡ Left platform memory turned 2
        (app_of (turned []))
        (survivors platform (b'a' ∷ []) 2 (turned []) [])
remove_units-Left_example =
    remove_units-Left platform memory turned 2 app [] (omega arith) (omega arith) refl

-- The unit that could not be removed stays.
stays : (survivors platform (b'a' ∷ []) 2 (turned []) []).0 ≡ z_unit ∷ x_unit ∷ []
unfolding eq_bytes
stays = refl

apps_items : (initial_item app ≡ 3) × (initial_item (app_of (turned [])) ≡ 1)
unfolding initial_item number_in has_prefix leading_digits is_digit atoi value_from
apps_items = (refl, refl)

-- The last unit has the highest number: the next ones are new.
generate_fresh_example :
    (generate_unit_quota_items app 2 ≡ numbered app 3 2)
    × All (λ t. has_text t (quota_items app.units) ≡ false) (generate_unit_quota_items app 2)
unfolding item print_int itoa digits
generate_fresh_example =
    generate_fresh app z_unit 2 2 refl refl (omega arith)
      ((0, omega arith, refl), ((1, omega arith, refl), ((2, omega arith, refl), tt)))

-- With the units turned round, the next item is that of a unit that is there.
taken : generate_unit_quota_items (app_of (turned [])) 1 ≡ y_unit.quota_item ∷ []
unfolding generate_unit_quota_items items_from item print_int itoa digits initial_item number_in
    has_prefix leading_digits is_digit atoi value_from
taken = refl
