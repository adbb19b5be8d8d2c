-- ===== src/App/Units.antt =====
-- The units of an app: `AddUnit`, `removeUnits`, `RemoveUnit`, `RemoveUnits` and `Available` of
-- globocom/tsuru/app/app.go, and unit.go. An int is a pattern of 64 bits.
pub mod Indices
pub mod Survivors
pub mod Items
pub mod Examples
use docker_stuff.Base.{
  ℕ, zero, suc, ◌+◌, ◌-◌, ◌*◌, ◌%◌, ◌^◌, ltb, leb, ◌==◌, if◌then◌else◌, Bool, true, false, not,
  ◌&&◌, ◌||◌, List, [], ◌∷◌, ◌++◌, Option, none, some, Bytes, length, get_elem?, take, drop,
}
use docker_stuff.Text.Split.{eq_bytes}
use docker_stuff.Text.Trim.{has_prefix}
use docker_stuff.App.{AppUnit, App}
use docker_stuff.Text.Decimal.{is_digit, itoa, value_from}
use docker_stuff.Quota.{Collection, release}

-- The text after the first match of a prefix, for each place where the prefix matches.
unfoldable pub leading_digits : Bytes → Bytes
unfolding is_digit
leading_digits [] = []
leading_digits (c ∷ s) = let more = leading_digits s in if is_digit c then c ∷ more else []

abbrev pub is_empty : Bytes → Bool
is_empty [] = true
is_empty (c ∷ s) = false

-- `FindStringSubmatch` for the name of an app, a dash and a group of digits. The name of a valid app
-- has no special character.
unfoldable pub number_in : Bytes → Bytes → Option Bytes
unfolding has_prefix leading_digits
number_in front [] = none
number_in front (c ∷ s) =
    let later = number_in front s in
    let number = leading_digits (drop (length front) (c ∷ s)) in
    if has_prefix front (c ∷ s) && not (is_empty number) then some number else later

-- `strconv.Atoi` of digits, whose error is ignored: the largest int, for what is past it.
unfoldable pub atoi : Bytes → ℕ
unfolding value_from
atoi s = let n = value_from 0 s in if ltb n (2 ^ 63) then n else 2 ^ 63 - 1

-- `%d`
unfoldable pub print_int : ℕ → Bytes
unfolding itoa
print_int n = if ltb n (2 ^ 63) then itoa n else b'-' ∷ itoa (2 ^ 64 - n)

abbrev pub last_unit : List AppUnit → Option AppUnit
last_unit [] = none
last_unit (u ∷ []) = some u
last_unit (u ∷ v ∷ units) = last_unit (v ∷ units)

-- The number of the first new item.
unfoldable pub initial_item : App → ℕ
unfolding number_in atoi
initial_item app = elim (last_unit app.units) [
  | none ↦ 0
  | some u ↦ elim (number_in (app.name ++ b'-' ∷ []) u.quota_item) [
    | none ↦ 0
    | some number ↦ (atoi number + 1) % 2 ^ 64
  ]
]

unfoldable pub item : App → ℕ → Bytes
unfolding print_int
item app i = app.name ++ b'-' ∷ print_int i

unfoldable pub items_from : App → ℕ → ℕ → List Bytes
unfolding item
items_from app initial zero = []
items_from app initial (suc n) = item app initial ∷ items_from app ((initial + 1) % 2 ^ 64) n

-- `generateUnitQuotaItems`
unfoldable pub generate_unit_quota_items : App → ℕ → List Bytes
unfolding initial_item items_from
generate_unit_quota_items app n = items_from app (initial_item app) n

-- Whether a unit of the app is the one that `AddUnit` replaces.
unfoldable pub replaced_by : App → AppUnit → AppUnit → Bool
unfolding eq_bytes item
replaced_by app u unt =
    eq_bytes unt.name u.name
    || is_empty unt.name && eq_bytes unt.quota_item (app.name ++ b'-' ∷ b'0' ∷ [])

-- The loop of `AddUnit`: `none` if it comes to the end.
unfoldable pub replace_unit : App → AppUnit → List AppUnit → Option (List AppUnit)
unfolding replaced_by
replace_unit app u [] = none
replace_unit app u (unt ∷ units) =
    let rest = replace_unit app u units in
    if replaced_by app u unt
    then some (record u { quota_item = unt.quota_item } ∷ units)
    else elim rest [ none ↦ none | some units' ↦ some (unt ∷ units') ]

unfoldable pub add_unit : AppUnit → App → App
unfolding replace_unit item initial_item
add_unit u app = elim (replace_unit app u app.units) [
  | some units ↦ record app { units = units }
  | none ↦ record app {
    units = app.units ++ record u { quota_item = item app (initial_item app) } ∷ [];
  }
]

-- Whether the indices are the first ones.
unfoldable pub is_front : ℕ → List ℕ → Bool
is_front i [] = true
is_front i (index ∷ indices) = i == index && is_front (suc i) indices

-- One round of the loop of `removeUnits`: `none` is a panic, for a negative index and for no units.
unfoldable pub take_out : ℕ → ℕ → List AppUnit → Option (List AppUnit)
take_out i index units =
    if ltb index i || length units == 0
    then none
    else if ltb (index - i + 1) (length units)
    then some (take (index - i) units ++ drop (index - i + 1) units)
    else some (take (length units - 1) units)

unfoldable pub take_each : ℕ → List ℕ → List AppUnit → Option (List AppUnit)
unfolding take_out
take_each i [] units = some units
take_each i (index ∷ indices) units = elim (take_out i index units) [
  | none ↦ none
  | some rest ↦ take_each (suc i) indices rest
]

-- `removeUnits`
unfoldable pub remove_indices : List ℕ → List AppUnit → Option (List AppUnit)
unfolding is_front take_each
remove_indices indices units =
    if is_front 0 indices then some (drop (length indices) units) else take_each 0 indices units

-- The provisioner, the services and the collection of the apps.
pub record Platform (W : Type 0) : Type 0 where
  pub connected : W → Bool
  pub update_units : Bytes → List AppUnit → W → Bool × W
  pub remove_unit : Bytes → Bytes → W → Bool × W
  pub unbind_unit : Bytes → AppUnit → W → W

pub data UnitError : Type 0 where
  zero_units all_units too_many unit_not_found : UnitError
  remove_failed no_database update_failed : UnitError

-- `removed`, an app and a world; a panic.
pub data Removal (W : Type 0) : Type 0 where
  removed : Option UnitError → App → W → Removal W
  units_panic : Removal W

abbrev pub with_units :
    {W : Type 0} → App → W → Option UnitError → Option (List AppUnit) → Removal W
with_units app w e none = units_panic
with_units app w e (some units) = removed e (record app { units = units }) w

-- The items of the units of a quota.
abbrev pub quota_items : List AppUnit → List Bytes
quota_items [] = []
quota_items (u ∷ units) = u.quota_item ∷ quota_items units

module _ {W : Type 0} (p : Platform W) where
  -- The loop of `RemoveUnits` over the first units: the indices of those that were removed.
  unfoldable pub remove_each : Bytes → ℕ → ℕ → List AppUnit → W → List ℕ × W
  remove_each name zero i units w = ([], w)
  remove_each name (suc n) i [] w = ([], w)
  remove_each name (suc n) i (u ∷ units) w =
      let (ok, w1) = p.remove_unit name u.name w in
      let (later, w2) = remove_each name n (suc i) units (p.unbind_unit name u w1) in
      (if ok then i ∷ later else later, w2)

  abbrev pub ended : Bool → Option UnitError
  ended ok = if ok then none else some update_failed

  module _ (c : Collection W) (sort : List AppUnit → List AppUnit) where
    -- `RemoveUnits` after the loop.
    abbrev pub save_removed : ℕ → List ℕ → App → W → Removal W
    save_removed n [] app w = removed (some remove_failed) app w
    save_removed n (index ∷ indices) app w =
        let rest = remove_indices (index ∷ indices) app.units in
        let (ok, w1) = p.update_units app.name (elim rest [ none ↦ [] | some units ↦ units ]) w in
        let w2 = (release c app.name (quota_items (take n app.units)) w1).1 in
        if p.connected w
        then with_units app w2 (ended ok) rest
        else removed (some no_database) app w

    -- `RemoveUnits`. The sort is by `weight`, and in place.
    unfoldable pub remove_units : ℕ → App → W → Removal W
    unfolding remove_each remove_indices release
    remove_units n app w =
        let l = length app.units in
        let sorted = record app { units = sort app.units } in
        let (indices, w1) = remove_each app.name n 0 sorted.units w in
        if n == 0
        then removed (some zero_units) app w
        else if l == n
        then removed (some all_units) app w
        else if ltb l n
        then removed (some too_many) app w
        else save_removed n indices sorted w1

  -- The first unit with an identifier or a name, and its index.
  unfoldable pub unit_at : Bytes → ℕ → List AppUnit → Option (ℕ × AppUnit)
  unfolding eq_bytes
  unit_at id i [] = none
  unit_at id i (u ∷ units) =
      let rest = unit_at id (suc i) units in
      if eq_bytes u.instance_id id || eq_bytes u.name id then some (i, u) else rest

  abbrev pub save_units : App → Option (List AppUnit) → W → Removal W
  save_units app none w = units_panic
  save_units app (some units) w =
      let (ok, w1) = p.update_units app.name units w in
      if p.connected w
      then removed (ended ok) (record app { units = units }) w1
      else removed (some no_database) (record app { units = units }) w

  -- `RemoveUnit`
  unfoldable pub remove_unit_by : Bytes → App → W → Removal W
  unfolding unit_at remove_indices
  remove_unit_by id app w = elim (unit_at id 0 app.units) [
    | none ↦ removed (some unit_not_found) app w
    | some (i, u) ↦
        let (ok, w1) = p.remove_unit app.name u.name w in
        if is_empty u.name
        then removed (some unit_not_found) app w
        else if ok
        then save_units app (remove_indices (i ∷ []) app.units) (p.unbind_unit app.name u w1)
        else removed (some remove_failed) app w1
  ]

-- The order of `UnitSlice`, by state; an unknown state weighs nothing.
unfoldable pub weight : Bytes → ℕ
unfolding eq_bytes
weight state =
    if eq_bytes state (b'd' ∷ b'o' ∷ b'w' ∷ b'n' ∷ [])
    then 1
    else if eq_bytes state (b'p' ∷ b'e' ∷ b'n' ∷ b'd' ∷ b'i' ∷ b'n' ∷ b'g' ∷ [])
    then 2
    else if eq_bytes state (b'c' ∷ b'r' ∷ b'e' ∷ b'a' ∷ b't' ∷ b'i' ∷ b'n' ∷ b'g' ∷ [])
    then 3
    else if eq_bytes state
        (b'i' ∷ b'n' ∷ b's' ∷ b't' ∷ b'a' ∷ b'l' ∷ b'l' ∷ b'i' ∷ b'n' ∷ b'g' ∷ [])
    then 4
    else if eq_bytes state (b's' ∷ b't' ∷ b'a' ∷ b'r' ∷ b't' ∷ b'e' ∷ b'd' ∷ [])
    then 5
    else 0

unfoldable pub less_unit : AppUnit → AppUnit → Bool
unfolding weight
less_unit u v = ltb (weight u.state) (weight v.state)

-- `Available`
unfoldable pub available : List AppUnit → Bool
unfolding eq_bytes
available [] = false
available (u ∷ units) =
    eq_bytes u.state (b's' ∷ b't' ∷ b'a' ∷ b'r' ∷ b't' ∷ b'e' ∷ b'd' ∷ []) || available units
