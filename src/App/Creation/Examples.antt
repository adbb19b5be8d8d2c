-- ===== src/App/Creation/Examples.antt =====
-- The creation of an app whose name is taken.
use docker_stuff.Base.{ℕ, ◌≡◌, refl, true, List, [], ◌∷◌, none, some, Bytes}
use docker_stuff.Text.Split.{eq_bytes, has_text}
use docker_stuff.TagStore.Tables.{find, put, erase}
use docker_stuff.Action.{Action, failed, State, execute}
use docker_stuff.Quota.{Usage, stored, duplicate, reserve, create}
use docker_stuff.Quota.Documented.{add_each}
use docker_stuff.Quota.Examples.{memory, memory-Documented}
use docker_stuff.App.{App}
use docker_stuff.App.Creation.{
  Backend, Param, an_app, a_user, Result, CreationError, app_already_exists, with_unit,
}
use docker_stuff.App.Creation.Pipelines.{actions}
use docker_stuff.App.Creation.Undo.{with_quota}
use docker_stuff.App.Creation.Quotas.{create_existing}

abbrev World : Type 0
World = List (Bytes × Usage)

-- A collection of the apps in which every name is taken.
abbrev full : Backend World
full = record {
  db_up = λ w. true;
  get_app = λ name w. none;
  insert = λ a w. (duplicate, w);
  remove = λ name w. w;
  update_units = λ name units w. (true, w);
  add_units = λ a n w. (none, w);
  remove_unit = λ app_name name w. w;
  enqueue = λ name names w. w;
}

abbrev app_name : Bytes
app_name = b'a' ∷ []

abbrev email : Bytes
email = b'u' ∷ []

abbrev app : App
app = record {
  env = [];
  platform = [];
  name = app_name;
  ip = [];
  cname = [];
  units = [];
  teams = [];
  owner = email;
  state = [];
  deploys = 0;
}

-- The user has the app, and the app has one unit.
abbrev quotas : World
quotas =
    (email, record { items = app_name ∷ []; limit = 2 })
    ∷ (app_name, record { items = (b'a' ∷ b'-' ∷ b'0' ∷ []) ∷ []; limit = 5 })
    ∷ []

abbrev others : ℕ → Action World Result CreationError Param
others n = record { forward = none; backward = none; min_params = 0 }

abbrev start : State World Result
start = record { world = quotas; results = λ a. none }

abbrev left : World
left = (email, record { items = app_name ∷ []; limit = 2 }) ∷ []

has_room : reserve memory email (app_name ∷ []) quotas ≡ (none, quotas)
unfolding reserve find put eq_bytes add_each has_text
has_room = refl

same_quotas : with_quota memory full 4 others app quotas ≡ quotas
unfolding reserve create find put eq_bytes add_each has_text
same_quotas = refl

loses_quota : memory.remove app_name quotas ≡ (stored, left)
unfolding find erase eq_bytes
loses_quota = refl

refuses :
    full.insert (with_unit app) (with_quota memory full 4 others app quotas) ≡ (duplicate, quotas)
unfolding reserve create find put eq_bytes add_each has_text
refuses = refl

create_existing_example :
    (s' : State World Result) × (execute
        (actions memory full (some 5) others)
        (an_app app ∷ a_user email ∷ [])
        (0 ∷ 1 ∷ 2 ∷ [])
        start
      ≡ (some (failed app_already_exists), s'))
    × (find app_name s'.world ≡ none)
create_existing_example =
    create_existing memory memory-Documented full 4 others app email [] start quotas quotas left
      has_room refl refuses refl loses_quota
