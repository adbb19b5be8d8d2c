-- ===== src/App/Env.antt =====
-- The environment of an app: `setEnv`, `getEnv`, `InstanceEnv`, `setEnvsToApp` and `UnsetEnvs` of
-- globocom/tsuru/app/app.go. The collection of the apps, the queue and the goroutine that writes the
-- file in the units are parameters; the log is left out.
pub mod Laws
use docker_stuff.Base.{
  if◌then◌else◌, ◌≡◌, ◌⊎◌, refl, sym, ap, ◌∙◌, Bool, true, false, not, ◌&&◌, ◌||◌, List, [], ◌∷◌,
  Option, none, some, Bytes, All, arith, Bool-cases, inl, inr,
}
use docker_stuff.Text.Split.{eq_bytes, eq_bytes_iff, has_text}
use docker_stuff.TagStore.Tables.{find, put, erase}
use docker_stuff.TagStore.Lookups.{find-put, find-erase}
use docker_stuff.App.{EnvVar, App}

abbrev pub Env : Type 0
Env = List (Bytes × EnvVar)

-- `setEnv`
abbrev pub set_env : EnvVar → Env → Env
set_env e env = put e.name e env

-- `getEnv`: `none` is its error.
abbrev pub get_env : Bytes → Env → Option EnvVar
get_env name env = find name env

-- Whether a variable may be written.
abbrev pub settable : Bool → Option EnvVar → Bool
settable public_only none = true
settable public_only (some e) = not public_only || e.public

-- Whether a variable may be taken out.
abbrev pub unsettable : Bool → Option EnvVar → Bool
unsettable public_only none = not public_only
unsettable public_only (some e) = not public_only || e.public

-- The loop of `setEnvsToApp`.
unfoldable pub set_all : Bool → List EnvVar → Env → Env
unfolding find put
set_all public_only [] env = env
set_all public_only (e ∷ envs) env =
    set_all public_only envs
      (if settable public_only (get_env e.name env) then set_env e env else env)

-- The loop of `UnsetEnvs`.
unfoldable pub unset_all : Bool → List Bytes → Env → Env
unfolding find erase
unset_all public_only [] env = env
unset_all public_only (name ∷ names) env =
    unset_all public_only names
      (if unsettable public_only (get_env name env) then erase name env else env)

-- `InstanceEnv`
unfoldable pub instance_env : Bytes → Env → Env
unfolding eq_bytes
instance_env name [] = []
instance_env name ((k, e) ∷ env) =
    let rest = instance_env name env in
    if eq_bytes e.instance_name name then (k, e) ∷ rest else rest

-- The collection of the apps, and what is started after a change.
pub record Saving (W : Type 0) : Type 0 where
  pub connected : W → Bool
  pub update_env : Bytes → Env → W → Bool × W
  pub enqueue : Bytes → W → W
  pub serialize : App → W → W

pub data SaveError : Type 0 where
  no_connection update_failed : SaveError

abbrev pub Saved : Type 0 → Type 0
Saved W = Option SaveError × App × W

module _ {W : Type 0} (d : Saving W) where
  -- The part after the loops: what is written, and what is then started.
  unfoldable pub save : Bool → App → W → Saved W
  save use_queue app w =
      let (ok, w') = d.update_env app.name app.env w in
      if d.connected w
      then (if ok
          then (none, app, if use_queue then d.enqueue app.name w' else d.serialize app w')
          else (some update_failed, app, w'))
      else (some no_connection, app, w)

  unfoldable pub set_envs_to_app : List EnvVar → Bool → Bool → App → W → Saved W
  unfolding set_all save
  set_envs_to_app [] public_only use_queue app w = (none, app, w)
  set_envs_to_app (e ∷ envs) public_only use_queue app w =
      save use_queue (record app { env = set_all public_only (e ∷ envs) app.env }) w

  unfoldable pub unset_envs : List Bytes → Bool → App → W → Saved W
  unfolding unset_all save
  unset_envs [] public_only app w = (none, app, w)
  unset_envs (name ∷ names) public_only app w =
      save false (record app { env = unset_all public_only (name ∷ names) app.env }) w
