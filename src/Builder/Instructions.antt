-- ===== src/Builder/Instructions.antt =====
-- The instructions of dotcloud/docker/buildfile.go, but for `CmdEnv` and `CmdAdd`.
pub mod Sound
pub mod Variables
use docker_stuff.Base.{
  ℕ, if◌then◌else◌, Bool, true, false, List, [], ◌∷◌, ◌++◌, Option, none, some, Bytes, codes,
}
use docker_stuff.Text.Split.{split}
use docker_stuff.Text.Trim.{join}
use docker_stuff.Config.{Config, merge_config, add_volumes}
use docker_stuff.Names.{parse_repository_tag}
use docker_stuff.Builder.{
  BuildFile, Outside, Result, ok, err, panicked, BuildError, no_source, deprecated, empty_argument,
  outside_failed, Lookup, found, missing, failed, M, ◌>>=◌, ◌>>◌, pure, raise, effect, check,
}
use docker_stuff.Builder.Commit.{is_empty, shell, set_cmd, restoring, try_cache, run, commit}

-- `&Config{}`
abbrev pub empty_config : Config
empty_config = record {
  hostname = [];
  domainname = [];
  user = [];
  memory = 0;
  memory_swap = 0;
  cpu_shares = 0;
  attach_stdin = false;
  attach_stdout = false;
  attach_stderr = false;
  port_specs = [];
  tty = false;
  open_stdin = false;
  stdin_once = false;
  env = [];
  cmd = [];
  dns = [];
  image = [];
  volumes = [];
  volumes_from = [];
  working_dir = [];
  entrypoint = [];
  network_disabled = false;
  privileged = false;
}

abbrev pub base_env : List Bytes
base_env =
    codes "HOME=/" ∷ codes "PATH=/usr/local/sbin:/usr/local/bin:/usr/sbin:/usr/bin:/sbin:/bin" ∷ []

-- The configuration of `ParseRun` for an image and a command without options.
abbrev pub run_config : Bytes → List Bytes → Config
run_config image cmd = record empty_config {
  attach_stdout = true;
  attach_stderr = true;
  image = image;
  cmd = cmd;
}

-- The verb `%v` of a list of strings
unfoldable pub show_list : List Bytes → Bytes
unfolding join
show_list l = b'[' ∷ (join (codes " ") l ++ b']' ∷ [])

module _ {W : Type 0} (o : Outside W) where
  abbrev pub start_from : Bytes → M W (Unit {0})
  start_from id b =
      (ok tt, record b { image = id; config = record empty_config { env = base_env } })

  abbrev pub from_second : Lookup → M W (Unit {0})
  from_second (found id) = start_from id
  from_second missing = raise outside_failed
  from_second failed = raise outside_failed

  abbrev pub pull_image : Bytes → M W (Unit {0})
  pull_image name = let (remote, tag) = parse_repository_tag name in check (o.image_pull remote tag)

  abbrev pub from_first : Bytes → Lookup → M W (Unit {0})
  from_first name (found id) = start_from id
  from_first name failed = raise outside_failed
  from_first name missing = do
    pull_image name
    again ← effect (o.lookup_image name)
    from_second again

  unfoldable pub cmd_from : Bytes → M W (Unit {0})
  cmd_from name = do image ← effect (o.lookup_image name); from_first name image

  abbrev pub commit_step : Bytes → M W (Unit {0})
  commit_step comment b = commit o [] b.config.cmd comment b

  unfoldable pub cmd_maintainer : Bytes → M W (Unit {0})
  cmd_maintainer name b = commit_step (codes "MAINTAINER " ++ name) (record b { maintainer = name })

  abbrev pub run_unless : Bool → List Bytes → M W (Unit {0})
  run_unless true cmd = pure tt
  run_unless false cmd = do cid ← run o; commit o cid cmd (codes "run")

  abbrev pub run_or_cached : List Bytes → M W (Unit {0})
  run_or_cached cmd = do used ← try_cache o; run_unless used cmd

  abbrev pub run_merged : List Bytes → Option Config → M W (Unit {0})
  run_merged cmd none b = (panicked, b)
  run_merged cmd (some merged) b = restoring cmd (run_or_cached cmd) (record b { config = merged })

  unfoldable pub cmd_run : Bytes → M W (Unit {0})
  unfolding merge_config
  cmd_run args b =
      if is_empty b.image
      then (err no_source, b)
      else run_merged b.config.cmd
          (merge_config (record b.config { cmd = [] }) (run_config b.image (shell args)))
          (set_cmd [] b)

  -- A list in JSON, or else a command of the shell.
  abbrev pub shell_form : Bytes → Option (List Bytes) → List Bytes
  shell_form args none = shell args
  shell_form args (some l) = l

  abbrev pub set_cmd_after : List Bytes → M W (Unit {0})
  set_cmd_after cmd b = (ok tt, set_cmd cmd b)

  unfoldable pub cmd_cmd : Bytes → M W (Unit {0})
  unfolding commit show_list
  cmd_cmd args =
      let cmd = shell_form args (o.unmarshal args) in
      commit o [] cmd (codes "CMD " ++ show_list cmd) >> set_cmd_after cmd

  unfoldable pub cmd_expose : Bytes → M W (Unit {0})
  unfolding split show_list
  cmd_expose args b =
      let ports = split b' ' args in
      commit_step (codes "EXPOSE " ++ show_list ports)
        (record b { config = record b.config { port_specs = ports ++ b.config.port_specs } })

  unfoldable pub cmd_user : Bytes → M W (Unit {0})
  cmd_user args b =
      commit_step (codes "USER " ++ args) (record b { config = record b.config { user = args } })

  unfoldable pub cmd_insert : Bytes → M W (Unit {0})
  cmd_insert args = raise deprecated

  unfoldable pub cmd_copy : Bytes → M W (Unit {0})
  cmd_copy args = raise deprecated

  unfoldable pub cmd_entrypoint : Bytes → M W (Unit {0})
  cmd_entrypoint args b =
      let entrypoint = shell_form args (o.unmarshal args) in
      if is_empty args
      then (err empty_argument, b)
      else commit_step (codes "ENTRYPOINT " ++ args)
          (record b { config = record b.config { entrypoint = entrypoint } })

  unfoldable pub cmd_workdir : Bytes → M W (Unit {0})
  cmd_workdir workdir b =
      commit_step (codes "WORKDIR " ++ workdir)
        (record b { config = record b.config { working_dir = workdir } })

  abbrev pub volumes_of : Bytes → Option (List Bytes) → List Bytes
  volumes_of args none = args ∷ []
  volumes_of args (some l) = l

  unfoldable pub cmd_volume : Bytes → M W (Unit {0})
  unfolding add_volumes
  cmd_volume args b =
      let volumes = add_volumes (volumes_of args (o.unmarshal args)) b.config.volumes in
      if is_empty args
      then (err empty_argument, b)
      else commit_step (codes "VOLUME " ++ args)
          (record b { config = record b.config { volumes = volumes } })
