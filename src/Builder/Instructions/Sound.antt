-- ===== src/Builder/Instructions/Sound.antt =====
-- Where the variables of the builder and of all images have a value, an instruction panics only in
-- the merge of `Create`, and the builder's keep having one.
use docker_stuff.Base.{
  if◌then◌else◌, ◌≡◌, refl, sym, ◌∙◌, Bool, true, false, List, [], ◌∷◌, ◌++◌, some, Bytes, codes,
  All,
}
use mathlib.Core.Path.{subst}
use docker_stuff.Text.Split.{cut}
use docker_stuff.Config.{
  Config, merge_config, merge_env, merge_ports, add_ports, add_env, add_volumes,
}
use docker_stuff.Names.{parse_repository_tag}
use docker_stuff.Builder.{
  no_source, empty_argument, BuildFile, Outside, Result, ok, err, panicked, Lookup, found, missing,
  failed, M, ◌>>=◌, effect, after,
}
use docker_stuff.Builder.Commit.{is_empty, shell, set_cmd, restoring, try_cache, run, commit}
use docker_stuff.Builder.Create.Extends.{
  HasValue, Valued, MergePanic, Extends-refl, Calm, after-Calm, >>=-Calm, check-Keeps,
}
use docker_stuff.Builder.Commit.Frame.{commit-Keeps, try_cache-Keeps, run-Calm, cons-ne-nil}
use docker_stuff.Builder.Instructions.{
  base_env, run_config, from_first, from_second, pull_image, cmd_from, commit_step, cmd_maintainer,
  run_unless, run_or_cached, run_merged, cmd_run, cmd_cmd, cmd_expose, cmd_user, cmd_entrypoint,
  cmd_workdir, cmd_volume, shell_form, set_cmd_after, show_list, volumes_of,
}

-- Every variable of the builder has a value.
abbrev pub HasValues : {W : Type 0} → BuildFile W → Type 0
HasValues b = All HasValue b.config.env

module _ {W : Type 0} (o : Outside W) where
  -- The builder of an outcome has values, or it is the panic of a merge.
  abbrev pub Fine : {A : Type 0} → Result A × BuildFile W → Type 0
  Fine (ok a, b) = HasValues b
  Fine (err e, b) = HasValues b
  Fine (panicked, b) = MergePanic o

  pub after-Fine :
      {A B : Type 0} (t : Result A × BuildFile W) (f : A → M W B)
      → Fine t
      → ((a : A) (b : BuildFile W) → HasValues b → Fine (f a b))
      → Fine (after t.0 f t.1)
  after-Fine (ok a, b) f h k = k a b h
  after-Fine (err e, b) f h k = h
  after-Fine (panicked, b) f h k = h

  pub if-Fine :
      {A : Type 0} (t : Bool) (x y : Result A × BuildFile W)
      → Fine x
      → Fine y
      → Fine (if t then x else y)
  if-Fine true x y h k = h
  if-Fine false x y h k = k

  restored-Fine :
      {A : Type 0} (cmd : List Bytes) (t : Result A × BuildFile W)
      → Fine t
      → Fine (t.0, set_cmd cmd t.1)
  restored-Fine cmd (ok a, b) h = h
  restored-Fine cmd (err e, b) h = h
  restored-Fine cmd (panicked, b) h = h

base_env-HasValue : All HasValue base_env
unfolding cut
base_env-HasValue = (λ e. cc, (λ e. cc, tt))

merge_env_none : (env : List Bytes) → merge_env env [] ≡ env
unfolding merge_env add_env
merge_env_none [] = refl
merge_env_none (e ∷ env) = refl

merge_ports_nothing : (specs : List Bytes) → merge_ports specs [] ≡ some specs
unfolding merge_ports add_ports
merge_ports_nothing [] = refl
merge_ports_nothing (s ∷ specs) = refl

module _ {W : Type 0} (o : Outside W) (valued : Valued o) where
  pub Calm-Fine :
      {A : Type 0} (b : BuildFile W) (t : Result A × BuildFile W)
      → Calm o b t
      → HasValues b
      → Fine o t
  Calm-Fine b (ok a, b') (_, _, _, _, _, _, values) h = values valued h
  Calm-Fine b (err e, b') (_, _, _, _, _, _, values) h = values valued h
  Calm-Fine b (panicked, b') c h = c

  pub commit-Fine :
      (id : Bytes) (auto_cmd : List Bytes) (comment : Bytes) (b : BuildFile W)
      → HasValues b
      → Fine o (commit o id auto_cmd comment b)
  commit-Fine id auto_cmd comment b h =
      Calm-Fine b (commit o id auto_cmd comment b) (commit-Keeps o id auto_cmd comment b) h

  commit_step-Fine :
      (comment : Bytes) (b : BuildFile W) → HasValues b → Fine o (commit_step o comment b)
  commit_step-Fine comment b h = commit-Fine [] b.config.cmd comment b h

  from_second-Fine :
      (again : Lookup) (b : BuildFile W) → HasValues b → Fine o (from_second o again b)
  from_second-Fine (found id) b h = base_env-HasValue
  from_second-Fine missing b h = h
  from_second-Fine failed b h = h

  from_first-Fine :
      (name : Bytes) (image : Lookup) (b : BuildFile W)
      → HasValues b
      → Fine o (from_first o name image b)
  from_first-Fine name (found id) b h = base_env-HasValue
  from_first-Fine name failed b h = h
  from_first-Fine name missing b h =
      after-Fine o (pull_image o name b) (λ _. effect (o.lookup_image name) >>= from_second o)
        (Calm-Fine b (pull_image o name b)
          (check-Keeps o (o.image_pull (parse_repository_tag name).0 (parse_repository_tag name).1)
            b)
          h)
        (λ _ b1 h1. from_second-Fine (o.lookup_image name b1.world).0 (record b1 { world = _ }) h1)

  pub cmd_from-Fine : (name : Bytes) (b : BuildFile W) → HasValues b → Fine o (cmd_from o name b)
  unfolding cmd_from
  cmd_from-Fine name b h =
      from_first-Fine name (o.lookup_image name b.world).0 (record b { world = _ }) h

  run_unless-Keeps :
      (used : Bool) (cmd : List Bytes) (b : BuildFile W) (path : Bytes) (args : List Bytes)
      → b.config.cmd ≡ path ∷ args
      → Calm o b (run_unless o used cmd b)
  run_unless-Keeps true cmd b path args e = Extends-refl o b.config
  run_unless-Keeps false cmd b path args e =
      >>=-Calm o (run o) (λ cid. commit o cid cmd (codes "run")) b (run-Calm o b path args e)
        (λ cid. commit-Keeps o cid cmd (codes "run"))

  run_or_cached-Calm :
      (cmd : List Bytes) (b : BuildFile W) (path : Bytes) (args : List Bytes)
      → b.config.cmd ≡ path ∷ args
      → Calm o b (run_or_cached o cmd b)
  run_or_cached-Calm cmd b path args e =
      after-Calm o b (try_cache o b) (λ used. run_unless o used cmd) (try_cache-Keeps o b)
        (λ used b1 extends.
          run_unless-Keeps used cmd b1 path args
            (extends.0 (cons-ne-nil o b.config.cmd path args e) ∙ e))

  run_merged-Fine :
      (cmd : List Bytes) (d : Config) (b : BuildFile W) (command : Bytes)
      → d.cmd ≡ shell command
      → All HasValue d.env
      → Fine o (run_merged o cmd (some d) b)
  unfolding restoring
  run_merged-Fine cmd d b command e h =
      let b1 = record b { config = d } in
      restored-Fine o cmd (run_or_cached o cmd b1)
        (Calm-Fine b1 (run_or_cached o cmd b1) (run_or_cached-Calm cmd b1 _ _ e) h)

  merged-Fine :
      (args : Bytes) (b : BuildFile W)
      → HasValues b
      → Fine o (
          run_merged o b.config.cmd
            (merge_config (record b.config { cmd = [] }) (run_config b.image (shell args)))
            (set_cmd [] b))
  unfolding merge_config
  merged-Fine args b h =
      rw (merge_ports_nothing b.config.port_specs, merge_config)
        (run_merged-Fine b.config.cmd _ (set_cmd [] b) args refl
          (subst (All HasValue) (sym (merge_env_none b.config.env)) h))

  pub cmd_run-Fine : (args : Bytes) (b : BuildFile W) → HasValues b → Fine o (cmd_run o args b)
  unfolding cmd_run
  cmd_run-Fine args b h =
      if-Fine o (is_empty b.image) (err no_source, b)
        (run_merged o b.config.cmd
          (merge_config (record b.config { cmd = [] }) (run_config b.image (shell args)))
          (set_cmd [] b))
        h (merged-Fine args b h)

  pub cmd_maintainer-Fine :
      (name : Bytes) (b : BuildFile W) → HasValues b → Fine o (cmd_maintainer o name b)
  unfolding cmd_maintainer
  cmd_maintainer-Fine name b h =
      commit_step-Fine (codes "MAINTAINER " ++ name) (record b { maintainer = name }) h

  pub cmd_cmd-Fine : (args : Bytes) (b : BuildFile W) → HasValues b → Fine o (cmd_cmd o args b)
  unfolding cmd_cmd
  cmd_cmd-Fine args b h =
      let cmd = shell_form o args (o.unmarshal args) in
      let comment = codes "CMD " ++ show_list cmd in
      after-Fine o (commit o [] cmd comment b) (λ _. set_cmd_after o cmd)
        (commit-Fine [] cmd comment b h) (λ _ b1 h1. h1)

  pub cmd_expose-Fine :
      (args : Bytes) (b : BuildFile W) → HasValues b → Fine o (cmd_expose o args b)
  unfolding cmd_expose
  cmd_expose-Fine args b h =
      commit_step-Fine _ (record b { config = record b.config { port_specs = _ } }) h

  pub cmd_user-Fine : (args : Bytes) (b : BuildFile W) → HasValues b → Fine o (cmd_user o args b)
  unfolding cmd_user
  cmd_user-Fine args b h =
      commit_step-Fine _ (record b { config = record b.config { user = args } }) h

  pub cmd_entrypoint-Fine :
      (args : Bytes) (b : BuildFile W) → HasValues b → Fine o (cmd_entrypoint o args b)
  unfolding cmd_entrypoint
  cmd_entrypoint-Fine args b h =
      let b1 = record b {
        config = record b.config { entrypoint = shell_form o args (o.unmarshal args) };
      } in
      let comment = codes "ENTRYPOINT " ++ args in
      if-Fine o (is_empty args) (err empty_argument, b) (commit_step o comment b1) h
        (commit_step-Fine comment b1 h)

  pub cmd_workdir-Fine :
      (args : Bytes) (b : BuildFile W) → HasValues b → Fine o (cmd_workdir o args b)
  unfolding cmd_workdir
  cmd_workdir-Fine args b h =
      commit_step-Fine _ (record b { config = record b.config { working_dir = args } }) h

  pub cmd_volume-Fine :
      (args : Bytes) (b : BuildFile W) → HasValues b → Fine o (cmd_volume o args b)
  unfolding cmd_volume
  cmd_volume-Fine args b h =
      let volumes = add_volumes (volumes_of o args (o.unmarshal args)) b.config.volumes in
      let b1 = record b { config = record b.config { volumes = volumes } } in
      let comment = codes "VOLUME " ++ args in
      if-Fine o (is_empty args) (err empty_argument, b) (commit_step o comment b1) h
        (commit_step-Fine comment b1 h)
