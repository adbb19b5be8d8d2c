-- ===== src/Builder/Dockerfile.antt =====
-- `Build` of dotcloud/docker/buildfile.go: the lines of a Dockerfile, and the loop over them.
pub mod Lines
pub mod Safety
use docker_stuff.Base.{
  ℕ, ◌==◌, if◌then◌else◌, Bool, true, false, List, [], ◌∷◌, ◌++◌, Option, none, some, Bytes, codes,
}
use docker_stuff.Text.Split.{cut, split, eq_bytes}
use docker_stuff.Text.Trim.{trim, to_lower}
use docker_stuff.Builder.{
  BuildFile, Outside, Result, ok, err, panicked, BuildError, bad_format, no_dockerfile, no_image,
  outside_failed, Source, absent, unreadable, text, M, ◌>>=◌, ◌>>◌, pure, raise, call, check,
}
use docker_stuff.Builder.Commit.{is_empty}
use docker_stuff.Builder.Env.{cmd_env}
use docker_stuff.Builder.Add.{cmd_add}
use docker_stuff.Builder.Instructions.{
  cmd_from, cmd_maintainer, cmd_run, cmd_cmd, cmd_expose, cmd_user, cmd_insert, cmd_copy,
  cmd_entrypoint, cmd_workdir, cmd_volume, empty_config,
}

pub data Line : Type 0 where
  skipped : Line
  invalid : Line
  step : Bytes → Bytes → Line

-- `strings.Replace(line, "\t", " ", -1)`
unfoldable pub tabs_to_spaces : Bytes → Bytes
tabs_to_spaces [] = []
tabs_to_spaces (c ∷ s) = (if c == b'\t' then b' ' else c) ∷ tabs_to_spaces s

abbrev pub step_of : Bytes × Option Bytes → Line
step_of (left, none) = invalid
step_of (left, some right) = step (to_lower (trim (codes " ") left)) (trim (codes " ") right)

-- Comments and empty lines are skipped.
abbrev pub parse_trimmed : Bytes → Line
parse_trimmed [] = skipped
parse_trimmed (c ∷ line) = if c == b'#' then skipped else step_of (cut b' ' (c ∷ line))

unfoldable pub parse_line : Bytes → Line
unfolding tabs_to_spaces trim to_lower cut
parse_line line = parse_trimmed (trim (codes " \t\r\n") (tabs_to_spaces line))

unfoldable pub parse_lines : List Bytes → List Line
unfolding parse_line
parse_lines [] = []
parse_lines (line ∷ lines) = parse_line line ∷ parse_lines lines

module _ {W : Type 0} (o : Outside W) where
  -- The methods by the names after `Cmd`, in lower case.
  abbrev pub methods : List (Bytes × (Bytes → M W (Unit {0})))
  methods =
      (codes "from", cmd_from o)
      ∷ (codes "maintainer", cmd_maintainer o)
      ∷ (codes "run", cmd_run o)
      ∷ (codes "env", cmd_env o)
      ∷ (codes "cmd", cmd_cmd o)
      ∷ (codes "expose", cmd_expose o)
      ∷ (codes "user", cmd_user o)
      ∷ (codes "insert", cmd_insert o)
      ∷ (codes "copy", cmd_copy o)
      ∷ (codes "entrypoint", cmd_entrypoint o)
      ∷ (codes "workdir", cmd_workdir o)
      ∷ (codes "volume", cmd_volume o)
      ∷ (codes "add", cmd_add o)
      ∷ []

  -- An instruction without a method is skipped.
  unfoldable pub call_method :
      List (Bytes × (Bytes → M W (Unit {0}))) → Bytes → Bytes → M W (Unit {0})
  call_method [] instruction arguments b = (ok tt, b)
  call_method ((name, method) ∷ others) instruction arguments b =
      let rest = call_method others instruction arguments b in
      if eq_bytes name instruction then method arguments b else rest

  -- `instruction[:1]`: without a byte the index panics.
  abbrev pub call_named : Bytes → Bytes → M W (Unit {0})
  call_named [] arguments b = (panicked, b)
  call_named (c ∷ instruction) arguments b = call_method methods (c ∷ instruction) arguments b

  -- The loop of `Build`, up to the first error.
  unfoldable pub build_lines : List Line → M W (Unit {0})
  unfolding call_method
  build_lines [] b = (ok tt, b)
  build_lines (skipped ∷ lines) b = build_lines lines b
  build_lines (invalid ∷ lines) b = (err bad_format, b)
  build_lines (step instruction arguments ∷ lines) b =
      (call_named instruction arguments >> build_lines lines) b

  -- `clearTmp`; an error of `Destroy` is ignored.
  unfoldable pub clear_tmp : List Bytes → W → W
  clear_tmp [] w = w
  clear_tmp (c ∷ containers) w = clear_tmp containers (o.destroy c w)

  unfoldable pub finish : M W Bytes
  unfolding clear_tmp
  finish b =
      let cleared = if b.rm then clear_tmp b.tmp_containers b.world else b.world in
      if is_empty b.image then (err no_image, b) else (ok b.image, record b { world = cleared })

  unfoldable pub build_source : Source → M W Bytes
  unfolding build_lines finish parse_lines
  build_source absent b = (err no_dockerfile, b)
  build_source unreadable b = (err outside_failed, b)
  build_source (text t) b = (build_lines (parse_lines (split b'\n' (o.join_lines t))) >> finish) b

  abbrev pub build_in : Bytes → M W Bytes
  build_in name b = build_source (o.read_dockerfile name b.world) (record b { context = name })

  -- `defer os.RemoveAll(name)`
  abbrev pub deferring_remove : Bytes → M W Bytes → M W Bytes
  deferring_remove name m b =
      let (r, b') = m b in (r, record b' { world = o.remove_all name b'.world })

  unfoldable pub build_named : Bytes → M W Bytes
  unfolding build_source
  build_named name = check (o.untar name) >> deferring_remove name (build_in name)

  unfoldable pub build : M W Bytes
  unfolding build_named
  build = call o.temp_dir >>= build_named

-- `NewBuildFile`
unfoldable pub new_build_file : {W : Type 0} → Bool → Bool → Bool → W → BuildFile W
new_build_file verbose utilize_cache rm world = record {
  image = [];
  maintainer = [];
  config = empty_config;
  context = [];
  verbose = verbose;
  utilize_cache = utilize_cache;
  rm = rm;
  tmp_containers = [];
  tmp_images = [];
  world = world;
}
