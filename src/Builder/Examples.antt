-- ===== src/Builder/Examples.antt =====
-- A daemon that counts the calls it gets, and a build with it.
use docker_stuff.Base.{
  ℕ, suc, ◌==◌, if◌then◌else◌, ◌≡◌, ◌≢◌, refl, ◌∷◌, ◌++◌, [], List, true, false, none, some, Bytes,
  codes, All, some_inj,
}
use mathlib.Core.Path.{subst}
use docker_stuff.Text.Split.{cut, split, onto_first, eq_bytes}
use docker_stuff.Text.Trim.{
  trim, in_set, trim_left, trim_right, to_lower, lower, replace_all, replace_from, has_prefix,
}
use docker_stuff.Config.{Config, merge_config, merge_env, merge_ports, add_env, has_env, env_key}
use docker_stuff.Config.Merge.{find_env}
use docker_stuff.Builder.{BuildFile, Outside, ok, panicked, found, text, plain_file}
use docker_stuff.Builder.Commit.{
  commit, commit_new, commit_mounted, commit_container, commit_image, try_cache, probe,
  create_container, restoring, run, run_source, run_container,
}
use docker_stuff.Builder.Create.{create}
use docker_stuff.Builder.Create.Extends.{HasValue, Valued, Grows}
use docker_stuff.Builder.Env.{
  cmd_env, replace_env_matches, replace_matches, replace_match, put_env, from_dollar, value_of_key,
  find_env_key,
}
use docker_stuff.Builder.Env.Variables.{cmd_env-Grows}
use docker_stuff.Builder.Instructions.{cmd_from, cmd_run, base_env, empty_config}
use docker_stuff.Builder.Dockerfile.{
  build, build_named, build_source, build_lines, parse_lines, parse_line, tabs_to_spaces,
  call_method, finish, clear_tmp, new_build_file,
}

abbrev dockerfile : Bytes
dockerfile = codes "from base\n# variables\nENV A $HOME\nRUN ls\n"

-- A match for every text that has the variable HOME at its start.
abbrev home_match : Bytes → List Bytes
home_match [] = []
home_match (c ∷ s) = if c == b'$' then codes "$HOME" ∷ [] else []

-- The configuration of the base image
abbrev base_config : Config
base_config = record empty_config { user = codes "root"; env = codes "LANG=C" ∷ [] }

abbrev daemon : Outside ℕ
daemon = record {
  lookup_image = λ name w. (found (codes "base0"), suc w);
  image_pull = λ name tag w. (true, suc w);
  image_get_cached = λ image config w. (some none, suc w);
  image_config = λ name w. (some (some base_config), suc w);
  generate_id = λ w. (codes "container", suc w);
  make_container = λ id config w. (true, suc w);
  get = λ id w. true;
  ensure_mounted = λ id w. (true, suc w);
  unmount = λ id w. suc w;
  start = λ id path args w. (true, suc w);
  attach = λ id w. (true, suc w);
  wait = λ id w. (0, suc w);
  commit_container = λ id author config w. (some (codes "image"), suc w);
  destroy = λ id w. suc w;
  download = λ url w. (none, suc w);
  inject = λ id body dest w. (true, suc w);
  rootfs = λ id w. codes "/rootfs";
  stat = λ path w. plain_file;
  copy_with_tar = λ from to w. (true, suc w);
  untar_path = λ from to w. (false, suc w);
  mkdir_all = λ path w. (true, suc w);
  temp_dir = λ w. (some (codes "/tmp/docker-build"), suc w);
  untar = λ name w. (true, suc w);
  read_dockerfile = λ name w. text dockerfile;
  remove_all = λ name w. suc w;
  unmarshal = λ s. none;
  env_matches = home_match;
  join_lines = λ s. s;
  join_path = λ a b. a ++ b'/' ∷ b;
  dir_of = λ path. path;
  is_url = λ s. false;
  url_path = λ s. none;
}

abbrev started : BuildFile ℕ
started = record (new_build_file false true false 0) {
  image = codes "base0";
  config = record empty_config { env = base_env };
}

base_config-HasValue : Valued daemon
unfolding cut
base_config-HasValue image (name, w, e) =
    subst (λ (c : Config). All HasValue c.env) (some_inj (some_inj e)) ((λ none_there. cc), tt)

-- The variable HOME of the base image stands in for its name.
home_of_base : replace_env_matches daemon (codes "$HOME") base_env ≡ some (codes "/")
unfolding replace_env_matches replace_matches replace_match from_dollar value_of_key trim in_set
    trim_left trim_right replace_all replace_from has_prefix cut eq_bytes
home_of_base = refl

split_env : cut b' ' (codes "A $HOME") ≡ (codes "A", some (codes "$HOME"))
unfolding cut
split_env = refl

build_image : (build daemon (new_build_file false true true 0)).0 ≡ ok (codes "image")
unfolding build build_named build_source build_lines parse_lines parse_line tabs_to_spaces trim
    in_set trim_left trim_right to_lower lower cut split onto_first call_method eq_bytes cmd_from
    cmd_env cmd_run replace_env_matches replace_matches replace_match from_dollar value_of_key
    replace_all replace_from has_prefix put_env find_env_key commit commit_new commit_mounted
    commit_container commit_image try_cache probe create_container create restoring merge_config
    merge_ports merge_env add_env has_env env_key run run_source run_container finish clear_tmp
    new_build_file
build_image = refl

-- A daemon whose image exposes a text that is no port.
abbrev bad_port : Outside ℕ
bad_port = record daemon {
  image_config =
      λ name w. (some (some (record base_config { port_specs = codes "x" ∷ [] })), suc w);
  read_dockerfile = λ name w. text (codes "from base\nexpose 80\n");
}

no_equals : ◌≢◌ {A = ℕ} b'A' b'='
no_equals e = cc

env_ends : (cmd_env daemon (codes "A $HOME") started).0 ≢ panicked
unfolding trim in_set trim_left trim_right cut eq_bytes cmd_env replace_env_matches replace_matches
    replace_match from_dollar value_of_key replace_all replace_from has_prefix put_env find_env_key
    commit commit_new commit_mounted commit_container commit_image try_cache probe create_container
    create restoring merge_config merge_ports merge_env add_env has_env env_key split onto_first
    new_build_file
env_ends e = cc

cmd_env-Grows_example :
    Grows daemon
      (codes "LANG")
      (if eq_bytes (codes "A") (codes "LANG")
        then some (codes "A=/")
        else find_env (codes "LANG") base_env)
      (find_env (codes "LANG") (cmd_env daemon (codes "A $HOME") started).1.config.env)
unfolding trim in_set trim_left trim_right find_env eq_bytes cut replace_env_matches new_build_file
    cmd_env
cmd_env-Grows_example =
    cmd_env-Grows daemon started (codes "A $HOME") (codes "A") (codes "$HOME") (codes "/")
      (codes "LANG") split_env (no_equals, tt) home_of_base env_ends
